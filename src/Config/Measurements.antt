-- ===== src/Config/Measurements.antt =====
-- panthers-fund/src/agent/config-api.ts: the approved measurements as a set.
use Prim.Native.String.{String}
use attested_capital.Base.{
  str_eq, str_eq_iff, ◌≡◌, refl, ap, sym, ◌∙◌, Bool, Bool-cases, true, false, not, ◌||◌, ◌&&◌, List,
  [], ◌∷◌, ◌++◌, any, if◌then◌else◌, inl, inr, arith,
}
use attested_capital.Envelope.Nonces.{has}
use attested_capital.Envelope.Replay.{Unique, str_eq-sym, has-append, Unique-append}
use attested_capital.Config.{
  ConfigRequest, Fund, ConfigResponse, done, missing_measurement, unknown_action, text_or, is_text,
  push_unless, remove_first, handle_tee_measurements,
}

-- What a request asks for of a measurement that is approved or not.
abbrev pub asked : ConfigRequest → String → Bool → Bool
asked request x old =
    let m = text_or "" request.payload.measurement in
    if str_eq m ""
    then old
    else if str_eq request.action "approve"
    then old || str_eq m x
    else if str_eq request.action "revoke"
    then old && not (str_eq m x)
    else old

-- Each measurement is kept once, and exactly those that are wanted.
abbrev pub Keeps : (String → Bool) → ConfigResponse × Fund → Type 0
Keeps wanted r =
    Unique r.1.tee_measurements × ((x : String) → has x r.1.tee_measurements ≡ wanted x)

text_of : (a b : String) → str_eq a b ≡ true → a ≡ b
text_of a b h = (str_eq_iff a b).0 h

or_false : (b : Bool) → b ≡ (b || false)
or_false true = refl
or_false false = refl

module _ (m : String) where
  known-set : (l : List String) (x : String) → has m l ≡ true → has x l ≡ (has x l || str_eq m x)
  known-set l x known = elim (Bool-cases (str_eq m x)) [
    | inl same ↦ rw (ap (λ y. has y l) (sym (text_of m x same)) ∙ known) refl
    | inr other ↦ or_false (has x l) ∙ ap (λ b. has x l || b) (sym other)
  ]

  dropped-set :
      (y x : String) (l : List String)
      → str_eq y m ≡ true
      → has y l ≡ false
      → has x l ≡ ((str_eq y x || has x l) && not (str_eq m x))
  dropped-set y x l here gone = elim (Bool-cases (str_eq m x)) [
    | inl same ↦
        let absent : has x l ≡ false =
          ap (λ z. has z l) (sym (text_of y m here ∙ text_of m x same)) ∙ gone in
        ground arith
    | inr other ↦
        let differs : str_eq y x ≡ false = ap (λ z. str_eq z x) (text_of y m here) ∙ other in
        ground arith
  ]

  later-set :
      (y x : String) (old new : Bool)
      → str_eq y m ≡ false
      → new ≡ (old && not (str_eq m x))
      → (str_eq y x || new) ≡ ((str_eq y x || old) && not (str_eq m x))
  later-set y x old new other same = elim (Bool-cases (str_eq y x)) [
    | inl here ↦
        let differs : str_eq m x ≡ false =
          ap (str_eq m) (sym (text_of y x here)) ∙ str_eq-sym y m other in
        ground arith
    | inr later ↦ ground arith
  ]

  pushed-set :
      (l : List String)
      → Unique l
      → Unique (push_unless (is_text m) m l)
        × ((x : String) → has x (push_unless (is_text m) m l) ≡ (has x l || str_eq m x))
  unfolding has
  pushed-set l u = by_test (any (is_text m) l) refl
    where
      by_test :
          (b : Bool)
          → any (is_text m) l ≡ b
          → Unique (if b then l else l ++ m ∷ [])
            × ((x : String)
                → any (λ n. str_eq n x) (if b then l else l ++ m ∷ [])
                  ≡ (any (λ n. str_eq n x) l || str_eq m x))
      by_test true known = (u, λ x. known-set l x known)
      by_test false new = (Unique-append m l new u, λ x. has-append x m l)

  removed-set :
      (l : List String)
      → Unique l
      → Unique (remove_first (is_text m) l)
        × ((x : String) → has x (remove_first (is_text m) l) ≡ (has x l && not (str_eq m x)))
  unfolding has
  removed-set [] u = (tt, λ x. refl)
  removed-set (y ∷ l) u = by_test (is_text m y) refl (removed-set l u.1)
    where
      by_test :
          (b : Bool)
          → is_text m y ≡ b
          → Unique (remove_first (is_text m) l)
            × ((x : String) → has x (remove_first (is_text m) l) ≡ (has x l && not (str_eq m x)))
          → Unique (if b then l else y ∷ remove_first (is_text m) l)
            × ((x : String)
                → has x (if b then l else y ∷ remove_first (is_text m) l)
                  ≡ ((str_eq y x || has x l) && not (str_eq m x)))
      by_test true here ih = (u.1, λ x. dropped-set y x l here u.0)
      by_test false other ih = (
        (ih.1 y ∙ ap (λ b. b && not (str_eq m y)) u.0, ih.0),
        λ x. later-set y x (has x l) _ other (ih.1 x),
      )

-- The approved measurements are a set: if each is kept once, then a request approves or revokes
-- exactly the measurement that it names, if its action says so, leaves all others as they are, and
-- each is kept once again.
handle_tee_measurements-Keeps :
    (request : ConfigRequest) (fund : Fund)
    → Unique fund.tee_measurements
    → Keeps
        (λ x. asked request x (has x fund.tee_measurements))
        (handle_tee_measurements request fund)
unfolding handle_tee_measurements
handle_tee_measurements-Keeps request fund u =
    let m = text_or "" request.payload.measurement in
    let l = fund.tee_measurements in
    by_tests (str_eq m "") (str_eq request.action "approve") (str_eq request.action "revoke")
      (record fund { tee_measurements = push_unless (is_text m) m l })
      (record fund { tee_measurements = remove_first (is_text m) l }) (λ x. has x l || str_eq m x)
      (λ x. has x l && not (str_eq m x)) (pushed-set m l u) (removed-set m l u)
  where
    by_tests :
        (empty approves revokes : Bool) (added removed : Fund) (in_added in_removed : String → Bool)
        → Keeps in_added (done, added)
        → Keeps in_removed (done, removed)
        → Keeps
            (λ x.
              if empty
              then has x fund.tee_measurements
              else if approves
              then in_added x
              else if revokes
              then in_removed x
              else has x fund.tee_measurements)
            (if empty
              then (missing_measurement, fund)
              else if approves
              then (done, added)
              else if revokes
              then (done, removed)
              else (unknown_action, fund))
    by_tests true approves revokes added removed i j a r = (u, λ x. refl)
    by_tests false true revokes added removed i j a r = a
    by_tests false false true added removed i j a r = r
    by_tests false false false added removed i j a r = (u, λ x. refl)
