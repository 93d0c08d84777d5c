-- ===== src/Envelope/Window.antt =====
-- guardian-network/src/shared/signed-envelope.ts: what the class `NonceTracker` promises, without
-- its set and its queue.
use attested_capital.Base.{
  ℕ, zero, suc, ◌-◌, ◌≤◌, ltb, not, ◌≡◌, refl, ap, sym, ◌∙◌, String, Bool, Bool-cases, true, false,
  List, [], ◌∷◌, ◌++◌, length, length-append, drop, if◌then◌else◌, if_true, if_false, inl, inr,
  arith,
}
use attested_capital.Envelope.Nonces.{Tracker, new_tracker, has, check}
use attested_capital.Envelope.Replay.{IsSynced, pushed, tail, check-new, check-IsSynced}

-- The last of a list.
abbrev pub last_of : ℕ → List String → List String
last_of n l = drop (length l - n) l

-- The specification: the nonces accepted so far, of which the last `max_size` are looked at.
abbrev pub accepts : ℕ → List String → String → Bool
accepts max_size accepted nonce = not (has nonce (last_of max_size accepted))

abbrev pub promised : ℕ → List String → List String → List Bool
promised max_size accepted [] = []
promised max_size accepted (nonce ∷ rest) =
    let refused = promised max_size accepted rest in
    let recorded = promised max_size (accepted ++ nonce ∷ []) rest in
    if accepts max_size accepted nonce then true ∷ recorded else false ∷ refused

-- What the tracker answers.
abbrev pub answers : ℕ → Tracker → List String → List Bool
answers max_size t [] = []
answers max_size t (nonce ∷ rest) =
    let r = check max_size nonce t in r.0 ∷ answers max_size r.1 rest

-- The queue is the end of the history.
record Simulates (max_size : ℕ) (accepted : List String) (t : Tracker) : Type 0 where
  pub synced : IsSynced max_size t
  pub recent : t.order ≡ last_of max_size accepted

drop-append : (k : ℕ) (l r : List String) → k ≤ length l → drop k (l ++ r) ≡ drop k l ++ r
drop-append zero l r h = refl
drop-append (suc k) [] r h = ground arith
drop-append (suc k) (x ∷ l) r h = drop-append k l r (omega arith)

tail-drop : (k : ℕ) (l : List String) → tail (drop k l) ≡ drop (suc k) l
tail-drop zero [] = refl
tail-drop zero (x ∷ l) = refl
tail-drop (suc k) [] = refl
tail-drop (suc k) (x ∷ l) = tail-drop k l

drop-nil : (k : ℕ) → drop {A = String} k [] ≡ []
drop-nil zero = refl
drop-nil (suc k) = refl

length-drop : (k : ℕ) (l : List String) → length (drop k l) ≡ length l - k
length-drop zero l = omega arith
length-drop (suc k) [] = omega arith
length-drop (suc k) (x ∷ l) = omega (arith, length-drop k l)

cut-drop :
    (n k : ℕ) (m : List String) (len : ℕ)
    → length m ≡ suc len
    → k ≡ len - n
    → (if ltb n (length (drop k m)) then tail (drop k m) else drop k m) ≡ last_of n m
cut-drop n k m len size cut = elim (Bool-cases (ltb n (length (drop k m)))) [
  | inl full ↦
      let more : suc k ≡ length m - n = ground (arith, length-drop k m) in
      if_true _ _ _ full ∙ tail-drop k m ∙ ap (λ j. drop j m) more
  | inr fits ↦
      let same : k ≡ length m - n = ground (arith, length-drop k m) in
      if_false _ _ _ fits ∙ ap (λ j. drop j m) same
]

pushed-last_of :
    (n : ℕ) (x : String) (l : List String) → pushed n x (last_of n l) ≡ last_of n (l ++ x ∷ [])
pushed-last_of n x l =
    ap (λ m. if ltb n (length m) then tail m else m)
      (sym (drop-append (length l - n) l (x ∷ []) (omega arith)))
    ∙ cut-drop n (length l - n) (l ++ x ∷ []) (length l) (omega (arith, length-append l (x ∷ [])))
        refl

module _ (max_size : ℕ) where
  check-known :
      (nonce : String) (t : Tracker)
      → IsSynced max_size t
      → has nonce t.order ≡ true
      → check max_size nonce t ≡ (false, t)
  unfolding check
  check-known nonce t s known = rw (s.same, known) refl

  check-Simulates :
      (nonce : String) (accepted : List String) (t : Tracker)
      → Simulates max_size accepted t
      → has nonce t.order ≡ false
      → Simulates max_size (accepted ++ nonce ∷ []) (check max_size nonce t).1
  check-Simulates nonce accepted t s new = record {
    synced = check-IsSynced max_size nonce t s.synced;
    recent =
        ap (λ r. r.1.order) (check-new max_size nonce t s.synced new)
        ∙ ap (pushed max_size nonce) s.recent
        ∙ pushed-last_of max_size nonce accepted;
  }

  answers-promised :
      (nonces accepted : List String) (t : Tracker)
      → Simulates max_size accepted t
      → answers max_size t nonces ≡ promised max_size accepted nonces
  answers-promised [] accepted t s = refl
  answers-promised (nonce ∷ rest) accepted t s = elim (Bool-cases (has nonce t.order)) [
    | inl known ↦
        ap (λ r. r.0 ∷ answers max_size r.1 rest) (check-known nonce t s.synced known)
        ∙ ap (◌∷◌ false) (answers-promised rest accepted t s)
        ∙ sym (if_false _ _ _ (ap not (ap (has nonce) (sym s.recent) ∙ known)))
    | inr new ↦
        ap (λ r. r.0 ∷ answers max_size (check max_size nonce t).1 rest)
          (check-new max_size nonce t s.synced new)
        ∙ ap (◌∷◌ true) (
            answers-promised rest (accepted ++ nonce ∷ []) (check max_size nonce t).1
              (check-Simulates nonce accepted t s new))
        ∙ sym (if_true _ _ _ (ap not (ap (has nonce) (sym s.recent) ∙ new)))
  ]

  -- A tracker that starts empty answers a sequence of nonces as the specification that keeps all
  -- accepted nonces and looks only at the last max_size of them.
  pub answers-refines :
      (nonces : List String) → answers max_size new_tracker nonces ≡ promised max_size [] nonces
  answers-refines nonces = answers-promised nonces [] new_tracker (record {
    synced = record { same = refl; unique = tt; small = omega arith };
    recent = sym (drop-nil (0 - max_size));
  })
