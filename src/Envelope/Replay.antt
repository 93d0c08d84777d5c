-- ===== src/Envelope/Replay.antt =====
-- A nonce that was accepted is refused until as many others as the tracker holds have come.
use attested_capital.Base.{
  ℕ, suc, ◌+◌, ◌-◌, ◌≤◌, ◌<◌, ◌≡◌, ◌∙◌, refl, ap, sym, ltb, str_eq, str_eq_iff, ◌||◌, String,
  Bool-cases, inl, inr, true, false, List, [], ◌∷◌, ◌++◌, any, length, length-append, if◌then◌else◌,
  arith,
}
use attested_capital.Envelope.Nonces.{Tracker, has, add, delete, evict, check}

-- No nonce stands twice in a list.
abbrev pub Unique : List String → Type 0
Unique [] = Unit
Unique (n ∷ l) = (has n l ≡ false) × Unique l

-- The set is the queue, without repetition, and at most of the given size.
pub record IsSynced (max_size : ℕ) (t : Tracker) : Type 0 where
  pub same : t.seen ≡ t.order
  pub unique : Unique t.order
  pub small : length t.order ≤ max_size

delete-absent : (n : String) (l : List String) → has n l ≡ false → delete n l ≡ l
unfolding has delete
delete-absent n [] h = refl
delete-absent n (x ∷ l) h =
    let other : str_eq x n ≡ false = ground arith in
    let later : has n l ≡ false = ground arith in rw (other, delete-absent n l later) refl

delete-head : (n : String) (l : List String) → has n l ≡ false → delete n (n ∷ l) ≡ l
unfolding delete
delete-head n l h = rw ((str_eq_iff n n).1 refl) (delete-absent n l h)

pub str_eq-sym : (a b : String) → str_eq a b ≡ false → str_eq b a ≡ false
str_eq-sym a b h = elim (Bool-cases (str_eq b a)) [
  | inr other ↦ other
  | inl same ↦ absurd (cc ((str_eq_iff a b).1 (sym ((str_eq_iff b a).0 same))))
]

pub has-append : (n m : String) (l : List String) → has n (l ++ m ∷ []) ≡ (has n l || str_eq m n)
unfolding has
has-append n m [] = ground arith
has-append n m (x ∷ l) = ground (arith, has-append n m l)

pub Unique-append :
    (n : String) (l : List String) → has n l ≡ false → Unique l → Unique (l ++ n ∷ [])
unfolding has
Unique-append n [] h u = (refl, tt)
Unique-append n (x ∷ l) h u =
    let other : str_eq x n ≡ false = ground arith in
    let later : any (λ m. str_eq m n) l ≡ false = ground arith in
    (rw (has-append x n l, u.0, str_eq-sym x n other) refl, Unique-append n l later u.1)

abbrev pub synced : List String → Tracker
synced l = record { seen = l; order = l }

abbrev pub tail : List String → List String
tail [] = []
tail (n ∷ l) = l

evict-fits :
    (max_size : ℕ) (seen l : List String)
    → length l ≤ max_size
    → evict max_size seen l ≡ record { seen = seen; order = l }
unfolding evict
evict-fits max_size seen [] h = refl
evict-fits max_size seen (n ∷ l) h =
    let fits : ltb max_size (suc (length l)) ≡ false = ground arith in rw fits refl

-- A queue that is at most one too long loses at most its oldest.
evict-one :
    (max_size : ℕ) (l : List String)
    → Unique l
    → length l ≤ suc max_size
    → evict max_size l l ≡ synced (if ltb max_size (length l) then tail l else l)
unfolding evict
evict-one max_size [] u h = ground arith
evict-one max_size (n ∷ l) u h = elim (Bool-cases (ltb max_size (suc (length l)))) [
  | inr fits ↦ rw fits refl
  | inl full ↦ rw (full, delete-head n l u.0) (evict-fits max_size l l (ground arith))
]

-- The queue after a new nonce.
abbrev pub pushed : ℕ → String → List String → List String
pushed max_size n l =
    if ltb max_size (length (l ++ n ∷ [])) then tail (l ++ n ∷ []) else l ++ n ∷ []

pub check-new :
    (max_size : ℕ) (n : String) (t : Tracker)
    → IsSynced max_size t
    → has n t.order ≡ false
    → check max_size n t ≡ (true, synced (pushed max_size n t.order))
unfolding check add
check-new max_size n t s new =
    let long : length (t.order ++ n ∷ []) ≤ suc max_size =
      omega (arith, length-append t.order (n ∷ []), s.small) in
    rw
      (
        s.same,
        new,
        evict-one max_size (t.order ++ n ∷ []) (Unique-append n t.order new s.unique) long,
      )
      refl

Unique-tail : (l : List String) → Unique l → Unique (tail l)
Unique-tail [] u = tt
Unique-tail (n ∷ l) u = u.1

length-tail : (l : List String) → length (tail l) ≡ length l - 1
length-tail [] = refl
length-tail (n ∷ l) = omega arith

cut-IsSynced :
    (max_size : ℕ) (l : List String)
    → Unique l
    → length l ≤ suc max_size
    → IsSynced max_size (synced (if ltb max_size (length l) then tail l else l))
cut-IsSynced max_size l u long = elim (Bool-cases (ltb max_size (length l))) [
  | inr fits ↦ rw fits (record { same = refl; unique = u; small = ground arith })
  | inl full ↦
      rw full
        (record { same = refl; unique = Unique-tail l u; small = omega (arith, length-tail l) })
]

pushed-IsSynced :
    (max_size : ℕ) (n : String) (t : Tracker)
    → IsSynced max_size t
    → has n t.order ≡ false
    → IsSynced max_size (synced (pushed max_size n t.order))
pushed-IsSynced max_size n t s new =
    cut-IsSynced max_size (t.order ++ n ∷ []) (Unique-append n t.order new s.unique)
      (omega (arith, length-append t.order (n ∷ []), s.small))

-- Whatever nonce comes, the set stays the queue without repetition, and at most of the given size.
pub check-IsSynced :
    (max_size : ℕ) (n : String) (t : Tracker)
    → IsSynced max_size t
    → IsSynced max_size (check max_size n t).1
unfolding check
check-IsSynced max_size n t s = elim (Bool-cases (has n t.order)) [
  | inl old ↦ let seen : has n t.seen ≡ true = ap (has n) s.same ∙ old in rw seen s
  | inr new ↦ rw (check-new max_size n t s new) (pushed-IsSynced max_size n t s new)
]

-- The nonces that come, in their order.
abbrev pub check_all : ℕ → List String → Tracker → Tracker
check_all max_size [] t = t
check_all max_size (n ∷ ns) t = check_all max_size ns (check max_size n t).1

-- A nonce has at most `k` later ones.
abbrev pub Recent : ℕ → String → List String → Type 0
Recent k n l =
    (before : List String) × (later : List String) × (l ≡ before ++ n ∷ later) × (length later ≤ k)

pub has-middle : (n : String) (before later : List String) → has n (before ++ n ∷ later) ≡ true
unfolding has
has-middle n [] later = rw ((str_eq_iff n n).1 refl)
has-middle n (x ∷ before) later = ground (arith, has-middle n before later)

append-last :
    (before later : List String) (n m : String)
    → (before ++ n ∷ later) ++ m ∷ [] ≡ before ++ n ∷ (later ++ m ∷ [])
append-last [] later n m = refl
append-last (x ∷ before) later n m = ap (λ l. x ∷ l) (append-last before later n m)

-- One more nonce, and perhaps the oldest one less.
pub Recent-pushed :
    (max_size k : ℕ) (n m : String) (l : List String)
    → k + 1 < max_size
    → Recent k n l
    → Recent (k + 1) n (pushed max_size m l)
Recent-pushed max_size k n m l room r = elim (Bool-cases (ltb max_size (length (l ++ m ∷ [])))) [
  | inr fits ↦ rw fits (
    r.0,
    r.1 ++ m ∷ [],
    rw r.2 (append-last r.0 r.1 n m),
    omega (arith, length-append r.1 (m ∷ []), r.3),
  )
  | inl full ↦ rw full (dropped r.0 r.1 r.2 r.3 full)
]
  where
    dropped :
        (before later : List String)
        → l ≡ before ++ n ∷ later
        → length later ≤ k
        → ltb max_size (length (l ++ m ∷ [])) ≡ true
        → Recent (k + 1) n (tail (l ++ m ∷ []))
    dropped [] later same short full =
        let long : length (l ++ m ∷ []) ≡ length l + 1 = length-append l (m ∷ []) in
        let all : length l ≡ length later + 1 = rw same (omega arith) in absurd (ground arith)
    dropped (x ∷ before) later same short full = (
      before,
      later ++ m ∷ [],
      rw (same, append-last before later n m) refl,
      omega (arith, length-append later (m ∷ [])),
    )
