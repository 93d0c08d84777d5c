-- ===== src/Envelope/Once.antt =====
-- Replays against the tracker of nonces.
use attested_capital.Base.{
  ℕ, ◌+◌, ◌<◌, ◌≡◌, ◌∙◌, refl, ap, ltb, String, Bool-cases, inl, inr, true, false, List, [], ◌∷◌,
  ◌++◌, length, arith,
}
use attested_capital.Envelope.Nonces.{Tracker, has, check}
use attested_capital.Envelope.Replay.{
  IsSynced, Recent, Recent-pushed, check_all, check-IsSynced, check-new, pushed, tail, has-middle,
}

Recent-check :
    (max_size k : ℕ) (n m : String) (t : Tracker)
    → IsSynced max_size t
    → k + 1 < max_size
    → Recent k n t.order
    → Recent (k + 1) n (check max_size m t).1.order
unfolding check
Recent-check max_size k n m t s room r = elim (Bool-cases (has m t.order)) [
  | inr new ↦ rw (check-new max_size m t s new) (Recent-pushed max_size k n m t.order room r)
  | inl old ↦
      let seen : has m t.seen ≡ true = ap (has m) s.same ∙ old in
      rw seen (r.0, r.1, r.2, omega (arith, r.3))
]

Recent-check_all :
    (max_size k : ℕ) (n : String) (ns : List String) (t : Tracker)
    → IsSynced max_size t
    → k + length ns < max_size
    → Recent k n t.order
    → has n (check_all max_size ns t).seen ≡ true
Recent-check_all max_size k n [] t s room r =
    ap (has n) s.same ∙ ap (has n) r.2 ∙ has-middle n r.0 r.1
Recent-check_all max_size k n (m ∷ ns) t s room r =
    Recent-check_all max_size (k + 1) n ns (check max_size m t).1 (check-IsSynced max_size m t s)
      (omega arith) (Recent-check max_size k n m t s (omega arith) r)

Recent-new :
    (max_size : ℕ) (n : String) (l : List String) → 0 < max_size → Recent 0 n (pushed max_size n l)
Recent-new max_size n l some_room = elim (Bool-cases (ltb max_size (length (l ++ n ∷ [])))) [
  | inr fits ↦ rw fits (l, [], refl, omega arith)
  | inl full ↦ rw full (dropped l full)
]
  where
    dropped :
        (l : List String)
        → ltb max_size (length (l ++ n ∷ [])) ≡ true
        → Recent 0 n (tail (l ++ n ∷ []))
    dropped [] full = absurd (ground arith)
    dropped (x ∷ l) full = (l, [], refl, omega arith)

accepted-new :
    (max_size : ℕ) (n : String) (t : Tracker)
    → IsSynced max_size t
    → (check max_size n t).0 ≡ true
    → has n t.order ≡ false
unfolding check
accepted-new max_size n t s accepted = elim (Bool-cases (has n t.order)) [
  | inr new ↦ new
  | inl old ↦ let seen : has n t.seen ≡ true = ap (has n) s.same ∙ old in absurd (ground arith)
]

-- A nonce that the tracker accepts is refused when it comes again, without any effect, as long as
-- fewer nonces than the tracker holds have come in between.
pub check-only_once :
    (max_size : ℕ) (n : String) (ns : List String) (t : Tracker)
    → IsSynced max_size t
    → (check max_size n t).0 ≡ true
    → length ns < max_size
    → check max_size n (check_all max_size ns (check max_size n t).1)
      ≡ (false, check_all max_size ns (check max_size n t).1)
unfolding check
check-only_once max_size n ns t s accepted room =
    let new : has n t.order ≡ false = accepted-new max_size n t s accepted in
    let kept =
      Recent-check_all max_size 0 n ns (check max_size n t).1 (check-IsSynced max_size n t s)
        (omega arith)
        (rw (check-new max_size n t s new) (Recent-new max_size n t.order (omega arith))) in
    rw kept refl
