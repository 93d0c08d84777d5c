-- ===== src/Ledger/Shares/Loop.antt =====
-- The remainder loop of `correct` against a closed form: each of the first shares gets one cent.
use attested_capital.Base.{
  ℕ, zero, suc, ◌+◌, ◌%◌, ◌≤◌, ◌<◌, ◌≡◌, refl, ap, ◌∙◌, Bool, true, false, some, List, [], ◌∷◌,
  length, arith,
}
use attested_capital.Base.Int.{ℤ, ◌+ℤ◌, ◌-ℤ◌}
use attested_capital.Ledger.Shares.{Share, signed, bump, correct, nonzero, above_zero}
use native.Mathlib.Nat.{mod-eq_of_lt}
use mathlib.Core.Path.{ap₂}

unfoldable pub one_more : ℤ → Share → Share
one_more direction s = record s { share = s.share +ℤ direction }

unfoldable pub bump_first : ℕ → ℤ → List Share → List Share
unfolding one_more
bump_first zero d xs = xs
bump_first (suc k) d [] = []
bump_first (suc k) d (s ∷ xs) = one_more d s ∷ bump_first k d xs

length-bump_first : (k : ℕ) (d : ℤ) (xs : List Share) → length (bump_first k d xs) ≡ length xs
unfolding bump_first
length-bump_first zero d xs = refl
length-bump_first (suc k) d [] = refl
length-bump_first (suc k) d (s ∷ xs) = ap suc (length-bump_first k d xs)

bump-bump_first :
    (j : ℕ) (d : ℤ) (xs : List Share)
    → j < length xs
    → bump j d (bump_first j d xs) ≡ bump_first (suc j) d xs
unfolding bump bump_first
bump-bump_first j d [] h = absurd (omega arith)
bump-bump_first zero d (s ∷ xs) h = refl
bump-bump_first (suc j) d (s ∷ xs) h =
    ap (λ r. one_more d s ∷ r) (bump-bump_first j d xs (omega arith))

-- One cent less of a remainder of either sign.
signed_step : (s : Bool) (k : ℕ) → signed s (suc k) -ℤ signed s 1 ≡ signed s k
unfolding ◌-ℤ◌
signed_step true k = ground arith
signed_step false zero = ground arith
signed_step false (suc k) = ground arith

-- What the loop condition says of remainders of the sign `s`.
pub record Stops (test : ℤ → Bool) (s : Bool) : Type 0 where
  pub at_zero : test (signed s 0) ≡ false
  pub before : (k : ℕ) → test (signed s (suc k)) ≡ true

pub nonzero-Stops : (s : Bool) → Stops nonzero s
nonzero-Stops true = record { at_zero = refl; before = λ k. ground arith }
nonzero-Stops false = record { at_zero = refl; before = λ k. refl }

pub above_zero-Stops : Stops above_zero true
above_zero-Stops = record { at_zero = refl; before = λ k. ground arith }

-- One round, with the calls of later rounds shut.
correct_round :
    (fuel : ℕ) (test : ℤ → Bool) (r : ℤ) (j : ℕ) (d : ℤ) (xs : List Share)
    → test r ≡ true
    → correct (suc fuel) test r j d xs
      ≡ correct fuel test (r -ℤ d) (j + 1) d (bump (j % length xs) d xs)
unfolding correct
correct_round fuel test r j d xs h = rw h

correct_end :
    (fuel : ℕ) (test : ℤ → Bool) (r : ℤ) (j : ℕ) (d : ℤ) (xs : List Share)
    → test r ≡ false
    → correct (suc fuel) test r j d xs ≡ some xs
unfolding correct
correct_end fuel test r j d xs h = rw h

module _ (test : ℤ → Bool) (s : Bool) (stops : Stops test s) where
  correct_from :
      (fuel k j : ℕ) (xs : List Share)
      → j + k ≤ length xs
      → k < fuel
      → correct fuel test (signed s k) j (signed s 1) (bump_first j (signed s 1) xs)
        ≡ some (bump_first (j + k) (signed s 1) xs)
  correct_from zero k j xs room h = absurd (omega arith)
  correct_from (suc fuel) zero j xs room h =
      correct_end fuel test (signed s 0) j (signed s 1) _ stops.at_zero
      ∙ ap (λ n. some (bump_first n (signed s 1) xs)) (omega arith)
  correct_from (suc fuel) (suc k) j xs room h =
      let d = signed s 1 in
      let ys = bump_first j d xs in
      let here : j % length ys ≡ j = mod-eq_of_lt (rw length-bump_first (omega arith)) in
      let bumped : bump (j % length ys) d ys ≡ bump_first (j + 1) d xs =
        ap (λ n. bump n d ys) here
        ∙ bump-bump_first j d xs (omega arith)
        ∙ ap (λ n. bump_first n d xs) (omega arith) in
      correct_round fuel test (signed s (suc k)) j d ys (stops.before k)
      ∙ ap₂ (λ r zs. correct fuel test r (j + 1) d zs) (signed_step s k) bumped
      ∙ correct_from fuel k (j + 1) xs (omega arith) (omega arith)
      ∙ ap (λ n. some (bump_first n d xs)) (omega arith)

  -- A remainder of at most as many cents as there are shares goes to the first of them, and the
  -- loop ends.
  pub correct-eq-bump_first :
      (fuel k : ℕ) (xs : List Share)
      → k ≤ length xs
      → k < fuel
      → correct fuel test (signed s k) 0 (signed s 1) xs ≡ some (bump_first k (signed s 1) xs)
  unfolding bump_first
  correct-eq-bump_first fuel k xs room h =
      correct_from fuel k 0 xs (omega arith) h
      ∙ ap (λ n. some (bump_first n (signed s 1) xs)) (omega arith)
