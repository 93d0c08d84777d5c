-- ===== src/Base/Sums.antt =====
-- Sums of a numeric column.
use Prim.Native.Nat.{ℕ, ◌+◌, ◌≤◌}
use mathlib.Core.Path.{◌≡◌}
use mathlib.Core.Bool.{Bool}
use mathlib.Core.List.{List, [], ◌∷◌, ◌++◌}
use native.Mathlib.Omega.{arith}
use attested_capital.Base.Lists.{filter}

module _ {ℓ} {A : Type ℓ} where
  -- `SUM(f)`
  abbrev pub total : (A → ℕ) → List A → ℕ
  total f [] = 0
  total f (x ∷ xs) = f x + total f xs

  pub total-append : (f : A → ℕ) (xs ys : List A) → total f (xs ++ ys) ≡ total f xs + total f ys
  total-append f [] ys = omega arith
  total-append f (x ∷ xs) ys = omega (arith, total-append f xs ys)

  pub total-filter-le :
      (f : A → ℕ) (p : A → Bool) (xs : List A) → total f (filter p xs) ≤ total f xs
  total-filter-le f p [] = omega arith
  total-filter-le f p (x ∷ xs) = ground (arith, total-filter-le f p xs)
