-- ===== src/Action/Runs.antt =====
-- A run of a block, one statement at a time.
use attested_capital.Base.{◌≡◌, ◌∙◌, ap}
use attested_capital.Action.{err, Result, ok, Action, transaction, roll_back, continue, ◌>>=◌, ◌>>◌}

module _ {S E A B : Type 0} {s t : S} {r : Result E B × S} where
  -- The first statement returns, and the rest runs on what it leaves.
  pub run_bind :
      (m : Action S E A) (f : A → Action S E B) {a : A}
      → m s ≡ (ok a, t)
      → f a t ≡ r
      → (m >>= f) s ≡ r
  unfolding ◌>>=◌
  run_bind m f p q = ap (λ x. continue x f) p ∙ q

  pub run_then :
      (m : Action S E A) (n : Action S E B) {a : A} → m s ≡ (ok a, t) → n t ≡ r → (m >> n) s ≡ r
  unfolding ◌>>◌
  run_then m n p q = ap (λ x. continue x (λ _. n)) p ∙ q

module _ {S E A : Type 0} {s t : S} where
  pub run_transaction : (m : Action S E A) {a : A} → m s ≡ (ok a, t) → transaction m s ≡ (ok a, t)
  unfolding transaction
  run_transaction m p = ap (roll_back s) p

-- What throws ends the rest.
module _ {S E A B : Type 0} {s t : S} {e : E} where
  pub bind_throws :
      (m : Action S E A) (f : A → Action S E B) → m s ≡ (err e, t) → (m >>= f) s ≡ (err e, t)
  unfolding ◌>>=◌
  bind_throws m f p = ap (λ x. continue x f) p
