-- ===== src/Action.antt =====
-- Methods that mutate a store and may throw. What was written before a throw stays written unless
-- a transaction (better-sqlite3's `db.transaction`) rolls it back.
pub mod Ensures
pub mod Atomic
pub mod Runs
use attested_capital.Base.{Option, none, some, Bool, true, false, List, [], ◌∷◌}

pub data Result {ℓ κ} (E : Type ℓ) (A : Type κ) : Type (ℓ ⊔ κ) where
  ok : A → Result E A
  err : E → Result E A

abbrev pub Action {ℓ} : Type ℓ → Type ℓ → Type ℓ → Type ℓ
Action S E A = S → Result E A × S

module _ {ℓ} {S E A : Type ℓ} where
  unfoldable pub pure : A → Action S E A
  pure a s = (ok a, s)

  unfoldable pub throw : E → Action S E A
  throw e s = (err e, s)

  -- Reads the store.
  unfoldable pub gets : (S → A) → Action S E A
  gets f s = (ok (f s), s)

  -- A value, or a throw where it is missing.
  unfoldable pub or_throw : Option A → E → Action S E A
  or_throw none e s = (err e, s)
  or_throw (some a) e s = (ok a, s)

  abbrev pub roll_back : S → Result E A × S → Result E A × S
  roll_back s (ok a, t) = (ok a, t)
  roll_back s (err e, t) = (err e, s)

  -- Either the whole body takes effect, or its throw leaves the store as it was.
  unfoldable pub transaction : Action S E A → Action S E A
  transaction m s = roll_back s (m s)

module _ {S E : Type 0} where
  unfoldable pub modify : (S → S) → Action S E Unit
  modify f s = (ok tt, f s)

  unfoldable pub require : Bool → E → Action S E Unit
  require true e s = (ok tt, s)
  require false e s = (err e, s)

module _ {ℓ} {S E A B : Type ℓ} where
  abbrev pub continue : Result E A × S → (A → Action S E B) → Result E B × S
  continue (ok a, s) f = f a s
  continue (err e, s) f = (err e, s)

  -- Opening these opens the simple actions too.
  infixl 5 ◌>>=◌ ◌>>◌
  unfoldable pub ◌>>=◌ : Action S E A → (A → Action S E B) → Action S E B
  unfolding pure throw gets or_throw modify require
  ◌>>=◌ m f s = continue (m s) f

  unfoldable pub ◌>>◌ : Action S E A → Action S E B → Action S E B
  unfolding pure throw gets or_throw modify require
  ◌>>◌ m n s = continue (m s) (λ _. n)

module _ {S E : Type 0} where
  -- `for (const a of list) …`
  unfoldable pub for_each : {A : Type 0} → List A → (A → Action S E Unit) → Action S E Unit
  for_each [] f s = (ok tt, s)
  for_each (a ∷ l) f s = continue (f a s) (λ _. for_each l f)

-- The store after a call, and its result.
abbrev pub after {ℓ κ} : {R : Type ℓ} {S : Type κ} → R × S → S
after r = r.1
