-- ===== src/Action/Ensures.antt =====
-- What holds of the store when an action returns, and what every run of it keeps.
use attested_capital.Base.{◌≡◌, refl, ap, subst, Bool, true, false, Option, none, some}
use attested_capital.Action.{
  Result, ok, err, Action, pure, throw, gets, or_throw, modify, require, transaction, roll_back,
  continue, ◌>>=◌, ◌>>◌,
}

-- Wherever `m` returns, it leaves a store with `P`.
pub record Ensures {S E A : Type 0} (P : S → Type 0) (m : Action S E A) : Type 0 where
  pub returns : (s t : S) (a : A) → m s ≡ (ok a, t) → P t

-- `m` keeps `P`, whether it returns or throws.
pub record Keeps {S E A : Type 0} (P : S → Type 0) (m : Action S E A) : Type 0 where
  pub at : (s : S) → P s → P (m s).1

-- A throw of `m` leaves the store as it was.
pub record IsAtomic {S E A : Type 0} (m : Action S E A) : Type 0 where
  pub throws : (s t : S) (e : E) → m s ≡ (err e, t) → t ≡ s

-- `m` writes nothing.
pub record Reads {S E A : Type 0} (m : Action S E A) : Type 0 where
  pub store : (s : S) → (m s).1 ≡ s

-- `m` never throws.
pub record Returns {S E A : Type 0} (m : Action S E A) : Type 0 where
  pub value : (s : S) → (a : A) × (t : S) × (m s ≡ (ok a, t))

module _ {S E A B : Type 0} {P : S → Type 0} where
  Ensures-continue :
      (r : Result E A × S) (f : A → Action S E B) (t : S) (b : B)
      → ((a : A) → Ensures P (f a))
      → continue r f ≡ (ok b, t)
      → P t
  Ensures-continue (ok a, s) f t b h e = (h a).returns s t b e
  Ensures-continue (err x, s) f t b h e = cc

  pub Ensures-bind :
      (m : Action S E A) (f : A → Action S E B) → ((a : A) → Ensures P (f a)) → Ensures P (m >>= f)
  unfolding ◌>>=◌
  Ensures-bind m f h = record { returns = λ s t b e. Ensures-continue (m s) f t b h e }

  pub Ensures-then : (m : Action S E A) (n : Action S E B) → Ensures P n → Ensures P (m >> n)
  unfolding ◌>>◌
  Ensures-then m n h = record {
    returns = λ s t b e. Ensures-continue (m s) (λ _. n) t b (λ _. h) e;
  }

  Keeps-continue :
      (r : Result E A × S) (f : A → Action S E B)
      → P r.1
      → ((a : A) → Keeps P (f a))
      → P (continue r f).1
  Keeps-continue (ok a, s) f p h = (h a).at s p
  Keeps-continue (err x, s) f p h = p

  pub Keeps-bind :
      (m : Action S E A) (f : A → Action S E B)
      → Keeps P m
      → ((a : A) → Keeps P (f a))
      → Keeps P (m >>= f)
  unfolding ◌>>=◌
  Keeps-bind m f k h = record { at = λ s p. Keeps-continue (m s) f (k.at s p) h }

  pub Keeps-then : (m : Action S E A) (n : Action S E B) → Keeps P m → Keeps P n → Keeps P (m >> n)
  unfolding ◌>>◌
  Keeps-then m n k h = record { at = λ s p. Keeps-continue (m s) (λ _. n) (k.at s p) (λ _. h) }

module _ {S E A : Type 0} {P : S → Type 0} where
  Keeps-roll_back :
      (s : S) (r : Result E A × S)
      → P s
      → ((a : A) (t : S) → r ≡ (ok a, t) → P t)
      → P (roll_back s r).1
  Keeps-roll_back s (ok a, t) p h = h a t refl
  Keeps-roll_back s (err e, t) p h = p

  pub Keeps-transaction : (m : Action S E A) → Ensures P m → Keeps P (transaction m)
  unfolding transaction
  Keeps-transaction m h = record {
    at = λ s p. Keeps-roll_back s (m s) p (λ a t e. h.returns s t a e);
  }

  -- A body that keeps `P` does so in a transaction.
  pub Keeps-body : (m : Action S E A) → Keeps P m → Keeps P (transaction m)
  unfolding transaction
  Keeps-body m k = record {
    at = λ s p. Keeps-roll_back s (m s) p (λ a t e. subst P (ap (λ r. r.1) e) (k.at s p));
  }

  pub Keeps-pure : (a : A) → Keeps {E = E} P (pure a)
  unfolding pure
  Keeps-pure a = record { at = λ s p. p }

  pub Keeps-throw : (e : E) → Keeps {A = A} P (throw e)
  unfolding throw
  Keeps-throw e = record { at = λ s p. p }

  pub Keeps-gets : (f : S → A) → Keeps {E = E} P (gets f)
  unfolding gets
  Keeps-gets f = record { at = λ s p. p }

  pub Keeps-or_throw : (o : Option A) (e : E) → Keeps P (or_throw o e)
  unfolding or_throw
  Keeps-or_throw none e = record { at = λ s p. p }
  Keeps-or_throw (some a) e = record { at = λ s p. p }

module _ {S E : Type 0} {P : S → Type 0} where
  pub Keeps-require : (b : Bool) (e : E) → Keeps P (require b e)
  unfolding require
  Keeps-require true e = record { at = λ s p. p }
  Keeps-require false e = record { at = λ s p. p }

  pub Keeps-modify : (f : S → S) → ((s : S) → P s → P (f s)) → Keeps {E = E} P (modify f)
  unfolding modify
  Keeps-modify f k = record { at = k }

pub ruleset keeps_rules = (
  Keeps-bind, Keeps-then, Keeps-transaction, Keeps-pure, Keeps-throw, Keeps-gets, Keeps-or_throw,
  Keeps-require, Ensures-bind, Ensures-then,
)
