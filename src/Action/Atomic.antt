-- ===== src/Action/Atomic.antt =====
-- Actions whose throws leave no trace in the store.
use attested_capital.Base.{◌≡◌, refl, ap, sym, ◌∙◌, Bool, true, false, Option, none, some}
use attested_capital.Action.{
  Result, ok, err, Action, pure, gets, or_throw, modify, require, transaction, roll_back, continue,
  ◌>>=◌, ◌>>◌,
}
use attested_capital.Action.Ensures.{IsAtomic, Reads}

module _ {S E A B : Type 0} where
  IsAtomic-continue :
      (s : S) (r : Result E A × S) (f : A → Action S E B) (t : S) (e : E)
      → ((t : S) (e : E) → r ≡ (err e, t) → t ≡ s)
      → r.1 ≡ s
      → ((a : A) → IsAtomic (f a))
      → continue r f ≡ (err e, t)
      → t ≡ s
  IsAtomic-continue s (ok a, u) f t e m same h q = (h a).throws u t e q ∙ same
  IsAtomic-continue s (err x, u) f t e m same h q = ap (λ p. p.1) (sym q) ∙ same

  -- After a part that only reads, the rest decides.
  pub IsAtomic-bind :
      (m : Action S E A) (f : A → Action S E B)
      → Reads m
      → ((a : A) → IsAtomic (f a))
      → IsAtomic (m >>= f)
  unfolding ◌>>=◌
  IsAtomic-bind m f r h = record {
    throws = λ s t e q.
        IsAtomic-continue s (m s) f t e (λ u x p. ap (λ y. y.1) (sym p) ∙ r.store s) (r.store s) h
          q;
  }

  pub IsAtomic-then :
      (m : Action S E A) (n : Action S E B) → Reads m → IsAtomic n → IsAtomic (m >> n)
  unfolding ◌>>◌
  IsAtomic-then m n r h = record {
    throws = λ s t e q.
        IsAtomic-continue s (m s) (λ _. n) t e (λ u x p. ap (λ y. y.1) (sym p) ∙ r.store s)
          (r.store s) (λ _. h) q;
  }

  Reads-continue :
      (s : S) (r : Result E A × S) (f : A → Action S E B)
      → r.1 ≡ s
      → ((a : A) → Reads (f a))
      → (continue r f).1 ≡ s
  Reads-continue s (ok a, u) f same h = (h a).store u ∙ same
  Reads-continue s (err x, u) f same h = same

  pub Reads-bind :
      (m : Action S E A) (f : A → Action S E B)
      → Reads m
      → ((a : A) → Reads (f a))
      → Reads (m >>= f)
  unfolding ◌>>=◌
  Reads-bind m f r h = record { store = λ s. Reads-continue s (m s) f (r.store s) h }

  pub Reads-then : (m : Action S E A) (n : Action S E B) → Reads m → Reads n → Reads (m >> n)
  unfolding ◌>>◌
  Reads-then m n r h = record { store = λ s. Reads-continue s (m s) (λ _. n) (r.store s) (λ _. h) }

module _ {S E A : Type 0} where
  pub Reads-pure : (a : A) → Reads {S = S} {E = E} (pure a)
  unfolding pure
  Reads-pure a = record { store = λ s. refl }

  pub Reads-gets : (f : S → A) → Reads {E = E} (gets f)
  unfolding gets
  Reads-gets f = record { store = λ s. refl }

  pub Reads-or_throw : (o : Option A) (e : E) → Reads {S = S} (or_throw o e)
  unfolding or_throw
  Reads-or_throw none e = record { store = λ s. refl }
  Reads-or_throw (some a) e = record { store = λ s. refl }

  roll_back-err : (s t : S) (e : E) (r : Result E A × S) → roll_back s r ≡ (err e, t) → t ≡ s
  roll_back-err s t e (ok a, u) q = cc
  roll_back-err s t e (err x, u) q = ap (λ p. p.1) (sym q)

  pub IsAtomic-transaction : (m : Action S E A) → IsAtomic (transaction m)
  unfolding transaction
  IsAtomic-transaction m = record { throws = λ s t e q. roll_back-err s t e (m s) q }

  pub IsAtomic-Reads : (m : Action S E A) → Reads m → IsAtomic m
  IsAtomic-Reads m r = record { throws = λ s t e q. ap (λ p. p.1) (sym q) ∙ r.store s }

  pub IsAtomic-pure : (a : A) → IsAtomic {S = S} {E = E} (pure a)
  unfolding pure
  IsAtomic-pure a = record { throws = λ s t e q. cc }

  -- A write that cannot fail, with a value to return.
  pub IsAtomic-modify : (f : S → S) (a : A) → IsAtomic {E = E} (modify f >> pure a)
  unfolding ◌>>◌
  IsAtomic-modify f a = record { throws = λ s t e q. cc }

module _ {S E A B : Type 0} where
  continue-pure :
      (s t : S) (e : E) (r : Result E A × S) (f : A → B)
      → continue r (λ a. pure (f a)) ≡ (err e, t)
      → ((u : S) (x : E) → r ≡ (err x, u) → u ≡ s)
      → t ≡ s
  unfolding pure
  continue-pure s t e (ok a, u) f q h = cc
  continue-pure s t e (err x, u) f q h = ap (λ p. p.1) (sym q) ∙ h u x refl

  pub IsAtomic-bind_pure :
      (m : Action S E A) (f : A → B) → IsAtomic m → IsAtomic (m >>= λ a. pure (f a))
  unfolding ◌>>=◌
  IsAtomic-bind_pure m f h = record {
    throws = λ s t e q. continue-pure s t e (m s) f q (λ u x p. h.throws s u x p);
  }

module _ {S E : Type 0} where
  pub IsAtomic-modify_only : (f : S → S) → IsAtomic {E = E} (modify f)
  unfolding modify
  IsAtomic-modify_only f = record { throws = λ s t e q. cc }

  pub Reads-require : (b : Bool) (e : E) → Reads {S = S} (require b e)
  unfolding require
  Reads-require true e = record { store = λ s. refl }
  Reads-require false e = record { store = λ s. refl }

pub ruleset atomic_rules = (
  IsAtomic-bind, IsAtomic-then, Reads-bind, Reads-then, Reads-pure, Reads-gets, Reads-or_throw,
  Reads-require, IsAtomic-transaction, IsAtomic-modify, IsAtomic-modify_only, IsAtomic-pure,
)
