-- ===== src/Ledger/Rows.antt =====
-- Account rows under the filter `is_active = 1`, and under `UPDATE … WHERE`.
use attested_capital.Base.{
  ℕ, ◌==◌, find, some, ◌≡◌, refl, Bool, true, false, List, [], ◌∷◌, All, if◌then◌else◌, arith,
  update,
}
use attested_capital.Ledger.{NftAccount, active_accounts}
use attested_capital.Ledger.Verify.{active_total}

module _ {A : Type 0} (P : A → Type 0) (a : A) (rest : List A) where
  kept_intro : (b : Bool) → (b ≡ true → P a) → All P rest → All P (if b then a ∷ rest else rest)
  kept_intro true h t = (h refl, t)
  kept_intro false h t = t

  kept_head : (b : Bool) → All P (if b then a ∷ rest else rest) → b ≡ true → P a
  kept_head true h on = h.0
  kept_head false h on = cc

  kept_tail : (b : Bool) → All P (if b then a ∷ rest else rest) → All P rest
  kept_tail true h = h.1
  kept_tail false h = h

module _ (P : NftAccount → Type 0) (a : NftAccount) (l : List NftAccount) where
  pub active_intro :
      (a.is_active ≡ true → P a) → All P (active_accounts l) → All P (active_accounts (a ∷ l))
  active_intro h t = kept_intro P a (active_accounts l) a.is_active h t

  pub active_head : All P (active_accounts (a ∷ l)) → a.is_active ≡ true → P a
  active_head h on = kept_head P a (active_accounts l) a.is_active h on

  pub active_tail : All P (active_accounts (a ∷ l)) → All P (active_accounts l)
  active_tail h = kept_tail P a (active_accounts l) a.is_active h

-- A write of columns that leaves the balance and the mark alone.
pub active_total-update :
    (p : NftAccount → Bool) (f : NftAccount → NftAccount)
    → ((a : NftAccount)
        → ((f a).current_balance ≡ a.current_balance) × ((f a).is_active ≡ a.is_active))
    → (l : List NftAccount) → active_total (update p f l) ≡ active_total l
active_total-update p f same [] = refl
active_total-update p f same (a ∷ l) = ground (arith, same a, active_total-update p f same l)

pub active-All-update :
    (P : NftAccount → Type 0) (p : NftAccount → Bool) (f : NftAccount → NftAccount)
    → ((a : NftAccount) → ((f a).is_active ≡ a.is_active) × (P a → P (f a)))
    → (l : List NftAccount) → All P (active_accounts l)
    → All P (active_accounts (update p f l))
active-All-update P p f same [] h = tt
active-All-update P p f same (a ∷ l) h =
    active_intro P (if p a then f a else a) (update p f l) (row (p a))
      (active-All-update P p f same l (active_tail P a l h))
  where
    row : (b : Bool) → (if b then f a else a).is_active ≡ true → P (if b then f a else a)
    row true on = (same a).1 (active_head P a l h (rw (same a).0 at on))
    row false on = active_head P a l h on

-- The row that an update by key leaves under the key.
pub find-update :
    (k : ℕ) (f : NftAccount → NftAccount) (a : NftAccount) (rows : List NftAccount)
    → ((x : NftAccount) → (f x).token_id ≡ x.token_id)
    → find (λ x. x.token_id == k) rows ≡ some a
    → find (λ x. x.token_id == k) (update (λ x. x.token_id == k) f rows) ≡ some (f a)
find-update k f a [] same h = cc
find-update k f a (x ∷ rows) same h = ground (arith, same x, find-update k f a rows same)
