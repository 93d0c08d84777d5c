-- ===== src/Ledger/Trades/Applied.antt =====
-- What one share does to the accounts: the row under its key, and no other, moves by the share.
use attested_capital.Base.{
  subst, ℕ, ◌+◌, ◌≤◌, ◌==◌, ◌≡◌, refl, ap, sym, suc, ◌-◌, Option-cases, ◌∙◌, Bool, Bool-cases, inl,
  inr, true, false, none, some, List, [], ◌∷◌, any, find, if◌then◌else◌, arith,
}
use attested_capital.Base.Int.{ℤ, pos, negsuc, pos_part, neg_part, ◌+ℤ◌, nonneg, +ℤ_assoc}
use attested_capital.Ledger.{NftAccount}
use attested_capital.Ledger.Verify.{active_total}
use attested_capital.Ledger.Accounts.{update_account}
use attested_capital.Ledger.Consistency.{IsBalanced}
use attested_capital.Ledger.Trades.{apply_share}

abbrev pub has_key : ℕ → List NftAccount → Bool
has_key k = any (λ a. a.token_id == k)

-- The primary key.
abbrev pub Distinct : List NftAccount → Type 0
Distinct [] = Unit
Distinct (a ∷ rows) = (has_key a.token_id rows ≡ false) × Distinct rows

pub nonneg-eq : (z : ℤ) (n : ℕ) → nonneg z ≡ some n → z ≡ pos n
nonneg-eq z n h = ground arith

pub nonneg-fits :
    (b : ℕ) (share : ℤ) → neg_part share ≤ b → (n : ℕ) × (nonneg (pos b +ℤ share) ≡ some n)
unfolding ◌+ℤ◌
nonneg-fits b (pos m) fits = (b + m, ground arith)
nonneg-fits b (negsuc m) fits = (b - suc m, ground arith)

-- The row moved by a share, where its balance allows it.
abbrev pub moved : ℤ → NftAccount → NftAccount
moved share a = elim (nonneg (pos a.current_balance +ℤ share)) [
  | none ↦ a
  | some balance ↦ record a { current_balance = balance; total_pnl = a.total_pnl +ℤ share }
]

pub moved-key : (share : ℤ) (a : NftAccount) → (moved share a).token_id ≡ a.token_id
moved-key share a = ground arith

pub moved-mark : (share : ℤ) (a : NftAccount) → (moved share a).is_active ≡ a.is_active
moved-mark share a = ground arith

pub moved-balance :
    (share : ℤ) (a : NftAccount)
    → neg_part share ≤ a.current_balance
    → (moved share a).current_balance + neg_part share ≡ a.current_balance + pos_part share
unfolding ◌+ℤ◌
moved-balance share a h = ground arith

moved-eq :
    (share : ℤ) (a : NftAccount) (n : ℕ)
    → nonneg (pos a.current_balance +ℤ share) ≡ some n
    → moved share a ≡ record a { current_balance = n; total_pnl = a.total_pnl +ℤ share }
moved-eq share a n h =
    ap
      (λ o. elim o [
        | none ↦ a
        | some balance ↦ record a { current_balance = balance; total_pnl = a.total_pnl +ℤ share }
      ])
      h

moved-none :
    (share : ℤ) (a : NftAccount)
    → nonneg (pos a.current_balance +ℤ share) ≡ none
    → moved share a ≡ a
moved-none share a h =
    ap
      (λ o. elim o [
        | none ↦ a
        | some balance ↦ record a { current_balance = balance; total_pnl = a.total_pnl +ℤ share }
      ])
      h

pub moved-IsBalanced : (share : ℤ) (a : NftAccount) → IsBalanced a → IsBalanced (moved share a)
moved-IsBalanced share a h = elim (Option-cases (nonneg (pos a.current_balance +ℤ share))) [
  | inl none_left ↦ subst IsBalanced (sym (moved-none share a none_left)) h
  | inr (n, fits) ↦
      let sum = nonneg-eq (pos a.current_balance +ℤ share) n fits in
      subst IsBalanced (sym (moved-eq share a n fits))
        (sym sum ∙ ap (λ z. z +ℤ share) h ∙ +ℤ_assoc (pos a.initial_deposit) a.total_pnl share)
]

apply_share-absent :
    (k : ℕ) (share : ℤ) (rows : List NftAccount)
    → has_key k rows ≡ false
    → apply_share k share rows ≡ some rows
unfolding apply_share
apply_share-absent k share [] h = refl
apply_share-absent k share (a ∷ rows) h =
    let other : (a.token_id == k) ≡ false = ground arith in
    let later : has_key k rows ≡ false = ground arith in
    rw (apply_share-absent k share rows later, other) refl

pub update-absent :
    (k : ℕ) (f : NftAccount → NftAccount) (rows : List NftAccount)
    → has_key k rows ≡ false
    → update_account k f rows ≡ rows
update-absent k f [] h = refl
update-absent k f (a ∷ rows) h =
    let other : (a.token_id == k) ≡ false = ground arith in
    let later : has_key k rows ≡ false = ground arith in
    rw (other, update-absent k f rows later) refl

-- A share that the row covers is applied to it, and to it alone.
pub apply_share-eq :
    (k : ℕ) (share : ℤ) (rows : List NftAccount) (a : NftAccount)
    → Distinct rows
    → find (λ x. x.token_id == k) rows ≡ some a
    → neg_part share ≤ a.current_balance
    → apply_share k share rows ≡ some (update_account k (moved share) rows)
unfolding apply_share
apply_share-eq k share [] a d h fits = cc
apply_share-eq k share (x ∷ rows) a d h fits = elim (Bool-cases (x.token_id == k)) [
  | inr other ↦
      let later : find (λ y. y.token_id == k) rows ≡ some a = rw other at h in
      rw (apply_share-eq k share rows a d.1 later fits, other) refl
  | inl own ↦
      let alone : has_key k rows ≡ false = ground (arith, d.0) in
      let same : some x ≡ some a = rw own at h in
      let cover : neg_part share ≤ x.current_balance = ground arith in
      let room = nonneg-fits x.current_balance share cover in
      rw
        (
          apply_share-absent k share rows alone,
          own,
          update-absent k (moved share) rows alone,
          moved-eq share x room.0 room.1,
          room.1,
        )
        refl
]

pub active_total-cons :
    (x : NftAccount) (rows : List NftAccount)
    → active_total (x ∷ rows) ≡ (if x.is_active then x.current_balance else 0) + active_total rows
active_total-cons x rows = ground arith

pub active_total-moved :
    (k : ℕ) (share : ℤ) (rows : List NftAccount) (a : NftAccount)
    → Distinct rows
    → find (λ x. x.token_id == k) rows ≡ some a
    → a.is_active ≡ true
    → neg_part share ≤ a.current_balance
    → active_total (update_account k (moved share) rows) + neg_part share
      ≡ active_total rows + pos_part share
active_total-moved k share [] a d h on fits = cc
active_total-moved k share (x ∷ rows) a d h on fits = elim (Bool-cases (x.token_id == k)) [
  | inr other ↦
      let later : find (λ y. y.token_id == k) rows ≡ some a = rw other at h in
      let rest = active_total-moved k share rows a d.1 later on fits in
      rw other (
        omega (
          arith,
          rest,
          active_total-cons x (update_account k (moved share) rows),
          active_total-cons x rows,
        ))
  | inl own ↦
      let alone : has_key k rows ≡ false = ground (arith, d.0) in
      let same : some x ≡ some a = rw own at h in
      let cover : neg_part share ≤ x.current_balance = ground arith in
      let counts : x.is_active ≡ true = ground arith in
      let left : (moved share x).is_active ≡ true = moved-mark share x ∙ counts in
      let sum = moved-balance share x cover in
      rw (own, update-absent k (moved share) rows alone)
        (grind (
          arith,
          sum,
          left,
          counts,
          active_total-cons (moved share x) rows,
          active_total-cons x rows,
        ))
]
