-- ===== src/Ledger/Consistency.antt =====
-- The three invariants of the ledger as a predicate, and the operations that keep them.

use attested_capital.Base.{
  ◌==◌, ==→eq, ◌≡◌, ◌≢◌, ◌⊎◌, inl, inr, refl, Bool, Bool-cases, true, false, not, List, [], ◌∷◌,
  any, All, arith,
}
use attested_capital.Base.Int.{ℤ, pos, ◌+ℤ◌, eqb, eqb→eq, eqb_refl}
use attested_capital.Action.{ok, err, ◌>>◌}
use attested_capital.Ledger.{
  Db, NftAccount, Trade, TradeAllocation, Error, pool_balance, account_balance, trade_allocation,
  active_accounts, Ledger,
}
use attested_capital.Action.Ensures.{Keeps}
use attested_capital.Ledger.Verify.{
  active_total, off_balance, alloc_sum, misallocated, verify_pool_balance, verify_account_balance,
  verify_trade_allocations, verify_invariants, violation, pause_fund,
}

abbrev pub IsBalanced : NftAccount → Type 0
IsBalanced a = pos a.current_balance ≡ pos a.initial_deposit +ℤ a.total_pnl

abbrev pub IsAllocated : List TradeAllocation → Trade → Type 0
IsAllocated allocations t = alloc_sum t.id allocations ≡ t.profit_loss

pub record IsConsistent (db : Db) : Type 0 where
  pub pool : active_total db.accounts ≡ db.total_pool_balance
  pub balanced : All IsBalanced (active_accounts db.accounts)
  pub allocated : All (IsAllocated db.trade_allocations) db.trades

-- The store after `pauseFund`.
abbrev pub paused : Db → Db
paused db = record db { fund = record db.fund { is_paused = true } }

-- A test of every row against what it decides.
module _ {A : Type 0} (bad : A → Bool) (P : A → Type 0)
    (decides : (a : A) → ((bad a ≡ false) × P a) ⊎ ((bad a ≡ true) × (¬ P a))) where
  any-All : (l : List A) → ((any bad l ≡ false) × All P l) ⊎ ((any bad l ≡ true) × (¬ All P l))
  any-All [] = inl (refl, tt)
  any-All (a ∷ l) = elim (decides a) [
    | inr (b, n) ↦ inr (rw b, λ h. n h.0)
    | inl (b, p) ↦ elim (any-All l) [
      | inl (c, h) ↦ inl (rw (b, c), (p, h))
      | inr (c, n) ↦ inr (rw (b, c), λ h. n h.1)
    ]
  ]

eqb_decides : (x y : ℤ) → ((not (eqb x y) ≡ false) × (x ≡ y)) ⊎ ((not (eqb x y) ≡ true) × (x ≢ y))
eqb_decides x y = elim (Bool-cases (eqb x y)) [
  | inl e ↦ inl (rw e, eqb→eq x y e)
  | inr e ↦ inr (rw e, λ same. cc (eqb_refl x))
]

-- A check passes and writes nothing, or pauses the fund and throws.
abbrev Checks : Type 0 → Error → Ledger Unit → Db → Type 0
Checks P e m db = (P × (m db ≡ (ok tt, db))) ⊎ ((¬ P) × (m db ≡ (err e, paused db)))

violation_lem : (e : Error) (db : Db) → violation e db ≡ (err e, paused db)
unfolding violation pause_fund ◌>>◌
violation_lem e db = refl

pool_check :
    (db : Db)
    → Checks (active_total db.accounts ≡ db.total_pool_balance) pool_balance verify_pool_balance db
unfolding verify_pool_balance
pool_check db = elim (Bool-cases (active_total db.accounts == db.total_pool_balance)) [
  | inl same ↦ inl (==→eq _ _ same, rw same)
  | inr other ↦ inr (λ e. ground arith, rw other (violation_lem pool_balance db))
]

account_check :
    (db : Db)
    → Checks
        (All IsBalanced (active_accounts db.accounts))
        account_balance
        verify_account_balance
        db
unfolding verify_account_balance
account_check db =
    elim (any-All off_balance IsBalanced (unfold off_balance in λ a. eqb_decides _ _)
      (active_accounts db.accounts)) [
        | inl (none_off, h) ↦ inl (h, rw none_off)
        | inr (one_off, n) ↦ inr (n, rw one_off (violation_lem account_balance db))
      ]

allocation_check :
    (db : Db)
    → Checks
        (All (IsAllocated db.trade_allocations) db.trades)
        trade_allocation
        verify_trade_allocations
        db
unfolding verify_trade_allocations
allocation_check db =
    elim (any-All (misallocated db.trade_allocations) (IsAllocated db.trade_allocations)
      (unfold misallocated in λ a. eqb_decides _ _) db.trades) [
        | inl (none_off, h) ↦ inl (h, rw none_off)
        | inr (one_off, n) ↦ inr (n, rw one_off (violation_lem trade_allocation db))
      ]

-- `verify_invariants` decides the predicate: it passes and writes nothing exactly where the three
-- invariants hold, and otherwise pauses the fund and throws.
pub verify_invariants_decides :
    (db : Db)
    → (IsConsistent db × (verify_invariants db ≡ (ok tt, db)))
      ⊎ ((¬ IsConsistent db) × ((e : Error) × (verify_invariants db ≡ (err e, paused db))))
unfolding verify_invariants ◌>>◌
verify_invariants_decides db = elim (pool_check db) [
  | inr (off, e) ↦ inr (λ c. off c.pool, (pool_balance, rw e))
  | inl (pool, e) ↦ elim (account_check db) [
    | inr (off, f) ↦ inr (λ c. off c.balanced, (account_balance, rw (e, f)))
    | inl (balanced, f) ↦ elim (allocation_check db) [
      | inr (off, g) ↦ inr (λ c. off c.allocated, (trade_allocation, rw (e, f, g)))
      | inl (allocated, g) ↦
          inl (record { pool = pool; balanced = balanced; allocated = allocated }, rw (e, f, g))
    ]
  ]
]

-- The check writes at most the mark `is_paused`.
pub verify_invariants-Keeps :
    (P : Db → Type 0) → ((db : Db) → P db → P (paused db)) → Keeps P verify_invariants
verify_invariants-Keeps P mark = record {
  at = λ db h. elim (verify_invariants_decides db) [
    | inl (c, v) ↦ rw v h
    | inr (n, (e, v)) ↦ rw v (mark db h)
  ];
}

-- A consistent ledger passes the check.
pub verify_invariants-passes : (db : Db) → IsConsistent db → verify_invariants db ≡ (ok tt, db)
verify_invariants-passes db c = elim (verify_invariants_decides db) [
  | inl (d, v) ↦ v
  | inr (n, r) ↦ absurd (n c)
]
