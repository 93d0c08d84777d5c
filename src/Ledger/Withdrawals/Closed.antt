-- ===== src/Ledger/Withdrawals/Closed.antt =====
-- panthers-fund/src/database/ledger.ts: the account that `recordWithdrawal` closes, and the ledger
-- before the fee is paid out.
use attested_capital.Base.{
  ℕ, ◌+◌, ◌-◌, ◌≤◌, ◌==◌, ◌≡◌, refl, ap, Bool, Bool-cases, inl, inr, true, false, leb, ltb, String,
  some, List, [], ◌∷◌, ◌++◌, All, find, if◌then◌else◌, arith,
}
use attested_capital.Action.{ok, gets, modify, require, pure}
use attested_capital.Action.Runs.{run_bind, run_then}
use attested_capital.Ledger.{Db, NftAccount, Withdrawal, constraint, active_accounts, next_id}
use attested_capital.Ledger.Verify.{active_total, get_nft_account}
use attested_capital.Ledger.Accounts.{update_account}
use attested_capital.Ledger.Rows.{active_intro, active_tail, active_head}
use attested_capital.Ledger.Consistency.{IsConsistent, IsBalanced}
use attested_capital.Ledger.Trades.Applied.{has_key, Distinct, update-absent, active_total-cons}
use attested_capital.Ledger.Trades.Loop.{Distinct-update}
use attested_capital.Ledger.Withdrawals.{withdrawal_fee, deactivate, leave_pool, close_account}

-- Without the account the active balances sum to its balance less.
active_total-closed :
    (k : ℕ) (rows : List NftAccount) (a : NftAccount)
    → Distinct rows
    → find (λ x. x.token_id == k) rows ≡ some a
    → a.is_active ≡ true
    → active_total (update_account k deactivate rows) + a.current_balance ≡ active_total rows
unfolding deactivate
active_total-closed k [] a d h on = cc
active_total-closed k (x ∷ rows) a d h on = elim (Bool-cases (x.token_id == k)) [
  | inr other ↦
      let later : find (λ y. y.token_id == k) rows ≡ some a = rw other at h in
      let rest = active_total-closed k rows a d.1 later on in
      rw other (
        omega (
          arith,
          rest,
          active_total-cons x (update_account k deactivate rows),
          active_total-cons x rows,
        ))
  | inl own ↦
      let alone : has_key k rows ≡ false = ground (arith, d.0) in
      let same : some x ≡ some a = rw own at h in
      let balance : x.current_balance ≡ a.current_balance = ground arith in
      let counts : x.is_active ≡ true = ground arith in
      rw (own, update-absent k deactivate rows alone)
        (grind (arith, balance, counts, active_total-cons x rows))
]

active-All-closed :
    (P : NftAccount → Type 0) (k : ℕ) (rows : List NftAccount)
    → All P (active_accounts rows)
    → All P (active_accounts (update_account k deactivate rows))
unfolding deactivate
active-All-closed P k [] h = tt
active-All-closed P k (a ∷ rows) h =
    active_intro P (if a.token_id == k then deactivate a else a) (update_account k deactivate rows)
      (row (a.token_id == k)) (active-All-closed P k rows (active_tail P a rows h))
  where
    row :
        (b : Bool)
        → (if b then deactivate a else a).is_active ≡ true
        → P (if b then deactivate a else a)
    row true on = cc
    row false on = active_head P a rows h on

leave_pool-eq :
    (balance : ℕ) (db : Db)
    → ltb db.total_pool_balance balance ≡ false
    → ltb db.total_nfts_active 1 ≡ false
    → leave_pool balance db ≡ (
      ok tt,
      record db {
        fund = record db.fund {
          total_pool_balance = db.total_pool_balance - balance;
          total_nfts_active = db.total_nfts_active - 1;
        };
      },
    )
unfolding leave_pool
leave_pool-eq balance db covered one = rw (covered, one) refl

module _ (db : Db) (a : NftAccount) (address signature : String) where
  abbrev pub withdrawal_of : Withdrawal
  withdrawal_of = record {
    id = next_id db.withdrawals;
    token_id = a.token_id;
    amount = a.current_balance;
    fee = withdrawal_fee a.current_balance;
    net_amount = a.current_balance - withdrawal_fee a.current_balance;
    dest_address = address;
    tx_signature = signature;
  }

  -- The store that `close_account` leaves.
  abbrev pub closed : Db
  closed = record db {
    withdrawals = db.withdrawals ++ withdrawal_of ∷ [];
    accounts = update_account a.token_id deactivate db.accounts;
    fund = record db.fund {
      total_pool_balance = db.total_pool_balance - a.current_balance;
      total_nfts_active = db.total_nfts_active - 1;
    };
  }

  module _ (c : IsConsistent db) (distinct : Distinct db.accounts)
      (found : get_nft_account a.token_id db ≡ some a) (on : a.is_active ≡ true) where
    pub closed-pool : closed.total_pool_balance + a.current_balance ≡ db.total_pool_balance
    unfolding get_nft_account
    closed-pool =
        omega (arith, active_total-closed a.token_id db.accounts a distinct found on, c.pool)

    pub closed-IsConsistent : IsConsistent closed
    unfolding get_nft_account
    closed-IsConsistent = record {
      pool = omega (arith, active_total-closed a.token_id db.accounts a distinct found on, c.pool);
      balanced = active-All-closed IsBalanced a.token_id db.accounts c.balanced;
      allocated = c.allocated;
    }

    pub closed-Distinct : Distinct closed.accounts
    unfolding deactivate
    closed-Distinct = Distinct-update a.token_id deactivate (λ x. refl) db.accounts distinct

    pub close_account-eq :
        1 ≤ a.current_balance
        → 1 ≤ db.total_nfts_active
        → close_account a address signature db ≡ (ok withdrawal_of, closed)
    unfolding close_account require gets modify pure
    close_account-eq some_cents counted =
        let positive : leb 1 a.current_balance ≡ true = ground arith in
        let covered : ltb db.total_pool_balance a.current_balance ≡ false =
          ground (arith, closed-pool) in
        let one : ltb db.total_nfts_active 1 ≡ false = ground arith in
        run_then _ _ (ap (λ b. require b constraint db) positive) (
          run_bind _ _ refl (
            run_then _ _ refl (
              run_then _ _ refl
                (run_then _ _ (leave_pool-eq a.current_balance _ covered one) refl))))
