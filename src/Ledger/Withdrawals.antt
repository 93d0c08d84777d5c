-- ===== src/Ledger/Withdrawals.antt =====
-- panthers-fund/src/database/ledger.ts: withdrawals, and the fee that the remaining holders get.
pub mod Closed
pub mod PaidOut
pub mod FeePaid
use attested_capital.Base.{
  ℕ, ◌-◌, ◌*◌, ◌/◌, ◌==◌, ltb, leb, String, false, List, [], ◌∷◌, ◌++◌, if◌then◌else◌,
}
use attested_capital.Base.Int.{pos, pos_part}
use attested_capital.Action.{
  ok, err, pure, gets, or_throw, modify, require, transaction, for_each, ◌>>=◌, ◌>>◌,
}
use attested_capital.Ledger.{
  NftAccount, Withdrawal, constraint, diverges, Ledger, next_id, active_accounts,
}
use attested_capital.Ledger.Verify.{guard_not_paused, guard_account_active, verify_invariants}
use attested_capital.Ledger.Accounts.{update_account}
use attested_capital.Ledger.Shares.{Share, fee_shares}
use attested_capital.Ledger.Trades.{update_balance, shift_pool}

-- `Math.trunc(balance * 2 / 100)`
unfoldable pub withdrawal_fee : ℕ → ℕ
withdrawal_fee balance = balance * 2 / 100

unfoldable pub pay_share : Share → Ledger Unit
pay_share s db = if ltb 0 (pos_part s.share) then update_balance s db else (ok tt, db)

unfoldable pub settle_fee : ℕ → ℕ → List NftAccount → Ledger Unit
settle_fee fee pool accounts = do
  shares ← or_throw (fee_shares fee pool accounts) diverges
  for_each shares pay_share
  shift_pool (pos fee)

unfoldable pub distribute_withdrawal_fee : ℕ → Ledger Unit
distribute_withdrawal_fee fee db =
    if fee == 0 then (ok tt, db) else elim (active_accounts db.accounts) [
      | [] ↦ (ok tt, db)
      | a ∷ rest ↦
          if db.total_pool_balance == 0
          then (ok tt, db)
          else settle_fee fee db.total_pool_balance (a ∷ rest) db
    ]

unfoldable pub deactivate : NftAccount → NftAccount
deactivate a = record a { current_balance = 0; is_active = false }

-- `total_pool_balance - ?` and `total_nfts_active - 1`, with the CHECKs of the columns.
unfoldable pub leave_pool : ℕ → Ledger Unit
leave_pool balance db =
    if ltb db.total_pool_balance balance
    then (err constraint, db)
    else if ltb db.total_nfts_active 1
    then (err constraint, db)
    else (
      ok tt,
      record db {
        fund = record db.fund {
          total_pool_balance = db.total_pool_balance - balance;
          total_nfts_active = db.total_nfts_active - 1;
        };
      },
    )

unfoldable pub close_account : NftAccount → String → String → Ledger Withdrawal
close_account account dest_address tx_signature = do
  let fee = withdrawal_fee account.current_balance
  require (leb 1 account.current_balance) constraint
  withdrawal ← gets λ db. record {
    id = next_id db.withdrawals;
    token_id = account.token_id;
    amount = account.current_balance;
    fee = fee;
    net_amount = account.current_balance - fee;
    dest_address = dest_address;
    tx_signature = tx_signature;
  }
  modify λ db. record db { withdrawals = db.withdrawals ++ withdrawal ∷ [] }
  modify λ db. record db { accounts = update_account account.token_id deactivate db.accounts }
  leave_pool account.current_balance
  pure withdrawal

unfoldable pub record_withdrawal : ℕ → String → String → Ledger Withdrawal
record_withdrawal token_id dest_address tx_signature = do
  guard_not_paused
  transaction do
    account ← guard_account_active token_id
    withdrawal ← close_account account dest_address tx_signature
    distribute_withdrawal_fee withdrawal.fee
    verify_invariants
    pure withdrawal
