-- ===== src/Ledger/Verify.antt =====
-- panthers-fund/src/database/ledger.ts: the guards, and the invariants that close each transaction.
use attested_capital.Base.{
  ℕ, ◌==◌, Bool, true, false, not, Option, List, [], ◌∷◌, find, any, total, if◌then◌else◌,
}
use attested_capital.Base.Int.{ℤ, pos, ◌+ℤ◌, eqb}
use attested_capital.Action.{ok, err, pure, throw, gets, or_throw, modify, require, ◌>>=◌, ◌>>◌}
use attested_capital.Ledger.{
  Db, NftAccount, Trade, TradeAllocation, Error, fund_paused, account_not_found, pool_balance,
  account_balance, trade_allocation, Ledger, active_accounts,
}

unfoldable pub get_nft_account : ℕ → Db → Option NftAccount
get_nft_account token_id db = find (λ a. a.token_id == token_id) db.accounts

unfoldable pub guard_not_paused : Ledger Unit
guard_not_paused db = if db.is_paused then (err fund_paused, db) else (ok tt, db)

unfoldable pub guard_account_exists : ℕ → Ledger NftAccount
guard_account_exists token_id = do
  account ← gets (get_nft_account token_id)
  or_throw account (account_not_found token_id)

unfoldable pub guard_account_active : ℕ → Ledger NftAccount
guard_account_active token_id = do
  account ← guard_account_exists token_id
  require account.is_active (account_not_found token_id)
  pure account

unfoldable pub pause_fund : Ledger Unit
pause_fund = modify λ db. record db { fund = record db.fund { is_paused = true } }

unfoldable pub unpause_fund : Ledger Unit
unpause_fund = modify λ db. record db { fund = record db.fund { is_paused = false } }

-- `this.pauseFund(); throw …`
unfoldable pub violation : Error → Ledger Unit
violation e = do pause_fund; throw e

-- `SUM(current_balance) … WHERE is_active = 1`
abbrev pub active_total : List NftAccount → ℕ
active_total accounts = total (λ a. a.current_balance) (active_accounts accounts)

unfoldable pub verify_pool_balance : Ledger Unit
verify_pool_balance db =
    if active_total db.accounts == db.total_pool_balance
    then (ok tt, db)
    else violation pool_balance db

-- `current_balance != initial_deposit + total_pnl`
unfoldable pub off_balance : NftAccount → Bool
off_balance a = not (eqb (pos a.current_balance) (pos a.initial_deposit +ℤ a.total_pnl))

unfoldable pub verify_account_balance : Ledger Unit
verify_account_balance db =
    if any off_balance (active_accounts db.accounts)
    then violation account_balance db
    else (ok tt, db)

-- `COALESCE(SUM(ta.pnl_share), 0) … WHERE ta.trade_id = t.id`
unfoldable pub alloc_sum : ℕ → List TradeAllocation → ℤ
alloc_sum trade_id [] = pos 0
alloc_sum trade_id (a ∷ rest) =
    (if a.trade_id == trade_id then a.pnl_share else pos 0) +ℤ alloc_sum trade_id rest

unfoldable pub misallocated : List TradeAllocation → Trade → Bool
misallocated allocations t = not (eqb (alloc_sum t.id allocations) t.profit_loss)

unfoldable pub verify_trade_allocations : Ledger Unit
verify_trade_allocations db =
    if any (misallocated db.trade_allocations) db.trades
    then violation trade_allocation db
    else (ok tt, db)

unfoldable pub verify_invariants : Ledger Unit
verify_invariants = do verify_pool_balance; verify_account_balance; verify_trade_allocations
