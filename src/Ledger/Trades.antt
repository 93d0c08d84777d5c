-- ===== src/Ledger/Trades.antt =====
-- panthers-fund/src/database/ledger.ts: trades, and the distribution of their profit or loss.
pub mod Applied
pub mod Loop
pub mod Split
pub mod Amounts
pub mod Recorded
pub mod Sound
use attested_capital.Base.{ℕ, ◌==◌, leb, Option, none, some, List, [], ◌∷◌, ◌++◌, if◌then◌else◌}
use attested_capital.Base.Int.{ℤ, pos, ◌+ℤ◌, eqb, nonneg}
use attested_capital.Action.{
  ok, err, pure, gets, or_throw, modify, require, transaction, for_each, ◌>>=◌, ◌>>◌,
}
use attested_capital.Ledger.{
  NftAccount, TradeInput, Trade, constraint, diverges, Ledger, next_id, active_accounts,
}
use attested_capital.Ledger.Verify.{guard_not_paused, verify_invariants}
use attested_capital.Ledger.Shares.{Share, pnl_shares}

-- `SET current_balance = current_balance + ?, total_pnl = total_pnl + ? WHERE token_id = ?`, which
-- the CHECK on the balance refuses below zero.
unfoldable pub apply_share : ℕ → ℤ → List NftAccount → Option (List NftAccount)
apply_share token_id share [] = some []
apply_share token_id share (a ∷ rest) = elim (apply_share token_id share rest) [
  | none ↦ none
  | some rows ↦
      if a.token_id == token_id
      then elim (nonneg (pos a.current_balance +ℤ share)) [
        | none ↦ none
        | some balance ↦
            some (record a { current_balance = balance; total_pnl = a.total_pnl +ℤ share } ∷ rows)
      ]
      else some (a ∷ rows)
]

unfoldable pub update_balance : Share → Ledger Unit
update_balance s db = elim (apply_share s.token_id s.share db.accounts) [
  | none ↦ (err constraint, db)
  | some rows ↦ (ok tt, record db { accounts = rows })
]

unfoldable pub insert_allocation : ℕ → ℕ → Share → Ledger Unit
insert_allocation trade_id pool s = modify λ db. record db {
  trade_allocations =
      db.trade_allocations
      ++ record {
        id = next_id db.trade_allocations;
        trade_id = trade_id;
        token_id = s.token_id;
        pnl_share = s.share;
        balance_at_trade = s.balance;
        pool_total_at_trade = pool;
      }
        ∷ [];
}

-- `total_pool_balance = total_pool_balance + ?`, with the CHECK of the column.
unfoldable pub shift_pool : ℤ → Ledger Unit
shift_pool amount db = elim (nonneg (pos db.total_pool_balance +ℤ amount)) [
  | none ↦ (err constraint, db)
  | some balance ↦ (ok tt, record db { fund = record db.fund { total_pool_balance = balance } })
]

unfoldable pub allocate : ℕ → ℕ → Share → Ledger Unit
allocate trade_id pool s = do insert_allocation trade_id pool s; update_balance s

-- The split and step 3, once there is something to share and a pool to share it in.
unfoldable pub settle : ℕ → ℤ → ℕ → List NftAccount → Ledger Unit
settle trade_id amount pool accounts = do
  shares ← or_throw (pnl_shares amount pool accounts) diverges
  for_each shares (allocate trade_id pool)
  shift_pool amount

unfoldable pub distribute_trade_pnl : ℕ → ℤ → Ledger Unit
distribute_trade_pnl trade_id amount db =
    if eqb amount (pos 0) then (ok tt, db) else elim (active_accounts db.accounts) [
      | [] ↦ (ok tt, db)
      | a ∷ rest ↦
          if db.total_pool_balance == 0
          then (ok tt, db)
          else settle trade_id amount db.total_pool_balance (a ∷ rest) db
    ]

-- The row gets the next key; `amount > 0` is a CHECK.
unfoldable pub insert_trade : TradeInput → Ledger Trade
insert_trade input = do
  require (leb 1 input.amount) constraint
  trade ← gets λ db. record { id = next_id db.trades; input = input }
  modify λ db. record db { trades = db.trades ++ trade ∷ [] }
  pure trade

unfoldable pub record_trade : TradeInput → Ledger Trade
record_trade input = do
  guard_not_paused
  transaction do
    trade ← insert_trade input
    distribute_trade_pnl trade.id input.profit_loss
    verify_invariants
    pure trade
