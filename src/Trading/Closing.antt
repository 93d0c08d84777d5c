-- ===== src/Trading/Closing.antt =====
-- panthers-fund/src/agent/trading-engine.ts: handleSell and runTradingCycle on a desk in order.
use Prim.Native.String.{String}
use attested_capital.Base.{
  str_eq, ◌≡◌, refl, ap, subst, ◌∙◌, Bool, some, List, ◌∷◌, ◌++◌, All, All-filter, filter,
}
use attested_capital.Base.Int.{ℤ, pos, ◌+ℤ◌, int_laws}
use attested_capital.Action.{ok, err, pure, continue}
use attested_capital.Action.Runs.{run_bind, run_then, bind_throws}
use attested_capital.Ledger.{Db, Error}
use attested_capital.Ledger.Trades.{record_trade}
use attested_capital.Ledger.Verify.{verify_invariants}
use attested_capital.Ledger.Consistency.{verify_invariants-passes}
use attested_capital.Ledger.Calls.Atomicity.{record_trade-IsAtomic}
use attested_capital.Trading.Desk.{
  OpenPosition, Desk, ledger_failure, on_ledger, get_open_positions, failure_of,
}
use attested_capital.Trading.Selling.{
  Fill, Market, Totals, closed, handle_sell, sell_each, settle_position, counted, no_totals,
  round_trip,
}
use attested_capital.Trading.Orderly.{Keyed, IsRow, IsOrderly, Keyed-filter, rows-IsRow}
use attested_capital.Trading.Settled.{on_ledger-ok}
use attested_capital.Trading.Sold.{
  proceeds, sold_trades, trade_inputs, pool_of, sell, kept, by_swap,
}

-- The rows of a table are found in it, whichever of them are taken.
rows_of :
    (f : OpenPosition → Bool) (rows : List OpenPosition)
    → Keyed rows
    → All (IsRow rows) (filter f rows)
rows_of f rows d = All-filter _ f rows (rows-IsRow rows d)

verified : (desk : Desk) → IsOrderly desk → on_ledger verify_invariants desk ≡ (ok tt, desk)
verified desk o =
    on_ledger-ok verify_invariants desk tt desk.ledger
      (verify_invariants-passes desk.ledger o.sound.consistent)

zero_first : (z : ℤ) → pos 0 +ℤ z ≡ z
zero_first z = omega int_laws

module _ (market : Market) (pair : String) (desk : Desk) where
  -- On a desk in order, whose ledger is consistent and running and whose pool is at least what is
  -- invested, a sale of the open positions of a pair returns, whichever swaps fail: exactly the
  -- positions whose swap succeeds are closed, each with one trade, the reported profit or loss is
  -- theirs, the pool moves by exactly that, and the desk is in order again.
  pub handle_sell-settles :
      (p : OpenPosition) (rest : List OpenPosition)
      → IsOrderly desk
      → get_open_positions pair desk ≡ p ∷ rest
      → (t : Totals) × (left : Desk) × (handle_sell market (p ∷ rest) desk ≡ (ok (closed t), left))
        × IsOrderly left
        × (t.total_pnl ≡ proceeds market (p ∷ rest))
        × (pool_of left ≡ pool_of desk +ℤ proceeds market (p ∷ rest))
        × (left.positions ≡ kept market (p ∷ rest) desk.positions)
        × (trade_inputs left.ledger.trades
            ≡ trade_inputs desk.ledger.trades ++ sold_trades market (p ∷ rest))
  unfolding handle_sell get_open_positions pure
  handle_sell-settles p rest o found =
      let mine : OpenPosition → Bool = λ q. str_eq q.pair pair in
      let s =
        sell market (p ∷ rest) no_totals desk o
          (subst (All (IsRow desk.positions)) found (rows_of mine desk.positions o.keyed))
          (subst Keyed found (Keyed-filter mine desk.positions o.keyed)) in
      (
        s.totals,
        s.left,
        run_bind _ _ s.run (run_then _ _ (verified s.left s.orderly) refl),
        s.orderly,
        s.pnl ∙ zero_first (proceeds market (p ∷ rest)),
        s.pool,
        s.positions,
        s.trades,
      )

module _ (market : Market) (p : OpenPosition) (rest : List OpenPosition) (desk : Desk) where
  settle_position-throws :
      (fill : Fill) (e : Error) (l : Db)
      → record_trade (round_trip market p fill) desk.ledger ≡ (err e, l)
      → settle_position market p fill desk ≡ (err (ledger_failure e), desk)
  unfolding settle_position on_ledger
  settle_position-throws fill e l thrown =
      let same = (record_trade-IsAtomic (round_trip market p fill)).throws desk.ledger l e thrown in
      bind_throws _ _ (
        ap (λ r. (failure_of r.0, record desk { ledger = r.1 })) thrown
        ∙ ap (λ d. (err (ledger_failure e), record desk { ledger = d })) same)

  -- If the trade of the first position cannot be recorded after its swap succeeded, the sale
  -- throws what the ledger threw and the desk is as it was before: the position that the exchange
  -- has sold is still open, and nothing of the proceeds is recorded.
  pub handle_sell-unrecorded :
      (fill : Fill) (e : Error) (l : Db)
      → market.swap p ≡ some fill
      → record_trade (round_trip market p fill) desk.ledger ≡ (err e, l)
      → handle_sell market (p ∷ rest) desk ≡ (err (ledger_failure e), desk)
  unfolding handle_sell
  handle_sell-unrecorded fill e l filled thrown = bind_throws _ _ (
      by_swap market p rest no_totals desk (some fill) filled
      ∙ ap (λ r. continue r (λ trade. sell_each market rest (counted p fill trade no_totals)))
          (settle_position-throws fill e l thrown))
