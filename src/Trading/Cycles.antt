-- ===== src/Trading/Cycles.antt =====
-- panthers-fund/src/agent/trading-engine.ts: a cycle never throws on a desk in order.

use attested_capital.Base.{
  ℕ, suc, ◌+◌, ◌≤◌, ◌<◌, ltb, str_eq, ◌≡◌, refl, ap, ◌∙◌, Bool, true, false, Option, none, some,
  List, [], ◌∷◌, All, All-map, any, filter, total, if◌then◌else◌, if_true, arith,
}
use attested_capital.Action.{Result, ok, pure, gets, modify, continue}
use attested_capital.Action.Runs.{run_bind, run_then}
use attested_capital.Ledger.Verify.{guard_not_paused}
use attested_capital.Ledger.Guards.{guard_not_paused-passes}
use attested_capital.Trading.{BuyDecision, max_exposure, too_small, opens, handle_buy}
use attested_capital.Trading.Limits.{handle_buy-bounded}
use attested_capital.Trading.Desk.{
  OpenPosition, Desk, DeskFailure, is_position, sol_usdc, open_position, get_open_positions,
}
use attested_capital.Trading.Selling.{
  Market, CycleResult, skipped, hold, error, opened, closed, handle_sell,
}
use attested_capital.Trading.Cycle.{
  SignalAction, Bought, bought_position, buy_cents, holds, buys, sells, Signal, Inputs, amounts,
  act, is_skipped, with_prices, run_trading_cycle,
}
use attested_capital.Trading.Orderly.{open_total, IsOrderly}
use attested_capital.Trading.Settled.{on_ledger-ok}
use attested_capital.Trading.Closing.{handle_sell-settles}

-- Of a desk in order, all positions are of the pair that is traded.
only_pair :
    (rows : List OpenPosition)
    → All (λ p. str_eq p.pair sol_usdc ≡ true) rows
    → filter (λ p. str_eq p.pair sol_usdc) rows ≡ rows
only_pair [] h = refl
only_pair (p ∷ rows) h = if_true _ _ _ h.0 ∙ ap (◌∷◌ p) (only_pair rows h.1)

total-amounts : (rows : List OpenPosition) → total (λ c. c) (amounts rows) ≡ open_total rows
total-amounts [] = refl
total-amounts (p ∷ rows) = omega (arith, total-amounts rows)

-- A cycle that returns, and leaves the desk in order.
abbrev pub Completes : Result DeskFailure CycleResult × Desk → Type 0
Completes r = (c : CycleResult) × (left : Desk) × (r ≡ (ok c, left)) × IsOrderly left

module _ (desk : Desk) (o : IsOrderly desk) where
  any-fresh :
      (n : ℕ) (rows : List OpenPosition)
      → All (λ p. p.id ≤ n) rows
      → any (is_position (suc n)) rows ≡ false
  any-fresh n [] h = refl
  any-fresh n (p ∷ rows) h = ground (arith, h.0, any-fresh n rows h.1)

  open_position-ok :
      (row : ℕ → OpenPosition)
      → open_position row desk ≡ (
        ok (row (suc desk.last_id)),
        record desk {
          positions = row (suc desk.last_id) ∷ desk.positions;
          last_id = suc desk.last_id;
        },
      )
  unfolding open_position gets modify pure
  open_position-ok row =
      run_then _ _
        (on_ledger-ok guard_not_paused desk tt desk.ledger
          (guard_not_paused-passes desk.ledger o.sound.running))
        (run_bind _ _ refl (run_then _ _ refl refl))

  bought-IsOrderly :
      (strategy : _) (cents : ℕ) (b : Bought)
      → 0 < cents
      → open_total desk.positions + cents ≤ desk.ledger.total_pool_balance
      → IsOrderly (record desk {
        positions = bought_position strategy cents b (suc desk.last_id) ∷ desk.positions;
        last_id = suc desk.last_id;
      })
  bought-IsOrderly strategy cents b some_cents room = record {
    sound = o.sound;
    keyed = (any-fresh desk.last_id desk.positions o.numbered, o.keyed);
    numbered = (omega arith, All-map _ _ (λ p le. omega arith) desk.positions o.numbered);
    amounts = (omega arith, o.amounts);
    pairs = (refl, o.pairs);
    covered = omega (arith, room);
  }

  buy_cents-Completes :
      (strategy : _) (swap : ℕ → Option Bought) (d : BuyDecision)
      → ((cents : ℕ)
          → d ≡ opens cents
          → (0 < cents) × (open_total desk.positions + cents ≤ desk.ledger.total_pool_balance))
      → Completes (buy_cents strategy swap d desk)
  unfolding buy_cents pure
  buy_cents-Completes strategy swap max_exposure h = (skipped, desk, refl, o)
  buy_cents-Completes strategy swap too_small h = (skipped, desk, refl, o)
  buy_cents-Completes strategy swap (opens cents) h = by_answer (swap cents) (h cents refl)
    where
      by_answer :
          (answer : Option Bought)
          → (0 < cents) × (open_total desk.positions + cents ≤ desk.ledger.total_pool_balance)
          → Completes (elim answer [
            | none ↦ (ok error, desk)
            | some b ↦
                continue
                  (open_position (bought_position strategy cents b) desk)
                  (λ position. pure (opened position))
          ])
      by_answer none k = (error, desk, refl, o)
      by_answer (some b) k = (
        opened (bought_position strategy cents b (suc desk.last_id)),
        _,
        ap (λ r. continue r (λ position. pure (opened position)))
            (open_position-ok (bought_position strategy cents b)),
        bought-IsOrderly strategy cents b k.0 k.1,
      )

  nothing_to_sell : (market : Market) → Completes (handle_sell market [] desk)
  unfolding handle_sell pure
  nothing_to_sell market = (skipped, desk, refl, o)

  invested : total (λ c. c) (amounts (get_open_positions sol_usdc desk)) ≡ open_total desk.positions
  unfolding get_open_positions
  invested =
      ap (λ rows. total (λ c. c) (amounts rows)) (only_pair desk.positions o.pairs)
      ∙ total-amounts desk.positions

  handle_sell-Completes :
      (market : Market) → Completes (handle_sell market (get_open_positions sol_usdc desk) desk)
  handle_sell-Completes market = by_rows (get_open_positions sol_usdc desk) refl
    where
      by_rows :
          (ps : List OpenPosition)
          → get_open_positions sol_usdc desk ≡ ps
          → Completes (handle_sell market ps desk)
      by_rows [] found = nothing_to_sell market
      by_rows (p ∷ rest) found =
          let s = handle_sell-settles market sol_usdc desk p rest o found in
          (closed s.0, s.1, s.2, s.3)

  act-Completes : (i : Inputs) (s : Signal) → Completes (act i s desk)
  unfolding act
  act-Completes i s = by_action s.action
    where
      by_action :
          (a : SignalAction)
          → Completes (elim a [
            | holds ↦ (ok hold, desk)
            | buys ↦
                buy_cents desk.ledger.active_strategy i.buy
                  (handle_buy i.overrides desk.ledger.total_pool_balance
                    (amounts (get_open_positions sol_usdc desk))
                    s.size)
                  desk
            | sells ↦ handle_sell i.market (get_open_positions sol_usdc desk) desk
          ])
      by_action holds = (hold, desk, refl, o)
      by_action buys = buy_cents-Completes _ i.buy _ λ cents h.
          let bound = handle_buy-bounded i.overrides _ _ s.size cents h in
          (bound.0, omega (arith, bound.2, invested))
      by_action sells = handle_sell-Completes i.market

  with_prices-Completes :
      (i : Inputs) (candles : Option ℕ) (signal : Option Signal)
      → Completes (with_prices i candles signal desk)
  unfolding with_prices
  with_prices-Completes i none signal = (error, desk, refl, o)
  with_prices-Completes i (some candles) none =
      (if ltb candles 10 then skipped else error, desk, refl, o)
  with_prices-Completes i (some candles) (some signal) =
      by_test (ltb candles 10) (act-Completes i signal)
    where
      by_test :
          (b : Bool) {r : Result DeskFailure CycleResult × Desk}
          → Completes r
          → Completes (if b then (ok skipped, desk) else r)
      by_test true h = (skipped, desk, refl, o)
      by_test false h = h

  -- On a desk in order a cycle never throws, whatever the signal, the governance, the prices and
  -- the exchange give, and it leaves the desk in order: the ledger consistent, the keys keys, and
  -- the open positions within the pool.
  pub run_trading_cycle-Completes : (i : Inputs) → Completes (run_trading_cycle i desk)
  unfolding run_trading_cycle
  run_trading_cycle-Completes i =
      by_test (is_skipped i desk.ledger) (with_prices-Completes i i.candles i.signal)
    where
      by_test :
          (b : Bool) {r : Result DeskFailure CycleResult × Desk}
          → Completes r
          → Completes (if b then (ok skipped, desk) else r)
      by_test true h = (skipped, desk, refl, o)
      by_test false h = h
