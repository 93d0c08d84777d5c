-- ===== src/Trading/Cycle.antt =====
-- panthers-fund/src/agent/trading-engine.ts: handleBuy after its decision, and runTradingCycle.
use Prim.Native.String.{String}
use attested_capital.Base.{
  ℕ, ◌==◌, ltb, str_eq, ◌||◌, Bool, true, false, Option, none, some, List, map, not, if◌then◌else◌,
}
use attested_capital.Action.{ok, pure, continue}
use attested_capital.Ledger.{Db, Direction}
use attested_capital.Trading.{
  GovernanceLimits, BuyDecision, max_exposure, too_small, opens, handle_buy, DailyTradeStats, Halt,
  check_daily_limits, is_allowed_strategy,
}
use attested_capital.Trading.Desk.{
  OpenPosition, Trading, open_position, get_open_positions, sol_usdc,
}
use attested_capital.Trading.Selling.{
  Market, CycleResult, hold, skipped, error, opened, handle_sell,
}

-- handleBuy, after the decision: the swap may fail, and gives the lamports and the price.
pub record Bought : Type 0 where
  pub signature : String
  pub sol_received : String
  pub entry_price : ℕ

abbrev pub bought_position : String → ℕ → Bought → ℕ → OpenPosition
bought_position strategy cents b id = record {
  id = id;
  pair = sol_usdc;
  direction = Direction.long;
  entry_price = b.entry_price;
  amount_cents = cents;
  token_amount_raw = b.sol_received;
  entry_signature = b.signature;
  strategy = strategy;
}

unfoldable pub buy_cents : String → (ℕ → Option Bought) → BuyDecision → Trading CycleResult
buy_cents strategy swap max_exposure desk = (ok skipped, desk)
buy_cents strategy swap too_small desk = (ok skipped, desk)
buy_cents strategy swap (opens cents) desk = elim (swap cents) [
  | none ↦ (ok error, desk)
  | some b ↦
      continue (open_position (bought_position strategy cents b) desk)
        λ position. pure (opened position)
]

pub data SignalAction : Type 0 where
  holds buys sells : SignalAction

-- The blended signal of the strategy and the sentiment.
pub record Signal : Type 0 where
  pub action : SignalAction
  pub size : Option ℕ

-- What a cycle gets from elsewhere: the trades of the day, the overrides, the number of candles, the
-- signal, and the exchange. Where the prices or the strategy fail, there is none.
pub record Inputs : Type 0 where
  pub stats : DailyTradeStats
  pub overrides : GovernanceLimits
  pub candles : Option ℕ
  pub signal : Option Signal
  pub buy : ℕ → Option Bought
  pub market : Market

abbrev pub is_halted : Option Halt → Bool
is_halted none = false
is_halted (some h) = true

-- The checks before a cycle.
unfoldable pub is_skipped : Inputs → Db → Bool
is_skipped i db =
    db.is_paused
    || (db.total_pool_balance == 0)
    || (db.total_nfts_active == 0)
    || str_eq db.active_strategy ""
    || str_eq db.active_strategy "none"
    || not (is_allowed_strategy db.active_strategy)
    || is_halted (check_daily_limits i.stats db.total_pool_balance i.overrides)

abbrev pub amounts : List OpenPosition → List ℕ
amounts = map (λ p. p.amount_cents)

unfoldable pub act : Inputs → Signal → Trading CycleResult
act i signal desk = elim signal.action [
  | holds ↦ (ok hold, desk)
  | buys ↦
      buy_cents desk.ledger.active_strategy i.buy
        (handle_buy i.overrides desk.ledger.total_pool_balance
          (amounts (get_open_positions sol_usdc desk)) signal.size)
        desk
  | sells ↦ handle_sell i.market (get_open_positions sol_usdc desk) desk
]

unfoldable pub with_prices : Inputs → Option ℕ → Option Signal → Trading CycleResult
with_prices i none signal desk = (ok error, desk)
with_prices i (some candles) none desk = (ok (if ltb candles 10 then skipped else error), desk)
with_prices i (some candles) (some signal) desk =
    let result = act i signal desk in if ltb candles 10 then (ok skipped, desk) else result

unfoldable pub run_trading_cycle : Inputs → Trading CycleResult
run_trading_cycle i desk =
    let result = with_prices i i.candles i.signal desk in
    if is_skipped i desk.ledger then (ok skipped, desk) else result
