-- ===== src/Trading.antt =====
-- panthers-fund/src/strategies/hard-limits.ts, and the decision of
-- panthers-fund/src/agent/trading-engine.ts to open a position. Percentages are natural numbers.
pub mod Limits
pub mod Desk
pub mod Selling
pub mod Cycle
pub mod Orderly
pub mod Settled
pub mod Sold
pub mod Closing
pub mod Cycles
mod Examples
use attested_capital.Base.{
  ℕ, ◌+◌, ◌*◌, ◌/◌, min, max, ltb, leb, ◌&&◌, ◌||◌, str_eq, String, Bool, true, false, Option, none,
  some, List, [], ◌∷◌, any, filter, total, if◌then◌else◌,
}
use attested_capital.Base.Int.{ℤ, pos, negsuc, pos_part, neg_part}

pub record HardLimits : Type 0 where
  pub max_position_size : ℕ
  pub min_position_size : ℕ
  pub stop_loss_floor : ℕ
  pub max_daily_trades : ℕ
  pub daily_loss_limit : ℕ

abbrev pub hard_limits : HardLimits
hard_limits = record {
  max_position_size = 30;
  min_position_size = 5;
  stop_loss_floor = 3;
  max_daily_trades = 10;
  daily_loss_limit = 10;
}

abbrev pub allowed_strategies : List String
allowed_strategies =
    "rsi_mean_reversion" ∷ "bollinger_bands" ∷ "dca_accumulator" ∷ "hodl_patience" ∷ "ema_crossover"
    ∷ "supertrend" ∷ "macd_momentum" ∷ "multi_timeframe" ∷ "scalping" ∷ "breakout_trader" ∷ []

unfoldable pub is_allowed_strategy : String → Bool
is_allowed_strategy id = any (λ s. str_eq s id) allowed_strategies

unfoldable pub clamp_position_size : ℕ → ℕ
clamp_position_size size_pct =
    max hard_limits.min_position_size (min hard_limits.max_position_size size_pct)

pub record DailyTradeStats : Type 0 where
  pub trade_count : ℕ
  pub total_pnl : ℤ

-- The overrides that the limits read; a key that is missing is none.
pub record GovernanceLimits : Type 0 where
  pub max_daily_trades : Option ℕ
  pub daily_loss_limit : Option ℕ
  pub max_position_size : Option ℕ

abbrev pub no_overrides : GovernanceLimits
no_overrides = record { max_daily_trades = none; daily_loss_limit = none; max_position_size = none }

-- `override !== undefined ? Math.min(override, limit) : limit`
unfoldable pub tightened : Option ℕ → ℕ → ℕ
tightened none limit = limit
tightened (some override) limit = min override limit

-- Nothing, or the reason why no trade is allowed today.
pub data Halt : Type 0 where
  trade_limit loss_limit : Halt

unfoldable pub check_daily_limits : DailyTradeStats → ℕ → GovernanceLimits → Option Halt
check_daily_limits stats pool overrides =
    let max_trades = tightened overrides.max_daily_trades hard_limits.max_daily_trades in
    let limit = tightened overrides.daily_loss_limit hard_limits.daily_loss_limit in
    if leb max_trades stats.trade_count
    then some trade_limit
    else if ltb 0 pool
        && (ltb 0 (neg_part stats.total_pnl)
            && leb (limit * pool) ((pos_part stats.total_pnl + neg_part stats.total_pnl) * 100))
    then some loss_limit
    else none

-- The parameters of a strategy outside of their ranges; one without a range is not checked.
pub record Param : Type 0 where
  pub key : String
  pub value : ℕ
  pub range : Option (ℕ × ℕ)

unfoldable pub is_violation : Param → Bool
is_violation p = elim p.range [ none ↦ false | some r ↦ ltb p.value r.0 || ltb r.1 p.value ]

unfoldable pub validate_params : List Param → List Param
validate_params = filter is_violation

-- `handleBuy` up to the swap: the cents of the position, or why none is opened. The amounts are
-- those of the open positions, and the pool is not empty, which the cycle has tested.
pub data BuyDecision : Type 0 where
  max_exposure too_small : BuyDecision
  opens : ℕ → BuyDecision

unfoldable pub handle_buy : GovernanceLimits → ℕ → List ℕ → Option ℕ → BuyDecision
handle_buy overrides pool open_amounts size =
    let max_size = tightened overrides.max_position_size hard_limits.max_position_size in
    let total_open = total (λ cents. cents) open_amounts in
    let size_pct = clamp_position_size (elim size [ none ↦ 10 | some n ↦ n ]) in
    let position_cents = pool * size_pct / 100 in
    if leb (max_size * pool) (total_open * 100)
    then max_exposure
    else if leb position_cents 0
    then too_small
    else opens position_cents
