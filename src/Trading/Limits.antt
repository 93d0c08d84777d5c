-- ===== src/Trading/Limits.antt =====
-- What the hard limits hold the trading to.
use native.Mathlib.Nat.{mul-le-mul_right}
use attested_capital.Base.{
  ℕ, ◌+◌, ◌*◌, ◌/◌, ◌≤◌, ◌<◌, ◌≡◌, Option, none, some, List, [], total, arith,
}
use attested_capital.Base.Int.{neg_part}
use attested_capital.Trading.{
  clamp_position_size, DailyTradeStats, GovernanceLimits, no_overrides, tightened,
  check_daily_limits, handle_buy, opens,
}

tightened-le : (o : Option ℕ) (limit : ℕ) → tightened o limit ≤ limit
unfolding tightened
tightened-le none limit = omega arith
tightened-le (some n) limit = omega arith

clamp_position_size-le : (n : ℕ) → clamp_position_size n ≤ 30
unfolding clamp_position_size
clamp_position_size-le n = omega arith

-- A day's trading goes on only below ten trades and, where there is a pool, with a loss below ten
-- percent of it, whatever governance sets.
pub check_daily_limits-allows :
    (stats : DailyTradeStats) (pool : ℕ) (overrides : GovernanceLimits)
    → check_daily_limits stats pool overrides ≡ none
    → (stats.trade_count < 10) × (0 < pool → neg_part stats.total_pnl * 100 < 10 * pool)
unfolding check_daily_limits
check_daily_limits-allows stats pool overrides h =
    let trades = tightened-le overrides.max_daily_trades 10 in
    let loss = mul-le-mul_right pool (tightened-le overrides.daily_loss_limit 10) in
    (ground arith, λ rich. ground arith)

-- Governance can only tighten: what is allowed with its limits is allowed without them.
pub check_daily_limits-tightens :
    (stats : DailyTradeStats) (pool : ℕ) (overrides : GovernanceLimits)
    → check_daily_limits stats pool overrides ≡ none
    → check_daily_limits stats pool no_overrides ≡ none
unfolding check_daily_limits tightened
check_daily_limits-tightens stats pool overrides h =
    let trades = tightened-le overrides.max_daily_trades 10 in
    let loss = mul-le-mul_right pool (tightened-le overrides.daily_loss_limit 10) in ground arith

-- A position that is opened is not empty and at most 30 percent of the pool, and with it the open
-- positions stay below 60 percent of the pool.
pub handle_buy-bounded :
    (overrides : GovernanceLimits) (pool : ℕ) (open_amounts : List ℕ) (size : Option ℕ) (cents : ℕ)
    → handle_buy overrides pool open_amounts size ≡ opens cents
    → (0 < cents)
      × (cents * 100 ≤ 30 * pool)
      × ((total (λ c. c) open_amounts + cents) * 100 < 60 * pool)
unfolding handle_buy
handle_buy-bounded overrides pool open_amounts size cents h =
    let size_pct = clamp_position_size (elim size [ none ↦ 10 | some n ↦ n ]) in
    let exposure = mul-le-mul_right pool (tightened-le overrides.max_position_size 30) in
    let part : size_pct * pool ≤ 30 * pool = mul-le-mul_right pool (clamp_position_size-le _) in
    (ground arith, ground arith, ground arith)

-- A maximal position size that governance sets does not bound the size of a position: with none
-- open, a pool of at least a dollar and a signal of 30 percent or more, 30 percent are bought.
pub handle_buy-unbounded_override :
    (overrides : GovernanceLimits) (limit pool size : ℕ)
    → overrides.max_position_size ≡ some limit
    → 0 < limit
    → 100 ≤ pool
    → 30 ≤ size
    → handle_buy overrides pool [] (some size) ≡ opens (pool * 30 / 100)
unfolding handle_buy tightened clamp_position_size
handle_buy-unbounded_override overrides limit pool size set some_limit rich large = grind arith
