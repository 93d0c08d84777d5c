-- ===== src/Trading/Examples.antt =====
-- The limits at concrete numbers.
use attested_capital.Base.{
  ℕ, Bool, true, false, ◌++◌, ◌==◌, if◌then◌else◌, ◌+◌, ◌*◌, ◌≤◌, ◌<◌, ◌≡◌, refl, none, some, [],
  ◌∷◌, arith,
}
use attested_capital.Base.Int.{pos, negsuc, ◌+ℤ◌}
use attested_capital.Trading.{
  DailyTradeStats, GovernanceLimits, tightened, check_daily_limits, clamp_position_size, handle_buy,
}
use attested_capital.Action.{ok, err, ◌>>◌}
use attested_capital.Ledger.{Db, NftAccount, Direction, empty, fund_paused}
use attested_capital.Ledger.Verify.{guard_not_paused}
use attested_capital.Ledger.Trades.{record_trade}
use attested_capital.Trading.{no_overrides}
use attested_capital.Trading.Desk.{OpenPosition, Desk, ledger_failure, get_open_positions}
use attested_capital.Trading.Selling.{Market, Totals, closed, handle_sell, pnl_cents}
use attested_capital.Trading.Cycle.{Inputs, sells, run_trading_cycle}
use attested_capital.Trading.Orderly.{IsOrderly}
use attested_capital.Trading.Sold.{proceeds, pool_of, kept, trade_inputs, sold_trades}
use attested_capital.Trading.Closing.{handle_sell-settles, handle_sell-unrecorded}
use attested_capital.Trading.Cycles.{Completes, run_trading_cycle-Completes}
use attested_capital.Trading.Limits.{handle_buy-bounded}

abbrev today : DailyTradeStats
today = record { trade_count = 2; total_pnl = negsuc 49 }

abbrev strict : GovernanceLimits
strict = record {
  max_daily_trades = some 3;
  daily_loss_limit = some 6;
  max_position_size = some 10;
}

allowed : check_daily_limits today 1000 strict ≡ none
unfolding check_daily_limits tightened
allowed = refl

handle_buy-bounded_example : (0 < 250) × (250 * 100 ≤ 30 * 1000) × ((50 + 250) * 100 < 60 * 1000)
unfolding handle_buy tightened clamp_position_size
handle_buy-bounded_example = handle_buy-bounded strict 1000 (50 ∷ []) (some 25) 250 refl

-- A desk with two positions: the newer one loses, the older one cannot be sold.
abbrev account : ℕ → ℕ → NftAccount
account token_id balance = record {
  token_id = token_id;
  owner_telegram_id = "alice";
  owner_address = "A1";
  initial_deposit = balance;
  current_balance = balance;
  total_pnl = pos 0;
  is_active = true;
  mint_address = none;
}

abbrev ledger : Bool → Db
ledger is_paused = record empty {
  accounts = account 1 100 ∷ account 2 200 ∷ [];
  fund = record {
    total_pool_balance = 300;
    total_nfts_active = 2;
    active_strategy = "scalping";
    is_paused = is_paused;
  };
}

abbrev open_row : ℕ → ℕ → OpenPosition
open_row id cents = record {
  id = id;
  pair = "SOL/USDC";
  direction = Direction.long;
  entry_price = 15000;
  amount_cents = cents;
  token_amount_raw = "3333";
  entry_signature = "in";
  strategy = "scalping";
}

abbrev desk : Bool → Desk
desk is_paused = record {
  ledger = ledger is_paused;
  positions = open_row 2 50 ∷ open_row 1 30 ∷ [];
  last_id = 2;
}

abbrev market : Market
market = record {
  swap = λ p. if p.id == 2 then some (record { signature = "out"; out_amount = 430000 }) else none;
  exit_price = λ p. 12900;
}

desk-IsOrderly : IsOrderly (desk false)
unfolding ◌+ℤ◌
desk-IsOrderly = record {
  sound = record {
    consistent = record { pool = refl; balanced = (refl, (refl, tt)); allocated = tt };
    keys = (refl, (refl, tt));
    numbered = record { trade_ids = tt; allocation_ids = tt };
    running = refl;
  };
  keyed = (refl, (refl, tt));
  numbered = (omega arith, (omega arith, tt));
  amounts = (omega arith, (omega arith, tt));
  pairs = (refl, (refl, tt));
  covered = omega arith;
}

handle_sell-settles_example :
    (t : Totals) × (left : Desk) × (handle_sell market
        (open_row 2 50 ∷ open_row 1 30 ∷ [])
        (desk false)
      ≡ (ok (closed t), left))
    × IsOrderly left
    × (t.total_pnl ≡ proceeds market (open_row 2 50 ∷ open_row 1 30 ∷ []))
    × (pool_of left ≡ pos 300 +ℤ proceeds market (open_row 2 50 ∷ open_row 1 30 ∷ []))
    × (left.positions ≡ kept market (open_row 2 50 ∷ open_row 1 30 ∷ []) (desk false).positions)
    × (trade_inputs left.ledger.trades
        ≡ [] ++ sold_trades market (open_row 2 50 ∷ open_row 1 30 ∷ []))
unfolding get_open_positions
handle_sell-settles_example =
    handle_sell-settles market "SOL/USDC" (desk false) (open_row 2 50) (open_row 1 30 ∷ [])
      desk-IsOrderly refl

loses_seven : proceeds market (open_row 2 50 ∷ open_row 1 30 ∷ []) ≡ negsuc 6
unfolding pnl_cents ◌+ℤ◌
loses_seven = refl

handle_sell-unrecorded_example :
    handle_sell market (open_row 2 50 ∷ []) (desk true)
    ≡ (err (ledger_failure fund_paused), desk true)
unfolding record_trade guard_not_paused ◌>>◌
handle_sell-unrecorded_example =
    handle_sell-unrecorded market (open_row 2 50) [] (desk true)
      (record { signature = "out"; out_amount = 430000 }) fund_paused (ledger true) refl refl

abbrev selling : Inputs
selling = record {
  stats = today;
  overrides = no_overrides;
  candles = some 30;
  signal = some (record { action = sells; size = none });
  buy = λ cents. none;
  market = market;
}

run_trading_cycle-Completes_example : Completes (run_trading_cycle selling (desk false))
run_trading_cycle-Completes_example =
    run_trading_cycle-Completes (desk false) desk-IsOrderly selling
