-- ===== src/Trading/Selling.antt =====
-- panthers-fund/src/agent/trading-engine.ts: handleSell.
use Prim.Native.String.{String, ◌++◌ as str_append}
use attested_capital.Base.{ℕ, ◌/◌, Option, none, some, List, [], ◌∷◌}
use attested_capital.Base.Int.{ℤ, pos, ◌+ℤ◌, sub_ℕ}
use attested_capital.Action.{ok, pure, continue, ◌>>=◌, ◌>>◌}
use attested_capital.Ledger.{Trade, TradeInput}
use attested_capital.Ledger.Verify.{verify_invariants}
use attested_capital.Ledger.Trades.{record_trade}
use attested_capital.Trading.Desk.{OpenPosition, Trading, on_ledger, close_position}

-- What the exchange gives for a position: the signature of the swap, and the units of USDC.
pub record Fill : Type 0 where
  pub signature : String
  pub out_amount : ℕ

-- The exchange and the price in cents at the exit, while one list of positions is sold.
pub record Market : Type 0 where
  pub swap : OpenPosition → Option Fill
  pub exit_price : OpenPosition → ℕ

abbrev pub cents_to_usdc_units : ℕ
cents_to_usdc_units = 10000

unfoldable pub pnl_cents : OpenPosition → Fill → ℤ
pnl_cents p fill = sub_ℕ (fill.out_amount / cents_to_usdc_units) p.amount_cents

-- The trade from the entry to the exit.
unfoldable pub round_trip : Market → OpenPosition → Fill → TradeInput
round_trip market p fill = record {
  strategy = p.strategy;
  pair = p.pair;
  direction = p.direction;
  entry_price = p.entry_price;
  exit_price = market.exit_price p;
  amount = p.amount_cents;
  profit_loss = pnl_cents p fill;
  signature = fill.signature;
  attestation =
      str_append "entry:" (str_append p.entry_signature (str_append "|exit:" fill.signature));
}

-- The variables of the loop of handleSell.
pub record Totals : Type 0 where
  pub total_pnl : ℤ
  pub last_signature : String
  pub last_trade : Option ℕ

abbrev pub no_totals : Totals
no_totals = record { total_pnl = pos 0; last_signature = ""; last_trade = none }

abbrev pub counted : OpenPosition → Fill → Trade → Totals → Totals
counted p fill trade t = record {
  total_pnl = t.total_pnl +ℤ pnl_cents p fill;
  last_signature = fill.signature;
  last_trade = some trade.id;
}

unfoldable pub settle_position : Market → OpenPosition → Fill → Trading Trade
settle_position market p fill = do
  trade ← on_ledger (record_trade (round_trip market p fill))
  _ ← close_position p.id
  pure trade

-- The loop: a position whose swap fails is left open; a trade that cannot be recorded ends it.
unfoldable pub sell_each : Market → List OpenPosition → Totals → Trading Totals
sell_each market [] t desk = (ok t, desk)
sell_each market (p ∷ rest) t desk = elim (market.swap p) [
  | none ↦ sell_each market rest t desk
  | some fill ↦
      continue (settle_position market p fill desk)
        λ trade. sell_each market rest (counted p fill trade t)
]

pub data CycleResult : Type 0 where
  hold skipped error : CycleResult
  opened : OpenPosition → CycleResult
  closed : Totals → CycleResult

unfoldable pub handle_sell : Market → List OpenPosition → Trading CycleResult
handle_sell market [] = pure skipped
handle_sell market (p ∷ rest) = do
  t ← sell_each market (p ∷ rest) no_totals
  on_ledger verify_invariants
  pure (closed t)
