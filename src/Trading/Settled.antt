-- ===== src/Trading/Settled.antt =====
-- panthers-fund/src/agent/trading-engine.ts: what handleSell leaves of a desk in order.
use attested_capital.Base.{ℕ, ◌+◌, ◌≤◌, ◌≡◌, refl, ap, some, [], ◌∷◌, ◌++◌, All-filter, find, arith}
use attested_capital.Base.Int.{ℤ, pos, pos_part, neg_part, ◌+ℤ◌, +ℤ_parts}
use attested_capital.Action.{ok, pure, gets, or_throw, modify}
use attested_capital.Action.Runs.{run_bind, run_then}
use attested_capital.Ledger.{Db, Ledger}
use attested_capital.Ledger.Trades.{record_trade}
use attested_capital.Ledger.Trades.Sound.{Booked, book, new_trade}
use attested_capital.Trading.Desk.{
  OpenPosition, Desk, is_position, without, on_ledger, get_open_position, close_position,
  failure_of, position_not_found,
}
use attested_capital.Trading.Selling.{Fill, Market, settle_position, round_trip, pnl_cents}
use attested_capital.Trading.Orderly.{IsRow, IsOrderly, Keyed-filter, find-All, open_total-without}

pnl_cents-loss : (p : OpenPosition) (fill : Fill) → neg_part (pnl_cents p fill) ≤ p.amount_cents
unfolding pnl_cents
pnl_cents-loss p fill = ground arith

pub on_ledger-ok :
    {A : Type 0} (m : Ledger A) (desk : Desk) (a : A) (l : Db)
    → m desk.ledger ≡ (ok a, l)
    → on_ledger m desk ≡ (ok a, record desk { ledger = l })
unfolding on_ledger
on_ledger-ok m desk a l h = ap (λ r. (failure_of r.0, record desk { ledger = r.1 })) h

close_position-ok :
    (id : ℕ) (p : OpenPosition) (desk : Desk)
    → find (is_position id) desk.positions ≡ some p
    → close_position id desk ≡ (ok p, record desk { positions = without id desk.positions })
unfolding close_position get_open_position gets or_throw modify pure
close_position-ok id p desk found = run_bind _ _ refl (
    run_bind _ _ (ap (λ o. or_throw o (position_not_found id) desk) found) (run_then _ _ refl refl))

-- The pool after a trade still covers what is left.
still_covered :
    (pool after invested left amount : ℕ) (pnl : ℤ)
    → pos after ≡ pos pool +ℤ pnl
    → left + amount ≡ invested
    → neg_part pnl ≤ amount
    → invested ≤ pool
    → left ≤ after
still_covered pool after invested left amount pnl moved freed loss covered =
    omega (arith, ap pos_part moved, ap neg_part moved, +ℤ_parts (pos pool) pnl)

-- What one position leaves.
pub record Settled (market : Market) (p : OpenPosition) (fill : Fill) (desk : Desk) : Type 0 where
  pub ledger : Db
  pub next : Desk
  pub shape : next ≡ record desk { ledger = ledger; positions = without p.id desk.positions }
  pub run :
      settle_position market p fill desk
      ≡ (ok (new_trade desk.ledger (round_trip market p fill)), next)
  pub orderly : IsOrderly next
  pub pool :
      pos next.ledger.total_pool_balance ≡ pos desk.ledger.total_pool_balance +ℤ pnl_cents p fill
  pub trades :
      next.ledger.trades
      ≡ desk.ledger.trades ++ new_trade desk.ledger (round_trip market p fill) ∷ []

module _ (market : Market) (p : OpenPosition) (fill : Fill) (desk : Desk) (o : IsOrderly desk)
    (row : IsRow desk.positions p) where
  round_trip-Booked : Booked desk.ledger (round_trip market p fill)
  unfolding round_trip
  round_trip-Booked =
      let freed = open_total-without p.id p desk.positions o.keyed row in
      let some_cents = find-All (λ q. 1 ≤ q.amount_cents) p.id p desk.positions row o.amounts in
      book desk.ledger (round_trip market p fill) o.sound some_cents
        (omega (arith, pnl_cents-loss p fill, freed, o.covered))
        (omega (arith, freed, some_cents, o.covered))

  pub position-Settled : Settled market p fill desk
  unfolding settle_position pure round_trip
  position-Settled =
      let b = round_trip-Booked in
      let freed = open_total-without p.id p desk.positions o.keyed row in
      record {
        ledger = b.next;
        next = record desk { ledger = b.next; positions = without p.id desk.positions };
        shape = refl;
        run =
            run_bind _ _
              (on_ledger-ok (record_trade (round_trip market p fill)) desk _ b.next b.run)
              (run_bind _ _ (close_position-ok p.id p (record desk { ledger = b.next }) row) refl);
        orderly = record {
          sound = b.sound;
          keyed = Keyed-filter _ desk.positions o.keyed;
          numbered = All-filter _ _ desk.positions o.numbered;
          amounts = All-filter _ _ desk.positions o.amounts;
          pairs = All-filter _ _ desk.positions o.pairs;
          covered =
              still_covered _ _ _ _ p.amount_cents (pnl_cents p fill) b.pool freed
                (pnl_cents-loss p fill) o.covered;
        };
        pool = b.pool;
        trades = b.trades;
      }
