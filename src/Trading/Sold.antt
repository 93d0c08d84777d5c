-- ===== src/Trading/Sold.antt =====
-- panthers-fund/src/agent/trading-engine.ts: what the loop of handleSell leaves, and its failures.
use mathlib.Core.List.{append-nil, append_assoc}
use attested_capital.Base.{
  ℕ, ◌==◌, ◌≡◌, refl, ap, sym, subst, ◌∙◌, Bool, true, false, not, ◌&&◌, Option, Option-cases, none,
  some, List, [], ◌∷◌, ◌++◌, All, any, filter, map, inl, inr, arith,
}
use attested_capital.Base.Int.{ℤ, pos, ◌+ℤ◌, +ℤ_assoc, int_laws}
use attested_capital.Action.{ok, continue}
use attested_capital.Ledger.{Trade, TradeInput}
use attested_capital.Ledger.Trades.Sound.{new_trade}
use attested_capital.Trading.Desk.{OpenPosition, Desk, is_position, without}
use attested_capital.Trading.Selling.{
  Fill, Market, Totals, sell_each, settle_position, counted, round_trip, pnl_cents,
}
use attested_capital.Trading.Orderly.{Keyed, IsRow, IsOrderly, find-without, filter-without}
use attested_capital.Trading.Settled.{Settled, position-Settled}

abbrev is_filled : Option Fill → Bool
is_filled none = false
is_filled (some fill) = true

-- The key of a position whose swap succeeds.
abbrev pub is_sold : Market → List OpenPosition → ℕ → Bool
is_sold market ps id = any (λ p. (p.id == id) && is_filled (market.swap p)) ps

-- The profit or loss of a position, if it is sold, and of all.
abbrev pub gain : OpenPosition → Option Fill → ℤ
gain p none = pos 0
gain p (some fill) = pnl_cents p fill

abbrev pub proceeds : Market → List OpenPosition → ℤ
proceeds market [] = pos 0
proceeds market (p ∷ rest) = gain p (market.swap p) +ℤ proceeds market rest

abbrev trade_if : Market → OpenPosition → Option Fill → List TradeInput → List TradeInput
trade_if market p none later = later
trade_if market p (some fill) later = round_trip market p fill ∷ later

abbrev pub sold_trades : Market → List OpenPosition → List TradeInput
sold_trades market [] = []
sold_trades market (p ∷ rest) = trade_if market p (market.swap p) (sold_trades market rest)

abbrev pub trade_inputs : List Trade → List TradeInput
trade_inputs = map (λ t. t.input)

abbrev pub pool_of : Desk → ℤ
pool_of desk = pos desk.ledger.total_pool_balance

abbrev pub kept : Market → List OpenPosition → List OpenPosition → List OpenPosition
kept market ps = filter (λ q. not (is_sold market ps q.id))

-- What the loop leaves.
pub record Sold (market : Market) (ps : List OpenPosition) (t : Totals) (desk : Desk) : Type 0 where
  pub left : Desk
  pub totals : Totals
  pub run : sell_each market ps t desk ≡ (ok totals, left)
  pub orderly : IsOrderly left
  pub pool : pool_of left ≡ pool_of desk +ℤ proceeds market ps
  pub pnl : totals.total_pnl ≡ t.total_pnl +ℤ proceeds market ps
  pub positions : left.positions ≡ kept market ps desk.positions
  pub trades :
      trade_inputs left.ledger.trades ≡ trade_inputs desk.ledger.trades ++ sold_trades market ps

filter-all :
    (f : OpenPosition → Bool) (rows : List OpenPosition)
    → ((q : OpenPosition) → f q ≡ true)
    → filter f rows ≡ rows
filter-all f [] h = refl
filter-all f (p ∷ rows) h = ground (arith, h p, filter-all f rows h)

filter-ext :
    (f g : OpenPosition → Bool) (rows : List OpenPosition)
    → ((q : OpenPosition) → f q ≡ g q)
    → filter f rows ≡ filter g rows
filter-ext f g [] h = refl
filter-ext f g (p ∷ rows) h = rw (h p, filter-ext f g rows h) refl

map-append : (xs ys : List Trade) → trade_inputs (xs ++ ys) ≡ trade_inputs xs ++ trade_inputs ys
map-append [] ys = refl
map-append (x ∷ xs) ys = ap (◌∷◌ x.input) (map-append xs ys)

module _ (market : Market) (p : OpenPosition) (rest : List OpenPosition) where
  kept-failed :
      (rows : List OpenPosition)
      → market.swap p ≡ none
      → kept market (p ∷ rest) rows ≡ kept market rest rows
  kept-failed rows h =
      filter-ext _ _ rows
        λ q. let failed : is_filled (market.swap p) ≡ false = ap is_filled h in ground arith

  kept-sold :
      (rows : List OpenPosition) (fill : Fill)
      → market.swap p ≡ some fill
      → kept market rest (without p.id rows) ≡ kept market (p ∷ rest) rows
  kept-sold rows fill h =
      filter-without p.id _ rows
      ∙ filter-ext _ _ rows
          λ q. let filled : is_filled (market.swap p) ≡ true = ap is_filled h in ground arith

rows_later :
    (k : ℕ) (rest rows : List OpenPosition)
    → any (is_position k) rest ≡ false
    → All (IsRow rows) rest
    → All (IsRow (without k rows)) rest
rows_later k [] rows h r = tt
rows_later k (q ∷ rest) rows h r =
    let other : (q.id == k) ≡ false = ground arith in
    let later : any (is_position k) rest ≡ false = ground arith in
    (find-without k q rows other r.0, rows_later k rest rows later r.1)

next_row : (z a b c : ℤ) → c ≡ z +ℤ a → c +ℤ b ≡ z +ℤ (a +ℤ b)
next_row z a b c h = ap (λ x. x +ℤ b) h ∙ +ℤ_assoc z a b

no_row : (z b : ℤ) → z +ℤ b ≡ z +ℤ (pos 0 +ℤ b)
no_row z b = omega int_laws

module _ (market : Market) where
  pub by_swap :
      (p : OpenPosition) (rest : List OpenPosition) (t : Totals) (desk : Desk) (o : Option Fill)
      → market.swap p ≡ o
      → sell_each market (p ∷ rest) t desk ≡ (elim o [
        | none ↦ sell_each market rest t desk
        | some fill ↦
            continue
              (settle_position market p fill desk)
              (λ trade. sell_each market rest (counted p fill trade t))
      ])
  unfolding sell_each
  by_swap p rest t desk o h =
      ap
        (λ x. elim x [
          | none ↦ sell_each market rest t desk
          | some fill ↦
              continue (settle_position market p fill desk)
                (λ trade. sell_each market rest (counted p fill trade t))
        ])
        h

  after_failed-Sold :
      (p : OpenPosition) (rest : List OpenPosition) (t : Totals) (desk : Desk)
      → market.swap p ≡ none
      → Sold market rest t desk
      → Sold market (p ∷ rest) t desk
  after_failed-Sold p rest t desk none_left s = record {
    left = s.left;
    totals = s.totals;
    run = by_swap p rest t desk none none_left ∙ s.run;
    orderly = s.orderly;
    pool = rw none_left (s.pool ∙ no_row _ _);
    pnl = rw none_left (s.pnl ∙ no_row _ _);
    positions = s.positions ∙ sym (kept-failed market p rest desk.positions none_left);
    trades = rw none_left s.trades;
  }

  after-Sold :
      (p : OpenPosition) (rest : List OpenPosition) (t : Totals) (desk : Desk) (fill : Fill)
      → market.swap p ≡ some fill
      → (one : Settled market p fill desk)
      → Sold market rest
          (counted p fill (new_trade desk.ledger (round_trip market p fill)) t)
          one.next
      → Sold market (p ∷ rest) t desk
  after-Sold p rest t desk fill filled one s = record {
    left = s.left;
    totals = s.totals;
    run =
        by_swap p rest t desk (some fill) filled
        ∙ ap (λ r. continue r (λ trade. sell_each market rest (counted p fill trade t))) one.run
        ∙ s.run;
    orderly = s.orderly;
    pool = rw filled (s.pool ∙ next_row _ _ _ _ one.pool);
    pnl = rw filled (s.pnl ∙ next_row _ _ _ _ refl);
    positions =
        s.positions
        ∙ ap (λ d. kept market rest d.positions) one.shape
        ∙ kept-sold market p rest desk.positions fill filled;
    trades = rw filled (
        s.trades
        ∙ ap (λ x. trade_inputs x ++ sold_trades market rest) one.trades
        ∙ ap (λ x. x ++ sold_trades market rest) (map-append desk.ledger.trades _)
        ∙ append_assoc (trade_inputs desk.ledger.trades) _ (sold_trades market rest));
  }

  pub sell :
      (ps : List OpenPosition) (t : Totals) (desk : Desk)
      → IsOrderly desk
      → All (IsRow desk.positions) ps
      → Keyed ps
      → Sold market ps t desk
  unfolding sell_each
  sell [] t desk o rows keyed = record {
    left = desk;
    totals = t;
    run = refl;
    orderly = o;
    pool = omega int_laws;
    pnl = omega int_laws;
    positions = sym (filter-all _ desk.positions (λ q. refl));
    trades = sym (append-nil _);
  }
  sell (p ∷ rest) t desk o rows keyed = elim (Option-cases (market.swap p)) [
    | inl failed ↦ after_failed-Sold p rest t desk failed (sell rest t desk o rows.1 keyed.1)
    | inr (fill, filled) ↦
        let one = position-Settled market p fill desk o rows.0 in
        after-Sold p rest t desk fill filled one (
          sell rest _ one.next one.orderly
            (subst (λ d. All (IsRow d.positions) rest) (sym one.shape)
              (rows_later p.id rest desk.positions keyed.0 rows.1))
            keyed.1)
  ]
