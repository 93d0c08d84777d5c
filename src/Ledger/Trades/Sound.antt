-- ===== src/Ledger/Trades/Sound.antt =====
-- A ledger in order bears each trade whose loss is at most the pool, and stays in order.
use attested_capital.Base.{
  ℕ, ◌≤◌, ◌<◌, ◌≡◌, ◌≢◌, refl, ap, sym, ◌∙◌, inl, inr, false, [], ◌∷◌, ◌++◌, All, All-append,
  All-map, length, length-append, Bool-cases, arith,
}
use attested_capital.Base.Int.{ℤ, pos, neg_part, ◌+ℤ◌, eqb, eqb→eq, int_laws}
use attested_capital.Action.{ok, pure}
use attested_capital.Action.Runs.{run_bind, run_then, run_transaction}
use attested_capital.Ledger.{Db, Trade, TradeInput, next_id}
use attested_capital.Ledger.Guards.{guard_not_paused-passes}
use attested_capital.Ledger.Consistency.{IsConsistent, IsAllocated, verify_invariants-passes}
use attested_capital.Ledger.Trades.{distribute_trade_pnl, record_trade}
use attested_capital.Ledger.Trades.Applied.{Distinct, nonneg-eq, nonneg-fits}
use attested_capital.Ledger.Trades.Loop.{hand_out}
use attested_capital.Ledger.Trades.Amounts.{Splitting-amount, IsNumbered, fresh_sum}
use attested_capital.Ledger.Trades.Recorded.{
  with_trade, with_pool, inserted, insert_trade-eq, record_trade-returns_from,
}

-- Consistent, with keys that are keys, and running.
pub record IsSound (db : Db) : Type 0 where
  pub consistent : IsConsistent db
  pub keys : Distinct db.accounts
  pub numbered : IsNumbered db
  pub running : db.is_paused ≡ false

abbrev pub new_trade : Db → TradeInput → Trade
new_trade db input = record { id = next_id db.trades; input = input }

-- What a trade leaves.
pub record Booked (db : Db) (input : TradeInput) : Type 0 where
  pub next : Db
  pub run : record_trade input db ≡ (ok (new_trade db input), next)
  pub sound : IsSound next
  pub pool : pos next.total_pool_balance ≡ pos db.total_pool_balance +ℤ input.profit_loss
  pub trades : next.trades ≡ db.trades ++ new_trade db input ∷ []

last_ids :
    (db : Db) (input : TradeInput)
    → IsNumbered db
    → All
        (λ t. t.id ≤ length (db.trades ++ new_trade db input ∷ []))
        (db.trades ++ new_trade db input ∷ [])
last_ids db input n =
    let len = length-append db.trades (new_trade db input ∷ []) in
    All-append _ db.trades _ (All-map _ _ (λ t le. omega (arith, len, le)) db.trades n.trade_ids)
      (omega (arith, len), tt)

distribute-nothing :
    (id : ℕ) (amount : ℤ) (db : Db)
    → amount ≡ pos 0
    → distribute_trade_pnl id amount db ≡ (ok tt, db)
unfolding distribute_trade_pnl
distribute-nothing id amount db even = rw even refl

old_references :
    (db : Db) (input : TradeInput)
    → IsNumbered db
    → All (λ x. x.trade_id ≤ length (db.trades ++ new_trade db input ∷ [])) db.trade_allocations
old_references db input n =
    All-map _ _ (λ x le. omega (arith, length-append db.trades (new_trade db input ∷ []), le))
      db.trade_allocations n.allocation_ids

module _ (db : Db) (input : TradeInput) (s : IsSound db) (valid : 1 ≤ input.amount) where
  inserted-IsAllocated :
      (allocations : _)
      → All (IsAllocated allocations) db.trades
      → IsAllocated allocations (new_trade db input)
      → All (IsAllocated allocations) (db.trades ++ new_trade db input ∷ [])
  inserted-IsAllocated allocations old new = All-append _ db.trades _ old (new, tt)

  -- A trade without profit or loss is a row and nothing else.
  even-Booked : input.profit_loss ≡ pos 0 → Booked db input
  unfolding record_trade pure
  even-Booked even =
      let c = s.consistent in
      let next = with_trade input db in
      let consistent : IsConsistent next = record {
        pool = c.pool;
        balanced = c.balanced;
        allocated = inserted-IsAllocated db.trade_allocations c.allocated (
            fresh_sum (next_id db.trades) db.trade_allocations
              (All-map _ _ (λ x le. omega arith) db.trade_allocations s.numbered.allocation_ids)
            ∙ sym even);
      } in
      record {
        next = next;
        run = run_then _ _ (guard_not_paused-passes db s.running) (
            run_transaction _ (
              run_bind _ _ (insert_trade-eq db input valid) (
                run_then _ _ (distribute-nothing _ _ (with_trade input db) even)
                  (run_then _ _ (verify_invariants-passes _ consistent) refl))));
        sound = record {
          consistent = consistent;
          keys = s.keys;
          numbered = record {
            trade_ids = last_ids db input s.numbered;
            allocation_ids = old_references db input s.numbered;
          };
          running = s.running;
        };
        pool = rw even (omega int_laws);
        trades = refl;
      }

  moved-Booked :
      input.profit_loss ≢ pos 0
      → neg_part input.profit_loss ≤ db.total_pool_balance
      → 0 < db.total_pool_balance
      → Booked db input
  moved-Booked nonzero covered rich =
      let same = s.consistent.pool in
      let split =
        Splitting-amount db.accounts input.profit_loss s.keys nonzero (omega (arith, same))
          (omega (arith, same)) in
      let room = nonneg-fits db.total_pool_balance input.profit_loss covered in
      let h =
        hand_out (next_id db.trades) db.total_pool_balance split.shares (inserted db input) s.keys
          split.apart split.backed split.covered in
      let done =
        record_trade-returns_from db input s.consistent s.numbered s.running valid nonzero rich
          split.shares (rw same at split.found) split.exact h room.0 room.1 in
      record {
        next = with_pool room.0 h.left;
        run = done.1;
        sound = record {
          consistent = done.0;
          keys = h.keys;
          numbered = record {
            trade_ids = rw h.trades (last_ids db input s.numbered);
            allocation_ids = rw h.trades (
                h.references _ (omega (arith, length-append db.trades (new_trade db input ∷ [])))
                  (old_references db input s.numbered));
          };
          running = ap (λ f. f.is_paused) h.fund ∙ s.running;
        };
        pool = sym (nonneg-eq _ room.0 room.1);
        trades = h.trades;
      }

  -- A trade that the pool can bear is booked.
  pub book :
      neg_part input.profit_loss ≤ db.total_pool_balance
      → 0 < db.total_pool_balance
      → Booked db input
  book covered rich = elim (Bool-cases (eqb input.profit_loss (pos 0))) [
    | inl even ↦ even-Booked (eqb→eq _ _ even)
    | inr odd ↦ moved-Booked (λ even. cc (odd, ap (λ z. eqb z (pos 0)) even)) covered rich
  ]
