-- ===== src/Ledger/Trades/Recorded.antt =====
-- A trade that the pool can bear is recorded.
use attested_capital.Base.{
  ℕ, ◌≤◌, ◌<◌, ◌==◌, ◌≡◌, ◌≢◌, refl, ap, sym, ◌∙◌, leb, true, false, none, some, List, [], ◌∷◌,
  ◌++◌, All, All-map, if◌then◌else◌, arith,
}
use attested_capital.Base.Int.{ℤ, pos, pos_part, neg_part, ◌+ℤ◌, +ℤ_parts, nonneg, int_laws}
use attested_capital.Action.{ok, err, gets, modify, or_throw, require, pure}
use attested_capital.Action.Runs.{run_bind, run_then, run_transaction}
use attested_capital.Ledger.{Db, constraint, diverges, Trade, TradeInput, active_accounts, next_id}
use attested_capital.Ledger.Verify.{active_total, alloc_sum}
use attested_capital.Ledger.Guards.{guard_not_paused-passes}
use attested_capital.Ledger.Shares.{Share, sum_shares, pnl_shares}
use attested_capital.Ledger.Consistency.{IsConsistent, IsAllocated, verify_invariants-passes}
use attested_capital.Ledger.Trades.{settle, shift_pool, insert_trade, record_trade}
use attested_capital.Ledger.Trades.Applied.{Distinct, nonneg-eq, nonneg-fits}
use attested_capital.Ledger.Trades.Loop.{Handed, hand_out}
use attested_capital.Ledger.Trades.Amounts.{
  Splitting-amount, sum_parts, distribute-settle, IsNumbered, fresh_sum,
}

-- The store with a trade's row, and the one with the pool's new balance.
abbrev pub with_trade : TradeInput → Db → Db
with_trade input db = record db {
  trades = db.trades ++ record { id = next_id db.trades; input = input } ∷ [];
}

abbrev pub with_pool : ℕ → Db → Db
with_pool balance db = record db { fund = record db.fund { total_pool_balance = balance } }

pub shift_pool-eq :
    (amount : ℤ) (db : Db) (n : ℕ)
    → nonneg (pos db.total_pool_balance +ℤ amount) ≡ some n
    → shift_pool amount db ≡ (ok tt, with_pool n db)
unfolding shift_pool
shift_pool-eq amount db n h =
    ap (λ o. elim o [ none ↦ (err constraint, db) | some balance ↦ (ok tt, with_pool balance db) ])
      h

zero_first : (z : ℤ) → pos 0 +ℤ z ≡ z
zero_first z = omega int_laws

zero_last : (z : ℤ) → z +ℤ pos 0 ≡ z
zero_last z = omega int_laws

module _ (id pool : ℕ) (amount : ℤ) (db : Db) (xs : List Share) (h : Handed id pool xs db)
    (n : ℕ) where
  settle-eq :
      pnl_shares amount pool (active_accounts db.accounts) ≡ some xs
      → nonneg (pos h.left.total_pool_balance +ℤ amount) ≡ some n
      → settle id amount pool (active_accounts db.accounts) db ≡ (ok tt, with_pool n h.left)
  unfolding settle or_throw pure
  settle-eq found fits =
      run_bind _ _ (ap (λ o. or_throw o diverges db) found)
        (run_then _ _ h.run (shift_pool-eq amount h.left n fits))

  settled-IsAllocated :
      (old : List Trade)
      → sum_shares xs ≡ amount
      → All (λ x. x.trade_id < id) db.trade_allocations
      → All (λ t. t.id < id) old
      → All (IsAllocated db.trade_allocations) old
      → (input : TradeInput) → input.profit_loss ≡ amount
      → All (IsAllocated h.left.trade_allocations) (old ++ record { id = id; input = input } ∷ [])
  settled-IsAllocated [] exact fresh ids allocated input same =
      let self : (id == id) ≡ true = ground arith in
      let none_yet = fresh_sum id db.trade_allocations fresh in
      (
        h.sums id
            ∙ ap (λ b. alloc_sum id db.trade_allocations +ℤ (if b then sum_shares xs else pos 0))
                self
            ∙ ap (λ z. z +ℤ sum_shares xs) none_yet
            ∙ zero_first (sum_shares xs)
            ∙ exact
            ∙ sym same,
        tt,
      )
  settled-IsAllocated (t ∷ old) exact fresh ids allocated input same =
      let other : (id == t.id) ≡ false = ground (arith, ids.0) in
      (
        h.sums t.id
            ∙ ap (λ b. alloc_sum t.id db.trade_allocations +ℤ (if b then sum_shares xs else pos 0))
                other
            ∙ zero_last (alloc_sum t.id db.trade_allocations)
            ∙ allocated.0,
        settled-IsAllocated old exact fresh ids.1 allocated.1 input same,
      )

module _ (db : Db) (input : TradeInput) where
  -- The store before the distribution.
  abbrev pub inserted : Db
  inserted = with_trade input db

  pub insert_trade-eq :
      1 ≤ input.amount
      → insert_trade input db ≡ (ok (record { id = next_id db.trades; input = input }), inserted)
  unfolding insert_trade require gets modify pure
  insert_trade-eq valid =
      let paid : leb 1 input.amount ≡ true = ground arith in
      run_then _ _ (ap (λ b. require b constraint db) paid)
        (run_bind _ _ refl (run_then _ _ refl refl))

  pub record_trade-returns_from :
      IsConsistent db
      → IsNumbered db
      → db.is_paused ≡ false
      → 1 ≤ input.amount
      → input.profit_loss ≢ pos 0
      → 0 < db.total_pool_balance
      → (xs : List Share)
      → pnl_shares input.profit_loss db.total_pool_balance (active_accounts db.accounts) ≡ some xs
      → sum_shares xs ≡ input.profit_loss
      → (h : Handed (next_id db.trades) db.total_pool_balance xs inserted) → (n : ℕ)
      → nonneg (pos db.total_pool_balance +ℤ input.profit_loss) ≡ some n
      → IsConsistent (with_pool n h.left)
        × (record_trade input db
            ≡ (ok (record { id = next_id db.trades; input = input }), with_pool n h.left))
  unfolding record_trade pure
  record_trade-returns_from c ids running valid nonzero rich xs found exact h n fits =
      let pool : nonneg (pos h.left.total_pool_balance +ℤ input.profit_loss) ≡ some n =
        rw h.fund fits in
      let somebody : 0 < active_total db.accounts = omega (arith, c.pool) in
      let sum = nonneg-eq _ n fits in
      let consistent : IsConsistent (with_pool n h.left) = record {
        pool = omega (
          arith,
          h.money,
          sum_parts xs,
          ap pos_part exact,
          ap neg_part exact,
          ap pos_part sum,
          ap neg_part sum,
          +ℤ_parts (pos db.total_pool_balance) input.profit_loss,
          c.pool,
        );
        balanced = h.balanced c.balanced;
        allocated = rw h.trades (
            settled-IsAllocated (next_id db.trades) db.total_pool_balance input.profit_loss inserted
              xs h n db.trades exact
              (All-map _ _ (λ x le. omega arith) db.trade_allocations ids.allocation_ids)
              (All-map _ _ (λ t le. omega arith) db.trades ids.trade_ids) c.allocated input refl);
      } in
      (
        consistent,
        run_then _ _ (guard_not_paused-passes db running) (
            run_transaction _ (
              run_bind _ _ (insert_trade-eq valid) (
                run_then _ _
                  (distribute-settle (next_id db.trades) input.profit_loss inserted nonzero rich
                      somebody
                    ∙ settle-eq (next_id db.trades) db.total_pool_balance input.profit_loss inserted
                        xs h n found pool)
                  (run_then _ _ (verify_invariants-passes _ consistent) refl)))),
      )

  -- In a consistent, running ledger whose keys are keys, a trade with a positive amount and some
  -- profit or loss is recorded if there is a pool and the loss is at most the pool: the call
  -- returns the new row, and the ledger that it leaves is consistent, with the pool moved by
  -- exactly the profit or loss.
  pub record_trade-returns :
      IsConsistent db
      → Distinct db.accounts
      → IsNumbered db
      → db.is_paused ≡ false
      → 1 ≤ input.amount
      → input.profit_loss ≢ pos 0
      → 0 < db.total_pool_balance
      → neg_part input.profit_loss ≤ db.total_pool_balance
      → (t : Db) × (record_trade input db
          ≡ (ok (record { id = next_id db.trades; input = input }), t))
        × IsConsistent t
        × (pos t.total_pool_balance ≡ pos db.total_pool_balance +ℤ input.profit_loss)
  record_trade-returns c distinct ids running valid nonzero rich covered =
      let same = c.pool in
      let split =
        Splitting-amount db.accounts input.profit_loss distinct nonzero (omega (arith, same))
          (omega (arith, same)) in
      let room = nonneg-fits db.total_pool_balance input.profit_loss covered in
      let h =
        hand_out (next_id db.trades) db.total_pool_balance split.shares inserted distinct
          split.apart split.backed split.covered in
      let done =
        record_trade-returns_from c ids running valid nonzero rich split.shares
          (rw same at split.found) split.exact h room.0 room.1 in
      (_, done.1, done.0, sym (nonneg-eq _ room.0 room.1))
