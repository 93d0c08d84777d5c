-- ===== src/Ledger/Trades/Amounts.antt =====
-- The split of an amount that the pool can bear, and the next key of a trade.
use attested_capital.Base.{
  subst, ℕ, zero, suc, ◌+◌, ◌≤◌, ◌<◌, ◌==◌, ◌≡◌, ◌≢◌, refl, sym, ◌∙◌, Bool, Bool-cases, inl, inr,
  true, false, some, List, [], ◌∷◌, All, length, total, arith,
}
use attested_capital.Base.Int.{ℤ, pos, negsuc, pos_part, neg_part, +ℤ_parts, eqb, eqb→eq, int_laws}
use attested_capital.Ledger.{Db, NftAccount, TradeAllocation, active_accounts}
use attested_capital.Ledger.Verify.{active_total, alloc_sum}
use attested_capital.Ledger.Shares.{Share, signed, sum_shares, pnl_shares}
use attested_capital.Ledger.Shares.Exact.{balances, gap, pnl_shares-eq}
use attested_capital.Ledger.Shares.Sums.{pnl_shares_exact}
use attested_capital.Ledger.Shares.Losses.{IsCovered}
use attested_capital.Ledger.Shares.Bounds.{pnl_shares-IsCovered}
use attested_capital.Ledger.Trades.{settle, distribute_trade_pnl}
use attested_capital.Ledger.Trades.Applied.{Distinct}
use attested_capital.Ledger.Trades.Loop.{Backed, Apart}
use attested_capital.Ledger.Trades.Split.{split-Backed, split-Apart}

-- A split of an amount that is not 0 over accounts with some balance, and what the loop needs of it.
pub record Splitting (rows : List NftAccount) (amount : ℤ) : Type 0 where
  pub shares : List Share
  pub found : pnl_shares amount (active_total rows) (active_accounts rows) ≡ some shares
  pub exact : sum_shares shares ≡ amount
  pub covered : All IsCovered shares
  pub backed : All (Backed rows) shares
  pub apart : Apart shares

some-eq : (x y : List Share) → some x ≡ some y → x ≡ y
some-eq x y h = cc

module _ (rows : List NftAccount) (distinct : Distinct rows) (amount : ℤ) (s : Bool) (n : ℕ)
    (is_signed : signed s n ≡ amount) (some_amount : 0 < n) (nonzero : amount ≢ pos 0)
    (rich : 0 < active_total rows) (fits : neg_part amount ≤ active_total rows) where
  signed-Splitting : Splitting rows amount
  signed-Splitting =
      let l = active_accounts rows in
      let closed = pnl_shares-eq s n l some_amount rich in
      let exact = pnl_shares_exact amount l nonzero rich in
      let covered = pnl_shares-IsCovered amount l nonzero rich fits in
      let at = rw is_signed at closed in
      let same = some-eq _ _ (sym exact.1 ∙ at) in
      record {
        shares = exact.0;
        found = exact.1;
        exact = exact.2;
        covered = rw (some-eq _ _ (sym exact.1 ∙ covered.1)) covered.2;
        backed =
            subst (All (Backed rows)) (sym same)
              (split-Backed rows distinct (gap n l) (signed s 1) amount (balances l));
        apart =
            subst Apart (sym same)
              (split-Apart rows distinct (gap n l) (signed s 1) amount (balances l));
      }

pub Splitting-amount :
    (rows : List NftAccount) (amount : ℤ)
    → Distinct rows
    → amount ≢ pos 0
    → 0 < active_total rows
    → neg_part amount ≤ active_total rows
    → Splitting rows amount
Splitting-amount rows (pos zero) d nonzero rich fits = absurd (nonzero refl)
Splitting-amount rows (pos (suc n)) d nonzero rich fits =
    signed-Splitting rows d (pos (suc n)) true (suc n) refl (omega arith) nonzero rich fits
Splitting-amount rows (negsuc n) d nonzero rich fits =
    signed-Splitting rows d (negsuc n) false (suc n) refl (omega arith) nonzero rich fits

pub sum_parts :
    (xs : List Share)
    → pos_part (sum_shares xs) + total (λ s. neg_part s.share) xs
      ≡ neg_part (sum_shares xs) + total (λ s. pos_part s.share) xs
unfolding sum_shares
sum_parts [] = refl
sum_parts (s ∷ xs) = omega (arith, sum_parts xs, +ℤ_parts s.share (sum_shares xs))

-- There is somebody to share with.
pub some_active :
    (rows : List NftAccount)
    → 0 < balances rows
    → (a : NftAccount) × (rest : List NftAccount) × (rows ≡ a ∷ rest)
some_active [] h = absurd (omega arith)
some_active (a ∷ rest) h = (a, rest, refl)

pub distribute-settle :
    (id : ℕ) (amount : ℤ) (db : Db)
    → amount ≢ pos 0
    → 0 < db.total_pool_balance
    → 0 < active_total db.accounts
    → distribute_trade_pnl id amount db
      ≡ settle id amount db.total_pool_balance (active_accounts db.accounts) db
unfolding distribute_trade_pnl
distribute-settle id amount db nonzero rich somebody =
    let other : eqb amount (pos 0) ≡ false = elim (Bool-cases (eqb amount (pos 0))) [
      | inl same ↦ absurd (nonzero (eqb→eq amount (pos 0) same))
      | inr other ↦ other
    ] in
    let pool : (db.total_pool_balance == 0) ≡ false = ground arith in
    let row = some_active (active_accounts db.accounts) somebody in rw (other, row.2, pool) refl

-- Which trade an allocation or a row belongs to is known, so that the next key is fresh.
pub record IsNumbered (db : Db) : Type 0 where
  pub trade_ids : All (λ t. t.id ≤ length db.trades) db.trades
  pub allocation_ids : All (λ x. x.trade_id ≤ length db.trades) db.trade_allocations

pub fresh_sum :
    (id : ℕ) (allocations : List TradeAllocation)
    → All (λ x. x.trade_id < id) allocations
    → alloc_sum id allocations ≡ pos 0
unfolding alloc_sum
fresh_sum id [] h = refl
fresh_sum id (x ∷ rest) h =
    let other : (x.trade_id == id) ≡ false = ground (arith, h.0) in
    rw (other, fresh_sum id rest h.1) (omega int_laws)
