-- ===== src/Ledger/Withdrawals/FeePaid.antt =====
-- panthers-fund/src/database/ledger.ts: `distributeWithdrawalFee` pays the fee, all of it, or nothing.
use attested_capital.Base.{
  ℕ, zero, suc, ◌+◌, ◌<◌, ◌==◌, ◌≡◌, refl, ap, sym, ◌∙◌, Bool-cases, ◌⊎◌, ==→eq, inl, inr, true,
  false, some, List, [], ◌∷◌, All, find, total, if◌then◌else◌, arith,
}
use attested_capital.Base.Int.{pos, pos_part, neg_part, ◌+ℤ◌}
use attested_capital.Action.{ok, or_throw}
use attested_capital.Action.Runs.{run_bind, run_then}
use attested_capital.Ledger.{Db, NftAccount, diverges, active_accounts}
use attested_capital.Ledger.Verify.{active_total, get_nft_account}
use attested_capital.Ledger.Consistency.{IsConsistent}
use attested_capital.Ledger.Shares.{Share, truncated, sort_shares, fee_shares}
use attested_capital.Ledger.Shares.Loop.{bump_first}
use attested_capital.Ledger.Shares.Exact.{gap, fee_shares-eq}
use attested_capital.Ledger.Shares.Sums.{sum-split}
use attested_capital.Ledger.Shares.Bounds.{IsGain, split-IsGain}
use attested_capital.Ledger.Trades.{shift_pool}
use attested_capital.Ledger.Trades.Applied.{Distinct}
use attested_capital.Ledger.Trades.Loop.{Backed, has_share}
use attested_capital.Ledger.Trades.Amounts.{sum_parts, some_active}
use attested_capital.Ledger.Trades.Split.{split-Backed, split-Apart}
use attested_capital.Ledger.Trades.Recorded.{with_pool, shift_pool-eq}
use attested_capital.Ledger.Withdrawals.PaidOut.{PaidOut, pay_out}
use attested_capital.Ledger.Withdrawals.{settle_fee, distribute_withdrawal_fee}

-- A fee is split over the active accounts, and the pool grows by it.
pub record FeePaid (fee : ℕ) (db : Db) : Type 0 where
  pub left : Db
  pub run : distribute_withdrawal_fee fee db ≡ (ok tt, left)
  pub pool :
      left.total_pool_balance
      ≡ (if db.total_pool_balance == 0 then 0 else db.total_pool_balance + fee)
  pub consistent : IsConsistent left
  pub inactive :
      (k : ℕ) (a : NftAccount)
      → get_nft_account k db ≡ some a
      → a.is_active ≡ false
      → get_nft_account k left ≡ some a

-- No share goes to an inactive account.
unshared :
    (k : ℕ) (rows : List NftAccount) (a : NftAccount) (xs : List Share)
    → find (λ x. x.token_id == k) rows ≡ some a
    → a.is_active ≡ false
    → All (Backed rows) xs
    → has_share k xs ≡ false
unshared k rows a [] found off backed = refl
unshared k rows a (s ∷ xs) found off backed = elim (Bool-cases (s.token_id == k)) [
  | inr other ↦ rw other (unshared k rows a xs found off backed.1)
  | inl own ↦
      let b = backed.0.0 in
      let same : some b ≡ some a =
        sym backed.0.1
        ∙ ap (λ j. find (λ x. x.token_id == j) rows) (==→eq s.token_id k own)
        ∙ found in
      cc
]

gain_total : (xs : List Share) → All IsGain xs → total (λ s. neg_part s.share) xs ≡ 0
gain_total [] h = refl
gain_total (s ∷ xs) h = omega (arith, h.0, gain_total xs h.1)

shift_pool-gain :
    (fee : ℕ) (db : Db)
    → shift_pool (pos fee) db ≡ (ok tt, with_pool (db.total_pool_balance + fee) db)
unfolding ◌+ℤ◌
shift_pool-gain fee db = shift_pool-eq (pos fee) db (db.total_pool_balance + fee) (ground arith)

distribute-settle_fee :
    (fee : ℕ) (db : Db)
    → 0 < db.total_pool_balance
    → 0 < active_total db.accounts
    → distribute_withdrawal_fee (suc fee) db
      ≡ settle_fee (suc fee) db.total_pool_balance (active_accounts db.accounts) db
unfolding distribute_withdrawal_fee
distribute-settle_fee fee db rich somebody =
    let pool : (db.total_pool_balance == 0) ≡ false = ground arith in
    let row = some_active (active_accounts db.accounts) somebody in
    let some_fee : (suc fee == 0) ≡ false = ground arith in rw (some_fee, row.2, pool) refl

module _ (fee : ℕ) (db : Db) (c : IsConsistent db) (distinct : Distinct db.accounts)
    (rich : 0 < db.total_pool_balance) where
  abbrev fees : List Share
  fees =
      let l = active_accounts db.accounts in
      bump_first (gap (suc fee) l) (pos 1)
        (sort_shares (truncated (pos (suc fee)) (active_total db.accounts) l))

  somebody : 0 < active_total db.accounts
  somebody = omega (arith, c.pool, rich)

  backed : All (Backed db.accounts) fees
  backed = split-Backed db.accounts distinct _ (pos 1) (pos (suc fee)) (active_total db.accounts)

  gain : All IsGain fees
  gain = split-IsGain (suc fee) (active_accounts db.accounts)

  all_fee : total (λ s. pos_part s.share) fees ≡ suc fee
  all_fee =
      let exact = sum-split true (suc fee) (active_accounts db.accounts) somebody in
      omega (arith, sum_parts fees, gain_total fees gain, ap pos_part exact, ap neg_part exact)

  found_fees : fee_shares (suc fee) db.total_pool_balance (active_accounts db.accounts) ≡ some fees
  found_fees =
      ap (λ pool. fee_shares (suc fee) pool (active_accounts db.accounts)) (sym c.pool)
      ∙ fee_shares-eq (suc fee) (active_accounts db.accounts) somebody

  paid : PaidOut fees db
  paid =
      pay_out fees db distinct
        (split-Apart db.accounts distinct _ (pos 1) (pos (suc fee)) (active_total db.accounts))
        backed gain

  split_fee : FeePaid (suc fee) db
  unfolding settle_fee or_throw get_nft_account
  split_fee =
      let same : paid.left.total_pool_balance ≡ db.total_pool_balance =
        ap (λ f. f.total_pool_balance) paid.fund in
      let pool : (db.total_pool_balance == 0) ≡ false = ground arith in
      record {
        left = with_pool (paid.left.total_pool_balance + suc fee) paid.left;
        run =
            distribute-settle_fee fee db rich somebody
            ∙ run_bind _ _ (ap (λ o. or_throw o diverges db) found_fees)
                (run_then _ _ paid.run (shift_pool-gain (suc fee) paid.left));
        pool = rw (pool, same) refl;
        consistent = record {
          pool = omega (arith, paid.money, all_fee, same, c.pool);
          balanced = paid.balanced c.balanced;
          allocated = rw (paid.trades, paid.allocations) c.allocated;
        };
        inactive =
            λ k a found off. paid.others k (unshared k db.accounts a fees found off backed) ∙ found;
      }

-- A fee of 0, and a pool in which nothing is left to hold it.
nothing_paid :
    (fee : ℕ) (db : Db)
    → IsConsistent db
    → distribute_withdrawal_fee fee db ≡ (ok tt, db)
    → db.total_pool_balance
      ≡ (if db.total_pool_balance == 0 then 0 else db.total_pool_balance + fee)
    → FeePaid fee db
nothing_paid fee db c same pool = record {
  left = db;
  run = same;
  pool = pool;
  consistent = c;
  inactive = λ k a found off. found;
}

distribute-zero : (db : Db) → distribute_withdrawal_fee 0 db ≡ (ok tt, db)
unfolding distribute_withdrawal_fee
distribute-zero db = refl

rows-cases :
    (l : List NftAccount)
    → (l ≡ []) ⊎ ((a : NftAccount) × (rest : List NftAccount) × (l ≡ a ∷ rest))
rows-cases [] = inl refl
rows-cases (a ∷ rest) = inr (a, rest, refl)

distribute-poor :
    (fee : ℕ) (db : Db)
    → (db.total_pool_balance == 0) ≡ true
    → distribute_withdrawal_fee (suc fee) db ≡ (ok tt, db)
unfolding distribute_withdrawal_fee
distribute-poor fee db empty =
    let some_fee : (suc fee == 0) ≡ false = ground arith in
    elim (rows-cases (active_accounts db.accounts)) [
      | inl nobody ↦ rw (some_fee, nobody) refl
      | inr (a, rest, row) ↦ rw (some_fee, row, empty) refl
    ]

pub pay_fee : (fee : ℕ) (db : Db) → IsConsistent db → Distinct db.accounts → FeePaid fee db
pay_fee zero db c d = nothing_paid 0 db c (distribute-zero db) (ground arith)
pay_fee (suc fee) db c d = elim (Bool-cases (db.total_pool_balance == 0)) [
  | inl empty ↦ nothing_paid (suc fee) db c (distribute-poor fee db empty) (ground arith)
  | inr rich ↦ split_fee fee db c d (ground arith)
]
