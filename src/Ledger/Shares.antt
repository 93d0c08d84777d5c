-- ===== src/Ledger/Shares.antt =====
-- panthers-fund/src/database/ledger.ts: the proportional split of a profit, a loss or a fee, as
-- `distributeTradePnL` and `distributeWithdrawalFee` compute it. A division of doubles truncated by
-- `Math.trunc` is the quotient of the integers as long as balance * amount stays below 2^53.
pub mod Loop
pub mod Exact
pub mod Sums
pub mod Losses
pub mod Bounds
use attested_capital.Base.{
  ℕ, zero, suc, ◌+◌, ◌*◌, ◌/◌, ◌%◌, ◌==◌, ltb, leb, Bool, true, false, not, ◌&&◌, ◌||◌, Option,
  none, some, List, [], ◌∷◌, length, if◌then◌else◌,
}
use attested_capital.Base.Int.{ℤ, pos, negsuc, pos_part, neg_part, ◌+ℤ◌, ◌-ℤ◌, eqb}
use attested_capital.Ledger.{NftAccount}

pub record Share : Type 0 where
  pub token_id : ℕ
  pub share : ℤ
  pub balance : ℕ

-- `n` with the sign of a profit (`true`) or of a loss; -0 is 0.
abbrev pub signed : Bool → ℕ → ℤ
signed true n = pos n
signed false zero = pos 0
signed false (suc n) = negsuc n

-- `Math.trunc((balance * amount) / totalPool)`; the callers have tested that the pool is not 0.
unfoldable pub trunc_share : ℕ → ℤ → ℕ → ℤ
trunc_share balance (pos n) pool = pos (balance * n / pool)
trunc_share balance (negsuc n) pool = signed false (balance * suc n / pool)

unfoldable pub truncated : ℤ → ℕ → List NftAccount → List Share
unfolding trunc_share
truncated amount pool [] = []
truncated amount pool (a ∷ rest) =
    record {
      token_id = a.token_id;
      share = trunc_share a.current_balance amount pool;
      balance = a.current_balance;
    }
    ∷ truncated amount pool rest

unfoldable pub sum_shares : List Share → ℤ
sum_shares [] = pos 0
sum_shares (s ∷ rest) = s.share +ℤ sum_shares rest

-- `b.balance - a.balance || a.tokenId - b.tokenId` is at most 0.
unfoldable pub sorts_before : Share → Share → Bool
sorts_before a b = ltb b.balance a.balance || (a.balance == b.balance && leb a.token_id b.token_id)

unfoldable pub insert_share : Share → List Share → List Share
unfolding sorts_before
insert_share s [] = s ∷ []
insert_share s (t ∷ rest) = if sorts_before s t then s ∷ t ∷ rest else t ∷ insert_share s rest

-- `shares.sort(…)`
unfoldable pub sort_shares : List Share → List Share
unfolding insert_share
sort_shares [] = []
sort_shares (s ∷ rest) = insert_share s (sort_shares rest)

-- `shares[i].share += direction`
unfoldable pub bump : ℕ → ℤ → List Share → List Share
bump i direction [] = []
bump zero direction (s ∷ rest) = record s { share = s.share +ℤ direction } ∷ rest
bump (suc i) direction (s ∷ rest) = s ∷ bump i direction rest

-- `while (test(remainder)) { shares[i % shares.length].share += direction; … }` with fuel; `none`
-- means that the fuel ran out.
unfoldable pub correct : ℕ → (ℤ → Bool) → ℤ → ℕ → ℤ → List Share → Option (List Share)
unfolding bump
correct zero test remainder i direction shares = none
correct (suc fuel) test remainder i direction shares =
    let rest =
      correct fuel test (remainder -ℤ direction) (i + 1) direction
        (bump (i % length shares) direction shares) in
    if test remainder then rest else some shares

abbrev pub nonzero : ℤ → Bool
nonzero n = not (eqb n (pos 0))

abbrev pub above_zero : ℤ → Bool
above_zero n = ltb 0 (pos_part n)

-- `profitLossCents > 0 ? 1 : -1`
unfoldable pub direction_of : ℤ → ℤ
direction_of n = if above_zero n then pos 1 else negsuc 0

-- A remainder of the amount's sign is worked off in as many rounds as it has cents.
abbrev pub rounds : ℤ → ℕ
rounds n = suc (pos_part n + neg_part n)

-- Steps 1 and 2 of `distributeTradePnL`.
unfoldable pub pnl_shares : ℤ → ℕ → List NftAccount → Option (List Share)
pnl_shares amount pool accounts =
    let shares = truncated amount pool accounts in
    let remainder = amount -ℤ sum_shares shares in
    correct (rounds remainder) nonzero remainder 0 (direction_of amount) (sort_shares shares)

-- The same part of `distributeWithdrawalFee`, with its own loop condition.
unfoldable pub fee_shares : ℕ → ℕ → List NftAccount → Option (List Share)
fee_shares fee pool accounts =
    let shares = truncated (pos fee) pool accounts in
    let remainder = pos fee -ℤ sum_shares shares in
    correct (rounds remainder) above_zero remainder 0 (pos 1) (sort_shares shares)
