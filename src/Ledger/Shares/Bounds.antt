-- ===== src/Ledger/Shares/Bounds.antt =====
-- No split takes an account below zero.

use attested_capital.Base.{
  ℕ, zero, suc, ◌≤◌, ◌<◌, ◌≡◌, ◌≢◌, refl, true, false, some, List, [], ◌∷◌, All, arith,
}
use attested_capital.Base.Int.{ℤ, pos, negsuc, neg_part, ◌+ℤ◌}
use attested_capital.Ledger.{NftAccount}
use attested_capital.Ledger.Shares.{Share, trunc_share, truncated, sort_shares, pnl_shares}
use attested_capital.Ledger.Shares.Loop.{one_more, bump_first}
use attested_capital.Ledger.Shares.Exact.{balances, gap, pnl_shares-eq}
use attested_capital.Ledger.Shares.Losses.{IsCovered, All-sort_shares, split-IsCovered}

-- A profit takes from nobody.
abbrev pub IsGain : Share → Type 0
IsGain s = neg_part s.share ≡ 0

truncated-IsGain : (n pool : ℕ) (l : List NftAccount) → All IsGain (truncated (pos n) pool l)
unfolding truncated trunc_share
truncated-IsGain n pool [] = tt
truncated-IsGain n pool (a ∷ l) = (refl, truncated-IsGain n pool l)

one_more_gain : (x : ℤ) → neg_part x ≡ 0 → neg_part (x +ℤ pos 1) ≡ 0
unfolding ◌+ℤ◌
one_more_gain x h = ground arith

bump_first-IsGain : (k : ℕ) (xs : List Share) → All IsGain xs → All IsGain (bump_first k (pos 1) xs)
unfolding bump_first one_more
bump_first-IsGain zero xs h = h
bump_first-IsGain (suc k) [] h = tt
bump_first-IsGain (suc k) (x ∷ xs) h = (one_more_gain x.share h.0, bump_first-IsGain k xs h.1)

pub gain-IsCovered : (xs : List Share) → All IsGain xs → All IsCovered xs
gain-IsCovered [] h = tt
gain-IsCovered (x ∷ xs) h = (omega arith, gain-IsCovered xs h.1)

pub split-IsGain :
    (n : ℕ) (l : List NftAccount)
    → All IsGain (bump_first (gap n l) (pos 1) (sort_shares (truncated (pos n) (balances l) l)))
split-IsGain n l =
    bump_first-IsGain (gap n l) _ (All-sort_shares IsGain _ (truncated-IsGain n (balances l) l))

-- If a loss is at most the pool, no share of it exceeds the balance that it is taken from.
pub pnl_shares-IsCovered :
    (amount : ℤ) (l : List NftAccount)
    → amount ≢ pos 0
    → 0 < balances l
    → neg_part amount ≤ balances l
    → (shares : List Share) × (pnl_shares amount (balances l) l ≡ some shares)
      × All IsCovered shares
pnl_shares-IsCovered (pos zero) l h rich fits = absurd (h refl)
pnl_shares-IsCovered (pos (suc n)) l h rich fits =
    (_, pnl_shares-eq true (suc n) l (omega arith) rich, gain-IsCovered _ (split-IsGain (suc n) l))
pnl_shares-IsCovered (negsuc n) l h rich fits =
    (_, pnl_shares-eq false (suc n) l (omega arith) rich, split-IsCovered (suc n) l rich fits)
