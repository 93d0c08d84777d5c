-- ===== src/Ledger/Shares/Sums.antt =====
-- What sorting and the remainder loop do to the sum of a split.
use attested_capital.Base.{
  ℕ, zero, suc, ◌≤◌, ◌<◌, ◌≡◌, ◌≢◌, refl, ap, sym, ◌∙◌, Bool, Bool-cases, inl, inr, true, false,
  some, List, [], ◌∷◌, length, arith,
}
use attested_capital.Base.Int.{ℤ, pos, negsuc, ◌+ℤ◌, int_laws}
use attested_capital.Ledger.{NftAccount}
use attested_capital.Ledger.Shares.{
  Share, signed, truncated, sum_shares, sorts_before, insert_share, sort_shares, pnl_shares,
  fee_shares,
}
use attested_capital.Ledger.Shares.Loop.{one_more, bump_first}
use attested_capital.Ledger.Shares.Exact.{
  balances, gap, quotas, quotas-le, sum_shares-truncated, signed_add, pnl_shares-eq, fee_shares-eq,
  gap-le-length,
}

-- Sorting and one cent for each of the first shares, in the sum.
swap_first : (a b c : ℤ) → b +ℤ (a +ℤ c) ≡ a +ℤ (b +ℤ c)
swap_first a b c = omega int_laws

sum-insert_share :
    (s : Share) (xs : List Share) → sum_shares (insert_share s xs) ≡ s.share +ℤ sum_shares xs
unfolding sum_shares insert_share
sum-insert_share s [] = refl
sum-insert_share s (x ∷ xs) = elim (Bool-cases (sorts_before s x)) [
  | inl first ↦ rw first
  | inr later ↦ rw (later, sum-insert_share s xs) (swap_first s.share x.share (sum_shares xs))
]

sum-sort_shares : (xs : List Share) → sum_shares (sort_shares xs) ≡ sum_shares xs
unfolding sum_shares sort_shares
sum-sort_shares [] = refl
sum-sort_shares (x ∷ xs) =
    sum-insert_share x (sort_shares xs) ∙ ap (λ n. x.share +ℤ n) (sum-sort_shares xs)

zero_add : (s : Bool) (x : ℤ) → signed s 0 +ℤ x ≡ x
zero_add true x = omega int_laws
zero_add false x = omega int_laws

carry : (a d b c : ℤ) → a +ℤ d +ℤ (b +ℤ c) ≡ d +ℤ b +ℤ (a +ℤ c)
carry a d b c = omega int_laws

sum-bump_first :
    (s : Bool) (k : ℕ) (xs : List Share)
    → k ≤ length xs
    → sum_shares (bump_first k (signed s 1) xs) ≡ signed s k +ℤ sum_shares xs
unfolding sum_shares bump_first one_more
sum-bump_first s zero xs h = sym (zero_add s (sum_shares xs))
sum-bump_first s (suc k) [] h = absurd (omega arith)
sum-bump_first s (suc k) (x ∷ xs) h =
    ap (λ n. x.share +ℤ signed s 1 +ℤ n) (sum-bump_first s k xs (omega arith))
    ∙ carry x.share (signed s 1) (signed s k) (sum_shares xs)
    ∙ ap (λ n. n +ℤ (x.share +ℤ sum_shares xs)) (signed_add s 1 k ∙ ap (signed s) (omega arith))

module _ (s : Bool) (n : ℕ) (l : List NftAccount) (rich : 0 < balances l) where
  -- The closed form of a split has the amount for its sum.
  pub sum-split :
      sum_shares
        (bump_first (gap n l) (signed s 1) (sort_shares (truncated (signed s n) (balances l) l)))
      ≡ signed s n
  sum-split =
      sum-bump_first s (gap n l) _ (gap-le-length s n l rich)
      ∙ rw sum-sort_shares (
          rw (sum_shares-truncated s n (balances l) l rich) (
            signed_add s (gap n l) (quotas n (balances l) l)
            ∙ ap (signed s) (omega (arith, quotas-le n l rich))))

-- A profit or loss is split into shares whose sum is the amount, and the loop ends.
pub pnl_shares_exact :
    (amount : ℤ) (l : List NftAccount)
    → amount ≢ pos 0
    → 0 < balances l
    → (shares : List Share) × (pnl_shares amount (balances l) l ≡ some shares)
      × (sum_shares shares ≡ amount)
pnl_shares_exact (pos zero) l h rich = absurd (h refl)
pnl_shares_exact (pos (suc n)) l h rich =
    (_, pnl_shares-eq true (suc n) l (omega arith) rich, sum-split true (suc n) l rich)
pnl_shares_exact (negsuc n) l h rich =
    (_, pnl_shares-eq false (suc n) l (omega arith) rich, sum-split false (suc n) l rich)

-- So is a withdrawal fee.
pub fee_shares_exact :
    (fee : ℕ) (l : List NftAccount)
    → 0 < balances l
    → (shares : List Share) × (fee_shares fee (balances l) l ≡ some shares)
      × (sum_shares shares ≡ pos fee)
fee_shares_exact fee l rich = (_, fee_shares-eq fee l rich, sum-split true fee l rich)
