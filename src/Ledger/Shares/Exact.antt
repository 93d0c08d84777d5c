-- ===== src/Ledger/Shares/Exact.antt =====
-- The cents of a split add up: the quotas, the remainder that they leave, and what the loop adds.
use mathlib.Core.Path.{ap₂}
use native.Mathlib.Decide.{dec_le}
use native.Mathlib.Nat.{mul-le-mul_left}
use attested_capital.Base.{
  ℕ, zero, suc, ◌+◌, ◌-◌, ◌*◌, ◌/◌, ◌≤◌, ◌<◌, ◌≡◌, refl, ap, ◌∙◌, Bool, true, false, some, List, [],
  ◌∷◌, length, total, min, arith,
}
use attested_capital.Base.Int.{ℤ, pos, ◌+ℤ◌, ◌-ℤ◌, int_laws, pos_part, neg_part}
use attested_capital.Ledger.{NftAccount}
use attested_capital.Ledger.Shares.{
  Share, signed, trunc_share, truncated, sum_shares, insert_share, sort_shares, correct, nonzero,
  above_zero, rounds, direction_of, pnl_shares, fee_shares,
}
use attested_capital.Ledger.Shares.Loop.{
  bump_first, Stops, nonzero-Stops, above_zero-Stops, correct-eq-bump_first,
}

-- The sum of the balances of the accounts that share.
abbrev pub balances : List NftAccount → ℕ
balances = total (λ a. a.current_balance)

-- The whole cents of each account's part, and how many accounts have a balance at all.
unfoldable pub quotas : ℕ → ℕ → List NftAccount → ℕ
quotas n pool = total (λ a. a.current_balance * n / pool)

abbrev pub holders : List NftAccount → ℕ
holders = total (λ a. min a.current_balance 1)

pub signed_add : (s : Bool) (a b : ℕ) → signed s a +ℤ signed s b ≡ signed s (a + b)
unfolding ◌+ℤ◌
signed_add true a b = ground arith
signed_add false zero zero = ground arith
signed_add false zero (suc b) = ground arith
signed_add false (suc a) zero = ground arith
signed_add false (suc a) (suc b) = ground arith

sub_of_add : (x y z : ℤ) → x +ℤ y ≡ z → z -ℤ y ≡ x
sub_of_add x y z h = omega (int_laws, ap pos_part h, ap neg_part h)

signed_sub : (s : Bool) (a b : ℕ) → b ≤ a → signed s a -ℤ signed s b ≡ signed s (a - b)
signed_sub s a b h =
    sub_of_add (signed s (a - b)) (signed s b) (signed s a)
      (signed_add s (a - b) b ∙ ap (signed s) (omega arith))

pub trunc_share-signed :
    (s : Bool) (b n pool : ℕ) → 0 < pool → trunc_share b (signed s n) pool ≡ signed s (b * n / pool)
unfolding trunc_share
trunc_share-signed true b n pool h = refl
trunc_share-signed false b zero pool h =
    let none_left : b * 0 / pool ≡ 0 = omega arith in rw none_left
trunc_share-signed false b (suc n) pool h = refl

pub sum_shares-truncated :
    (s : Bool) (n pool : ℕ) (l : List NftAccount)
    → 0 < pool
    → sum_shares (truncated (signed s n) pool l) ≡ signed s (quotas n pool l)
unfolding sum_shares truncated quotas
sum_shares-truncated true n pool [] h = refl
sum_shares-truncated false n pool [] h = refl
sum_shares-truncated s n pool (a ∷ l) h =
    ap₂ ◌+ℤ◌ (trunc_share-signed s a.current_balance n pool h) (sum_shares-truncated s n pool l h)
    ∙ signed_add s (a.current_balance * n / pool) (quotas n pool l)

part_gap :
    (b n pool : ℕ)
    → 0 < pool
    → (b * n / pool * pool ≤ b * n) × (b * n ≤ b * n / pool * pool + (pool - 1) * min b 1)
part_gap zero n pool h = (omega arith, omega arith)
part_gap (suc b) n pool h = let one : min (suc b) 1 ≡ 1 = omega arith in rw one (grind arith)

-- The quotas fall short by less than one cent for each holder.
quota_gap :
    (n pool : ℕ) (l : List NftAccount)
    → 0 < pool
    → (quotas n pool l * pool ≤ balances l * n)
      × (balances l * n ≤ quotas n pool l * pool + (pool - 1) * holders l)
unfolding quotas
quota_gap n pool [] h = (omega arith, omega arith)
quota_gap n pool (a ∷ l) h =
    omega (arith, part_gap a.current_balance n pool h, quota_gap n pool l h)

pub quotas-le : (n : ℕ) (l : List NftAccount) → 0 < balances l → quotas n (balances l) l ≤ n
quotas-le n l h = grind (arith, (quota_gap n (balances l) l h).0)

-- `n ≤ q + h` from the gap of the products.
gap_bound_suc : (t n q h : ℕ) → (t + 1) * n ≤ q * (t + 1) + t * h → n - q ≤ h
gap_bound_suc t n q h gap = elim (dec_le (n - q) h) [
  | yes fits ↦ fits
  | no above ↦ absurd (omega (arith, mul-le-mul_left {m = q + h + 1} {n = n} (t + 1) (omega arith)))
]

gap_bound : (t n q h : ℕ) → 0 < t → t * n ≤ q * t + (t - 1) * h → n - q ≤ h
gap_bound zero n q h lt gap = absurd (omega arith)
gap_bound (suc t) n q h lt gap =
    let same : suc t ≡ t + 1 = omega arith in
    let less : t + 1 - 1 ≡ t = omega arith in gap_bound_suc t n q h (rw less at (rw same at gap))

pub gap-le-holders :
    (n : ℕ) (l : List NftAccount) → 0 < balances l → n - quotas n (balances l) l ≤ holders l
gap-le-holders n l h =
    gap_bound (balances l) n (quotas n (balances l) l) (holders l) h
      (quota_gap n (balances l) l h).1

holders-le-length : (l : List NftAccount) → holders l ≤ length l
holders-le-length [] = omega arith
holders-le-length (a ∷ l) = omega (arith, holders-le-length l)

length-insert_share : (s : Share) (xs : List Share) → length (insert_share s xs) ≡ suc (length xs)
unfolding insert_share
length-insert_share s [] = refl
length-insert_share s (x ∷ xs) = ground (arith, length-insert_share s xs)

length-sort_shares : (xs : List Share) → length (sort_shares xs) ≡ length xs
unfolding sort_shares
length-sort_shares [] = refl
length-sort_shares (x ∷ xs) =
    length-insert_share x (sort_shares xs) ∙ ap suc (length-sort_shares xs)

length-truncated : (n : ℤ) (pool : ℕ) (l : List NftAccount) → length (truncated n pool l) ≡ length l
unfolding truncated
length-truncated n pool [] = refl
length-truncated n pool (a ∷ l) = ap suc (length-truncated n pool l)

rounds-signed : (s : Bool) (k : ℕ) → rounds (signed s k) ≡ suc k
rounds-signed true k = omega arith
rounds-signed false zero = refl
rounds-signed false (suc k) = omega arith

direction-signed : (s : Bool) (n : ℕ) → 0 < n → direction_of (signed s n) ≡ signed s 1
unfolding direction_of
direction-signed s zero h = absurd (omega arith)
direction-signed true (suc n) h = ground arith
direction-signed false (suc n) h = refl

-- The cents that the quotas leave over.
abbrev pub gap : ℕ → List NftAccount → ℕ
gap n l = n - quotas n (balances l) l

module _ (s : Bool) (n : ℕ) (l : List NftAccount) (rich : 0 < balances l) where
  remainder-signed :
      signed s n -ℤ sum_shares (truncated (signed s n) (balances l) l) ≡ signed s (gap n l)
  remainder-signed =
      ap (λ x. signed s n -ℤ x) (sum_shares-truncated s n (balances l) l rich)
      ∙ signed_sub s n (quotas n (balances l) l) (quotas-le n l rich)

  pub gap-le-length : gap n l ≤ length (sort_shares (truncated (signed s n) (balances l) l))
  gap-le-length =
      rw (length-sort_shares, length-truncated)
        (omega (arith, gap-le-holders n l rich, holders-le-length l))

  loop-eq-bump_first :
      (test : ℤ → Bool)
      → Stops test s
      → (let r = signed s n -ℤ sum_shares (truncated (signed s n) (balances l) l) in
          correct
            (rounds r)
            test
            r
            0
            (signed s 1)
            (sort_shares (truncated (signed s n) (balances l) l)))
        ≡ some (
            bump_first (gap n l) (signed s 1) (sort_shares (truncated (signed s n) (balances l) l)))
  loop-eq-bump_first test stops =
      rw (remainder-signed, rounds-signed s (gap n l))
        (correct-eq-bump_first test s stops (suc (gap n l)) (gap n l) _ gap-le-length (omega arith))

-- A split in closed form: the loop ends, with one cent more for each of the first shares.
pub pnl_shares-eq :
    (s : Bool) (n : ℕ) (l : List NftAccount)
    → 0 < n
    → 0 < balances l
    → pnl_shares (signed s n) (balances l) l
      ≡ some
          (bump_first (gap n l) (signed s 1) (sort_shares (truncated (signed s n) (balances l) l)))
unfolding pnl_shares
pnl_shares-eq s n l some_cents rich =
    rw (direction-signed s n some_cents) (loop-eq-bump_first s n l rich nonzero (nonzero-Stops s))

pub fee_shares-eq :
    (n : ℕ) (l : List NftAccount)
    → 0 < balances l
    → fee_shares n (balances l) l
      ≡ some (bump_first (gap n l) (pos 1) (sort_shares (truncated (pos n) (balances l) l)))
unfolding fee_shares
fee_shares-eq n l rich = loop-eq-bump_first true n l rich above_zero above_zero-Stops
