-- ===== src/Ledger/Shares/Losses.antt =====
-- panthers-fund/src/database/ledger.ts: the split of a loss takes from no account more than it holds.
use native.Mathlib.Nat.{div-lt_iff_lt-mul, mul-div_cancel}
use native.Mathlib.Decide.{dec_lt}
use attested_capital.Base.{
  ℕ, zero, suc, ◌+◌, ◌*◌, ◌/◌, ◌-◌, ◌≤◌, ◌<◌, ◌≡◌, refl, Bool-cases, inl, inr, true, false, List,
  [], ◌∷◌, All, total, min, arith,
}
use attested_capital.Base.Int.{ℤ, pos, negsuc, neg_part, ◌+ℤ◌}
use attested_capital.Ledger.{NftAccount}
use attested_capital.Ledger.Shares.{
  Share, signed, truncated, sorts_before, insert_share, sort_shares,
}
use attested_capital.Ledger.Shares.Loop.{one_more, bump_first}
use attested_capital.Ledger.Shares.Exact.{
  balances, gap, quotas, holders, gap-le-holders, trunc_share-signed,
}

-- A share takes at most what the account holds, and `Slack` leaves it a cent to lose.
abbrev pub IsCovered : Share → Type 0
IsCovered s = neg_part s.share ≤ s.balance

abbrev HasSlack : Share → Type 0
HasSlack s = neg_part s.share + min s.balance 1 ≤ s.balance

abbrev Falling : List Share → Type 0
Falling [] = Unit
Falling (x ∷ xs) = All (λ y. y.balance ≤ x.balance) xs × Falling xs

abbrev share_holders : List Share → ℕ
share_holders = total (λ s. min s.balance 1)

-- Sorting keeps what holds of every share, and orders them by balance.
module _ (P : Share → Type 0) where
  All-insert_share : (s : Share) (xs : List Share) → P s → All P xs → All P (insert_share s xs)
  unfolding insert_share
  All-insert_share s [] p h = (p, tt)
  All-insert_share s (x ∷ xs) p h = elim (Bool-cases (sorts_before s x)) [
    | inl first ↦ rw first (p, h)
    | inr later ↦ rw later (h.0, All-insert_share s xs p h.1)
  ]

  pub All-sort_shares : (xs : List Share) → All P xs → All P (sort_shares xs)
  unfolding sort_shares
  All-sort_shares [] h = tt
  All-sort_shares (x ∷ xs) h = All-insert_share x (sort_shares xs) h.0 (All-sort_shares xs h.1)

All-le_trans :
    (a b : ℕ) (xs : List Share) → a ≤ b → All (λ y. y.balance ≤ a) xs → All (λ y. y.balance ≤ b) xs
All-le_trans a b [] le h = tt
All-le_trans a b (x ∷ xs) le h = (omega arith, All-le_trans a b xs le h.1)

before-le : (s x : Share) → sorts_before s x ≡ true → x.balance ≤ s.balance
unfolding sorts_before
before-le s x h = ground arith

after-le : (s x : Share) → sorts_before s x ≡ false → s.balance ≤ x.balance
unfolding sorts_before
after-le s x h = ground arith

Falling-insert_share : (s : Share) (xs : List Share) → Falling xs → Falling (insert_share s xs)
unfolding insert_share
Falling-insert_share s [] f = (tt, tt)
Falling-insert_share s (x ∷ xs) f = elim (Bool-cases (sorts_before s x)) [
  | inl first ↦
      rw first
        ((before-le s x first, All-le_trans x.balance s.balance xs (before-le s x first) f.0), f)
  | inr later ↦ rw later (
    All-insert_share (λ y. y.balance ≤ x.balance) s xs (after-le s x later) f.0,
    Falling-insert_share s xs f.1,
  )
]

Falling-sort_shares : (xs : List Share) → Falling (sort_shares xs)
unfolding sort_shares
Falling-sort_shares [] = tt
Falling-sort_shares (x ∷ xs) = Falling-insert_share x (sort_shares xs) (Falling-sort_shares xs)

holders-insert_share :
    (s : Share) (xs : List Share)
    → share_holders (insert_share s xs) ≡ min s.balance 1 + share_holders xs
unfolding insert_share
holders-insert_share s [] = refl
holders-insert_share s (x ∷ xs) = elim (Bool-cases (sorts_before s x)) [
  | inl first ↦ rw first
  | inr later ↦ rw later (omega (arith, holders-insert_share s xs))
]

holders-sort_shares : (xs : List Share) → share_holders (sort_shares xs) ≡ share_holders xs
unfolding sort_shares
holders-sort_shares [] = refl
holders-sort_shares (x ∷ xs) =
    omega (arith, holders-insert_share x (sort_shares xs), holders-sort_shares xs)

holders-truncated :
    (n : ℤ) (pool : ℕ) (l : List NftAccount) → share_holders (truncated n pool l) ≡ holders l
unfolding truncated
holders-truncated n pool [] = refl
holders-truncated n pool (a ∷ l) = omega (arith, holders-truncated n pool l)

-- Below an empty balance there are no holders.
holders-empty : (xs : List Share) → All (λ y. y.balance ≤ 0) xs → share_holders xs ≡ 0
holders-empty [] h = refl
holders-empty (x ∷ xs) h = omega (arith, holders-empty xs h.1)

slack-IsCovered : (xs : List Share) → All HasSlack xs → All IsCovered xs
slack-IsCovered [] h = tt
slack-IsCovered (x ∷ xs) h = (omega arith, slack-IsCovered xs h.1)

first_holder :
    (k b : ℕ) (xs : List Share)
    → suc k ≤ min b 1 + share_holders xs
    → All (λ y. y.balance ≤ b) xs
    → 0 < b
first_holder k zero xs room h = absurd (omega (arith, holders-empty xs h))
first_holder k (suc b) xs room h = omega arith

one_less_covered : (b : ℕ) (x : ℤ) → 0 < b → neg_part x + min b 1 ≤ b → neg_part (x +ℤ negsuc 0) ≤ b
unfolding ◌+ℤ◌
one_less_covered b (pos zero) h slack = ground arith
one_less_covered b (pos (suc n)) h slack = ground arith
one_less_covered b (negsuc n) h slack = ground arith

-- Taking one more cent from each of the first holders leaves every share covered.
bump_first-IsCovered :
    (k : ℕ) (xs : List Share)
    → Falling xs
    → k ≤ share_holders xs
    → All HasSlack xs
    → All IsCovered (bump_first k (negsuc 0) xs)
unfolding bump_first one_more
bump_first-IsCovered zero xs f room h = slack-IsCovered xs h
bump_first-IsCovered (suc k) [] f room h = tt
bump_first-IsCovered (suc k) (x ∷ xs) f room h = (
  one_less_covered x.balance x.share (first_holder k x.balance xs room f.0) h.0,
  bump_first-IsCovered k xs f.1 (omega arith) h.1,
)

quota-slack : (b n pool : ℕ) → n < pool → b * n / pool + min b 1 ≤ b
quota-slack zero n pool h = omega arith
quota-slack (suc b) n pool h =
    let below : suc b * n / pool < suc b =
      (div-lt_iff_lt-mul {k = pool} {x = suc b * n} {y = suc b} (omega arith)).1 (grind arith) in
    omega arith

quota_full : (b pool : ℕ) → 0 < pool → b * pool / pool ≡ b
quota_full b pool h = mul-div_cancel b h

neg_part-signed : (n : ℕ) → neg_part (signed false n) ≡ n
neg_part-signed zero = refl
neg_part-signed (suc n) = refl

truncated-slack :
    (n pool : ℕ) (l : List NftAccount) → n < pool → All HasSlack (truncated (signed false n) pool l)
unfolding truncated
truncated-slack n pool [] h = tt
truncated-slack n pool (a ∷ l) h = (
  rw (trunc_share-signed false a.current_balance n pool (omega arith))
      (rw neg_part-signed (quota-slack a.current_balance n pool h)),
  truncated-slack n pool l h,
)

truncated-IsCovered :
    (pool : ℕ) (l : List NftAccount)
    → 0 < pool
    → All IsCovered (truncated (signed false pool) pool l)
unfolding truncated
truncated-IsCovered pool [] h = tt
truncated-IsCovered pool (a ∷ l) h = (
  rw (trunc_share-signed false a.current_balance pool pool h)
      (rw neg_part-signed (omega (arith, quota_full a.current_balance pool h))),
  truncated-IsCovered pool l h,
)

quotas_full : (pool : ℕ) (l : List NftAccount) → 0 < pool → quotas pool pool l ≡ balances l
unfolding quotas
quotas_full pool [] h = refl
quotas_full pool (a ∷ l) h =
    omega (arith, quota_full a.current_balance pool h, quotas_full pool l h)

-- The closed form of a loss that the pool can bear.
pub split-IsCovered :
    (n : ℕ) (l : List NftAccount)
    → 0 < balances l
    → n ≤ balances l
    → All IsCovered
        (bump_first (gap n l) (negsuc 0) (sort_shares (truncated (signed false n) (balances l) l)))
split-IsCovered n l rich fits = elim (dec_lt n (balances l)) [
  | yes below ↦
      bump_first-IsCovered (gap n l) _ (Falling-sort_shares _)
        (rw (holders-sort_shares, holders-truncated) (gap-le-holders n l rich))
        (All-sort_shares HasSlack _ (truncated-slack n (balances l) l below))
  | no full ↦
      let all_of_it : n ≡ balances l = omega arith in
      let no_gap : balances l - quotas (balances l) (balances l) l ≡ 0 =
        omega (arith, quotas_full (balances l) l rich) in
      rw (all_of_it, no_gap)
        (unfold bump_first in All-sort_shares IsCovered _ (truncated-IsCovered (balances l) l rich))
]
