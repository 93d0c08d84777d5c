-- ===== src/Ledger/Trades/Split.antt =====
-- A split of the active accounts has one share for each, with the balance that the account has.
use attested_capital.Base.{
  ℕ, zero, suc, ◌==◌, ◌≡◌, refl, ap, ◌∙◌, Bool, Bool-cases, inl, inr, true, false, ◌||◌, some, List,
  [], ◌∷◌, All, All-filter, find, if◌then◌else◌, arith,
}
use attested_capital.Base.Int.{ℤ}
use attested_capital.Ledger.{NftAccount, active_accounts}
use attested_capital.Ledger.Shares.{Share, truncated, sorts_before, insert_share, sort_shares}
use attested_capital.Ledger.Shares.Loop.{one_more, bump_first}
use attested_capital.Ledger.Shares.Losses.{All-sort_shares}
use attested_capital.Ledger.Trades.Applied.{has_key, Distinct}
use attested_capital.Ledger.Trades.Loop.{Backed, has_share, Apart}

abbrev Found : List NftAccount → NftAccount → Type 0
Found rows a = (find (λ x. x.token_id == a.token_id) rows ≡ some a) × (a.is_active ≡ true)

others :
    (k : ℕ) (rows : List NftAccount)
    → has_key k rows ≡ false
    → All (λ a. (k == a.token_id) ≡ false) rows
others k [] h = tt
others k (a ∷ rows) h = (ground arith, others k rows (ground arith))

Found-more :
    (b : NftAccount) (rows l : List NftAccount)
    → All (λ a. (b.token_id == a.token_id) ≡ false) l
    → All (Found rows) l
    → All (Found (b ∷ rows)) l
Found-more b rows [] o f = tt
Found-more b rows (a ∷ l) o f = ((rw (o.0) f.0.0, f.0.1), Found-more b rows l o.1 f.1)

active-Found : (rows : List NftAccount) → Distinct rows → All (Found rows) (active_accounts rows)
active-Found [] d = tt
active-Found (b ∷ rows) d = first b.is_active refl (
    Found-more b rows (active_accounts rows) (All-filter _ _ rows (others b.token_id rows d.0))
      (active-Found rows d.1))
  where
    first :
        (on : Bool)
        → b.is_active ≡ on
        → All (Found (b ∷ rows)) (active_accounts rows)
        → All (Found (b ∷ rows)) (if on then b ∷ active_accounts rows else active_accounts rows)
    first true is_on h = ((ground arith, is_on), h)
    first false is_on h = h

truncated-Backed :
    (rows l : List NftAccount) (amount : ℤ) (pool : ℕ)
    → All (Found rows) l
    → All (Backed rows) (truncated amount pool l)
unfolding truncated
truncated-Backed rows [] amount pool f = tt
truncated-Backed rows (a ∷ l) amount pool f =
    ((a, f.0.0, f.0.1, refl), truncated-Backed rows l amount pool f.1)

bump_first-Backed :
    (rows : List NftAccount) (k : ℕ) (d : ℤ) (xs : List Share)
    → All (Backed rows) xs
    → All (Backed rows) (bump_first k d xs)
unfolding bump_first one_more
bump_first-Backed rows zero d xs h = h
bump_first-Backed rows (suc k) d [] h = tt
bump_first-Backed rows (suc k) d (s ∷ xs) h = (h.0, bump_first-Backed rows k d xs h.1)

has_key-active :
    (k : ℕ) (rows : List NftAccount)
    → has_key k rows ≡ false
    → has_key k (active_accounts rows) ≡ false
has_key-active k [] h = refl
has_key-active k (a ∷ rows) h = ground (arith, has_key-active k rows)

Distinct-active : (rows : List NftAccount) → Distinct rows → Distinct (active_accounts rows)
Distinct-active [] d = tt
Distinct-active (b ∷ rows) d = first b.is_active (Distinct-active rows d.1)
  where
    first :
        (on : Bool)
        → Distinct (active_accounts rows)
        → Distinct (if on then b ∷ active_accounts rows else active_accounts rows)
    first true h = (has_key-active b.token_id rows d.0, h)
    first false h = h

has_share-truncated :
    (k : ℕ) (amount : ℤ) (pool : ℕ) (l : List NftAccount)
    → has_share k (truncated amount pool l) ≡ has_key k l
unfolding truncated
has_share-truncated k amount pool [] = refl
has_share-truncated k amount pool (a ∷ l) =
    ap (λ b. (a.token_id == k) || b) (has_share-truncated k amount pool l)

Apart-truncated :
    (amount : ℤ) (pool : ℕ) (l : List NftAccount) → Distinct l → Apart (truncated amount pool l)
unfolding truncated
Apart-truncated amount pool [] d = tt
Apart-truncated amount pool (a ∷ l) d =
    (has_share-truncated a.token_id amount pool l ∙ d.0, Apart-truncated amount pool l d.1)

has_share-insert_share :
    (k : ℕ) (s : Share) (xs : List Share)
    → has_share k (insert_share s xs) ≡ ((s.token_id == k) || has_share k xs)
unfolding insert_share
has_share-insert_share k s [] = refl
has_share-insert_share k s (x ∷ xs) = grind (arith, has_share-insert_share k s xs)

Apart-insert_share :
    (s : Share) (xs : List Share)
    → has_share s.token_id xs ≡ false
    → Apart xs
    → Apart (insert_share s xs)
unfolding insert_share
Apart-insert_share s [] h a = (refl, tt)
Apart-insert_share s (x ∷ xs) h a = elim (Bool-cases (sorts_before s x)) [
  | inl first ↦ rw first (h, a)
  | inr later ↦
      let other : (s.token_id == x.token_id) ≡ false = ground arith in
      let rest : has_share s.token_id xs ≡ false = ground arith in
      rw later
        (has_share-insert_share x.token_id s xs ∙ rw other a.0, Apart-insert_share s xs rest a.1)
]

has_share-sort_shares : (k : ℕ) (xs : List Share) → has_share k (sort_shares xs) ≡ has_share k xs
unfolding sort_shares
has_share-sort_shares k [] = refl
has_share-sort_shares k (x ∷ xs) =
    has_share-insert_share k x (sort_shares xs)
    ∙ ap (λ b. (x.token_id == k) || b) (has_share-sort_shares k xs)

Apart-sort_shares : (xs : List Share) → Apart xs → Apart (sort_shares xs)
unfolding sort_shares
Apart-sort_shares [] a = tt
Apart-sort_shares (x ∷ xs) a =
    Apart-insert_share x (sort_shares xs) (has_share-sort_shares x.token_id xs ∙ a.0)
      (Apart-sort_shares xs a.1)

has_share-bump_first :
    (j k : ℕ) (d : ℤ) (xs : List Share) → has_share j (bump_first k d xs) ≡ has_share j xs
unfolding bump_first one_more
has_share-bump_first j zero d xs = refl
has_share-bump_first j (suc k) d [] = refl
has_share-bump_first j (suc k) d (s ∷ xs) =
    ap (λ b. (s.token_id == j) || b) (has_share-bump_first j k d xs)

Apart-bump_first : (k : ℕ) (d : ℤ) (xs : List Share) → Apart xs → Apart (bump_first k d xs)
unfolding bump_first one_more
Apart-bump_first zero d xs a = a
Apart-bump_first (suc k) d [] a = tt
Apart-bump_first (suc k) d (s ∷ xs) a =
    (has_share-bump_first s.token_id k d xs ∙ a.0, Apart-bump_first k d xs a.1)

module _ (rows : List NftAccount) (distinct : Distinct rows) (k : ℕ) (d amount : ℤ) (pool : ℕ) where
  abbrev split : List Share
  split = bump_first k d (sort_shares (truncated amount pool (active_accounts rows)))

  pub split-Backed : All (Backed rows) split
  split-Backed = bump_first-Backed rows k d _ (
      All-sort_shares (Backed rows) _
        (truncated-Backed rows _ amount pool (active-Found rows distinct)))

  pub split-Apart : Apart split
  split-Apart =
      Apart-bump_first k d _
        (Apart-sort_shares _ (Apart-truncated amount pool _ (Distinct-active rows distinct)))
