-- ===== src/Backups/Pruning.antt =====
-- guardian-network/src/guardian/storage.ts: which backups `prune` keeps.
use attested_capital.Base.{
  ℕ, zero, suc, ◌-◌, ◌≤◌, ◌<◌, leb, leb→le, Bool, true, false, List, [], ◌∷◌, filter, length,
  if◌then◌else◌, All, All-map, Bool-cases, ◌≡◌, refl, ap, ◌∙◌, inl, inr, arith,
}
use attested_capital.Backups.{
  Backup, Storage, insert_by, sort_by, is_older, take, count, oldest, is_kept, prune,
}

-- Sorting keeps how many rows pass a test.
module _ (before : Backup → Backup → Bool) (p : Backup → Bool) where
  length-filter-insert :
      (b : Backup) (bs : List Backup)
      → length (filter p (insert_by before b bs)) ≡ length (filter p (b ∷ bs))
  unfolding insert_by
  length-filter-insert b [] = refl
  length-filter-insert b (c ∷ bs) = ground (arith, length-filter-insert b bs)

  pub length-filter-sort :
      (bs : List Backup) → length (filter p (sort_by before bs)) ≡ length (filter p bs)
  unfolding sort_by
  length-filter-sort [] = refl
  length-filter-sort (b ∷ bs) =
      length-filter-insert b (sort_by before bs) ∙ ground (arith, length-filter-sort bs)

module _ (before : Backup → Backup → Bool) where
  length-insert : (b : Backup) (bs : List Backup) → length (insert_by before b bs) ≡ suc (length bs)
  unfolding insert_by
  length-insert b [] = refl
  length-insert b (c ∷ bs) = ground (arith, length-insert b bs)

  pub length-sort : (bs : List Backup) → length (sort_by before bs) ≡ length bs
  unfolding sort_by
  length-sort [] = refl
  length-sort (b ∷ bs) = length-insert b (sort_by before bs) ∙ ap suc (length-sort bs)

-- The rows that are taken are not kept.
pub is_kept-taken : (g : Backup) (gone : List Backup) → is_kept (g ∷ gone) g ≡ false
unfolding is_kept
is_kept-taken g gone = ground arith

also_not-kept :
    (g : Backup) (gone : List Backup) (b : Backup)
    → is_kept gone b ≡ false
    → is_kept (g ∷ gone) b ≡ false
unfolding is_kept
also_not-kept g gone b h = ground arith

taken-not-kept : (gone : List Backup) → All (λ g. is_kept gone g ≡ false) gone
taken-not-kept [] = tt
taken-not-kept (g ∷ gone) =
    (is_kept-taken g gone, All-map _ _ (also_not-kept g gone) gone (taken-not-kept gone))

module _ (q : Backup → Bool) where
  All-kept :
      (P : Backup → Type 0) (bs : List Backup)
      → All (λ b. q b ≡ true → P b) bs
      → All P (filter q bs)
  All-kept P [] h = tt
  All-kept P (b ∷ bs) h = elim (Bool-cases (q b)) [
    | inl is ↦ rw is (h.0 is, All-kept P bs h.1)
    | inr not_so ↦ rw not_so (All-kept P bs h.1)
  ]

-- Each row is at most as new as those after it.
abbrev pub Ordered : List Backup → Type 0
Ordered [] = Unit
Ordered (b ∷ bs) = All (λ c. b.timestamp ≤ c.timestamp) bs × Ordered bs

module _ (P : Backup → Type 0) (before : Backup → Backup → Bool) where
  pub All-insert : (b : Backup) (bs : List Backup) → P b → All P bs → All P (insert_by before b bs)
  unfolding insert_by
  All-insert b [] pb h = (pb, tt)
  All-insert b (c ∷ bs) pb h = elim (Bool-cases (before b c)) [
    | inl is ↦ rw is (pb, h)
    | inr not_so ↦ rw not_so (h.0, All-insert b bs pb h.1)
  ]

  All-of-insert : (b : Backup) (bs : List Backup) → All P (insert_by before b bs) → P b × All P bs
  unfolding insert_by
  All-of-insert b [] h = h
  All-of-insert b (c ∷ bs) h = by_place (before b c) h (All-of-insert b bs)
    where
      by_place :
          (x : Bool)
          → All P (if x then b ∷ c ∷ bs else c ∷ insert_by before b bs)
          → (All P (insert_by before b bs) → P b × All P bs)
          → P b × All P (c ∷ bs)
      by_place true k rest = k
      by_place false k rest = let r = rest k.1 in (r.0, (k.0, r.1))

  pub All-of-sort : (bs : List Backup) → All P (sort_by before bs) → All P bs
  unfolding sort_by
  All-of-sort [] h = tt
  All-of-sort (b ∷ bs) h =
      let r = All-of-insert b (sort_by before bs) h in (r.0, All-of-sort bs r.1)

insert-Ordered : (b : Backup) (bs : List Backup) → Ordered bs → Ordered (insert_by is_older b bs)
unfolding insert_by is_older
insert-Ordered b [] h = (tt, tt)
insert-Ordered b (c ∷ bs) h = elim (Bool-cases (leb b.timestamp c.timestamp)) [
  | inl is ↦ rw is ((leb→le _ _ is, All-map _ _ (λ d le. omega (arith, leb→le _ _ is)) bs h.0), h)
  | inr not_so ↦ rw not_so (All-insert _ is_older b bs (ground arith) h.0, insert-Ordered b bs h.1)
]

sort-Ordered : (bs : List Backup) → Ordered (sort_by is_older bs)
unfolding sort_by
sort-Ordered [] = tt
sort-Ordered (b ∷ bs) = insert-Ordered b (sort_by is_older bs) (sort-Ordered bs)

pub All-always : (P : Backup → Type 0) → ((b : Backup) → P b) → (bs : List Backup) → All P bs
All-always P f [] = tt
All-always P f (b ∷ bs) = (f b, All-always P f bs)

-- What a test keeps of an ordered list, apart from the rows taken first, is at least as new.
module _ (q : Backup → Bool) where
  newer-taken :
      (n : ℕ) (bs : List Backup)
      → Ordered bs
      → All (λ b. q b ≡ false) (take n bs)
      → All (λ b. q b ≡ true → All (λ g. g.timestamp ≤ b.timestamp) (take n bs)) bs
  newer-taken zero bs o h = All-always _ (λ b k. tt) bs
  newer-taken (suc n) [] o h = tt
  newer-taken (suc n) (b ∷ bs) o h =
      ((λ k. absurd (cc (k, h.0))), All-and bs o.0 (newer-taken n bs o.1 h.1))
    where
      All-and :
          (cs : List Backup)
          → All (λ c. b.timestamp ≤ c.timestamp) cs
          → All (λ c. q c ≡ true → All (λ g. g.timestamp ≤ c.timestamp) (take n bs)) cs
          → All (λ c. q c ≡ true → All (λ g. g.timestamp ≤ c.timestamp) (b ∷ take n bs)) cs
      All-and [] x y = tt
      All-and (c ∷ cs) x y = ((λ k. (x.0, y.0 k)), All-and cs x.1 y.1)

-- Pruning keeps no backup that is older than one that it removes.
pub prune-keeps_newest :
    (max_backups : ℕ) (s : Storage)
    → max_backups < count s
    → All
        (λ b. All (λ g. g.timestamp ≤ b.timestamp) (oldest (count s - max_backups) s.backups))
        (prune max_backups s).backups
unfolding prune count oldest
prune-keeps_newest max_backups s full =
    let gone = take (length s.backups - max_backups) (sort_by is_older s.backups) in
    let over : leb (length s.backups) max_backups ≡ false = ground arith in
    rw over (
      All-kept (is_kept gone) _ s.backups (
        All-of-sort _ is_older s.backups
          (newer-taken (is_kept gone) _ _ (sort-Ordered s.backups) (taken-not-kept gone))))
