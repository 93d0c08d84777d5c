-- ===== src/Backups/Sizes.antt =====
-- guardian-network/src/guardian/storage.ts: how many backups `prune` leaves, which the keys decide.
use attested_capital.Base.{
  ℕ, zero, suc, ◌+◌, ◌-◌, ◌≤◌, ◌<◌, min, leb, leb→le, ◌==◌, Bool, false, List, [], ◌∷◌, ◌++◌,
  filter, length, All, All-append, All-filter, Bool-cases, ◌≡◌, ◌≢◌, refl, ap, sym, inl, inr, arith,
}
use attested_capital.Backups.{
  Backup, Storage, insert_by, sort_by, is_older, take, count, oldest, is_kept, prune,
}
use attested_capital.Backups.Pruning.{length-filter-sort, length-sort, All-insert, is_kept-taken}

-- No key twice.
abbrev pub Distinct : List Backup → Type 0
Distinct [] = Unit
Distinct (b ∷ bs) = All (λ c. c.id ≢ b.id) bs × Distinct bs

-- The keys are keys, and AUTOINCREMENT has given out all of them.
abbrev pub IsKeyed : Storage → Type 0
IsKeyed s = Distinct s.backups × All (λ b. b.id ≤ s.last_id) s.backups

insert-Distinct :
    (before : Backup → Backup → Bool) (b : Backup) (bs : List Backup)
    → All (λ c. c.id ≢ b.id) bs
    → Distinct bs
    → Distinct (insert_by before b bs)
unfolding insert_by
insert-Distinct before b [] new d = (tt, tt)
insert-Distinct before b (c ∷ bs) new d = elim (Bool-cases (before b c)) [
  | inl is ↦ rw is (new, d)
  | inr not_so ↦
      rw not_so
        (All-insert _ before b bs (λ e. new.0 (sym e)) d.0, insert-Distinct before b bs new.1 d.1)
]

sort-All :
    (P : Backup → Type 0) (before : Backup → Backup → Bool) (bs : List Backup)
    → All P bs
    → All P (sort_by before bs)
unfolding sort_by
sort-All P before [] h = tt
sort-All P before (b ∷ bs) h = All-insert P before b _ h.0 (sort-All P before bs h.1)

sort-Distinct :
    (before : Backup → Backup → Bool) (bs : List Backup)
    → Distinct bs
    → Distinct (sort_by before bs)
unfolding sort_by
sort-Distinct before [] d = tt
sort-Distinct before (b ∷ bs) d =
    insert-Distinct before b _ (sort-All _ before bs d.0) (sort-Distinct before bs d.1)

filter-Distinct : (p : Backup → Bool) (bs : List Backup) → Distinct bs → Distinct (filter p bs)
filter-Distinct p [] d = tt
filter-Distinct p (b ∷ bs) d = elim (Bool-cases (p b)) [
  | inl is ↦ rw is (All-filter _ p bs d.0, filter-Distinct p bs d.1)
  | inr not_so ↦ rw not_so (filter-Distinct p bs d.1)
]

pub append-Distinct :
    (bs : List Backup) (b : Backup)
    → Distinct bs
    → All (λ c. c.id ≢ b.id) bs
    → Distinct (bs ++ b ∷ [])
append-Distinct [] b d new = (tt, tt)
append-Distinct (c ∷ bs) b d new =
    (All-append _ bs (b ∷ []) d.0 ((λ e. new.0 (sym e)), tt), append-Distinct bs b d.1 new.1)

-- A row of another key does not matter to whether a row is kept.
filter-others :
    (g : Backup) (gone bs : List Backup)
    → All (λ c. c.id ≢ g.id) bs
    → filter (is_kept (g ∷ gone)) bs ≡ filter (is_kept gone) bs
unfolding is_kept
filter-others g gone [] new = refl
filter-others g gone (b ∷ bs) new =
    let other : (g.id == b.id) ≡ false = ground (arith, new.0) in
    rw (other, filter-others g gone bs new.1) refl

pub filter-nothing : (bs : List Backup) → filter (is_kept []) bs ≡ bs
unfolding is_kept
filter-nothing [] = refl
filter-nothing (b ∷ bs) = ap (λ l. b ∷ l) (filter-nothing bs)

length-filter-first :
    (n : ℕ) (bs : List Backup)
    → n ≤ length bs
    → Distinct bs
    → length (filter (is_kept (take n bs)) bs) + n ≡ length bs
length-filter-first zero bs fits d = rw (filter-nothing bs) (omega arith)
length-filter-first (suc n) [] fits d = absurd (omega arith)
length-filter-first (suc n) (b ∷ bs) fits d =
    rw (is_kept-taken b (take n bs), filter-others b (take n bs) bs d.0)
      (omega (arith, length-filter-first n bs (omega arith) d.1))

leb-false→lt : (a b : ℕ) → leb a b ≡ false → b < a
leb-false→lt a b h = ground arith

-- Pruning leaves `max_backups` backups, or all if there are no more.
pub prune-size :
    (max_backups : ℕ) (s : Storage)
    → Distinct s.backups
    → length (prune max_backups s).backups ≡ min max_backups (length s.backups)
unfolding prune count oldest
prune-size max_backups s d = elim (Bool-cases (leb (length s.backups) max_backups)) [
  | inl fits ↦ rw fits (omega (arith, leb→le _ _ fits))
  | inr full ↦ rw full (
      let n = length s.backups - max_backups in
      let sorted = sort_by is_older s.backups in
      let first =
        length-filter-first n sorted (omega (arith, length-sort is_older s.backups))
          (sort-Distinct is_older s.backups d) in
      omega (
        arith,
        length-sort is_older s.backups,
        first,
        length-filter-sort is_older (is_kept (take n sorted)) s.backups,
        leb-false→lt _ _ full,
      ))
]

pub prune-IsKeyed : (max_backups : ℕ) (s : Storage) → IsKeyed s → IsKeyed (prune max_backups s)
unfolding prune
prune-IsKeyed max_backups s k = elim (Bool-cases (leb (count s) max_backups)) [
  | inl fits ↦ rw fits k
  | inr full ↦ rw full (filter-Distinct _ s.backups k.0, All-filter _ _ s.backups k.1)
]
