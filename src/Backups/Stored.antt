-- ===== src/Backups/Stored.antt =====
-- guardian-network/src/guardian/storage.ts: what `store` leaves in the table.
use attested_capital.Base.{
  ℕ, suc, ◌+◌, ◌-◌, ◌≤◌, ◌<◌, min, leb, leb→le, ◌==◌, false, List, [], ◌∷◌, ◌++◌, filter, length,
  length-append, All, All-map, All-append, Bool-cases, ◌≡◌, ◌≢◌, refl, ap, ◌∙◌, inl, inr, arith,
}
use attested_capital.Backups.{
  Backup, Storage, Snapshot, insert_by, sort_by, is_older, count, oldest, is_kept, prune, row_of,
  store,
}
use attested_capital.Backups.Pruning.{All-always, prune-keeps_newest}
use attested_capital.Backups.Sizes.{IsKeyed, append-Distinct, prune-size, prune-IsKeyed}

-- The table with the new row, before it is pruned.
abbrev pub with_new : Snapshot → Storage → Storage
with_new b s = record {
  backups = s.backups ++ row_of (suc s.last_id) b ∷ [];
  last_id = suc s.last_id;
}

with_new-IsKeyed : (b : Snapshot) (s : Storage) → IsKeyed s → IsKeyed (with_new b s)
unfolding row_of
with_new-IsKeyed b s k = (
  append-Distinct s.backups _ k.0 (All-map _ _ (λ c le e. omega (arith, le, e)) s.backups k.1),
  All-append _ s.backups _ (All-map _ _ (λ c le. omega (arith, le)) s.backups k.1)
      ((omega arith), tt),
)

-- No kept backup is older than one of the removed.
abbrev pub IsNewest : ℕ → Storage → Storage → Type 0
IsNewest max_backups before after =
    All
      (λ kept.
        All (λ gone. gone.timestamp ≤ kept.timestamp)
          (oldest (count before - max_backups) before.backups))
      after.backups

prune-IsNewest : (max_backups : ℕ) (s : Storage) → IsNewest max_backups s (prune max_backups s)
unfolding count oldest
prune-IsNewest max_backups s = elim (Bool-cases (leb (count s) max_backups)) [
  | inr full ↦ prune-keeps_newest max_backups s (ground arith)
  | inl fits ↦
      let none_too_many : length s.backups - max_backups ≡ 0 =
        omega (arith, leb→le (length s.backups) max_backups fits) in
      rw none_too_many (All-always _ (λ b. tt) (prune max_backups s).backups)
]

-- Where the keys are keys, they stay so when a snapshot is stored; then there are as many
-- backups as before and one more, but at most max_backups, and no backup that is kept is older
-- than one of those that pruning takes away.
pub store-keeps_IsNewest :
    (max_backups : ℕ) (b : Snapshot) (s : Storage)
    → IsKeyed s
    → IsKeyed (store max_backups b s).1
      × (count (store max_backups b s).1 ≡ min max_backups (count s + 1))
      × IsNewest max_backups (with_new b s) (store max_backups b s).1
unfolding store count
store-keeps_IsNewest max_backups b s k =
    let keyed = with_new-IsKeyed b s k in
    (
      prune-IsKeyed max_backups (with_new b s) keyed,
      prune-size max_backups (with_new b s) keyed.0
          ∙ ap (min max_backups) (length-append s.backups _),
      prune-IsNewest max_backups (with_new b s),
    )

sort-stale :
    (bs : List Backup) (x : Backup)
    → All (λ c. x.timestamp < c.timestamp) bs
    → sort_by is_older (bs ++ x ∷ []) ≡ x ∷ sort_by is_older bs
unfolding sort_by insert_by is_older
sort-stale [] x h = refl
sort-stale (c ∷ bs) x h =
    let later : leb c.timestamp x.timestamp ≡ false = ground (arith, h.0) in
    rw (sort-stale bs x h.1, later) refl

filter-last :
    (bs : List Backup) (x : Backup)
    → All (λ c. c.id ≢ x.id) bs
    → filter (is_kept (x ∷ [])) (bs ++ x ∷ []) ≡ bs
unfolding is_kept
filter-last [] x new = ground arith
filter-last (c ∷ bs) x new =
    let other : (x.id == c.id) ≡ false = ground (arith, new.0) in
    rw (other, filter-last bs x new.1) refl

-- Where the keys are keys, a snapshot that is older than every backup of a full storage is taken
-- away again as it is stored: the call returns a key, but the rows are those from before.
pub store-drops_stale :
    (max_backups : ℕ) (b : Snapshot) (s : Storage)
    → IsKeyed s
    → count s ≡ max_backups
    → All (λ c. b.timestamp < c.timestamp) s.backups
    → store max_backups b s ≡ (suc s.last_id, record s { last_id = suc s.last_id })
unfolding store count prune oldest row_of
store-drops_stale max_backups b s k full stale =
    let x = row_of (suc s.last_id) b in
    let size : length (s.backups ++ x ∷ []) ≡ max_backups + 1 =
      length-append s.backups (x ∷ []) ∙ ap (λ n. n + 1) full in
    let over : leb (max_backups + 1) max_backups ≡ false = ground arith in
    let one : (max_backups + 1) - max_backups ≡ 1 = omega arith in
    let last =
      filter-last s.backups x (All-map _ _ (λ c le e. omega (arith, le, e)) s.backups k.1) in
    rw (size, over, one, sort-stale s.backups x stale, last) refl
