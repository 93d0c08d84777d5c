-- ===== src/Backups/Examples.antt =====
-- The storage of backups at concrete snapshots.
use attested_capital.Base.{ℕ, ◌+◌, ◌≡◌, [], ◌∷◌, none, min, refl, arith}
use attested_capital.Backups.{
  Storage, Snapshot, count, oldest, is_older, sort_by, insert_by, prune, row_of, store, is_kept,
  total_size_bytes,
}
use attested_capital.Backups.Sizes.{IsKeyed}
use attested_capital.Backups.Stored.{with_new, IsNewest, store-keeps_IsNewest}

abbrev snapshot_at : ℕ → Snapshot
snapshot_at time = record {
  timestamp = time;
  data_bytes = 7 ∷ 8 ∷ [];
  fund_manager_id = "fund";
  attestation = none;
}

abbrev two_backups : Storage
unfolding row_of
two_backups = record {
  backups = row_of 3 (snapshot_at 300) ∷ row_of 5 (snapshot_at 200) ∷ [];
  last_id = 5;
}

two_backups-IsKeyed : IsKeyed two_backups
unfolding row_of
two_backups-IsKeyed =
    (((((λ e. omega (arith, e)), tt), (tt, tt))), ((omega arith), ((omega arith), tt)))

-- The oldest of three goes.
store_test : store 2 (snapshot_at 400) two_backups ≡ (
  6,
  record { backups = row_of 3 (snapshot_at 300) ∷ row_of 6 (snapshot_at 400) ∷ []; last_id = 6 },
)
unfolding store row_of prune count oldest sort_by insert_by is_older is_kept
store_test = refl

total_test : total_size_bytes two_backups ≡ 4
unfolding total_size_bytes row_of
total_test = refl

store-keeps_IsNewest_example :
    IsKeyed (store 2 (snapshot_at 400) two_backups).1
    × (count (store 2 (snapshot_at 400) two_backups).1 ≡ min 2 (count two_backups + 1))
    × IsNewest 2 (with_new (snapshot_at 400) two_backups) (store 2 (snapshot_at 400) two_backups).1
store-keeps_IsNewest_example =
    store-keeps_IsNewest 2 (snapshot_at 400) two_backups two_backups-IsKeyed
