-- ===== src/Backups.antt =====
-- guardian-network/src/guardian/storage.ts: the class `BackupStorage`, over the table backups of
-- guardian-network/database/schema.sql.
pub mod Pruning
pub mod Sizes
pub mod Stored
mod Examples
use attested_capital.Base.{
  ℕ, zero, suc, ◌+◌, ◌-◌, ltb, leb, ◌==◌, not, String, Bool, Option, none, some, List, [], ◌∷◌,
  ◌++◌, any, filter, find, length, total, if◌then◌else◌,
}

pub record Backup : Type 0 where
  pub id : ℕ
  pub timestamp : ℕ
  -- The bytes of the snapshot.
  pub data_bytes : List ℕ
  pub fund_manager_id : String
  pub attestation : Option String
  pub size_bytes : ℕ

-- The table, and the key that AUTOINCREMENT gave out last.
pub record Storage : Type 0 where
  pub backups : List Backup
  pub last_id : ℕ

-- What a fund manager sends.
pub record Snapshot : Type 0 where
  pub timestamp : ℕ
  pub data_bytes : List ℕ
  pub fund_manager_id : String
  pub attestation : Option String

unfoldable pub insert_by : (Backup → Backup → Bool) → Backup → List Backup → List Backup
insert_by before b [] = b ∷ []
insert_by before b (c ∷ rest) = if before b c then b ∷ c ∷ rest else c ∷ insert_by before b rest

unfoldable pub sort_by : (Backup → Backup → Bool) → List Backup → List Backup
unfolding insert_by
sort_by before [] = []
sort_by before (b ∷ rest) = insert_by before b (sort_by before rest)

-- `ORDER BY timestamp ASC` through the index, which orders equal timestamps by their keys.
unfoldable pub is_older : Backup → Backup → Bool
is_older a b = leb a.timestamp b.timestamp

-- `ORDER BY timestamp DESC`
unfoldable pub is_newer : Backup → Backup → Bool
is_newer a b = ltb b.timestamp a.timestamp

-- `LIMIT`
abbrev pub take : ℕ → List Backup → List Backup
take zero bs = []
take (suc n) [] = []
take (suc n) (b ∷ bs) = b ∷ take n bs

unfoldable pub count : Storage → ℕ
count s = length s.backups

unfoldable pub total_size_bytes : Storage → ℕ
total_size_bytes s = total (λ b. b.size_bytes) s.backups

unfoldable pub get_by_id : ℕ → Storage → Option Backup
get_by_id key s = find (λ b. b.id == key) s.backups

unfoldable pub list : ℕ → Storage → List Backup
unfolding sort_by is_newer
list limit s = take limit (sort_by is_newer s.backups)

unfoldable pub get_latest : Storage → Option Backup
unfolding list
get_latest s = elim (list 1 s) [ [] ↦ none | b ∷ rest ↦ some b ]

-- The oldest backups, as many as are asked for.
unfoldable pub oldest : ℕ → List Backup → List Backup
unfolding sort_by is_older
oldest n bs = take n (sort_by is_older bs)

-- Whether the backup is not one of those, by its key.
unfoldable pub is_kept : List Backup → Backup → Bool
is_kept gone b = not (any (λ g. g.id == b.id) gone)

unfoldable pub prune : ℕ → Storage → Storage
unfolding count oldest is_kept
prune max_backups s = if leb (count s) max_backups then s else record s {
  backups = filter (is_kept (oldest (count s - max_backups) s.backups)) s.backups;
}

unfoldable pub row_of : ℕ → Snapshot → Backup
row_of key b = record {
  id = key;
  timestamp = b.timestamp;
  data_bytes = b.data_bytes;
  fund_manager_id = b.fund_manager_id;
  attestation = b.attestation;
  size_bytes = length b.data_bytes;
}

-- The key of the new row, and the storage afterwards.
unfoldable pub store : ℕ → Snapshot → Storage → ℕ × Storage
unfolding row_of prune
store max_backups b s =
    let key = suc s.last_id in
    (key, prune max_backups (record { backups = s.backups ++ row_of key b ∷ []; last_id = key }))
