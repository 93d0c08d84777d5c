-- ===== src/BackupAgents.antt =====
-- panthers-fund/src/database/ledger.ts: the table backup_agents of panthers-fund/src/database/schema.sql,
-- which no other method touches. Times are in milliseconds.
pub mod Ranks
mod Examples
use attested_capital.Base.{
  ℕ, suc, ◌+◌, ltb, leb, ◌==◌, str_eq, not, ◌&&◌, ◌||◌, String, Bool, Option, none, some, List, [],
  ◌∷◌, ◌++◌, any, find, filter, length, update, if◌then◌else◌,
}

-- `status` is 'active' in every row that is written.
pub record BackupAgent : Type 0 where
  pub id : String
  pub endpoint : String
  pub registered_at : ℕ
  pub last_heartbeat : ℕ
  pub heartbeat_streak : ℕ

abbrev pub has_id : String → BackupAgent → Bool
has_id id a = str_eq a.id id

-- `heartbeat_streak > ? OR (heartbeat_streak = ? AND registered_at <= ?)`
abbrev pub is_ahead : BackupAgent → BackupAgent → Bool
is_ahead a b =
    ltb b.heartbeat_streak a.heartbeat_streak
    || (a.heartbeat_streak == b.heartbeat_streak && leb a.registered_at b.registered_at)

-- The number of rows that are not behind; of a key that is missing the selects are NULL.
unfoldable pub position : String → List BackupAgent → ℕ
position id rows = elim (find (has_id id) rows) [
  | none ↦ 0
  | some agent ↦ length (filter (λ a. is_ahead a agent) rows)
]

unfoldable pub upsert : ℕ → String → String → List BackupAgent → List BackupAgent
upsert now id endpoint rows =
    if any (has_id id) rows
    then update (has_id id) (λ a. record a { endpoint = endpoint; last_heartbeat = now }) rows
    else rows
      ++ record {
        id = id;
        endpoint = endpoint;
        registered_at = now;
        last_heartbeat = now;
        heartbeat_streak = 0;
      }
        ∷ []

-- Returns the position of the agent by priority.
unfoldable pub register_backup_agent : ℕ → String → String → List BackupAgent → ℕ × List BackupAgent
unfolding upsert position
register_backup_agent now id endpoint rows =
    let written = upsert now id endpoint rows in (position id written, written)

-- GRACE_MS
abbrev pub grace_ms : ℕ
grace_ms = 2100000

abbrev pub endpoint_or : Option String → String → String
endpoint_or none old = old
endpoint_or (some endpoint) old = endpoint

-- `now - last_heartbeat <= GRACE_MS`
unfoldable pub beaten : ℕ → Option String → BackupAgent → BackupAgent
beaten now endpoint a = record a {
  last_heartbeat = now;
  endpoint = endpoint_or endpoint a.endpoint;
  heartbeat_streak = if leb now (a.last_heartbeat + grace_ms) then suc a.heartbeat_streak else 0;
}

unfoldable pub backup_agent_heartbeat :
    ℕ → String → Option String → List BackupAgent → Bool × List BackupAgent
unfolding beaten
backup_agent_heartbeat now id endpoint rows =
    (any (has_id id) rows, update (has_id id) (beaten now endpoint) rows)

-- `ORDER BY heartbeat_streak DESC, registered_at ASC`
abbrev pub is_prior : BackupAgent → BackupAgent → Bool
is_prior a b =
    ltb b.heartbeat_streak a.heartbeat_streak
    || (a.heartbeat_streak == b.heartbeat_streak && leb a.registered_at b.registered_at)

unfoldable pub insert_agent : BackupAgent → List BackupAgent → List BackupAgent
insert_agent a [] = a ∷ []
insert_agent a (b ∷ rest) = if is_prior a b then a ∷ b ∷ rest else b ∷ insert_agent a rest

unfoldable pub get_backup_agents : List BackupAgent → List BackupAgent
unfolding insert_agent
get_backup_agents [] = []
get_backup_agents (a ∷ rest) = insert_agent a (get_backup_agents rest)

-- `last_heartbeat > now - maxStaleMs`
unfoldable pub get_fresh_backup_agents : ℕ → ℕ → List BackupAgent → List BackupAgent
unfolding get_backup_agents
get_fresh_backup_agents now max_stale_ms rows =
    get_backup_agents (filter (λ a. ltb now (a.last_heartbeat + max_stale_ms)) rows)

unfoldable pub remove_backup_agent : String → List BackupAgent → Bool × List BackupAgent
remove_backup_agent id rows = (any (has_id id) rows, filter (λ a. not (has_id id a)) rows)

-- `last_heartbeat < now - maxStaleMs`
unfoldable pub is_stale : ℕ → ℕ → BackupAgent → Bool
is_stale now max_stale_ms a = ltb (a.last_heartbeat + max_stale_ms) now

unfoldable pub prune_stale_backup_agents : ℕ → ℕ → List BackupAgent → ℕ × List BackupAgent
unfolding is_stale
prune_stale_backup_agents now max_stale_ms rows = (
  length (filter (is_stale now max_stale_ms) rows),
  filter (λ a. not (is_stale now max_stale_ms a)) rows,
)
