-- ===== src/Guardian/Peers.antt =====
-- guardian-network/src/guardian/peers.ts: the peers that a guardian knows, over the table peers of
-- guardian-network/database/schema.sql. A time is the second that `datetime('now')` writes.
pub mod Pruning
use attested_capital.Base.{
  ℕ, ◌+◌, ◌*◌, ltb, leb, str_eq, not, String, Bool, true, false, Option, none, some, List, [], ◌∷◌,
  ◌++◌, any, find, filter, length, update, if◌then◌else◌,
}

-- `is_sentry` is 0 or 1.
pub record Peer : Type 0 where
  pub address : String
  pub endpoint : String
  pub last_seen : ℕ
  pub is_sentry : Bool
  pub metadata : Option String

-- The argument of `upsert`.
pub record PeerInput : Type 0 where
  pub address : String
  pub endpoint : String
  pub is_sentry : Option Bool
  pub metadata : Option String

abbrev pub has_address : String → Peer → Bool
has_address address p = str_eq p.address address

-- `peer.isSentry ? 1 : 0`
abbrev pub sentry_flag : Option Bool → Bool
sentry_flag none = false
sentry_flag (some is) = is

unfoldable pub get : String → List Peer → Option Peer
get address rows = find (has_address address) rows

abbrev pub renewed : ℕ → PeerInput → Peer → Peer
renewed now input p = record p {
  endpoint = input.endpoint;
  last_seen = now;
  is_sentry = sentry_flag input.is_sentry;
  metadata = input.metadata;
}

abbrev pub inserted : ℕ → PeerInput → Peer
inserted now input = record {
  address = input.address;
  endpoint = input.endpoint;
  last_seen = now;
  is_sentry = sentry_flag input.is_sentry;
  metadata = input.metadata;
}

-- Returns whether the row is new.
unfoldable pub upsert : ℕ → PeerInput → List Peer → Bool × List Peer
unfolding get
upsert now input rows = elim (get input.address rows) [
  | some existing ↦ (false, update (has_address input.address) (renewed now input) rows)
  | none ↦ (true, rows ++ inserted now input ∷ [])
]

unfoldable pub heartbeat : ℕ → String → List Peer → Bool × List Peer
heartbeat now address rows = (
  any (has_address address) rows,
  update (has_address address) (λ p. record p { last_seen = now }) rows,
)

-- `ORDER BY last_seen DESC`
unfoldable pub insert_peer : Peer → List Peer → List Peer
insert_peer p [] = p ∷ []
insert_peer p (q ∷ rest) =
    if leb q.last_seen p.last_seen then p ∷ q ∷ rest else q ∷ insert_peer p rest

unfoldable pub by_last_seen : List Peer → List Peer
unfolding insert_peer
by_last_seen [] = []
by_last_seen (p ∷ rest) = insert_peer p (by_last_seen rest)

unfoldable pub list_all : Bool → List Peer → List Peer
unfolding by_last_seen
list_all sentry_only rows =
    if sentry_only then by_last_seen (filter (λ p. p.is_sentry) rows) else by_last_seen rows

-- `last_seen >= datetime('now', '-' || ? || ' minutes')`
abbrev pub is_active : ℕ → ℕ → Peer → Bool
is_active now stale_minutes p = leb now (p.last_seen + stale_minutes * 60)

unfoldable pub list_active : ℕ → ℕ → List Peer → List Peer
unfolding by_last_seen
list_active now stale_minutes rows = by_last_seen (filter (is_active now stale_minutes) rows)

unfoldable pub remove : String → List Peer → Bool × List Peer
remove address rows =
    (any (has_address address) rows, filter (λ p. not (has_address address p)) rows)

-- `last_seen < datetime('now', '-' || ? || ' minutes')`
abbrev pub is_outdated : ℕ → ℕ → Peer → Bool
is_outdated now stale_minutes p = ltb (p.last_seen + stale_minutes * 60) now

-- Returns the number of rows that are removed.
unfoldable pub prune_stale : ℕ → ℕ → List Peer → ℕ × List Peer
prune_stale now stale_minutes rows = (
  length (filter (is_outdated now stale_minutes) rows),
  filter (λ p. not (is_outdated now stale_minutes p)) rows,
)

pub record PeerStats : Type 0 where
  pub total : ℕ
  pub active : ℕ
  pub sentries : ℕ

unfoldable pub stats : ℕ → ℕ → List Peer → PeerStats
stats now stale_minutes rows = record {
  total = length rows;
  active = length (filter (is_active now stale_minutes) rows);
  sentries = length (filter (λ p. p.is_sentry) rows);
}
