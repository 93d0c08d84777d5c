-- ===== src/Agents/Failover.antt =====
-- guardian-network/src/sentry/agent-verification.ts: `attemptOrderedFailover`.
use attested_capital.Base.{
  ℕ, not, String, Bool, true, false, Option, none, some, List, [], ◌∷◌, if◌then◌else◌,
}
use attested_capital.Agents.{RegistrationRequest}

pub record BackupAgentEntry : Type 0 where
  pub id : String
  pub endpoint : String
  pub registered_at : ℕ
  pub last_heartbeat : ℕ
  pub heartbeat_streak : ℕ

-- What a backup answers: `/status`, and the request that `/api/backup/ready` returns. A call that
-- fails or throws is `false` or `none`.
pub record Backups : Type 0 where
  pub is_up : BackupAgentEntry → Bool
  pub ready : BackupAgentEntry → Option RegistrationRequest

pub data FailoverResult : Type 0 where
  contacted : BackupAgentEntry → FailoverResult
  no_backups : FailoverResult
  all_unresponsive : FailoverResult

-- `propose` registers or proposes the agent, and writes what it writes in either case.
module _ {S : Type 0} (backups : Backups) (propose : RegistrationRequest → S → Bool × S) where
  unfoldable pub contact : BackupAgentEntry → S → Bool × S
  contact b s =
      if not (backups.is_up b)
      then (false, s)
      else elim (backups.ready b) [ none ↦ (false, s) | some request ↦ propose request s ]

  abbrev pub next_unless : BackupAgentEntry → Bool × S → FailoverResult × S → FailoverResult × S
  next_unless b (true, t) rest = (contacted b, t)
  next_unless b (false, t) rest = rest

  unfoldable pub contact_each : List BackupAgentEntry → S → FailoverResult × S
  unfolding contact
  contact_each [] s = (all_unresponsive, s)
  contact_each (b ∷ rest) s = next_unless b (contact b s) (contact_each rest (contact b s).1)

  unfoldable pub attempt_ordered_failover : List BackupAgentEntry → S → FailoverResult × S
  unfolding contact_each
  attempt_ordered_failover [] s = (no_backups, s)
  attempt_ordered_failover (b ∷ rest) s = contact_each (b ∷ rest) s
