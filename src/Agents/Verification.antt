-- ===== src/Agents/Verification.antt =====
-- guardian-network/src/sentry/agent-verification.ts: the set of approved code, and the class
-- `AgentVerifier`.
use attested_capital.Base.{
  ℕ, str_eq, not, String, Bool, true, false, Option, none, some, List, [], ◌∷◌, ◌&&◌, any, filter,
  ◌++◌, if◌then◌else◌,
}
use attested_capital.Agents.{
  HeartbeatPayload, HeartbeatCheck, Attestation, Reply, success, failure, no_agent, not_active,
  not_registered, tee_mismatch, bad_format, code_not_approved,
}
use attested_capital.Agents.Attestations.{Host, verify_attestation, verify_if_sent, max_age}
use attested_capital.Agents.Registry.{
  Registry, heartbeat, check_heartbeat, deactivate_agent, is_registered,
}

-- A Set of hashes.
unfoldable pub approve : String → List String → List String
approve hash hashes = if any (λ h. str_eq h hash) hashes then hashes else hashes ++ hash ∷ []

unfoldable pub revoke : String → List String → List String
revoke hash = filter (λ h. not (str_eq h hash))

-- Of an empty set every hash is approved.
unfoldable pub is_approved : String → List String → Bool
is_approved hash [] = true
is_approved hash (h ∷ hashes) = any (λ k. str_eq k hash) (h ∷ hashes)

unfoldable pub verify_attested : List String → Reply → Attestation → Reply
unfolding is_approved
verify_attested approved (failure e) a = failure e
verify_attested approved success a =
    if is_approved a.code_hash approved then success else failure code_not_approved

unfoldable pub verify_decoded_agent : Host → ℕ → List String → Option Attestation → Reply
unfolding verify_attestation verify_attested
verify_decoded_agent host now approved none = failure bad_format
verify_decoded_agent host now approved (some a) =
    verify_attested approved (verify_attestation host now (max_age 300) a) a

-- The reply; the code adds the record of the agent, as the registry has it.
unfoldable pub verify_agent : Host → ℕ → List String → String → String → Registry → Reply
unfolding verify_decoded_agent
verify_agent host now approved tee_instance_id encoded none = failure no_agent
verify_agent host now approved tee_instance_id encoded (some agent) =
    if not agent.is_active
    then failure not_active
    else if not (str_eq agent.tee_instance_id tee_instance_id)
    then failure tee_mismatch
    else verify_decoded_agent host now approved (host.deserialize encoded)

unfoldable pub process_heartbeat : Host → ℕ → HeartbeatPayload → Registry → Reply × Registry
unfolding is_registered verify_if_sent heartbeat
process_heartbeat host now payload registry =
    if not (is_registered payload.tee_instance_id registry)
    then (failure not_registered, registry)
    else elim (verify_if_sent host now 120 payload.attestation) [
      | failure e ↦ (failure e, registry)
      | success ↦ heartbeat payload registry
    ]

pub record Health : Type 0 where
  pub healthy : Bool
  pub checked : Option HeartbeatCheck
  pub deactivated : Bool

unfoldable pub deactivate_current : Registry → Registry
unfolding deactivate_agent
deactivate_current none = none
deactivate_current (some agent) = (deactivate_agent agent.tee_instance_id (some agent)).1

-- Where there is a check there is an agent.
unfoldable pub check_health : ℕ → Registry → Health × Registry
unfolding check_heartbeat deactivate_current
check_health now registry = elim (check_heartbeat now registry) [
  | none ↦ (record { healthy = false; checked = none; deactivated = false }, registry)
  | some checked ↦
      if checked.should_deactivate && checked.is_active
      then (
        record { healthy = false; checked = some checked; deactivated = true },
        deactivate_current registry,
      )
      else (
        record {
          healthy = checked.is_active && not checked.should_deactivate;
          checked = some checked;
          deactivated = false;
        },
        registry,
      )
]
