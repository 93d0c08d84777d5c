-- ===== src/Agents/Registry.antt =====
-- guardian-network/src/shared/registry-client.ts: the class `LocalRegistryClient`. Its state is the
-- agent that was registered last.
use attested_capital.Base.{
  ℕ, ◌-◌, ◌/◌, ltb, str_eq, not, String, Bool, true, false, Option, none, some, ◌&&◌, if◌then◌else◌,
}
use attested_capital.Agents.{
  AgentRecord, RegistrationRequest, HeartbeatPayload, HeartbeatCheck, Reply, success, failure,
  already_active, no_agent, not_active, tee_mismatch,
}

abbrev pub Registry : Type 0
Registry = Option AgentRecord

abbrev pub is_occupied : Registry → Bool
is_occupied none = false
is_occupied (some agent) = agent.is_active

abbrev pub record_of : ℕ → RegistrationRequest → AgentRecord
record_of now request = record {
  tee_instance_id = request.tee_instance_id;
  code_hash = request.code_hash;
  is_active = true;
  last_heartbeat = now;
  registered_at = now;
  registered_by = "local";
}

unfoldable pub register_agent : ℕ → RegistrationRequest → Registry → Reply × Registry
register_agent now request registry =
    if is_occupied registry
    then (failure already_active, registry)
    else (success, some (record_of now request))

unfoldable pub heartbeat : HeartbeatPayload → Registry → Reply × Registry
heartbeat payload none = (failure no_agent, none)
heartbeat payload (some agent) =
    if not (str_eq agent.tee_instance_id payload.tee_instance_id)
    then (failure tee_mismatch, some agent)
    else if not agent.is_active
    then (failure not_active, some agent)
    else (success, some (record agent { last_heartbeat = payload.timestamp }))

-- HEARTBEAT_TIMEOUT_SECONDS
abbrev pub heartbeat_timeout_seconds : ℕ
heartbeat_timeout_seconds = 300

-- A heartbeat of the future is no seconds old; the code has a negative number there.
unfoldable pub check_heartbeat : ℕ → Registry → Option HeartbeatCheck
check_heartbeat now none = none
check_heartbeat now (some agent) =
    let seconds = (now - agent.last_heartbeat) / 1000 in
    some (record {
      is_active = agent.is_active;
      seconds_since_heartbeat = seconds;
      should_deactivate = ltb heartbeat_timeout_seconds seconds;
    })

unfoldable pub deactivate_agent : String → Registry → Reply × Registry
deactivate_agent tee_instance_id none = (failure no_agent, none)
deactivate_agent tee_instance_id (some agent) =
    if not (str_eq agent.tee_instance_id tee_instance_id)
    then (failure tee_mismatch, some agent)
    else (success, some (record agent { is_active = false }))

unfoldable pub is_registered : String → Registry → Bool
is_registered tee_instance_id none = false
is_registered tee_instance_id (some agent) =
    str_eq agent.tee_instance_id tee_instance_id && agent.is_active
