-- ===== src/Agents/Calls.antt =====
-- The calls that change which agent is registered: those of RegistrationVoting, and the heartbeats
-- and health checks of AgentVerifier.
use attested_capital.Base.{
  ℕ, ◌-◌, ◌/◌, ◌≡◌, ◌∙◌, ap, refl, ltb, str_eq, not, String, Bool, true, false, Option, some, none,
  List, [], ◌∷◌, ◌&&◌, if◌then◌else◌, arith,
}
use attested_capital.Action.{Result, ok, err}
use attested_capital.Agents.{
  AgentRecord, RegistrationRequest, HeartbeatPayload, Reply, success, failure,
}
use attested_capital.Agents.Attestations.{Host, verify_if_sent}
use attested_capital.Agents.Registry.{
  Registry, is_occupied, register_agent, heartbeat, check_heartbeat, deactivate_agent,
  is_registered,
}
use attested_capital.Agents.Verification.{process_heartbeat, check_health, deactivate_current}
use attested_capital.Agents.Registration.{
  Node, register_now, admit, handle_registration_request, execute_data, execute_payload,
  execute_proposal, execute_registration, after_tally, resolve_registration, resolve_registrations,
  resolve_registration_proposals, check_request, registrations_due, proposed_as, registered_as,
}
use attested_capital.Guardian.{Proposal, Error, Store}
use attested_capital.Guardian.Proposals.{get_by_id}
use attested_capital.Guardian.Voting.{TallyResult, resolve}

-- The same agent with the same code, whether it is still active or not.
abbrev pub IsSameAgent : AgentRecord → Registry → Type 0
IsSameAgent agent r =
    (later : AgentRecord) × (r ≡ some later)
    × (later.tee_instance_id ≡ agent.tee_instance_id)
    × (later.code_hash ≡ agent.code_hash)

pub data Call : Type 0 where
  request : Bool → String → RegistrationRequest → Call
  execute : String → Call
  resolve_all : ℕ → Call
  beat : HeartbeatPayload → Call
  health : Call

module _ (host : Host) where
  unfoldable pub run : ℕ → Call → Node → Node
  run now (request auto_approve id r) node =
      (handle_registration_request host auto_approve now id r node).1
  run now (execute id) node = (execute_registration host now id node).1
  run now (resolve_all pool) node = (resolve_registration_proposals host now pool node).1
  run now (beat payload) node = record node {
    registry = (process_heartbeat host now payload node.registry).1;
  }
  run now health node = record node { registry = (check_health now node.registry).1 }

  module _ (agent : AgentRecord) (on : agent.is_active ≡ true) where
    occupied : (r : Registry) → r ≡ some agent → is_occupied r ≡ true
    occupied r same = ap is_occupied same ∙ on

    register_now-keeps :
        (now : ℕ) (r : RegistrationRequest) (node : Node)
        → node.registry ≡ some agent
        → (register_now now r node).1.registry ≡ some agent
    unfolding register_now register_agent
    register_now-keeps now r node same = ground (arith, occupied node.registry same)

    proposed_as-keeps :
        (x : Result Error String × Store) (node : Node)
        → node.registry ≡ some agent
        → (proposed_as x node).1.registry ≡ some agent
    proposed_as-keeps (ok id, store) node same = same
    proposed_as-keeps (err e, store) node same = same

    registered_as-keeps :
        (x : Reply × Node) → x.1.registry ≡ some agent → (registered_as x).1.registry ≡ some agent
    registered_as-keeps (success, node) same = same
    registered_as-keeps (failure e, node) same = same

    handle-keeps :
        (auto_approve : Bool) (now : ℕ) (id : String) (r : RegistrationRequest) (node : Node)
        → node.registry ≡ some agent
        → (handle_registration_request host auto_approve now id r node).1.registry ≡ some agent
    unfolding handle_registration_request admit check_request
    handle-keeps auto_approve now id r node same =
        rw (occupied node.registry same, handle_registration_request) same

    execute_data-keeps :
        (now : ℕ) (o : Option RegistrationRequest) (node : Node)
        → node.registry ≡ some agent
        → (execute_data now o node).1.registry ≡ some agent
    unfolding execute_data
    execute_data-keeps now none node same = same
    execute_data-keeps now (some r) node same = register_now-keeps now r node same

    execute_payload-keeps :
        (now : ℕ) (o : Option String) (node : Node)
        → node.registry ≡ some agent
        → (execute_payload host now o node).1.registry ≡ some agent
    unfolding execute_payload
    execute_payload-keeps now none node same = same
    execute_payload-keeps now (some text) node same =
        execute_data-keeps now (host.parse text) node same

    execute_proposal-keeps :
        (now : ℕ) (o : Option Proposal) (node : Node)
        → node.registry ≡ some agent
        → (execute_proposal host now o node).1.registry ≡ some agent
    unfolding execute_proposal
    execute_proposal-keeps now none node same = same
    execute_proposal-keeps now (some p) node same =
        ground (arith, execute_payload-keeps now p.payload node same)

    execute-keeps :
        (now : ℕ) (id : String) (node : Node)
        → node.registry ≡ some agent
        → (execute_registration host now id node).1.registry ≡ some agent
    unfolding execute_registration
    execute-keeps now id node same = execute_proposal-keeps now (get_by_id id node.store) node same

    after_tally-keeps :
        (now : ℕ) (id : String) (x : Result Error TallyResult) (node : Node)
        → node.registry ≡ some agent
        → (after_tally host now id x node).registry ≡ some agent
    unfolding after_tally
    after_tally-keeps now id (err e) node same = same
    after_tally-keeps now id (ok tally) node same = ground (arith, execute-keeps now id node same)

    resolve-keeps :
        (now pool : ℕ) (ps : List Proposal) (node : Node)
        → node.registry ≡ some agent
        → (resolve_registrations host now pool ps node).1.registry ≡ some agent
    unfolding resolve_registrations resolve_registration
    resolve-keeps now pool [] node same = same
    resolve-keeps now pool (p ∷ ps) node same =
        resolve-keeps now pool ps (resolve_registration host now pool p.id node) (
          after_tally-keeps now p.id (resolve p.id pool node.store).0
            (record node { store = (resolve p.id pool node.store).1 }) same)

    either :
        {A : Type 0} (b : Bool) (x y : A × Registry)
        → IsSameAgent agent x.1
        → IsSameAgent agent y.1
        → IsSameAgent agent (if b then x else y).1
    either true x y hx hy = hx
    either false x y hx hy = hy

    heartbeat-keeps :
        (payload : HeartbeatPayload) → IsSameAgent agent (heartbeat payload (some agent)).1
    unfolding heartbeat
    heartbeat-keeps payload =
        either (not (str_eq agent.tee_instance_id payload.tee_instance_id)) _ _
          (agent, refl, refl, refl)
          (either (not agent.is_active) _ _ (agent, refl, refl, refl) (_, refl, refl, refl))

    verified_beat-keeps :
        (payload : HeartbeatPayload) (x : Reply)
        → IsSameAgent agent
            (let r : Reply × Registry = elim x [
              | failure e ↦ (failure e, some agent)
              | success ↦ heartbeat payload (some agent)
            ] in
              r).1
    verified_beat-keeps payload (failure e) = (agent, refl, refl, refl)
    verified_beat-keeps payload success = heartbeat-keeps payload

    beat-keeps :
        (now : ℕ) (payload : HeartbeatPayload)
        → IsSameAgent agent (process_heartbeat host now payload (some agent)).1
    unfolding process_heartbeat
    beat-keeps now payload =
        either (not (is_registered payload.tee_instance_id (some agent))) _ _
          (agent, refl, refl, refl)
          (verified_beat-keeps payload (verify_if_sent host now 120 payload.attestation))

    deactivated-keeps : IsSameAgent agent (deactivate_current (some agent))
    unfolding deactivate_current deactivate_agent
    deactivated-keeps =
        either (not (str_eq agent.tee_instance_id agent.tee_instance_id)) _ _
          (agent, refl, refl, refl) (_, refl, refl, refl)

    health-keeps : (now : ℕ) → IsSameAgent agent (check_health now (some agent)).1
    unfolding check_health check_heartbeat
    health-keeps now =
        either (ltb 300 ((now - agent.last_heartbeat) / 1000) && agent.is_active) _ _
          deactivated-keeps (agent, refl, refl, refl)

    -- While an agent is active, no request, no executed proposal, no resolution of proposals, no
    -- heartbeat and no health check puts another agent or other code in its place in the registry.
    pub run-keeps_agent :
        (now : ℕ) (call : Call) (node : Node)
        → node.registry ≡ some agent
        → IsSameAgent agent (run now call node).registry
    unfolding run resolve_registration_proposals
    run-keeps_agent now (request auto_approve id r) node same =
        (agent, handle-keeps auto_approve now id r node same, refl, refl)
    run-keeps_agent now (execute id) node same = (agent, execute-keeps now id node same, refl, refl)
    run-keeps_agent now (resolve_all pool) node same =
        (agent, resolve-keeps now pool (registrations_due now node) node same, refl, refl)
    run-keeps_agent now (beat payload) node same = rw same (beat-keeps now payload)
    run-keeps_agent now health node same = rw same (health-keeps now)
