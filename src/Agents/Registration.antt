-- ===== src/Agents/Registration.antt =====
-- guardian-network/src/sentry/registration-voting.ts: the class `RegistrationVoting`.
pub mod Decisions
pub mod Trusted
use attested_capital.Base.{
  ℕ, leb, String, Bool, true, false, Option, none, some, List, [], ◌∷◌, ◌&&◌, suc, filter,
  if◌then◌else◌,
}
use attested_capital.Action.{Result, ok, err}
use attested_capital.Agents.{
  RegistrationRequest, Refusal, Reply, success, failure, already_active, code_not_approved,
  proposal_not_found, not_passed, wrong_type, no_payload, key_taken, bad_format,
}
use attested_capital.Agents.Attestations.{Host, verify_if_sent}
use attested_capital.Agents.Registry.{Registry, is_occupied, register_agent}
use attested_capital.Agents.TrustStore.{Trust, TrustedPeer, add_peer}
use attested_capital.Agents.Verification.{is_approved}
use attested_capital.Guardian.{ProposalType, ProposalStatus, Proposal, Store, Error}
use attested_capital.Guardian.Clock.{millis}
use attested_capital.Guardian.Proposals.{
  ProposalInput, create, get_by_id, has_status, list_by_status,
}
use attested_capital.Guardian.Voting.{TallyResult, resolve}

-- What the class works on: the registry, the trust store if there is one, the tables of
-- governance and the approved code.
pub record Node : Type 0 where
  pub registry : Registry
  pub trust : Option Trust
  pub store : Store
  pub approved : List String

pub data Outcome : Type 0 where
  registered : Outcome
  proposed : String → Outcome
  refused : Refusal → Outcome

abbrev pub peer_of : ℕ → RegistrationRequest → String → String → TrustedPeer
peer_of now request ed25519 x25519 = record {
  id = request.tee_instance_id;
  ed25519_pubkey = ed25519;
  x25519_pubkey = x25519;
  attested_at = now;
  last_verified = now;
  attestation_quote = none;
  endpoint = none;
  is_sentry = false;
}

-- Only with both keys.
unfoldable pub trusting :
    ℕ → RegistrationRequest → Option String → Option String → Option Trust → Option Trust
trusting now request ed25519 x25519 none = none
trusting now request none x25519 (some trust) = some trust
trusting now request (some ed25519) none (some trust) = some trust
trusting now request (some ed25519) (some x25519) (some trust) =
    some (add_peer (peer_of now request ed25519 x25519) trust)

unfoldable pub add_agent_to_trust_store : ℕ → RegistrationRequest → Node → Node
unfolding trusting
add_agent_to_trust_store now request node = record node {
  trust = trusting now request request.ed25519_pubkey request.x25519_pubkey node.trust;
}

-- `registerAgent`, and the trust store after a success.
unfoldable pub register_now : ℕ → RegistrationRequest → Node → Reply × Node
unfolding register_agent add_agent_to_trust_store
register_now now request node =
    let (reply, registry) = register_agent now request node.registry in
    let written = record node { registry = registry } in
    elim reply [
      | failure e ↦ (failure e, written)
      | success ↦ (success, add_agent_to_trust_store now request written)
    ]

unfoldable pub registration_input : Host → RegistrationRequest → ProposalInput
registration_input host request = record {
  type = ProposalType.agent_registration;
  proposer = request.tee_instance_id;
  description = host.describe request;
  payload = some (host.stringify request.tee_instance_id request.code_hash request.endpoint);
  threshold_pct = none;
  deadline_hours = none;
  fund_id = none;
}

abbrev pub proposed_as : Result Error String × Store → Node → Outcome × Node
proposed_as (ok id, store) node = (proposed id, record node { store = store })
proposed_as (err e, store) node = (refused key_taken, record node { store = store })

abbrev pub registered_as : Reply × Node → Outcome × Node
registered_as (success, node) = (registered, node)
registered_as (failure e, node) = (refused e, node)

-- The last step: `id` is the random key of the proposal.
unfoldable pub admit : Host → Bool → ℕ → String → RegistrationRequest → Node → Outcome × Node
unfolding register_now registration_input
admit host auto_approve now id request node =
    if auto_approve
    then registered_as (register_now now request node)
    else proposed_as (create now id (registration_input host request) node.store) node

unfoldable pub check_request : Host → ℕ → RegistrationRequest → Node → Reply
unfolding verify_if_sent is_approved
check_request host now request node =
    if is_occupied node.registry
    then failure already_active
    else elim (verify_if_sent host now 300 request.attestation) [
      | failure e ↦ failure e
      | success ↦
          if is_approved request.code_hash node.approved then success else failure code_not_approved
    ]

unfoldable pub handle_registration_request :
    Host → Bool → ℕ → String → RegistrationRequest → Node → Outcome × Node
unfolding check_request admit
handle_registration_request host auto_approve now id request node =
    elim (check_request host now request node) [
      | failure e ↦ (refused e, node)
      | success ↦ admit host auto_approve now id request node
    ]

abbrev pub is_registration : ProposalType → Bool
is_registration ProposalType.agent_registration = true
is_registration _ = false

-- A text that is no JSON throws; nothing is written then.
unfoldable pub execute_data : ℕ → Option RegistrationRequest → Node → Reply × Node
unfolding register_now
execute_data now none node = (failure bad_format, node)
execute_data now (some request) node = register_now now request node

unfoldable pub execute_payload : Host → ℕ → Option String → Node → Reply × Node
unfolding execute_data
execute_payload host now none node = (failure no_payload, node)
execute_payload host now (some text) node = execute_data now (host.parse text) node

unfoldable pub execute_proposal : Host → ℕ → Option Proposal → Node → Reply × Node
unfolding execute_payload
execute_proposal host now none node = (failure proposal_not_found, node)
execute_proposal host now (some p) node =
    if has_status ProposalStatus.passed p
    then if is_registration p.type
      then execute_payload host now p.payload node
      else (failure wrong_type, node)
    else (failure not_passed, node)

unfoldable pub execute_registration : Host → ℕ → String → Node → Reply × Node
unfolding execute_proposal
execute_registration host now id node = execute_proposal host now (get_by_id id node.store) node

-- The tables after the tally, which throws where the proposal is gone; then the execution.
unfoldable pub after_tally : Host → ℕ → String → Result Error TallyResult → Node → Node
unfolding execute_registration
after_tally host now id (err e) node = node
after_tally host now id (ok tally) node =
    if tally.passed then (execute_registration host now id node).1 else node

unfoldable pub resolve_registration : Host → ℕ → ℕ → String → Node → Node
unfolding after_tally
resolve_registration host now pool id node =
    let (tallied, store) = resolve id pool node.store in
    after_tally host now id tallied (record node { store = store })

unfoldable pub resolve_registrations : Host → ℕ → ℕ → List Proposal → Node → ℕ × Node
unfolding resolve_registration
resolve_registrations host now pool [] node = (0, node)
resolve_registrations host now pool (p ∷ rest) node =
    let (resolved, after) =
      resolve_registrations host now pool rest (resolve_registration host now pool p.id node) in
    (suc resolved, after)

-- The active registrations whose deadline has come; `now` is read once.
unfoldable pub registrations_due : ℕ → Node → List Proposal
registrations_due now node =
    filter (λ p. is_registration p.type && leb (millis p.deadline) now)
      (list_by_status ProposalStatus.active node.store)

unfoldable pub resolve_registration_proposals : Host → ℕ → ℕ → Node → ℕ × Node
unfolding resolve_registrations registrations_due
resolve_registration_proposals host now pool node =
    resolve_registrations host now pool (registrations_due now node) node
