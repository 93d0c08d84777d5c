-- ===== src/Agents/Registration/Trusted.antt =====
-- guardian-network/src/sentry/registration-voting.ts: whom an executed proposal makes trusted.
use attested_capital.Base.{ℕ, ◌≡◌, String, false, some, none, arith}
use attested_capital.Agents.{RegistrationRequest, success}
use attested_capital.Agents.Attestations.{Host}
use attested_capital.Agents.Registry.{is_occupied, record_of, register_agent}
use attested_capital.Agents.Registration.{
  Node, registration_input, register_now, execute_data, trusting, add_agent_to_trust_store,
  execute_registration,
}
use attested_capital.Guardian.{ProposalStatus}
use attested_capital.Guardian.Proposals.{proposal_of, get_by_id, has_status}

-- The request that is read back from the payload of a proposal: without keys.
abbrev pub stripped : RegistrationRequest → RegistrationRequest
stripped request = record request {
  attestation = none;
  ed25519_pubkey = none;
  x25519_pubkey = none;
}

-- To execute a passed registration while no agent is active registers the agent and leaves the
-- trust store as it is, whatever keys the request had: the payload of the proposal has none.
pub execute_registration-untrusted :
    (host : Host) (created now : ℕ) (id : String) (request : RegistrationRequest) (node : Node)
    → host.parse (host.stringify request.tee_instance_id request.code_hash request.endpoint)
      ≡ some (stripped request)
    → get_by_id id node.store
      ≡ some (record (proposal_of created id (registration_input host request)) {
        status = ProposalStatus.passed;
      })
    → is_occupied node.registry ≡ false
    → execute_registration host now id node
      ≡ (success, record node { registry = some (record_of now request) })
unfolding execute_registration execute_data trusting proposal_of registration_input has_status
    register_now register_agent add_agent_to_trust_store
execute_registration-untrusted host created now id request node printed passed free =
    rw (passed, printed) (ground arith)
