-- ===== src/Agents/Examples.antt =====
-- Registrations at a guardian with a toy host, whose attestations are texts.
use attested_capital.Base.{◌≡◌, ◌↔◌, refl, true, some, none, [], ◌∷◌}
use attested_capital.Envelope.Nonces.{new_tracker}
use attested_capital.Guardian.{Store, ProposalStatus}
use attested_capital.Guardian.Proposals.{proposal_of, get_by_id}
use attested_capital.Agents.{AgentRecord, RegistrationRequest, success}
use attested_capital.Agents.Attestations.{Host}
use attested_capital.Agents.Registry.{record_of}
use attested_capital.Agents.Registration.{
  Node, registered, registration_input, handle_registration_request, execute_registration,
}
use attested_capital.Agents.Registration.Decisions.{
  IsAdmissible, handle_registration_request-registers,
}
use attested_capital.Agents.Registration.Trusted.{execute_registration-untrusted}
use attested_capital.Agents.Calls.{IsSameAgent, health, run, run-keeps_agent}

abbrev toy : Host
toy = record {
  deserialize = λ text. some (record {
    tee_instance_id = "tee-9";
    code_hash = text;
    timestamp = 0;
    nonce = "n";
    signature = "s";
  });
  digest = λ secret a. "s";
  describe = λ request. "Register agent";
  stringify = λ tee_instance_id code_hash endpoint. "{}";
  parse = λ text. some (record {
    tee_instance_id = "tee-1";
    code_hash = "code-1";
    attestation = none;
    endpoint = "https://agent";
    ed25519_pubkey = none;
    x25519_pubkey = none;
  });
}

abbrev first_agent : RegistrationRequest
first_agent = record {
  tee_instance_id = "tee-1";
  code_hash = "code-1";
  attestation = some "code-2";
  endpoint = "https://agent";
  ed25519_pubkey = some "ed";
  x25519_pubkey = some "x";
}

abbrev no_rows : Store
no_rows = record { proposals = []; votes = []; delegations = [] }

abbrev free_node : Node
free_node = record {
  registry = none;
  trust = some (record { peers = []; nonces = new_tracker });
  store = no_rows;
  approved = "code-1" ∷ [];
}

-- The attestation is of other code than the request claims.
handle_registration_request-registers_example :
    ((handle_registration_request toy true 1000 "p1" first_agent free_node).0 ≡ registered)
    ↔ IsAdmissible toy 1000 "p1" first_agent free_node
handle_registration_request-registers_example =
    handle_registration_request-registers toy 1000 "p1" first_agent free_node

registers_test :
    (handle_registration_request toy true 1000 "p1" first_agent free_node).0 ≡ registered
unfolding handle_registration_request
registers_test = refl

abbrev passed_node : Node
unfolding proposal_of registration_input
passed_node = record free_node {
  store = record no_rows {
    proposals =
        record (proposal_of 0 "p1" (registration_input toy first_agent)) {
          status = ProposalStatus.passed;
        }
        ∷ [];
  };
}

execute_registration-untrusted_example :
    execute_registration toy 9000 "p1" passed_node
    ≡ (success, record passed_node { registry = some (record_of 9000 first_agent) })
unfolding get_by_id passed_node
execute_registration-untrusted_example =
    execute_registration-untrusted toy 0 9000 "p1" first_agent passed_node refl refl refl

abbrev silent_agent : AgentRecord
silent_agent = record_of 1000 first_agent

-- The health check, after ten minutes without a heartbeat.
run-keeps_agent_example :
    IsSameAgent silent_agent
      (run toy 600000 health (record free_node { registry = some silent_agent })).registry
run-keeps_agent_example =
    run-keeps_agent toy silent_agent refl 600000 health
      (record free_node { registry = some silent_agent }) refl
