-- ===== src/Agents/Registration/Decisions.antt =====
-- guardian-network/src/sentry/registration-voting.ts: which requests are admitted.
use attested_capital.Base.{ℕ, ◌≡◌, ◌↔◌, String, true, false, arith}
use attested_capital.Agents.{RegistrationRequest, success}
use attested_capital.Agents.Attestations.{Host, verify_if_sent}
use attested_capital.Agents.Registry.{is_occupied, register_agent}
use attested_capital.Agents.Verification.{is_approved}
use attested_capital.Agents.Registration.{
  Node, registered, check_request, admit, handle_registration_request, register_now,
}

module _ (host : Host) (now : ℕ) (id : String) (request : RegistrationRequest) (node : Node) where
  -- What a request has to meet.
  abbrev pub IsAdmissible : Type 0
  IsAdmissible =
      (is_occupied node.registry ≡ false)
      × (verify_if_sent host now 300 request.attestation ≡ success)
      × (is_approved request.code_hash node.approved ≡ true)

  checked : check_request host now request node ≡ success ↔ IsAdmissible
  unfolding check_request
  checked = ((λ h. ground arith), (λ h. ground arith))

  -- Where requests are approved at once, an agent is registered exactly where no agent is active,
  -- the attestation, if one is sent, verifies, and the code that the request claims is approved;
  -- the agent and the code that are attested do not matter.
  pub handle_registration_request-registers :
      ((handle_registration_request host true now id request node).0 ≡ registered) ↔ IsAdmissible
  unfolding handle_registration_request admit register_now register_agent
  handle_registration_request-registers =
      ((λ h. ground (arith, checked.0)), (λ h. ground (arith, checked.1)))
