-- ===== src/Agents.antt =====
-- guardian-network/src/shared/{registry-types,registry-client,trust-store,attestation}.ts and
-- guardian-network/src/sentry/{agent-verification,registration-voting}.ts: which agent runs the
-- fund, and whom a guardian trusts. What the code calls of others is the record Host.
pub mod Attestations
pub mod Registry
pub mod TrustStore
pub mod Verification
pub mod Registration
pub mod Failover
pub mod Calls
mod Examples
use attested_capital.Base.{ℕ, String, Bool, Option, List}

-- A Date is its milliseconds.
pub record AgentRecord : Type 0 where
  pub tee_instance_id : String
  pub code_hash : String
  pub is_active : Bool
  pub last_heartbeat : ℕ
  pub registered_at : ℕ
  pub registered_by : String

-- An `attestation` that is missing or empty is `none`.
pub record RegistrationRequest : Type 0 where
  pub tee_instance_id : String
  pub code_hash : String
  pub attestation : Option String
  pub endpoint : String
  pub ed25519_pubkey : Option String
  pub x25519_pubkey : Option String

pub record HeartbeatPayload : Type 0 where
  pub tee_instance_id : String
  pub attestation : Option String
  pub timestamp : ℕ

pub record HeartbeatCheck : Type 0 where
  pub is_active : Bool
  pub seconds_since_heartbeat : ℕ
  pub should_deactivate : Bool

pub record Attestation : Type 0 where
  pub tee_instance_id : String
  pub code_hash : String
  pub timestamp : ℕ
  pub nonce : String
  pub signature : String

-- Why a request is refused.
pub data Refusal : Type 0 where
  already_active no_agent not_active not_registered tee_mismatch bad_format too_old : Refusal
  hash_mismatch invalid_signature code_not_approved : Refusal
  proposal_not_found not_passed wrong_type no_payload key_taken : Refusal

pub data Reply : Type 0 where
  success : Reply
  failure : Refusal → Reply
