-- ===== src/Guardian.antt =====
-- guardian-network/src/shared/types.ts and guardian-network/database/schema.sql: the tables of a
-- guardian that governance reads and writes. Power and values are in cents.
pub mod Clock
pub mod Proposals
pub mod Delegations
pub mod Voting
pub mod Staking
pub mod Jobs
pub mod Health
pub mod Peers
mod Examples
use attested_capital.Base.{ℕ, String, Bool, Option, List, []}
use attested_capital.Action.{Action}
use Clock.{Stamp}

pub data ProposalType : Type 0 where
  code_update rpc_add rpc_remove strategy_change anomaly_resolution agent_registration :
      ProposalType
  vault_key_rotation trading_limits emergency_pause emergency_unpause : ProposalType
  tee_measurement : ProposalType

pub data ProposalStatus : Type 0 where
  active passed failed expired : ProposalStatus

pub record Proposal : Type 0 where
  pub id : String
  pub type : ProposalType
  pub proposer : String
  pub description : String
  -- The JSON text of the proposal's own fields.
  pub payload : Option String
  pub fund_id : Option String
  pub status : ProposalStatus
  pub threshold_pct : ℕ
  pub deadline : Stamp

pub record Vote : Type 0 where
  pub id : ℕ
  pub proposal_id : String
  pub voter_address : String
  pub approve : Bool
  pub voting_power : ℕ
  pub attestation : Option String

pub record Delegation : Type 0 where
  pub id : ℕ
  pub delegator_tg_id : String
  pub sentry_address : String
  pub nft_token_ids : List ℕ
  pub total_value : ℕ
  pub signature : String
  pub expires_at : Stamp
  pub is_active : Bool

pub record Store : Type 0 where
  pub proposals : List Proposal
  pub votes : List Vote
  pub delegations : List Delegation

pub data Error : Type 0 where
  proposal_not_found not_active deadline_passed no_voting_power constraint : Error

abbrev pub Guarded : Type 0 → Type 0
Guarded A = Action Store Error A

abbrev pub empty : Store
empty = record { proposals = []; votes = []; delegations = [] }
