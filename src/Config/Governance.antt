-- ===== src/Config/Governance.antt =====
-- guardian-network/src/sentry/config-governance.ts: a passed proposal is pushed to the fund.
use Prim.Native.String.{String}
use attested_capital.Base.{Bool, true, false, Option, none, some, if◌then◌else◌}
use attested_capital.Guardian.{
  ProposalType, Proposal, Store, ProposalStatus, code_update, rpc_add, rpc_remove, strategy_change,
  anomaly_resolution, agent_registration, vault_key_rotation, trading_limits, emergency_pause,
  emergency_unpause, tee_measurement,
}
use attested_capital.Guardian.Proposals.{get_by_id}
use attested_capital.Config.{
  Payload, ConfigRequest, Fund, ConfigResponse, done, Route, handle_config_request, text_or,
}

unfoldable pub config_endpoints : ProposalType → Option Route
config_endpoints code_update = some Route.code_update
config_endpoints rpc_add = some Route.rpc
config_endpoints rpc_remove = some Route.rpc
config_endpoints strategy_change = some Route.strategy
config_endpoints anomaly_resolution = none
config_endpoints agent_registration = none
config_endpoints vault_key_rotation = none
config_endpoints trading_limits = some Route.trading_limits
config_endpoints emergency_pause = some Route.pause
config_endpoints emergency_unpause = some Route.pause
config_endpoints tee_measurement = some Route.tee_measurements

abbrev pub type_name : ProposalType → String
type_name code_update = "code_update"
type_name rpc_add = "rpc_add"
type_name rpc_remove = "rpc_remove"
type_name strategy_change = "strategy_change"
type_name anomaly_resolution = "anomaly_resolution"
type_name agent_registration = "agent_registration"
type_name vault_key_rotation = "vault_key_rotation"
type_name trading_limits = "trading_limits"
type_name emergency_pause = "emergency_pause"
type_name emergency_unpause = "emergency_unpause"
type_name tee_measurement = "tee_measurement"

-- What becomes of a request on its way: it is lost, the fund handles it but the answer does not
-- come in time, or it is answered.
pub data Delivery : Type 0 where
  lost unanswered answered : Delivery

pub data Execution : Type 0 where
  success failure throws : Execution

abbrev pub is_done : ConfigResponse → Bool
is_done done = true
is_done _ = false

abbrev pub delivered : Delivery → ConfigResponse × Fund → Fund → Execution × Fund
delivered lost r fund = (failure, fund)
delivered unanswered r fund = (failure, r.1)
delivered answered r fund = (if is_done r.0 then success else failure, r.1)

abbrev pub request_of : Proposal → Payload → ConfigRequest
request_of p payload = record {
  proposal_id = p.id;
  type = type_name p.type;
  action = text_or (type_name p.type) payload.action;
  payload = payload;
}

-- `JSON.parse` of the texts of proposals is a parameter.
module _ (parse : String → Option Payload) where
  unfoldable pub push_change :
      Delivery → Proposal → Option Route → Option String → Fund → Execution × Fund
  push_change delivery p route none fund = (failure, fund)
  push_change delivery p none (some text) fund = (failure, fund)
  push_change delivery p (some route) (some text) fund = elim (parse text) [
    | none ↦ (throws, fund)
    | some payload ↦
        delivered delivery (handle_config_request route (some (request_of p payload)) fund) fund
  ]

  unfoldable pub execute_passed : Delivery → Proposal → Fund → Execution × Fund
  execute_passed delivery p fund = elim p.status [
    | ProposalStatus.passed ↦ push_change delivery p (config_endpoints p.type) p.payload fund
    | _ ↦ (failure, fund)
  ]

  -- executeChange. The store of proposals is only read.
  unfoldable pub execute_change : Delivery → String → Store → Fund → Execution × Fund
  execute_change delivery id store fund = elim (get_by_id id store) [
    | none ↦ (failure, fund)
    | some p ↦ execute_passed delivery p fund
  ]
