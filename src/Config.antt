-- ===== src/Config.antt =====
-- panthers-fund/src/agent/config-api.ts: the changes of the fund that governance pushes, and the
-- tables of panthers-fund/src/database/ledger.ts that keep them.
pub mod Governance
pub mod Effects
pub mod Measurements
mod Examples
use Prim.Native.String.{String}
use attested_capital.Base.{
  ℕ, ◌==◌, str_eq, Bool, true, false, not, ◌||◌, ◌&&◌, Option, none, some, List, [], ◌∷◌, ◌++◌, any,
  filter, if◌then◌else◌,
}
use attested_capital.Action.{after}
use attested_capital.Ledger.{Db}
use attested_capital.Ledger.Verify.{pause_fund, unpause_fund}
use attested_capital.Trading.{GovernanceLimits}
use attested_capital.Trading.Desk.{Desk}

pub record Endpoint : Type 0 where
  pub chain : String
  pub url : String

-- The fields of a payload that the handlers read, as texts; `keys` counts all of them.
pub record Payload : Type 0 where
  pub action : Option String
  pub chain : Option String
  pub url : Option String
  pub strategy : Option String
  pub parameters : List (String × ℕ)
  pub limits : GovernanceLimits
  pub measurement : Option String
  pub keys : ℕ

pub record ConfigRequest : Type 0 where
  pub proposal_id : String
  pub type : String
  pub action : String
  pub payload : Payload

-- The desk, the row of `strategy_config`, and the values of `governance_config`.
pub record Fund : Type 0 where
  pub desk : Desk
  pub strategy_config : String × List (String × ℕ)
  pub rpc_endpoints : List Endpoint
  pub tee_measurements : List String
  pub trading_limits : Option GovernanceLimits

-- What a request gets: 200, or 400 with the reason.
pub data ConfigResponse : Type 0 where
  done missing_url missing_strategy missing_limits missing_measurement : ConfigResponse
  unknown_action missing_id bad_json : ConfigResponse

-- `String(value ?? fallback)`
abbrev pub text_or : String → Option String → String
text_or fallback none = fallback
text_or fallback (some text) = text

abbrev pub has_url : String → Endpoint → Bool
has_url url e = str_eq e.url url

-- `splice` at the first index, if there is one.
abbrev pub remove_first : {A : Type 0} → (A → Bool) → List A → List A
remove_first p [] = []
remove_first p (x ∷ rest) = let later = remove_first p rest in if p x then rest else x ∷ later

abbrev pub push_unless : {A : Type 0} → (A → Bool) → A → List A → List A
push_unless p x rows = if any p rows then rows else rows ++ x ∷ []

unfoldable pub handle_rpc : ConfigRequest → Fund → ConfigResponse × Fund
handle_rpc request fund =
    let chain = text_or "solana" request.payload.chain in
    let url = text_or "" request.payload.url in
    if str_eq url ""
    then (missing_url, fund)
    else if str_eq request.action "add"
    then (
      done,
      record fund {
        rpc_endpoints =
            push_unless (has_url url) (record { chain = chain; url = url }) fund.rpc_endpoints;
      },
    )
    else if str_eq request.action "remove"
    then (done, record fund { rpc_endpoints = remove_first (has_url url) fund.rpc_endpoints })
    else (unknown_action, fund)

abbrev pub set_strategy : String → Db → Db
set_strategy strategy db = record db { fund = record db.fund { active_strategy = strategy } }

abbrev pub on_db : (Db → Db) → Fund → Fund
on_db f fund = record fund { desk = record fund.desk { ledger = f fund.desk.ledger } }

unfoldable pub set_strategy_config : String → List (String × ℕ) → Fund → Fund
set_strategy_config strategy parameters fund =
    on_db (set_strategy strategy) (record fund { strategy_config = (strategy, parameters) })

unfoldable pub handle_strategy : ConfigRequest → Fund → ConfigResponse × Fund
handle_strategy request fund =
    let strategy = text_or "" request.payload.strategy in
    if str_eq strategy ""
    then (missing_strategy, fund)
    else (done, set_strategy_config strategy request.payload.parameters fund)

unfoldable pub handle_trading_limits : ConfigRequest → Fund → ConfigResponse × Fund
handle_trading_limits request fund =
    if request.payload.keys == 0
    then (missing_limits, fund)
    else (done, record fund { trading_limits = some request.payload.limits })

unfoldable pub handle_pause : ConfigRequest → Fund → ConfigResponse × Fund
handle_pause request fund =
    if str_eq request.action "pause"
    then (done, on_db (λ db. after (pause_fund db)) fund)
    else if str_eq request.action "unpause"
    then (done, on_db (λ db. after (unpause_fund db)) fund)
    else (unknown_action, fund)

abbrev pub is_text : String → String → Bool
is_text text t = str_eq t text

unfoldable pub handle_tee_measurements : ConfigRequest → Fund → ConfigResponse × Fund
handle_tee_measurements request fund =
    let measurement = text_or "" request.payload.measurement in
    if str_eq measurement ""
    then (missing_measurement, fund)
    else if str_eq request.action "approve"
    then (
      done,
      record fund {
        tee_measurements = push_unless (is_text measurement) measurement fund.tee_measurements;
      },
    )
    else if str_eq request.action "revoke"
    then (
      done,
      record fund { tee_measurements = remove_first (is_text measurement) fund.tee_measurements },
    )
    else (unknown_action, fund)

-- An update of the code is only acknowledged.
unfoldable pub handle_code_update : ConfigRequest → Fund → ConfigResponse × Fund
handle_code_update request fund = (done, fund)

pub data Route : Type 0 where
  rpc strategy trading_limits pause tee_measurements code_update : Route

unfoldable pub dispatch_config_route : Route → ConfigRequest → Fund → ConfigResponse × Fund
dispatch_config_route rpc = handle_rpc
dispatch_config_route strategy = handle_strategy
dispatch_config_route trading_limits = handle_trading_limits
dispatch_config_route pause = handle_pause
dispatch_config_route tee_measurements = handle_tee_measurements
dispatch_config_route code_update = handle_code_update

-- A request to one of the known routes, and its body, if it is JSON.
unfoldable pub handle_config_request : Route → Option ConfigRequest → Fund → ConfigResponse × Fund
handle_config_request route none fund = (bad_json, fund)
handle_config_request route (some request) fund =
    if str_eq request.proposal_id "" || str_eq request.type ""
    then (missing_id, fund)
    else dispatch_config_route route request fund
