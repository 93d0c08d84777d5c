-- ===== src/Config/Effects.antt =====
-- guardian-network/src/sentry/config-governance.ts and panthers-fund/src/agent/config-api.ts: what a
-- vote does to the fund, and what needs no vote.
use Prim.Native.String.{String}
use attested_capital.Base.{sym, str_eq, ◌≡◌, ◌≢◌, refl, ap, ◌∙◌, true, false, Option, some}
use attested_capital.Action.{ok, after, modify}
use attested_capital.Guardian.{ProposalType, ProposalStatus, Proposal, Store, emergency_pause}
use attested_capital.Guardian.Proposals.{get_by_id}
use attested_capital.Ledger.Verify.{pause_fund}
use attested_capital.Trading.Desk.{Desk}
use attested_capital.Trading.Selling.{skipped}
use attested_capital.Trading.Cycle.{Inputs, is_skipped, run_trading_cycle}
use attested_capital.Config.{
  on_db, Payload, ConfigRequest, Fund, ConfigResponse, done, Route, rpc, strategy, trading_limits,
  pause, tee_measurements, code_update, handle_rpc, handle_strategy, handle_trading_limits,
  handle_pause, handle_tee_measurements, handle_code_update, dispatch_config_route,
  handle_config_request,
}
use attested_capital.Config.Governance.{
  type_name, delivered, Delivery, lost, unanswered, answered, config_endpoints, push_change,
  execute_passed, execute_change, request_of,
}

paused-skips :
    (i : Inputs) (desk : Desk)
    → desk.ledger.is_paused ≡ true
    → run_trading_cycle i desk ≡ (ok skipped, desk)
unfolding run_trading_cycle is_skipped
paused-skips i desk h = rw h refl

module _ (parse : String → Option Payload) (id : String) (store : Store) (p : Proposal)
    (payload : Payload) (text : String) (fund : Fund) where
  -- What is pushed of a passed proposal.
  execute_change-pushes :
      (delivery : Delivery) (route : Route)
      → get_by_id id store ≡ some p
      → p.status ≡ ProposalStatus.passed
      → p.payload ≡ some text
      → parse text ≡ some payload
      → config_endpoints p.type ≡ some route
      → execute_change parse delivery id store fund
        ≡ delivered delivery (handle_config_request route (some (request_of p payload)) fund) fund
  unfolding execute_change execute_passed push_change
  execute_change-pushes delivery route found passed stored parsed goes =
      rw (execute_change, found, execute_passed, passed, push_change, stored, goes, parsed) refl

  delivered-reaches :
      (delivery : Delivery) (r : ConfigResponse × Fund)
      → delivery ≢ lost
      → (delivered delivery r fund).1 ≡ r.1
  delivered-reaches lost r h = elim (h refl) [ ]
  delivered-reaches unanswered r h = refl
  delivered-reaches answered r h = refl

  pause-reaches :
      str_eq p.id "" ≡ false
      → p.type ≡ emergency_pause
      → payload.action ≡ some "pause"
      → handle_config_request pause (some (request_of p payload)) fund
        ≡ (done, on_db (λ db. after (pause_fund db)) fund)
  unfolding handle_config_request dispatch_config_route handle_pause
  pause-reaches named kind action =
      rw (handle_config_request, named, kind, dispatch_config_route, handle_pause, action) refl

  -- Once a passed proposal of an emergency pause, whose payload says so, is executed and its
  -- request reaches the fund, the fund is paused and nothing else of it is changed, also if the
  -- answer gets lost, and every trading cycle on it is skipped, whatever the signal and the
  -- exchange.
  pub execute_change-pauses :
      (delivery : Delivery)
      → get_by_id id store ≡ some p
      → p.status ≡ ProposalStatus.passed
      → p.type ≡ emergency_pause
      → str_eq p.id "" ≡ false
      → p.payload ≡ some text
      → parse text ≡ some payload
      → payload.action ≡ some "pause"
      → delivery ≢ lost
      → (let after_vote = (execute_change parse delivery id store fund).1 in
          (after_vote ≡ on_db (λ db. after (pause_fund db)) fund)
          × ((i : Inputs) → run_trading_cycle i after_vote.desk ≡ (ok skipped, after_vote.desk)))
  unfolding config_endpoints pause_fund modify
  execute_change-pauses delivery found passed kind named stored parsed action reaches =
      let goes : config_endpoints p.type ≡ some pause = ap config_endpoints kind in
      let result =
        ap (λ r. r.1) (execute_change-pushes delivery pause found passed stored parsed goes)
        ∙ delivered-reaches delivery _ reaches
        ∙ ap (λ r. r.1) (pause-reaches named kind action) in
      (result, λ i. paused-skips i _ (ap (λ f. f.desk.ledger.is_paused) result))

dispatch_config_route-ignores :
    (route : Route) (request : ConfigRequest) (id type : String) (fund : Fund)
    → dispatch_config_route route (record request { proposal_id = id; type = type }) fund
      ≡ dispatch_config_route route request fund
unfolding dispatch_config_route handle_rpc handle_strategy handle_trading_limits handle_pause
    handle_tee_measurements handle_code_update
dispatch_config_route-ignores rpc request id type fund = refl
dispatch_config_route-ignores strategy request id type fund = refl
dispatch_config_route-ignores trading_limits request id type fund = refl
dispatch_config_route-ignores pause request id type fund = refl
dispatch_config_route-ignores tee_measurements request id type fund = refl
dispatch_config_route-ignores code_update request id type fund = refl

-- A request is carried out whatever proposal it names.
handle_config_request-unchecked :
    (route : Route) (request : ConfigRequest) (id type : String) (fund : Fund)
    → str_eq id "" ≡ false
    → str_eq type "" ≡ false
    → handle_config_request route (some (record request { proposal_id = id; type = type })) fund
      ≡ dispatch_config_route route request fund
unfolding handle_config_request
handle_config_request-unchecked route request id type fund named typed =
    rw (named, typed) (dispatch_config_route-ignores route request id type fund)

type_name-named : (t : ProposalType) → str_eq (type_name t) "" ≡ false
type_name-named ProposalType.code_update = refl
type_name-named ProposalType.rpc_add = refl
type_name-named ProposalType.rpc_remove = refl
type_name-named ProposalType.strategy_change = refl
type_name-named ProposalType.anomaly_resolution = refl
type_name-named ProposalType.agent_registration = refl
type_name-named ProposalType.vault_key_rotation = refl
type_name-named ProposalType.trading_limits = refl
type_name-named ProposalType.emergency_pause = refl
type_name-named ProposalType.emergency_unpause = refl
type_name-named ProposalType.tee_measurement = refl

-- Whoever sends the fund a request with the action and the payload of a passed proposal, under any
-- identifier and type that are not empty, does to it what the execution of that proposal does.
pub execute_change-forged :
    (parse : String → Option Payload) (id : String) (store : Store) (p : Proposal)
    (payload : Payload) (text : String) (fund : Fund) (route : Route) (other type : String)
    → get_by_id id store ≡ some p
    → p.status ≡ ProposalStatus.passed
    → str_eq p.id "" ≡ false
    → p.payload ≡ some text
    → parse text ≡ some payload
    → config_endpoints p.type ≡ some route
    → str_eq other "" ≡ false
    → str_eq type "" ≡ false
    → (let forged = record (request_of p payload) { proposal_id = other; type = type } in
        (execute_change parse answered id store fund).1
        ≡ (handle_config_request route (some forged) fund).1)
execute_change-forged parse id store p payload text fund route other type found passed named stored
      parsed goes other_named typed =
    ap (λ r. r.1)
      (execute_change-pushes parse id store p payload text fund answered route found passed stored
        parsed goes)
    ∙ ap (λ r. r.1)
        (handle_config_request-unchecked route (request_of p payload) p.id (type_name p.type) fund
            named (type_name-named p.type)
          ∙ sym (
              handle_config_request-unchecked route (request_of p payload) other type fund
                other_named typed))
