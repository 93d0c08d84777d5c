-- ===== src/Config/Examples.antt =====
-- A vote to pause, and requests to the fund.
use Prim.Native.String.{String}
use attested_capital.Base.{str_eq, ◌≡◌, refl, Option, none, some, [], ◌∷◌, if◌then◌else◌}
use attested_capital.Action.{ok, after}
use attested_capital.Guardian.{Proposal, ProposalStatus, Store, emergency_pause}
use attested_capital.Guardian.Clock.{to_iso}
use attested_capital.Guardian.Proposals.{get_by_id}
use attested_capital.Ledger.{empty}
use attested_capital.Ledger.Verify.{pause_fund}
use attested_capital.Trading.{no_overrides}
use attested_capital.Trading.Selling.{skipped}
use attested_capital.Trading.Cycle.{Inputs, run_trading_cycle}
use attested_capital.Config.{
  Payload, ConfigRequest, Fund, Route, on_db, handle_config_request, handle_tee_measurements,
}
use attested_capital.Config.Governance.{Delivery, config_endpoints, execute_change}
use attested_capital.Config.Effects.{execute_change-pauses, execute_change-forged}

abbrev payload_of : String → Payload
payload_of action = record {
  action = some action;
  chain = none;
  url = none;
  strategy = none;
  parameters = [];
  limits = no_overrides;
  measurement = some "m2";
  keys = 1;
}

abbrev parse_payload : String → Option Payload
parse_payload text = if str_eq text "{pause}" then some (payload_of "pause") else none

abbrev pause_vote : Proposal
pause_vote = record {
  id = "p1";
  type = emergency_pause;
  proposer = "g1";
  description = "Emergency pause: drift";
  payload = some "{pause}";
  fund_id = none;
  status = ProposalStatus.passed;
  threshold_pct = 75;
  deadline = to_iso 86400000;
}

abbrev young_fund : Fund
young_fund = record {
  desk = record { ledger = empty; positions = []; last_id = 0 };
  strategy_config = ("none", []);
  rpc_endpoints = [];
  tee_measurements = "m1" ∷ [];
  trading_limits = none;
}

abbrev vote_store : Store
vote_store = record { proposals = pause_vote ∷ []; votes = []; delegations = [] }

execute_change-pauses_example :
    (let after_vote =
        (execute_change parse_payload Delivery.unanswered "p1" vote_store young_fund).1 in
      (after_vote ≡ on_db (λ db. after (pause_fund db)) young_fund)
      × ((i : Inputs) → run_trading_cycle i after_vote.desk ≡ (ok skipped, after_vote.desk)))
unfolding get_by_id
execute_change-pauses_example =
    execute_change-pauses parse_payload "p1" vote_store pause_vote (payload_of "pause") "{pause}"
      young_fund Delivery.unanswered refl refl refl refl refl refl refl (λ e. cc)

abbrev forged : ConfigRequest
forged = record {
  proposal_id = "p1";
  type = "tee_measurement";
  action = "approve";
  payload = payload_of "approve";
}

execute_change-forged_example :
    (execute_change parse_payload Delivery.answered "p1" vote_store young_fund).1
    ≡ (handle_config_request Route.pause
        (some (record {
          proposal_id = "nobody";
          type = "anything";
          action = "pause";
          payload = payload_of "pause";
        }))
        young_fund).1
unfolding get_by_id config_endpoints
execute_change-forged_example =
    execute_change-forged parse_payload "p1" vote_store pause_vote (payload_of "pause") "{pause}"
      young_fund Route.pause "nobody" "anything" refl refl refl refl refl refl refl refl

approved : (handle_tee_measurements forged young_fund).1.tee_measurements ≡ "m1" ∷ "m2" ∷ []
unfolding handle_tee_measurements
approved = refl
