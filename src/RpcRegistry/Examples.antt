-- ===== src/RpcRegistry/Examples.antt =====
-- A round of tests at concrete endpoints.
use attested_capital.Base.{ℕ, ◌==◌, none, some, [], ◌∷◌, All, ◌≡◌, refl}
use attested_capital.Base.Int.{pos, negsuc, ◌+ℤ◌}
use attested_capital.RpcRegistry.{
  RpcStatus, RpcEntry, Outcome, Registry, get_by_id, set_status, settle_status, test_one, test_each,
  test_all, record_test_result, adjust_reputation, list_all, by_reputation, insert_entry,
}
use attested_capital.RpcRegistry.Screening.{Distinct, IsScreened}
use attested_capital.RpcRegistry.Rounds.{test_all-IsScreened}

abbrev endpoint : ℕ → RpcStatus → RpcEntry
endpoint key status = record {
  id = key;
  chain = "solana";
  url = "https://rpc";
  added_by = "sentry";
  status = status;
  reputation = pos 9;
  latency_ms = none;
}

-- A trial endpoint that is about to be promoted, and one in use that failed often.
abbrev two_endpoints : Registry
two_endpoints = record {
  entries =
      endpoint 1 RpcStatus.trial
      ∷ record (endpoint 2 RpcStatus.active) { reputation = negsuc 17 }
      ∷ [];
  results = [];
  last_result = 0;
  last_entry = 4;
}

-- The first answers, the second does not.
abbrev first_answers : RpcEntry → Outcome
first_answers e = record { success = e.id == 1; latency_ms = some 80; error = none }

round_test :
    (test_all first_answers two_endpoints).entries
    ≡ record (endpoint 1 RpcStatus.active) { reputation = pos 10; latency_ms = some 80 }
      ∷ record (endpoint 2 RpcStatus.deprecated) { reputation = negsuc 20; latency_ms = some 80 }
      ∷ []
unfolding test_all test_each list_all by_reputation insert_entry test_one settle_status set_status
    get_by_id record_test_result adjust_reputation ◌+ℤ◌
round_test = refl

test_all-IsScreened_example :
    Distinct (test_all first_answers two_endpoints).entries
    × All IsScreened (test_all first_answers two_endpoints).entries
test_all-IsScreened_example = test_all-IsScreened first_answers two_endpoints ((refl, tt), (tt, tt))
