-- ===== src/RpcRegistry.antt =====
-- guardian-network/src/guardian/rpc-registry.ts and rpc-tester.ts: the endpoints that guardians
-- probe, over the tables rpc_registry and rpc_test_results.
pub mod Screening
pub mod Rounds
pub mod Endpoints
mod Examples
use attested_capital.Base.{
  ℕ, suc, ◌+◌, ltb, leb, ◌==◌, str_eq, not, String, Bool, true, false, Option, none, some, List, [],
  ◌∷◌, ◌++◌, ◌&&◌, filter, find, length, update, if◌then◌else◌,
}
use attested_capital.Base.Int.{ℤ, pos, negsuc, pos_part, neg_part, ◌+ℤ◌}

pub data RpcStatus : Type 0 where
  active trial deprecated : RpcStatus

pub record RpcEntry : Type 0 where
  pub id : ℕ
  pub chain : String
  pub url : String
  pub added_by : String
  pub status : RpcStatus
  pub reputation : ℤ
  pub latency_ms : Option ℕ

-- What probing an endpoint shows.
pub record Outcome : Type 0 where
  pub success : Bool
  pub latency_ms : Option ℕ
  pub error : Option String

pub record RpcTestResult : Type 0 where
  pub id : ℕ
  pub rpc_id : ℕ
  pub outcome : Outcome

pub record Registry : Type 0 where
  pub entries : List RpcEntry
  pub results : List RpcTestResult
  pub last_result : ℕ
  pub last_entry : ℕ

abbrev pub is_deprecated : RpcStatus → Bool
is_deprecated deprecated = true
is_deprecated active = false
is_deprecated trial = false

abbrev pub is_trial : RpcStatus → Bool
is_trial trial = true
is_trial active = false
is_trial deprecated = false

abbrev pub has_rpc_key : ℕ → RpcEntry → Bool
has_rpc_key key e = e.id == key

unfoldable pub get_by_id : ℕ → Registry → Option RpcEntry
get_by_id key r = find (has_rpc_key key) r.entries

abbrev pub with_status : RpcStatus → RpcEntry → RpcEntry
with_status status e = record e { status = status }

-- The methods that write also return what their callers here do not read.
unfoldable pub set_status : ℕ → RpcStatus → Registry → Registry
set_status key status r = record r {
  entries = update (has_rpc_key key) (with_status status) r.entries;
}

abbrev pub with_delta : ℤ → RpcEntry → RpcEntry
with_delta delta e = record e { reputation = e.reputation +ℤ delta }

unfoldable pub adjust_reputation : ℕ → ℤ → Registry → Registry
adjust_reputation key delta r = record r {
  entries = update (has_rpc_key key) (with_delta delta) r.entries;
}

abbrev pub with_latency : Option ℕ → RpcEntry → RpcEntry
with_latency latency_ms e = record e { latency_ms = latency_ms }

-- One more for a success, three less for a failure.
abbrev pub delta_of : Bool → ℤ
delta_of success = if success then pos 1 else negsuc 2

unfoldable pub record_test_result : ℕ → Outcome → Registry → Registry
unfolding adjust_reputation
record_test_result key outcome r = adjust_reputation key (delta_of outcome.success) (record r {
  entries = update (has_rpc_key key) (with_latency outcome.latency_ms) r.entries;
  results = r.results ++ record { id = suc r.last_result; rpc_id = key; outcome = outcome } ∷ [];
  last_result = suc r.last_result;
})

-- Whether the reputation is at most DEPRECATION_THRESHOLD.
abbrev pub is_low : ℤ → Bool
is_low (pos n) = false
is_low (negsuc n) = leb 19 n

-- Whether the reputation is at least 10.
abbrev pub is_high : ℤ → Bool
is_high (pos n) = leb 10 n
is_high (negsuc n) = false

-- What a test does to the status, as the entry stands after the test.
unfoldable pub settle_status : ℕ → Option RpcEntry → Registry → Registry
unfolding set_status
settle_status key none r = r
settle_status key (some e) r =
    let lowered =
      if is_low e.reputation && not (is_deprecated e.status)
      then set_status key RpcStatus.deprecated r
      else r in
    if is_trial e.status && is_high e.reputation
    then set_status key RpcStatus.active lowered
    else lowered

-- What a test writes; the summary that it returns as well is left out.
unfoldable pub test_one : ℕ → Outcome → Registry → Registry
unfolding get_by_id settle_status record_test_result
test_one key outcome r =
    let tested = record_test_result key outcome r in settle_status key (get_by_id key tested) tested

abbrev pub ltb_ℤ : ℤ → ℤ → Bool
ltb_ℤ (pos a) (pos b) = ltb a b
ltb_ℤ (pos a) (negsuc b) = false
ltb_ℤ (negsuc a) (pos b) = true
ltb_ℤ (negsuc a) (negsuc b) = ltb b a

-- `ORDER BY reputation DESC`
unfoldable pub insert_entry : RpcEntry → List RpcEntry → List RpcEntry
insert_entry e [] = e ∷ []
insert_entry e (f ∷ rest) =
    if ltb_ℤ e.reputation f.reputation then f ∷ insert_entry e rest else e ∷ f ∷ rest

unfoldable pub by_reputation : List RpcEntry → List RpcEntry
unfolding insert_entry
by_reputation [] = []
by_reputation (e ∷ rest) = insert_entry e (by_reputation rest)

unfoldable pub list_all : Registry → List RpcEntry
list_all r = by_reputation r.entries

abbrev pub in_use : RpcEntry → Bool
in_use e = not (is_deprecated e.status)

-- One test after the other, each with what its probe shows.
unfoldable pub test_each : (RpcEntry → Outcome) → List RpcEntry → Registry → Registry
test_each probe [] r = r
test_each probe (e ∷ rest) r = test_each probe rest (test_one e.id (probe e) r)

unfoldable pub test_all : (RpcEntry → Outcome) → Registry → Registry
unfolding list_all test_each
test_all probe r = test_each probe (filter in_use (list_all r)) r
