-- ===== src/Guardian/Health.antt =====
-- guardian-network/src/guardian/health-monitor.ts: the class `HealthMonitor`, over the table
-- health_checks of guardian-network/database/schema.sql. The newest row is the last; the texts of
-- the alerts are left out.
pub mod Alerts
mod Examples
use attested_capital.Base.{
  ℕ, suc, ◌*◌, ltb, ◌==◌, str_eq, not, ◌&&◌, String, Bool, true, false, Option, none, some, List,
  [], ◌∷◌, ◌++◌, length, filter, if◌then◌else◌,
}

pub data HealthStatus : Type 0 where
  healthy warning critical unreachable : HealthStatus

pub record HealthCheck : Type 0 where
  pub id : ℕ
  pub status : HealthStatus
  pub pool_balance : Option ℕ
  pub active_nfts : Option ℕ
  pub is_paused : Option ℕ
  pub strategy : Option String
  pub details : Option String

-- What the fund manager reports.
pub record FundManagerStatus : Type 0 where
  pub total_pool_balance : ℕ
  pub total_nfts_active : ℕ
  pub active_strategy : String
  pub is_paused : ℕ

pub data AlertType : Type 0 where
  balance_drop nft_count_change pause_detected unreachable strategy_change : AlertType

pub record AnomalyAlert : Type 0 where
  pub type : AlertType
  pub previous : Option HealthCheck
  pub current : HealthCheck

-- `ORDER BY checked_at DESC LIMIT 1`
unfoldable pub get_latest : List HealthCheck → Option HealthCheck
get_latest [] = none
get_latest (c ∷ []) = some c
get_latest (c ∷ d ∷ rest) = get_latest (d ∷ rest)

-- A drop of more than a tenth, or of more than two tenths, of the balance before.
abbrev pub drops_a_tenth : ℕ → ℕ → Bool
drops_a_tenth before now = ltb (now * 10) (before * 9)

abbrev pub drops_two_tenths : ℕ → ℕ → Bool
drops_two_tenths before now = ltb (now * 10) (before * 8)

abbrev pub status_by_drop : Option ℕ → ℕ → HealthStatus
status_by_drop none now = healthy
status_by_drop (some before) now =
    if drops_two_tenths before now
    then critical
    else if drops_a_tenth before now
    then warning
    else healthy

abbrev pub balance_before : Option HealthCheck → Option ℕ
balance_before none = none
balance_before (some c) = c.pool_balance

unfoldable pub evaluate_status : FundManagerStatus → Option HealthCheck → HealthStatus
evaluate_status s previous =
    if not (s.is_paused == 0)
    then warning
    else status_by_drop (balance_before previous) s.total_pool_balance

-- Tests on two columns, each of which may be NULL.
abbrev pub both {ℓ} : {A : Type ℓ} → (A → A → Bool) → Option A → Option A → Bool
both test none now = false
both test (some before) none = false
both test (some before) (some now) = test before now

abbrev pub alert_if : Bool → AlertType → HealthCheck → HealthCheck → List AnomalyAlert
alert_if test type current previous =
    if test then record { type = type; previous = some previous; current = current } ∷ [] else []

unfoldable pub detect_anomalies : HealthCheck → Option HealthCheck → List AnomalyAlert
detect_anomalies c none = []
detect_anomalies c (some p) =
    alert_if (both drops_a_tenth p.pool_balance c.pool_balance) balance_drop c p
    ++ alert_if (both (λ a b. not (a == b)) p.active_nfts c.active_nfts) nft_count_change c p
    ++ alert_if (both (λ a b. not (a == b) && b == 1) p.is_paused c.is_paused) pause_detected c p
    ++ alert_if (both (λ a b. not (str_eq a b)) p.strategy c.strategy) strategy_change c p

abbrev pub unreached : ℕ → String → HealthCheck
unreached key message = record {
  id = key;
  status = HealthStatus.unreachable;
  pool_balance = none;
  active_nfts = none;
  is_paused = none;
  strategy = none;
  details = some message;
}

abbrev pub reached : ℕ → FundManagerStatus → HealthStatus → HealthCheck
reached key s status = record {
  id = key;
  status = status;
  pool_balance = some s.total_pool_balance;
  active_nfts = some s.total_nfts_active;
  is_paused = some s.is_paused;
  strategy = some s.active_strategy;
  details = none;
}

abbrev pub was_unreachable : Option HealthCheck → Bool
was_unreachable none = false
was_unreachable (some c) = elim c.status [ HealthStatus.unreachable ↦ true | _ ↦ false ]

-- What the request for the status brings: an error with its message, or a report.
pub data Response : Type 0 where
  error : String → Response
  report : FundManagerStatus → Response

unfoldable pub check : Response → List HealthCheck → List AnomalyAlert × List HealthCheck
unfolding evaluate_status detect_anomalies
check (error message) checks =
    let c = unreached (suc (length checks)) message in
    (
      if was_unreachable (get_latest checks)
          then []
          else record { type = AlertType.unreachable; previous = get_latest checks; current = c }
            ∷ [],
      checks ++ c ∷ [],
    )
check (report s) checks =
    let previous = get_latest checks in
    let c = reached (suc (length checks)) s (evaluate_status s previous) in
    (detect_anomalies c previous, checks ++ c ∷ [])
