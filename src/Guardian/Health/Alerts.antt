-- ===== src/Guardian/Health/Alerts.antt =====
-- guardian-network/src/guardian/health-monitor.ts: what is reported of two checks in a row.
use attested_capital.Base.{
  ℕ, suc, ◌*◌, ◌<◌, ◌==◌, String, Bool, true, false, some, List, [], ◌∷◌, ◌++◌, any, length,
  length-append, ◌+◌, if◌then◌else◌, ◌≡◌, ◌↔◌, refl, ◌∙◌, arith,
}
use attested_capital.Guardian.Health.{
  healthy, warning, HealthCheck, FundManagerStatus, AnomalyAlert, balance_drop, get_latest,
  evaluate_status, detect_anomalies, unreached, reached, error, report, check,
}

add-one : (n : ℕ) → n + 1 ≡ suc n
add-one n = omega arith

pub get_latest-append :
    (checks : List HealthCheck) (c : HealthCheck) → get_latest (checks ++ c ∷ []) ≡ some c
unfolding get_latest
get_latest-append [] c = refl
get_latest-append (d ∷ []) c = refl
get_latest-append (d ∷ e ∷ rest) c = get_latest-append (e ∷ rest) c

abbrev pub is_drop : AnomalyAlert → Bool
is_drop a = elim a.type [ balance_drop ↦ true | _ ↦ false ]

-- The alerts of a report, and the status that it records, after a check.
module _ (s : FundManagerStatus) (checks : List HealthCheck) where
  check-after_report :
      (before : FundManagerStatus)
      → (let alerts = (check (report s) (check (report before) checks).1).0 in
          (any is_drop alerts ≡ true) ↔ (s.total_pool_balance * 10 < before.total_pool_balance * 9))
  unfolding check detect_anomalies
  check-after_report before =
      rw
        (get_latest-append checks
          (reached (suc (length checks)) before (evaluate_status before (get_latest checks))))
        ((λ h. ground arith), (λ h. ground arith))

  check-after_outage :
      (message : String)
      → (let (alerts, after) = check (report s) (check (error message) checks).1 in
          (alerts ≡ [])
          × (get_latest after
              ≡ some (
                  reached
                    (suc (suc (length checks)))
                    s
                    (if s.is_paused == 0 then healthy else warning))))
  unfolding check detect_anomalies evaluate_status
  check-after_outage message =
      let u = unreached (suc (length checks)) message in
      let after =
        reached (suc (suc (length checks))) s (if s.is_paused == 0 then healthy else warning) in
      rw (get_latest-append checks u, length-append checks (u ∷ []), add-one (length checks))
        (refl, get_latest-append (checks ++ u ∷ []) _ ∙ ground arith)

  -- Of two reports in a row, a drop of the pool is reported exactly where it is more than a tenth.
  -- After a check that failed the next report raises no alert and is recorded as healthy unless
  -- the fund is paused, whatever the pool was before.
  pub check-compares :
      (before : FundManagerStatus) (message : String)
      → (let alerts = (check (report s) (check (report before) checks).1).0 in
          let (missed, after) = check (report s) (check (error message) checks).1 in
          ((any is_drop alerts ≡ true)
            ↔ (s.total_pool_balance * 10 < before.total_pool_balance * 9))
          × (missed ≡ [])
          × (get_latest after
              ≡ some (
                  reached
                    (suc (suc (length checks)))
                    s
                    (if s.is_paused == 0 then healthy else warning))))
  check-compares before message =
      (check-after_report before, (check-after_outage message).0, (check-after_outage message).1)
