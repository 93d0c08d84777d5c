-- ===== src/Standby/Examples.antt =====
-- A backup at concrete answers.
use attested_capital.Base.{
  ℕ, ◌+◌, ◌≤◌, ◌<◌, ◌≡◌, ◌≢◌, ◌↔◌, refl, true, false, some, none, [], ◌∷◌, ◌==◌, if◌then◌else◌,
  arith,
}
use attested_capital.Standby.{Answer, not_found, current, poll, primary_failed, new_manager, start}
use attested_capital.Standby.Takeover.{
  World, registered, failed, success, max_attempts, IsTaken, attempt_takeover,
  attempt_takeover-success,
}
use attested_capital.Standby.Backup.{
  Backup, started, heartbeat_due, poll_due, new_backup, polling_guardians, step, run,
}
use attested_capital.Standby.Monitoring.{run-stalled, step-takes_over}

-- The second attempt is registered.
abbrev second_time : World
second_time = record {
  active_agent = λ n. none;
  register = λ n. if n == 2 then registered else failed;
  recover = λ n. some "fund.db";
}

attempt_takeover-success_example :
    (attempt_takeover second_time ≡ success "fund.db")
    ↔ ((n : ℕ) × (1 ≤ n) × (n < 1 + max_attempts) × IsTaken second_time 1 n "fund.db")
attempt_takeover-success_example = attempt_takeover-success second_time "fund.db"

takeover_test : attempt_takeover second_time ≡ success "fund.db"
unfolding attempt_takeover
takeover_test = refl

abbrev polling_backup : Backup
polling_backup = record (new_backup (some "https://guardian")) {
  state = polling_guardians;
  guardian_standby = some (record new_manager { is_polling = true });
}

start_test :
    run (started true ∷ heartbeat_due false ∷ []) (new_backup (some "https://guardian"))
    ≡ polling_backup
unfolding step start
start_test = refl

-- The agent is seen once more, and is gone for good a minute later.
run-stalled_example :
    run
      (poll_due 100000 (current "tee-1" true 90000) second_time
        ∷ poll_due 900000 not_found second_time
        ∷ [])
      polling_backup
    ≡ record polling_backup { guardian_standby = none }
run-stalled_example =
    run-stalled 100000 "tee-1" 90000 second_time polling_backup
      (record new_manager { is_polling = true }) (omega arith) refl refl refl refl
      (poll_due 900000 not_found second_time ∷ []) (tt, tt)

taken_test : (step (poll_due 5 not_found second_time) polling_backup).db_path ≡ some "fund.db"
unfolding step
taken_test = refl

step-takes_over_example :
    (now : ℕ) × (answer : Answer) × (w : World) × (poll_due 5 not_found second_time
      ≡ poll_due now answer w)
    × (primary_failed (poll now answer) ≡ true)
    × (attempt_takeover w ≡ success "fund.db")
    × (polling_backup.guardian_endpoint ≢ none)
step-takes_over_example =
    step-takes_over (poll_due 5 not_found second_time) polling_backup "fund.db" refl taken_test
