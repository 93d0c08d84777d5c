-- ===== src/Standby/Monitoring.antt =====
-- panthers-fund/src/agent/standby-mode.ts: when a backup takes over, and when it no longer can.
use attested_capital.Base.{
  ℕ, ◌≡◌, ◌≢◌, refl, ap, ◌∙◌, not, String, Bool, true, false, Option, none, some, List, [], ◌∷◌,
  if◌then◌else◌, arith, ◌<◌, ◌+◌,
}
use attested_capital.Standby.{
  Answer, Manager, current, is_monitoring, poll, primary_failed, count_poll,
}
use attested_capital.Standby.Takeover.{
  World, TakeoverResult, success, lost, db_not_recovered, out_of_attempts, attempt_takeover,
}
use attested_capital.Standby.Backup.{
  Backup, Event, started, heartbeat_due, poll_due, ready_posted, on_ready, taken,
  handle_primary_failure, is_back, takeover, failed_over, polled, manager_tick, on_poll,
  on_heartbeat, on_started, fallback_to_guardian_polling, step, run,
}

-- The events after the start.
abbrev pub IsLater : Event → Type 0
IsLater (started registers) = ⊥
IsLater (heartbeat_due answers) = Unit
IsLater (poll_due now answer w) = Unit
IsLater (ready_posted body) = Unit

abbrev pub AllLater : List Event → Type 0
AllLater [] = Unit
AllLater (e ∷ events) = IsLater e × AllLater events

-- Neither heartbeats nor polls are due any more.
abbrev pub IsIdle : Backup → Type 0
IsIdle b = (b.is_heartbeating ≡ false) × (b.guardian_standby ≡ none)

step-idle : (e : Event) (b : Backup) → IsLater e → IsIdle b → step e b ≡ b
unfolding step on_heartbeat on_poll polled on_ready
step-idle (started registers) b t idle = elim t [ ]
step-idle (heartbeat_due answers) b t idle = rw idle.0 refl
step-idle (poll_due now answer w) b t idle = rw idle.1 refl
step-idle (ready_posted body) b t idle = refl

run-idle : (events : List Event) (b : Backup) → AllLater events → IsIdle b → run events b ≡ b
run-idle [] b t idle = refl
run-idle (e ∷ events) b t idle = rw (step-idle e b t.0 idle) (run-idle events b t.1 idle)

module _ (now : ℕ) (tee_id : String) (last_heartbeat : ℕ) (w : World) (b : Backup) (m : Manager)
    (fresh : now < last_heartbeat + 300000) (off : b.is_heartbeating ≡ false)
    (on : b.guardian_standby ≡ some m) (polling : m.is_polling ≡ true)
    (ready : is_monitoring m.state ≡ true) where
  healthy_tick :
      manager_tick now (current tee_id true last_heartbeat) w m b
      ≡ record b { guardian_standby = none }
  unfolding manager_tick poll primary_failed is_back
  healthy_tick = ground arith

  healthy :
      step (poll_due now (current tee_id true last_heartbeat) w) b
      ≡ record b { guardian_standby = none }
  unfolding step on_poll polled
  healthy =
      ap (λ o. polled now (current tee_id true last_heartbeat) w o b) on
      ∙ ap (λ c. if c then manager_tick now (current tee_id true last_heartbeat) w m b else b)
          polling
      ∙ healthy_tick

  -- Once a backup that polls a guardian sees an active agent with a fresh heartbeat, it never
  -- takes over: no timer, whatever is answered, and no request of a guardian for a takeover changes
  -- anything any more.
  pub run-stalled :
      (events : List Event)
      → AllLater events
      → run (poll_due now (current tee_id true last_heartbeat) w ∷ events) b
        ≡ record b { guardian_standby = none }
  run-stalled events timers = rw healthy (run-idle events _ timers (off, refl))

-- What a poll that resolves has met.
abbrev TakesOver : ℕ → Answer → World → Backup → String → Type 0
TakesOver now answer w b path =
    (primary_failed (poll now answer) ≡ true)
    × (attempt_takeover w ≡ success path)
    × (b.guardian_endpoint ≢ none)

taken-success :
    (r : TakeoverResult) (m : Manager) (b : Backup) (path : String)
    → b.db_path ≡ none
    → (taken r m b).db_path ≡ some path
    → r ≡ success path
taken-success (success p) m b path before after = ground arith
taken-success (lost agent) m b path before after = cc
taken-success db_not_recovered m b path before after = cc
taken-success out_of_attempts m b path before after = cc

failed_over-success :
    (w : World) (db endpoint : Option String) (m : Manager) (b : Backup) (path : String)
    → b.db_path ≡ none
    → (failed_over w db endpoint m b).db_path ≡ some path
    → (attempt_takeover w ≡ success path) × (endpoint ≢ none)
unfolding failed_over
failed_over-success w (some p) endpoint m b path before after = cc
failed_over-success w none none m b path before after = cc
failed_over-success w none (some endpoint) m b path before after =
    (taken-success (attempt_takeover w) m b path before after, λ e. cc)

tick-success :
    (now : ℕ) (answer : Answer) (w : World) (m : Manager) (b : Backup) (path : String)
    → b.db_path ≡ none
    → (manager_tick now answer w m b).db_path ≡ some path
    → TakesOver now answer w b path
unfolding manager_tick handle_primary_failure
tick-success now answer w m b path before after =
    by_tests (not (is_monitoring m.state)) (primary_failed (poll now answer)) refl after
  where
    by_tests :
        (n f : Bool)
        → primary_failed (poll now answer) ≡ f
        → (if n
            then b
            else if f
            then failed_over w b.db_path b.guardian_endpoint
                (count_poll (poll now answer) m)
                (record b { state = takeover })
            else if is_back (poll now answer)
            then record b { guardian_standby = none }
            else record b { guardian_standby = some (count_poll (poll now answer) m) }).db_path
          ≡ some path
        → TakesOver now answer w b path
    by_tests true f same k = cc
    by_tests false false same k = absurd (ground arith)
    by_tests false true same k =
        let s = failed_over-success w b.db_path b.guardian_endpoint _ _ path before k in
        (same, s.0, s.1)

polled-success :
    (now : ℕ) (answer : Answer) (w : World) (o : Option Manager) (b : Backup) (path : String)
    → b.db_path ≡ none
    → (polled now answer w o b).db_path ≡ some path
    → TakesOver now answer w b path
unfolding polled
polled-success now answer w none b path before after = cc
polled-success now answer w (some m) b path before after = by_test m.is_polling after
  where
    by_test :
        (c : Bool)
        → (if c then manager_tick now answer w m b else b).db_path ≡ some path
        → TakesOver now answer w b path
    by_test true k = tick-success now answer w m b path before k
    by_test false k = cc

-- Of all events only a poll makes a backup start to trade: a poll that shows the primary failed, and
-- whose takeover succeeds, of a backup that has a guardian to ask. So a guardian's request for a
-- takeover, which the handler answers with the registration details, never does.
pub step-takes_over :
    (e : Event) (b : Backup) (path : String)
    → b.db_path ≡ none
    → (step e b).db_path ≡ some path
    → (now : ℕ) × (answer : Answer) × (w : World) × (e ≡ poll_due now answer w)
      × (primary_failed (poll now answer) ≡ true)
      × (attempt_takeover w ≡ success path)
      × (b.guardian_endpoint ≢ none)
unfolding step on_started on_heartbeat fallback_to_guardian_polling on_poll on_ready
step-takes_over (started registers) b path before after = absurd (ground arith)
step-takes_over (heartbeat_due answers) b path before after = absurd (ground arith)
step-takes_over (poll_due now answer w) b path before after =
    let s = polled-success now answer w b.guardian_standby b path before after in
    (now, answer, w, refl, s.0, s.1, s.2)
step-takes_over (ready_posted body) b path before after = absurd (ground arith)
