-- ===== src/Standby/Backup.antt =====
-- panthers-fund/src/agent/standby-mode.ts and backup-coordination.ts: a backup that registers with
-- the active agent (`createAgentRegisteredStandby`), wired to the takeover (`runBackupAgent`). The
-- timers and the answers of others are events; a poll ends before the next one is due.
use attested_capital.Base.{
  ℕ, not, str_eq, ◌&&◌, String, Bool, true, false, Option, none, some, List, [], ◌∷◌, if◌then◌else◌,
}
use attested_capital.Standby.{
  PollResult, Answer, Manager, new_manager, start, is_monitoring, poll, primary_failed, count_poll,
  monitoring,
}
use attested_capital.Standby.Takeover.{
  World, TakeoverResult, success, lost, db_not_recovered, out_of_attempts, attempt_takeover,
}

pub data RegisteredStandbyState : Type 0 where
  registering registered heartbeating agent_down polling_guardians takeover : RegisteredStandbyState

-- `db_path` is set once the promise of `runBackupAgent` is resolved.
pub record Backup : Type 0 where
  pub state : RegisteredStandbyState
  pub is_heartbeating : Bool
  pub guardian_standby : Option Manager
  pub guardian_endpoint : Option String
  pub db_path : Option String

pub data Event : Type 0 where
  -- The reply to the registration with the agent, at the start.
  started : Bool → Event
  -- The timer of the heartbeats, and whether the agent answered.
  heartbeat_due : Bool → Event
  -- The timer of the polls, at a time; what the guardian answers, and what a takeover would meet.
  poll_due : ℕ → Answer → World → Event
  -- POST /api/backup/ready: the body, where it can be read, with its action, where that is a text.
  ready_posted : Option (Option String) → Event

-- What the server of a backup (panthers-fund/src/agent/index.ts) replies to it.
pub data ReadyReply : Type 0 where
  registration_details unknown_action internal_error : ReadyReply

abbrev pub new_backup : Option String → Backup
new_backup endpoint = record {
  state = registering;
  is_heartbeating = false;
  guardian_standby = none;
  guardian_endpoint = endpoint;
  db_path = none;
}

unfoldable pub fallback_to_guardian_polling : Backup → Backup
unfolding start
fallback_to_guardian_polling b = record b {
  state = polling_guardians;
  guardian_standby = some (start new_manager);
}

unfoldable pub on_started : Bool → Backup → Backup
unfolding fallback_to_guardian_polling
on_started registers b =
    if registers
    then record b { state = heartbeating; is_heartbeating = true }
    else fallback_to_guardian_polling b

unfoldable pub on_heartbeat : Bool → Backup → Backup
unfolding fallback_to_guardian_polling
on_heartbeat answers b =
    if b.is_heartbeating && not answers
    then fallback_to_guardian_polling (record b { is_heartbeating = false })
    else b

-- `handlePrimaryFailure`, and the stop of everything after a success.
abbrev pub taken : TakeoverResult → Manager → Backup → Backup
taken (success path) m b = record b {
  is_heartbeating = false;
  guardian_standby = none;
  db_path = some path;
}
taken (lost agent) m b = record b { guardian_standby = some (record m { state = monitoring }) }
taken db_not_recovered m b = record b { guardian_standby = some (record m { state = monitoring }) }
taken out_of_attempts m b = record b { guardian_standby = some (record m { state = monitoring }) }

-- By what is resolved already, and the guardian's endpoint.
unfoldable pub failed_over : World → Option String → Option String → Manager → Backup → Backup
unfolding attempt_takeover
failed_over w (some path) endpoint m b = record b {
  guardian_standby = some (record m { state = monitoring });
}
failed_over w none none m b = record b { guardian_standby = some (record m { state = monitoring }) }
failed_over w none (some endpoint) m b = taken (attempt_takeover w) m b

unfoldable pub handle_primary_failure : World → Manager → Backup → Backup
unfolding failed_over
handle_primary_failure w m b = failed_over w b.db_path b.guardian_endpoint m b

-- `onPoll`: an agent that is active with a fresh heartbeat ends the polling.
unfoldable pub is_back : PollResult → Bool
is_back r = r.agent_active && r.heartbeat_fresh

-- `tick` of the manager, with the callbacks that it is given here.
unfoldable pub manager_tick : ℕ → Answer → World → Manager → Backup → Backup
unfolding poll primary_failed is_back count_poll handle_primary_failure
manager_tick now answer w m b =
    let r = poll now answer in
    if not (is_monitoring m.state)
    then b
    else if primary_failed r
    then handle_primary_failure w (count_poll r m) (record b { state = takeover })
    else if is_back r
    then record b { guardian_standby = none }
    else record b { guardian_standby = some (count_poll r m) }

unfoldable pub polled : ℕ → Answer → World → Option Manager → Backup → Backup
unfolding manager_tick
polled now answer w none b = b
polled now answer w (some m) b = if m.is_polling then manager_tick now answer w m b else b

unfoldable pub on_poll : ℕ → Answer → World → Backup → Backup
unfolding polled
on_poll now answer w b = polled now answer w b.guardian_standby b

unfoldable pub ready_reply : Option (Option String) → ReadyReply
ready_reply none = internal_error
ready_reply (some none) = unknown_action
ready_reply (some (some action)) =
    if str_eq action "takeover" then registration_details else unknown_action

-- The handler replies with the registration details of the backup, and calls nothing of it.
unfoldable pub on_ready : Option (Option String) → Backup → ReadyReply × Backup
unfolding ready_reply
on_ready body b = (ready_reply body, b)

unfoldable pub step : Event → Backup → Backup
unfolding on_started on_heartbeat on_poll on_ready
step (started registers) b = on_started registers b
step (heartbeat_due answers) b = on_heartbeat answers b
step (poll_due now answer w) b = on_poll now answer w b
step (ready_posted body) b = (on_ready body b).1

-- The events after the start.
abbrev pub run : List Event → Backup → Backup
run [] b = b
run (e ∷ events) b = run events (step e b)
