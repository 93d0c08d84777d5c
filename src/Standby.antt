-- ===== src/Standby.antt =====
-- panthers-fund/src/agent/standby-mode.ts: a backup agent that waits for the fund's agent to fail.
-- Times are in milliseconds. What others answer comes as events.
pub mod Takeover
pub mod Backup
pub mod Monitoring
mod Examples
use attested_capital.Base.{
  ℕ, suc, ◌-◌, ◌/◌, ltb, not, ◌&&◌, ◌||◌, String, Bool, true, false, Option, none, some,
  if◌then◌else◌,
}

pub data StandbyState : Type 0 where
  monitoring takeover_detected waiting_delay requesting_registration : StandbyState
  registered lost_race error : StandbyState

pub record PollResult : Type 0 where
  pub timestamp : ℕ
  pub agent_active : Bool
  pub agent_tee_id : Option String
  pub heartbeat_fresh : Bool
  pub seconds_since_heartbeat : Option ℕ

-- What the guardian answers for the current agent: none (404), no answer that can be read, or an
-- agent with the time of its last heartbeat.
pub data Answer : Type 0 where
  not_found unreadable : Answer
  current : String → Bool → ℕ → Answer

abbrev pub no_agent : ℕ → PollResult
no_agent now = record {
  timestamp = now;
  agent_active = false;
  agent_tee_id = none;
  heartbeat_fresh = false;
  seconds_since_heartbeat = none;
}

-- A heartbeat of the future is no seconds old; the code has a negative number there.
unfoldable pub poll : ℕ → Answer → PollResult
poll now not_found = no_agent now
poll now unreadable = no_agent now
poll now (current tee_id is_active last_heartbeat) =
    let seconds = (now - last_heartbeat) / 1000 in
    record {
      timestamp = now;
      agent_active = is_active;
      agent_tee_id = some tee_id;
      heartbeat_fresh = ltb seconds 300;
      seconds_since_heartbeat = some seconds;
    }

abbrev pub is_missing : Option String → Bool
is_missing none = true
is_missing (some tee_id) = false

unfoldable pub primary_failed : PollResult → Bool
primary_failed r = not r.agent_active || not r.heartbeat_fresh || is_missing r.agent_tee_id

-- The variables of `createStandbyManager`.
pub record Manager : Type 0 where
  pub state : StandbyState
  pub is_polling : Bool
  pub poll_count : ℕ
  pub last_poll_result : Option PollResult
  pub takeover_result : Option String

abbrev pub new_manager : Manager
new_manager = record {
  state = monitoring;
  is_polling = false;
  poll_count = 0;
  last_poll_result = none;
  takeover_result = none;
}

unfoldable pub start : Manager → Manager
start m = record m { state = monitoring; is_polling = true }

unfoldable pub stop : Manager → Manager
stop m = record m { is_polling = false }

unfoldable pub transition_to_registered : Manager → Manager
unfolding stop
transition_to_registered m =
    stop (record m { state = registered; takeover_result = some "success" })

unfoldable pub transition_to_lost_race : Manager → Manager
transition_to_lost_race m = record m { state = monitoring; takeover_result = some "lost_race" }

abbrev pub is_monitoring : StandbyState → Bool
is_monitoring monitoring = true
is_monitoring _ = false

unfoldable pub count_poll : PollResult → Manager → Manager
count_poll r m = record m { poll_count = suc m.poll_count; last_poll_result = some r }

-- `took` is what `onPrimaryFailure` returns for a failed primary.
unfoldable pub tick : ℕ → Answer → Bool → Manager → Manager
unfolding poll primary_failed count_poll
tick now answer took m =
    let r = poll now answer in
    if not (is_monitoring m.state)
    then m
    else if primary_failed r
    then record (count_poll r m) { state = if took then requesting_registration else monitoring }
    else count_poll r m
