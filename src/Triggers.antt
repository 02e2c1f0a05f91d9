-- ===== src/Triggers.antt =====
-- internal/triggers/manager.go and instance.go: the triggers that run. A manager is the map of its
-- instances; `now` is the time of a call, and what the runtime of the plugins answers is an argument.
-- The rows that are persisted are copies of the instances and are left out.
pub mod Backoff
pub mod Settled
pub mod Delivery
pub mod Contract
pub mod Startup
mod Tests
use aceryx.Prelude.{
  ℕ, ◌+◌, String, Bool, true, false, not, ◌&&◌, ◌||◌, Option, none, some, List, [], ◌∷◌, Result, ok,
  err, fold, leb, ◌==◌, if◌then◌else◌,
}
use aceryx.Prelude.Map.{Map, lookup, insert}
use aceryx.Prelude.Int.{ℤ, pos, ltb_ℤ, not_positive, mul64}

pub data TriggerStatus : Type 0 where
  starting running stopping stopped error_status : TriggerStatus

-- The zero time is `none`.
pub record TriggerInstance : Type 0 where
  pub status : TriggerStatus
  pub started_at : Option ℕ
  pub stopped_at : Option ℕ
  pub restart_count : ℕ
  pub last_backoff : ℤ
  pub error_message : String

-- Durations in nanoseconds.
pub record TriggerManagerConfig : Type 0 where
  pub max_restart_backoff : ℤ
  pub healthy_run_duration : ℕ

abbrev pub or_default : ℤ → ℕ → ℤ
or_default given standard = if not_positive given then pos standard else given

-- The two durations of NewTriggerManager that are used here.
abbrev pub default_backoff : ℤ → ℤ
default_backoff given = or_default given 60000000000

pub data ManagerError : Type 0 where
  not_found not_stopped : ManagerError
  refused start_failed stop_failed : String → ManagerError

-- setStatus, in its three parts.
abbrev pub mark_running : ℕ → TriggerStatus → TriggerInstance → TriggerInstance
mark_running now running inst = record inst {
  started_at = some now;
  stopped_at = none;
  error_message = "";
}
mark_running now _ inst = inst

abbrev pub mark_ended : ℕ → TriggerStatus → TriggerInstance → TriggerInstance
mark_ended now stopped inst = record inst { stopped_at = some now }
mark_ended now error_status inst = record inst { stopped_at = some now }
mark_ended now _ inst = inst

abbrev pub mark_message : String → TriggerInstance → TriggerInstance
mark_message message inst = record inst {
  error_message = if message == "" then inst.error_message else message;
}

unfoldable pub set_status : ℕ → TriggerStatus → String → TriggerInstance → TriggerInstance
set_status now status message inst =
    mark_message message
      (mark_ended now status (mark_running now status (record inst { status = status })))

abbrev pub Manager : Type 0
Manager = Map TriggerInstance

abbrev pub new_instance : TriggerInstance
new_instance = record {
  status = starting;
  started_at = none;
  stopped_at = none;
  restart_count = 0;
  last_backoff = pos 0;
  error_message = "";
}

-- What a call of the runtime gives: nothing, or the text of an error.
abbrev pub Answer : Type 0
Answer = Option String

-- Start: `checked` is the outcome of the checks of the plugin, its contract and its configuration,
-- and `id` the new instance's.
unfoldable pub start_trigger :
    ℕ → String → Answer → Answer → Manager → Manager × Result ManagerError Unit
start_trigger now id (some text) answer m = (m, err (refused text))
start_trigger now id none (some text) m = (m, err (start_failed text))
start_trigger now id none none m = (insert id (set_status now running "" new_instance) m, ok tt)

-- How StopTrigger ended within the time that is given to it.
pub data StopAnswer : Type 0 where
  ended timed_out : StopAnswer
  ended_badly : String → StopAnswer

unfoldable pub stop_instance :
    ℕ → StopAnswer → TriggerInstance → TriggerInstance × Result ManagerError Unit
stop_instance now ended inst = (set_status now stopped "" (set_status now stopping "" inst), ok tt)
stop_instance now timed_out inst = (
  set_status now stopped "graceful stop timeout; forced stop" (set_status now stopping "" inst),
  ok tt,
)
stop_instance now (ended_badly text) inst =
    (set_status now error_status text (set_status now stopping "" inst), err (stop_failed text))

abbrev pub change_instance :
    String
    → (TriggerInstance → TriggerInstance × Result ManagerError Unit)
    → Manager
    → Manager × Result ManagerError Unit
change_instance id change m = elim (lookup id m) [
  | none ↦ (m, err not_found)
  | some inst ↦ (insert id (change inst).0 m, (change inst).1)
]

unfoldable pub stop : ℕ → StopAnswer → String → Manager → Manager × Result ManagerError Unit
stop now answer id m = change_instance id (stop_instance now answer) m

-- StopAll, over the ids that List gives: the first error ends it.
unfoldable pub stop_all :
    ℕ → (String → StopAnswer) → List String → Manager → Manager × Result ManagerError Unit
stop_all now answers [] m = (m, ok tt)
stop_all now answers (id ∷ rest) m =
    let first = stop now (answers id) id m in
    let later = stop_all now answers rest first.0 in
    elim first.1 [ err e ↦ (first.0, err e) | ok _ ↦ later ]

-- Restart after its stop.
unfoldable pub restarted : ℕ → Answer → TriggerInstance → TriggerInstance × Result ManagerError Unit
restarted now (some text) inst = (set_status now error_status text inst, err (start_failed text))
restarted now none inst = (
  record inst {
    restart_count = inst.restart_count + 1;
    status = running;
    started_at = some now;
    stopped_at = none;
  },
  ok tt,
)

-- The tenant of the configuration was read when the instance was started, and is read again.
abbrev pub after_stop :
    ℕ
    → Answer
    → TriggerInstance × Result ManagerError Unit
    → TriggerInstance × Result ManagerError Unit
after_stop now start (inst, err e) = (inst, err e)
after_stop now start (inst, ok _) = restarted now start inst

unfoldable pub restart :
    ℕ → StopAnswer → Answer → String → Manager → Manager × Result ManagerError Unit
restart now answer start id m =
    change_instance id (λ inst. after_stop now start (stop_instance now answer inst)) m

-- The wait before the next restart.
unfoldable pub next_backoff : ℤ → ℤ → ℤ
next_backoff limit last =
    let next = if not_positive last then pos 1000000000 else last in
    if ltb_ℤ limit next
    then limit
    else if not (not_positive last)
    then (let twice = mul64 next 2 in if ltb_ℤ limit twice then limit else twice)
    else next

abbrev pub back_off : TriggerManagerConfig → TriggerInstance → TriggerInstance
back_off config inst = record inst {
  last_backoff = next_backoff config.max_restart_backoff inst.last_backoff;
  restart_count = inst.restart_count + 1;
}

abbrev pub changed_quietly : String → (TriggerInstance → TriggerInstance) → Manager → Manager
changed_quietly id change m = elim (lookup id m) [
  | none ↦ m
  | some inst ↦ insert id (change inst) m
]

-- restartWithBackoff, whose wait ends with the time or, where `cancelled`, with its context.
unfoldable pub restart_with_backoff :
    TriggerManagerConfig → ℕ → Bool → StopAnswer → Answer → String → Manager → Manager
restart_with_backoff config now cancelled answer start id m =
    let waited = changed_quietly id (back_off config) m in
    if cancelled then waited else (restart now answer start id waited).0

-- status == TriggerRunning
abbrev pub is_running : TriggerStatus → Bool
is_running running = true
is_running _ = false

abbrev pub has_run_for : ℕ → ℕ → Option ℕ → Bool
has_run_for least now none = false
has_run_for least now (some started) = leb (started + least) now

abbrev pub reset_backoff : TriggerManagerConfig → ℕ → TriggerInstance → TriggerInstance
reset_backoff config now inst =
    if is_running inst.status && has_run_for config.healthy_run_duration now inst.started_at
    then record inst { last_backoff = pos 0 }
    else inst

unfoldable pub maybe_reset_backoff : TriggerManagerConfig → ℕ → String → Manager → Manager
maybe_reset_backoff config now id m = changed_quietly id (reset_backoff config now) m

abbrev pub is_stopped : TriggerStatus → Bool
is_stopped stopped = true
is_stopped _ = false

-- ResetCheckpoints: whether the checkpoints are deleted, or why not.
unfoldable pub reset_checkpoints : String → Manager → Result ManagerError Unit
reset_checkpoints id m = elim (lookup id m) [
  | none ↦ err not_found
  | some inst ↦ if is_stopped inst.status then ok tt else err not_stopped
]

-- A call of the manager with what the runtime answers to it.
pub data Call : Type 0 where
  starts : ℕ → String → Answer → Answer → Call
  stops : ℕ → StopAnswer → String → Call
  restarts : ℕ → StopAnswer → Answer → String → Call
  stops_all : ℕ → (String → StopAnswer) → List String → Call
  backs_off : ℕ → Bool → StopAnswer → Answer → String → Call
  resets : ℕ → String → Call

unfoldable pub call : TriggerManagerConfig → Manager → Call → Manager
call config m (starts now id checked answer) = (start_trigger now id checked answer m).0
call config m (stops now answer id) = (stop now answer id m).0
call config m (stops_all now answers ids) = (stop_all now answers ids m).0
call config m (restarts now answer start id) = (restart now answer start id m).0
call config m (backs_off now cancelled answer start id) =
    restart_with_backoff config now cancelled answer start id m
call config m (resets now id) = maybe_reset_backoff config now id m

abbrev pub is_failed : TriggerStatus → Bool
is_failed error_status = true
is_failed _ = false

-- HealthMonitor.Check: the calls that it makes, in the order of List, at the time `now`. A restart
-- runs in the background, and may end after later checks.
unfoldable pub health_check : ℕ → Bool → StopAnswer → Answer → Manager → List Call
health_check now cancelled answer start [] = []
health_check now cancelled answer start ((id, inst) ∷ rest) =
    (if is_failed inst.status then backs_off now cancelled answer start id else resets now id)
    ∷ health_check now cancelled answer start rest
