-- ===== src/Instance.antt =====
-- crates/chimera-core-manager/src/instance.rs: what an instance shares with its monitor, and the monitor's
-- state. The log of the core is not here (see Log), nor are the texts of a stop reason: the error in one
-- tells a health probe that timed out from the rest. A uuid is a number; an `Instant` and a time
-- in milliseconds are numbers on clocks of their own.
pub mod Reconcile
pub mod Loop
pub mod Stop
pub mod Kept
pub mod Invariant
pub mod Branches
pub mod Steps
pub mod Quiet
pub mod Runs
pub mod Confirmed
mod Examples
use chimera_service.Base.Text.{Bytes}
use chimera_service.Health.{HealthPolicy, HealthTracker, ProbeResult, TrackerState}
use chimera_service.Manager.State.{
  HealthState, HealthStatus, InstanceState, InstanceStatus, is_terminal, same_health_state,
  starting_health,
}
use chimera_service.Supervisor.{ExitCode}
use chimera_service.Base.{ℕ, Bool, true, false, Option, none, some, List, [], if◌then◌else◌}

-- what `MonitorLoopArgs` has of the options, and the deadline of the initial start
pub record Settings : Type 0 where
  pub startup_timeout : ℕ
  pub health : HealthPolicy
  pub initial_deadline : ℕ

-- the fields of `Shared` that the monitor and a stop act on; `status` is what the watch channel holds
pub record Shared : Type 0 where
  pub persistence_error : Option Bytes
  pub status : InstanceStatus
  pub user_stop : Bool
  pub probe_timeout : Bool
  pub cancel : Bool
  pub probe_cancel : Bool

pub record RunState : Type 0 where
  pub run_id : ℕ
  pub pid : ℕ
  pub ack_attempted : Bool
  pub ready : Bool
  pub tracker : HealthTracker

-- without its phase, which is only traced
pub record ProbeObservation : Type 0 where
  pub run_id : ℕ
  pub pid : ℕ
  pub completed_at : ℕ
  pub completed_at_ms : ℕ
  pub result : ProbeResult

-- a `ProbeDriver` that runs: the run that it probes, and whether it was told to use the liveness probe
pub record Driver : Type 0 where
  pub run_id : ℕ
  pub pid : ℕ
  pub uses_liveness : Bool

-- the variables of `monitor_loop`, the observations that its channel holds, and whether the task is over
pub record Monitor : Type 0 where
  pub shared : Shared
  pub ever_ready : Bool
  pub timeout_fired : Bool
  pub probes_cancelled : Bool
  pub next_run_id : ℕ
  pub current : Option RunState
  pub driver : Option Driver
  pub respawn_deadline : Option ℕ
  pub last_exit : Option ExitCode
  pub observations : List ProbeObservation
  pub ended : Bool

-- `InstanceStatus::initial`
abbrev pub initial_status : (now_ms : ℕ) → InstanceStatus
initial_status now_ms = record {
  instance_id = none;
  state = InstanceState.starting;
  health = some (starting_health now_ms);
}

-- what `spawn_configured` starts the monitor with
abbrev pub new_monitor : (now_ms : ℕ) → Monitor
new_monitor now_ms = record {
  shared = record {
    persistence_error = none;
    status = initial_status now_ms;
    user_stop = false;
    probe_timeout = false;
    cancel = false;
    probe_cancel = false;
  };
  ever_ready = false;
  timeout_fired = false;
  probes_cancelled = false;
  next_run_id = 0;
  current = none;
  driver = none;
  respawn_deadline = none;
  last_exit = none;
  observations = [];
  ended = false;
}

abbrev pub clears_health : InstanceState → Bool
clears_health InstanceState.stopping = true
clears_health (InstanceState.stopped _) = true
clears_health _ = false

-- `Shared::publish`
unfoldable pub publish : InstanceState → Shared → Shared
publish state s =
    if clears_health state
    then record s { status = record { instance_id = none; state = state; health = none } }
    else record s { status = record s.status { state = state } }

abbrev pub with_error : Option Bytes → Option HealthStatus → Option HealthStatus
with_error (some error) (some health) =
    some (record health { state = HealthState.unhealthy; last_error = some error })
with_error none health = health
with_error (some _) none = none

-- `Shared::publish_status`
unfoldable pub publish_status : InstanceStatus → Shared → Shared
publish_status status s = record s {
  status = record status { health = with_error s.persistence_error status.health };
}

-- the lines of `stop_and_confirm_dead` up to the stop of the supervisor
unfoldable pub request_stop : Shared → Shared
unfolding publish
request_stop s =
    let s' = record s { user_stop = true; probe_cancel = true } in
    if is_terminal s.status.state then s' else publish InstanceState.stopping s'

-- `previous.filter(|status| status.state == state).map_or(now, |status| status.changed_at)`
abbrev pub changed_since : Option HealthStatus → HealthState → (now : ℕ) → ℕ
changed_since none state now = now
changed_since (some previous) state now =
    if same_health_state previous.state state then previous.changed_at else now

unfoldable pub reset_starting_health : Option HealthStatus → (now_ms : ℕ) → HealthStatus
reset_starting_health previous now_ms = record {
  state = HealthState.starting;
  changed_at = changed_since previous HealthState.starting now_ms;
  consecutive_failures = 0;
  last_error = none;
  last_success_at = none;
}

abbrev pub health_state : TrackerState → HealthState
health_state TrackerState.starting = HealthState.starting
health_state TrackerState.healthy = HealthState.healthy
health_state TrackerState.unhealthy = HealthState.unhealthy

abbrev pub previous_success : Option HealthStatus → Option ℕ
previous_success none = none
previous_success (some previous) = previous.last_success_at
