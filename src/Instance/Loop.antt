-- ===== src/Instance/Loop.antt =====
-- `monitor_loop` of instance.rs, and what acts on the same state beside it. An `Input` is what a branch of
-- the `select!` waits for, or a call from another task; `step` takes one. A branch runs at once, but for the
-- wait for an acknowledgement, in which a stop may come.
use chimera_service.Base.Text.{Bytes}
use chimera_service.Errors.{Error}
use chimera_service.Health.{ProbeResult, new_tracker}
use chimera_service.Manager.State.{InstanceState, StopReason}
use chimera_service.Supervisor.{Event, ExitCode, is_clean}
use chimera_service.Instance.{
  Settings, Shared, ProbeObservation, RunState, Driver, Monitor, publish, publish_status,
  request_stop, reset_starting_health,
}
use chimera_service.Instance.Reconcile.{Acknowledgement, apply, drain}
use chimera_service.Base.{
  ℕ, ◌+◌, min, u64_max, Bool, true, false, Option, none, some, List, [], ◌∷◌, ◌++◌, ◌&&◌, ◌||◌, not,
  is_some, if◌then◌else◌,
}

pub data Input : Type 0 where
  -- a stop is requested; the `Instance` is dropped
  stop drop : Input
  -- the hooks of the supervisor: `before_spawn`, and `record_started` with the error that it answers
  before_spawn : Input
  record_failed : Bytes → Input
  -- a line of the core tells that its cache failed, with a native store
  cache_failed : Bytes → Input
  -- the driver, if one runs, completes an attempt
  probe_completed : (completed_at completed_at_ms : ℕ) → ProbeResult → Input
  -- an event of the supervisor, or the end of its channel: the instant, the time, a new uuid
  event : Option Event → (now now_ms uuid : ℕ) → Input
  -- the deadline of the initial start, and of a respawn, passes
  initial_deadline respawn_deadline : (ℕ → Acknowledgement) → Input
  -- the first observation of the channel is received
  observe : Acknowledgement → Input

-- a branch that ends the task publishes a terminal status
abbrev pub terminate : StopReason → Monitor → Monitor
unfolding publish
terminate reason m = record m {
  driver = none;
  ended = true;
  shared = publish (InstanceState.stopped reason) m.shared;
}

-- `last_exit.is_some_and(|payload| payload.code == Some(0))`
abbrev pub exited_clean : Option ExitCode → Bool
exited_clean none = false
exited_clean (some code) = is_clean code

-- the reason of `publish_terminal`
unfoldable pub terminal_reason : Shared → Option ExitCode → StopReason
terminal_reason s last_exit =
    if s.user_stop
    then StopReason.user
    else if s.probe_timeout
    then StopReason.error Error.startup_timeout
    else if exited_clean last_exit
    then StopReason.finished
    else StopReason.error Error.process

-- the branch of `probe_cancel`, which the biased `select!` takes before any other
unfoldable pub settle : Monitor → Monitor
settle m =
    if m.shared.probe_cancel && not m.probes_cancelled
    then record m {
      probes_cancelled = true;
      driver = none;
      current = none;
      respawn_deadline = none;
    }
    else m

-- the branch of `Started`
unfoldable pub started : Settings → (pid now now_ms uuid : ℕ) → Monitor → Monitor
unfolding publish_status reset_starting_health new_tracker
started c pid now now_ms uuid m =
    let run_id = min (m.next_run_id + 1) u64_max in
    record m {
      next_run_id = run_id;
      shared =
          publish_status
            (record {
              instance_id = some uuid;
              state = m.shared.status.state;
              health = some (reset_starting_health m.shared.status.health now_ms);
            })
            m.shared;
      current = some (record {
        run_id = run_id;
        pid = pid;
        ack_attempted = false;
        ready = false;
        tracker = new_tracker c.health now;
      });
      respawn_deadline = if m.ever_ready then some (now + c.startup_timeout) else none;
      driver =
          if m.probes_cancelled
          then none
          else some (record { run_id = run_id; pid = pid; uses_liveness = false });
    }

unfoldable pub on_event : Settings → Option Event → (now now_ms uuid : ℕ) → Monitor → Monitor
unfolding started publish_status reset_starting_health terminal_reason publish
on_event c none now now_ms uuid m = terminate (terminal_reason m.shared m.last_exit) m
on_event c (some (Event.started pid)) now now_ms uuid m = started c pid now now_ms uuid m
on_event c (some Event.ready) now now_ms uuid m = m
on_event c (some (Event.exited code)) now now_ms uuid m = record m {
  driver = none;
  current = none;
  respawn_deadline = none;
  last_exit = some code;
}
on_event c (some (Event.restarting attempt _)) now now_ms uuid m = record m {
  driver = none;
  current = none;
  respawn_deadline = none;
  shared =
      publish_status
        (record {
          instance_id = none;
          state = InstanceState.restarting attempt;
          health = some (reset_starting_health m.shared.status.health now_ms);
        })
        m.shared;
}
on_event c (some Event.gave_up) now now_ms uuid m = terminate (StopReason.error Error.process) m
on_event c (some Event.preparation_failed) now now_ms uuid m =
    terminate (StopReason.error Error.process) m
on_event c (some Event.stopped) now now_ms uuid m =
    terminate (terminal_reason m.shared m.last_exit) m

-- the deadline was missed: the supervisor is told to kill the tree
abbrev pub give_up : Monitor → Monitor
give_up m = record m {
  current = none;
  respawn_deadline = none;
  driver = none;
  shared = record m.shared { probe_timeout = true; probe_cancel = true; cancel = true };
}

unfoldable pub on_initial_deadline : Settings → (ℕ → Acknowledgement) → Monitor → Monitor
unfolding drain
on_initial_deadline c acks m =
    let drained = drain c acks m.observations m in
    if m.ever_ready || m.timeout_fired
    then m
    else if drained.1 || drained.0.ever_ready
    then drained.0
    else record (give_up drained.0) { timeout_fired = true }

unfoldable pub on_respawn_deadline : Settings → (ℕ → Acknowledgement) → Monitor → Monitor
unfolding drain
on_respawn_deadline c acks m =
    let drained = drain c acks m.observations m in
    if not (is_some m.respawn_deadline)
    then m
    else if drained.1 || not (is_some drained.0.respawn_deadline)
    then drained.0
    else give_up drained.0

unfoldable pub on_observation :
    Settings → Acknowledgement → List ProbeObservation → Monitor → Monitor
unfolding apply
on_observation c a [] m = m
on_observation c a (o ∷ os) m = (apply c a o (record m { observations = os })).0

-- `run_attempt` of a driver, with its end
abbrev pub observed_by : Option Driver → (at at_ms : ℕ) → ProbeResult → List ProbeObservation
observed_by none at at_ms result = []
observed_by (some driver) at at_ms result =
    (record {
      run_id = driver.run_id;
      pid = driver.pid;
      completed_at = at;
      completed_at_ms = at_ms;
      result = result;
    })
    ∷ []

-- what other tasks do: `true` is an input of the loop
abbrev pub is_loop : Input → Bool
is_loop (event _ _ _ _) = true
is_loop (initial_deadline _) = true
is_loop (respawn_deadline _) = true
is_loop (observe _) = true
is_loop _ = false

unfoldable pub on_input : Settings → Input → Monitor → Monitor
unfolding request_stop publish_status on_event on_initial_deadline on_respawn_deadline
    on_observation
on_input c stop m = record m { shared = request_stop m.shared }
on_input c drop m = record m { shared = record m.shared { probe_cancel = true; cancel = true } }
on_input c before_spawn m = record m { shared = record m.shared { persistence_error = none } }
on_input c (record_failed error) m = record m {
  shared = record m.shared { persistence_error = some error; cancel = true };
}
on_input c (cache_failed error) m =
    let shared = record m.shared { persistence_error = some error } in
    record m { shared = publish_status shared.status shared }
on_input c (probe_completed at at_ms result) m = record m {
  observations = m.observations ++ observed_by m.driver at at_ms result;
}
on_input c (event e now now_ms uuid) m = on_event c e now now_ms uuid m
on_input c (initial_deadline acks) m = on_initial_deadline c acks m
on_input c (respawn_deadline acks) m = on_respawn_deadline c acks m
on_input c (observe a) m = on_observation c a m.observations m

-- the loop takes no input once it is over
unfoldable pub step : Settings → Monitor → Input → Monitor
unfolding settle on_input
step c m input =
    if is_loop input
    then (if m.ended then m else on_input c input (settle m))
    else on_input c input m

unfoldable pub run : Settings → Monitor → List Input → Monitor
unfolding step
run c m [] = m
run c m (input ∷ inputs) = run c (step c m input) inputs

-- what `probe_now` is answered with
pub data Answer : Type 0 where
  by_driver driver_not_running instance_not_running : Answer

-- the branch of a request
unfoldable pub answer_request : Option RunState → Option Driver → Answer
answer_request none driver = instance_not_running
answer_request (some run) none = if run.ready then driver_not_running else instance_not_running
answer_request (some run) (some _) = if run.ready then by_driver else instance_not_running
