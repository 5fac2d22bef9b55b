-- ===== src/Instance/Examples.antt =====
-- Runs of the monitor of instance.rs, and the properties at concrete inputs.
use chimera_service.Errors.{Error}
use chimera_service.Health.{ProbeResult, default_policy}
use chimera_service.Manager.State.{InstanceState, StopReason, Reaped}
use chimera_service.Supervisor.{Event, ExitCode}
use chimera_service.Instance.{Settings, Monitor, new_monitor}
use chimera_service.Instance.Reconcile.{Acknowledgement}
use chimera_service.Instance.Loop.{Input, run, answer_request, Answer}
use chimera_service.Instance.Stop.{
  SupervisorStop, StopAnswers, stop_and_confirm_dead, ready_answer, pid,
}
use chimera_service.Instance.Confirmed.{IsStopped, stop_and_confirm_dead-IsStopped}
use chimera_service.Base.{◌≡◌, refl, true, false, none, some, List, [], ◌∷◌, arith}

abbrev settings : Settings
settings = record { startup_timeout = 100; health = default_policy; initial_deadline = 100 }

abbrev accepted : Acknowledgement
accepted = record { acknowledged = true; stops_meanwhile = false }

abbrev probed : List Input
probed =
    Input.event (some (Event.started 42)) 1 1001 7
    ∷ Input.probe_completed 5 1005 ProbeResult.healthy
    ∷ []

abbrev ready : List Input
ready =
    Input.event (some (Event.started 42)) 1 1001 7
    ∷ Input.probe_completed 5 1005 ProbeResult.healthy
    ∷ Input.observe accepted
    ∷ []

abbrev at_end : List Input → Monitor
at_end inputs = run settings (new_monitor 1000) inputs

runs : (at_end ready).shared.status.state ≡ InstanceState.running 42
unfolding run
runs = refl

ready_returns : ready_answer (at_end ready).shared ≡ some none
unfolding ready_answer run
ready_returns = refl

pid_shown : pid (at_end ready).shared ≡ some 42
unfolding pid run
pid_shown = refl

request_driven : answer_request (at_end ready).current (at_end ready).driver ≡ Answer.by_driver
unfolding answer_request run
request_driven = refl

-- an observation of the first run is no use to the second
stale_ignored :
    (at_end (
      Input.event (some (Event.started 42)) 1 1001 7
      ∷ Input.probe_completed 5 1005 ProbeResult.healthy
      ∷ Input.event (some (Event.exited ExitCode.abnormal)) 6 1006 8
      ∷ Input.event (some (Event.restarting 1 10)) 6 1006 8
      ∷ Input.event (some (Event.started 43)) 16 1016 9
      ∷ Input.observe accepted
      ∷ [])).shared.status.state
    ≡ InstanceState.restarting 1
unfolding run
stale_ignored = refl

-- the deadline of the initial start passes with no observation
timed_out :
    (at_end (
      Input.event (some (Event.started 42)) 1 1001 7
      ∷ Input.initial_deadline (λ _. accepted)
      ∷ Input.event (some (Event.exited ExitCode.abnormal)) 101 1101 8
      ∷ Input.event (some Event.stopped) 101 1101 8
      ∷ [])).shared.status.state
    ≡ InstanceState.stopped (StopReason.error Error.startup_timeout)
unfolding run
timed_out = refl

-- an observation that is queued when the deadline passes still counts
drained_in_time :
    (at_end (
      Input.event (some (Event.started 42)) 1 1001 7
      ∷ Input.probe_completed 5 1005 ProbeResult.healthy
      ∷ Input.initial_deadline (λ _. accepted)
      ∷ [])).shared.status.state
    ≡ InstanceState.running 42
unfolding run
drained_in_time = refl

-- a stop that comes while the acknowledgement is awaited is overtaken by `Running`
running_after_stopping :
    (at_end (
      Input.event (some (Event.started 42)) 1 1001 7
      ∷ Input.probe_completed 5 1005 ProbeResult.healthy
      ∷ Input.observe (record { acknowledged = true; stops_meanwhile = true })
      ∷ [])).shared.status.state
    ≡ InstanceState.running 42
unfolding run
running_after_stopping = refl

-- a healthy observation is queued when the stop is requested; the core exits, and its record is gone
abbrev answers : StopAnswers
answers = record {
  while_supervisor =
      Input.observe accepted
      ∷ Input.event (some (Event.exited ExitCode.clean)) 20 1020 8
      ∷ Input.event (some Event.stopped) 20 1020 8
      ∷ [];
  supervisor = SupervisorStop.stopped;
  while_monitor = [];
  has_pid_path = true;
  record_exists = some false;
  reaped = Reaped.not_found;
  confirm_stopped = none;
}

stopped_by_user :
    (stop_and_confirm_dead settings answers (at_end probed)).1.shared.status.state
    ≡ InstanceState.stopped StopReason.user
unfolding stop_and_confirm_dead run
stopped_by_user = refl

-- the supervisor does not stop in time, and the reaper kills
reaped_instead :
    (stop_and_confirm_dead settings
      (record answers {
        while_supervisor = [];
        supervisor = SupervisorStop.timed_out;
        reaped = Reaped.killed;
      })
      (at_end ready)).0
    ≡ none
unfolding stop_and_confirm_dead run
reaped_instead = refl

-- the reaper finds no record, and the status is not terminal: there is no proof
unconfirmed :
    (stop_and_confirm_dead settings
      (record answers { while_supervisor = []; supervisor = SupervisorStop.timed_out })
      (at_end ready)).0
    ≡ some Error.stop_unconfirmed
unfolding stop_and_confirm_dead run
unconfirmed = refl

stop_and_confirm_dead-IsStopped_example :
    IsStopped settings answers
      (run settings (new_monitor 1000) probed)
      (Input.observe accepted ∷ ready)
stop_and_confirm_dead-IsStopped_example =
    stop_and_confirm_dead-IsStopped settings answers 1000 probed (Input.observe accepted ∷ ready)
      (omega arith)
