-- ===== src/Instance/Stop.antt =====
-- `stop_and_confirm_dead` and `wait_ready` of instance.rs: what the supervisor, the monitor and the reaper of
-- pid files answer, and what happens while they are awaited, is given.
use chimera_service.Errors.{Error}
use chimera_service.Manager.State.{InstanceState, StopReason, Reaped, is_terminal}
use chimera_service.Instance.{Settings, Shared, Monitor, publish, request_stop}
use chimera_service.Instance.Loop.{Input, run}
use chimera_service.Base.{ℕ, Bool, true, false, Option, none, some, List, ◌&&◌, ◌||◌, if◌then◌else◌}

-- `Supervisor::stop` under the timeout
pub data SupervisorStop : Type 0 where
  stopped already_exited failed timed_out : SupervisorStop

pub record StopAnswers : Type 0 where
  -- the inputs while the stop of the supervisor is awaited, and while the end of the monitor is
  pub while_supervisor : List Input
  pub supervisor : SupervisorStop
  pub while_monitor : List Input
  -- `epoch_pid_path` answers a path (the config then has a parent directory), and whether there is a file (`none` is an error)
  pub has_pid_path : Bool
  pub record_exists : Option Bool
  pub reaped : Reaped
  -- `confirm_stopped` of the native store, if there is one
  pub confirm_stopped : Option Error

abbrev pub has_stopped : SupervisorStop → Bool
has_stopped SupervisorStop.stopped = true
has_stopped SupervisorStop.already_exited = true
has_stopped _ = false

abbrev pub reap_error : Reaped → Option Error
reap_error Reaped.failed = some Error.process
reap_error _ = none

unfoldable pub reap_epoch_record_if_present : StopAnswers → Option Error
reap_epoch_record_if_present a =
    if a.has_pid_path
    then elim a.record_exists [
      | none ↦ some Error.io
      | some exists ↦ if exists then reap_error a.reaped else none
    ]
    else none

-- what the reaper answers proves that the process is dead
abbrev pub proves_death : Reaped → (terminal : Bool) → Bool
proves_death Reaped.already_exited terminal = true
proves_death Reaped.killed terminal = true
proves_death Reaped.not_found terminal = terminal
proves_death Reaped.failed terminal = false

-- the end of the normal stop
unfoldable pub verify_identity : StopAnswers → Monitor → Option Error × Monitor
unfolding reap_epoch_record_if_present
verify_identity a m = elim (reap_epoch_record_if_present a) [
  | some _ ↦ (some Error.stop_unconfirmed, m)
  | none ↦ (a.confirm_stopped, m)
]

-- the stop by the record of the epoch
unfoldable pub reap_instead : StopAnswers → (terminal : Bool) → Monitor → Option Error × Monitor
unfolding publish
reap_instead a terminal m =
    if a.has_pid_path && proves_death a.reaped terminal
    then (
      a.confirm_stopped,
      if terminal
          then m
          else record m { shared = publish (InstanceState.stopped StopReason.user) m.shared },
    )
    else (some Error.stop_unconfirmed, m)

-- the monitor when both waits are over; it is aborted if it has not ended
abbrev pub awaited : Settings → StopAnswers → Monitor → Monitor
awaited c a m =
    run c (run c (record m { shared = request_stop m.shared }) a.while_supervisor) a.while_monitor

-- `stop_and_confirm_dead`: its error, if it has one
unfoldable pub stop_and_confirm_dead : Settings → StopAnswers → Monitor → Option Error × Monitor
unfolding verify_identity reap_instead
stop_and_confirm_dead c a m =
    let m' = awaited c a m in
    let aborted = record m' { ended = true } in
    let terminal = is_terminal m'.shared.status.state in
    if has_stopped a.supervisor && (m'.ended || terminal)
    then verify_identity a aborted
    else reap_instead a terminal aborted

-- what a round of `wait_ready` makes of the state: it goes on, or returns, with an error or without
unfoldable pub ready_answer : Shared → Option (Option Error)
ready_answer s = elim s.status.state [
  | InstanceState.running _ ↦ some none
  | InstanceState.stopped _ ↦
      some (some (if s.probe_timeout then Error.startup_timeout else Error.startup_failed))
  | InstanceState.starting ↦ none
  | InstanceState.restarting _ ↦ none
  | InstanceState.stopping ↦ none
]

-- `Instance::pid`
unfoldable pub pid : Shared → Option ℕ
pid s = elim s.status.state [ InstanceState.running id ↦ some id | _ ↦ none ]
