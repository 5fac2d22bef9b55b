-- ===== src/Control/Executor.antt =====
-- The control executor and its clients: `CoreControl` of control/mod.rs and `run`, `drain` of
-- control/executor.rs, in crates/chimera-core-manager/src. The tasks are interleaved as a series of
-- inputs: a client's call, or a step of the executor between two awaits. The queue, a tokio
-- channel, is the list of what was sent and is not yet received. Of the channel this uses what is
-- documented: it is first in first out, a closed channel takes nothing but through a
-- permit that was reserved before, it may be full at any time, and a closed channel has ended once
-- it is empty and no permit is outstanding. What an operation does is its outcome, an input.
pub mod Pending
pub mod Serial
pub mod Drain
mod Examples
use chimera_service.Base.{
  ℕ, ◌+◌, ◌-◌, min, max, Bool, true, false, ◌&&◌, ◌||◌, not, Option, none, some, List, [], ◌∷◌,
  ◌++◌, ◌==◌, if◌then◌else◌, u64_max,
}
use chimera_service.Errors.{CoreError, core_error, CoreErrorKind}
use chimera_service.Control.Registry.{
  Output, OperationState, running, succeeded, failed, Registry, new, Sent, sent, full, closed,
  Admission, registered, refused, admit, set,
}
use chimera_service.Control.Digest.{
  LocalIpcSettings, Command, shutdown, is_shutdown, command_digest, with_local_ipc,
}

pub record Work : Type 0 where
  pub id : ℕ
  pub command : Command

pub data ExecutorExit : Type 0 where
  clean died : ExecutorExit

-- the loop of `run`, its `drain`, and after it
pub data Mode : Type 0 where
  serving : Mode
  draining exited : ExecutorExit → Mode

pub record System : Type 0 where
  pub registry : Registry
  pub queue : List Work
  -- permits of `Sender::reserve` that are neither used nor dropped
  pub permits : ℕ
  pub closing : Bool
  pub current : Option Work
  pub mode : Mode

-- the outcome of an operation's task
pub data Outcome : Type 0 where
  done : Output → Outcome
  error : CoreError → Outcome
  panicked : Outcome

pub data Input : Type 0 where
  -- `CoreControl::submit`; whether the queue is full, and whether the call read the latch before
  -- somebody else closed it
  submit : ℕ → Command → (is_full early : Bool) → Input
  -- `CoreControl::shutdown`: the latch, the reservation, and the admission under the permit
  latch_closing reserve : Input
  send_permit : ℕ → Input
  -- the future of `CoreControl::shutdown` is dropped while it holds a permit
  drop_permit : Input
  -- the executor: it receives work, its task ends, it finds that every sender is gone
  receive : Input
  complete : Outcome → Input
  senders_gone : Input
  -- the drain: one more operation, and the end
  drain_next drain_end : Input

-- `live_registry_capacity`; the queue's capacity is a `usize`
unfoldable pub live_registry_capacity : ℕ → ℕ → ℕ
live_registry_capacity registry_capacity queue_capacity =
    max registry_capacity (min (queue_capacity + 1) u64_max)

-- `CoreControl::spawn`
unfoldable pub spawn : (registry_capacity queue_capacity : ℕ) → System
unfolding live_registry_capacity new
spawn registry_capacity queue_capacity = record {
  registry = new (live_registry_capacity registry_capacity queue_capacity);
  queue = [];
  permits = 0;
  closing = false;
  current = none;
  mode = serving;
}

-- what `try_send` answers
try_send : Mode → Bool → Sent
try_send serving is_full = if is_full then full else sent
try_send _ is_full = closed

abbrev pub is_registered : Admission → Bool
is_registered (registered _) = true
is_registered _ = false

-- an admission, and its enqueue
unfoldable pub admit_work : System → ℕ → Command → Sent → System × Admission
admit_work s id command answer =
    let (registry, admission) = admit s.registry id (command_digest command) answer in
    let s' = record s { registry = registry } in
    (
      if is_registered admission
          then record s' { queue = s.queue ++ record { id = id; command = command } ∷ [] }
          else s',
      admission,
    )

-- `CoreControl::submit`, with the latch as the call read it; the answer names the operation that the
-- handle watches, or the error
unfoldable pub submit_command :
    LocalIpcSettings → System → Bool → ℕ → Command → Bool → System × Admission
unfolding admit_work try_send
submit_command default s closing id command is_full =
    if closing
    then (s, refused (core_error CoreErrorKind.shutting_down false id))
    else let (s', admission) =
        admit_work s id (with_local_ipc default command) (try_send s.mode is_full) in
      (
        record s' { closing = s'.closing || (is_shutdown command && is_registered admission) },
        admission,
      )

abbrev pub set_state : System → ℕ → OperationState → System
set_state s id state = record s { registry = set s.registry id state }

-- an operation of a control plane that is shutting down
abbrev pub shutting_down : ℕ → OperationState
shutting_down id = failed (core_error CoreErrorKind.shutting_down false id)

abbrev pub internal_error : ℕ → OperationState
internal_error id = failed (core_error CoreErrorKind.internal false id)

-- the head of the loop of `run`: the closing latch, and the start of the operation
start_work : System → Work → System
start_work s work =
    if not (is_shutdown work.command) && s.closing
    then set_state s work.id (shutting_down work.id)
    else record (set_state s work.id running) { current = some work }

receive_work : System → Mode → Option Work → List Work → System
unfolding start_work
receive_work s serving none [] = s
receive_work s serving none (work ∷ queue) = start_work (record s { queue = queue }) work
receive_work s _ _ _ = s

-- the `match outcome`, and the `break` after a shutdown
end_work : System → Work → Outcome → System
end_work s work (done output) = record (set_state s work.id (succeeded output)) {
  current = none;
  mode = if is_shutdown work.command then draining clean else serving;
}
end_work s work (error e) = record (set_state s work.id (failed e)) {
  current = none;
  mode = if is_shutdown work.command then draining clean else serving;
}
end_work s work panicked = record (set_state s work.id (internal_error work.id)) {
  current = none;
  closing = true;
  mode = draining died;
}

complete_work : System → Mode → Option Work → Outcome → System
unfolding end_work
complete_work s serving (some work) outcome = end_work s work outcome
complete_work s _ _ outcome = s

-- the state that the drain gives an operation
unfoldable pub drained_state : ExecutorExit → Work → OperationState
drained_state died work = internal_error work.id
drained_state clean work =
    if is_shutdown work.command then succeeded Output.shut_down else shutting_down work.id

drain_work : System → Mode → List Work → System
unfolding drained_state
drain_work s (draining exit) (work ∷ queue) =
    set_state (record s { queue = queue }) work.id (drained_state exit work)
drain_work s _ _ = s

-- `rx.recv()` of the drain gives `None`
end_drain : System → Mode → List Work → System
end_drain s (draining exit) [] = if s.permits == 0 then record s { mode = exited exit } else s
end_drain s _ _ = s

all_gone : System → Mode → Option Work → List Work → System
all_gone s serving none [] = record s { mode = draining clean }
all_gone s _ _ _ = s

take_permit : System → Mode → System
take_permit s serving = record s { permits = s.permits + 1 }
take_permit s _ = s

unfoldable pub step : LocalIpcSettings → System → Input → System
unfolding submit_command receive_work complete_work drain_work end_drain all_gone take_permit
step default s (submit id command is_full early) =
    (submit_command default s (s.closing && not early) id command is_full).0
step default s latch_closing = record s { closing = true }
step default s reserve = take_permit s s.mode
step default s (send_permit id) =
    if s.permits == 0
    then s
    else record (admit_work s id shutdown sent).0 { permits = s.permits - 1 }
step default s drop_permit = record s { permits = s.permits - 1 }
step default s receive = receive_work s s.mode s.current s.queue
step default s (complete outcome) = complete_work s s.mode s.current outcome
step default s senders_gone = if s.permits == 0 then all_gone s s.mode s.current s.queue else s
step default s drain_next = drain_work s s.mode s.queue
step default s drain_end = end_drain s s.mode s.queue

unfoldable pub run : LocalIpcSettings → System → List Input → System
run default s [] = s
run default s (input ∷ inputs) = run default (step default s input) inputs
