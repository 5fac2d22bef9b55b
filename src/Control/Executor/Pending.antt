-- ===== src/Control/Executor/Pending.antt =====
-- The queue and the registry (control/executor.rs): an operation that is queued stands in the queue
-- once, and one that runs is the one that the executor works on.
use chimera_service.Base.{
  ℕ, ◌+◌, ◌≡◌, refl, sym, subst, ◌⊎◌, Bool, true, false, Option, none, some, List, [], ◌∷◌, ◌++◌,
  arith, ◌==◌, if◌then◌else◌,
}
use chimera_service.Control.Registry.{
  OperationState, queued, running, succeeded, failed, is_terminal, Operation, get, Registry, new,
  terminal_op, Sent, sent, closed, Admission, registered, existing, refused, admit, set,
}
use chimera_service.Control.Digest.{
  LocalIpcSettings, Command, shutdown, command_digest, with_local_ipc,
}
use chimera_service.Control.Executor.{
  Work, ExecutorExit, clean, died, Mode, serving, draining, exited, System, Outcome, done, error,
  panicked, Input, submit, latch_closing, reserve, send_permit, drop_permit, receive, complete,
  senders_gone, drain_next, drain_end, spawn, admit_work, submit_command, is_registered, try_send,
  start_work, receive_work, end_work, complete_work, drained_state, drain_work, end_drain, all_gone,
  take_permit, step, run, shutting_down, internal_error,
}
use chimera_service.Control.Registry.Laws.{get-set_in}
use chimera_service.Control.Registry.Admit.{admit_lem, AdmitSpec, Untouched}

-- how often an id stands in a queue
abbrev pub count : ℕ → List Work → ℕ
count id [] = 0
count id (work ∷ queue) = (if work.id == id then 1 else 0) + count id queue

-- 1 for a registered operation that is queued, and 1 for one that runs
abbrev pub queued_op : Option Operation → ℕ
queued_op none = 0
queued_op (some op) = elim op.state [ queued ↦ 1 | _ ↦ 0 ]

abbrev pub running_op : Option Operation → ℕ
running_op none = 0
running_op (some op) = elim op.state [ running ↦ 1 | _ ↦ 0 ]

abbrev pub count_current : ℕ → Option Work → ℕ
count_current id none = 0
count_current id (some work) = if work.id == id then 1 else 0

abbrev pub is_serving : Mode → Bool
is_serving serving = true
is_serving _ = false

abbrev pub has_exited : Mode → Bool
has_exited (exited _) = true
has_exited _ = false

count-append :
    (id : ℕ) (xs : List Work) (work : Work)
    → count id (xs ++ work ∷ []) ≡ count id xs + (if work.id == id then 1 else 0)
count-append id [] work = omega arith
count-append id (x ∷ xs) work = omega (arith, count-append id xs work)

-- the queue and the current work are what the registry says of the id
pub record Mirrors (s : System) (id : ℕ) : Type 0 where
  pub in_queue : count id s.queue ≡ queued_op (get id s.registry.operations)
  pub current : count_current id s.current ≡ running_op (get id s.registry.operations)
  pub idle : is_serving s.mode ≡ false → s.current ≡ none
  pub over : has_exited s.mode ≡ true → (s.queue ≡ []) × (s.permits ≡ 0)

set-Mirrors :
    (s : System) (work : Work) (queue : List Work) (state : OperationState) (j : ℕ)
    → s.queue ≡ work ∷ queue
    → Mirrors s j
    → is_terminal state ≡ true
    → Mirrors (record s { queue = queue; registry = set s.registry work.id state }) j
unfolding set is_terminal
set-Mirrors s work queue state j e h t =
    ground (arith, get-set_in work.id j state s.registry.operations, h)

admit-closed : (r : Registry) (id digest : ℕ) → is_registered (admit r id digest closed).1 ≡ false
unfolding admit
admit-closed r id digest = ground arith

admitted-Mirrors :
    (s : System) (id digest : ℕ) (command : Command) (r : Registry) (a : Admission) (j : ℕ)
    → AdmitSpec s.registry id digest r a
    → Untouched s.registry r id j
    → (has_exited s.mode ≡ true → is_registered a ≡ false)
    → Mirrors s j
    → let s' = record s { registry = r } in
      Mirrors
        (if is_registered a
          then record s' { queue = s.queue ++ record { id = id; command = command } ∷ [] }
          else s')
        j
unfolding is_terminal
admitted-Mirrors s id digest command r (existing sequence) j spec u e h = ground (arith, spec, u, h)
admitted-Mirrors s id digest command r (refused why) j spec u e h = ground (arith, spec, u, h)
admitted-Mirrors s id digest command r (registered sequence) j spec u e h =
    ground (arith, spec, u, h, count-append j s.queue (record { id = id; command = command }))

admit_work-Mirrors :
    (s : System) (id : ℕ) (command : Command) (answer : Sent) (j : ℕ)
    → (has_exited s.mode ≡ true → answer ≡ closed)
    → Mirrors s j
    → Mirrors (admit_work s id command answer).0 j
unfolding admit_work
admit_work-Mirrors s id command answer j a h =
    let digest = command_digest command in
    let spec = admit_lem s.registry id digest j answer in
    admitted-Mirrors s id digest command _ (admit s.registry id digest answer).1 j spec.0 spec.1
      (λ e.
        subst (λ w. is_registered (admit s.registry id digest w).1 ≡ false) (sym (a e))
          (admit-closed s.registry id digest))
      h

submit-Mirrors :
    (default : LocalIpcSettings) (s : System) (closing : Bool) (id : ℕ) (command : Command)
    (is_full : Bool) (j : ℕ)
    → Mirrors s j
    → Mirrors (submit_command default s closing id command is_full).0 j
unfolding submit_command try_send
submit-Mirrors default s true id command is_full j h = h
submit-Mirrors default s false id command is_full j h =
    let c = with_local_ipc default command in
    let k = admit_work-Mirrors s id c (try_send s.mode is_full) j (ground arith) h in
    ground (arith, k)

receive-Mirrors :
    (s : System) (mode : Mode) (current : Option Work) (queue : List Work) (j : ℕ)
    → (s.mode ≡ mode) × (s.current ≡ current) × (s.queue ≡ queue)
    → Mirrors s j
    → Mirrors (receive_work s mode current queue) j
unfolding receive_work
receive-Mirrors s serving none (work ∷ queue) j e h =
    unfold start_work set is_terminal in
    ground (
      arith,
      e,
      h,
      get-set_in work.id j running s.registry.operations,
      get-set_in work.id j (shutting_down work.id) s.registry.operations,
    )
receive-Mirrors s serving none [] j e h = h
receive-Mirrors s serving (some work) queue j e h = h
receive-Mirrors s (draining _) current queue j e h = h
receive-Mirrors s (exited _) current queue j e h = h

settle-Mirrors :
    (s : System) (work : Work) (state : OperationState) (mode : Mode) (closing : Bool) (j : ℕ)
    → (s.current ≡ some work) × (is_terminal state ≡ true) × (has_exited mode ≡ false)
    → Mirrors s j
    → Mirrors
        (record s {
          registry = set s.registry work.id state;
          current = none;
          mode = mode;
          closing = closing;
        })
        j
unfolding set is_terminal
settle-Mirrors s work state mode closing j e h =
    ground (arith, e, h, get-set_in work.id j state s.registry.operations)

complete-Mirrors :
    (s : System) (mode : Mode) (current : Option Work) (outcome : Outcome) (j : ℕ)
    → (s.mode ≡ mode) × (s.current ≡ current)
    → Mirrors s j
    → Mirrors (complete_work s mode current outcome) j
unfolding complete_work
complete-Mirrors s serving (some work) (done output) j e h =
    unfold end_work is_terminal in
    settle-Mirrors s work (succeeded output) _ _ j (e.1, refl, ground arith) h
complete-Mirrors s serving (some work) (error why) j e h =
    unfold end_work is_terminal in
    settle-Mirrors s work (failed why) _ _ j (e.1, refl, ground arith) h
complete-Mirrors s serving (some work) panicked j e h =
    unfold end_work is_terminal in
    settle-Mirrors s work (internal_error work.id) _ _ j (e.1, refl, refl) h
complete-Mirrors s serving none outcome j e h = h
complete-Mirrors s (draining _) current outcome j e h = h
complete-Mirrors s (exited _) current outcome j e h = h

drain-Mirrors :
    (s : System) (mode : Mode) (queue : List Work) (j : ℕ)
    → (s.mode ≡ mode) × (s.queue ≡ queue)
    → Mirrors s j
    → Mirrors (drain_work s mode queue) j
unfolding drain_work
drain-Mirrors s (draining exit) (work ∷ queue) j e h =
    set-Mirrors s work queue (drained_state exit work) j e.1 h (drained-terminal exit work)
  where
    drained-terminal :
        (exit : ExecutorExit) (work : Work) → is_terminal (drained_state exit work) ≡ true
    drained-terminal died work = unfold drained_state is_terminal in refl
    drained-terminal clean work = unfold drained_state is_terminal in ground arith
drain-Mirrors s (draining exit) [] j e h = h
drain-Mirrors s serving queue j e h = h
drain-Mirrors s (exited _) queue j e h = h

step-Mirrors :
    (default : LocalIpcSettings) (s : System) (input : Input) (j : ℕ)
    → Mirrors s j
    → Mirrors (step default s input) j
unfolding step
step-Mirrors default s (submit id command is_full early) j h =
    submit-Mirrors default s _ id command is_full j h
step-Mirrors default s latch_closing j h = ground (arith, h)
step-Mirrors default s reserve j h = unfold take_permit in ground (arith, h)
step-Mirrors default s (send_permit id) j h =
    ground (arith, h, admit_work-Mirrors s id shutdown sent j)
step-Mirrors default s drop_permit j h = ground (arith, h)
step-Mirrors default s receive j h =
    receive-Mirrors s s.mode s.current s.queue j (refl, refl, refl) h
step-Mirrors default s (complete outcome) j h =
    complete-Mirrors s s.mode s.current outcome j (refl, refl) h
step-Mirrors default s senders_gone j h = unfold all_gone in ground (arith, h)
step-Mirrors default s drain_next j h = drain-Mirrors s s.mode s.queue j (refl, refl) h
step-Mirrors default s drain_end j h = unfold end_drain in ground (arith, h)

pub run-Mirrors :
    (default : LocalIpcSettings) (s : System) (inputs : List Input) (j : ℕ)
    → Mirrors s j
    → Mirrors (run default s inputs) j
unfolding run
run-Mirrors default s [] j h = h
run-Mirrors default s (input ∷ inputs) j h =
    run-Mirrors default (step default s input) inputs j (step-Mirrors default s input j h)

pub spawn-Mirrors : (n m j : ℕ) → Mirrors (spawn n m) j
unfolding spawn new get
spawn-Mirrors n m j = ground arith

-- At any time and for any id: the id stands in the queue once if the registry has it as queued, and
-- not at all otherwise; and the executor works on it if and only if the registry has it as running.
pub queue_mirrors_registry :
    (default : LocalIpcSettings) (n m : ℕ) (inputs : List Input) (id : ℕ)
    → let s = run default (spawn n m) inputs in
      (count id s.queue ≡ queued_op (get id s.registry.operations))
      × (count_current id s.current ≡ running_op (get id s.registry.operations))
queue_mirrors_registry default n m inputs id =
    let h = run-Mirrors default (spawn n m) inputs id (spawn-Mirrors n m id) in
    (h.in_queue, h.current)

-- Every admitted operation reaches a terminal state: once the executor has exited, cleanly or
-- because an operation panicked, no operation that is still registered is queued or running.
pub exit_settles :
    (default : LocalIpcSettings) (n m : ℕ) (inputs : List Input) (id : ℕ)
    → has_exited (run default (spawn n m) inputs).mode ≡ true
    → let table = (run default (spawn n m) inputs).registry.operations in
      (get id table ≡ none) ⊎ (terminal_op (get id table) ≡ true)
unfolding is_terminal
exit_settles default n m inputs id e =
    ground (arith, run-Mirrors default (spawn n m) inputs id (spawn-Mirrors n m id))
