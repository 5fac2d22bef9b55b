-- ===== src/Control/Executor/Serial.antt =====
-- The life of an operation in the executor (control/executor.rs): the moves between its states, and
-- the closing latch.
use chimera_service.Base.{
  ℕ, ◌≡◌, refl, subst, ◌⊎◌, inl, inr, Bool, true, false, Option, none, some, List, [], ◌∷◌, ◌++◌,
  arith, if◌then◌else◌,
}
use chimera_service.Control.Registry.{
  OperationState, queued, running, succeeded, failed, is_terminal, Operation, get, Registry, Sent,
  sent, Admission, registered, existing, refused, admit, set,
}
use chimera_service.Control.Digest.{
  LocalIpcSettings, Command, shutdown, is_shutdown, command_digest, with_local_ipc,
}
use chimera_service.Control.Executor.{
  Work, Mode, serving, draining, exited, System, Outcome, done, error, panicked, Input, submit,
  latch_closing, reserve, send_permit, drop_permit, receive, complete, senders_gone, drain_next,
  drain_end, spawn, admit_work, submit_command, is_registered, try_send, start_work, receive_work,
  end_work, complete_work, drained_state, drain_work, end_drain, all_gone, take_permit, step, run,
  shutting_down, internal_error,
}
use chimera_service.Control.Registry.Laws.{get-set_in}
use chimera_service.Control.Registry.Admit.{admit_lem, AdmitSpec, Untouched}
use chimera_service.Control.Executor.Pending.{Mirrors, run-Mirrors, spawn-Mirrors}

-- the state of a registered operation
abbrev pub state_in : Option Operation → Option OperationState
state_in none = none
state_in (some op) = some op.state

infix 40 ◌⇒◌
-- the moves of an operation from no entry to no entry
pub data ◌⇒◌ : Option OperationState → Option OperationState → Type 0 where
  stays : {s : Option OperationState} → s ⇒ s
  admitted : none ⇒ some queued
  starts : some queued ⇒ some running
  ends : {s : OperationState} → is_terminal s ≡ true → some running ⇒ some s
  settled : {s : OperationState} → is_terminal s ≡ true → some queued ⇒ some s
  forgotten : {s : OperationState} → is_terminal s ≡ true → some s ⇒ none

-- the same as equations
abbrev Moved : Option OperationState → Option OperationState → Type 0
Moved a b =
    (a ≡ b)
    ⊎ ((a ≡ none) × (b ≡ some queued))
    ⊎ ((a ≡ some queued) × (b ≡ some running))
    ⊎ ((s : OperationState) × (a ≡ some running) × (b ≡ some s) × (is_terminal s ≡ true))
    ⊎ ((s : OperationState) × (a ≡ some queued) × (b ≡ some s) × (is_terminal s ≡ true))
    ⊎ ((s : OperationState) × (a ≡ some s) × (b ≡ none) × (is_terminal s ≡ true))

Moved-⇒ : (a b : Option OperationState) → Moved a b → a ⇒ b
Moved-⇒ a b (inl e) = subst (λ x. a ⇒ x) e stays
Moved-⇒ a b (inr (inl (e, f))) = rw (e, f) admitted
Moved-⇒ a b (inr (inr (inl (e, f)))) = rw (e, f) starts
Moved-⇒ a b (inr (inr (inr (inl (s, e, f, t))))) = rw (e, f) (ends t)
Moved-⇒ a b (inr (inr (inr (inr (inl (s, e, f, t)))))) = rw (e, f) (settled t)
Moved-⇒ a b (inr (inr (inr (inr (inr (s, e, f, t)))))) = rw (e, f) (forgotten t)

-- the entry of an id in a system
abbrev entry : System → ℕ → Option OperationState
entry s id = state_in (get id s.registry.operations)

admitted-Moved :
    (s : System) (id digest : ℕ) (command : Command) (r : Registry) (a : Admission) (j : ℕ)
    → AdmitSpec s.registry id digest r a
    → Untouched s.registry r id j
    → let s' = record s { registry = r } in
      Moved (entry s j) (
        entry
          (if is_registered a
            then record s' { queue = s.queue ++ record { id = id; command = command } ∷ [] }
            else s')
          j)
unfolding is_terminal
admitted-Moved s id digest command r (existing sequence) j spec u = ground (arith, spec, u)
admitted-Moved s id digest command r (refused why) j spec u = ground (arith, spec, u)
admitted-Moved s id digest command r (registered sequence) j spec u = ground (arith, spec, u)

admit_work-Moved :
    (s : System) (id : ℕ) (command : Command) (answer : Sent) (j : ℕ)
    → Moved (entry s j) (entry (admit_work s id command answer).0 j)
unfolding admit_work
admit_work-Moved s id command answer j =
    let digest = command_digest command in
    let spec = admit_lem s.registry id digest j answer in
    admitted-Moved s id digest command _ (admit s.registry id digest answer).1 j spec.0 spec.1

submit-Moved :
    (default : LocalIpcSettings) (s : System) (closing : Bool) (id : ℕ) (command : Command)
    (is_full : Bool) (j : ℕ)
    → Moved (entry s j) (entry (submit_command default s closing id command is_full).0 j)
unfolding submit_command
submit-Moved default s true id command is_full j = inl refl
submit-Moved default s false id command is_full j =
    admit_work-Moved s id (with_local_ipc default command) (try_send s.mode is_full) j

receive-Moved :
    (s : System) (mode : Mode) (current : Option Work) (queue : List Work) (j : ℕ)
    → s.queue ≡ queue
    → Mirrors s j
    → Moved (entry s j) (entry (receive_work s mode current queue) j)
unfolding receive_work
receive-Moved s serving none (work ∷ queue) j e h =
    unfold start_work set is_terminal in
    ground (
      arith,
      e,
      h,
      get-set_in work.id j running s.registry.operations,
      get-set_in work.id j (shutting_down work.id) s.registry.operations,
    )
receive-Moved s serving none [] j e h = inl refl
receive-Moved s serving (some work) queue j e h = inl refl
receive-Moved s (draining _) current queue j e h = inl refl
receive-Moved s (exited _) current queue j e h = inl refl

complete-Moved :
    (s : System) (mode : Mode) (current : Option Work) (outcome : Outcome) (j : ℕ)
    → s.current ≡ current
    → Mirrors s j
    → Moved (entry s j) (entry (complete_work s mode current outcome) j)
unfolding complete_work
complete-Moved s serving (some work) (done output) j e h =
    unfold end_work set is_terminal in
    ground (arith, e, h, get-set_in work.id j (succeeded output) s.registry.operations)
complete-Moved s serving (some work) (error why) j e h =
    unfold end_work set is_terminal in
    ground (arith, e, h, get-set_in work.id j (failed why) s.registry.operations)
complete-Moved s serving (some work) panicked j e h =
    unfold end_work set is_terminal in
    ground (arith, e, h, get-set_in work.id j (internal_error work.id) s.registry.operations)
complete-Moved s serving none outcome j e h = inl refl
complete-Moved s (draining _) current outcome j e h = inl refl
complete-Moved s (exited _) current outcome j e h = inl refl

drain-Moved :
    (s : System) (mode : Mode) (queue : List Work) (j : ℕ)
    → s.queue ≡ queue
    → Mirrors s j
    → Moved (entry s j) (entry (drain_work s mode queue) j)
unfolding drain_work
drain-Moved s (draining exit) (work ∷ queue) j e h =
    unfold set drained_state is_terminal in
    ground (arith, e, h, get-set_in work.id j (drained_state exit work) s.registry.operations)
drain-Moved s (draining exit) [] j e h = inl refl
drain-Moved s serving queue j e h = inl refl
drain-Moved s (exited _) queue j e h = inl refl

step-Moved :
    (default : LocalIpcSettings) (s : System) (input : Input) (j : ℕ)
    → Mirrors s j
    → Moved (entry s j) (entry (step default s input) j)
unfolding step
step-Moved default s (submit id command is_full early) j h =
    submit-Moved default s _ id command is_full j
step-Moved default s latch_closing j h = inl refl
step-Moved default s reserve j h = unfold take_permit in ground arith
step-Moved default s (send_permit id) j h = ground (arith, admit_work-Moved s id shutdown sent j)
step-Moved default s drop_permit j h = inl refl
step-Moved default s receive j h = receive-Moved s s.mode s.current s.queue j refl h
step-Moved default s (complete outcome) j h = complete-Moved s s.mode s.current outcome j refl h
step-Moved default s senders_gone j h = unfold all_gone in ground arith
step-Moved default s drain_next j h = drain-Moved s s.mode s.queue j refl h
step-Moved default s drain_end j h = unfold end_drain in ground arith

-- An operation is queued when it is admitted, runs at most once, and its terminal state is final: at
-- any time, whatever comes next, the entry of an id stays as it is or makes one move of `⇒`.
pub operation_moves :
    (default : LocalIpcSettings) (n m : ℕ) (inputs : List Input) (input : Input) (id : ℕ)
    → let s = run default (spawn n m) inputs in
      state_in (get id s.registry.operations)
      ⇒ state_in (get id (step default s input).registry.operations)
operation_moves default n m inputs input id =
    let s = run default (spawn n m) inputs in
    Moved-⇒ _ _ (
      step-Moved default s input id
        (run-Mirrors default (spawn n m) inputs id (spawn-Mirrors n m id)))

-- what a step leaves as the current work of an executor whose latch is closed
abbrev NothingNew : System → System → Type 0
NothingNew s s' =
    (s'.closing ≡ true)
    × ((s'.current ≡ s.current)
        ⊎ (s'.current ≡ none)
        ⊎ ((work : Work) × (s'.current ≡ some work) × (is_shutdown work.command ≡ true)))

step-NothingNew :
    (default : LocalIpcSettings) (s : System) (input : Input)
    → s.closing ≡ true
    → NothingNew s (step default s input)
unfolding step
step-NothingNew default s (submit id command is_full early) c =
    unfold submit_command admit_work in ground arith
step-NothingNew default s receive c = unfold receive_work start_work in ground arith
step-NothingNew default s (complete outcome) c = unfold complete_work end_work in ground arith
step-NothingNew default s drain_next c = unfold drain_work in ground arith
step-NothingNew default s drain_end c = unfold end_drain in ground arith
step-NothingNew default s latch_closing c = (refl, inl refl)
step-NothingNew default s reserve c = unfold take_permit in ground arith
step-NothingNew default s (send_permit id) c = unfold admit_work in ground arith
step-NothingNew default s drop_permit c = (c, inl refl)
step-NothingNew default s senders_gone c = unfold all_gone in ground arith

run-NothingNew :
    (default : LocalIpcSettings) (s : System) (inputs : List Input)
    → s.closing ≡ true
    → NothingNew s (run default s inputs)
unfolding run
run-NothingNew default s [] c = (c, inl refl)
run-NothingNew default s (input ∷ inputs) c =
    let first = step-NothingNew default s input c in
    let rest = run-NothingNew default (step default s input) inputs first.0 in
    ground (arith, first, rest)

-- The latch stays closed once it is closed, and behind it no operation starts but a shutdown: the
-- executor goes on with the operation that it was working on, or works on none, or on a shutdown.
pub closed_latch :
    (default : LocalIpcSettings) (s : System) (inputs : List Input)
    → s.closing ≡ true
    → let s' = run default s inputs in
      (s'.closing ≡ true)
      × ((s'.current ≡ s.current)
          ⊎ (s'.current ≡ none)
          ⊎ ((work : Work) × (s'.current ≡ some work) × (is_shutdown work.command ≡ true)))
closed_latch default s inputs c = run-NothingNew default s inputs c
