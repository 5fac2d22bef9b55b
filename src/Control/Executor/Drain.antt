-- ===== src/Control/Executor/Drain.antt =====
-- The drain ends (control/executor.rs).
use chimera_service.Base.{
  ℕ, ◌≡◌, refl, sym, subst, ◌⊎◌, true, none, List, [], ◌∷◌, ◌++◌, arith, length, replicate,
}
use chimera_service.Control.Registry.{is_terminal, get, terminal_op}
use chimera_service.Control.Digest.{LocalIpcSettings}
use chimera_service.Control.Executor.{
  Work, ExecutorExit, draining, exited, System, Input, drain_next, drain_end, spawn, drained_state,
  drain_work, end_drain, step, run, set_state,
}
use chimera_service.Control.Executor.Pending.{run-Mirrors, spawn-Mirrors}

-- the rounds of `drain`: one for every operation that is still in the queue, and the end
abbrev pub drain_inputs : ℕ → List Input
drain_inputs n = replicate n drain_next ++ drain_end ∷ []

drain_round :
    (s : System) (exit : ExecutorExit) (work : Work) (queue : List Work)
    → (s.queue ≡ work ∷ queue) × (s.mode ≡ draining exit) × (s.permits ≡ 0)
    → drain_work s s.mode s.queue
      ≡ set_state (record s { queue = queue }) work.id (drained_state exit work)
unfolding drain_work
drain_round s exit work queue e = rw (e.0, e.1) refl

drains :
    (default : LocalIpcSettings) (exit : ExecutorExit) (queue : List Work) (s : System)
    → (s.queue ≡ queue) × (s.mode ≡ draining exit) × (s.permits ≡ 0)
    → (run default s (drain_inputs (length queue))).mode ≡ exited exit
unfolding run step
drains default exit [] s e = unfold end_drain in ground (arith, e)
drains default exit (work ∷ queue) s e =
    subst (λ x. (run default x (drain_inputs (length queue))).mode ≡ exited exit)
      (sym (drain_round s exit work queue e)) (drains default exit queue _ (refl, e.1, e.2))

-- Once a reachable system drains and no permit is outstanding, the drain takes as many rounds as there
-- is work in the queue, then the executor exits the way the drain was entered, and
-- no operation that is still registered is queued or running.
pub drain_ends :
    (default : LocalIpcSettings) (n m : ℕ) (inputs : List Input) (exit : ExecutorExit) (id : ℕ)
    → (run default (spawn n m) inputs).mode ≡ draining exit
    → (run default (spawn n m) inputs).permits ≡ 0
    → let s = run default (spawn n m) inputs in
      let s' = run default s (drain_inputs (length s.queue)) in
      (s'.mode ≡ exited exit)
      × ((get id s'.registry.operations ≡ none)
          ⊎ (terminal_op (get id s'.registry.operations) ≡ true))
unfolding is_terminal
drain_ends default n m inputs exit id d p =
    let s = run default (spawn n m) inputs in
    let over = drains default exit s.queue s (refl, d, p) in
    let h =
      run-Mirrors default s (drain_inputs (length s.queue)) id
        (run-Mirrors default (spawn n m) inputs id (spawn-Mirrors n m id)) in
    (over, ground (arith, over, h))
