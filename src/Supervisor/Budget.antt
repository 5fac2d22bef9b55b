-- ===== src/Supervisor/Budget.antt =====
-- The restart budget of a supervised child (supervisor.rs): `max_restarts` restarts between two
-- times at which the child is ready.
use chimera_service.Base.{
  Bool, ℕ, suc, ◌≤◌, ◌<◌, ◌≡◌, refl, sym, subst, ◌⊎◌, inl, inr, true, false, List, [], ◌∷◌, ◌++◌,
  arith, Bool-cases, u32_max,
}
use chimera_service.Supervisor.{
  RestartPolicy, never, on_failure, Config, Event, started, ready, exited, restarting, gave_up,
  preparation_failed, stopped, Loop, Input, cancel, take_handle, step, spawn, run, is_finished,
}

-- the restarts since the child was last ready, or since the start, given those before the events
abbrev pub restarts_since_ready : ℕ → List Event → ℕ
restarts_since_ready n [] = n
restarts_since_ready n (ready ∷ events) = restarts_since_ready 0 events
restarts_since_ready n (restarting _ _ ∷ events) = restarts_since_ready (suc n) events
restarts_since_ready n (_ ∷ events) = restarts_since_ready n events

restarts-append :
    (n : ℕ) (xs ys : List Event)
    → restarts_since_ready n (xs ++ ys) ≡ restarts_since_ready (restarts_since_ready n xs) ys
restarts-append n [] ys = refl
restarts-append n (started _ ∷ xs) ys = restarts-append n xs ys
restarts-append n (ready ∷ xs) ys = restarts-append 0 xs ys
restarts-append n (exited _ ∷ xs) ys = restarts-append n xs ys
restarts-append n (restarting _ _ ∷ xs) ys = restarts-append (suc n) xs ys
restarts-append n (gave_up ∷ xs) ys = restarts-append n xs ys
restarts-append n (preparation_failed ∷ xs) ys = restarts-append n xs ys
restarts-append n (stopped ∷ xs) ys = restarts-append n xs ys

-- the greatest number of restarts that a policy allows
abbrev pub budget : RestartPolicy → ℕ
budget never = 0
budget (on_failure max_restarts) = max_restarts

-- until the loop ends, `attempt` counts the restarts since the child was last ready
record Counts (c : Config) (s : Loop) (n : ℕ) : Type 0 where
  exact : is_finished s.phase ≡ false → s.attempt ≡ n
  within : n ≤ budget c.policy

step-Counts :
    (c : Config) (s : Loop) (n : ℕ) (input : Input)
    → budget c.policy < u32_max
    → Counts c s n
    → Counts c (step c s input).0 (restarts_since_ready n (step c s input).1)
unfolding step
step-Counts c s n cancel u h = ground arith
step-Counts c s n take_handle u h = ground arith
step-Counts c s n input u h = ground arith

run-Counts :
    (c : Config) (s : Loop) (n : ℕ) (inputs : List Input)
    → budget c.policy < u32_max
    → Counts c s n
    → Counts c (run c s inputs).0 (restarts_since_ready n (run c s inputs).1)
unfolding run
run-Counts c s n [] u h = h
run-Counts c s n (input ∷ inputs) u h =
    let (s', events) = step c s input in
    let rest = (run c s' inputs).1 in
    subst (λ k. Counts c (run c s' inputs).0 k) (sym (restarts-append n events rest))
      (run-Counts c s' (restarts_since_ready n events) inputs u (step-Counts c s n input u h))

-- Whatever happens to a supervised child, the supervisor announces at most `max_restarts` restarts
-- (none under `Never`) from the start or from the last time that the child was ready on, for a
-- `max_restarts` below the greatest u32; and until the loop ends, `attempt` is their number.
pub restart_budget :
    (c : Config) (pid : ℕ) (early : Bool) (inputs : List Input)
    → budget c.policy < u32_max
    → let (s, events) = run c (spawn c pid early).0 inputs in
      (restarts_since_ready 0 events ≤ budget c.policy)
      × ((is_finished s.phase ≡ true) ⊎ (s.attempt ≡ restarts_since_ready 0 events))
unfolding spawn
restart_budget c pid early inputs u =
    let h = run-Counts c (spawn c pid early).0 0 inputs u (omega arith) in
    (
      h.within,
      elim (Bool-cases (is_finished (run c (spawn c pid early).0 inputs).0.phase)) [
        | inl e ↦ inl e
        | inr e ↦ inr (h.exact e)
      ],
    )
