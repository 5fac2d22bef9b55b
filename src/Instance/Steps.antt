-- ===== src/Instance/Steps.antt =====
-- Whatever acts on the monitor of instance.rs, what holds of it still holds.
use chimera_service.Manager.State.{is_terminal}
use chimera_service.Instance.{
  Settings, Shared, RunState, ProbeObservation, Driver, Monitor, publish, publish_status,
  request_stop,
}
use chimera_service.Health.{ProbeResult}
use chimera_service.Instance.Loop.{Input, is_loop, observed_by, settle, on_input, step, run}
use chimera_service.Instance.Kept.{AllBelow, IsSilent, driven}
use chimera_service.Instance.Invariant.{IsValid, settle-IsValid, Steps, on_event-Steps}
use chimera_service.Instance.Branches.{
  on_initial_deadline-Steps, on_respawn_deadline-Steps, on_observation-Steps,
}
use chimera_service.Base.{
  ℕ, ◌+◌, ◌≤◌, ◌<◌, ◌≡◌, refl, ◌∙◌, inl, inr, Bool, true, false, Option, none, some, List, [], ◌∷◌,
  ◌++◌, ◌&&◌, not, arith, u64_max, length, Bool-cases, if◌then◌else◌,
}

pub request_stop-terminal :
    (s : Shared) → is_terminal (request_stop s).status.state ≡ is_terminal s.status.state
unfolding request_stop publish
request_stop-terminal s = elim (Bool-cases (is_terminal s.status.state)) [
  | inl h ↦ rw h h
  | inr h ↦ rw h refl
]

pub request_stop-cancelled : (s : Shared) → (request_stop s).probe_cancel ≡ true
unfolding request_stop publish
request_stop-cancelled s = elim (Bool-cases (is_terminal s.status.state)) [
  | inl h ↦ rw h refl
  | inr h ↦ rw h refl
]

add_observed :
    {n : ℕ} (os : List ProbeObservation) (d : Option Driver) (at at_ms : ℕ) (result : ProbeResult)
    → driven d ≤ n
    → AllBelow n os
    → AllBelow n (os ++ observed_by d at at_ms result)
add_observed [] none at at_ms result h b = tt
add_observed [] (some d) at at_ms result h b = (h, tt)
add_observed (o ∷ os) d at at_ms result h (b, bs) = (b, add_observed os d at at_ms result h bs)

IsSilent-unobserved :
    (current : Option RunState) (os : List ProbeObservation) (at at_ms : ℕ) (result : ProbeResult)
    → IsSilent current os
    → IsSilent current (os ++ observed_by none at at_ms result)
IsSilent-unobserved none os at at_ms result s = tt
IsSilent-unobserved (some r) os at at_ms result s =
    add_observed os none at at_ms result (omega arith) s

pub stop-Steps :
    (c : Settings) (m : Monitor) → IsValid m → Steps m (record m { shared = request_stop m.shared })
stop-Steps c m v = record {
  valid = record {
    terminal = request_stop-terminal m.shared ∙ v.terminal;
    below = v.below;
    driver = v.driver;
    cancelled = λ p. request_stop-cancelled m.shared;
    undriven = v.undriven;
    silent = v.silent;
  };
  next = omega arith;
}

probed-Steps :
    (c : Settings) (at at_ms : ℕ) (result : ProbeResult) (m : Monitor)
    → IsValid m
    → Steps m (record m { observations = m.observations ++ observed_by m.driver at at_ms result })
probed-Steps c at at_ms result m v = record {
  valid = record {
    terminal = v.terminal;
    below = add_observed m.observations m.driver at at_ms result v.driver v.below;
    driver = v.driver;
    cancelled = v.cancelled;
    undriven = v.undriven;
    silent = λ p.
        rw (v.undriven p)
          (IsSilent-unobserved m.current m.observations at at_ms result (v.silent p));
  };
  next = omega arith;
}

-- what another task changes of the shared state, with the status left as it is
shared-Steps :
    (s : Shared) (m : Monitor)
    → is_terminal s.status.state ≡ is_terminal m.shared.status.state
    → (m.shared.probe_cancel ≡ true → s.probe_cancel ≡ true)
    → IsValid m
    → Steps m (record m { shared = s })
shared-Steps s m t k v = record {
  valid = record {
    terminal = t ∙ v.terminal;
    below = v.below;
    driver = v.driver;
    cancelled = λ p. k (v.cancelled p);
    undriven = v.undriven;
    silent = v.silent;
  };
  next = omega arith;
}

on_input-Steps :
    (c : Settings) (input : Input) (m : Monitor)
    → IsValid m
    → (is_loop input ≡ true → m.ended ≡ false)
    → m.next_run_id < u64_max
    → Steps m (on_input c input m)
unfolding on_input publish_status
on_input-Steps c Input.stop m v live h = stop-Steps c m v
on_input-Steps c Input.drop m v live h =
    shared-Steps (record m.shared { probe_cancel = true; cancel = true }) m refl (λ k. refl) v
on_input-Steps c Input.before_spawn m v live h =
    shared-Steps (record m.shared { persistence_error = none }) m refl (λ k. k) v
on_input-Steps c (Input.record_failed error) m v live h =
    shared-Steps (record m.shared { persistence_error = some error; cancel = true }) m refl (λ k. k)
      v
on_input-Steps c (Input.cache_failed error) m v live h =
    let s = record m.shared { persistence_error = some error } in
    shared-Steps (publish_status s.status s) m refl (λ k. k) v
on_input-Steps c (Input.probe_completed at at_ms result) m v live h =
    probed-Steps c at at_ms result m v
on_input-Steps c (Input.event e now now_ms uuid) m v live h =
    on_event-Steps c e now now_ms uuid m v (live refl) h
on_input-Steps c (Input.initial_deadline acks) m v live h =
    on_initial_deadline-Steps c acks m v (live refl)
on_input-Steps c (Input.respawn_deadline acks) m v live h =
    on_respawn_deadline-Steps c acks m v (live refl)
on_input-Steps c (Input.observe a) m v live h =
    on_observation-Steps c a m.observations m refl v (live refl)

pub settle-next : (m : Monitor) → (settle m).next_run_id ≡ m.next_run_id
unfolding settle
settle-next m = elim (Bool-cases (m.shared.probe_cancel && not m.probes_cancelled)) [
  | inl h ↦ rw h refl
  | inr h ↦ rw h refl
]

pub settle-ended : (m : Monitor) → (settle m).ended ≡ m.ended
unfolding settle
settle-ended m = elim (Bool-cases (m.shared.probe_cancel && not m.probes_cancelled)) [
  | inl h ↦ rw h refl
  | inr h ↦ rw h refl
]

pub either_way :
    (b : Bool) (P : Monitor → Type 0) {x y : Monitor}
    → (b ≡ true → P x)
    → (b ≡ false → P y)
    → P (if b then x else y)
either_way true P f g = f refl
either_way false P f g = g refl

pub step-Steps :
    (c : Settings) (m : Monitor) (input : Input)
    → IsValid m
    → m.next_run_id < u64_max
    → Steps m (step c m input)
unfolding step
step-Steps c m input v h =
    either_way (is_loop input) (Steps m)
      (λ l.
        either_way m.ended (Steps m) (λ e. record { valid = v; next = omega arith })
          (λ e.
            let s =
              on_input-Steps c input (settle m) (settle-IsValid m v) (λ p. settle-ended m ∙ e)
                (omega (arith, h, settle-next m)) in
            record { valid = s.valid; next = omega (arith, s.next, settle-next m) }))
      (λ l. on_input-Steps c input m v (λ p. absurd (cc (l, p))) h)

-- the number of a run is below 2^64 if there are fewer inputs than that
pub run-IsValid :
    (c : Settings) (m : Monitor) (inputs : List Input)
    → IsValid m
    → m.next_run_id + length inputs ≤ u64_max
    → IsValid (run c m inputs) × ((run c m inputs).next_run_id ≤ m.next_run_id + length inputs)
unfolding run
run-IsValid c m [] v h = (v, omega arith)
run-IsValid c m (input ∷ inputs) v h =
    let s = step-Steps c m input v (omega (arith, h)) in
    let (w, b) = run-IsValid c (step c m input) inputs s.valid (omega (arith, h, s.next)) in
    (w, omega (arith, b, s.next))
