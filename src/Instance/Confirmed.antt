-- ===== src/Instance/Confirmed.antt =====
-- What `stop_and_confirm_dead` of instance.rs answers, whatever happens while it waits.
use chimera_service.Errors.{Error}
use chimera_service.Manager.State.{InstanceState, StopReason, is_terminal}
use chimera_service.Instance.{Settings, Monitor, new_monitor, publish, request_stop}
use chimera_service.Instance.Loop.{Input, run}
use chimera_service.Instance.Stop.{
  StopAnswers, has_stopped, reap_epoch_record_if_present, proves_death, verify_identity,
  reap_instead, awaited, stop_and_confirm_dead,
}
use chimera_service.Instance.Invariant.{new_monitor-IsValid}
use chimera_service.Instance.Steps.{stop-Steps, run-IsValid}
use chimera_service.Instance.Quiet.{request_stop-IsDown}
use chimera_service.Instance.Runs.{NeverRunning, run-Downs, run-Lasts}
use chimera_service.Base.{
  ℕ, ◌+◌, ◌≤◌, ◌≡◌, refl, ap, ◌∙◌, inl, inr, Bool, true, false, Option, none, List, ◌&&◌, ◌||◌,
  arith, ℕ, u64_max, length, Bool-cases, Option-cases, is_some, if◌then◌else◌, ◌⊎◌,
}

-- what proves the death: the stop and the check of the record by the normal way, or else the reaper
abbrev pub IsProven : StopAnswers → (terminal : Bool) → Type 0
IsProven a terminal =
    ((has_stopped a.supervisor ≡ true) × (reap_epoch_record_if_present a ≡ none))
    ⊎ ((a.has_pid_path ≡ true) × (proves_death a.reaped terminal ≡ true))

-- the stop has no error
pub record IsConfirmed (c : Settings) (a : StopAnswers) (terminal : Bool) (after : List Input)
    (stop : Option Error × Monitor) : Type 0 where
  pub answer : stop.0 ≡ none
  pub proven : IsProven a terminal
  pub store : a.confirm_stopped ≡ none
  pub stopped : is_terminal stop.1.shared.status.state ≡ true
  pub lasts : (run c stop.1 after).shared.status.state ≡ stop.1.shared.status.state

abbrev pub IsOutcome :
    Settings → StopAnswers → (terminal : Bool) → List Input → Option Error × Monitor → Type 0
IsOutcome c a terminal after stop = (is_some stop.0 ≡ true) ⊎ IsConfirmed c a terminal after stop

pub record IsStopped (c : Settings) (a : StopAnswers) (m : Monitor) (after : List Input)
    : Type 0 where
  pub while_supervisor :
      NeverRunning c (record m { shared = request_stop m.shared }) a.while_supervisor
  pub while_monitor :
      NeverRunning c
        (run c (record m { shared = request_stop m.shared }) a.while_supervisor)
        a.while_monitor
  pub ready : (awaited c a m).ever_ready ≡ m.ever_ready
  pub outcome :
      IsOutcome c a
        (is_terminal (awaited c a m).shared.status.state)
        after
        (stop_and_confirm_dead c a m)

-- the native store has the last word
by_store :
    (c : Settings) (a : StopAnswers) (terminal : Bool) (after : List Input) (m : Monitor)
    → IsProven a terminal
    → m.ended ≡ true
    → is_terminal m.shared.status.state ≡ true
    → IsOutcome c a terminal after (a.confirm_stopped, m)
by_store c a terminal after m proven ended stopped = elim (Option-cases a.confirm_stopped) [
  | inl h ↦ inr (record {
    answer = h;
    proven = proven;
    store = h;
    stopped = stopped;
    lasts = (run-Lasts c m after ended stopped).state;
  })
  | inr (error, h) ↦ inl (ap is_some h)
]

verify_identity-IsOutcome :
    (c : Settings) (a : StopAnswers) (terminal : Bool) (after : List Input) (m : Monitor)
    → has_stopped a.supervisor ≡ true
    → m.ended ≡ true
    → is_terminal m.shared.status.state ≡ true
    → IsOutcome c a terminal after (verify_identity a m)
unfolding verify_identity
verify_identity-IsOutcome c a terminal after m good ended stopped =
    elim (Option-cases (reap_epoch_record_if_present a)) [
      | inl h ↦
          rw (verify_identity, h) (by_store c a terminal after m (inl (good, h)) ended stopped)
      | inr (error, h) ↦ rw (verify_identity, h) (inl refl)
    ]

by_reaper :
    (c : Settings) (a : StopAnswers) (after : List Input) (terminal : Bool) (m : Monitor)
    → IsProven a terminal
    → m.ended ≡ true
    → is_terminal m.shared.status.state ≡ terminal
    → IsOutcome c a terminal after (
      a.confirm_stopped,
      if terminal
          then m
          else record m { shared = publish (InstanceState.stopped StopReason.user) m.shared },
    )
unfolding publish
by_reaper c a after true m proven ended state = by_store c a true after m proven ended state
by_reaper c a after false m proven ended state =
    by_store c a false after
      (record m { shared = publish (InstanceState.stopped StopReason.user) m.shared }) proven ended
      refl

reap_instead-IsOutcome :
    (c : Settings) (a : StopAnswers) (terminal : Bool) (after : List Input) (m : Monitor)
    → m.ended ≡ true
    → is_terminal m.shared.status.state ≡ terminal
    → IsOutcome c a terminal after (reap_instead a terminal m)
unfolding reap_instead
reap_instead-IsOutcome c a terminal after m ended state =
    elim (Bool-cases (a.has_pid_path && proves_death a.reaped terminal)) [
      | inl h ↦
          rw h (
            by_reaper c a after terminal m (inr (ground (arith, h), ground (arith, h))) ended state)
      | inr h ↦ rw h (inl refl)
    ]

outcome_lem :
    (c : Settings) (a : StopAnswers) (after : List Input) (m : Monitor)
    → is_terminal (awaited c a m).shared.status.state ≡ (awaited c a m).ended
    → IsOutcome c a
        (is_terminal (awaited c a m).shared.status.state)
        after
        (stop_and_confirm_dead c a m)
unfolding stop_and_confirm_dead
outcome_lem c a after m agree =
    let w = awaited c a m in
    let aborted = record w { ended = true } in
    let terminal = is_terminal w.shared.status.state in
    elim (Bool-cases (has_stopped a.supervisor && (w.ended || terminal))) [
      | inl h ↦ rw h (
          verify_identity-IsOutcome c a terminal after aborted (ground (arith, h)) refl
            (ground (arith, h, agree)))
      | inr h ↦ rw h (reap_instead-IsOutcome c a terminal after aborted refl refl)
    ]

-- An instance that has handled any inputs is stopped, at a time when no acknowledgement is awaited; the
-- inputs before and while the stop waits are fewer than 2^64. While it waits, whatever comes (a
-- healthy observation that is queued, an event of the supervisor, a deadline), the status is never
-- `Running`, and no start is confirmed that had not been. The stop answers an error, or else: the supervisor
-- stopped and the check of the pid record had no error, or the reaper found the process of the record dead
-- or killed it, or found no record with the status terminal; the native store has no error; the state is `Stopped`,
-- and no later input changes it.
pub stop_and_confirm_dead-IsStopped :
    (c : Settings) (a : StopAnswers) (now_ms : ℕ) (before after : List Input)
    → length before + (length a.while_supervisor + length a.while_monitor) ≤ u64_max
    → IsStopped c a (run c (new_monitor now_ms) before) after
stop_and_confirm_dead-IsStopped c a now_ms before after h =
    let m = run c (new_monitor now_ms) before in
    let (v, b) =
      run-IsValid c (new_monitor now_ms) before (new_monitor-IsValid now_ms) (omega (arith, h)) in
    let m1 = record m { shared = request_stop m.shared } in
    let v1 = (stop-Steps c m v).valid in
    let (n2, d2) =
      run-Downs c m1 a.while_supervisor v1 (request_stop-IsDown m) (omega (arith, b, h)) in
    let (v2, b2) = run-IsValid c m1 a.while_supervisor v1 (omega (arith, b, h)) in
    let (n3, d3) =
      run-Downs c (run c m1 a.while_supervisor) a.while_monitor v2
        (record { down = d2.down; cancelled = d2.cancelled }) (omega (arith, b, b2, h)) in
    let (v3, b3) =
      run-IsValid c (run c m1 a.while_supervisor) a.while_monitor v2 (omega (arith, b, b2, h)) in
    record {
      while_supervisor = n2;
      while_monitor = n3;
      ready = d3.ready ∙ d2.ready;
      outcome = outcome_lem c a after m v3.terminal;
    }
