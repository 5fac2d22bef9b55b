-- ===== src/Instance/Invariant.antt =====
-- What holds of the monitor of instance.rs between two inputs.
use chimera_service.Instance.Kept.{AllBelow, IsSilent, driven, weaken, Drains}
use chimera_service.Manager.State.{is_terminal, StopReason}
use chimera_service.Errors.{Error}
use chimera_service.Supervisor.{Event}
use chimera_service.Instance.{Settings, Monitor, new_monitor, publish, publish_status}
use chimera_service.Instance.Loop.{terminate, terminal_reason, settle, started, on_event}
use chimera_service.Base.{
  ℕ, suc, ◌+◌, ◌≤◌, ◌<◌, ◌≡◌, refl, sym, ◌∙◌, inl, inr, Bool, true, false, Option, none, some,
  arith, u64_max, subst, min, if◌then◌else◌, Bool-cases, ◌&&◌, not,
}

-- What holds between two inputs: the status is terminal just when the monitor has ended; no observation and no
-- driver is of a run that has not started; and once the probes are cancelled there is no driver, and
-- no observation of the current run.
pub record IsValid (m : Monitor) : Type 0 where
  pub terminal : is_terminal m.shared.status.state ≡ m.ended
  pub below : AllBelow (suc m.next_run_id) m.observations
  pub driver : driven m.driver ≤ suc m.next_run_id
  pub cancelled : m.probes_cancelled ≡ true → m.shared.probe_cancel ≡ true
  pub undriven : m.probes_cancelled ≡ true → m.driver ≡ none
  pub silent : m.probes_cancelled ≡ true → IsSilent m.current m.observations

pub new_monitor-IsValid : (now_ms : ℕ) → IsValid (new_monitor now_ms)
new_monitor-IsValid now_ms = record {
  terminal = refl;
  below = tt;
  driver = omega arith;
  cancelled = λ h. h;
  undriven = λ h. refl;
  silent = λ h. tt;
}

pub settle-IsValid : (m : Monitor) → IsValid m → IsValid (settle m)
unfolding settle
settle-IsValid m v = elim (Bool-cases (m.shared.probe_cancel && not m.probes_cancelled)) [
  | inl h ↦ rw h (record {
    terminal = v.terminal;
    below = v.below;
    driver = omega arith;
    cancelled = λ p. ground (arith, h);
    undriven = λ p. refl;
    silent = λ p. tt;
  })
  | inr h ↦ rw h v
]

-- a drain keeps what holds: if the probes are cancelled, it only empties the channel
pub drained-IsValid :
    (m m' : Monitor)
    → IsValid m
    → m.probes_cancelled ≡ false
    → Drains (suc m.next_run_id) m m'
    → m.ended ≡ false
    → IsValid m'
drained-IsValid m m' v p d live = record {
  terminal = d.up ∙ sym live ∙ sym d.ended;
  below = subst (λ n. AllBelow (suc n) m'.observations) (sym d.next) d.below;
  driver = omega (arith, d.driver, d.next, v.driver);
  cancelled = λ h. cc (h, d.cancelled, p);
  undriven = λ h. cc (h, d.cancelled, p);
  silent = λ h. absurd (cc (h, d.cancelled, p));
}

-- what a step keeps
pub record Steps (m m' : Monitor) : Type 0 where
  pub valid : IsValid m'
  pub next : m'.next_run_id ≤ suc m.next_run_id

new_driver :
    (cancelled : Bool) (run_id pid : ℕ)
    → driven (
        if cancelled
        then none
        else some (record { run_id = run_id; pid = pid; uses_liveness = false }))
      ≤ suc run_id
new_driver true run_id pid = omega arith
new_driver false run_id pid = omega arith

started-Steps :
    (c : Settings) (pid now now_ms uuid : ℕ) (m : Monitor)
    → IsValid m
    → m.next_run_id < u64_max
    → Steps m (started c pid now now_ms uuid m)
unfolding started publish_status
started-Steps c pid now now_ms uuid m v h =
    let next : min (m.next_run_id + 1) u64_max ≡ suc m.next_run_id = omega (arith, h) in
    rw next (record {
      valid = record {
        terminal = v.terminal;
        below = weaken m.observations (omega arith) v.below;
        driver = new_driver m.probes_cancelled (suc m.next_run_id) pid;
        cancelled = v.cancelled;
        undriven = λ p. rw p refl;
        silent = λ p. v.below;
      };
      next = omega arith;
    })

terminated-Steps : (reason : StopReason) (m : Monitor) → IsValid m → Steps m (terminate reason m)
unfolding publish
terminated-Steps reason m v = record {
  valid = record {
    terminal = refl;
    below = v.below;
    driver = omega arith;
    cancelled = v.cancelled;
    undriven = λ p. refl;
    silent = v.silent;
  };
  next = omega arith;
}

pub on_event-Steps :
    (c : Settings) (e : Option Event) (now now_ms uuid : ℕ) (m : Monitor)
    → IsValid m
    → m.ended ≡ false
    → m.next_run_id < u64_max
    → Steps m (on_event c e now now_ms uuid m)
unfolding on_event publish_status
on_event-Steps c none now now_ms uuid m v live h =
    terminated-Steps (terminal_reason m.shared m.last_exit) m v
on_event-Steps c (some (Event.started pid)) now now_ms uuid m v live h =
    started-Steps c pid now now_ms uuid m v h
on_event-Steps c (some Event.ready) now now_ms uuid m v live h = record {
  valid = v;
  next = omega arith;
}
on_event-Steps c (some (Event.exited code)) now now_ms uuid m v live h = record {
  valid = record {
    terminal = v.terminal;
    below = v.below;
    driver = omega arith;
    cancelled = v.cancelled;
    undriven = λ p. refl;
    silent = λ p. tt;
  };
  next = omega arith;
}
on_event-Steps c (some (Event.restarting attempt delay)) now now_ms uuid m v live h = record {
  valid = record {
    terminal = sym live;
    below = v.below;
    driver = omega arith;
    cancelled = v.cancelled;
    undriven = λ p. refl;
    silent = λ p. tt;
  };
  next = omega arith;
}
on_event-Steps c (some Event.gave_up) now now_ms uuid m v live h =
    terminated-Steps (StopReason.error Error.process) m v
on_event-Steps c (some Event.preparation_failed) now now_ms uuid m v live h =
    terminated-Steps (StopReason.error Error.process) m v
on_event-Steps c (some Event.stopped) now now_ms uuid m v live h =
    terminated-Steps (terminal_reason m.shared m.last_exit) m v
