-- ===== src/Instance/Quiet.antt =====
-- What is left to the monitor of instance.rs once a stop is requested, and what a stop that succeeds has shown.
use chimera_service.Manager.State.{InstanceState, is_terminal}
use chimera_service.Supervisor.{Event}
use chimera_service.Instance.{
  Settings, Shared, ProbeObservation, Monitor, publish, publish_status, request_stop,
}
use chimera_service.Instance.Reconcile.{Acknowledgement}
use chimera_service.Instance.Loop.{
  Input, is_loop, settle, started, on_event, on_initial_deadline, on_respawn_deadline,
  on_observation, on_input,
}
use chimera_service.Instance.Kept.{IsSilent, apply-silent, drain-silent}
use chimera_service.Instance.Steps.{either_way, request_stop-cancelled}
use chimera_service.Base.{
  ℕ, ◌≡◌, refl, inl, inr, Bool, true, false, Option, none, some, List, [], ◌∷◌, ◌&&◌, ◌||◌, not,
  arith, Bool-cases, is_some,
}

abbrev pub is_running : InstanceState → Bool
is_running (InstanceState.running _) = true
is_running _ = false

-- nothing runs, by the status; the probes are cancelled; no start was confirmed that had not been
pub record Downs (m m' : Monitor) : Type 0 where
  pub down : is_running m'.shared.status.state ≡ false
  pub cancelled : m'.shared.probe_cancel ≡ true
  pub ready : m'.ever_ready ≡ m.ever_ready

pub record IsDown (m : Monitor) : Type 0 where
  pub down : is_running m.shared.status.state ≡ false
  pub cancelled : m.shared.probe_cancel ≡ true

pub stay : (m : Monitor) → IsDown m → Downs m m
stay m d = record { down = d.down; cancelled = d.cancelled; ready = refl }

on_event-Downs :
    (c : Settings) (e : Option Event) (now now_ms uuid : ℕ) (m : Monitor)
    → IsDown m
    → Downs m (on_event c e now now_ms uuid m)
unfolding on_event started publish_status publish
on_event-Downs c none now now_ms uuid m d = record {
  down = refl;
  cancelled = d.cancelled;
  ready = refl;
}
on_event-Downs c (some (Event.started pid)) now now_ms uuid m d = record {
  down = d.down;
  cancelled = d.cancelled;
  ready = refl;
}
on_event-Downs c (some Event.ready) now now_ms uuid m d = stay m d
on_event-Downs c (some (Event.exited code)) now now_ms uuid m d = record {
  down = d.down;
  cancelled = d.cancelled;
  ready = refl;
}
on_event-Downs c (some (Event.restarting attempt delay)) now now_ms uuid m d = record {
  down = refl;
  cancelled = d.cancelled;
  ready = refl;
}
on_event-Downs c (some Event.gave_up) now now_ms uuid m d = record {
  down = refl;
  cancelled = d.cancelled;
  ready = refl;
}
on_event-Downs c (some Event.preparation_failed) now now_ms uuid m d = record {
  down = refl;
  cancelled = d.cancelled;
  ready = refl;
}
on_event-Downs c (some Event.stopped) now now_ms uuid m d = record {
  down = refl;
  cancelled = d.cancelled;
  ready = refl;
}

on_initial_deadline-Downs :
    (c : Settings) (acks : ℕ → Acknowledgement) (m : Monitor)
    → IsSilent m.current m.observations
    → IsDown m
    → Downs m (on_initial_deadline c acks m)
unfolding on_initial_deadline
on_initial_deadline-Downs c acks m s d =
    rw (on_initial_deadline, drain-silent c acks m.observations m s)
      (either_way (m.ever_ready || m.timeout_fired) (Downs m) (λ h. stay m d)
        (λ h.
          either_way m.ever_ready (Downs m)
            (λ g. record { down = d.down; cancelled = d.cancelled; ready = refl })
            (λ g. record { down = d.down; cancelled = refl; ready = refl })))

on_respawn_deadline-Downs :
    (c : Settings) (acks : ℕ → Acknowledgement) (m : Monitor)
    → IsSilent m.current m.observations
    → IsDown m
    → Downs m (on_respawn_deadline c acks m)
unfolding on_respawn_deadline
on_respawn_deadline-Downs c acks m s d =
    rw (on_respawn_deadline, drain-silent c acks m.observations m s)
      (either_way (not (is_some m.respawn_deadline)) (Downs m) (λ h. stay m d)
        (λ h.
          either_way (not (is_some m.respawn_deadline)) (Downs m)
            (λ g. record { down = d.down; cancelled = d.cancelled; ready = refl })
            (λ g. record { down = d.down; cancelled = refl; ready = refl })))

on_observation-Downs :
    (c : Settings) (a : Acknowledgement) (os : List ProbeObservation) (m : Monitor)
    → IsSilent m.current os
    → IsDown m
    → Downs m (on_observation c a os m)
unfolding on_observation
on_observation-Downs c a [] m s d = stay m d
on_observation-Downs c a (o ∷ os) m s d =
    rw (on_observation, apply-silent c a o os (record m { observations = os }) s)
      (record { down = d.down; cancelled = d.cancelled; ready = refl })

terminal-down : (state : InstanceState) → is_terminal state ≡ true → is_running state ≡ false
terminal-down (InstanceState.stopped reason) h = refl
terminal-down InstanceState.starting h = absurd (cc h)
terminal-down (InstanceState.running pid) h = absurd (cc h)
terminal-down (InstanceState.restarting attempt) h = absurd (cc h)
terminal-down InstanceState.stopping h = absurd (cc h)

-- a stop that is requested shows in the status
pub request_stop-IsDown : (m : Monitor) → IsDown (record m { shared = request_stop m.shared })
unfolding request_stop publish
request_stop-IsDown m = elim (Bool-cases (is_terminal m.shared.status.state)) [
  | inl h ↦ rw h (record { down = terminal-down m.shared.status.state h; cancelled = refl })
  | inr h ↦ rw h (record { down = refl; cancelled = refl })
]

request_stop-down :
    (s : Shared)
    → is_running s.status.state ≡ false
    → is_running (request_stop s).status.state ≡ false
unfolding request_stop publish
request_stop-down s d = elim (Bool-cases (is_terminal s.status.state)) [
  | inl h ↦ rw h d
  | inr h ↦ rw h refl
]

pub on_input-Downs :
    (c : Settings) (input : Input) (m : Monitor)
    → (is_loop input ≡ true → IsSilent m.current m.observations)
    → IsDown m
    → Downs m (on_input c input m)
unfolding on_input publish_status
on_input-Downs c Input.stop m s d = record {
  down = request_stop-down m.shared d.down;
  cancelled = request_stop-cancelled m.shared;
  ready = refl;
}
on_input-Downs c Input.drop m s d = record { down = d.down; cancelled = refl; ready = refl }
on_input-Downs c Input.before_spawn m s d = record {
  down = d.down;
  cancelled = d.cancelled;
  ready = refl;
}
on_input-Downs c (Input.record_failed error) m s d = record {
  down = d.down;
  cancelled = d.cancelled;
  ready = refl;
}
on_input-Downs c (Input.cache_failed error) m s d = record {
  down = d.down;
  cancelled = d.cancelled;
  ready = refl;
}
on_input-Downs c (Input.probe_completed at at_ms result) m s d = record {
  down = d.down;
  cancelled = d.cancelled;
  ready = refl;
}
on_input-Downs c (Input.event e now now_ms uuid) m s d = on_event-Downs c e now now_ms uuid m d
on_input-Downs c (Input.initial_deadline acks) m s d = on_initial_deadline-Downs c acks m (s refl) d
on_input-Downs c (Input.respawn_deadline acks) m s d = on_respawn_deadline-Downs c acks m (s refl) d
on_input-Downs c (Input.observe a) m s d = on_observation-Downs c a m.observations m (s refl) d

-- the biased branch cancels the probes first
pub record Settled (m m' : Monitor) : Type 0 where
  pub probes : m'.probes_cancelled ≡ true
  pub kept : Downs m m'

pub settle-Settled : (m : Monitor) → IsDown m → Settled m (settle m)
unfolding settle
settle-Settled m d =
    either_way (m.shared.probe_cancel && not m.probes_cancelled) (Settled m)
      (λ h. record {
        probes = refl;
        kept = record { down = d.down; cancelled = d.cancelled; ready = refl };
      })
      (λ h. record { probes = ground (arith, h, d.cancelled); kept = stay m d })
