-- ===== src/Instance/Runs.antt =====
-- Any series of inputs once a stop is requested (instance.rs).
use chimera_service.Manager.State.{is_terminal}
use chimera_service.Instance.{Settings, Shared, Monitor, publish_status, request_stop}
use chimera_service.Instance.Loop.{Input, is_loop, settle, on_input, step, run}
use chimera_service.Instance.Invariant.{IsValid, settle-IsValid}
use chimera_service.Instance.Steps.{step-Steps, either_way}
use chimera_service.Base.{
  ◌+◌, ◌≤◌, ◌≡◌, refl, ap, ◌∙◌, true, false, List, [], ◌∷◌, arith, u64_max, length,
}
use chimera_service.Instance.Quiet.{is_running, Downs, IsDown, stay, on_input-Downs, settle-Settled}

step-Downs :
    (c : Settings) (m : Monitor) (input : Input) → IsValid m → IsDown m → Downs m (step c m input)
unfolding step
step-Downs c m input v d =
    either_way (is_loop input) (Downs m)
      (λ l.
        either_way m.ended (Downs m) (λ e. stay m d)
          (λ e.
            let s = settle-Settled m d in
            let k =
              on_input-Downs c input (settle m) (λ p. (settle-IsValid m v).silent s.probes)
                (record { down = s.kept.down; cancelled = s.kept.cancelled }) in
            record { down = k.down; cancelled = k.cancelled; ready = k.ready ∙ s.kept.ready }))
      (λ l. on_input-Downs c input m (λ p. absurd (cc (l, p))) d)

-- no status on the way is `Running`
abbrev pub NeverRunning : Settings → Monitor → List Input → Type 0
NeverRunning c m [] = is_running m.shared.status.state ≡ false
NeverRunning c m (input ∷ inputs) =
    (is_running m.shared.status.state ≡ false) × NeverRunning c (step c m input) inputs

pub run-Downs :
    (c : Settings) (m : Monitor) (inputs : List Input)
    → IsValid m
    → IsDown m
    → m.next_run_id + length inputs ≤ u64_max
    → NeverRunning c m inputs × Downs m (run c m inputs)
unfolding run
run-Downs c m [] v d h = (d.down, stay m d)
run-Downs c m (input ∷ inputs) v d h =
    let s = step-Steps c m input v (omega (arith, h)) in
    let e = step-Downs c m input v d in
    let (n, k) =
      run-Downs c (step c m input) inputs s.valid
        (record { down = e.down; cancelled = e.cancelled }) (omega (arith, h, s.next)) in
    ((d.down, n), record { down = k.down; cancelled = k.cancelled; ready = k.ready ∙ e.ready })

-- a monitor that is over keeps its terminal state
pub record Lasts (m m' : Monitor) : Type 0 where
  pub state : m'.shared.status.state ≡ m.shared.status.state
  pub ended : m'.ended ≡ true

request_stop-lasts :
    (s : Shared)
    → is_terminal s.status.state ≡ true
    → (request_stop s).status.state ≡ s.status.state
unfolding request_stop
request_stop-lasts s h = rw h refl

outside-Lasts :
    (c : Settings) (input : Input) (m : Monitor)
    → is_loop input ≡ false
    → m.ended ≡ true
    → is_terminal m.shared.status.state ≡ true
    → Lasts m (on_input c input m)
unfolding on_input publish_status
outside-Lasts c Input.stop m l e h = record { state = request_stop-lasts m.shared h; ended = e }
outside-Lasts c Input.drop m l e h = record { state = refl; ended = e }
outside-Lasts c Input.before_spawn m l e h = record { state = refl; ended = e }
outside-Lasts c (Input.record_failed error) m l e h = record { state = refl; ended = e }
outside-Lasts c (Input.cache_failed error) m l e h = record { state = refl; ended = e }
outside-Lasts c (Input.probe_completed at at_ms result) m l e h = record { state = refl; ended = e }
outside-Lasts c (Input.event _ now now_ms uuid) m l e h = absurd (cc l)
outside-Lasts c (Input.initial_deadline acks) m l e h = absurd (cc l)
outside-Lasts c (Input.respawn_deadline acks) m l e h = absurd (cc l)
outside-Lasts c (Input.observe a) m l e h = absurd (cc l)

pub run-Lasts :
    (c : Settings) (m : Monitor) (inputs : List Input)
    → m.ended ≡ true
    → is_terminal m.shared.status.state ≡ true
    → Lasts m (run c m inputs)
unfolding run step
run-Lasts c m [] e h = record { state = refl; ended = e }
run-Lasts c m (input ∷ inputs) e h =
    let s : Lasts m (step c m input) =
      either_way (is_loop input) (Lasts m)
        (λ l.
          either_way m.ended (Lasts m) (λ g. record { state = refl; ended = e })
            (λ g. absurd (cc (g, e))))
        (λ l. outside-Lasts c input m l e h) in
    let k = run-Lasts c (step c m input) inputs s.ended (ap is_terminal s.state ∙ h) in
    record { state = k.state ∙ s.state; ended = k.ended }
