-- ===== src/Instance/Kept.antt =====
-- What an observation of instance.rs leaves of the monitor, and what it leaves if it is not of the current run.
use chimera_service.Health.{HealthTracker, TrackerUpdate}
use chimera_service.Manager.State.{is_terminal}
use chimera_service.Instance.{
  Settings, RunState, ProbeObservation, Driver, Monitor, publish, publish_status, request_stop,
  Shared,
}
use chimera_service.Instance.Reconcile.{
  Acknowledgement, stopped_meanwhile, use_liveness, acknowledge, apply_update, apply_current, apply,
  drain,
}
use chimera_service.Instance.Loop.{run}
use chimera_service.Base.{
  ℕ, suc, ◌≤◌, ◌<◌, ◌≡◌, refl, sym, ◌∙◌, inl, inr, Bool, true, false, Option, none, some, List, [],
  ◌∷◌, arith, subst, Bool-cases, ◌==◌,
}

-- every observation is of a run before run `n`
abbrev pub AllBelow : ℕ → List ProbeObservation → Type 0
AllBelow n [] = Unit
AllBelow n (o ∷ os) = (o.run_id < n) × AllBelow n os

-- no observation is of the current run
abbrev pub IsSilent : Option RunState → List ProbeObservation → Type 0
IsSilent none os = Unit
IsSilent (some run) os = AllBelow run.run_id os

-- one more than the run of the driver, 0 if there is none
abbrev pub driven : Option Driver → ℕ
driven none = 0
driven (some driver) = suc driver.run_id

-- what a reconcile keeps of the monitor; `IsOpen` is that its status is not terminal
record Kept (m m' : Monitor) : Type 0 where
  pub observations : m'.observations ≡ m.observations
  pub next : m'.next_run_id ≡ m.next_run_id
  pub cancelled : m'.probes_cancelled ≡ m.probes_cancelled
  pub driver : driven m'.driver ≡ driven m.driver
  pub ended : m'.ended ≡ m.ended

abbrev pub IsOpen : Monitor → Type 0
IsOpen m = is_terminal m.shared.status.state ≡ false

request_stop-open :
    (s : Shared)
    → is_terminal s.status.state ≡ false
    → is_terminal (request_stop s).status.state ≡ false
unfolding request_stop publish
request_stop-open s up = rw up refl

stopped_meanwhile-open :
    (b : Bool) (s : Shared)
    → is_terminal s.status.state ≡ false
    → is_terminal (stopped_meanwhile b s).status.state ≡ false
stopped_meanwhile-open true s up = request_stop-open s up
stopped_meanwhile-open false s up = up

driven-use_liveness : (d : Option Driver) → driven (use_liveness d) ≡ driven d
driven-use_liveness none = refl
driven-use_liveness (some d) = refl

acknowledge-Kept :
    (a : Acknowledgement) (r : RunState) (update : TrackerUpdate) (o : ProbeObservation)
    (m : Monitor)
    → IsOpen m
    → Kept m (acknowledge a r update o m).0 × IsOpen (acknowledge a r update o m).0
unfolding acknowledge publish_status request_stop publish
acknowledge-Kept a r update o m up = elim (Bool-cases a.acknowledged) [
  | inl h ↦ rw h (
    record {
      observations = refl;
      next = refl;
      cancelled = refl;
      driver = driven-use_liveness m.driver;
      ended = refl;
    },
    refl,
  )
  | inr h ↦ rw h (
    record { observations = refl; next = refl; cancelled = refl; driver = refl; ended = refl },
    stopped_meanwhile-open a.stops_meanwhile m.shared up,
  )
]

apply_update-Kept :
    (a : Acknowledgement) (r : RunState) (observed : HealthTracker × TrackerUpdate)
    (o : ProbeObservation) (m : Monitor)
    → IsOpen m
    → Kept m (apply_update a r observed o m).0 × IsOpen (apply_update a r observed o m).0
unfolding apply_update publish_status
apply_update-Kept a r observed o m up = ground (
  arith,
  acknowledge-Kept a (record r { tracker = observed.0; ack_attempted = true }) observed.1 o m up,
)

apply_current-Kept :
    (c : Settings) (a : Acknowledgement) (current : Option RunState) (o : ProbeObservation)
    (m : Monitor)
    → IsOpen m
    → Kept m (apply_current c a current o m).0 × IsOpen (apply_current c a current o m).0
unfolding apply_current
apply_current-Kept c a none o m up = ground arith
apply_current-Kept c a (some r) o m up = ground arith

pub weaken : {n k : ℕ} (os : List ProbeObservation) → n ≤ k → AllBelow n os → AllBelow k os
weaken [] h b = tt
weaken (o ∷ os) h (b, bs) = (omega (arith, h, b), weaken os h bs)

apply_current-silent :
    (c : Settings) (a : Acknowledgement) (current : Option RunState) (o : ProbeObservation)
    (os : List ProbeObservation) (m : Monitor)
    → IsSilent current (o ∷ os)
    → apply_current c a current o m ≡ (m, false)
unfolding apply_current
apply_current-silent c a none o os m s = refl
apply_current-silent c a (some r) o os m s =
    let other : (o.run_id == r.run_id) ≡ false = ground (arith, s) in rw other refl

-- once the probes are cancelled, what the channel holds changes nothing
pub apply-silent :
    (c : Settings) (a : Acknowledgement) (o : ProbeObservation) (os : List ProbeObservation)
    (m : Monitor)
    → IsSilent m.current (o ∷ os)
    → apply c a o m ≡ (m, false)
unfolding apply
apply-silent c a o os m s = apply_current-silent c a m.current o os m s

pub IsSilent-rest :
    (current : Option RunState) (o : ProbeObservation) (os : List ProbeObservation)
    → IsSilent current (o ∷ os)
    → IsSilent current os
IsSilent-rest none o os s = tt
IsSilent-rest (some r) o os (s, ss) = ss

pub IsSilent-nil : (current : Option RunState) → IsSilent current []
IsSilent-nil none = tt
IsSilent-nil (some r) = tt

pub drain-silent :
    (c : Settings) (acks : ℕ → Acknowledgement) (os : List ProbeObservation) (m : Monitor)
    → IsSilent m.current os
    → drain c acks os m ≡ (record m { observations = [] }, false)
unfolding drain
drain-silent c acks [] m s = refl
drain-silent c acks (o ∷ os) m s =
    rw (apply-silent c (acks 0) o os (record m { observations = os }) s) (
      drain-silent c (λ n. acks (suc n)) os (record m { observations = os })
        (IsSilent-rest m.current o os s))

-- what a drain keeps
pub record Drains (n : ℕ) (m m' : Monitor) : Type 0 where
  pub below : AllBelow n m'.observations
  pub next : m'.next_run_id ≡ m.next_run_id
  pub cancelled : m'.probes_cancelled ≡ m.probes_cancelled
  pub driver : driven m'.driver ≡ driven m.driver
  pub ended : m'.ended ≡ m.ended
  pub up : IsOpen m'

pub apply-Drains :
    (c : Settings) (a : Acknowledgement) (n : ℕ) (o : ProbeObservation) (os : List ProbeObservation)
    (m : Monitor)
    → AllBelow n os
    → IsOpen m
    → Drains n m (apply c a o (record m { observations = os })).0
unfolding apply
apply-Drains c a n o os m b up =
    let (k, up') = apply_current-Kept c a m.current o (record m { observations = os }) up in
    record {
      below = subst (AllBelow n) (sym k.observations) b;
      next = k.next;
      cancelled = k.cancelled;
      driver = k.driver;
      ended = k.ended;
      up = up';
    }

pub drain-Drains :
    (c : Settings) (acks : ℕ → Acknowledgement) (n : ℕ) (os : List ProbeObservation) (m : Monitor)
    → AllBelow n os
    → IsOpen m
    → Drains n m (drain c acks os m).0
unfolding drain
drain-Drains c acks n [] m b up = record {
  below = tt;
  next = refl;
  cancelled = refl;
  driver = refl;
  ended = refl;
  up = up;
}
drain-Drains c acks n (o ∷ os) m (b, bs) up =
    let applied = apply c (acks 0) o (record m { observations = os }) in
    let d = apply-Drains c (acks 0) n o os m bs up in
    elim (Bool-cases applied.1) [
      | inl h ↦ rw h d
      | inr h ↦
          let e = drain-Drains c (λ k. acks (suc k)) n os applied.0 bs d.up in
          rw h (record {
            below = e.below;
            next = e.next ∙ d.next;
            cancelled = e.cancelled ∙ d.cancelled;
            driver = e.driver ∙ d.driver;
            ended = e.ended ∙ d.ended;
            up = e.up;
          })
    ]
