-- ===== src/Health.antt =====
-- crates/chimera-core-manager/src/health/mod.rs: the health policy and the transition tracker.
-- An `Instant` and a `Duration` are numbers on one clock; a `NonZeroU32` is a number that the
-- policy's well-formedness says is not 0; a `String` is its UTF-8 bytes.
pub mod Cap
pub mod Streaks
pub mod Invariant
mod Examples
use chimera_service.Base.Text.{Bytes}
use Cap.{cap_detail}
use chimera_service.Base.{
  ℕ, ◌+◌, Bool, true, false, ◌&&◌, not, Option, none, some, List, [], ◌∷◌, ltb, leb, ◌==◌,
  if◌then◌else◌, saturating_suc,
}

pub record HealthThresholds : Type 0 where
  pub failure : ℕ
  pub success : ℕ

pub record HealthPolicySpec : Type 0 where
  pub interval : ℕ
  pub timeout : ℕ
  pub thresholds : HealthThresholds
  pub start_period : ℕ

pub record HealthPolicy : Type 0 where
  pub interval : ℕ
  pub timeout : ℕ
  pub failure_threshold : ℕ
  pub success_threshold : ℕ
  pub start_period : ℕ

pub data PolicyError : Type 0 where
  interval_is_zero timeout_is_zero : PolicyError

pub data PolicyResult : Type 0 where
  ok : HealthPolicy → PolicyResult
  err : PolicyError → PolicyResult

-- `HealthPolicy::new`
unfoldable pub new_policy : HealthPolicySpec → PolicyResult
new_policy spec =
    if spec.interval == 0
    then err interval_is_zero
    else if spec.timeout == 0
    then err timeout_is_zero
    else ok (record {
      interval = spec.interval;
      timeout = spec.timeout;
      failure_threshold = spec.thresholds.failure;
      success_threshold = spec.thresholds.success;
      start_period = spec.start_period;
    })

-- `HealthPolicy::default`, in milliseconds
abbrev pub default_policy : HealthPolicy
default_policy = record {
  interval = 250;
  timeout = 1000;
  failure_threshold = 3;
  success_threshold = 1;
  start_period = 0;
}

pub data ProbeResult : Type 0 where
  healthy : ProbeResult
  unhealthy : Option Bytes → ProbeResult

abbrev pub is_healthy : ProbeResult → Bool
is_healthy healthy = true
is_healthy (unhealthy _) = false

pub data TrackerState : Type 0 where
  starting healthy unhealthy : TrackerState

-- `==` on `TrackerState`
abbrev pub same_state : TrackerState → TrackerState → Bool
same_state TrackerState.starting TrackerState.starting = true
same_state TrackerState.healthy TrackerState.healthy = true
same_state TrackerState.unhealthy TrackerState.unhealthy = true
same_state _ _ = false

pub record TrackerUpdate : Type 0 where
  pub state : TrackerState
  pub transitioned : Bool
  pub consecutive_failures : ℕ
  pub last_error : Option Bytes

pub record HealthTracker : Type 0 where
  pub policy : HealthPolicy
  pub started_at : ℕ
  pub grace_ended : Bool
  pub state : TrackerState
  pub consecutive_failures : ℕ
  pub consecutive_successes : ℕ
  pub last_error : Option Bytes

unfoldable pub new_tracker : HealthPolicy → ℕ → HealthTracker
new_tracker policy started_at = record {
  policy = policy;
  started_at = started_at;
  grace_ended = false;
  state = TrackerState.starting;
  consecutive_failures = 0;
  consecutive_successes = 0;
  last_error = none;
}

-- the `Healthy` arm of `observe`
observe_healthy : HealthTracker → HealthTracker
observe_healthy t =
    let t1 = record t { grace_ended = true; consecutive_failures = 0; last_error = none } in
    let successes = saturating_suc t.consecutive_successes in
    if same_state t.state TrackerState.healthy
    then record t1 { consecutive_successes = 0 }
    else if leb t.policy.success_threshold successes
    then record t1 { state = TrackerState.healthy; consecutive_successes = 0 }
    else record t1 { consecutive_successes = successes }

abbrev cap_error : Option Bytes → Option Bytes
cap_error none = none
cap_error (some detail) = some (cap_detail detail)

-- `let grace_active = !self.grace_ended && now < self.started_at + start_period`
abbrev pub grace_active : HealthTracker → ℕ → Bool
grace_active t now = not t.grace_ended && ltb now (t.started_at + t.policy.start_period)

-- the `Unhealthy` arm of `observe`
observe_unhealthy : HealthTracker → ℕ → Option Bytes → HealthTracker
observe_unhealthy t now detail =
    let t1 = record t { consecutive_successes = 0; last_error = cap_error detail } in
    let failures = saturating_suc t.consecutive_failures in
    if grace_active t now
    then t1
    else if not (same_state t.state TrackerState.unhealthy)
        && leb t.policy.failure_threshold failures
    then record t1 { consecutive_failures = failures; state = TrackerState.unhealthy }
    else record t1 { consecutive_failures = failures }

unfoldable pub observed : HealthTracker → ℕ → ProbeResult → HealthTracker
unfolding observe_healthy observe_unhealthy
observed t now ProbeResult.healthy = observe_healthy t
observed t now (ProbeResult.unhealthy detail) = observe_unhealthy t now detail

-- `HealthTracker::observe`: the tracker after it, and the update that it returns
unfoldable pub observe : HealthTracker → ℕ → ProbeResult → HealthTracker × TrackerUpdate
unfolding observed
observe t now result =
    let t' = observed t now result in
    (
      t',
      record {
        state = t'.state;
        transitioned = not (same_state t.state t'.state);
        consecutive_failures = t'.consecutive_failures;
        last_error = t'.last_error;
      },
    )

-- the tracker after a series of results, each with the time at which it is observed
unfoldable pub observe_all : HealthTracker → List (ℕ × ProbeResult) → HealthTracker
observe_all t [] = t
observe_all t ((now, result) ∷ rest) = observe_all (observe t now result).0 rest
