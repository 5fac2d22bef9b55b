-- ===== src/Instance/Reconcile.antt =====
-- What one observation of a probe does (`ProbeReconcile`, `observation_applies` and `health_status` of
-- instance.rs).
use chimera_service.Health.{
  TrackerState, TrackerUpdate, same_state, observe, is_healthy, HealthTracker,
}
use chimera_service.Manager.State.{HealthStatus, InstanceState}
use chimera_service.Instance.{
  Settings, Shared, RunState, ProbeObservation, Driver, Monitor, publish_status, request_stop,
  health_state, changed_since, previous_success,
}
use chimera_service.Base.{
  ℕ, suc, Bool, true, false, Option, none, some, List, [], ◌∷◌, ltb, ◌==◌, ◌&&◌, ◌||◌, not,
  if◌then◌else◌,
}

-- what `acknowledge_ready` answers, and whether a stop is requested while it is awaited
pub record Acknowledgement : Type 0 where
  pub acknowledged : Bool
  pub stops_meanwhile : Bool

abbrev pub observation_applies : ProbeObservation → RunState → Bool
observation_applies o run = (o.run_id == run.run_id) && (o.pid == run.pid)

unfoldable pub health_status : Option HealthStatus → TrackerUpdate → ProbeObservation → HealthStatus
health_status previous update o = record {
  state = health_state update.state;
  changed_at = changed_since previous (health_state update.state) o.completed_at_ms;
  consecutive_failures = update.consecutive_failures;
  last_error = update.last_error;
  last_success_at =
      if is_healthy o.result then some o.completed_at_ms else previous_success previous;
}

abbrev pub is_past : Option ℕ → ℕ → Bool
is_past none now = false
is_past (some deadline) now = ltb deadline now

-- `beyond_initial_deadline || beyond_respawn_deadline`
abbrev pub is_late : Settings → Monitor → ProbeObservation → Bool
is_late c m o =
    (not m.ever_ready && ltb c.initial_deadline o.completed_at)
    || is_past m.respawn_deadline o.completed_at

abbrev pub use_liveness : Option Driver → Option Driver
use_liveness none = none
use_liveness (some driver) = some (record driver { uses_liveness = true })

-- publishes the health that an update gives, with the lifecycle
abbrev pub publish_health : InstanceState → TrackerUpdate → ProbeObservation → Shared → Shared
publish_health state update o s =
    publish_status
      (record {
        instance_id = s.status.instance_id;
        state = state;
        health = some (health_status s.status.health update o);
      })
      s

abbrev pub stopped_meanwhile : Bool → Shared → Shared
stopped_meanwhile stops s = if stops then request_stop s else s

-- the branch `should_ack`; the run is marked already
unfoldable pub acknowledge :
    Acknowledgement → RunState → TrackerUpdate → ProbeObservation → Monitor → Monitor × Bool
unfolding publish_status request_stop health_status
acknowledge a run update o m =
    let shared = stopped_meanwhile a.stops_meanwhile m.shared in
    if a.acknowledged
    then (
      record m {
        ever_ready = true;
        respawn_deadline = none;
        current = some (record run { ready = true });
        driver = use_liveness m.driver;
        shared = publish_health (InstanceState.running run.pid) update o shared;
      },
      true,
    )
    else (record m { current = some run; shared = shared }, false)

unfoldable pub apply_update :
    Acknowledgement
    → RunState
    → HealthTracker × TrackerUpdate
    → ProbeObservation
    → Monitor
    → Monitor × Bool
unfolding acknowledge publish_status health_status
apply_update a run observed o m =
    let run' = record run { tracker = observed.0 } in
    if not run.ack_attempted && same_state observed.1.state TrackerState.healthy
    then acknowledge a (record run' { ack_attempted = true }) observed.1 o m
    else (
      record m {
        current = some run';
        shared = publish_health m.shared.status.state observed.1 o m.shared;
      },
      false,
    )

-- `ProbeReconcile::apply`: the monitor after it, and whether the run was acknowledged
unfoldable pub apply_current :
    Settings → Acknowledgement → Option RunState → ProbeObservation → Monitor → Monitor × Bool
unfolding apply_update observe
apply_current c a none o m = (m, false)
apply_current c a (some run) o m =
    if not (observation_applies o run)
    then (m, false)
    else if is_late c m o
    then (m, false)
    else apply_update a run (observe run.tracker o.completed_at o.result) o m

unfoldable pub apply : Settings → Acknowledgement → ProbeObservation → Monitor → Monitor × Bool
unfolding apply_current
apply c a o m = apply_current c a m.current o m

-- `ProbeReconcile::drain`, on what the channel holds; the acknowledgements are given by their number
unfoldable pub drain :
    Settings → (ℕ → Acknowledgement) → List ProbeObservation → Monitor → Monitor × Bool
unfolding apply
drain c acks [] m = (record m { observations = [] }, false)
drain c acks (o ∷ os) m =
    let applied = apply c (acks 0) o (record m { observations = os }) in
    let rest = drain c (λ n. acks (suc n)) os applied.0 in if applied.1 then applied else rest
