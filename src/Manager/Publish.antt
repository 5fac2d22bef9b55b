-- ===== src/Manager/Publish.antt =====
-- What the manager publishes (manager/publish.rs of crates/chimera-core-manager).
pub mod Epochs
use chimera_service.Base.{ℕ, Bool, true, false, ◌&&◌, not, Option, none, some, ◌==◌, if◌then◌else◌}
use chimera_service.Errors.{Error, RevisionId}
use chimera_service.Manager.State.{
  HealthState, HealthStatus, same_health_state, starting_health, StopReason, InstanceState,
  InstanceStatus, CoreState, HealthStatus-discrete, CoreState-discrete, EpochPlan, CoreStatus,
  Environment, Transaction, ◌>>=◌, ◌>>◌, done, modify, ask,
}

unfoldable pub same_state : CoreState → CoreState → Bool
same_state a b = elim (CoreState-discrete a b) [ yes _ ↦ true | no _ ↦ false ]

unfoldable pub same_health : Option HealthStatus → Option HealthStatus → Bool
same_health a b = elim (HealthStatus-discrete a b) [ yes _ ↦ true | no _ ↦ false ]

abbrev pub same_id : Option ℕ → Option ℕ → Bool
same_id none none = true
same_id (some a) (some b) = a == b
same_id _ _ = false

-- the health that a state without an instance begins with, if any
target_health : CoreState → Option HealthState
target_health (CoreState.starting _) = some HealthState.starting
target_health (CoreState.restarting _ _) = some HealthState.starting
target_health (CoreState.switching _ _) = some HealthState.starting
target_health (CoreState.running _ _) = some HealthState.healthy
target_health (CoreState.stopping _) = none
target_health (CoreState.stopped _) = none

kept_health : Option HealthStatus → HealthState → ℕ → HealthStatus
kept_health none target now = record (starting_health now) { state = target }
kept_health (some previous) target now =
    if same_health_state previous.state target
    then previous
    else record (starting_health now) { state = target }

unfoldable pub default_health_for_state : ℕ → Option HealthStatus → CoreState → Option HealthStatus
unfolding target_health kept_health
default_health_for_state now previous state = elim (target_health state) [
  | none ↦ none
  | some target ↦ some (kept_health previous target now)
]

-- `Inner::publish` on the status
unfoldable pub publish_status : ℕ → CoreState → Option EpochPlan → CoreStatus → CoreStatus
unfolding default_health_for_state same_state
publish_status now state plan status = record {
  state = state;
  changed_at = if same_state status.state state then status.changed_at else now;
  instance_id = none;
  health = default_health_for_state now status.health state;
  spec = elim plan [ none ↦ none | some p ↦ some p.source_spec ];
  controller = elim plan [ none ↦ none | some p ↦ some p.controller ];
  revision = elim plan [ none ↦ none | some p ↦ some p.revision ];
}

unfoldable pub publish : Environment → CoreState → Option EpochPlan → Transaction Unit
publish env state plan = do
  now ← ask env.now_ms
  modify (λ s. record s { status = publish_status now state plan s.status })

abbrev is_running : CoreState → Bool
is_running (CoreState.running _ _) = true
is_running _ = false

-- the commit of a running instance that has an id
committed : Option (ℕ × RevisionId) → Bool → Option ℕ → EpochPlan → Option (ℕ × RevisionId)
committed before true (some id) plan = some (id, plan.revision)
committed before _ _ plan = before

-- `Inner::publish_instance` on the status, from the snapshot of the instance
unfoldable pub publish_instance_status :
    ℕ → InstanceStatus → CoreState → EpochPlan → CoreStatus → CoreStatus
publish_instance_status now snapshot state plan status = record {
  state = state;
  changed_at = if same_state status.state state then status.changed_at else now;
  instance_id = snapshot.instance_id;
  health = snapshot.health;
  spec = some plan.source_spec;
  controller = some plan.controller;
  revision = some plan.revision;
}

unfoldable pub publish_instance : Environment → CoreState → EpochPlan → Transaction Unit
unfolding committed
publish_instance env state plan = do
  snapshot ← ask env.instance_status
  now ← ask env.now_ms
  modify (λ s. record s {
    config_commits = committed s.config_commits (is_running state) snapshot.instance_id plan;
    status = publish_instance_status now snapshot state plan s.status;
  })

unfoldable pub publish_terminal_error : Environment → Error → Transaction Unit
publish_terminal_error env error =
    publish env (CoreState.stopped (some (StopReason.error error))) none

unfoldable pub instance_core_state : ℕ → InstanceState → CoreState
instance_core_state epoch InstanceState.starting = CoreState.starting epoch
instance_core_state epoch (InstanceState.running pid) = CoreState.running epoch pid
instance_core_state epoch (InstanceState.restarting attempt) = CoreState.restarting epoch attempt
instance_core_state epoch InstanceState.stopping = CoreState.stopping epoch
instance_core_state epoch (InstanceState.stopped reason) = CoreState.stopped (some reason)

unfoldable pub republish : Environment → Option EpochPlan → Transaction Unit
unfolding instance_core_state publish_instance ◌>>=◌
republish env none = done tt
republish env (some plan) = do
  snapshot ← ask env.instance_status
  publish_instance env (instance_core_state plan.revision.epoch snapshot.state) plan

unfoldable pub republish_retained : Environment → Transaction Unit
unfolding republish
republish_retained env s = republish env s.current s

-- `apply_epoch_status`: the status, and whether it was modified
unfoldable pub apply_epoch_status : ℕ → CoreStatus → ℕ → InstanceStatus → CoreStatus × Bool
unfolding instance_core_state
apply_epoch_status now status epoch instance' =
    if not (same_id (elim status.revision [ none ↦ none | some r ↦ some r.epoch ]) (some epoch))
    then (status, false)
    else let state = instance_core_state epoch instance'.state in
      let same = same_state status.state state in
      if same
        && same_health status.health instance'.health
        && same_id status.instance_id instance'.instance_id
      then (status, false)
      else (
        record status {
          state = state;
          health = instance'.health;
          instance_id = instance'.instance_id;
          changed_at = if same then status.changed_at else now;
        },
        true,
      )
