-- ===== src/Manager/Reconcile.antt =====
-- The entry points of the apply and reconcile transactions (manager/apply.rs and manager/reconcile.rs of
-- crates/chimera-core-manager).
pub mod InPlace
pub mod Keeps
pub mod Claims
use chimera_service.Base.{ℕ, ◌+◌, Bool, true, false, Option, none, some, if◌then◌else◌}
use chimera_service.Errors.{Error, RevisionId}
use chimera_service.Manager.State.{
  Result, ok, err, is_terminal, InstanceStatus, CoreState, EpochPlan, ConfigChange, noop, patch,
  reload, replace, Environment, Transaction, ◌>>=◌, ◌>>◌, done, modify, ask, read,
}
use chimera_service.Manager.Publish.{publish_instance}
use chimera_service.Manager.Start.{start_locked, discard_stale}
use chimera_service.Manager.Dns.{
  dns_activate_for_plan, dns_deactivate_for_plan, runtime_alive, finish_dns_converge,
}
use chimera_service.Manager.Quarantine.{reject_quarantine}
use chimera_service.Manager.Start.{gated}
use chimera_service.Manager.Dns.{dns_converge}
use chimera_service.Manager.Apply.{
  ApplyOutcome, started, did_nothing, patched, reloaded, with_durability_result, same_revision,
  restart_with_compensation, switch_with_compensation,
}

-- the plan of a spec as the next generation in the epoch of the current one
abbrev pub next_generation : ℕ → EpochPlan → EpochPlan → EpochPlan
next_generation spec current plan = record plan {
  source_spec = spec;
  revision = record plan.revision {
    epoch = current.revision.epoch;
    generation = current.revision.generation + 1;
  };
}

-- the current instance runs the desired plan
unfoldable pub adopt : EpochPlan → Transaction Unit
adopt desired s = (tt, record s { current = some desired; last_spec = some desired.source_spec })

abbrev pub outcome_of : ConfigChange → RevisionId → ApplyOutcome
outcome_of patch revision = patched revision
outcome_of _ revision = reloaded revision

unfoldable pub applied_in_place :
    Environment
    → ConfigChange
    → (desired : EpochPlan) → (warning taken : Bool) → Transaction (Result ApplyOutcome)
unfolding adopt ◌>>=◌
applied_in_place env change desired warning true = do
  adopt desired
  pid ← ask env.pid
  publish_instance env
      (CoreState.running desired.revision.epoch (elim pid [ none ↦ 0 | some p ↦ p ])) desired
  ask env.remove_backup
  done (with_durability_result (ok (outcome_of change desired.revision)) warning)
applied_in_place env change desired warning false =
    restart_with_compensation env desired >>= λ r. done (with_durability_result r warning)

-- the desired config is given up before it took effect
unfoldable pub withdraw : Environment → Error → Transaction (Result ApplyOutcome)
unfolding ◌>>=◌
withdraw env e = ask env.remove_backup >> done (err e)

unfoldable pub apply_committed :
    Environment → ConfigChange → EpochPlan → Result Bool → Transaction (Result ApplyOutcome)
unfolding applied_in_place withdraw ◌>>=◌
apply_committed env change desired (err e) = dns_converge env >> withdraw env e
apply_committed env change desired (ok warning) =
    ask env.reconciled >>= applied_in_place env change desired warning

unfoldable pub apply_activated :
    Environment → ConfigChange → EpochPlan → Result Unit → Transaction (Result ApplyOutcome)
unfolding apply_committed withdraw ◌>>=◌
apply_activated env change desired (err e) = dns_converge env >> withdraw env e
apply_activated env change desired (ok _) =
    ask env.commit_replace >>= apply_committed env change desired

unfoldable pub apply_deactivated :
    Environment → ConfigChange → EpochPlan → Result Unit → Transaction (Result ApplyOutcome)
unfolding apply_activated withdraw ◌>>=◌
apply_deactivated env change desired (err e) = withdraw env e
apply_deactivated env change desired (ok _) =
    dns_activate_for_plan env desired >>= apply_activated env change desired

unfoldable pub apply_backed_up :
    Environment → ConfigChange → EpochPlan → Option Error → Transaction (Result ApplyOutcome)
unfolding apply_deactivated ◌>>=◌
apply_backed_up env change desired (some e) = done (err e)
apply_backed_up env change desired none =
    dns_deactivate_for_plan env desired >>= apply_deactivated env change desired

-- what the classification asks for; a change of the spec alone is retained for the next restart
unfoldable pub apply_classified :
    Environment
    → (spec snapshot : ℕ) → (current desired : EpochPlan) → Result ConfigChange
    → Transaction (Result ApplyOutcome)
unfolding apply_backed_up switch_with_compensation ◌>>=◌
apply_classified env spec snapshot current desired (err e) = done (err e)
apply_classified env spec snapshot current desired (ok noop) = do
  modify (λ s. record s {
    current = some (record current { source_spec = spec });
    last_spec = some spec;
  })
  done (ok (did_nothing current.revision))
apply_classified env spec snapshot current desired (ok replace) =
    switch_with_compensation env spec snapshot
apply_classified env spec snapshot current desired (ok patch) =
    ask env.backup >>= apply_backed_up env patch desired
apply_classified env spec snapshot current desired (ok reload) =
    ask env.backup >>= apply_backed_up env reload desired

unfoldable pub apply_prepared :
    Environment
    → (spec snapshot : ℕ) → EpochPlan
    → Result EpochPlan
    → Transaction (Result ApplyOutcome)
unfolding apply_classified
apply_prepared env spec snapshot current (err e) = done (err e)
apply_prepared env spec snapshot current (ok plan) =
    apply_classified env spec snapshot current (next_generation spec current plan)
      (env.classify current (next_generation spec current plan))

unfoldable pub apply_loaded :
    Environment → ℕ → EpochPlan → Result ℕ → Transaction (Result ApplyOutcome)
unfolding apply_prepared ◌>>=◌
apply_loaded env spec current (err e) = done (err e)
apply_loaded env spec current (ok snapshot) =
    ask (λ t. env.prepare_apply t spec snapshot) >>= apply_prepared env spec snapshot current

-- the caller's claim about the applied revision, if it makes one, is wrong
abbrev pub contradicts : Option RevisionId → RevisionId → Option RevisionId
contradicts none actual = none
contradicts (some expected) actual = if same_revision expected actual then none else some expected

unfoldable pub apply_claimed :
    Environment → ℕ → EpochPlan → Option RevisionId → Transaction (Result ApplyOutcome)
unfolding apply_loaded ◌>>=◌
apply_claimed env spec current (some expected) =
    done (err (Error.revision_conflict expected (some current.revision)))
apply_claimed env spec current none = ask env.load_snapshot >>= apply_loaded env spec current

unfoldable pub apply_running :
    Environment
    → ℕ
    → Option RevisionId
    → EpochPlan
    → InstanceStatus
    → Transaction (Result ApplyOutcome)
unfolding apply_claimed
apply_running env spec expected current status =
    if is_terminal status.state
    then done (err Error.not_started)
    else apply_claimed env spec current (contradicts expected current.revision)

unfoldable pub apply_to :
    Environment → ℕ → Option RevisionId → Option EpochPlan → Transaction (Result ApplyOutcome)
unfolding apply_running ◌>>=◌
apply_to env spec expected none = done (err Error.not_started)
apply_to env spec expected (some current) =
    ask env.instance_status >>= apply_running env spec expected current

unfoldable pub apply_locked :
    Environment → ℕ → Option RevisionId → Transaction (Result ApplyOutcome)
unfolding apply_to
apply_locked env spec expected s = apply_to env spec expected s.current s

-- `CoreManager::apply_config`
unfoldable pub apply_config :
    Environment → ℕ → Option RevisionId → Transaction (Result ApplyOutcome)
unfolding apply_locked ◌>>=◌
apply_config env spec expected s =
    gated (reject_quarantine s) (apply_locked env spec expected >>= finish_dns_converge env) s

-- `start_locked` has installed the instance that is reported
unfoldable pub started_with : Option EpochPlan → Result Unit → Result ApplyOutcome
started_with current (err e) = err e
started_with (some plan) (ok _) = ok (started plan.revision)
started_with none (ok _) = err Error.not_started

unfoldable pub reconcile_discarded :
    Environment → ℕ → Result Unit → Transaction (Result ApplyOutcome)
unfolding started_with ◌>>=◌
reconcile_discarded env spec (err e) = done (err e)
reconcile_discarded env spec (ok _) = do
  r ← start_locked env spec
  s ← read
  done (started_with s.current r)

unfoldable pub reconcile_stopped :
    Environment → ℕ → Option RevisionId → Transaction (Result ApplyOutcome)
unfolding reconcile_discarded ◌>>=◌
reconcile_stopped env spec (some expected) = done (err (Error.revision_conflict expected none))
reconcile_stopped env spec none = discard_stale env >>= reconcile_discarded env spec

unfoldable pub reconcile_running :
    Environment → ℕ → Option RevisionId → Bool → Transaction (Result ApplyOutcome)
unfolding reconcile_stopped apply_locked
reconcile_running env spec expected true = apply_locked env spec expected
reconcile_running env spec expected false = reconcile_stopped env spec expected

unfoldable pub reconcile_locked :
    Environment → ℕ → Option RevisionId → Transaction (Result ApplyOutcome)
unfolding reconcile_running ◌>>=◌
reconcile_locked env spec expected = runtime_alive env >>= reconcile_running env spec expected

-- `CoreManager::reconcile`
unfoldable pub reconcile : Environment → ℕ → Option RevisionId → Transaction (Result ApplyOutcome)
unfolding reconcile_locked ◌>>=◌
reconcile env spec expected s =
    gated (reject_quarantine s) (reconcile_locked env spec expected >>= finish_dns_converge env) s
