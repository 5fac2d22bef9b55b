-- ===== src/Manager/Switch.antt =====
-- The entry points of `restart` and `switch` (manager/switching.rs of crates/chimera-core-manager).
use chimera_service.Base.{ℕ, Bool, true, false, ◌&&◌, ◌||◌, not, Option, none, some, if◌then◌else◌}
use chimera_service.Errors.{Error}
use chimera_service.Manager.State.{
  Result, ok, err, EpochPlan, Environment, Transaction, ◌>>=◌, done, ask,
}
use chimera_service.Manager.Start.{start_locked, discard_stale}
use chimera_service.Manager.Dns.{runtime_alive, finish_dns_converge}
use chimera_service.Manager.Quarantine.{reject_quarantine}
use chimera_service.Manager.Start.{gated}
use chimera_service.Manager.Switching.{
  DegradeReason, not_running, native_store_shared, SwitchOutcome, hard, graceful_degrade_reason,
  hard_switch,
}
use chimera_service.Manager.Graceful.{with_outcome, graceful_switch}

abbrev pub document : Option EpochPlan → Option ℕ
document none = none
document (some plan) = some plan.effective_document

-- the host's cores share a store, or the two may not run at once, or the switch is graceful
unfoldable pub chosen_switch :
    Environment → (spec snapshot : ℕ) → Option DegradeReason → Transaction (Result SwitchOutcome)
unfolding hard_switch graceful_switch ◌>>=◌
chosen_switch env spec snapshot none = graceful_switch env spec snapshot
chosen_switch env spec snapshot (some reason) =
    hard_switch env spec snapshot >>= λ r. done (with_outcome (hard reason) r)

-- whether the target can be reached by local IPC alone, beside what the slot has
unfoldable pub degrade_reason :
    Environment → Option EpochPlan → (spec snapshot : ℕ) → Bool → Option DegradeReason
unfolding graceful_degrade_reason
degrade_reason env current spec snapshot local_ipc =
    let http_listener =
      elim (document current) [ none ↦ false | some d ↦ env.has_http d ]
      || (env.keep_http_controller spec && env.has_http snapshot) in
    if env.native_store
    then some native_store_shared
    else graceful_degrade_reason (local_ipc && not http_listener) (env.is_mihomo spec)
        (env.overlap_block snapshot)

unfoldable pub switch_resolved :
    Environment → (spec snapshot : ℕ) → Result Bool → Transaction (Result SwitchOutcome)
unfolding chosen_switch
switch_resolved env spec snapshot (err e) s = (err e, s)
switch_resolved env spec snapshot (ok local_ipc) s =
    chosen_switch env spec snapshot (degrade_reason env s.current spec snapshot local_ipc) s

unfoldable pub switch_launchable :
    Environment → (spec snapshot : ℕ) → Option Error → Transaction (Result SwitchOutcome)
unfolding switch_resolved ◌>>=◌
switch_launchable env spec snapshot (some e) = done (err e)
switch_launchable env spec snapshot none =
    ask (λ t. env.resolve_features t spec) >>= switch_resolved env spec snapshot

unfoldable pub switch_loaded :
    Environment → (spec : ℕ) → Result ℕ → Transaction (Result SwitchOutcome)
unfolding switch_launchable ◌>>=◌
switch_loaded env spec (err e) = done (err e)
switch_loaded env spec (ok snapshot) =
    ask (λ t. env.validate_launchable t spec) >>= switch_launchable env spec snapshot

unfoldable pub switch_discarded : Environment → ℕ → Result Unit → Transaction (Result SwitchOutcome)
unfolding ◌>>=◌
switch_discarded env spec (err e) = done (err e)
switch_discarded env spec (ok _) =
    start_locked env spec >>= λ r. done (with_outcome (hard not_running) r)

unfoldable pub switch_running : Environment → ℕ → Bool → Transaction (Result SwitchOutcome)
unfolding switch_discarded switch_loaded ◌>>=◌
switch_running env spec false = discard_stale env >>= switch_discarded env spec
switch_running env spec true = ask env.load_snapshot >>= switch_loaded env spec

unfoldable pub switch_locked : Environment → ℕ → Transaction (Result SwitchOutcome)
unfolding switch_running ◌>>=◌
switch_locked env spec = runtime_alive env >>= switch_running env spec

-- `CoreManager::switch`
unfoldable pub switch : Environment → ℕ → Transaction (Result SwitchOutcome)
unfolding switch_locked ◌>>=◌
switch env spec s =
    gated (reject_quarantine s) (switch_locked env spec >>= finish_dns_converge env) s

unfoldable pub restart_last : Environment → Option ℕ → Transaction (Result SwitchOutcome)
unfolding switch_locked ◌>>=◌
restart_last env none = done (err Error.not_started)
restart_last env (some spec) = switch_locked env spec >>= finish_dns_converge env

-- `CoreManager::restart`
unfoldable pub restart : Environment → Transaction (Result SwitchOutcome)
unfolding restart_last
restart env s = gated (reject_quarantine s) (restart_last env s.last_spec) s
