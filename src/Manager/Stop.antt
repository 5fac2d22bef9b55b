-- ===== src/Manager/Stop.antt =====
-- The stop and the shutdown of the manager (manager/mod.rs of crates/chimera-core-manager).
pub mod Keeps
use chimera_service.Base.{ℕ, false, Option, none, some, if◌then◌else◌}
use chimera_service.Errors.{Error}
use chimera_service.Manager.State.{
  Result, ok, err, StopReason, InstanceState, is_terminal, CoreState, EpochPlan, Environment,
  Transaction, ◌>>=◌, ◌>>◌, done, modify, ask,
}
use chimera_service.Manager.Publish.{publish, publish_terminal_error, instance_core_state}
use chimera_service.Manager.Start.{
  take_current, is_stop_unconfirmed, stop_and_confirm_dead, cleanup_epoch, fail_stop,
}
use chimera_service.Manager.Dns.{dns_restore}
use chimera_service.Manager.Quarantine.{latch_quarantine}

-- the end of a stop that went well: the artifacts go, and the manager is stopped by its user
unfoldable pub stop_cleaned : Environment → Option Error → Transaction (Result Unit)
unfolding ◌>>=◌
stop_cleaned env (some e) = do publish_terminal_error env e; done (err e)
stop_cleaned env none = do publish env (CoreState.stopped (some StopReason.user)) none; done (ok tt)

unfoldable pub stop_confirmed : Environment → ℕ → Option Error → Transaction (Result Unit)
unfolding stop_cleaned ◌>>=◌
stop_confirmed env epoch none = cleanup_epoch env >>= stop_cleaned env
stop_confirmed env epoch (some e) =
    if is_stop_unconfirmed e
    then (latch_quarantine env epoch e >>= λ latched. done (err latched))
    else do publish_terminal_error env e; done (err e)

-- a live instance is stopped, in `stop` and in `shutdown`
unfoldable pub stop_running : Environment → EpochPlan → Transaction (Result Unit)
unfolding stop_confirmed ◌>>=◌
stop_running env plan = do
  publish env (CoreState.stopping plan.revision.epoch) (some plan)
  stopped ← stop_and_confirm_dead env plan.revision.epoch
  stop_confirmed env plan.revision.epoch stopped

unfoldable pub terminal_cleaned : Environment → Option Error → Transaction (Result Unit)
unfolding ◌>>=◌
terminal_cleaned env (some e) = do publish_terminal_error env e; done (err e)
terminal_cleaned env none = done (err Error.not_started)

unfoldable pub terminal_confirmed : Environment → ℕ → Option Error → Transaction (Result Unit)
unfolding terminal_cleaned ◌>>=◌
terminal_confirmed env epoch none = cleanup_epoch env >>= terminal_cleaned env
terminal_confirmed env epoch (some e) = fail_stop env epoch e

-- the instance had ended by itself
unfoldable pub stop_terminal : Environment → EpochPlan → InstanceState → Transaction (Result Unit)
unfolding terminal_confirmed ◌>>=◌
stop_terminal env plan state = do
  publish env (instance_core_state plan.revision.epoch state) (some plan)
  stopped ← stop_and_confirm_dead env plan.revision.epoch
  terminal_confirmed env plan.revision.epoch stopped

unfoldable pub stop_taken : Environment → Option EpochPlan → Transaction (Result Unit)
unfolding stop_terminal stop_running ◌>>=◌
stop_taken env none = done (err Error.not_started)
stop_taken env (some plan) = do
  captured ← ask env.instance_status
  (if is_terminal captured.state
      then stop_terminal env plan captured.state
      else stop_running env plan)

unfoldable pub stop_restored : Environment → Result Unit → Transaction (Result Unit)
unfolding stop_taken ◌>>=◌
stop_restored env (err e) = done (err e)
stop_restored env (ok _) = take_current >>= stop_taken env

-- `CoreManager::stop`
unfoldable pub stop : Environment → Transaction (Result Unit)
unfolding stop_restored ◌>>=◌
stop env = dns_restore env >>= stop_restored env

unfoldable pub shutdown_taken : Environment → Option EpochPlan → Transaction (Result Unit)
unfolding stop_running
shutdown_taken env none = done (ok tt)
shutdown_taken env (some plan) = stop_running env plan

unfoldable pub shutdown_restored : Environment → Result Unit → Transaction (Result Unit)
unfolding shutdown_taken ◌>>=◌
shutdown_restored env (err e) = done (err e)
shutdown_restored env (ok _) = do
  result ← take_current >>= shutdown_taken env
  modify (λ s. record s { log_sink = false })
  done result

-- `CoreManager::shutdown`; the sink of the log is closed when the instance was seen to
unfoldable pub shutdown : Environment → Transaction (Result Unit)
unfolding shutdown_restored ◌>>=◌
shutdown env = dns_restore env >>= shutdown_restored env
