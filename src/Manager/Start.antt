-- ===== src/Manager/Start.antt =====
-- The start and the stop of an epoch (`start`, `stop`, `shutdown` and what they call in
-- manager/mod.rs of crates/chimera-core-manager). The forwarder of an instance, a task beside the
-- transactions, is not in the state; what it publishes is `apply_epoch_status`.
pub mod Accounts
pub mod Keeps
pub mod Ends
pub mod Slot
use chimera_service.Base.{ℕ, ◌+◌, ◌-◌, Bool, true, false, Option, none, some, ◌==◌, if◌then◌else◌}
use chimera_service.Errors.{Error}
use chimera_service.Manager.State.{
  Result, ok, err, CoreState, EpochPlan, Environment, Manager, Transaction, ◌>>=◌, ◌>>◌, done, ask,
}
use chimera_service.Manager.Publish.{publish, publish_instance, publish_terminal_error}
use chimera_service.Manager.Quarantine.{latch_quarantine, reject_quarantine}
use chimera_service.Manager.Dns.{
  dns_activate_for_plan, dns_deactivate_for_plan, dns_restore, runtime_alive, finish_dns_converge,
}

-- `matches!(error, Error::StopUnconfirmed(_))`
abbrev pub is_stop_unconfirmed : Error → Bool
is_stop_unconfirmed Error.stop_unconfirmed = true
is_stop_unconfirmed _ = false

-- `EpochAllocator::next`, below the last u64
unfoldable pub next_epoch : Transaction ℕ
next_epoch s = (s.last_epoch + 1, record s { last_epoch = s.last_epoch + 1 })

abbrev pub add_process : ℕ → Manager → Manager
add_process epoch s = record s {
  processes = λ e. if e == epoch then s.processes e + 1 else s.processes e;
}

abbrev pub remove_process : ℕ → Manager → Manager
remove_process epoch s = record s {
  processes = λ e. if e == epoch then s.processes e - 1 else s.processes e;
}

abbrev pub add_unconfirmed : ℕ → Manager → Manager
add_unconfirmed epoch s = record s {
  unconfirmed = λ e. if e == epoch then s.unconfirmed e + 1 else s.unconfirmed e;
}

-- a launch that succeeds leaves a process of the epoch; one that fails may have left one where it
-- answers `StopUnconfirmed`, and has left none otherwise
unfoldable pub launched : ℕ → Option Error → Transaction (Option Error)
launched epoch none s = (none, add_process epoch s)
launched epoch (some e) s = (some e, if is_stop_unconfirmed e then add_unconfirmed epoch s else s)

unfoldable pub spawn_instance : Environment → EpochPlan → Transaction (Option Error)
unfolding launched ◌>>=◌
spawn_instance env plan = ask env.launch >>= launched plan.revision.epoch

-- by its contract, a stop has proven the death of the process unless it says `StopUnconfirmed`
unfoldable pub confirmed : ℕ → Option Error → Transaction (Option Error)
confirmed epoch none s = (none, remove_process epoch s)
confirmed epoch (some e) s = (some e, if is_stop_unconfirmed e then s else remove_process epoch s)

unfoldable pub stop_and_confirm_dead : Environment → ℕ → Transaction (Option Error)
unfolding confirmed ◌>>=◌
stop_and_confirm_dead env epoch = ask env.stop_and_confirm_dead >>= confirmed epoch

unfoldable pub cleanup_epoch : Environment → Transaction (Option Error)
cleanup_epoch env = ask env.cleanup_epoch

unfoldable pub install : EpochPlan → Transaction Unit
install plan s = (tt, record s { last_spec = some plan.source_spec; current = some plan })

-- the end of a rejected start: the artifacts go, and the error is published
unfoldable pub reject_start : Environment → Error → Transaction (Result Unit)
unfolding cleanup_epoch ◌>>=◌
reject_start env e = do cleanup_epoch env; publish_terminal_error env e; done (err e)

-- the stop of an instance that did not get ready
unfoldable pub stopped_unready :
    Environment → EpochPlan → Error → Option Error → Transaction (Result Unit)
unfolding reject_start ◌>>=◌
stopped_unready env plan readiness none = do dns_restore env; reject_start env readiness
stopped_unready env plan readiness (some _) = do
  e ← latch_quarantine env plan.revision.epoch Error.stop_unconfirmed
  done (err e)

unfoldable pub start_ready : Environment → EpochPlan → Option Error → Transaction (Result Unit)
unfolding stopped_unready stop_and_confirm_dead install ◌>>=◌
start_ready env plan (some readiness) =
    stop_and_confirm_dead env plan.revision.epoch >>= stopped_unready env plan readiness
start_ready env plan none = do
  pid ← ask env.pid
  publish_instance env (CoreState.running plan.revision.epoch (elim pid [ none ↦ 0 | some p ↦ p ]))
      plan
  install plan
  done (ok tt)

unfoldable pub start_spawned : Environment → EpochPlan → Option Error → Transaction (Result Unit)
unfolding start_ready reject_start ◌>>=◌
start_spawned env plan (some e) = do dns_restore env; reject_start env e
start_spawned env plan none = ask env.wait_ready >>= start_ready env plan

unfoldable pub start_deactivated : Environment → EpochPlan → Result Unit → Transaction (Result Unit)
unfolding start_spawned spawn_instance reject_start ◌>>=◌
start_deactivated env plan (err e) = reject_start env e
start_deactivated env plan (ok _) = do
  publish env (CoreState.starting plan.revision.epoch) (some plan)
  launch ← spawn_instance env plan
  start_spawned env plan launch

unfoldable pub start_activated : Environment → EpochPlan → Result Unit → Transaction (Result Unit)
unfolding start_deactivated reject_start ◌>>=◌
start_activated env plan (err e) = do dns_restore env; reject_start env e
start_activated env plan (ok _) = dns_deactivate_for_plan env plan >>= start_deactivated env plan

unfoldable pub start_prepared : Environment → EpochPlan → Transaction (Result Unit)
unfolding start_activated ◌>>=◌
start_prepared env plan = dns_activate_for_plan env plan >>= start_activated env plan

-- the plan that the prepare step builds is the plan of the epoch that it was asked for
unfoldable pub start_plan : Environment → ℕ → Result EpochPlan → Transaction (Result Unit)
unfolding start_prepared reject_start
start_plan env epoch (err e) = reject_start env e
start_plan env epoch (ok plan) =
    start_prepared env
      (record plan { revision = record plan.revision { epoch = epoch; generation = 1 } })

unfoldable pub start_loaded : Environment → ℕ → ℕ → Result ℕ → Transaction (Result Unit)
unfolding start_plan ◌>>=◌
start_loaded env spec epoch (err e) = do publish_terminal_error env e; done (err e)
start_loaded env spec epoch (ok snapshot) = do
  prepared ← ask (λ t. env.prepare t spec snapshot)
  start_plan env epoch prepared

unfoldable pub start_locked : Environment → ℕ → Transaction (Result Unit)
unfolding next_epoch start_loaded ◌>>=◌
start_locked env spec = do
  epoch ← next_epoch
  snapshot ← ask env.load_snapshot
  start_loaded env spec epoch snapshot

abbrev pub take_current : Transaction (Option EpochPlan)
take_current s = (s.current, record s { current = none })

pub data Retired : Type 0 where
  nothing : Retired
  retired : EpochPlan → Retired
  retire_failure : (epoch : ℕ) → Error → Retired

abbrev pub retire_end : EpochPlan → Option Error → Retired
retire_end plan none = retired plan
retire_end plan (some e) = retire_failure plan.revision.epoch e

unfoldable pub retire_taken : Environment → Option EpochPlan → Transaction Retired
unfolding stop_and_confirm_dead ◌>>=◌
retire_taken env none = done nothing
retire_taken env (some plan) = do
  stopped ← stop_and_confirm_dead env plan.revision.epoch
  done (retire_end plan stopped)

unfoldable pub retire_current : Environment → Transaction Retired
unfolding retire_taken ◌>>=◌
retire_current env = take_current >>= retire_taken env

abbrev pub to_result : Option Error → Result Unit
to_result none = ok tt
to_result (some e) = err e

-- an unproven stop is latched; another failure of a stop is only reported
unfoldable pub fail_stop : Environment → ℕ → Error → Transaction (Result Unit)
unfolding ◌>>=◌
fail_stop env epoch e =
    if is_stop_unconfirmed e
    then (latch_quarantine env epoch e >>= λ latched. done (err latched))
    else done (err e)

unfoldable pub discard_retired : Environment → Retired → Transaction (Result Unit)
unfolding cleanup_epoch fail_stop ◌>>=◌
discard_retired env nothing = done (ok tt)
discard_retired env (retired plan) = do cleaned ← cleanup_epoch env; done (to_result cleaned)
discard_retired env (retire_failure epoch e) = fail_stop env epoch e

unfoldable pub discard_stale : Environment → Transaction (Result Unit)
unfolding discard_retired ◌>>=◌
discard_stale env = retire_current env >>= discard_retired env

unfoldable pub start_discarded : Environment → ℕ → Result Unit → Transaction (Result Unit)
unfolding start_locked ◌>>=◌
start_discarded env spec (err e) = done (err e)
start_discarded env spec (ok _) = start_locked env spec >>= finish_dns_converge env

unfoldable pub start_accepted : Environment → ℕ → Bool → Transaction (Result Unit)
unfolding start_discarded discard_stale ◌>>=◌
start_accepted env spec true = done (err Error.already_running)
start_accepted env spec false = discard_stale env >>= start_discarded env spec

-- the gate at the head of a transaction
abbrev pub gated : {A : Type 0} → Result Unit → Transaction (Result A) → Transaction (Result A)
gated (err e) m = done (err e)
gated (ok _) m = m

-- `CoreManager::start`
unfoldable pub start : Environment → ℕ → Transaction (Result Unit)
unfolding start_accepted ◌>>=◌
start env spec s = gated (reject_quarantine s) (runtime_alive env >>= start_accepted env spec) s
