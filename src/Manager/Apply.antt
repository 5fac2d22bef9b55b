-- ===== src/Manager/Apply.antt =====
-- The apply and reconcile transactions (manager/apply.rs and manager/reconcile.rs of
-- crates/chimera-core-manager): a running core is brought to a new spec, in place where the change
-- allows it, by a restart of its epoch or by a switch to a new one, with the old plan to go back to.
pub mod Keeps
pub mod Switches
use chimera_service.Base.{ℕ, Bool, true, false, ◌&&◌, some, ◌==◌, if◌then◌else◌}
use chimera_service.Errors.{Error, RevisionId}
use chimera_service.Manager.State.{
  Result, ok, err, CoreState, EpochPlan, Environment, Transaction, ◌>>=◌, ◌>>◌, done, ask,
}
use chimera_service.Manager.Publish.{publish}
use chimera_service.Manager.Start.{
  is_stop_unconfirmed, next_epoch, cleanup_epoch, Retired, nothing, retired, retire_failure,
  retire_current,
}
use chimera_service.Manager.Dns.{dns_deactivate_for_plan}
use chimera_service.Manager.Switching.{
  named, spawn_replacement, publish_and_install, report, latch_result,
}

pub data ApplyOutcome : Type 0 where
  started did_nothing patched reloaded restarted switched rolled_back : RevisionId → ApplyOutcome
  durability_uncertain : ApplyOutcome → ApplyOutcome

-- `with_durability_result`; whether there is a warning
unfoldable pub with_durability_result : Result ApplyOutcome → Bool → Result ApplyOutcome
with_durability_result result false = result
with_durability_result (ok outcome) true = ok (durability_uncertain outcome)
with_durability_result (err e) true = err (Error.durability_uncertain e)

abbrev pub same_revision : RevisionId → RevisionId → Bool
same_revision a b =
    a.epoch == b.epoch && a.generation == b.generation && a.effective_hash == b.effective_hash

abbrev pub failing : Result Unit → Result ApplyOutcome
failing (ok _) = err Error.not_started
failing (err e) = err e

-- an error that has nothing to do with the slot is reported, and the transaction fails with it
unfoldable pub fail_with : Environment → Error → Transaction (Result ApplyOutcome)
unfolding ◌>>=◌
fail_with env e = report env e >>= λ r. done (failing r)

unfoldable pub quarantine_with : Environment → ℕ → Error → Transaction (Result ApplyOutcome)
unfolding ◌>>=◌
quarantine_with env epoch e = latch_result env epoch e >>= λ r. done (failing r)

-- the old plan was launched again, or that failed too
unfoldable pub rolled : Environment → EpochPlan → Result Unit → Transaction (Result ApplyOutcome)
unfolding fail_with quarantine_with ◌>>=◌
rolled env old (ok _) = do publish_and_install env old; done (ok (rolled_back old.revision))
rolled env old (err e) =
    if is_stop_unconfirmed e
    then quarantine_with env old.revision.epoch Error.stop_unconfirmed
    else fail_with env Error.apply_rollback_failed

unfoldable pub roll_back : Environment → EpochPlan → Transaction (Result ApplyOutcome)
unfolding rolled ◌>>=◌
roll_back env old = do
  publish env (CoreState.restarting old.revision.epoch 0) (some old)
  again ← spawn_replacement env old
  rolled env old again

unfoldable pub restart_restored :
    Environment → EpochPlan → Result Bool → Transaction (Result ApplyOutcome)
unfolding fail_with roll_back ◌>>=◌
restart_restored env old (err e) = fail_with env Error.apply_rollback_failed
restart_restored env old (ok warning) =
    roll_back env old >>= λ r. done (with_durability_result r warning)

unfoldable pub restart_spawned :
    Environment → (old desired : EpochPlan) → Result Unit → Transaction (Result ApplyOutcome)
unfolding restart_restored quarantine_with ◌>>=◌
restart_spawned env old desired (ok _) = do
  publish_and_install env desired
  ask env.remove_backup
  done (ok (restarted desired.revision))
restart_spawned env old desired (err e) =
    if is_stop_unconfirmed e
    then quarantine_with env desired.revision.epoch e
    else ask env.restore_backup >>= restart_restored env old

-- the retirement that failed
unfoldable pub unretired : Environment → ℕ → Error → Transaction (Result ApplyOutcome)
unfolding quarantine_with fail_with
unretired env epoch e =
    if is_stop_unconfirmed e then quarantine_with env epoch e else fail_with env Error.apply_failed

-- the slot is not empty, so there is something to retire
unfoldable pub restart_retired :
    Environment → EpochPlan → Retired → Transaction (Result ApplyOutcome)
unfolding restart_spawned unretired ◌>>=◌
restart_retired env desired nothing = done (err Error.not_started)
restart_retired env desired (retire_failure epoch e) = unretired env epoch e
restart_retired env desired (retired old) = do
  publish env (CoreState.restarting desired.revision.epoch 0) (some desired)
  up ← spawn_replacement env desired
  restart_spawned env old desired up

unfoldable pub restart_deactivated :
    Environment → EpochPlan → Result Unit → Transaction (Result ApplyOutcome)
unfolding restart_retired ◌>>=◌
restart_deactivated env desired (err e) = done (err e)
restart_deactivated env desired (ok _) = retire_current env >>= restart_retired env desired

-- `restart_with_compensation`
unfoldable pub restart_with_compensation :
    Environment → EpochPlan → Transaction (Result ApplyOutcome)
unfolding restart_deactivated ◌>>=◌
restart_with_compensation env desired =
    dns_deactivate_for_plan env desired >>= restart_deactivated env desired

unfoldable pub switch_spawned :
    Environment → (old desired : EpochPlan) → Result Unit → Transaction (Result ApplyOutcome)
unfolding roll_back quarantine_with ◌>>=◌
switch_spawned env old desired (ok _) = do
  publish_and_install env desired
  cleanup_epoch env
  done (ok (switched desired.revision))
switch_spawned env old desired (err e) =
    if is_stop_unconfirmed e
    then quarantine_with env desired.revision.epoch e
    else cleanup_epoch env >> roll_back env old

unfoldable pub switch_retired :
    Environment → EpochPlan → Retired → Transaction (Result ApplyOutcome)
unfolding switch_spawned unretired ◌>>=◌
switch_retired env desired nothing = done (err Error.not_started)
switch_retired env desired (retire_failure epoch e) = cleanup_epoch env >> unretired env epoch e
switch_retired env desired (retired old) = do
  publish env (CoreState.switching (some old.revision.epoch) desired.revision.epoch) (some desired)
  up ← spawn_replacement env desired
  switch_spawned env old desired up

unfoldable pub switch_deactivated :
    Environment → EpochPlan → Result Unit → Transaction (Result ApplyOutcome)
unfolding switch_retired ◌>>=◌
switch_deactivated env desired (err e) = cleanup_epoch env >> done (err e)
switch_deactivated env desired (ok _) = retire_current env >>= switch_retired env desired

unfoldable pub switch_prepared :
    Environment → ℕ → Result EpochPlan → Transaction (Result ApplyOutcome)
unfolding switch_deactivated ◌>>=◌
switch_prepared env epoch (err e) = done (err e)
switch_prepared env epoch (ok plan) =
    dns_deactivate_for_plan env (named epoch plan) >>= switch_deactivated env (named epoch plan)

-- `switch_with_compensation`
unfoldable pub switch_with_compensation :
    Environment → (spec snapshot : ℕ) → Transaction (Result ApplyOutcome)
unfolding switch_prepared ◌>>=◌
switch_with_compensation env spec snapshot = do
  epoch ← next_epoch
  prepared ← ask (λ t. env.prepare t spec snapshot)
  switch_prepared env epoch prepared
