-- ===== src/Manager/Graceful.antt =====
-- The graceful switch, and the choice of a switch (manager/switching.rs of
-- crates/chimera-core-manager). The new core starts beside the old one, which is retired after.
pub mod Keeps
pub mod Begins
use chimera_service.Base.{ℕ, Bool, true, false, Option, none, some, if◌then◌else◌}
use chimera_service.Errors.{Error}
use chimera_service.Manager.State.{
  Result, ok, err, CoreState, EpochPlan, Environment, Manager, Transaction, ◌>>=◌, ◌>>◌, done,
  modify, ask, read,
}
use chimera_service.Manager.Publish.{publish}
use chimera_service.Manager.Start.{
  is_stop_unconfirmed, next_epoch, spawn_instance, stop_and_confirm_dead, cleanup_epoch, Retired,
  nothing, retired, retire_failure, retire_current, to_result,
}
use chimera_service.Manager.Dns.{dns_activate_for_plan, dns_deactivate_for_plan}
use chimera_service.Manager.Quarantine.{record_quarantine}
use chimera_service.Manager.Dns.{dns_converge}
use chimera_service.Manager.Switching.{
  patch_failed, SwitchOutcome, graceful, hard, with_switch_durability_result, named,
  spawn_replacement, publish_and_install, abandon, report, latch_result, latch_or_report,
  slot_epoch,
}

-- an error of a step keeps the type of the outcome
abbrev pub with_outcome : {A : Type 0} → A → Result Unit → Result A
with_outcome a (ok _) = ok a
with_outcome a (err e) = err e

-- the end that both a verified switch and a restarted one have: the old artifacts go
unfoldable pub switched :
    Environment → EpochPlan → SwitchOutcome → Bool → Transaction (Result SwitchOutcome)
unfolding ◌>>=◌
switched env plan outcome warning = do
  publish_and_install env plan
  cleaned ← cleanup_epoch env
  done (with_switch_durability_result (with_outcome outcome (to_result cleaned)) warning)

unfoldable pub warned : Bool → Result Unit → Result SwitchOutcome
warned warning (ok _) = with_switch_durability_result (ok graceful) warning
warned warning (err e) = with_switch_durability_result (err e) warning

unfoldable pub graceful_failed :
    Environment → EpochPlan → Bool → Error → Transaction (Result SwitchOutcome)
unfolding ◌>>=◌
graceful_failed env plan warning e =
    if is_stop_unconfirmed e
    then (latch_result env plan.revision.epoch e >>= λ r. done (warned warning r))
    else ((cleanup_epoch env >> report env e) >>= λ r. done (warned warning r))

unfoldable pub graceful_replaced :
    Environment → EpochPlan → Bool → Result Unit → Transaction (Result SwitchOutcome)
unfolding graceful_failed switched
graceful_replaced env plan warning (err e) = graceful_failed env plan warning e
graceful_replaced env plan warning (ok _) = switched env plan (hard patch_failed) warning

-- the stop of the bootstrap whose config could not be verified
unfoldable pub graceful_stopped :
    Environment → EpochPlan → Bool → Option Error → Transaction (Result SwitchOutcome)
unfolding graceful_replaced ◌>>=◌
graceful_stopped env plan warning (some e) =
    latch_or_report env plan.revision.epoch e >>= λ r. done (warned warning r)
graceful_stopped env plan warning none =
    spawn_replacement env plan >>= graceful_replaced env plan warning

unfoldable pub graceful_verified :
    Environment → EpochPlan → Bool → Bool → Transaction (Result SwitchOutcome)
unfolding graceful_stopped switched ◌>>=◌
graceful_verified env plan warning true = switched env plan graceful warning
graceful_verified env plan warning false =
    stop_and_confirm_dead env plan.revision.epoch >>= graceful_stopped env plan warning

-- the commit of the full config failed and the bootstrap was stopped
unfoldable pub graceful_uncommitted :
    Environment → EpochPlan → Error → Option Error → Transaction (Result SwitchOutcome)
unfolding ◌>>=◌
graceful_uncommitted env plan e none =
    (cleanup_epoch env >> latch_or_report env plan.revision.epoch e) >>= λ r. done (warned false r)
graceful_uncommitted env plan e (some _) =
    latch_result env plan.revision.epoch Error.stop_unconfirmed >>= λ r. done (warned false r)

unfoldable pub graceful_committed :
    Environment → EpochPlan → Result Bool → Transaction (Result SwitchOutcome)
unfolding graceful_uncommitted graceful_verified ◌>>=◌
graceful_committed env plan (err e) =
    stop_and_confirm_dead env plan.revision.epoch >>= graceful_uncommitted env plan e
graceful_committed env plan (ok warning) = ask env.reconciled >>= graceful_verified env plan warning

abbrev pub record_if : Bool → ℕ → Error → Manager → Manager
record_if true epoch e s = record s { quarantine = record_quarantine epoch e s.quarantine }
record_if false epoch e s = s

-- the old instance could not be retired well, and the bootstrap was stopped
unfoldable pub graceful_unretired :
    Environment → EpochPlan → ℕ → Error → Option Error → Transaction (Result Unit)
unfolding ◌>>=◌
graceful_unretired env plan old e none = cleanup_epoch env >> latch_or_report env old e
graceful_unretired env plan old e (some _) = do
  modify (record_if (is_stop_unconfirmed e) old e)
  latch_result env plan.revision.epoch Error.stop_unconfirmed

unfoldable pub graceful_retired :
    Environment → EpochPlan → Retired → Transaction (Result SwitchOutcome)
unfolding graceful_unretired graceful_committed ◌>>=◌
graceful_retired env plan nothing = done (err Error.not_started)
graceful_retired env plan (retired old) = ask env.commit_replace >>= graceful_committed env plan
graceful_retired env plan (retire_failure old e) = do
  stopped ← stop_and_confirm_dead env plan.revision.epoch
  r ← graceful_unretired env plan old e stopped
  done (warned false r)

-- the bootstrap is given up and was stopped, and the old instance stays
unfoldable pub bootstrap_stopped :
    Environment → EpochPlan → Error → Option Error → Transaction (Result Unit)
bootstrap_stopped env plan e none = abandon env e
bootstrap_stopped env plan e (some _) = latch_result env plan.revision.epoch Error.stop_unconfirmed

unfoldable pub give_up_bootstrap :
    Environment → EpochPlan → Error → Transaction (Result SwitchOutcome)
unfolding bootstrap_stopped ◌>>=◌
give_up_bootstrap env plan e = do
  stopped ← stop_and_confirm_dead env plan.revision.epoch
  r ← bootstrap_stopped env plan e stopped
  done (warned false r)

unfoldable pub graceful_deactivated :
    Environment → EpochPlan → Result Unit → Transaction (Result SwitchOutcome)
unfolding give_up_bootstrap graceful_retired ◌>>=◌
graceful_deactivated env plan (err e) = give_up_bootstrap env plan e
graceful_deactivated env plan (ok _) = retire_current env >>= graceful_retired env plan

unfoldable pub graceful_ready :
    Environment → EpochPlan → Option Error → Transaction (Result SwitchOutcome)
unfolding give_up_bootstrap graceful_deactivated ◌>>=◌
graceful_ready env plan (some e) = give_up_bootstrap env plan e
graceful_ready env plan none = dns_deactivate_for_plan env plan >>= graceful_deactivated env plan

unfoldable pub graceful_spawned :
    Environment → EpochPlan → Option Error → Transaction (Result SwitchOutcome)
unfolding graceful_ready ◌>>=◌
graceful_spawned env plan (some e) = abandon env e >>= λ r. done (warned false r)
graceful_spawned env plan none = ask env.wait_ready >>= graceful_ready env plan

unfoldable pub graceful_activated :
    Environment → EpochPlan → Result Unit → Transaction (Result SwitchOutcome)
unfolding graceful_spawned ◌>>=◌
graceful_activated env plan (err e) =
    (dns_converge env >> abandon env e) >>= λ r. done (warned false r)
graceful_activated env plan (ok _) = do
  s ← read
  publish env (CoreState.switching (slot_epoch s.current) plan.revision.epoch) (some plan)
  launch ← spawn_instance env plan
  graceful_spawned env plan launch

unfoldable pub graceful_prepared :
    Environment → ℕ → Result EpochPlan → Transaction (Result SwitchOutcome)
unfolding graceful_activated ◌>>=◌
graceful_prepared env epoch (err e) = abandon env e >>= λ r. done (warned false r)
graceful_prepared env epoch (ok plan) =
    dns_activate_for_plan env (named epoch plan) >>= graceful_activated env (named epoch plan)

unfoldable pub graceful_switch :
    Environment → (spec snapshot : ℕ) → Transaction (Result SwitchOutcome)
unfolding graceful_prepared ◌>>=◌
graceful_switch env spec snapshot = do
  epoch ← next_epoch
  prepared ← ask (λ t. env.prepare_graceful t spec snapshot)
  graceful_prepared env epoch prepared
