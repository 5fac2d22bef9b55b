-- ===== src/Manager/Switching.antt =====
-- `restart` and `switch` (manager/switching.rs of crates/chimera-core-manager).
pub mod Hands
pub mod Keeps
use chimera_service.Base.{ℕ, Bool, true, false, Option, none, some, if◌then◌else◌}
use chimera_service.Errors.{Error}
use chimera_service.Manager.State.{
  Result, ok, err, CoreState, EpochPlan, OverlapBlock, Environment, Transaction, ◌>>=◌, ◌>>◌, done,
  ask, read,
}
use chimera_service.Manager.Publish.{publish, publish_instance, publish_terminal_error}
use chimera_service.Manager.Start.{
  is_stop_unconfirmed, next_epoch, spawn_instance, stop_and_confirm_dead, cleanup_epoch, install,
  start_prepared, Retired, nothing, retired, retire_failure, retire_current,
}
use chimera_service.Manager.Dns.{dns_activate_for_plan, dns_deactivate_for_plan}
use chimera_service.Manager.Quarantine.{latch_quarantine}
use chimera_service.Manager.Publish.{republish_retained}

pub data DegradeReason : Type 0 where
  http_controller unsupported_kind dns_listen inbound_conflict not_running native_store_shared
        patch_failed :
      DegradeReason

pub data SwitchOutcome : Type 0 where
  graceful : SwitchOutcome
  hard : DegradeReason → SwitchOutcome
  durability_uncertain : SwitchOutcome → SwitchOutcome

unfoldable pub graceful_degrade_reason :
    (local_controller is_mihomo : Bool) → Option OverlapBlock → Option DegradeReason
graceful_degrade_reason false is_mihomo block = some http_controller
graceful_degrade_reason true false block = some unsupported_kind
graceful_degrade_reason true true (some OverlapBlock.dns_listen) = some dns_listen
graceful_degrade_reason true true (some OverlapBlock.inbound_surface) = some inbound_conflict
graceful_degrade_reason true true none = none

-- `with_switch_durability_result`; whether there is a warning
unfoldable pub with_switch_durability_result : Result SwitchOutcome → Bool → Result SwitchOutcome
with_switch_durability_result result false = result
with_switch_durability_result (ok outcome) true = ok (durability_uncertain outcome)
with_switch_durability_result (err e) true = err (Error.durability_uncertain e)

-- the plan of a new epoch
abbrev pub named : ℕ → EpochPlan → EpochPlan
named epoch plan = record plan { revision = record plan.revision { epoch = epoch; generation = 1 } }

abbrev pub slot_epoch : Option EpochPlan → Option ℕ
slot_epoch none = none
slot_epoch (some plan) = some plan.revision.epoch

unfoldable pub replacement_stopped : Error → Option Error → Result Unit
replacement_stopped e none = err e
replacement_stopped e (some _) = err Error.stop_unconfirmed

unfoldable pub replacement_ready :
    Environment → EpochPlan → Option Error → Transaction (Result Unit)
unfolding replacement_stopped ◌>>=◌
replacement_ready env plan none = done (ok tt)
replacement_ready env plan (some e) = do
  stopped ← stop_and_confirm_dead env plan.revision.epoch
  done (replacement_stopped e stopped)

unfoldable pub replacement_spawned :
    Environment → EpochPlan → Option Error → Transaction (Result Unit)
unfolding replacement_ready ◌>>=◌
replacement_spawned env plan (some e) = done (err e)
replacement_spawned env plan none = ask env.wait_ready >>= replacement_ready env plan

unfoldable pub replacement_activated :
    Environment → EpochPlan → Result Unit → Transaction (Result Unit)
unfolding replacement_spawned ◌>>=◌
replacement_activated env plan (err e) = done (err e)
replacement_activated env plan (ok _) = spawn_instance env plan >>= replacement_spawned env plan

unfoldable pub replacement_deactivated :
    Environment → EpochPlan → Result Unit → Transaction (Result Unit)
unfolding replacement_activated ◌>>=◌
replacement_deactivated env plan (err e) = done (err e)
replacement_deactivated env plan (ok _) =
    dns_activate_for_plan env plan >>= replacement_activated env plan

unfoldable pub spawn_replacement : Environment → EpochPlan → Transaction (Result Unit)
unfolding replacement_deactivated ◌>>=◌
spawn_replacement env plan = dns_deactivate_for_plan env plan >>= replacement_deactivated env plan

abbrev pub or_zero : Option ℕ → ℕ
or_zero none = 0
or_zero (some n) = n

-- a ready instance is published, and takes the slot
unfoldable pub publish_and_install : Environment → EpochPlan → Transaction Unit
unfolding install ◌>>=◌
publish_and_install env plan = do
  pid ← ask env.pid
  publish_instance env (CoreState.running plan.revision.epoch (or_zero pid)) plan
  install plan

-- the target of a switch is given up while the old instance has the slot
unfoldable pub abandon : Environment → Error → Transaction (Result Unit)
unfolding ◌>>=◌
abandon env e = do cleanup_epoch env; republish_retained env; done (err e)

unfoldable pub report : Environment → Error → Transaction (Result Unit)
unfolding ◌>>=◌
report env e = do publish_terminal_error env e; done (err e)

unfoldable pub latch_result : Environment → ℕ → Error → Transaction (Result Unit)
unfolding ◌>>=◌
latch_result env epoch e = latch_quarantine env epoch e >>= λ latched. done (err latched)

-- a stop that failed: the quarantine if the death is not proven, a report if it is
unfoldable pub latch_or_report : Environment → ℕ → Error → Transaction (Result Unit)
unfolding latch_result report
latch_or_report env epoch e =
    if is_stop_unconfirmed e then latch_result env epoch e else report env e

unfoldable pub hard_cleaned : Environment → EpochPlan → Option Error → Transaction (Result Unit)
unfolding report
hard_cleaned env plan (some e) = report env e
hard_cleaned env plan none = start_prepared env plan

-- the slot is not empty, so there is something to retire
unfoldable pub hard_retired : Environment → EpochPlan → Retired → Transaction (Result Unit)
unfolding hard_cleaned latch_or_report ◌>>=◌
hard_retired env plan nothing = done (err Error.not_started)
hard_retired env plan (retired old) = cleanup_epoch env >>= hard_cleaned env plan
hard_retired env plan (retire_failure epoch e) = do cleanup_epoch env; latch_or_report env epoch e

unfoldable pub hard_deactivated : Environment → EpochPlan → Result Unit → Transaction (Result Unit)
unfolding hard_retired abandon ◌>>=◌
hard_deactivated env plan (err e) = abandon env e
hard_deactivated env plan (ok _) = do
  s ← read
  publish env (CoreState.switching (slot_epoch s.current) plan.revision.epoch) (some plan)
  old ← retire_current env
  hard_retired env plan old

unfoldable pub hard_prepared : Environment → ℕ → Result EpochPlan → Transaction (Result Unit)
unfolding hard_deactivated abandon ◌>>=◌
hard_prepared env epoch (err e) = abandon env e
hard_prepared env epoch (ok plan) =
    dns_deactivate_for_plan env (named epoch plan) >>= hard_deactivated env (named epoch plan)

unfoldable pub hard_switch : Environment → (spec snapshot : ℕ) → Transaction (Result Unit)
unfolding hard_prepared ◌>>=◌
hard_switch env spec snapshot = do
  epoch ← next_epoch
  prepared ← ask (λ t. env.prepare t spec snapshot)
  hard_prepared env epoch prepared
