-- ===== src/Manager/Graceful/Begins.antt =====
-- A graceful switch keeps the books of the manager: up to where the old instance is retired.
use chimera_service.Base.{
  ℕ, ◌+◌, ◌≡◌, refl, ◌≢◌, true, false, Option, none, some, arith, if◌then◌else◌, is_some,
}
use chimera_service.Errors.{Error}
use chimera_service.Manager.State.{
  Result, ok, err, CoreState, EpochPlan, Environment, Manager, ◌>>=◌, ◌>>◌,
}
use chimera_service.Manager.Publish.{publish}
use chimera_service.Manager.Start.{
  is_stop_unconfirmed, next_epoch, spawn_instance, stop_and_confirm_dead, Retired, nothing, retired,
  retire_failure, retire_current,
}
use chimera_service.Manager.Dns.{dns_activate_for_plan, dns_deactivate_for_plan, dns_restore}
use chimera_service.Manager.Start.Accounts.{here, Books}
use chimera_service.Manager.Start.{retire_taken, launched, confirmed}
use chimera_service.Manager.Start.Keeps.{
  publish-Keeps, dns_activate-Keeps, dns_deactivate-Keeps, let_go, is_uncertain, ask-Keeps,
  dns_converge-Keeps,
}
use chimera_service.Manager.Switching.Hands.{
  stop_with-keeps, latch_result_with-keeps, abandon-keeps, next_with-keeps, old_epoch,
  retire_with-keeps, spawn_with-keeps,
}
use chimera_service.Manager.Switching.{named, slot_epoch}
use chimera_service.Manager.Dns.{persist_dns_record, install_override, install_on, apply_recorded}
use chimera_service.Manager.Start.Slot.{loose_by}
use chimera_service.Manager.Graceful.Keeps.{graceful_committed-keeps, graceful_unretired-keeps}
use chimera_service.Manager.Graceful.{
  graceful_retired, bootstrap_stopped, give_up_bootstrap, graceful_deactivated, graceful_ready,
  graceful_spawned, graceful_activated, graceful_prepared, graceful_switch,
}

module _ (env : Environment) (j : ℕ) where
  -- what stands before the retirement leaves the slot alone
  retires : (s : Manager) → is_some s.current ≡ true → (retire_current env s).0 ≢ nothing
  unfolding retire_current retire_taken stop_and_confirm_dead confirmed ◌>>=◌
  retires s c = ground (arith, c)

  restore-slot :
      (s : Manager) → is_some s.current ≡ true → is_some (dns_restore env s).1.current ≡ true
  unfolding dns_restore persist_dns_record ◌>>=◌
  restore-slot s c = ground (arith, c)

  deactivate-slot :
      (plan : EpochPlan) (s : Manager)
      → is_some s.current ≡ true
      → is_some (dns_deactivate_for_plan env plan s).1.current ≡ true
  unfolding dns_deactivate_for_plan
  deactivate-slot plan s c = ground (arith, c, restore-slot s c)

  activate-slot :
      (plan : EpochPlan) (s : Manager)
      → is_some s.current ≡ true
      → is_some (dns_activate_for_plan env plan s).1.current ≡ true
  unfolding dns_activate_for_plan install_override install_on apply_recorded persist_dns_record
      ◌>>=◌
  activate-slot plan s c = ground (arith, c)

  launch-slot :
      (plan : EpochPlan) (s : Manager)
      → is_some s.current ≡ true
      → is_some
          ((publish env (CoreState.switching (slot_epoch s.current) plan.revision.epoch) (some plan)
              >> spawn_instance env plan)
            s).1.current
        ≡ true
  unfolding publish spawn_instance launched ◌>>=◌
  launch-slot plan s c = ground (arith, c)

  graceful_retired-keeps :
      (plan : EpochPlan) (r : Retired) (s : Manager)
      → r ≢ nothing
      → Books j true
          (here plan.revision.epoch j + old_epoch env j 0 0 r)
          (here plan.revision.epoch j + loose_by env j r)
          s
      → Books j false 0 0 (graceful_retired env plan r s).1
  unfolding graceful_retired ◌>>=◌
  graceful_retired-keeps plan nothing s n b = absurd (n refl)
  graceful_retired-keeps plan (retired old) s n b =
      graceful_committed-keeps env j plan _ _
        (ask-Keeps env.commit_replace j true _ _ s (ground (arith, b)))
  graceful_retired-keeps plan (retire_failure old e) s n b =
      let lost = if is_stop_unconfirmed e then here old j else 0 in
      graceful_unretired-keeps env j plan old e _ _
        (stop_with-keeps env j (here old j) lost true plan.revision.epoch s (ground (arith, b)))

  bootstrap_stopped-keeps :
      (plan : EpochPlan) (e : Error) (stopped : Option Error) (s : Manager)
      → let k = here plan.revision.epoch j in
        Books j false (0 + k) (0 + (if is_uncertain stopped then k else 0)) s
        → Books j false 0 0 (bootstrap_stopped env plan e stopped s).1
  unfolding bootstrap_stopped
  bootstrap_stopped-keeps plan e none s b = abandon-keeps env j 0 0 false e s (ground (arith, b))
  bootstrap_stopped-keeps plan e (some x) s b =
      latch_result_with-keeps env j 0 0 false _ plan.revision.epoch Error.stop_unconfirmed s
        (ground arith) b

  give_up-keeps :
      (plan : EpochPlan) (e : Error) (s : Manager)
      → Books j false (0 + here plan.revision.epoch j) (0 + here plan.revision.epoch j) s
      → Books j false 0 0 (give_up_bootstrap env plan e s).1
  unfolding give_up_bootstrap ◌>>=◌
  give_up-keeps plan e s b =
      bootstrap_stopped-keeps plan e _ _ (stop_with-keeps env j 0 0 false plan.revision.epoch s b)

  graceful_deactivated-keeps :
      (plan : EpochPlan) (r : Result Unit) (s : Manager)
      → is_some s.current ≡ true
      → Books j false (0 + here plan.revision.epoch j) (0 + here plan.revision.epoch j) s
      → Books j false 0 0 (graceful_deactivated env plan r s).1
  unfolding graceful_deactivated ◌>>=◌
  graceful_deactivated-keeps plan (err e) s c b = give_up-keeps plan e s b
  graceful_deactivated-keeps plan (ok _) s c b =
      let k = here plan.revision.epoch j in
      graceful_retired-keeps plan _ _ (retires s c)
        (retire_with-keeps env j k k s (ground (arith, b)))

  graceful_ready-keeps :
      (plan : EpochPlan) (r : Option Error) (s : Manager)
      → is_some s.current ≡ true
      → Books j false (0 + here plan.revision.epoch j) (0 + here plan.revision.epoch j) s
      → Books j false 0 0 (graceful_ready env plan r s).1
  unfolding graceful_ready ◌>>=◌
  graceful_ready-keeps plan (some e) s c b = give_up-keeps plan e s b
  graceful_ready-keeps plan none s c b =
      graceful_deactivated-keeps plan _ _ (deactivate-slot plan s c)
        (dns_deactivate-Keeps env j false _ _ plan s b)

  graceful_spawned-keeps :
      (plan : EpochPlan) (r : Option Error) (s : Manager)
      → is_some s.current ≡ true
      → Books j false
          (0 + here plan.revision.epoch j)
          (0 + (if is_some r then 0 else here plan.revision.epoch j))
          s
      → Books j false 0 0 (graceful_spawned env plan r s).1
  unfolding graceful_spawned ◌>>=◌
  graceful_spawned-keeps plan (some e) s c b = abandon-keeps env j 0 0 false e s (ground (arith, b))
  graceful_spawned-keeps plan none s c b =
      graceful_ready-keeps plan _ _ c (ask-Keeps env.wait_ready j false _ _ s b)

  graceful_activated-keeps :
      (plan : EpochPlan) (r : Result Unit) (s : Manager)
      → is_some s.current ≡ true
      → Books j false (0 + here plan.revision.epoch j) 0 s
      → Books j false 0 0 (graceful_activated env plan r s).1
  unfolding graceful_activated ◌>>=◌
  graceful_activated-keeps plan (err e) s c b =
      let_go j false _ _
        (abandon-keeps env j _ 0 false e _ (dns_converge-Keeps env j false _ 0 s b))
  graceful_activated-keeps plan (ok _) s c b =
      graceful_spawned-keeps plan _ _ (launch-slot plan s c) (
        spawn_with-keeps env j 0 0 false plan _ (
          publish-Keeps env j false _ _
            (CoreState.switching (slot_epoch s.current) plan.revision.epoch) (some plan) s b))

  graceful_prepared-keeps :
      (epoch : ℕ) (r : Result EpochPlan) (s : Manager)
      → is_some s.current ≡ true
      → Books j false (0 + here epoch j) 0 s
      → Books j false 0 0 (graceful_prepared env epoch r s).1
  unfolding graceful_prepared ◌>>=◌
  graceful_prepared-keeps epoch (err e) s c b =
      let_go j false _ _ (abandon-keeps env j _ 0 false e s b)
  graceful_prepared-keeps epoch (ok plan) s c b =
      graceful_activated-keeps (named epoch plan) _ _ (activate-slot (named epoch plan) s c)
        (dns_activate-Keeps env j false _ 0 (named epoch plan) s b)

  pub graceful_switch-keeps :
      (spec snapshot : ℕ) (s : Manager)
      → is_some s.current ≡ true
      → Books j false 0 0 s
      → Books j false 0 0 (graceful_switch env spec snapshot s).1
  unfolding graceful_switch next_epoch ◌>>=◌
  graceful_switch-keeps spec snapshot s c b = graceful_prepared-keeps _ _ _ c (
      ask-Keeps (λ t. env.prepare_graceful t spec snapshot) j false _ _ _
        (next_with-keeps env j 0 0 false s b (omega arith)))
