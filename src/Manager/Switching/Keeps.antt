-- ===== src/Manager/Switching/Keeps.antt =====
-- A replacement and a hard switch keep the books of the manager.
use chimera_service.Base.{ℕ, ◌+◌, true, false, Option, none, some, arith, if◌then◌else◌, is_some}
use chimera_service.Errors.{Error}
use chimera_service.Manager.State.{
  Result, ok, err, CoreState, EpochPlan, Environment, Manager, ◌>>=◌,
}
use chimera_service.Manager.Start.{
  is_stop_unconfirmed, next_epoch, Retired, nothing, retired, retire_failure,
}
use chimera_service.Manager.Start.Accounts.{here, Books}
use chimera_service.Manager.Start.Keeps.{
  publish-Keeps, dns_activate-Keeps, dns_deactivate-Keeps, cleanup-Keeps, let_go, is_uncertain,
  ask-Keeps,
}
use chimera_service.Manager.Start.Slot.{loose_by}
use chimera_service.Manager.Switching.Hands.{
  stop_with-keeps, leave, report-keeps, latch_or_report-keeps, abandon-keeps, next_with-keeps,
  old_epoch, retire_with-keeps, spawn_with-keeps,
}
use chimera_service.Manager.Switching.{
  named, replacement_stopped, replacement_ready, replacement_spawned, replacement_activated,
  replacement_deactivated, spawn_replacement, hard_cleaned, hard_retired, hard_deactivated,
  hard_prepared, hard_switch, slot_epoch,
}
use chimera_service.Manager.Start.Ends.{start_prepared-Ends}

module _ (env : Environment) (j : ℕ) where
  -- the process of a replacement that may be alive: it is up, or its stop was not proven
  abbrev pub risk : ℕ → Result Unit → ℕ
  risk epoch (ok _) = here epoch j
  risk epoch (err e) = if is_stop_unconfirmed e then here epoch j else 0

  replacement_stopped-keeps :
      (h epoch : ℕ) (e : Error) (stopped : Option Error) (s : Manager)
      → Books j true (h + here epoch j) (0 + (if is_uncertain stopped then here epoch j else 0)) s
      → Books j true (h + here epoch j) (risk epoch (replacement_stopped e stopped)) s
  unfolding replacement_stopped
  replacement_stopped-keeps h epoch e none s b = ground (arith, b)
  replacement_stopped-keeps h epoch e (some x) s b = ground (arith, b)

  replacement_ready-keeps :
      (h : ℕ) (plan : EpochPlan) (ready : Option Error) (s : Manager)
      → let e = plan.revision.epoch in
        let r = replacement_ready env plan ready s in
        Books j true (h + here e j) (0 + here e j) s → Books j true (h + here e j) (risk e r.0) r.1
  unfolding replacement_ready ◌>>=◌
  replacement_ready-keeps h plan none s b = ground (arith, b)
  replacement_ready-keeps h plan (some e) s b =
      replacement_stopped-keeps h plan.revision.epoch e _ _
        (stop_with-keeps env j h 0 true plan.revision.epoch s b)

  rejected-keeps :
      (h epoch : ℕ) (e : Error) (s : Manager)
      → Books j true (h + here epoch j) 0 s
      → Books j true (h + here epoch j) (risk epoch (err e)) s
  rejected-keeps h epoch e s b = ground (arith, b)

  replacement_spawned-keeps :
      (h : ℕ) (plan : EpochPlan) (launch : Option Error) (s : Manager)
      → let e = plan.revision.epoch in
        let r = replacement_spawned env plan launch s in
        Books j true (h + here e j) (0 + (if is_some launch then 0 else here e j)) s
        → Books j true (h + here e j) (risk e r.0) r.1
  unfolding replacement_spawned ◌>>=◌
  replacement_spawned-keeps h plan (some e) s b = rejected-keeps h plan.revision.epoch e s b
  replacement_spawned-keeps h plan none s b =
      replacement_ready-keeps h plan _ _ (ask-Keeps env.wait_ready j true _ _ s b)

  replacement_activated-keeps :
      (h : ℕ) (plan : EpochPlan) (x : Result Unit) (s : Manager)
      → let e = plan.revision.epoch in
        let r = replacement_activated env plan x s in
        Books j true (h + here e j) 0 s → Books j true (h + here e j) (risk e r.0) r.1
  unfolding replacement_activated ◌>>=◌
  replacement_activated-keeps h plan (err e) s b = rejected-keeps h plan.revision.epoch e s b
  replacement_activated-keeps h plan (ok _) s b =
      replacement_spawned-keeps h plan _ _ (spawn_with-keeps env j h 0 true plan s b)

  replacement_deactivated-keeps :
      (h : ℕ) (plan : EpochPlan) (x : Result Unit) (s : Manager)
      → let e = plan.revision.epoch in
        let r = replacement_deactivated env plan x s in
        Books j true (h + here e j) 0 s → Books j true (h + here e j) (risk e r.0) r.1
  unfolding replacement_deactivated ◌>>=◌
  replacement_deactivated-keeps h plan (err e) s b = rejected-keeps h plan.revision.epoch e s b
  replacement_deactivated-keeps h plan (ok _) s b =
      replacement_activated-keeps h plan _ _ (dns_activate-Keeps env j true _ _ plan s b)

  pub replacement-keeps :
      (h : ℕ) (plan : EpochPlan) (s : Manager)
      → let e = plan.revision.epoch in
        let r = spawn_replacement env plan s in
        Books j true (h + here e j) 0 s → Books j true (h + here e j) (risk e r.0) r.1
  unfolding spawn_replacement ◌>>=◌
  replacement-keeps h plan s b =
      replacement_deactivated-keeps h plan _ _ (dns_deactivate-Keeps env j true _ _ plan s b)

  hard_cleaned-keeps :
      (plan : EpochPlan) (cleaned : Option Error) (s : Manager)
      → Books j true (here plan.revision.epoch j) 0 s
      → Books j false 0 0 (hard_cleaned env plan cleaned s).1
  unfolding hard_cleaned
  hard_cleaned-keeps plan (some e) s b = report-keeps env j 0 0 false e s (let_go j true _ s b)
  hard_cleaned-keeps plan none s b = start_prepared-Ends env j plan s b

  hard_retired-keeps :
      (plan : EpochPlan) (r : Retired) (s : Manager)
      → Books j true (here plan.revision.epoch j + old_epoch env j 0 0 r) (0 + loose_by env j r) s
      → Books j false 0 0 (hard_retired env plan r s).1
  unfolding hard_retired ◌>>=◌
  hard_retired-keeps plan nothing s b = ground (arith, b)
  hard_retired-keeps plan (retired old) s b =
      hard_cleaned-keeps plan _ _ (cleanup-Keeps env j true _ _ s (leave env j _ 0 true _ s b))
  hard_retired-keeps plan (retire_failure epoch e) s b = let_go j true _ _ (
      latch_or_report-keeps env j (here plan.revision.epoch j) 0 true epoch e _
        (cleanup-Keeps env j true _ _ s b))

  hard_deactivated-keeps :
      (plan : EpochPlan) (x : Result Unit) (s : Manager)
      → Books j false (here plan.revision.epoch j) 0 s
      → Books j false 0 0 (hard_deactivated env plan x s).1
  unfolding hard_deactivated ◌>>=◌
  hard_deactivated-keeps plan (err e) s b = let_go j false _ _ (abandon-keeps env j _ 0 false e s b)
  hard_deactivated-keeps plan (ok _) s b = hard_retired-keeps plan _ _ (
      retire_with-keeps env j (here plan.revision.epoch j) 0 _ (
        publish-Keeps env j false _ _
          (CoreState.switching (slot_epoch s.current) plan.revision.epoch) (some plan) s b))

  hard_prepared-keeps :
      (epoch : ℕ) (x : Result EpochPlan) (s : Manager)
      → Books j false (here epoch j) 0 s
      → Books j false 0 0 (hard_prepared env epoch x s).1
  unfolding hard_prepared ◌>>=◌
  hard_prepared-keeps epoch (err e) s b = let_go j false _ _ (abandon-keeps env j _ 0 false e s b)
  hard_prepared-keeps epoch (ok plan) s b =
      hard_deactivated-keeps (named epoch plan) _ _
        (dns_deactivate-Keeps env j false _ _ (named epoch plan) s b)

  pub hard_switch-keeps :
      (spec snapshot : ℕ) (s : Manager)
      → Books j false 0 0 s
      → Books j false 0 0 (hard_switch env spec snapshot s).1
  unfolding hard_switch next_epoch ◌>>=◌
  hard_switch-keeps spec snapshot s b =
      hard_prepared-keeps _ _ _
        (ask-Keeps (λ t. env.prepare t spec snapshot) j false _ _ _ (new_epoch-keeps s b))
    where
      new_epoch-keeps :
          (s : Manager)
          → Books j false 0 0 s
          → Books j false (here (s.last_epoch + 1) j) 0 (next_epoch s).1
      new_epoch-keeps s b = ground (arith, next_with-keeps env j 0 0 false s b (omega arith))
