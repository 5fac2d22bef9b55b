-- ===== src/Manager/Start/Ends.antt =====
-- A start ends with the books of the manager in order, however it ends.
use chimera_service.Base.{
  ℕ, ◌+◌, Bool, true, false, Option, none, some, arith, if◌then◌else◌, is_some,
}
use chimera_service.Errors.{Error}
use chimera_service.Manager.State.{
  Result, ok, err, CoreState, EpochPlan, Environment, Manager, Transaction, ◌>>=◌, ◌>>◌,
}
use chimera_service.Manager.Start.{
  is_stop_unconfirmed, next_epoch, spawn_instance, stop_and_confirm_dead, install, reject_start,
  start_prepared, start_locked,
}
use chimera_service.Manager.Dns.{dns_restore}
use chimera_service.Manager.Start.Accounts.{here, Books}
use chimera_service.Manager.Start.{
  stopped_unready, start_ready, start_spawned, start_deactivated, start_activated, start_plan,
  start_loaded,
}
use chimera_service.Manager.Start.Keeps.{
  publish-Keeps, publish_terminal_error-Keeps, publish_instance-Keeps, dns_restore-Keeps,
  dns_activate-Keeps, dns_deactivate-Keeps, latch-Keeps, cleanup-Keeps, let_go, launched-keeps,
  is_uncertain, confirmed-keeps, ask-Keeps,
}

module _ (env : Environment) (j : ℕ) where
  -- from books with an epoch in the hands to books with none
  abbrev Ends : {A : Type 0} → Bool → ℕ → ℕ → Transaction A → Type 0
  Ends v h l m = (s : Manager) → Books j v h l s → Books j false 0 0 (m s).1

  reject_start-Ends : (v : Bool) (h : ℕ) (e : Error) → Ends v h 0 (reject_start env e)
  unfolding reject_start ◌>>=◌
  reject_start-Ends v h e s b =
      publish_terminal_error-Keeps env j false 0 0 e _
        (cleanup-Keeps env j false 0 0 s (let_go j v h s b))

  restored_reject-Ends :
      (v : Bool) (h : ℕ) (e : Error) → Ends v h 0 (dns_restore env >> reject_start env e)
  unfolding ◌>>=◌
  restored_reject-Ends v h e s b = reject_start-Ends v h e _ (dns_restore-Keeps env j v h 0 s b)

  stopped_unready-Ends :
      (v : Bool) (plan : EpochPlan) (readiness : Error) (stopped : Option Error)
      → let e = plan.revision.epoch in
        Ends v
          (here e j)
          (if is_uncertain stopped then here e j else 0)
          (stopped_unready env plan readiness stopped)
  unfolding stopped_unready ◌>>=◌
  stopped_unready-Ends v plan readiness none s b = restored_reject-Ends v _ readiness s b
  stopped_unready-Ends v plan readiness (some e) s b = let_go j v 0 _ (
      latch-Keeps env j v (if is_stop_unconfirmed e then here plan.revision.epoch j else 0)
        plan.revision.epoch Error.stop_unconfirmed (ground arith) s b)

  install-Ends :
      (plan : EpochPlan)
      → Ends true (here plan.revision.epoch j) (here plan.revision.epoch j) (install plan)
  unfolding install
  install-Ends plan s b = ground (arith, b)

  start_ready-Ends :
      (plan : EpochPlan) (ready : Option Error)
      → Ends true
          (here plan.revision.epoch j)
          (here plan.revision.epoch j)
          (start_ready env plan ready)
  unfolding start_ready stop_and_confirm_dead install ◌>>=◌
  start_ready-Ends plan (some readiness) s b = stopped_unready-Ends true plan readiness _ _ (
      confirmed-keeps j plan.revision.epoch true _ _
        (ask-Keeps env.stop_and_confirm_dead j true _ _ s b))
  start_ready-Ends plan none s b =
      install-Ends plan _
        (publish_instance-Keeps env j true _ _ _ plan _ (ask-Keeps env.pid j true _ _ s b))

  start_spawned-Ends :
      (plan : EpochPlan) (launch : Option Error)
      → let e = plan.revision.epoch in
        Ends true
          (here e j)
          (if is_some launch then 0 else here e j)
          (start_spawned env plan launch)
  unfolding start_spawned ◌>>=◌
  start_spawned-Ends plan (some e) s b = restored_reject-Ends true _ e s b
  start_spawned-Ends plan none s b =
      start_ready-Ends plan _ _ (ask-Keeps env.wait_ready j true _ _ s b)

  start_deactivated-Ends :
      (plan : EpochPlan) (r : Result Unit)
      → Ends true (here plan.revision.epoch j) 0 (start_deactivated env plan r)
  unfolding start_deactivated spawn_instance ◌>>=◌
  start_deactivated-Ends plan (err e) s b = reject_start-Ends true _ e s b
  start_deactivated-Ends plan (ok _) s b =
      let e = plan.revision.epoch in
      start_spawned-Ends plan _ _ (
        launched-keeps j e true _ _ (
          ask-Keeps env.launch j true _ _ _
            (publish-Keeps env j true _ _ (CoreState.starting e) (some plan) s b)))

  start_activated-Ends :
      (plan : EpochPlan) (r : Result Unit)
      → Ends true (here plan.revision.epoch j) 0 (start_activated env plan r)
  unfolding start_activated ◌>>=◌
  start_activated-Ends plan (err e) s b = restored_reject-Ends true _ e s b
  start_activated-Ends plan (ok _) s b =
      start_deactivated-Ends plan _ _ (dns_deactivate-Keeps env j true _ _ plan s b)

  pub start_prepared-Ends :
      (plan : EpochPlan) → Ends true (here plan.revision.epoch j) 0 (start_prepared env plan)
  unfolding start_prepared ◌>>=◌
  start_prepared-Ends plan s b =
      start_activated-Ends plan _ _ (dns_activate-Keeps env j true _ _ plan s b)

  start_plan-Ends :
      (epoch : ℕ) (r : Result EpochPlan) → Ends true (here epoch j) 0 (start_plan env epoch r)
  unfolding start_plan
  start_plan-Ends epoch (err e) s b = reject_start-Ends true _ e s b
  start_plan-Ends epoch (ok plan) s b =
      start_prepared-Ends
        (record plan { revision = record plan.revision { epoch = epoch; generation = 1 } }) s b

  start_loaded-Ends :
      (spec epoch : ℕ) (r : Result ℕ) → Ends true (here epoch j) 0 (start_loaded env spec epoch r)
  unfolding start_loaded ◌>>=◌
  start_loaded-Ends spec epoch (err e) s b =
      publish_terminal_error-Keeps env j false 0 0 e s (let_go j true _ s b)
  start_loaded-Ends spec epoch (ok snapshot) s b =
      start_plan-Ends epoch _ _ (ask-Keeps (λ t. env.prepare t spec snapshot) j true _ _ s b)

  -- the epoch that the allocator gives is new: it goes into the hands
  next_epoch-keeps :
      (s : Manager)
      → Books j true 0 0 s
      → Books j true (here (s.last_epoch + 1) j) 0 (next_epoch s).1
  unfolding next_epoch
  next_epoch-keeps s b = ground (arith, b)

  pub start_locked-Ends : (spec : ℕ) → Ends true 0 0 (start_locked env spec)
  unfolding start_locked ◌>>=◌
  start_locked-Ends spec s b =
      start_loaded-Ends spec _ _ _ (ask-Keeps env.load_snapshot j true _ _ _ (next_epoch-keeps s b))
