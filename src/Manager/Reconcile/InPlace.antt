-- ===== src/Manager/Reconcile/InPlace.antt =====
-- A config that is taken in place keeps the books of the manager (manager/apply.rs).
use chimera_service.Base.{ℕ, ◌≡◌, ◌∙◌, Bool, true, false, Option, none, some, arith}
use chimera_service.Errors.{Error}
use chimera_service.Manager.State.{
  Result, ok, err, EpochPlan, ConfigChange, Environment, Manager, ◌>>=◌,
}
use chimera_service.Manager.Dns.{dns_activate_for_plan}
use chimera_service.Manager.Start.Accounts.{Books}
use chimera_service.Manager.Start.Keeps.{
  publish_instance-Keeps, dns_activate-Keeps, dns_deactivate-Keeps, ask-Keeps, dns_converge-Keeps,
}
use chimera_service.Manager.Dns.{
  persist_dns_record, install_override, install_on, apply_recorded, activate_intent,
}
use chimera_service.Manager.Apply.Keeps.{deactivate-current, restart_compensated-keeps}
use chimera_service.Manager.Reconcile.{
  adopt, applied_in_place, withdraw, apply_committed, apply_activated, apply_deactivated,
  apply_backed_up,
}

module _ (env : Environment) (j : ℕ) where
  -- the slot has a plan of the epoch of the desired one
  abbrev pub InSlot : EpochPlan → Manager → Type 0
  InSlot desired s =
      (plan : EpochPlan) × (s.current ≡ some plan) × (plan.revision.epoch ≡ desired.revision.epoch)

  adopt-keeps :
      (desired : EpochPlan) (s : Manager)
      → InSlot desired s
      → Books j false 0 0 s
      → Books j false 0 0 (adopt desired s).1
  unfolding adopt
  adopt-keeps desired s (plan, c, p) b = ground (arith, c, p, b)

  withdraw-keeps :
      (e : Error) (s : Manager) → Books j false 0 0 s → Books j false 0 0 (withdraw env e s).1
  unfolding withdraw ◌>>=◌
  withdraw-keeps e s b = ask-Keeps env.remove_backup j false 0 0 s b

  in_place-keeps :
      (change : ConfigChange) (desired : EpochPlan) (warning taken : Bool) (s : Manager)
      → InSlot desired s
      → Books j false 0 0 s
      → Books j false 0 0 (applied_in_place env change desired warning taken s).1
  unfolding applied_in_place ◌>>=◌
  in_place-keeps change desired warning true s c b = ask-Keeps env.remove_backup j false 0 0 _ (
      publish_instance-Keeps env j false 0 0 _ desired _
        (ask-Keeps env.pid j false 0 0 _ (adopt-keeps desired s c b)))
  in_place-keeps change desired warning false s (plan, c, p) b =
      restart_compensated-keeps env j desired plan s c p b

  committed-keeps :
      (change : ConfigChange) (desired : EpochPlan) (r : Result Bool) (s : Manager)
      → InSlot desired s
      → Books j false 0 0 s
      → Books j false 0 0 (apply_committed env change desired r s).1
  unfolding apply_committed ◌>>=◌
  committed-keeps change desired (err e) s c b =
      withdraw-keeps e _ (dns_converge-Keeps env j false 0 0 s b)
  committed-keeps change desired (ok warning) s c b =
      in_place-keeps change desired warning _ _ c (ask-Keeps env.reconciled j false 0 0 s b)

  activated-keeps :
      (change : ConfigChange) (desired : EpochPlan) (r : Result Unit) (s : Manager)
      → InSlot desired s
      → Books j false 0 0 s
      → Books j false 0 0 (apply_activated env change desired r s).1
  unfolding apply_activated ◌>>=◌
  activated-keeps change desired (err e) s c b =
      withdraw-keeps e _ (dns_converge-Keeps env j false 0 0 s b)
  activated-keeps change desired (ok _) s c b =
      committed-keeps change desired _ _ c (ask-Keeps env.commit_replace j false 0 0 s b)

  activate-current :
      (plan : EpochPlan) (s : Manager) → (dns_activate_for_plan env plan s).1.current ≡ s.current
  unfolding dns_activate_for_plan activate_intent install_override install_on apply_recorded
      persist_dns_record ◌>>=◌
  activate-current plan s = ground arith

  deactivated-keeps :
      (change : ConfigChange) (desired : EpochPlan) (r : Result Unit) (s : Manager)
      → InSlot desired s
      → Books j false 0 0 s
      → Books j false 0 0 (apply_deactivated env change desired r s).1
  unfolding apply_deactivated ◌>>=◌
  deactivated-keeps change desired (err e) s c b = withdraw-keeps e s b
  deactivated-keeps change desired (ok _) s (plan, c, p) b =
      activated-keeps change desired _ _ (plan, activate-current desired s ∙ c, p)
        (dns_activate-Keeps env j false 0 0 desired s b)

  pub backed_up-keeps :
      (change : ConfigChange) (desired : EpochPlan) (r : Option Error) (s : Manager)
      → InSlot desired s
      → Books j false 0 0 s
      → Books j false 0 0 (apply_backed_up env change desired r s).1
  unfolding apply_backed_up ◌>>=◌
  backed_up-keeps change desired (some e) s c b = b
  backed_up-keeps change desired none s (plan, c, p) b =
      deactivated-keeps change desired _ _ (plan, deactivate-current env j desired s ∙ c, p)
        (dns_deactivate-Keeps env j false 0 0 desired s b)
