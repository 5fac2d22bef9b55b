-- ===== src/Manager/Apply/Keeps.antt =====
-- A restart with compensation keeps the books of the manager.
use chimera_service.Base.{
  ℕ, ◌+◌, ◌≤◌, ◌≡◌, sym, ◌∙◌, subst, inl, inr, Bool, true, false, some, arith, if◌then◌else◌,
  Bool-cases,
}
use chimera_service.Errors.{Error}
use chimera_service.Manager.State.{
  Result, ok, err, CoreState, EpochPlan, Environment, Manager, ◌>>=◌, ask,
}
use chimera_service.Manager.Start.{
  is_stop_unconfirmed, stop_and_confirm_dead, Retired, nothing, retired, retire_failure,
  retire_current,
}
use chimera_service.Manager.Dns.{dns_deactivate_for_plan, dns_restore}
use chimera_service.Manager.Start.Accounts.{here, Books}
use chimera_service.Manager.Start.{retire_taken, confirmed}
use chimera_service.Manager.Start.Keeps.{publish-Keeps, dns_deactivate-Keeps, let_go, ask-Keeps}
use chimera_service.Manager.Switching.Hands.{
  latch_result_with-keeps, report-keeps, old_epoch, retire_with-keeps, publish_and_install-keeps,
}
use chimera_service.Manager.Start.Slot.{loose_by}
use chimera_service.Manager.Dns.{persist_dns_record}
use chimera_service.Manager.Switching.Keeps.{replacement-keeps, risk}
use chimera_service.Manager.Apply.{
  fail_with, quarantine_with, rolled, roll_back, restart_restored, restart_spawned, unretired,
  restart_retired, restart_deactivated, restart_with_compensation,
}

module _ (env : Environment) (j : ℕ) where
  fail_with-keeps :
      (e : Error) (s : Manager) → Books j false 0 0 s → Books j false 0 0 (fail_with env e s).1
  unfolding fail_with ◌>>=◌
  fail_with-keeps e s b = report-keeps env j 0 0 false e s b

  pub quarantine_with-keeps :
      (h k epoch : ℕ) (e : Error) (s : Manager)
      → k ≤ here epoch j
      → Books j true (h + here epoch j) (0 + k) s
      → Books j false 0 0 (quarantine_with env epoch e s).1
  unfolding quarantine_with ◌>>=◌
  quarantine_with-keeps h k epoch e s u b =
      let_go j true h _ (latch_result_with-keeps env j h 0 true k epoch e s u b)

  -- a failure without a process that may be alive
  pub settled :
      (h epoch : ℕ) (e : Error) (s : Manager)
      → is_stop_unconfirmed e ≡ false
      → Books j true (h + here epoch j) (risk env j epoch (err e)) s
      → Books j true (h + here epoch j) 0 s
  settled h epoch e s u b = ground (arith, b, u)

  rolled-keeps :
      (h : ℕ) (old : EpochPlan) (r : Result Unit) (s : Manager)
      → Books j true (h + here old.revision.epoch j) (risk env j old.revision.epoch r) s
      → Books j false 0 0 (rolled env old r s).1
  unfolding rolled ◌>>=◌
  rolled-keeps h old (ok _) s b = publish_and_install-keeps env j h 0 old s b
  rolled-keeps h old (err e) s b = elim (Bool-cases (is_stop_unconfirmed e)) [
    | inl u ↦ rw u (
        quarantine_with-keeps h (risk env j old.revision.epoch (err e)) old.revision.epoch
          Error.stop_unconfirmed s (ground arith) (ground (arith, b)))
    | inr u ↦ rw u (
        fail_with-keeps Error.apply_rollback_failed s
          (let_go j true _ s (settled h old.revision.epoch e s u b)))
  ]

  pub roll_back-keeps :
      (h : ℕ) (old : EpochPlan) (s : Manager)
      → Books j true (h + here old.revision.epoch j) 0 s
      → Books j false 0 0 (roll_back env old s).1
  unfolding roll_back ◌>>=◌
  roll_back-keeps h old s b = rolled-keeps h old _ _ (
      replacement-keeps env j h old _
        (publish-Keeps env j true _ 0 (CoreState.restarting old.revision.epoch 0) (some old) s b))

  restart_restored-keeps :
      (h : ℕ) (old : EpochPlan) (r : Result Bool) (s : Manager)
      → Books j true (h + here old.revision.epoch j) 0 s
      → Books j false 0 0 (restart_restored env old r s).1
  unfolding restart_restored ◌>>=◌
  restart_restored-keeps h old (err e) s b =
      fail_with-keeps Error.apply_rollback_failed s (let_go j true _ s b)
  restart_restored-keeps h old (ok warning) s b = roll_back-keeps h old s b

  -- the desired plan and the old one are of one epoch
  restart_spawned-keeps :
      (old desired : EpochPlan) (r : Result Unit) (s : Manager)
      → old.revision.epoch ≡ desired.revision.epoch
      → Books j true (0 + here desired.revision.epoch j) (risk env j desired.revision.epoch r) s
      → Books j false 0 0 (restart_spawned env old desired r s).1
  unfolding restart_spawned ◌>>=◌
  restart_spawned-keeps old desired (ok _) s p b =
      ask-Keeps env.remove_backup j false 0 0 _ (publish_and_install-keeps env j 0 0 desired s b)
  restart_spawned-keeps old desired (err e) s p b = elim (Bool-cases (is_stop_unconfirmed e)) [
    | inl u ↦ rw u (
        quarantine_with-keeps 0 (risk env j desired.revision.epoch (err e)) desired.revision.epoch e
          s (ground arith) (ground (arith, b)))
    | inr u ↦ rw u (
        restart_restored-keeps 0 old _ _ (
          subst (λ x. Books j true (0 + here x j) 0 (ask env.restore_backup s).1) (sym p)
            (ask-Keeps env.restore_backup j true _ 0 s (settled 0 desired.revision.epoch e s u b))))
  ]

  pub unretired-keeps :
      (h epoch : ℕ) (e : Error) (s : Manager)
      → Books j true (h + here epoch j) (0 + (if is_stop_unconfirmed e then here epoch j else 0)) s
      → Books j false 0 0 (unretired env epoch e s).1
  unfolding unretired
  unretired-keeps h epoch e s b = elim (Bool-cases (is_stop_unconfirmed e)) [
    | inl u ↦ rw u (quarantine_with-keeps h _ epoch e s (ground arith) b)
    | inr u ↦ rw u (
        fail_with-keeps Error.apply_failed s
          (let_go j true (h + here epoch j) s (settled h epoch e s u (ground (arith, b)))))
  ]

  -- what was retired is of the epoch
  abbrev IsOf : ℕ → Retired → Type 0
  IsOf epoch (retired old) = old.revision.epoch ≡ epoch
  IsOf epoch _ = Unit

  restart_retired-keeps :
      (desired : EpochPlan) (r : Retired) (s : Manager)
      → IsOf desired.revision.epoch r
      → Books j true (0 + old_epoch env j 0 0 r) (0 + loose_by env j r) s
      → Books j false 0 0 (restart_retired env desired r s).1
  unfolding restart_retired ◌>>=◌
  restart_retired-keeps desired nothing s p b = ground (arith, b)
  restart_retired-keeps desired (retire_failure epoch e) s p b = unretired-keeps 0 epoch e s b
  restart_retired-keeps desired (retired old) s p b = restart_spawned-keeps old desired _ _ p (
      replacement-keeps env j 0 desired _ (
        publish-Keeps env j true _ 0 (CoreState.restarting desired.revision.epoch 0) (some desired)
          s (subst (λ x. Books j true (0 + here x j) 0 s) p (ground (arith, b)))))

  retire-IsOf :
      (epoch : ℕ) (s : Manager) (plan : EpochPlan)
      → s.current ≡ some plan
      → plan.revision.epoch ≡ epoch
      → IsOf epoch (retire_current env s).0
  unfolding retire_current retire_taken stop_and_confirm_dead confirmed ◌>>=◌
  retire-IsOf epoch s plan c p = ground (arith, c, p)

  restart_deactivated-keeps :
      (desired plan : EpochPlan) (r : Result Unit) (s : Manager)
      → s.current ≡ some plan
      → plan.revision.epoch ≡ desired.revision.epoch
      → Books j false 0 0 s
      → Books j false 0 0 (restart_deactivated env desired r s).1
  unfolding restart_deactivated ◌>>=◌
  restart_deactivated-keeps desired plan (err e) s c p b = b
  restart_deactivated-keeps desired plan (ok _) s c p b =
      restart_retired-keeps desired _ _ (retire-IsOf desired.revision.epoch s plan c p)
        (retire_with-keeps env j 0 0 s b)

  pub restore-current : (s : Manager) → (dns_restore env s).1.current ≡ s.current
  unfolding dns_restore persist_dns_record ◌>>=◌
  restore-current s = ground arith

  pub deactivate-current :
      (plan : EpochPlan) (s : Manager) → (dns_deactivate_for_plan env plan s).1.current ≡ s.current
  unfolding dns_deactivate_for_plan
  deactivate-current plan s = ground (arith, restore-current s)

  pub restart_compensated-keeps :
      (desired plan : EpochPlan) (s : Manager)
      → s.current ≡ some plan
      → plan.revision.epoch ≡ desired.revision.epoch
      → Books j false 0 0 s
      → Books j false 0 0 (restart_with_compensation env desired s).1
  unfolding restart_with_compensation ◌>>=◌
  restart_compensated-keeps desired plan s c p b =
      restart_deactivated-keeps desired plan _ _ (deactivate-current desired s ∙ c) p
        (dns_deactivate-Keeps env j false 0 0 desired s b)
