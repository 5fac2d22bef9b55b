-- ===== src/Manager/Apply/Switches.antt =====
-- A switch with compensation keeps the books of the manager (manager/apply.rs).
use chimera_service.Base.{ℕ, ◌+◌, inl, inr, true, false, some, arith, Bool-cases}
use chimera_service.Manager.State.{
  Result, ok, err, CoreState, EpochPlan, Environment, Manager, ◌>>=◌,
}
use chimera_service.Manager.Start.{
  is_stop_unconfirmed, next_epoch, Retired, nothing, retired, retire_failure,
}
use chimera_service.Manager.Start.Accounts.{here, Books}
use chimera_service.Manager.Start.Keeps.{
  publish-Keeps, dns_deactivate-Keeps, cleanup-Keeps, let_go, ask-Keeps,
}
use chimera_service.Manager.Switching.Hands.{
  next_with-keeps, old_epoch, retire_with-keeps, publish_and_install-keeps,
}
use chimera_service.Manager.Start.Slot.{loose_by}
use chimera_service.Manager.Switching.{named}
use chimera_service.Manager.Switching.Keeps.{replacement-keeps, risk}
use chimera_service.Manager.Apply.{
  switch_spawned, switch_retired, switch_deactivated, switch_prepared, switch_with_compensation,
}
use chimera_service.Manager.Apply.Keeps.{
  quarantine_with-keeps, settled, roll_back-keeps, unretired-keeps,
}

module _ (env : Environment) (j : ℕ) where
  switch_spawned-keeps :
      (old desired : EpochPlan) (r : Result Unit) (s : Manager)
      → Books j true
          (here old.revision.epoch j + here desired.revision.epoch j)
          (risk env j desired.revision.epoch r)
          s
      → Books j false 0 0 (switch_spawned env old desired r s).1
  unfolding switch_spawned ◌>>=◌
  switch_spawned-keeps old desired (ok _) s b =
      cleanup-Keeps env j false 0 0 _
        (publish_and_install-keeps env j (here old.revision.epoch j) 0 desired s b)
  switch_spawned-keeps old desired (err e) s b = elim (Bool-cases (is_stop_unconfirmed e)) [
    | inl u ↦ rw u (
        quarantine_with-keeps env j (here old.revision.epoch j)
          (risk env j desired.revision.epoch (err e)) desired.revision.epoch e s (ground arith)
          (ground (arith, b)))
    | inr u ↦ rw u (
        roll_back-keeps env j 0 old _ (
          cleanup-Keeps env j true _ 0 s (
            ground
              (arith, settled env j (here old.revision.epoch j) desired.revision.epoch e s u b))))
  ]

  switch_retired-keeps :
      (desired : EpochPlan) (r : Retired) (s : Manager)
      → Books j true
          (here desired.revision.epoch j + old_epoch env j 0 0 r)
          (0 + loose_by env j r)
          s
      → Books j false 0 0 (switch_retired env desired r s).1
  unfolding switch_retired ◌>>=◌
  switch_retired-keeps desired nothing s b = ground (arith, b)
  switch_retired-keeps desired (retire_failure epoch e) s b =
      unretired-keeps env j (here desired.revision.epoch j) epoch e _
        (cleanup-Keeps env j true _ _ s b)
  switch_retired-keeps desired (retired old) s b = switch_spawned-keeps old desired _ _ (
      replacement-keeps env j (here old.revision.epoch j) desired _ (
        publish-Keeps env j true _ 0
          (CoreState.switching (some old.revision.epoch) desired.revision.epoch) (some desired) s
          (ground (arith, b))))

  switch_deactivated-keeps :
      (desired : EpochPlan) (r : Result Unit) (s : Manager)
      → Books j false (here desired.revision.epoch j) 0 s
      → Books j false 0 0 (switch_deactivated env desired r s).1
  unfolding switch_deactivated ◌>>=◌
  switch_deactivated-keeps desired (err e) s b =
      let_go j false _ _ (cleanup-Keeps env j false _ 0 s b)
  switch_deactivated-keeps desired (ok _) s b =
      switch_retired-keeps desired _ _
        (retire_with-keeps env j (here desired.revision.epoch j) 0 s b)

  switch_prepared-keeps :
      (epoch : ℕ) (r : Result EpochPlan) (s : Manager)
      → Books j false (here epoch j) 0 s
      → Books j false 0 0 (switch_prepared env epoch r s).1
  unfolding switch_prepared ◌>>=◌
  switch_prepared-keeps epoch (err e) s b = let_go j false _ s b
  switch_prepared-keeps epoch (ok plan) s b =
      switch_deactivated-keeps (named epoch plan) _ _
        (dns_deactivate-Keeps env j false _ 0 (named epoch plan) s b)

  pub switch_compensated-keeps :
      (spec snapshot : ℕ) (s : Manager)
      → Books j false 0 0 s
      → Books j false 0 0 (switch_with_compensation env spec snapshot s).1
  unfolding switch_with_compensation next_epoch ◌>>=◌
  switch_compensated-keeps spec snapshot s b =
      switch_prepared-keeps _ _ _
        (ask-Keeps (λ t. env.prepare t spec snapshot) j false _ _ _ (new_epoch-keeps s b))
    where
      new_epoch-keeps :
          (s : Manager)
          → Books j false 0 0 s
          → Books j false (here (s.last_epoch + 1) j) 0 (next_epoch s).1
      new_epoch-keeps s b = ground (arith, next_with-keeps env j 0 0 false s b (omega arith))
