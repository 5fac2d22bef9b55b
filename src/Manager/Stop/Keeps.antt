-- ===== src/Manager/Stop/Keeps.antt =====
-- A stop and a shutdown keep the books of the manager.
use chimera_service.Base.{
  ℕ, subst, inl, inr, true, false, Option, none, some, arith, if◌then◌else◌, Bool-cases,
}
use chimera_service.Errors.{Error}
use chimera_service.Manager.State.{
  Result, ok, err, StopReason, InstanceState, CoreState, EpochPlan, Environment, Manager, ◌>>=◌,
  ask,
}
use chimera_service.Manager.Publish.{instance_core_state}
use chimera_service.Manager.Start.{is_stop_unconfirmed}
use chimera_service.Manager.Start.Accounts.{here, Books}
use chimera_service.Manager.Start.Keeps.{
  publish-Keeps, publish_terminal_error-Keeps, dns_restore-Keeps, latch-Keeps, cleanup-Keeps,
  let_go, is_uncertain, ask-Keeps,
}
use chimera_service.Manager.Start.Slot.{in_hands, take-keeps, stop-keeps, fail_stop-keeps}
use chimera_service.Manager.Stop.{
  stop_cleaned, stop_confirmed, stop_running, terminal_cleaned, terminal_confirmed, stop_terminal,
  stop_taken, stop_restored, stop, shutdown_taken, shutdown_restored, shutdown,
}

module _ (env : Environment) (j : ℕ) where
  stop_cleaned-keeps :
      (cleaned : Option Error) (s : Manager)
      → Books j true 0 0 s
      → Books j true 0 0 (stop_cleaned env cleaned s).1
  unfolding stop_cleaned ◌>>=◌
  stop_cleaned-keeps none s b =
      publish-Keeps env j true 0 0 (CoreState.stopped (some StopReason.user)) none s b
  stop_cleaned-keeps (some e) s b = publish_terminal_error-Keeps env j true 0 0 e s b

  stop_confirmed-keeps :
      (epoch : ℕ) (stopped : Option Error) (s : Manager)
      → Books j true (here epoch j) (if is_uncertain stopped then here epoch j else 0) s
      → Books j false 0 0 (stop_confirmed env epoch stopped s).1
  unfolding stop_confirmed ◌>>=◌
  stop_confirmed-keeps epoch none s b =
      let_go j true 0 _
        (stop_cleaned-keeps _ _ (cleanup-Keeps env j true 0 0 s (drop_held (here epoch j) s b)))
    where
      drop_held : (h : ℕ) (s : Manager) → Books j true h 0 s → Books j true 0 0 s
      drop_held h s b = ground (arith, b)
  stop_confirmed-keeps epoch (some e) s b = elim (Bool-cases (is_stop_unconfirmed e)) [
    | inl u ↦ rw u (let_go j true 0 _ (latch-Keeps env j true _ epoch e (ground arith) s b))
    | inr u ↦ rw u (
        publish_terminal_error-Keeps env j false 0 0 e s (
          let_go j true (here epoch j) s
            (subst (λ x. Books j true (here epoch j) (if x then here epoch j else 0) s) u b)))
  ]

  stop_running-keeps :
      (plan : EpochPlan) (s : Manager)
      → Books j true (here plan.revision.epoch j) (here plan.revision.epoch j) s
      → Books j false 0 0 (stop_running env plan s).1
  unfolding stop_running ◌>>=◌
  stop_running-keeps plan s b =
      let e = plan.revision.epoch in
      stop_confirmed-keeps e _ _ (
        stop-keeps env j true e _
          (publish-Keeps env j true _ _ (CoreState.stopping e) (some plan) s b))

  terminal_cleaned-keeps :
      (cleaned : Option Error) (s : Manager)
      → Books j false 0 0 s
      → Books j false 0 0 (terminal_cleaned env cleaned s).1
  unfolding terminal_cleaned ◌>>=◌
  terminal_cleaned-keeps none s b = b
  terminal_cleaned-keeps (some e) s b = publish_terminal_error-Keeps env j false 0 0 e s b

  terminal_confirmed-keeps :
      (epoch : ℕ) (stopped : Option Error) (s : Manager)
      → Books j true (here epoch j) (if is_uncertain stopped then here epoch j else 0) s
      → Books j false 0 0 (terminal_confirmed env epoch stopped s).1
  unfolding terminal_confirmed ◌>>=◌
  terminal_confirmed-keeps epoch none s b =
      terminal_cleaned-keeps _ _
        (cleanup-Keeps env j false 0 0 s (let_go j true (here epoch j) s b))
  terminal_confirmed-keeps epoch (some e) s b =
      let_go j true 0 _ (fail_stop-keeps env j true epoch e s b)

  stop_terminal-keeps :
      (plan : EpochPlan) (state : InstanceState) (s : Manager)
      → Books j true (here plan.revision.epoch j) (here plan.revision.epoch j) s
      → Books j false 0 0 (stop_terminal env plan state s).1
  unfolding stop_terminal ◌>>=◌
  stop_terminal-keeps plan state s b =
      let e = plan.revision.epoch in
      terminal_confirmed-keeps e _ _ (
        stop-keeps env j true e _
          (publish-Keeps env j true _ _ (instance_core_state e state) (some plan) s b))

  stop_taken-keeps :
      (current : Option EpochPlan) (s : Manager)
      → Books j true (in_hands env j current) (in_hands env j current) s
      → Books j false 0 0 (stop_taken env current s).1
  unfolding stop_taken ◌>>=◌
  stop_taken-keeps none s b = let_go j true 0 s b
  stop_taken-keeps (some plan) s b =
      let captured = env.instance_status s.clock in
      let s' = (ask env.instance_status s).1 in
      let b' = ask-Keeps env.instance_status j true _ _ s b in
      ground (arith, stop_terminal-keeps plan captured.state s' b', stop_running-keeps plan s' b')

  stop_restored-keeps :
      (r : Result Unit) (s : Manager)
      → Books j false 0 0 s
      → Books j false 0 0 (stop_restored env r s).1
  unfolding stop_restored ◌>>=◌
  stop_restored-keeps (err e) s b = b
  stop_restored-keeps (ok _) s b = stop_taken-keeps s.current _ (take-keeps env j s b)

  pub stop_transaction-keeps :
      (s : Manager) → Books j false 0 0 s → Books j false 0 0 (stop env s).1
  unfolding stop ◌>>=◌
  stop_transaction-keeps s b = stop_restored-keeps _ _ (dns_restore-Keeps env j false 0 0 s b)

  shutdown_taken-keeps :
      (current : Option EpochPlan) (s : Manager)
      → Books j true (in_hands env j current) (in_hands env j current) s
      → Books j false 0 0 (shutdown_taken env current s).1
  unfolding shutdown_taken
  shutdown_taken-keeps none s b = let_go j true 0 s b
  shutdown_taken-keeps (some plan) s b = stop_running-keeps plan s b

  close_sink-keeps :
      (s : Manager) → Books j false 0 0 s → Books j false 0 0 (record s { log_sink = false })
  close_sink-keeps s b = ground (arith, b)

  shutdown_restored-keeps :
      (r : Result Unit) (s : Manager)
      → Books j false 0 0 s
      → Books j false 0 0 (shutdown_restored env r s).1
  unfolding shutdown_restored ◌>>=◌
  shutdown_restored-keeps (err e) s b = b
  shutdown_restored-keeps (ok _) s b =
      close_sink-keeps _ (shutdown_taken-keeps s.current _ (take-keeps env j s b))

  pub shutdown-keeps : (s : Manager) → Books j false 0 0 s → Books j false 0 0 (shutdown env s).1
  unfolding shutdown ◌>>=◌
  shutdown-keeps s b = shutdown_restored-keeps _ _ (dns_restore-Keeps env j false 0 0 s b)
