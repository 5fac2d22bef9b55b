-- ===== src/Manager/Closed.antt =====
-- What the manager may still do while an epoch is quarantined (manager/quarantine.rs and the transactions of
-- manager/mod.rs that have no gate).
use chimera_service.Base.{
  ℕ, ◌≤◌, ◌≡◌, refl, sym, ap, Bool, true, false, Option, none, some, List, [], ◌∷◌, ◌||◌, arith,
  any, subst, if◌then◌else◌,
}
use chimera_service.Errors.{Error}
use chimera_service.Manager.State.{
  Result, ok, err, StopReason, InstanceState, is_terminal, CoreState, EpochPlan, QuarantinedEpoch,
  Environment, Manager, Transaction, ◌>>=◌, done, modify, ask,
}
use chimera_service.Manager.Publish.{publish, publish_terminal_error, instance_core_state}
use chimera_service.Manager.Dns.{dns_restore, persist_dns_record}
use chimera_service.Manager.Quarantine.{
  latch_quarantine, record_quarantine, reject_quarantine, quarantine_error,
}
use chimera_service.Manager.Start.{
  take_current, is_stop_unconfirmed, stop_and_confirm_dead, confirmed, cleanup_epoch, fail_stop,
  gated, start,
}
use chimera_service.Manager.Stop.{
  stop_cleaned, stop_confirmed, stop_running, terminal_cleaned, terminal_confirmed, stop_terminal,
  stop_taken, stop_restored, stop, shutdown_taken, shutdown_restored, shutdown,
}
use chimera_service.Manager.Switch.{switch, restart}
use chimera_service.Manager.Reconcile.{apply_config, reconcile}
use chimera_service.Manager.Commands.{
  Command, start_with, switch_to, apply_spec, reconcile_to, restart_it, stop_it, shut_down, recover,
  perform, perform_all,
}

abbrev pub has_entry : List QuarantinedEpoch → Bool
has_entry [] = false
has_entry (_ ∷ _) = true

or-false : (a b : Bool) → (a || b) ≡ false → (a ≡ false) × (b ≡ false)
or-false true b p = ground (arith, p)
or-false false b p = (refl, p)

-- from one state to a later one no epoch was given out and nothing was launched, and the quarantine holds
pub record Closed (j : ℕ) (s s' : Manager) : Type 0 where
  pub last_epoch : s'.last_epoch ≡ s.last_epoch
  pub processes : s'.processes j ≤ s.processes j
  pub unconfirmed : s'.unconfirmed j ≡ s.unconfirmed j
  pub quarantined : has_entry s'.quarantine ≡ true

abbrev pub is_recovery : Command → Bool
is_recovery recover = true
is_recovery _ = false

module _ (env : Environment) (j : ℕ) (s0 : Manager) where
  abbrev Stays : {A : Type 0} → Transaction A → Type 0
  Stays m = (s : Manager) → Closed j s0 s → Closed j s0 (m s).1

  bind-Stays :
      {A B : Type 0} (m : Transaction A) (f : A → Transaction B)
      → Stays m
      → ((a : A) → Stays (f a))
      → Stays (m >>= f)
  unfolding ◌>>=◌
  bind-Stays m f p q s c = q (m s).0 (m s).1 (p s c)

  done-Stays : {A : Type 0} (a : A) → Stays (done a)
  done-Stays a s c = c

  ask-Stays : {A : Type 0} (answer : ℕ → A) → Stays (ask answer)
  ask-Stays answer s c = ground (arith, c)

  publish-Stays : (state : CoreState) (plan : Option EpochPlan) → Stays (publish env state plan)
  unfolding publish ◌>>=◌
  publish-Stays state plan s c = ground (arith, c)

  publish_terminal_error-Stays : (e : Error) → Stays (publish_terminal_error env e)
  unfolding publish_terminal_error
  publish_terminal_error-Stays e s c = publish-Stays _ _ s c

  dns_restore-Stays : Stays (dns_restore env)
  unfolding dns_restore persist_dns_record ◌>>=◌
  dns_restore-Stays s c = ground (arith, c)

  confirmed-Stays : (epoch : ℕ) (o : Option Error) → Stays (confirmed epoch o)
  unfolding confirmed
  confirmed-Stays epoch none s c = ground (arith, c)
  confirmed-Stays epoch (some e) s c = ground (arith, c)

  stop-Stays : (epoch : ℕ) → Stays (stop_and_confirm_dead env epoch)
  unfolding stop_and_confirm_dead
  stop-Stays epoch =
      bind-Stays (ask env.stop_and_confirm_dead) (confirmed epoch)
        (ask-Stays env.stop_and_confirm_dead) (confirmed-Stays epoch)

  cleanup-Stays : Stays (cleanup_epoch env)
  unfolding cleanup_epoch
  cleanup-Stays = ask-Stays env.cleanup_epoch

  record_quarantine-entry :
      (epoch : ℕ) (e : Error) (es : List QuarantinedEpoch)
      → has_entry (record_quarantine epoch e es) ≡ true
  unfolding record_quarantine
  record_quarantine-entry epoch e [] = refl
  record_quarantine-entry epoch e (x ∷ es) = ground arith

  latch-Stays : (epoch : ℕ) (e : Error) → Stays (latch_quarantine env epoch e)
  unfolding latch_quarantine publish_terminal_error publish ◌>>=◌
  latch-Stays epoch e s c = ground (arith, c, record_quarantine-entry epoch e s.quarantine)

  if-Stays :
      {A : Type 0} (b : Bool) (m m' : Transaction A)
      → Stays m
      → Stays m'
      → Stays (λ s. (if b then m else m') s)
  if-Stays true m m' p q = p
  if-Stays false m m' p q = q

  latched-Stays :
      (epoch : ℕ) (e : Error)
      → Stays (latch_quarantine env epoch e >>= λ latched. done {A = Result Unit} (err latched))
  latched-Stays epoch e =
      bind-Stays (latch_quarantine env epoch e) _ (latch-Stays epoch e)
        (λ latched. done-Stays {A = Result Unit} (err latched))

  fail_stop-Stays : (epoch : ℕ) (e : Error) → Stays (fail_stop env epoch e)
  unfolding fail_stop
  fail_stop-Stays epoch e =
      if-Stays (is_stop_unconfirmed e) _ _ (latched-Stays epoch e)
        (done-Stays {A = Result Unit} (err e))

  reported-Stays :
      {A : Type 0} (e : Error) (a : A) → Stays (publish_terminal_error env e >>= λ _. done a)
  reported-Stays e a =
      bind-Stays (publish_terminal_error env e) _ (publish_terminal_error-Stays e)
        (λ _. done-Stays a)

  stop_cleaned-Stays : (o : Option Error) → Stays (stop_cleaned env o)
  unfolding stop_cleaned ◌>>=◌
  stop_cleaned-Stays (some e) = reported-Stays {A = Result Unit} e (err e)
  stop_cleaned-Stays none = publish-Stays (CoreState.stopped (some StopReason.user)) none

  stop_confirmed-Stays : (epoch : ℕ) (o : Option Error) → Stays (stop_confirmed env epoch o)
  unfolding stop_confirmed
  stop_confirmed-Stays epoch none =
      bind-Stays (cleanup_epoch env) (stop_cleaned env) cleanup-Stays stop_cleaned-Stays
  stop_confirmed-Stays epoch (some e) =
      if-Stays (is_stop_unconfirmed e) _ _ (latched-Stays epoch e)
        (reported-Stays {A = Result Unit} e (err e))

  stop_running-Stays : (plan : EpochPlan) → Stays (stop_running env plan)
  unfolding stop_running ◌>>=◌
  stop_running-Stays plan s c =
      bind-Stays (stop_and_confirm_dead env plan.revision.epoch)
        (stop_confirmed env plan.revision.epoch) (stop-Stays plan.revision.epoch)
        (stop_confirmed-Stays plan.revision.epoch) _
        (publish-Stays (CoreState.stopping plan.revision.epoch) (some plan) s c)

  terminal_cleaned-Stays : (o : Option Error) → Stays (terminal_cleaned env o)
  unfolding terminal_cleaned
  terminal_cleaned-Stays (some e) = reported-Stays {A = Result Unit} e (err e)
  terminal_cleaned-Stays none = done-Stays {A = Result Unit} (err Error.not_started)

  terminal_confirmed-Stays : (epoch : ℕ) (o : Option Error) → Stays (terminal_confirmed env epoch o)
  unfolding terminal_confirmed
  terminal_confirmed-Stays epoch none =
      bind-Stays (cleanup_epoch env) (terminal_cleaned env) cleanup-Stays terminal_cleaned-Stays
  terminal_confirmed-Stays epoch (some e) = fail_stop-Stays epoch e

  stop_terminal-Stays :
      (plan : EpochPlan) (state : InstanceState) → Stays (stop_terminal env plan state)
  unfolding stop_terminal ◌>>=◌
  stop_terminal-Stays plan state s c =
      bind-Stays (stop_and_confirm_dead env plan.revision.epoch)
        (terminal_confirmed env plan.revision.epoch) (stop-Stays plan.revision.epoch)
        (terminal_confirmed-Stays plan.revision.epoch) _
        (publish-Stays (instance_core_state plan.revision.epoch state) (some plan) s c)

  stop_taken-Stays : (o : Option EpochPlan) → Stays (stop_taken env o)
  unfolding stop_taken ◌>>=◌
  stop_taken-Stays none s c = c
  stop_taken-Stays (some plan) s c =
      if-Stays {A = Result Unit} (is_terminal (env.instance_status s.clock).state)
        (stop_terminal env plan (env.instance_status s.clock).state) (stop_running env plan)
        (stop_terminal-Stays plan (env.instance_status s.clock).state) (stop_running-Stays plan)
        (ask env.instance_status s).1 (ask-Stays env.instance_status s c)

  take_current-Stays : Stays take_current
  take_current-Stays s c = ground (arith, c)

  stop_restored-Stays : (r : Result Unit) → Stays (stop_restored env r)
  unfolding stop_restored
  stop_restored-Stays (err e) = done-Stays {A = Result Unit} (err e)
  stop_restored-Stays (ok _) =
      bind-Stays take_current (stop_taken env) take_current-Stays stop_taken-Stays

  stop_transaction-Stays : Stays (stop env)
  unfolding stop
  stop_transaction-Stays =
      bind-Stays (dns_restore env) (stop_restored env) dns_restore-Stays stop_restored-Stays

  shutdown_taken-Stays : (o : Option EpochPlan) → Stays (shutdown_taken env o)
  unfolding shutdown_taken
  shutdown_taken-Stays none = done-Stays (ok tt)
  shutdown_taken-Stays (some plan) = stop_running-Stays plan

  sink_closed-Stays : Stays (modify (λ s. record s { log_sink = false }))
  sink_closed-Stays s c = ground (arith, c)

  shutdown_restored-Stays : (r : Result Unit) → Stays (shutdown_restored env r)
  unfolding shutdown_restored ◌>>=◌
  shutdown_restored-Stays (err e) s c = c
  shutdown_restored-Stays (ok _) s c =
      sink_closed-Stays _
        (bind-Stays take_current (shutdown_taken env) take_current-Stays shutdown_taken-Stays s c)

  shutdown-Stays : Stays (shutdown env)
  unfolding shutdown
  shutdown-Stays =
      bind-Stays (dns_restore env) (shutdown_restored env) dns_restore-Stays shutdown_restored-Stays

  gate_closed :
      {A : Type 0} (m : Transaction (Result A)) (s : Manager) (es : List QuarantinedEpoch)
      → has_entry es ≡ true
      → (r : Result Unit) → r ≡ elim (quarantine_error es) [ none ↦ ok tt | some e ↦ err e ]
      → (gated r m s).1 ≡ s
  unfolding quarantine_error
  gate_closed m s [] h r q = ground (arith, h)
  gate_closed m s (entry ∷ es) h r q = ap (λ x. (gated x m s).1) q

  -- the transactions that `reject_quarantine` guards change nothing at all
  gated-Stays :
      {A : Type 0} (m : Transaction (Result A)) (s : Manager)
      → Closed j s0 s
      → Closed j s0 (gated (reject_quarantine s) m s).1
  unfolding reject_quarantine
  gated-Stays m s c =
      subst (Closed j s0)
        (sym (gate_closed m s s.quarantine c.quarantined (reject_quarantine s) refl)) c

  perform-Stays :
      (command : Command)
      → is_recovery command ≡ false
      → (s : Manager) → Closed j s0 s
      → Closed j s0 (perform env command s)
  unfolding perform start switch restart apply_config reconcile
  perform-Stays (start_with spec) p s c = gated-Stays _ s c
  perform-Stays (switch_to spec) p s c = gated-Stays _ s c
  perform-Stays (apply_spec spec expected) p s c = gated-Stays _ s c
  perform-Stays (reconcile_to spec expected) p s c = gated-Stays _ s c
  perform-Stays restart_it p s c = gated-Stays _ s c
  perform-Stays stop_it p s c = stop_transaction-Stays s c
  perform-Stays shut_down p s c = shutdown-Stays s c
  perform-Stays recover p s c = ground (arith, p)

  all-Stays :
      (commands : List Command)
      → any is_recovery commands ≡ false
      → (s : Manager) → Closed j s0 s
      → Closed j s0 (perform_all env commands s)
  unfolding perform_all
  all-Stays [] p s c = c
  all-Stays (command ∷ commands) p s c =
      let parts = or-false (is_recovery command) (any is_recovery commands) p in
      all-Stays commands parts.1 (perform env command s) (perform-Stays command parts.0 s c)

-- Any sequence of the manager's transactions without a recovery, at a manager that has a quarantined epoch, in any
-- environment: no epoch is given out, no epoch gets another process (and none is launched whose death is then not
-- proven), and there is still a quarantined epoch after it. `stop` and `shutdown` are among the transactions.
pub perform_all-Closed :
    (env : Environment) (s : Manager) (commands : List Command) (epoch : ℕ)
    → has_entry s.quarantine ≡ true
    → any is_recovery commands ≡ false
    → Closed epoch s (perform_all env commands s)
perform_all-Closed env s commands epoch h p =
    all-Stays env epoch s commands p s
      (record { last_epoch = refl; processes = ground arith; unconfirmed = refl; quarantined = h })
