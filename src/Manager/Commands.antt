-- ===== src/Manager/Commands.antt =====
-- The transactions of the manager in a row: no process is lost, and no two of one epoch run.
use chimera_service.Base.{
  ℕ, ◌+◌, ◌≤◌, ◌≡◌, refl, ◌⊎◌, Bool, true, false, Option, none, some, List, [], ◌∷◌, arith, is_some,
}
use chimera_service.Errors.{Error, RevisionId}
use chimera_service.Manager.State.{Result, ok, err, CoreState, Environment, Manager, ◌>>=◌}
use chimera_service.Manager.Start.{start}
use chimera_service.Manager.Dns.{runtime_alive, finish_dns_converge}
use chimera_service.Manager.Quarantine.{reject_quarantine}
use chimera_service.Manager.Start.Accounts.{in_slot, entries, unproven, Books, unproven-le-entries}
use chimera_service.Manager.Start.Keeps.{
  runtime_alive-Keeps, ask-Keeps, let_go, finish-Keeps, Keeps,
}
use chimera_service.Manager.Start.Slot.{start-keeps, gated-keeps, discard_stale-keeps}
use chimera_service.Manager.Start.Ends.{start_locked-Ends}
use chimera_service.Manager.Stop.{stop, shutdown}
use chimera_service.Manager.Stop.Keeps.{stop_transaction-keeps, shutdown-keeps}
use chimera_service.Manager.Quarantine.{recover_quarantine}
use chimera_service.Manager.Quarantine.Keeps.{recover-Keeps}
use chimera_service.Manager.Reconcile.{apply_config, reconcile}
use chimera_service.Manager.Reconcile.Keeps.{apply_config-Keeps, reconcile-Keeps}
use chimera_service.Manager.Switching.Keeps.{hard_switch-keeps}
use chimera_service.Manager.Switching.{DegradeReason}
use chimera_service.Manager.Graceful.Begins.{graceful_switch-keeps}
use chimera_service.Manager.Switch.{
  chosen_switch, switch_resolved, switch_launchable, switch_loaded, switch_discarded,
  switch_running, switch_locked, switch, restart_last, restart,
}

pub data Command : Type 0 where
  start_with switch_to : (spec : ℕ) → Command
  apply_spec reconcile_to : (spec : ℕ) → (expected : Option RevisionId) → Command
  restart_it stop_it shut_down recover : Command

-- the state that a transaction leaves
unfoldable pub perform : Environment → Command → Manager → Manager
perform env (start_with spec) s = (start env spec s).1
perform env (switch_to spec) s = (switch env spec s).1
perform env (apply_spec spec expected) s = (apply_config env spec expected s).1
perform env (reconcile_to spec expected) s = (reconcile env spec expected s).1
perform env restart_it s = (restart env s).1
perform env stop_it s = (stop env s).1
perform env shut_down s = (shutdown env s).1
perform env recover s = (recover_quarantine env s).1

unfoldable pub perform_all : Environment → List Command → Manager → Manager
unfolding perform
perform_all env [] s = s
perform_all env (command ∷ commands) s = perform_all env commands (perform env command s)

-- `Ctrl::new`, with the status `CoreStatus::initial`
unfoldable pub new_manager : (max_epoch now : ℕ) → Manager
new_manager max_epoch now = record {
  last_epoch = max_epoch;
  current = none;
  last_spec = none;
  quarantine = [];
  dns_record = none;
  status = record {
    state = CoreState.stopped none;
    changed_at = now;
    instance_id = none;
    health = none;
    spec = none;
    controller = none;
    revision = none;
  };
  config_commits = none;
  log_sink = true;
  clock = 0;
  processes = λ e. 0;
  unconfirmed = λ e. 0;
  overridden = false;
}

module _ (env : Environment) (j : ℕ) where
  running-slot :
      (s : Manager)
      → (runtime_alive env s).0 ≡ true
      → is_some (runtime_alive env s).1.current ≡ true
  unfolding runtime_alive
  running-slot s c = ground (arith, c)

  chosen-keeps :
      (spec snapshot : ℕ) (reason : Option DegradeReason) (s : Manager)
      → is_some s.current ≡ true
      → Books j false 0 0 s
      → Books j false 0 0 (chosen_switch env spec snapshot reason s).1
  unfolding chosen_switch ◌>>=◌
  chosen-keeps spec snapshot none s c b = graceful_switch-keeps env j spec snapshot s c b
  chosen-keeps spec snapshot (some reason) s c b = hard_switch-keeps env j spec snapshot s b

  resolved-keeps :
      (spec snapshot : ℕ) (r : Result Bool) (s : Manager)
      → is_some s.current ≡ true
      → Books j false 0 0 s
      → Books j false 0 0 (switch_resolved env spec snapshot r s).1
  unfolding switch_resolved
  resolved-keeps spec snapshot (err e) s c b = b
  resolved-keeps spec snapshot (ok local_ipc) s c b = chosen-keeps spec snapshot _ s c b

  launchable-keeps :
      (spec snapshot : ℕ) (r : Option Error) (s : Manager)
      → is_some s.current ≡ true
      → Books j false 0 0 s
      → Books j false 0 0 (switch_launchable env spec snapshot r s).1
  unfolding switch_launchable ◌>>=◌
  launchable-keeps spec snapshot (some e) s c b = b
  launchable-keeps spec snapshot none s c b =
      resolved-keeps spec snapshot _ _ c
        (ask-Keeps (λ t. env.resolve_features t spec) j false 0 0 s b)

  loaded-keeps :
      (spec : ℕ) (r : Result ℕ) (s : Manager)
      → is_some s.current ≡ true
      → Books j false 0 0 s
      → Books j false 0 0 (switch_loaded env spec r s).1
  unfolding switch_loaded ◌>>=◌
  loaded-keeps spec (err e) s c b = b
  loaded-keeps spec (ok snapshot) s c b =
      launchable-keeps spec snapshot _ _ c
        (ask-Keeps (λ t. env.validate_launchable t spec) j false 0 0 s b)

  discarded-keeps :
      (spec : ℕ) (r : Result Unit) (s : Manager)
      → Books j true 0 0 s
      → Books j false 0 0 (switch_discarded env spec r s).1
  unfolding switch_discarded ◌>>=◌
  discarded-keeps spec (err e) s b = let_go j true 0 s b
  discarded-keeps spec (ok _) s b = start_locked-Ends env j spec s b

  switch_running-keeps :
      (spec : ℕ) (running : Bool) (s : Manager)
      → (running ≡ true → is_some s.current ≡ true)
      → Books j false 0 0 s
      → Books j false 0 0 (switch_running env spec running s).1
  unfolding switch_running ◌>>=◌
  switch_running-keeps spec false s c b = discarded-keeps spec _ _ (discard_stale-keeps env j s b)
  switch_running-keeps spec true s c b =
      loaded-keeps spec _ _ (c refl) (ask-Keeps env.load_snapshot j false 0 0 s b)

  switch_locked-Keeps : (spec : ℕ) → Keeps j false 0 0 0 0 (switch_locked env spec)
  unfolding switch_locked ◌>>=◌
  switch_locked-Keeps spec s b =
      switch_running-keeps spec _ _ (running-slot s) (runtime_alive-Keeps env j false 0 0 s b)

  switch-Keeps : (spec : ℕ) → Keeps j false 0 0 0 0 (switch env spec)
  unfolding switch ◌>>=◌
  switch-Keeps spec s b =
      gated-keeps env j (switch_locked env spec >>= finish_dns_converge env) (reject_quarantine s) s
        b (finish-Keeps env j false 0 0 _ _ (switch_locked-Keeps spec s b))

  restart_last-Keeps : (spec : Option ℕ) → Keeps j false 0 0 0 0 (restart_last env spec)
  unfolding restart_last ◌>>=◌
  restart_last-Keeps none s b = b
  restart_last-Keeps (some spec) s b =
      finish-Keeps env j false 0 0 _ _ (switch_locked-Keeps spec s b)

  restart-Keeps : Keeps j false 0 0 0 0 (restart env)
  unfolding restart
  restart-Keeps s b =
      gated-keeps env j (restart_last env s.last_spec) (reject_quarantine s) s b
        (restart_last-Keeps s.last_spec s b)

  perform-keeps :
      (command : Command) (s : Manager)
      → Books j false 0 0 s
      → Books j false 0 0 (perform env command s)
  unfolding perform
  perform-keeps (start_with spec) s b = start-keeps env j spec s b
  perform-keeps (switch_to spec) s b = switch-Keeps spec s b
  perform-keeps (apply_spec spec expected) s b = apply_config-Keeps env j spec expected s b
  perform-keeps (reconcile_to spec expected) s b = reconcile-Keeps env j spec expected s b
  perform-keeps restart_it s b = restart-Keeps s b
  perform-keeps stop_it s b = stop_transaction-keeps env j s b
  perform-keeps shut_down s b = shutdown-keeps env j s b
  perform-keeps recover s b = recover-Keeps env j s b

  perform_all-keeps :
      (commands : List Command) (s : Manager)
      → Books j false 0 0 s
      → Books j false 0 0 (perform_all env commands s)
  unfolding perform_all
  perform_all-keeps [] s b = b
  perform_all-keeps (command ∷ commands) s b =
      perform_all-keeps commands _ (perform-keeps command s b)

  new_manager-keeps : (max_epoch now : ℕ) → Books j false 0 0 (new_manager max_epoch now)
  unfolding new_manager
  new_manager-keeps max_epoch now = ground arith

-- After any transactions, whatever the environment answers: the processes of an epoch that a launch
-- brought up and that are not proven dead are at most as many as the manager answers for, one for the
-- slot and one for an entry of the quarantine without a proof of death. A launch that failed with
-- `StopUnconfirmed` may have left a process; it brought none up, and is not among these: the
-- manager does not always answer for it.
pub processes_accounted :
    (env : Environment) (max_epoch now : ℕ) (commands : List Command) (epoch : ℕ)
    → let s = perform_all env commands (new_manager max_epoch now) in
      s.processes epoch ≤ in_slot s.current epoch + unproven s.quarantine epoch
processes_accounted env max_epoch now commands epoch =
    let b = perform_all-keeps env epoch commands _ (new_manager-keeps env epoch max_epoch now) in
    omega (arith, b.covered)

-- After any transactions, whatever the environment answers: at most one process that a launch of an epoch
-- brought up is not proven dead, an epoch is not both in the slot and in the quarantine nor
-- twice in the quarantine, and an epoch that the allocator has not given out yet has no process, no
-- launch that may have left one, and no place.
pub epoch_exclusive :
    (env : Environment) (max_epoch now : ℕ) (commands : List Command) (epoch : ℕ)
    → let s = perform_all env commands (new_manager max_epoch now) in
      (s.processes epoch ≤ 1)
      × (in_slot s.current epoch + entries s.quarantine epoch ≤ 1)
      × ((epoch ≤ s.last_epoch)
          ⊎ (s.processes epoch
                + s.unconfirmed epoch
                + in_slot s.current epoch
                + entries s.quarantine epoch
              ≡ 0))
epoch_exclusive env max_epoch now commands epoch =
    let s = perform_all env commands (new_manager max_epoch now) in
    let b = perform_all-keeps env epoch commands _ (new_manager-keeps env epoch max_epoch now) in
    ground (arith, b, unproven-le-entries s.quarantine epoch)
