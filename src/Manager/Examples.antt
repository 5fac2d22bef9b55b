-- ===== src/Manager/Examples.antt =====
-- The manager in one environment: the second launch gets a process that does not get ready and whose
-- stop is not confirmed.
use chimera_service.Base.{
  ℕ, ◌+◌, ◌≤◌, ◌≡◌, refl, ◌⊎◌, inr, true, false, none, some, List, [], ◌∷◌, map, ltb, if◌then◌else◌,
}
use chimera_service.Errors.{Error, RevisionId}
use chimera_service.Manager.State.{
  ok, err, InstanceState, InstanceStatus, CoreState, EpochPlan, CoreStatus, DnsOverrideState,
  DnsOverrideRecord, killed, Environment, Manager, ◌>>=◌,
}
use chimera_service.Manager.Start.{
  launched, reject_start, next_epoch, spawn_instance, install, start_prepared, start_locked,
  retire_current, discard_stale, start,
}
use chimera_service.Manager.Dns.{
  dns_activate_for_plan, dns_deactivate_for_plan, dns_restore, runtime_alive, finish_dns_converge,
}
use chimera_service.Manager.Quarantine.{
  latch_quarantine, reject_quarantine, record_quarantine, quarantine_error,
}
use chimera_service.Manager.Start.Accounts.{in_slot, entries, unproven}
use chimera_service.Manager.State.{ConfigChange}
use chimera_service.Manager.Publish.{publish, publish_instance, publish_terminal_error}
use chimera_service.Manager.Dns.{install_override, dns_converge}
use chimera_service.Manager.Dns.Ownership.{
  IsRecorded, HasBaseline, override-IsRecorded, baseline_kept,
}
use chimera_service.Manager.Switch.{switch, switch_locked, degrade_reason}
use chimera_service.Manager.Switching.{with_switch_durability_result}
use chimera_service.Manager.Graceful.{warned, graceful_switch}
use chimera_service.Manager.Reconcile.{apply_config, reconcile}
use chimera_service.Manager.Reconcile.Claims.{wrong_claim_rejected}
use chimera_service.Manager.Closed.{Closed, perform_all-Closed}
use chimera_service.Manager.Commands.{
  Command, start_with, switch_to, apply_spec, reconcile_to, restart_it, stop_it, shut_down, recover,
  perform_all, new_manager, processes_accounted, epoch_exclusive,
}

abbrev plan_of : ℕ → EpochPlan
plan_of spec = record {
  source_spec = spec;
  revision = record { epoch = 0; generation = 1; effective_hash = spec };
  controller = 1;
  effective_document = spec;
}

abbrev record_of : DnsOverrideRecord
record_of = record {
  interface = "en0";
  previous = "192.168.1.1" ∷ [];
  applied = "127.0.0.1" ∷ [];
  runtime_epoch = 1;
  owner_generation = none;
  state = DnsOverrideState.applied;
}

abbrev host : Environment
host = record {
  now_ms = λ t. t;
  load_snapshot = λ t. ok 5;
  prepare = λ t spec snapshot. ok (plan_of spec);
  prepare_graceful = λ t spec snapshot. ok (plan_of spec);
  prepare_apply = λ t spec snapshot. ok (plan_of spec);
  validate_launchable = λ t spec. none;
  resolve_features = λ t spec. ok true;
  keep_http_controller = λ spec. false;
  has_http = λ document. false;
  is_mihomo = λ spec. true;
  overlap_block = λ document. none;
  native_store = false;
  classify = λ old new. ok ConfigChange.replace;
  backup = λ t. none;
  restore_backup = λ t. ok false;
  remove_backup = λ t. none;
  commit_replace = λ t. ok false;
  reconciled = λ t. true;
  instance_status =
      λ t. record { instance_id = some 1; state = InstanceState.running 40; health = none };
  pid = λ t. some 40;
  launch = λ t. none;
  wait_ready = λ t. if ltb t 20 then none else some Error.startup_timeout;
  stop_and_confirm_dead = λ t. some Error.stop_unconfirmed;
  cleanup_epoch = λ t. none;
  reap_epoch_pid_file = λ t. killed;
  has_dns = true;
  desired = λ document. some ("127.0.0.1" ∷ []);
  dns_apply = λ t. some record_of;
  dns_restore = λ t. true;
  persist = λ t. true;
}

abbrev commands : List Command
commands =
    start_with 7
    ∷ switch_to 8
    ∷ reconcile_to 9 none
    ∷ apply_spec 6 none
    ∷ restart_it
    ∷ stop_it
    ∷ recover
    ∷ start_with 9
    ∷ shut_down
    ∷ []

-- an epoch in quarantine, and the host under an override
abbrev troubled : Manager
troubled = record (new_manager 3 0) {
  quarantine = record { epoch = 2; reason = Error.stop_unconfirmed; death_proven = false } ∷ [];
  dns_record = some record_of;
  overridden = true;
}

abbrev claim : RevisionId
claim = record { epoch = 1; generation = 2; effective_hash = 7 }

-- the plan of spec 7 is in the slot
abbrev occupied : Manager
occupied = record (new_manager 3 0) { current = some (plan_of 7); clock = 4 }

processes_accounted_example :
    let s = perform_all host commands (new_manager 3 0) in
    s.processes 5 ≤ in_slot s.current 5 + unproven s.quarantine 5
processes_accounted_example = processes_accounted host 3 0 commands 5

epoch_exclusive_example :
    let s = perform_all host commands (new_manager 3 0) in
    (s.processes 5 ≤ 1)
    × (in_slot s.current 5 + entries s.quarantine 5 ≤ 1)
    × ((5 ≤ s.last_epoch)
        ⊎ (s.processes 5 + s.unconfirmed 5 + in_slot s.current 5 + entries s.quarantine 5 ≡ 0))
epoch_exclusive_example = epoch_exclusive host 3 0 commands 5

perform_all-Closed_example :
    Closed 2 troubled
      (perform_all host (start_with 7 ∷ restart_it ∷ stop_it ∷ shut_down ∷ []) troubled)
perform_all-Closed_example =
    perform_all-Closed host troubled (start_with 7 ∷ restart_it ∷ stop_it ∷ shut_down ∷ []) 2 refl
      refl

wrong_claim_rejected_example :
    let e = Error.revision_conflict claim (some (plan_of 7).revision) in
    (apply_config host 8 (some claim) occupied ≡ (err e, record occupied { clock = 6 }))
    × (reconcile host 8 (some claim) occupied ≡ (err e, record occupied { clock = 7 }))
unfolding new_manager
wrong_claim_rejected_example =
    wrong_claim_rejected host 8 claim (plan_of 7) occupied (λ t. refl) refl refl refl

override-IsRecorded_example :
    IsRecorded (dns_activate_for_plan host (plan_of 7) troubled).1
    × IsRecorded (dns_deactivate_for_plan host (plan_of 7) troubled).1
    × IsRecorded (dns_converge host troubled).1
    × IsRecorded (dns_restore host troubled).1
override-IsRecorded_example = override-IsRecorded host (plan_of 7) troubled (inr refl)

baseline_kept_example :
    HasBaseline "en0"
      ("192.168.1.1" ∷ [])
      (install_override host ("127.0.0.1" ∷ []) 4 troubled).1.dns_record
    × HasBaseline "en0" ("192.168.1.1" ∷ []) (dns_restore host troubled).1.dns_record
baseline_kept_example = baseline_kept host ("127.0.0.1" ∷ []) 4 troubled record_of refl refl

abbrev published : CoreStatus
published = record {
  state = CoreState.starting 3;
  changed_at = 7;
  instance_id = none;
  health = none;
  spec = some 7;
  controller = some 1;
  revision = some (record { epoch = 3; generation = 1; effective_hash = 7 });
}

abbrev now_running : InstanceStatus
now_running = record { instance_id = some 1; state = InstanceState.running 40; health = none }

-- the second launch ends in the quarantine, and the recovery clears it
quarantined_after :
    map
      (λ q. q.epoch)
      (perform_all host (start_with 7 ∷ switch_to 8 ∷ []) (new_manager 3 0)).quarantine
    ≡ 5 ∷ []
unfolding perform_all start switch new_manager reject_quarantine quarantine_error runtime_alive
    discard_stale retire_current start_locked next_epoch start_prepared dns_activate_for_plan
    install_override dns_deactivate_for_plan spawn_instance install finish_dns_converge dns_converge
    switch_locked graceful_switch ◌>>=◌ publish publish_instance degrade_reason warned
    with_switch_durability_result latch_quarantine record_quarantine publish_terminal_error
quarantined_after = refl

-- a launch that may have left a process is not put in the quarantine by a start
unconfirmed_launch_unlatched :
    let s =
      perform_all
        (record host { launch = λ t. some Error.stop_unconfirmed })
        (start_with 7 ∷ [])
        (new_manager 3 0) in
    (s.unconfirmed 4 ≡ 1) × (s.quarantine ≡ []) × (s.current ≡ none)
unfolding perform_all start switch new_manager reject_quarantine quarantine_error runtime_alive
    discard_stale retire_current start_locked next_epoch start_prepared dns_activate_for_plan
    install_override dns_deactivate_for_plan spawn_instance install finish_dns_converge dns_converge
    ◌>>=◌ publish publish_terminal_error reject_start dns_restore launched
unconfirmed_launch_unlatched = (refl, refl, refl)
