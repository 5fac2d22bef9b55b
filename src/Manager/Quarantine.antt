-- ===== src/Manager/Quarantine.antt =====
-- The quarantine of epochs whose process may still be alive (manager/quarantine.rs of
-- crates/chimera-core-manager).
pub mod Keeps
use chimera_service.Base.{
  ℕ, Bool, true, false, ◌&&◌, Option, none, some, List, [], ◌∷◌, ◌==◌, if◌then◌else◌,
}
use chimera_service.Errors.{Error}
use chimera_service.Manager.State.{
  Result, ok, err, CoreState, QuarantinedEpoch, Reaped, already_exited, killed, not_found, failed,
  Environment, Manager, Transaction, ◌>>=◌, ◌>>◌, done, modify, ask, read,
}
use chimera_service.Manager.Publish.{publish, publish_terminal_error}
use chimera_service.Manager.Dns.{dns_restore}

-- `record_quarantine`: the reason of the epoch's first entry, or a new entry behind the others
unfoldable pub record_quarantine : ℕ → Error → List QuarantinedEpoch → List QuarantinedEpoch
record_quarantine epoch reason [] =
    record { epoch = epoch; reason = reason; death_proven = false } ∷ []
record_quarantine epoch reason (entry ∷ entries) =
    let rest = record_quarantine epoch reason entries in
    if entry.epoch == epoch then record entry { reason = reason } ∷ entries else entry ∷ rest

unfoldable pub quarantine_error : List QuarantinedEpoch → Option Error
quarantine_error [] = none
quarantine_error (first ∷ _) = some (Error.manager_quarantined first.epoch)

unfoldable pub reject_quarantine : Manager → Result Unit
unfolding quarantine_error
reject_quarantine s = elim (quarantine_error s.quarantine) [ none ↦ ok tt | some e ↦ err e ]

unfoldable pub publish_first : Environment → Option Error → Transaction Unit
publish_first env none = done tt
publish_first env (some e) = publish_terminal_error env e

unfoldable pub latch_quarantine : Environment → ℕ → Error → Transaction Error
unfolding publish_first ◌>>=◌
latch_quarantine env epoch error = do
  modify (λ s. record s { quarantine = record_quarantine epoch error s.quarantine })
  s ← read
  publish_first env (quarantine_error s.quarantine)
  done error

-- `death_proven = true` on the epoch's first entry
unfoldable pub prove_death : ℕ → List QuarantinedEpoch → List QuarantinedEpoch
prove_death epoch [] = []
prove_death epoch (entry ∷ entries) =
    let rest = prove_death epoch entries in
    if entry.epoch == epoch then record entry { death_proven = true } ∷ entries else entry ∷ rest

-- `retain`
unfoldable pub release : ℕ → List QuarantinedEpoch → List QuarantinedEpoch
release epoch [] = []
release epoch (entry ∷ entries) =
    let rest = release epoch entries in if entry.epoch == epoch then rest else entry ∷ rest

-- no process of the epoch is left, so its entry says
abbrev pub bury : ℕ → Manager → Manager
bury epoch s = record s {
  quarantine = prove_death epoch s.quarantine;
  processes = λ e. if e == epoch then 0 else s.processes e;
}

abbrev pub release_cleaned : ℕ → Option Error → Transaction Bool
release_cleaned epoch none s = (true, record s { quarantine = release epoch s.quarantine })
release_cleaned epoch (some _) s = (false, s)

-- the cleanup of a proven epoch; whether nothing failed
unfoldable pub recover_proven : Environment → ℕ → Transaction Bool
recover_proven env epoch = do cleaned ← ask env.cleanup_epoch; release_cleaned epoch cleaned

unfoldable pub recover_reaped : Environment → ℕ → Reaped → Transaction Bool
unfolding recover_proven ◌>>=◌
recover_reaped env epoch already_exited = modify (bury epoch) >> recover_proven env epoch
recover_reaped env epoch killed = modify (bury epoch) >> recover_proven env epoch
recover_reaped env epoch not_found = done false
recover_reaped env epoch failed = done false

unfoldable pub recover_entry : Environment → QuarantinedEpoch → Transaction Bool
unfolding recover_proven recover_reaped ◌>>=◌
recover_entry env entry =
    if entry.death_proven
    then recover_proven env entry.epoch
    else ask env.reap_epoch_pid_file >>= recover_reaped env entry.epoch

unfoldable pub recover_entries : Environment → List QuarantinedEpoch → Transaction Bool
unfolding recover_entry ◌>>=◌
recover_entries env [] = done true
recover_entries env (entry ∷ entries) = do
  one ← recover_entry env entry
  others ← recover_entries env entries
  done (one && others)

first_epoch : List QuarantinedEpoch → ℕ
first_epoch [] = 0
first_epoch (entry ∷ _) = entry.epoch

unfoldable pub recover_restored : Environment → Result Unit → Transaction (Result Unit)
recover_restored env (err e) = done (err e)
recover_restored env (ok _) = do publish env (CoreState.stopped none) none; done (ok tt)

unfoldable pub recover_end : Environment → Bool → Transaction (Result Unit)
unfolding recover_restored first_epoch ◌>>=◌
recover_end env true = dns_restore env >>= recover_restored env
recover_end env false = do
  s ← read
  done (err (Error.manager_quarantined (first_epoch s.quarantine)))

unfoldable pub recover_from : Environment → List QuarantinedEpoch → Transaction (Result Unit)
unfolding recover_entries recover_end ◌>>=◌
recover_from env [] = done (ok tt)
recover_from env (entry ∷ entries) = recover_entries env (entry ∷ entries) >>= recover_end env

-- `recover_quarantine`
unfoldable pub recover_quarantine : Environment → Transaction (Result Unit)
unfolding recover_from
recover_quarantine env s = recover_from env s.quarantine s
