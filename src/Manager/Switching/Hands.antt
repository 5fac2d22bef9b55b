-- ===== src/Manager/Switching/Hands.antt =====
-- The books of the manager while a transaction has more in its hands: `h` and `l` are what it has
-- besides.
use chimera_service.Base.{
  ℕ, ◌+◌, ◌≤◌, ◌≡◌, inl, inr, Bool, true, false, Option, none, some, arith, if◌then◌else◌, is_some,
  Bool-cases, Option-cases,
}
use chimera_service.Errors.{Error}
use chimera_service.Manager.State.{CoreState, EpochPlan, Environment, Manager, ◌>>=◌, ask}
use chimera_service.Manager.Start.{
  is_stop_unconfirmed, next_epoch, spawn_instance, stop_and_confirm_dead, cleanup_epoch, install,
  Retired, nothing, retired, retire_failure, retire_current,
}
use chimera_service.Manager.Quarantine.{latch_quarantine, record_quarantine}
use chimera_service.Manager.Start.Accounts.{here, Books, unproven-le-entries, entries-record}
use chimera_service.Manager.Start.{retire_taken, launched, confirmed}
use chimera_service.Manager.Start.Keeps.{
  publish_terminal_error-Keeps, publish_instance-Keeps, cleanup-Keeps, is_uncertain, ask-Keeps,
}
use chimera_service.Manager.Publish.{republish_retained, republish}
use chimera_service.Manager.Start.{retire_end}
use chimera_service.Manager.Start.Slot.{in_hands, loose_by}
use chimera_service.Manager.Quarantine.{publish_first}
use chimera_service.Manager.Switching.{
  or_zero, publish_and_install, abandon, report, latch_result, latch_or_report,
}

module _ (env : Environment) (j h l : ℕ) where
  pub stop_with-keeps :
      (v : Bool) (epoch : ℕ) (s : Manager)
      → Books j v (h + here epoch j) (l + here epoch j) s
      → let r = stop_and_confirm_dead env epoch s in
        Books j v (h + here epoch j) (l + (if is_uncertain r.0 then here epoch j else 0)) r.1
  unfolding stop_and_confirm_dead confirmed ◌>>=◌
  stop_with-keeps v epoch s b = elim (Option-cases (env.stop_and_confirm_dead s.clock)) [
    | inl e ↦ rw e (ground (arith, b))
    | inr (x, e) ↦ rw e (ground (arith, b))
  ]

  record_with-keeps :
      (v : Bool) (k epoch : ℕ) (e : Error) (s : Manager)
      → k ≤ here epoch j
      → Books j v (h + here epoch j) (l + k) s
      → Books j v h l (record s { quarantine = record_quarantine epoch e s.quarantine })
  record_with-keeps v k epoch e s u b =
      ground
        (arith, u, b, entries-record epoch e s.quarantine j, unproven-le-entries s.quarantine j)

  pub record_quarantine_with-keeps :
      (v : Bool) (k epoch : ℕ) (e : Error) (s : Manager)
      → k ≤ here epoch j
      → Books j v (h + here epoch j) (l + k) s
      → Books j v h l (record s { quarantine = record_quarantine epoch e s.quarantine })
  record_quarantine_with-keeps v k epoch e s u b = record_with-keeps v k epoch e s u b

  publish_first_with-keeps :
      (v : Bool) (e : Option Error) (s : Manager)
      → Books j v h l s
      → Books j v h l (publish_first env e s).1
  unfolding publish_first
  publish_first_with-keeps v none s b = b
  publish_first_with-keeps v (some e) s b = publish_terminal_error-Keeps env j v h l e s b

  pub latch_with-keeps :
      (v : Bool) (k epoch : ℕ) (e : Error) (s : Manager)
      → k ≤ here epoch j
      → Books j v (h + here epoch j) (l + k) s
      → Books j v h l (latch_quarantine env epoch e s).1
  unfolding latch_quarantine ◌>>=◌
  latch_with-keeps v k epoch e s u b =
      publish_first_with-keeps v _ _ (record_with-keeps v k epoch e s u b)

  pub latch_result_with-keeps :
      (v : Bool) (k epoch : ℕ) (e : Error) (s : Manager)
      → k ≤ here epoch j
      → Books j v (h + here epoch j) (l + k) s
      → Books j v h l (latch_result env epoch e s).1
  unfolding latch_result ◌>>=◌
  latch_result_with-keeps v k epoch e s u b = latch_with-keeps v k epoch e s u b

  -- what is not loose may leave the hands
  pub leave : (v : Bool) (k : ℕ) (s : Manager) → Books j v (h + k) l s → Books j v h l s
  leave v k s b = ground (arith, b)

  pub report-keeps :
      (v : Bool) (e : Error) (s : Manager) → Books j v h l s → Books j v h l (report env e s).1
  unfolding report ◌>>=◌
  report-keeps v e s b = publish_terminal_error-Keeps env j v h l e s b

  pub latch_or_report-keeps :
      (v : Bool) (epoch : ℕ) (e : Error) (s : Manager)
      → Books j v (h + here epoch j) (l + (if is_stop_unconfirmed e then here epoch j else 0)) s
      → Books j v h l (latch_or_report env epoch e s).1
  unfolding latch_or_report
  latch_or_report-keeps v epoch e s b = elim (Bool-cases (is_stop_unconfirmed e)) [
    | inl u ↦ rw u (latch_result_with-keeps v _ epoch e s (ground arith) b)
    | inr u ↦ rw u (report-keeps v e s (proven_dead u))
  ]
    where
      proven_dead : is_stop_unconfirmed e ≡ false → Books j v h l s
      proven_dead u = ground (arith, b, u)

  republish-keeps :
      (current : Option EpochPlan) (v : Bool) (s : Manager)
      → Books j v h l s
      → Books j v h l (republish env current s).1
  unfolding republish ◌>>=◌
  republish-keeps none v s b = b
  republish-keeps (some plan) v s b =
      publish_instance-Keeps env j v h l _ plan _ (ask-Keeps env.instance_status j v h l s b)

  pub abandon-keeps :
      (v : Bool) (e : Error) (s : Manager) → Books j v h l s → Books j v h l (abandon env e s).1
  unfolding abandon republish_retained cleanup_epoch ◌>>=◌
  abandon-keeps v e s b = republish-keeps s.current v _ (cleanup-Keeps env j v h l s b)

  -- a new epoch goes into the hands
  pub next_with-keeps :
      (v : Bool) (s : Manager)
      → Books j v h l s
      → l ≤ h
      → Books j v (h + here (s.last_epoch + 1) j) l (next_epoch s).1
  unfolding next_epoch
  next_with-keeps v s b u = ground (arith, b)

  -- what the retired instance leaves in the hands: its epoch, and its process unless it is proven dead
  abbrev pub old_epoch : Retired → ℕ
  old_epoch nothing = 0
  old_epoch (retired plan) = here plan.revision.epoch j
  old_epoch (retire_failure epoch e) = here epoch j

  retire_end-keeps :
      (plan : EpochPlan) (stopped : Option Error) (s : Manager)
      → Books j true
          (h + here plan.revision.epoch j)
          (l + (if is_uncertain stopped then here plan.revision.epoch j else 0))
          s
      → let r = retire_end plan stopped in Books j true (h + old_epoch r) (l + loose_by env j r) s
  retire_end-keeps plan none s b = b
  retire_end-keeps plan (some e) s b = b

  retire_taken-keeps :
      (current : Option EpochPlan) (s : Manager)
      → Books j true (h + in_hands env j current) (l + in_hands env j current) s
      → let r = retire_taken env current s in
        Books j true (h + old_epoch r.0) (l + loose_by env j r.0) r.1
  unfolding retire_taken ◌>>=◌
  retire_taken-keeps none s b = b
  retire_taken-keeps (some plan) s b =
      retire_end-keeps plan _ _ (stop_with-keeps true plan.revision.epoch s b)

  pub retire_with-keeps :
      (s : Manager)
      → Books j false h l s
      → let r = retire_current env s in
        Books j true (h + old_epoch r.0) (l + loose_by env j r.0) r.1
  unfolding retire_current ◌>>=◌
  retire_with-keeps s b = retire_taken-keeps s.current _ (ground (arith, b))

  pub spawn_with-keeps :
      (v : Bool) (plan : EpochPlan) (s : Manager)
      → let e = plan.revision.epoch in
        let r = spawn_instance env plan s in
        Books j v (h + here e j) l s
        → Books j v (h + here e j) (l + (if is_some r.0 then 0 else here e j)) r.1
  unfolding spawn_instance launched ◌>>=◌
  spawn_with-keeps v plan s b = elim (Option-cases (env.launch s.clock)) [
    | inl e ↦ rw e (ground (arith, b))
    | inr (x, e) ↦ rw e (ground (arith, b))
  ]

  pub publish_and_install-keeps :
      (plan : EpochPlan) (s : Manager)
      → Books j true (h + here plan.revision.epoch j) (here plan.revision.epoch j) s
      → Books j false 0 0 (publish_and_install env plan s).1
  unfolding publish_and_install install ◌>>=◌
  publish_and_install-keeps plan s b =
      let asked = ask env.pid s in
      let b' =
        publish_instance-Keeps env j true _ _
          (CoreState.running plan.revision.epoch (or_zero asked.0)) plan asked.1
          (ask-Keeps env.pid j true _ _ s b) in
      ground (arith, b')
