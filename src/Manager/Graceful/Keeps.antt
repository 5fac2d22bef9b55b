-- ===== src/Manager/Graceful/Keeps.antt =====
-- A graceful switch keeps the books of the manager.
use chimera_service.Base.{
  ℕ, ◌+◌, ◌≡◌, inl, inr, Bool, true, false, Option, none, some, arith, if◌then◌else◌, Bool-cases,
}
use chimera_service.Errors.{Error}
use chimera_service.Manager.State.{Result, ok, err, EpochPlan, Environment, Manager, ◌>>=◌}
use chimera_service.Manager.Start.{is_stop_unconfirmed}
use chimera_service.Manager.Start.Accounts.{here, Books}
use chimera_service.Manager.Start.Keeps.{cleanup-Keeps, let_go, is_uncertain, ask-Keeps}
use chimera_service.Manager.Switching.Hands.{
  stop_with-keeps, record_quarantine_with-keeps, latch_result_with-keeps, report-keeps,
  latch_or_report-keeps, publish_and_install-keeps,
}
use chimera_service.Manager.Switching.{patch_failed, SwitchOutcome, graceful, hard}
use chimera_service.Manager.Switching.Keeps.{replacement-keeps, risk}
use chimera_service.Manager.Graceful.{
  switched, graceful_failed, graceful_replaced, graceful_stopped, graceful_verified,
  graceful_uncommitted, graceful_committed, record_if, graceful_unretired,
}

module _ (env : Environment) (j : ℕ) where
  switched-keeps :
      (plan : EpochPlan) (outcome : SwitchOutcome) (warning : Bool) (s : Manager)
      → Books j true (here plan.revision.epoch j) (here plan.revision.epoch j) s
      → Books j false 0 0 (switched env plan outcome warning s).1
  unfolding switched ◌>>=◌
  switched-keeps plan outcome warning s b =
      cleanup-Keeps env j false 0 0 _
        (publish_and_install-keeps env j 0 0 plan s (ground (arith, b)))

  graceful_failed-keeps :
      (plan : EpochPlan) (warning : Bool) (e : Error) (s : Manager)
      → Books j true
          (0 + here plan.revision.epoch j)
          (0 + (if is_stop_unconfirmed e then here plan.revision.epoch j else 0))
          s
      → Books j false 0 0 (graceful_failed env plan warning e s).1
  unfolding graceful_failed ◌>>=◌
  graceful_failed-keeps plan warning e s b = elim (Bool-cases (is_stop_unconfirmed e)) [
    | inl u ↦ rw u (
        let_go j true 0 _
          (latch_result_with-keeps env j 0 0 true _ plan.revision.epoch e s (ground arith) b))
    | inr u ↦
        rw u (report-keeps env j 0 0 false e _ (cleanup-Keeps env j false 0 0 s (proven_dead u)))
  ]
    where
      proven_dead : is_stop_unconfirmed e ≡ false → Books j false 0 0 s
      proven_dead u = ground (arith, b, u)

  graceful_replaced-keeps :
      (plan : EpochPlan) (warning : Bool) (r : Result Unit) (s : Manager)
      → Books j true (0 + here plan.revision.epoch j) (risk env j plan.revision.epoch r) s
      → Books j false 0 0 (graceful_replaced env plan warning r s).1
  unfolding graceful_replaced
  graceful_replaced-keeps plan warning (err e) s b =
      graceful_failed-keeps plan warning e s (ground (arith, b))
  graceful_replaced-keeps plan warning (ok _) s b =
      switched-keeps plan (hard patch_failed) warning s (ground (arith, b))

  graceful_stopped-keeps :
      (plan : EpochPlan) (warning : Bool) (stopped : Option Error) (s : Manager)
      → Books j true
          (0 + here plan.revision.epoch j)
          (0 + (if is_uncertain stopped then here plan.revision.epoch j else 0))
          s
      → Books j false 0 0 (graceful_stopped env plan warning stopped s).1
  unfolding graceful_stopped ◌>>=◌
  graceful_stopped-keeps plan warning (some e) s b =
      let_go j true 0 _ (latch_or_report-keeps env j 0 0 true plan.revision.epoch e s b)
  graceful_stopped-keeps plan warning none s b =
      graceful_replaced-keeps plan warning _ _
        (replacement-keeps env j 0 plan s (ground (arith, b)))

  graceful_verified-keeps :
      (plan : EpochPlan) (warning verified : Bool) (s : Manager)
      → Books j true (0 + here plan.revision.epoch j) (0 + here plan.revision.epoch j) s
      → Books j false 0 0 (graceful_verified env plan warning verified s).1
  unfolding graceful_verified ◌>>=◌
  graceful_verified-keeps plan warning true s b =
      switched-keeps plan graceful warning s (ground (arith, b))
  graceful_verified-keeps plan warning false s b =
      graceful_stopped-keeps plan warning _ _
        (stop_with-keeps env j 0 0 true plan.revision.epoch s b)

  graceful_uncommitted-keeps :
      (plan : EpochPlan) (e : Error) (stopped : Option Error) (s : Manager)
      → Books j true
          (0 + here plan.revision.epoch j)
          (0 + (if is_uncertain stopped then here plan.revision.epoch j else 0))
          s
      → Books j false 0 0 (graceful_uncommitted env plan e stopped s).1
  unfolding graceful_uncommitted ◌>>=◌
  graceful_uncommitted-keeps plan e none s b = let_go j true 0 _ (
      latch_or_report-keeps env j 0 0 true plan.revision.epoch e _
        (cleanup-Keeps env j true _ _ s (ground (arith, b))))
  graceful_uncommitted-keeps plan e (some x) s b = let_go j true 0 _ (
      latch_result_with-keeps env j 0 0 true _ plan.revision.epoch Error.stop_unconfirmed s
        (ground arith) b)

  pub graceful_committed-keeps :
      (plan : EpochPlan) (r : Result Bool) (s : Manager)
      → Books j true (0 + here plan.revision.epoch j) (0 + here plan.revision.epoch j) s
      → Books j false 0 0 (graceful_committed env plan r s).1
  unfolding graceful_committed ◌>>=◌
  graceful_committed-keeps plan (err e) s b =
      graceful_uncommitted-keeps plan e _ _ (stop_with-keeps env j 0 0 true plan.revision.epoch s b)
  graceful_committed-keeps plan (ok warning) s b =
      graceful_verified-keeps plan warning _ _ (ask-Keeps env.reconciled j true _ _ s b)

  record_if-keeps :
      (h l epoch : ℕ) (e : Error) (s : Manager)
      → Books j true (h + here epoch j) (l + (if is_stop_unconfirmed e then here epoch j else 0)) s
      → Books j true h l (record_if (is_stop_unconfirmed e) epoch e s)
  record_if-keeps h l epoch e s b = elim (Bool-cases (is_stop_unconfirmed e)) [
    | inl u ↦ rw u (record_quarantine_with-keeps env j h l true _ epoch e s (ground arith) b)
    | inr u ↦ rw u (ground (arith, b, u))
  ]

  pub graceful_unretired-keeps :
      (plan : EpochPlan) (old : ℕ) (e : Error) (stopped : Option Error) (s : Manager)
      → let new = plan.revision.epoch in
        let lost = if is_stop_unconfirmed e then here old j else 0 in
        Books j true
          (here old j + here new j)
          (lost + (if is_uncertain stopped then here new j else 0))
          s
        → Books j false 0 0 (graceful_unretired env plan old e stopped s).1
  unfolding graceful_unretired ◌>>=◌
  graceful_unretired-keeps plan old e none s b = let_go j true _ _ (
      latch_or_report-keeps env j (here plan.revision.epoch j) 0 true old e _
        (cleanup-Keeps env j true _ _ s (ground (arith, b))))
  graceful_unretired-keeps plan old e (some x) s b =
      let k = if is_stop_unconfirmed x then here plan.revision.epoch j else 0 in
      let_go j true 0 _ (
        latch_result_with-keeps env j 0 0 true k plan.revision.epoch Error.stop_unconfirmed _
          (ground arith)
          (ground
            (arith, record_if-keeps (here plan.revision.epoch j) k old e s (ground (arith, b)))))
