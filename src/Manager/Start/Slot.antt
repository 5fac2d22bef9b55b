-- ===== src/Manager/Start/Slot.antt =====
-- What empties the slot of the manager keeps its books.
use chimera_service.Base.{
  ℕ, inl, inr, Bool, true, false, Option, none, some, arith, if◌then◌else◌, Bool-cases,
}
use chimera_service.Errors.{Error}
use chimera_service.Manager.State.{
  Result, ok, err, EpochPlan, Environment, Manager, Transaction, ◌>>=◌,
}
use chimera_service.Manager.Start.{
  is_stop_unconfirmed, stop_and_confirm_dead, Retired, nothing, retired, retire_failure,
  retire_current, fail_stop, discard_stale, start,
}
use chimera_service.Manager.Dns.{runtime_alive}
use chimera_service.Manager.Quarantine.{reject_quarantine}
use chimera_service.Manager.Start.Accounts.{here, Books}
use chimera_service.Manager.Start.{
  retire_taken, discard_retired, start_discarded, start_accepted, take_current, retire_end, gated,
}
use chimera_service.Manager.Start.Keeps.{
  runtime_alive-Keeps, latch-Keeps, cleanup-Keeps, let_go, is_uncertain, confirmed-keeps, ask-Keeps,
  finish-Keeps,
}
use chimera_service.Manager.Start.Ends.{start_locked-Ends}

module _ (env : Environment) (j : ℕ) where
  -- what is in the hands once the slot was emptied, or its instance was stopped
  abbrev pub in_hands : Option EpochPlan → ℕ
  in_hands none = 0
  in_hands (some plan) = here plan.revision.epoch j

  pub take-keeps :
      (s : Manager)
      → Books j false 0 0 s
      → Books j true (in_hands s.current) (in_hands s.current) (take_current s).1
  take-keeps s b = ground (arith, b)

  abbrev pub held_by : Retired → ℕ
  held_by nothing = 0
  held_by (retired plan) = 0
  held_by (retire_failure epoch e) = here epoch j

  abbrev pub loose_by : Retired → ℕ
  loose_by nothing = 0
  loose_by (retired plan) = 0
  loose_by (retire_failure epoch e) = if is_stop_unconfirmed e then here epoch j else 0

  pub stop-keeps :
      (v : Bool) (epoch : ℕ) (s : Manager)
      → Books j v (here epoch j) (here epoch j) s
      → let r = stop_and_confirm_dead env epoch s in
        Books j v (here epoch j) (if is_uncertain r.0 then here epoch j else 0) r.1
  unfolding stop_and_confirm_dead ◌>>=◌
  stop-keeps v epoch s b =
      confirmed-keeps j epoch v _ _ (ask-Keeps env.stop_and_confirm_dead j v _ _ s b)

  retired-keeps :
      (plan : EpochPlan) (stopped : Option Error) (s : Manager)
      → Books j true
          (here plan.revision.epoch j)
          (if is_uncertain stopped then here plan.revision.epoch j else 0)
          s
      → Books j true (held_by (retire_end plan stopped)) (loose_by (retire_end plan stopped)) s
  retired-keeps plan none s b = ground (arith, b)
  retired-keeps plan (some e) s b = b

  retire_taken-keeps :
      (current : Option EpochPlan) (s : Manager)
      → Books j true (in_hands current) (in_hands current) s
      → let r = retire_taken env current s in Books j true (held_by r.0) (loose_by r.0) r.1
  unfolding retire_taken ◌>>=◌
  retire_taken-keeps none s b = b
  retire_taken-keeps (some plan) s b =
      retired-keeps plan _ _ (stop-keeps true plan.revision.epoch s b)

  pub retire-keeps :
      (s : Manager)
      → Books j false 0 0 s
      → let r = retire_current env s in Books j true (held_by r.0) (loose_by r.0) r.1
  unfolding retire_current ◌>>=◌
  retire-keeps s b = retire_taken-keeps s.current _ (take-keeps s b)

  pub fail_stop-keeps :
      (v : Bool) (epoch : ℕ) (e : Error)
      → (s : Manager)
      → Books j v (here epoch j) (if is_stop_unconfirmed e then here epoch j else 0) s
      → Books j v 0 0 (fail_stop env epoch e s).1
  unfolding fail_stop ◌>>=◌
  fail_stop-keeps v epoch e s b = elim (Bool-cases (is_stop_unconfirmed e)) [
    | inl u ↦ rw u (latch-Keeps env j v _ epoch e (ground arith) s b)
    | inr u ↦ rw u (ground (arith, b, u))
  ]

  discard_retired-keeps :
      (r : Retired) (s : Manager)
      → Books j true (held_by r) (loose_by r) s
      → Books j true 0 0 (discard_retired env r s).1
  unfolding discard_retired ◌>>=◌
  discard_retired-keeps nothing s b = b
  discard_retired-keeps (retired plan) s b = cleanup-Keeps env j true 0 0 s b
  discard_retired-keeps (retire_failure epoch e) s b = fail_stop-keeps true epoch e s b

  pub discard_stale-keeps :
      (s : Manager) → Books j false 0 0 s → Books j true 0 0 (discard_stale env s).1
  unfolding discard_stale ◌>>=◌
  discard_stale-keeps s b = discard_retired-keeps _ _ (retire-keeps s b)

  start_discarded-keeps :
      (spec : ℕ) (r : Result Unit) (s : Manager)
      → Books j true 0 0 s
      → Books j false 0 0 (start_discarded env spec r s).1
  unfolding start_discarded ◌>>=◌
  start_discarded-keeps spec (err e) s b = let_go j true 0 s b
  start_discarded-keeps spec (ok _) s b =
      finish-Keeps env j false 0 0 _ _ (start_locked-Ends env j spec s b)

  start_accepted-keeps :
      (spec : ℕ) (running : Bool) (s : Manager)
      → Books j false 0 0 s
      → Books j false 0 0 (start_accepted env spec running s).1
  unfolding start_accepted ◌>>=◌
  start_accepted-keeps spec true s b = b
  start_accepted-keeps spec false s b = start_discarded-keeps spec _ _ (discard_stale-keeps s b)

  pub gated-keeps :
      {A : Type 0} (m : Transaction (Result A)) (r : Result Unit) (s : Manager)
      → Books j false 0 0 s
      → Books j false 0 0 (m s).1
      → Books j false 0 0 (gated r m s).1
  gated-keeps m (ok _) s b c = c
  gated-keeps m (err e) s b c = b

  pub start-keeps :
      (spec : ℕ) (s : Manager) → Books j false 0 0 s → Books j false 0 0 (start env spec s).1
  unfolding start ◌>>=◌
  start-keeps spec s b =
      gated-keeps (runtime_alive env >>= start_accepted env spec) (reject_quarantine s) s b
        (start_accepted-keeps spec _ _ (runtime_alive-Keeps env j false 0 0 s b))
