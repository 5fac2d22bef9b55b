-- ===== src/Manager/Reconcile/Claims.antt =====
-- A caller's claim about the revision that runs (manager/apply.rs and manager/reconcile.rs).
use chimera_service.Base.{ℕ, ◌+◌, ◌≡◌, refl, ap, ◌∙◌, true, false, some, [], arith}
use chimera_service.Errors.{Error, RevisionId}
use chimera_service.Manager.State.{
  Result, ok, err, is_terminal, EpochPlan, Environment, Manager, Transaction, ◌>>=◌,
}
use chimera_service.Manager.Start.{gated}
use chimera_service.Manager.Dns.{runtime_alive, finish_dns_converge, join_results}
use chimera_service.Manager.Quarantine.{reject_quarantine}
use chimera_service.Manager.Apply.{ApplyOutcome, same_revision}
use chimera_service.Manager.Reconcile.{
  apply_to, apply_running, apply_claimed, apply_locked, apply_config, reconcile_running,
  reconcile_locked, reconcile,
}

opened_gate :
    {A : Type 0} {s : Manager}
    → s.quarantine ≡ []
    → (m : Transaction (Result A)) → gated (reject_quarantine s) m s ≡ m s
unfolding reject_quarantine
opened_gate {A} {s} q m = ap (λ r. gated r m s) accepted
  where
    accepted : reject_quarantine s ≡ ok tt
    accepted = rw q refl

-- a transaction whose first part is known
then_lem :
    {A B : Type 0} {s t : Manager} {a : A} (m : Transaction A) (f : A → Transaction B)
    → m s ≡ (a, t)
    → (m >>= f) s ≡ f a t
unfolding ◌>>=◌
then_lem m f p = ap (λ r. f r.0 r.1) p

module _ (env : Environment) (spec : ℕ) (expected : RevisionId) (current : EpochPlan)
    (live : (t : ℕ) → is_terminal (env.instance_status t).state ≡ false)
    (wrong : same_revision expected current.revision ≡ false) where
  abbrev conflict : Result ApplyOutcome
  conflict = err (Error.revision_conflict expected (some current.revision))

  alive_lem :
      (s : Manager)
      → s.current ≡ some current
      → runtime_alive env s ≡ (true, record s { clock = s.clock + 1 })
  unfolding runtime_alive
  alive_lem s c = rw (c, live s.clock) refl

  rejected :
      (s : Manager)
      → s.current ≡ some current
      → apply_locked env spec (some expected) s ≡ (conflict, record s { clock = s.clock + 1 })
  unfolding apply_locked apply_to apply_running apply_claimed ◌>>=◌
  rejected s c = rw (c, live s.clock, wrong) refl

  dns_left_alone :
      (s : Manager)
      → s.current ≡ some current
      → finish_dns_converge env conflict s ≡ (conflict, record s { clock = s.clock + 1 })
  unfolding finish_dns_converge join_results ◌>>=◌
  dns_left_alone s c = rw (alive_lem s c) refl

  abbrev answered : Manager → ℕ → Result ApplyOutcome × Manager
  answered s n = (conflict, record s { clock = n })

  later : (s : Manager) {m n : ℕ} → m ≡ n → answered s m ≡ answered s n
  later s p = ap (answered s) p

  apply_config-conflict :
      (s : Manager)
      → s.quarantine ≡ []
      → s.current ≡ some current
      → apply_config env spec (some expected) s ≡ (conflict, record s { clock = s.clock + 2 })
  unfolding apply_config
  apply_config-conflict s q c =
      opened_gate q (apply_locked env spec (some expected) >>= finish_dns_converge env)
      ∙ then_lem (apply_locked env spec (some expected)) (finish_dns_converge env) (rejected s c)
      ∙ dns_left_alone (record s { clock = s.clock + 1 }) c
      ∙ later s (omega arith)

  reconcile-conflict :
      (s : Manager)
      → s.quarantine ≡ []
      → s.current ≡ some current
      → reconcile env spec (some expected) s ≡ (conflict, record s { clock = s.clock + 3 })
  unfolding reconcile reconcile_locked reconcile_running
  reconcile-conflict s q c =
      opened_gate q (reconcile_locked env spec (some expected) >>= finish_dns_converge env)
      ∙ then_lem (reconcile_locked env spec (some expected)) (finish_dns_converge env) (
          then_lem (runtime_alive env) (reconcile_running env spec (some expected)) (alive_lem s c)
          ∙ rejected (record s { clock = s.clock + 1 }) c
          ∙ later s (omega arith))
      ∙ dns_left_alone (record s { clock = s.clock + 2 }) c
      ∙ later s (omega arith)

-- With no quarantine and an instance in the slot that is never seen in a terminal state:
-- `apply_config` and `reconcile` with an expected revision other than the running one fail with a
-- conflict that names both. Nothing changes but the number of answers taken: no process, no
-- override of the host's resolver, nothing published.
pub wrong_claim_rejected :
    (env : Environment) (spec : ℕ) (expected : RevisionId) (current : EpochPlan) (s : Manager)
    → ((t : ℕ) → is_terminal (env.instance_status t).state ≡ false)
    → same_revision expected current.revision ≡ false
    → s.quarantine ≡ []
    → s.current ≡ some current
    → let e = Error.revision_conflict expected (some current.revision) in
      (apply_config env spec (some expected) s ≡ (err e, record s { clock = s.clock + 2 }))
      × (reconcile env spec (some expected) s ≡ (err e, record s { clock = s.clock + 3 }))
wrong_claim_rejected env spec expected current s live wrong q c = (
  apply_config-conflict env spec expected current live wrong s q c,
  reconcile-conflict env spec expected current live wrong s q c,
)
