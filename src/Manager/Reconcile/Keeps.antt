-- ===== src/Manager/Reconcile/Keeps.antt =====
-- The apply and reconcile transactions keep the books of the manager.
use chimera_service.Base.{ℕ, ◌≡◌, refl, Bool, true, false, Option, none, some, arith}
use chimera_service.Errors.{RevisionId}
use chimera_service.Manager.State.{
  Result, ok, err, InstanceStatus, EpochPlan, ConfigChange, noop, patch, reload, replace,
  Environment, Manager, ◌>>=◌,
}
use chimera_service.Manager.Dns.{finish_dns_converge}
use chimera_service.Manager.Quarantine.{reject_quarantine}
use chimera_service.Manager.Start.Accounts.{Books}
use chimera_service.Manager.Start.Keeps.{
  Keeps, runtime_alive-Keeps, let_go, ask-Keeps, finish-Keeps,
}
use chimera_service.Manager.Start.Slot.{gated-keeps, discard_stale-keeps}
use chimera_service.Manager.Start.Ends.{start_locked-Ends}
use chimera_service.Manager.Apply.Switches.{switch_compensated-keeps}
use chimera_service.Manager.Reconcile.{
  next_generation, apply_classified, apply_prepared, apply_loaded, contradicts, apply_claimed,
  apply_running, apply_to, apply_locked, apply_config, reconcile_discarded, reconcile_stopped,
  reconcile_running, reconcile_locked, reconcile,
}
use chimera_service.Manager.Reconcile.InPlace.{backed_up-keeps}

module _ (env : Environment) (j : ℕ) where
  retained-keeps :
      (current : EpochPlan) (spec : ℕ) (s : Manager)
      → s.current ≡ some current
      → Books j false 0 0 s
      → Books j false 0 0 (record s {
        current = some (record current { source_spec = spec });
        last_spec = some spec;
      })
  retained-keeps current spec s c b = ground (arith, c, b)

  classified-keeps :
      (spec snapshot : ℕ) (current desired : EpochPlan) (r : Result ConfigChange) (s : Manager)
      → (s.current ≡ some current) × (current.revision.epoch ≡ desired.revision.epoch)
      → Books j false 0 0 s
      → Books j false 0 0 (apply_classified env spec snapshot current desired r s).1
  unfolding apply_classified ◌>>=◌
  classified-keeps spec snapshot current desired (err e) s c b = b
  classified-keeps spec snapshot current desired (ok noop) s c b =
      retained-keeps current spec s c.0 b
  classified-keeps spec snapshot current desired (ok replace) s c b =
      switch_compensated-keeps env j spec snapshot s b
  classified-keeps spec snapshot current desired (ok patch) s c b =
      backed_up-keeps env j patch desired _ _ (current, c.0, c.1)
        (ask-Keeps env.backup j false 0 0 s b)
  classified-keeps spec snapshot current desired (ok reload) s c b =
      backed_up-keeps env j reload desired _ _ (current, c.0, c.1)
        (ask-Keeps env.backup j false 0 0 s b)

  prepared-keeps :
      (spec snapshot : ℕ) (current : EpochPlan) (r : Result EpochPlan) (s : Manager)
      → s.current ≡ some current
      → Books j false 0 0 s
      → Books j false 0 0 (apply_prepared env spec snapshot current r s).1
  unfolding apply_prepared
  prepared-keeps spec snapshot current (err e) s c b = b
  prepared-keeps spec snapshot current (ok plan) s c b =
      classified-keeps spec snapshot current (next_generation spec current plan) _ s (c, refl) b

  loaded-keeps :
      (spec : ℕ) (current : EpochPlan) (r : Result ℕ) (s : Manager)
      → s.current ≡ some current
      → Books j false 0 0 s
      → Books j false 0 0 (apply_loaded env spec current r s).1
  unfolding apply_loaded ◌>>=◌
  loaded-keeps spec current (err e) s c b = b
  loaded-keeps spec current (ok snapshot) s c b =
      prepared-keeps spec snapshot current _ _ c
        (ask-Keeps (λ t. env.prepare_apply t spec snapshot) j false 0 0 s b)

  claimed-keeps :
      (spec : ℕ) (current : EpochPlan) (claim : Option RevisionId) (s : Manager)
      → s.current ≡ some current
      → Books j false 0 0 s
      → Books j false 0 0 (apply_claimed env spec current claim s).1
  unfolding apply_claimed ◌>>=◌
  claimed-keeps spec current (some expected) s c b = b
  claimed-keeps spec current none s c b =
      loaded-keeps spec current _ _ c (ask-Keeps env.load_snapshot j false 0 0 s b)

  running-keeps :
      (spec : ℕ) (expected : Option RevisionId) (current : EpochPlan) (status : InstanceStatus)
      (s : Manager)
      → s.current ≡ some current
      → Books j false 0 0 s
      → Books j false 0 0 (apply_running env spec expected current status s).1
  unfolding apply_running
  running-keeps spec expected current status s c b =
      ground (arith, b, claimed-keeps spec current (contradicts expected current.revision) s c b)

  to-keeps :
      (spec : ℕ) (expected : Option RevisionId) (current : Option EpochPlan) (s : Manager)
      → s.current ≡ current
      → Books j false 0 0 s
      → Books j false 0 0 (apply_to env spec expected current s).1
  unfolding apply_to ◌>>=◌
  to-keeps spec expected none s c b = b
  to-keeps spec expected (some current) s c b =
      running-keeps spec expected current (env.instance_status s.clock) _ c
        (ask-Keeps env.instance_status j false 0 0 s b)

  apply_locked-Keeps :
      (spec : ℕ) (expected : Option RevisionId)
      → Keeps j false 0 0 0 0 (apply_locked env spec expected)
  unfolding apply_locked
  apply_locked-Keeps spec expected s b = to-keeps spec expected s.current s refl b

  pub apply_config-Keeps :
      (spec : ℕ) (expected : Option RevisionId)
      → Keeps j false 0 0 0 0 (apply_config env spec expected)
  unfolding apply_config ◌>>=◌
  apply_config-Keeps spec expected s b =
      gated-keeps env j (apply_locked env spec expected >>= finish_dns_converge env)
        (reject_quarantine s) s b
        (finish-Keeps env j false 0 0 _ _ (apply_locked-Keeps spec expected s b))

  reconcile_discarded-keeps :
      (spec : ℕ) (r : Result Unit) (s : Manager)
      → Books j true 0 0 s
      → Books j false 0 0 (reconcile_discarded env spec r s).1
  unfolding reconcile_discarded ◌>>=◌
  reconcile_discarded-keeps spec (err e) s b = let_go j true 0 s b
  reconcile_discarded-keeps spec (ok _) s b = start_locked-Ends env j spec s b

  reconcile_running-keeps :
      (spec : ℕ) (expected : Option RevisionId) (alive : Bool) (s : Manager)
      → Books j false 0 0 s
      → Books j false 0 0 (reconcile_running env spec expected alive s).1
  unfolding reconcile_running reconcile_stopped ◌>>=◌
  reconcile_running-keeps spec expected true s b = apply_locked-Keeps spec expected s b
  reconcile_running-keeps spec (some expected) false s b = b
  reconcile_running-keeps spec none false s b =
      reconcile_discarded-keeps spec _ _ (discard_stale-keeps env j s b)

  reconcile_locked-Keeps :
      (spec : ℕ) (expected : Option RevisionId)
      → Keeps j false 0 0 0 0 (reconcile_locked env spec expected)
  unfolding reconcile_locked ◌>>=◌
  reconcile_locked-Keeps spec expected s b =
      reconcile_running-keeps spec expected _ _ (runtime_alive-Keeps env j false 0 0 s b)

  pub reconcile-Keeps :
      (spec : ℕ) (expected : Option RevisionId)
      → Keeps j false 0 0 0 0 (reconcile env spec expected)
  unfolding reconcile ◌>>=◌
  reconcile-Keeps spec expected s b =
      gated-keeps env j (reconcile_locked env spec expected >>= finish_dns_converge env)
        (reject_quarantine s) s b
        (finish-Keeps env j false 0 0 _ _ (reconcile_locked-Keeps spec expected s b))
