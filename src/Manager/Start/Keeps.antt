-- ===== src/Manager/Start/Keeps.antt =====
-- The transactions that start an epoch keep the books of the manager.
use chimera_service.Base.{
  ℕ, ◌≤◌, inl, inr, Bool, true, false, ◌||◌, not, Option, none, some, List, arith, if◌then◌else◌,
  is_some, Bool-cases,
}
use chimera_service.Errors.{Error}
use chimera_service.Manager.State.{
  Result, CoreState, EpochPlan, Environment, Manager, Transaction, ◌>>=◌, ask,
}
use chimera_service.Manager.Publish.{publish, publish_instance, publish_terminal_error}
use chimera_service.Manager.Start.{is_stop_unconfirmed, cleanup_epoch}
use chimera_service.Manager.Dns.{
  dns_activate_for_plan, dns_deactivate_for_plan, dns_restore, runtime_alive, finish_dns_converge,
}
use chimera_service.Manager.Quarantine.{latch_quarantine, record_quarantine}
use chimera_service.Manager.Start.Accounts.{here, Books, unproven-le-entries, entries-record}
use Prim.Native.String.{String}
use chimera_service.Manager.Start.{launched, confirmed}
use chimera_service.Manager.Dns.{
  persist_dns_record, install_override, install_on, apply_recorded, activate_intent,
  converge_intent, converge_alive, dns_converge, is_ok,
}
use chimera_service.Manager.Quarantine.{publish_first}

-- from books to books, whatever a transaction comes to
abbrev pub Keeps : {A : Type 0} → ℕ → Bool → ℕ → ℕ → ℕ → ℕ → Transaction A → Type 0
Keeps j v h l h' l' m = (s : Manager) → Books j v h l s → Books j v h' l' (m s).1

pub publish-Keeps :
    (env : Environment) (j : ℕ) (v : Bool) (h l : ℕ) (state : CoreState) (plan : Option EpochPlan)
    → Keeps j v h l h l (publish env state plan)
unfolding publish ◌>>=◌
publish-Keeps env j v h l state plan s b = ground (arith, b)

pub publish_terminal_error-Keeps :
    (env : Environment) (j : ℕ) (v : Bool) (h l : ℕ) (e : Error)
    → Keeps j v h l h l (publish_terminal_error env e)
unfolding publish_terminal_error
publish_terminal_error-Keeps env j v h l e s b = publish-Keeps env j v h l _ none s b

pub publish_instance-Keeps :
    (env : Environment) (j : ℕ) (v : Bool) (h l : ℕ) (state : CoreState) (plan : EpochPlan)
    → Keeps j v h l h l (publish_instance env state plan)
unfolding publish_instance ◌>>=◌
publish_instance-Keeps env j v h l state plan s b = ground (arith, b)

pub dns_restore-Keeps :
    (env : Environment) (j : ℕ) (v : Bool) (h l : ℕ) → Keeps j v h l h l (dns_restore env)
unfolding dns_restore persist_dns_record ◌>>=◌
dns_restore-Keeps env j v h l s b = ground (arith, b)

install_override-Keeps :
    (env : Environment) (j : ℕ) (v : Bool) (h l : ℕ) (servers : List String) (epoch : ℕ)
    → Keeps j v h l h l (install_override env servers epoch)
unfolding install_override install_on apply_recorded persist_dns_record ◌>>=◌
install_override-Keeps env j v h l servers epoch s b = ground (arith, b)

activate_intent-Keeps :
    (env : Environment) (j : ℕ) (v : Bool) (h l : ℕ) (plan : EpochPlan)
    (intent : Option (List String))
    → Keeps j v h l h l (activate_intent env plan intent)
unfolding activate_intent
activate_intent-Keeps env j v h l plan none s b = b
activate_intent-Keeps env j v h l plan (some servers) s b =
    install_override-Keeps env j v h l servers plan.revision.epoch s b

pub dns_activate-Keeps :
    (env : Environment) (j : ℕ) (v : Bool) (h l : ℕ) (plan : EpochPlan)
    → Keeps j v h l h l (dns_activate_for_plan env plan)
unfolding dns_activate_for_plan
dns_activate-Keeps env j v h l plan s b =
    ground
      (arith, b, activate_intent-Keeps env j v h l plan (env.desired plan.effective_document) s b)

pub dns_deactivate-Keeps :
    (env : Environment) (j : ℕ) (v : Bool) (h l : ℕ) (plan : EpochPlan)
    → Keeps j v h l h l (dns_deactivate_for_plan env plan)
unfolding dns_deactivate_for_plan
dns_deactivate-Keeps env j v h l plan s b = ground (arith, b, dns_restore-Keeps env j v h l s b)

pub runtime_alive-Keeps :
    (env : Environment) (j : ℕ) (v : Bool) (h l : ℕ) → Keeps j v h l h l (runtime_alive env)
unfolding runtime_alive
runtime_alive-Keeps env j v h l s b = ground (arith, b)

recorded-keeps :
    (j : ℕ) (v : Bool) (l epoch : ℕ) (e : Error) (s : Manager)
    → l ≤ here epoch j
    → Books j v (here epoch j) l s
    → Books j v 0 0 (record s { quarantine = record_quarantine epoch e s.quarantine })
recorded-keeps j v l epoch e s u b =
    ground (arith, u, b, entries-record epoch e s.quarantine j, unproven-le-entries s.quarantine j)

publish_first-Keeps :
    (env : Environment) (j : ℕ) (v : Bool) (h l : ℕ) (e : Option Error)
    → Keeps j v h l h l (publish_first env e)
unfolding publish_first
publish_first-Keeps env j v h l none s b = b
publish_first-Keeps env j v h l (some e) s b = publish_terminal_error-Keeps env j v h l e s b

pub latch-Keeps :
    (env : Environment) (j : ℕ) (v : Bool) (l epoch : ℕ) (e : Error)
    → l ≤ here epoch j
    → Keeps j v (here epoch j) l 0 0 (latch_quarantine env epoch e)
unfolding latch_quarantine ◌>>=◌
latch-Keeps env j v l epoch e u s b =
    publish_first-Keeps env j v 0 0 _ _ (recorded-keeps j v l epoch e s u b)

pub cleanup-Keeps :
    (env : Environment) (j : ℕ) (v : Bool) (h l : ℕ) → Keeps j v h l h l (cleanup_epoch env)
unfolding cleanup_epoch
cleanup-Keeps env j v h l s b = ground (arith, b)

converge_intent-Keeps :
    (env : Environment) (j : ℕ) (v : Bool) (h l : ℕ) (plan : EpochPlan)
    (intent : Option (List String))
    → Keeps j v h l h l (converge_intent env plan intent)
unfolding converge_intent
converge_intent-Keeps env j v h l plan none s b = dns_restore-Keeps env j v h l s b
converge_intent-Keeps env j v h l plan (some servers) s b =
    install_override-Keeps env j v h l servers plan.revision.epoch s b

converge_alive-Keeps :
    (env : Environment) (j : ℕ) (v : Bool) (h l : ℕ) (current : Option EpochPlan) (alive : Bool)
    → Keeps j v h l h l (converge_alive env current alive)
unfolding converge_alive
converge_alive-Keeps env j v h l none alive s b = dns_restore-Keeps env j v h l s b
converge_alive-Keeps env j v h l (some plan) false s b = dns_restore-Keeps env j v h l s b
converge_alive-Keeps env j v h l (some plan) true s b =
    converge_intent-Keeps env j v h l plan (env.desired plan.effective_document) s b

pub dns_converge-Keeps :
    (env : Environment) (j : ℕ) (v : Bool) (h l : ℕ) → Keeps j v h l h l (dns_converge env)
unfolding dns_converge ◌>>=◌
dns_converge-Keeps env j v h l s b =
    let r = runtime_alive env s in
    ground (
      arith,
      converge_alive-Keeps env j v h l s.current r.0 r.1 (runtime_alive-Keeps env j v h l s b),
      dns_restore-Keeps env j v h l s b,
    )

pub finish-Keeps :
    {A : Type 0} (env : Environment) (j : ℕ) (v : Bool) (h l : ℕ) (result : Result A)
    → Keeps j v h l h l (finish_dns_converge env result)
unfolding finish_dns_converge ◌>>=◌
finish-Keeps env j v h l result s b =
    let alive = runtime_alive env s in
    elim (Bool-cases (is_ok result || not alive.0)) [
      | inl e ↦ rw e (dns_converge-Keeps env j v h l alive.1 (runtime_alive-Keeps env j v h l s b))
      | inr e ↦ rw e (runtime_alive-Keeps env j v h l s b)
    ]

-- what is proven dead is not loose, and what is held need not be
pub let_go : (j : ℕ) (v : Bool) (h : ℕ) (s : Manager) → Books j v h 0 s → Books j false 0 0 s
let_go j v h s b = ground (arith, b)

pub ask-Keeps :
    {A : Type 0} (answer : ℕ → A) (j : ℕ) (v : Bool) (h l : ℕ) → Keeps j v h l h l (ask answer)
ask-Keeps answer j v h l s b = ground (arith, b)

pub launched-keeps :
    (j epoch : ℕ) (v : Bool) (answer : Option Error) (s : Manager)
    → Books j v (here epoch j) 0 s
    → Books j v
        (here epoch j)
        (if is_some (launched epoch answer s).0 then 0 else here epoch j)
        (launched epoch answer s).1
unfolding launched
launched-keeps j epoch v none s b = ground (arith, b)
launched-keeps j epoch v (some e) s b = ground (arith, b)

-- the death is not proven
abbrev pub is_uncertain : Option Error → Bool
is_uncertain none = false
is_uncertain (some e) = is_stop_unconfirmed e

pub confirmed-keeps :
    (j epoch : ℕ) (v : Bool) (answer : Option Error) (s : Manager)
    → Books j v (here epoch j) (here epoch j) s
    → Books j v
        (here epoch j)
        (if is_uncertain (confirmed epoch answer s).0 then here epoch j else 0)
        (confirmed epoch answer s).1
unfolding confirmed
confirmed-keeps j epoch v none s b = ground (arith, b)
confirmed-keeps j epoch v (some e) s b = ground (arith, b)
