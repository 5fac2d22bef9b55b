-- ===== src/Manager/Dns.antt =====
-- The override of the host resolver (manager/dns_sync.rs of crates/chimera-core-manager). Whether the
-- record could be written is an answer of the environment, and so is what the calls of the
-- controller come to; both are for a host that is not macOS.
pub mod Ownership
use chimera_service.Base.{
  ℕ, ◌+◌, Bool, true, false, ◌&&◌, ◌||◌, not, Option, none, some, List, [], if◌then◌else◌, is_some,
}
use chimera_service.Errors.{Error}
use chimera_service.Manager.State.{
  Result, ok, err, is_terminal, EpochPlan, DnsOverrideState, applied, restore_pending,
  DnsOverrideRecord, Environment, Transaction, ◌>>=◌, ◌>>◌, done, modify, ask,
}
use Prim.Native.String.{String}
use text.Mathlib.Text.{◌==◌ as str_eq}

-- `persist_dns_record`: the record in memory is the one that is visible on disk
unfoldable pub persist_dns_record : Environment → Option DnsOverrideRecord → Transaction Bool
persist_dns_record env entry s =
    if env.persist s.clock
    then (true, record s { clock = s.clock + 1; dns_record = entry })
    else (false, record s { clock = s.clock + 1 })

-- the interface and the resolvers of a record whose interface is not empty
unfoldable pub baseline : Option DnsOverrideRecord → Option (String × List String)
baseline none = none
baseline (some r) = if str_eq r.interface "" then none else some (r.interface, r.previous)

unfoldable pub pre_record : Option (String × List String) → List String → ℕ → DnsOverrideRecord
pre_record base servers epoch = record {
  interface = elim base [ none ↦ "" | some (interface, _) ↦ interface ];
  previous = elim base [ none ↦ [] | some (_, previous) ↦ previous ];
  applied = servers;
  runtime_epoch = epoch;
  owner_generation = none;
  state = DnsOverrideState.applied;
}

-- the read-back on top of the baseline, unless its interface is another
unfoldable pub rebase : Option (String × List String) → DnsOverrideRecord → Option DnsOverrideRecord
rebase none r = some r
rebase (some (interface, previous)) r =
    if str_eq r.interface interface then some (record r { previous = previous }) else none

unfoldable pub persist_read_back :
    Environment → Option DnsOverrideRecord → Transaction (Result Unit)
unfolding persist_dns_record ◌>>=◌
persist_read_back env none = done (err Error.apply_failed)
persist_read_back env (some r) = do
  persisted ← persist_dns_record env (some r)
  done (if persisted then ok tt else err Error.apply_failed)

-- the call of the controller, after which the host may have the override, and what follows it
unfoldable pub apply_override :
    Environment → Option (String × List String) → Transaction (Result Unit)
unfolding persist_read_back rebase ◌>>=◌
apply_override env base = do
  modify (λ s. record s { overridden = true })
  answer ← ask env.dns_apply
  persist_read_back env (elim answer [ none ↦ none | some r ↦ rebase base r ])

unfoldable pub apply_recorded :
    Environment → Option (String × List String) → Bool → Transaction (Result Unit)
unfolding apply_override
apply_recorded env base true = apply_override env base
apply_recorded env base false = done (err Error.apply_failed)

unfoldable pub install_on :
    Environment → Option (String × List String) → List String → ℕ → Transaction (Result Unit)
unfolding persist_dns_record pre_record apply_recorded ◌>>=◌
install_on env base servers epoch =
    persist_dns_record env (some (pre_record base servers epoch)) >>= apply_recorded env base

-- an intent is recorded, then applied: the common part of `dns_activate_for_plan` and
-- `dns_converge`
unfoldable pub install_override : Environment → List String → ℕ → Transaction (Result Unit)
unfolding install_on baseline
install_override env servers epoch s = install_on env (baseline s.dns_record) servers epoch s

unfoldable pub activate_intent :
    Environment → EpochPlan → Option (List String) → Transaction (Result Unit)
unfolding install_override
activate_intent env plan none = done (ok tt)
activate_intent env plan (some servers) = install_override env servers plan.revision.epoch

unfoldable pub dns_activate_for_plan : Environment → EpochPlan → Transaction (Result Unit)
unfolding activate_intent
dns_activate_for_plan env plan =
    if env.has_dns
    then activate_intent env plan (env.desired plan.effective_document)
    else done (ok tt)

-- the end of `dns_restore`: the controller restored the host, or may not have
unfoldable pub restore_called : Environment → Bool → Transaction (Result Unit)
unfolding persist_dns_record ◌>>=◌
restore_called env false = done (err Error.apply_failed)
restore_called env true = do
  modify (λ s. record s { overridden = false })
  persist_dns_record env none
  done (ok tt)

unfoldable pub restore_record : Environment → Option DnsOverrideRecord → Transaction (Result Unit)
unfolding persist_dns_record restore_called ◌>>=◌
restore_record env none = done (ok tt)
restore_record env (some r) = if not env.has_dns then done (err Error.apply_failed) else do
  persist_dns_record env (some (record r { state = restore_pending }))
  restored ← ask env.dns_restore
  restore_called env restored

unfoldable pub dns_restore : Environment → Transaction (Result Unit)
unfolding restore_record
dns_restore env s = restore_record env s.dns_record s

unfoldable pub dns_deactivate_for_plan : Environment → EpochPlan → Transaction (Result Unit)
unfolding dns_restore
dns_deactivate_for_plan env plan s =
    if not (is_some s.dns_record) || (env.has_dns && is_some (env.desired plan.effective_document))
    then (ok tt, s)
    else dns_restore env s

-- whether there is an active instance whose snapshot is not terminal; without one there is no snapshot
unfoldable pub runtime_alive : Environment → Transaction Bool
runtime_alive env s = elim s.current [
  | none ↦ (false, s)
  | some _ ↦
      (not (is_terminal (env.instance_status s.clock).state), record s { clock = s.clock + 1 })
]

unfoldable pub converge_intent :
    Environment → EpochPlan → Option (List String) → Transaction (Result Unit)
unfolding install_override dns_restore
converge_intent env plan none = dns_restore env
converge_intent env plan (some servers) = install_override env servers plan.revision.epoch

unfoldable pub converge_alive : Environment → Option EpochPlan → Bool → Transaction (Result Unit)
unfolding converge_intent dns_restore
converge_alive env (some plan) true = converge_intent env plan (env.desired plan.effective_document)
converge_alive env _ _ = dns_restore env

unfoldable pub dns_converge : Environment → Transaction (Result Unit)
unfolding converge_alive dns_restore runtime_alive ◌>>=◌
dns_converge env s =
    if env.has_dns
    then (runtime_alive env >>= converge_alive env s.current) s
    else dns_restore env s

-- `finish_dns_converge` on the two results
unfoldable pub join_results : {A : Type 0} → Result A → Result Unit → Result A
join_results (ok a) (ok _) = ok a
join_results (ok _) (err _) = err Error.apply_failed
join_results (err e) (ok _) = err e
join_results (err _) (err _) = err Error.apply_failed

abbrev pub is_ok : {A : Type 0} → Result A → Bool
is_ok (ok _) = true
is_ok (err _) = false

unfoldable pub finish_dns_converge : {A : Type 0} → Environment → Result A → Transaction (Result A)
unfolding runtime_alive dns_converge join_results ◌>>=◌
finish_dns_converge env result = do
  alive ← runtime_alive env
  dns ← (if is_ok result || not alive then dns_converge env else done (ok tt))
  done (join_results result dns)
