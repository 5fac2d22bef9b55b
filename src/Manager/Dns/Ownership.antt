-- ===== src/Manager/Dns/Ownership.antt =====
-- What the manager records of the override of the host resolver (manager/dns_sync.rs).
use chimera_service.Base.{
  ℕ, ◌≡◌, refl, sym, subst, ◌⊎◌, inl, inr, Bool, true, false, Option, none, some, List, arith,
  is_some, Bool-cases,
}
use chimera_service.Manager.State.{EpochPlan, DnsOverrideRecord, Environment, Manager, ◌>>=◌}
use Prim.Native.String.{String}
use text.Mathlib.Text.{◌==◌ as str_eq}
use text.Mathlib.TextEquality.{eq_iff}
use chimera_service.Manager.Dns.{
  persist_dns_record, baseline, pre_record, rebase, persist_read_back, apply_override,
  apply_recorded, install_on, install_override, restore_called, restore_record, dns_restore,
  activate_intent, dns_activate_for_plan, dns_deactivate_for_plan, converge_intent, converge_alive,
  dns_converge, runtime_alive,
}

-- the host's resolver is overridden only while a record says so
abbrev pub IsRecorded : Manager → Type 0
IsRecorded s = (s.overridden ≡ false) ⊎ (is_some s.dns_record ≡ true)

restore-IsRecorded :
    (env : Environment) (s : Manager) → IsRecorded s → IsRecorded (dns_restore env s).1
unfolding dns_restore restore_record restore_called persist_dns_record ◌>>=◌
restore-IsRecorded env s h = ground (arith, h)

install-IsRecorded :
    (env : Environment) (servers : List String) (epoch : ℕ) (s : Manager)
    → IsRecorded s
    → IsRecorded (install_override env servers epoch s).1
unfolding install_override install_on apply_recorded apply_override persist_read_back
    persist_dns_record ◌>>=◌
install-IsRecorded env servers epoch s h = ground (arith, h)

intent-IsRecorded :
    (env : Environment) (plan : EpochPlan) (intent : Option (List String)) (s : Manager)
    → IsRecorded s
    → IsRecorded (activate_intent env plan intent s).1
      × IsRecorded (converge_intent env plan intent s).1
unfolding activate_intent converge_intent
intent-IsRecorded env plan none s h = (h, restore-IsRecorded env s h)
intent-IsRecorded env plan (some servers) s h =
    let i = install-IsRecorded env servers plan.revision.epoch s h in (i, i)

alive-IsRecorded :
    (env : Environment) (current : Option EpochPlan) (alive : Bool) (s : Manager)
    → IsRecorded s
    → IsRecorded (converge_alive env current alive s).1
unfolding converge_alive
alive-IsRecorded env none alive s h = restore-IsRecorded env s h
alive-IsRecorded env (some plan) false s h = restore-IsRecorded env s h
alive-IsRecorded env (some plan) true s h =
    (intent-IsRecorded env plan (env.desired plan.effective_document) s h).1

-- An override is recorded before it is put in place and the record goes only after it was
-- restored: the four operations on the resolver keep it so that the host has no override
-- that the manager has no record of, whatever fails or times out on the way.
pub override-IsRecorded :
    (env : Environment) (plan : EpochPlan) (s : Manager)
    → (s.overridden ≡ false) ⊎ (is_some s.dns_record ≡ true)
    → IsRecorded (dns_activate_for_plan env plan s).1
      × IsRecorded (dns_deactivate_for_plan env plan s).1
      × IsRecorded (dns_converge env s).1
      × IsRecorded (dns_restore env s).1
unfolding dns_activate_for_plan dns_deactivate_for_plan dns_converge ◌>>=◌
override-IsRecorded env plan s h =
    let r = runtime_alive env s in
    let a = (intent-IsRecorded env plan (env.desired plan.effective_document) s h).0 in
    let d = restore-IsRecorded env s h in
    let c = alive-IsRecorded env s.current r.0 r.1 (asked s h) in
    (ground (arith, a, h), ground (arith, d, h), ground (arith, c, d), d)
  where
    asked : (s : Manager) → IsRecorded s → IsRecorded (runtime_alive env s).1
    asked s h = unfold runtime_alive in ground (arith, h)

-- a record has the interface and the resolvers of before the override
abbrev pub HasBaseline : String → List String → Option DnsOverrideRecord → Type 0
HasBaseline interface previous none = Unit
HasBaseline interface previous (some r) = (r.interface ≡ interface) × (r.previous ≡ previous)

rebase-HasBaseline :
    (interface : String) (previous : List String) (answer : Option DnsOverrideRecord)
    → HasBaseline interface previous
        (elim answer [ none ↦ none | some r ↦ rebase (some (interface, previous)) r ])
unfolding rebase
rebase-HasBaseline interface previous none = tt
rebase-HasBaseline interface previous (some r) = elim (Bool-cases (str_eq r.interface interface)) [
  | inl e ↦ rw e ((eq_iff r.interface interface).0 e, refl)
  | inr e ↦ rw e tt
]

read_back-HasBaseline :
    (env : Environment) (interface : String) (previous : List String)
    (entry : Option DnsOverrideRecord) (s : Manager)
    → HasBaseline interface previous s.dns_record
    → HasBaseline interface previous entry
    → HasBaseline interface previous (persist_read_back env entry s).1.dns_record
unfolding persist_read_back persist_dns_record ◌>>=◌
read_back-HasBaseline env interface previous none s h k = h
read_back-HasBaseline env interface previous (some r) s h k =
    elim (Bool-cases (env.persist s.clock)) [ inl e ↦ rw e k | inr e ↦ rw e h ]

apply-HasBaseline :
    (env : Environment) (interface : String) (previous : List String) (s : Manager)
    → HasBaseline interface previous s.dns_record
    → HasBaseline interface previous
        (apply_override env (some (interface, previous)) s).1.dns_record
unfolding apply_override ◌>>=◌
apply-HasBaseline env interface previous s h =
    read_back-HasBaseline env interface previous _ _ h
      (rebase-HasBaseline interface previous (env.dns_apply s.clock))

recorded-HasBaseline :
    (env : Environment) (interface : String) (previous : List String) (persisted : Bool)
    (s : Manager)
    → HasBaseline interface previous s.dns_record
    → HasBaseline interface previous
        (apply_recorded env (some (interface, previous)) persisted s).1.dns_record
unfolding apply_recorded
recorded-HasBaseline env interface previous true s h = apply-HasBaseline env interface previous s h
recorded-HasBaseline env interface previous false s h = h

install_on-HasBaseline :
    (env : Environment) (interface : String) (previous : List String) (servers : List String)
    (epoch : ℕ) (s : Manager)
    → HasBaseline interface previous s.dns_record
    → HasBaseline interface previous
        (install_on env (some (interface, previous)) servers epoch s).1.dns_record
unfolding install_on ◌>>=◌
install_on-HasBaseline env interface previous servers epoch s h =
    recorded-HasBaseline env interface previous _ _ (persisted (env.persist s.clock) refl)
  where
    persisted :
        (b : Bool)
        → env.persist s.clock ≡ b
        → HasBaseline interface previous
            (persist_dns_record env
              (some (pre_record (some (interface, previous)) servers epoch))
              s).1.dns_record
    persisted true e = unfold persist_dns_record pre_record in rw e (refl, refl)
    persisted false e = unfold persist_dns_record in rw e h

restored-HasBaseline :
    (env : Environment) (r : DnsOverrideRecord) (s : Manager)
    → HasBaseline r.interface r.previous s.dns_record
    → HasBaseline r.interface r.previous (restore_record env (some r) s).1.dns_record
unfolding restore_record restore_called persist_dns_record ◌>>=◌
restored-HasBaseline env r s h = ground (arith, h)

-- Once a read-back has named the interface, what the host is to be restored to is never
-- taken over from the override itself: an activation and a restore leave no record, or one with the interface and the
-- resolvers of the record before.
pub baseline_kept :
    (env : Environment) (servers : List String) (epoch : ℕ) (s : Manager) (r : DnsOverrideRecord)
    → s.dns_record ≡ some r
    → str_eq r.interface "" ≡ false
    → HasBaseline r.interface r.previous (install_override env servers epoch s).1.dns_record
      × HasBaseline r.interface r.previous (dns_restore env s).1.dns_record
unfolding dns_restore install_override
baseline_kept env servers epoch s r e n = (installed, restored)
  where
    recorded : HasBaseline r.interface r.previous s.dns_record
    recorded = rw e (refl, refl)

    has_baseline : baseline s.dns_record ≡ some (r.interface, r.previous)
    has_baseline = unfold baseline in rw (e, n) refl

    installed :
        HasBaseline r.interface r.previous (install_override env servers epoch s).1.dns_record
    installed =
        subst
          (λ x. HasBaseline r.interface r.previous (install_on env x servers epoch s).1.dns_record)
          (sym has_baseline)
          (install_on-HasBaseline env r.interface r.previous servers epoch s recorded)

    restored : HasBaseline r.interface r.previous (dns_restore env s).1.dns_record
    restored =
        subst (λ x. HasBaseline r.interface r.previous (restore_record env x s).1.dns_record)
          (sym e) (restored-HasBaseline env r s recorded)
