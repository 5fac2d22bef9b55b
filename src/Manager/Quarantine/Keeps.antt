-- ===== src/Manager/Quarantine/Keeps.antt =====
-- A recovery keeps the books of the manager.
use chimera_service.Base.{
  ℕ, ◌+◌, ◌≤◌, ◌≡◌, refl, sym, subst, ◌⊎◌, inl, inr, Bool, true, false, Option, none, some, List,
  [], ◌∷◌, arith, if◌then◌else◌, Bool-cases,
}
use chimera_service.Errors.{Error}
use chimera_service.Manager.State.{
  Result, ok, err, CoreState, QuarantinedEpoch, Reaped, already_exited, killed, not_found, failed,
  Environment, Manager, ◌>>=◌, ask,
}
use chimera_service.Manager.Start.Accounts.{
  here, entries, unproven, Books, unproven-le-entries, entries-prove_death, entries-release,
}
use chimera_service.Manager.Start.Keeps.{Keeps, publish-Keeps, dns_restore-Keeps, ask-Keeps}
use chimera_service.Manager.Quarantine.{
  prove_death, bury, release_cleaned, recover_proven, recover_reaped, recover_entry,
  recover_entries, recover_restored, recover_end, recover_from, recover_quarantine,
}

module _ (env : Environment) (j : ℕ) where
  bury-keeps : (epoch : ℕ) (s : Manager) → Books j false 0 0 s → Books j false 0 0 (bury epoch s)
  bury-keeps epoch s b = ground (arith, b, entries-prove_death epoch s.quarantine j)

  -- an entry goes only if its process is proven dead
  release-keeps :
      (epoch : ℕ) (cleaned : Option Error) (s : Manager)
      → (epoch ≡ j → unproven s.quarantine j ≡ 0)
      → Books j false 0 0 s
      → Books j false 0 0 (release_cleaned epoch cleaned s).1
  release-keeps epoch none s p b = ground (arith, p, b, entries-release epoch s.quarantine j)
  release-keeps epoch (some e) s p b = b

  -- the entries of an epoch that are proven dead
  abbrev proven : List QuarantinedEpoch → ℕ
  proven [] = 0
  proven (e ∷ es) = (if e.death_proven then here e.epoch j else 0) + proven es

  -- the books, and what the copy of the quarantine that is gone through still says
  record Recovers (es : List QuarantinedEpoch) (s : Manager) : Type 0 where
    books : Books j false 0 0 s
    still : (proven es ≡ 0) ⊎ (unproven s.quarantine j ≡ 0)

  unproven-prove_death :
      (es : List QuarantinedEpoch) → entries es j ≤ 1 → unproven (prove_death j es) j ≡ 0
  unfolding prove_death
  unproven-prove_death [] u = refl
  unproven-prove_death (e ∷ es) u =
      ground (arith, unproven-prove_death es, unproven-le-entries es j)

  recover_proven-keeps :
      (epoch : ℕ) (es : List QuarantinedEpoch) (s : Manager)
      → (epoch ≡ j → unproven s.quarantine j ≡ 0)
      → Recovers es s
      → Recovers es (recover_proven env epoch s).1
  unfolding recover_proven ◌>>=◌
  recover_proven-keeps epoch es s p r =
      let s' = (ask env.cleanup_epoch s).1 in
      let b =
        release-keeps epoch (env.cleanup_epoch s.clock) s' p
          (ask-Keeps env.cleanup_epoch j false 0 0 s r.books) in
      record { books = b; still = released (env.cleanup_epoch s.clock) s' r.still }
    where
      released :
          (cleaned : Option Error) (s' : Manager)
          → (proven es ≡ 0) ⊎ (unproven s'.quarantine j ≡ 0)
          → (proven es ≡ 0) ⊎ (unproven (release_cleaned epoch cleaned s').1.quarantine j ≡ 0)
      released none s' w = ground (arith, w, entries-release epoch s'.quarantine j)
      released (some e) s' w = w

  buried-keeps :
      (epoch : ℕ) (es : List QuarantinedEpoch) (s : Manager)
      → Recovers es s
      → Recovers es (recover_proven env epoch (bury epoch s)).1
  buried-keeps epoch es s r =
      let q = s.quarantine in
      let laws = entries-prove_death epoch q j in
      recover_proven-keeps epoch es (bury epoch s)
        (λ e.
          subst (λ x. unproven (prove_death x q) j ≡ 0) (sym e)
            (unproven-prove_death q (ground (arith, r.books))))
        (record { books = bury-keeps epoch s r.books; still = ground (arith, r.still, laws) })

  recover_reaped-keeps :
      (epoch : ℕ) (reaped : Reaped) (es : List QuarantinedEpoch) (s : Manager)
      → Recovers es s
      → Recovers es (recover_reaped env epoch reaped s).1
  unfolding recover_reaped ◌>>=◌
  recover_reaped-keeps epoch already_exited es s r = buried-keeps epoch es s r
  recover_reaped-keeps epoch killed es s r = buried-keeps epoch es s r
  recover_reaped-keeps epoch not_found es s r = r
  recover_reaped-keeps epoch failed es s r = r

  recover_entry-keeps :
      (entry : QuarantinedEpoch) (es : List QuarantinedEpoch) (s : Manager)
      → Recovers (entry ∷ es) s
      → Recovers es (recover_entry env entry s).1
  unfolding recover_entry ◌>>=◌
  recover_entry-keeps entry es s r =
      let rest : Recovers es s = ground (arith, r) in
      let asked = (ask env.reap_epoch_pid_file s).1 in
      elim (Bool-cases entry.death_proven) [
        | inl e ↦
            rw e (
              recover_proven-keeps entry.epoch es s (λ same. ground (arith, r.still, e, same)) rest)
        | inr e ↦ rw e (
            recover_reaped-keeps entry.epoch (env.reap_epoch_pid_file s.clock) es asked
              (ground (arith, rest)))
      ]

  recover_entries-keeps :
      (es : List QuarantinedEpoch) (s : Manager)
      → Recovers es s
      → Books j false 0 0 (recover_entries env es s).1
  unfolding recover_entries ◌>>=◌
  recover_entries-keeps [] s r = r.books
  recover_entries-keeps (entry ∷ es) s r =
      recover_entries-keeps es _ (recover_entry-keeps entry es s r)

  recover_restored-Keeps : (r : Result Unit) → Keeps j false 0 0 0 0 (recover_restored env r)
  unfolding recover_restored ◌>>=◌
  recover_restored-Keeps (err e) s b = b
  recover_restored-Keeps (ok _) s b =
      publish-Keeps env j false 0 0 (CoreState.stopped none) none s b

  recover_end-Keeps : (all_proven : Bool) → Keeps j false 0 0 0 0 (recover_end env all_proven)
  unfolding recover_end ◌>>=◌
  recover_end-Keeps true s b = recover_restored-Keeps _ _ (dns_restore-Keeps env j false 0 0 s b)
  recover_end-Keeps false s b = b

  proven-unproven : (es : List QuarantinedEpoch) → proven es + unproven es j ≡ entries es j
  proven-unproven [] = refl
  proven-unproven (e ∷ es) = ground (arith, proven-unproven es)

  recover_from-keeps :
      (es : List QuarantinedEpoch) (s : Manager)
      → Recovers es s
      → Books j false 0 0 (recover_from env es s).1
  unfolding recover_from ◌>>=◌
  recover_from-keeps [] s r = r.books
  recover_from-keeps (entry ∷ es) s r =
      recover_end-Keeps _ _ (recover_entries-keeps (entry ∷ es) s r)

  pub recover-Keeps : Keeps j false 0 0 0 0 (recover_quarantine env)
  unfolding recover_quarantine
  recover-Keeps s b =
      recover_from-keeps s.quarantine s
        (record { books = b; still = ground (arith, b, proven-unproven s.quarantine) })
