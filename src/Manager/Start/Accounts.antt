-- ===== src/Manager/Start/Accounts.antt =====
-- The books of the manager: which of the processes that it launched it answers for.
use chimera_service.Base.{
  ℕ, ◌+◌, ◌≤◌, ◌<◌, max, ◌≡◌, ◌≢◌, ◌⊎◌, Bool, true, Option, none, some, List, [], ◌∷◌, arith, ◌==◌,
  if◌then◌else◌,
}
use chimera_service.Errors.{Error}
use chimera_service.Manager.State.{EpochPlan, QuarantinedEpoch, Manager}
use chimera_service.Manager.Quarantine.{record_quarantine, prove_death, release}

abbrev pub here : ℕ → ℕ → ℕ
here epoch j = if epoch == j then 1 else 0

-- 1 for the epoch in the slot
abbrev pub in_slot : Option EpochPlan → ℕ → ℕ
in_slot none j = 0
in_slot (some plan) j = here plan.revision.epoch j

-- the entries of an epoch in the quarantine, and those whose process is not proven dead
abbrev pub entries : List QuarantinedEpoch → ℕ → ℕ
entries [] j = 0
entries (e ∷ es) j = here e.epoch j + entries es j

abbrev pub unproven : List QuarantinedEpoch → ℕ → ℕ
unproven [] j = 0
unproven (e ∷ es) j = (if e.death_proven then 0 else here e.epoch j) + unproven es j

-- an epoch has one place: the slot, the quarantine, or the hands of the transaction (`held`); each of its
-- processes is accounted for by that place (`loose` for the hands); epochs to come have none; and
-- where `v` says so the slot is empty
pub record Books (j : ℕ) (v : Bool) (held loose : ℕ) (s : Manager) : Type 0 where
  pub one_place : in_slot s.current j + entries s.quarantine j + held ≤ 1
  pub covered : s.processes j ≤ in_slot s.current j + unproven s.quarantine j + loose
  pub vacant : v ≡ true → s.current ≡ none
  pub fresh :
      s.last_epoch < j
      → s.processes j + s.unconfirmed j + in_slot s.current j + entries s.quarantine j + held ≡ 0

pub unproven-le-entries : (es : List QuarantinedEpoch) (j : ℕ) → unproven es j ≤ entries es j
unproven-le-entries [] j = omega arith
unproven-le-entries (e ∷ es) j = ground (arith, unproven-le-entries es j)

pub entries-record :
    (epoch : ℕ) (reason : Error) (es : List QuarantinedEpoch) (j : ℕ)
    → (entries (record_quarantine epoch reason es) j
        ≡ (if epoch == j then max 1 (entries es j) else entries es j))
      × ((entries es epoch ≡ 0) ⊎ (unproven (record_quarantine epoch reason es) j ≡ unproven es j))
      × ((entries es epoch ≢ 0)
          ⊎ (unproven (record_quarantine epoch reason es) j ≡ here epoch j + unproven es j))
unfolding record_quarantine
entries-record epoch reason [] j = ground arith
entries-record epoch reason (e ∷ es) j = ground (arith, entries-record epoch reason es j)

pub entries-prove_death :
    (epoch : ℕ) (es : List QuarantinedEpoch) (j : ℕ)
    → (entries (prove_death epoch es) j ≡ entries es j)
      × (unproven (prove_death epoch es) j ≤ unproven es j)
      × ((epoch ≡ j) ⊎ (unproven (prove_death epoch es) j ≡ unproven es j))
unfolding prove_death
entries-prove_death epoch [] j = ground arith
entries-prove_death epoch (e ∷ es) j = ground (arith, entries-prove_death epoch es j)

pub entries-release :
    (epoch : ℕ) (es : List QuarantinedEpoch) (j : ℕ)
    → (entries (release epoch es) j ≡ (if epoch == j then 0 else entries es j))
      × (unproven (release epoch es) j ≡ (if epoch == j then 0 else unproven es j))
unfolding release
entries-release epoch [] j = ground arith
entries-release epoch (e ∷ es) j = ground (arith, entries-release epoch es j)
