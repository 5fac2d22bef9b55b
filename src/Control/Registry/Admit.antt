-- ===== src/Control/Registry/Admit.antt =====
-- `Registry::admit` (control/executor.rs): idempotence, conflicts, and what it leaves alone.
use chimera_service.Base.{
  ℕ, suc, ◌≡◌, refl, subst, ◌≢◌, ◌⊎◌, inl, inr, true, false, none, some, arith, ◌==◌, Bool-cases,
  Option-cases,
}
use chimera_service.Errors.{core_error, CoreErrorKind}
use chimera_service.Control.Registry.{
  queued, Operation, get, admit_new, insert, Registry, terminal_op, evict, Sent, Admission,
  registered, existing, refused, admit,
}
use chimera_service.Control.Registry.Laws.{get-remove, get-insert}
use chimera_service.Control.Registry.Evict.{evict-Evicted}

-- what an admission says of the registry before it and after it
abbrev pub AdmitSpec : Registry → ℕ → ℕ → Registry → Admission → Type 0
AdmitSpec r id digest r' (existing sequence) =
    (r' ≡ r)
    × ((op : Operation) × (get id r.operations ≡ some op)
        × (op.digest ≡ digest)
        × (op.sequence ≡ sequence))
AdmitSpec r id digest r' (registered sequence) =
    (get id r.operations ≡ none)
    × (get id r'.operations
        ≡ some (record { digest = digest; sequence = sequence; state = queued }))
    × (sequence ≡ r.next_sequence)
    × (r'.next_sequence ≡ suc sequence)
AdmitSpec r id digest r' (refused error) =
    (get id r'.operations ≡ get id r.operations) × (error.operation_id ≡ some id)

-- what an admission of one id leaves of another
abbrev pub Untouched : Registry → Registry → ℕ → ℕ → Type 0
Untouched r r' id j =
    (id ≡ j)
    ⊎ ((terminal_op (get j r.operations) ≡ true) × (get j r'.operations ≡ none))
    ⊎ (get j r'.operations ≡ get j r.operations)

admit_none :
    (r : Registry) (id digest j : ℕ) (outcome : Sent)
    → get id r.operations ≡ none
    → AdmitSpec r id digest (admit_new r id digest outcome).0 (admit_new r id digest outcome).1
      × Untouched r (admit_new r id digest outcome).0 id j
unfolding admit_new
admit_none r id digest j outcome e =
    let op : Operation = record {
      digest = digest;
      sequence = (evict r).next_sequence;
      state = queued;
    } in
    let t = (evict r).operations in
    ground (
      arith,
      evict-Evicted r id,
      evict-Evicted r j,
      get-insert id id op t,
      get-insert id j op t,
      get-remove id id (insert id op t),
      get-remove id j (insert id op t),
    )

-- Whatever the queue answers: an admission that attaches to an operation found it with the same
-- payload digest and leaves the registry as it is; one that registers found the id free, and
-- leaves a queued operation with the next sequence number; one that is refused leaves no
-- trace of the id, or the operation that has it; and another operation is touched only if it is
-- terminal, and then it is forgotten.
pub admit_lem :
    (r : Registry) (id digest j : ℕ) (outcome : Sent)
    → AdmitSpec r id digest (admit r id digest outcome).0 (admit r id digest outcome).1
      × Untouched r (admit r id digest outcome).0 id j
unfolding admit
admit_lem r id digest j outcome = elim (Option-cases (get id r.operations)) [
  | inr (op, e) ↦ elim (Bool-cases (op.digest == digest)) [
    | inl same ↦ rw (e, same) ((refl, (op, e, ground arith, refl)), inr (inr refl))
    | inr other ↦ rw (e, other) ((refl, refl), inr (inr refl))
  ]
  | inl e ↦ rw e (admit_none r id digest j outcome e)
]

admit_known :
    (r : Registry) (id digest other sequence : ℕ) (later : Sent)
    → get id r.operations ≡ some (record { digest = digest; sequence = sequence; state = queued })
    → other ≢ digest
    → (admit r id digest later ≡ (r, existing sequence))
      × (admit r id other later
          ≡ (r, refused (core_error CoreErrorKind.operation_conflict false id)))
unfolding admit
admit_known r id digest other sequence later e ne = (rw e (ground arith), rw e (ground arith))

-- A lost response costs nothing: after an admission that registered an operation, the same id with
-- the same digest is answered by the same operation, whatever the queue says, and with another
-- digest is refused as a conflict that is not retryable; both times the registry stays as it is.
pub admit_again :
    (r : Registry) (id digest other sequence : ℕ) (outcome later : Sent)
    → (admit r id digest outcome).1 ≡ registered sequence
    → other ≢ digest
    → let r' = (admit r id digest outcome).0 in
      (admit r' id digest later ≡ (r', existing sequence))
      × (admit r' id other later
          ≡ (r', refused (core_error CoreErrorKind.operation_conflict false id)))
admit_again r id digest other sequence outcome later h ne =
    let after = (admit r id digest outcome).0 in
    let spec = subst (λ a. AdmitSpec r id digest after a) h (admit_lem r id digest id outcome).0 in
    admit_known after id digest other sequence later spec.1 ne
