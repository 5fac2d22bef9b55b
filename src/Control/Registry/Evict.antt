-- ===== src/Control/Registry/Evict.antt =====
-- The eviction of `admit` (control/executor.rs): only terminal operations go, and it stops below
-- the capacity or when no terminal operation is left.
use chimera_service.Base.{
  ℕ, zero, suc, ◌<◌, ◌≡◌, ◌≢◌, ◌⊎◌, inl, inr, Bool, refl, ap, true, false, ◌||◌, Option, none, some,
  ◌++◌, List, [], ◌∷◌, arith, leb, ◌==◌, Bool-cases, Option-cases, length, any,
}
use chimera_service.Control.Registry.{
  Table, get, remove, insert, Registry, Operation, OperationState, queued, new, Sent, sent, full,
  closed, pop_back, registration, unregistration, admit_new, admit_found, admit, set, terminal_op,
  find_terminal, evict_loop, evict,
}
use chimera_service.Control.Registry.Laws.{get-remove, get-insert, get-set_in}

pub find_terminal-terminal :
    (t : Table) (order : List ℕ) (id : ℕ) (rest : List ℕ)
    → find_terminal t order ≡ some (id, rest)
    → (terminal_op (get id t) ≡ true) × (length order ≡ suc (length rest))
unfolding find_terminal
find_terminal-terminal t [] id rest h = cc
find_terminal-terminal t (i ∷ order) id rest h = elim (Option-cases (find_terminal t order)) [
  | inl e ↦ ground (arith, e)
  | inr ((found, others), e) ↦ ground (arith, e, find_terminal-terminal t order found others e)
]

-- every id of the order but the one found stays, and no id is new
find_terminal-any :
    (t : Table) (order : List ℕ) (id : ℕ) (rest : List ℕ) (j : ℕ)
    → find_terminal t order ≡ some (id, rest)
    → any (λ i. i == j) order ≡ (id == j || any (λ i. i == j) rest)
unfolding find_terminal
find_terminal-any t [] id rest j h = cc
find_terminal-any t (i ∷ order) id rest j h = elim (Option-cases (find_terminal t order)) [
  | inl e ↦ ground (arith, e)
  | inr ((found, others), e) ↦ ground (arith, e, find_terminal-any t order found others j e)
]

find_terminal-none :
    (t : Table) (order : List ℕ) (j : ℕ)
    → find_terminal t order ≡ none
    → any (λ i. i == j) order ≡ true
    → terminal_op (get j t) ≡ false
unfolding find_terminal
find_terminal-none t [] j h m = cc
find_terminal-none t (i ∷ order) j h m = elim (Option-cases (find_terminal t order)) [
  | inl e ↦ ground (arith, e, find_terminal-none t order j e)
  | inr (found, e) ↦ ground (arith, e)
]

-- what an eviction leaves as it was
pub record Evicted (r r' : Registry) (j : ℕ) : Type 0 where
  pub live_kept :
      terminal_op (get j r.operations) ≡ false → get j r'.operations ≡ get j r.operations
  pub kept_or_gone : (get j r'.operations ≡ get j r.operations) ⊎ (get j r'.operations ≡ none)
  pub sequence_kept : r'.next_sequence ≡ r.next_sequence
  pub capacity_kept : r'.capacity ≡ r.capacity

evict_round :
    (r : Registry) (id : ℕ) (order : List ℕ) (j : ℕ)
    → find_terminal r.operations r.order ≡ some (id, order)
    → Evicted r (record r { operations = remove id r.operations; order = order }) j
evict_round r id order j e =
    let terminal = (find_terminal-terminal r.operations r.order id order e).0 in
    ground (arith, get-remove id j r.operations, terminal)

Evicted-trans : (r s t : Registry) (j : ℕ) → Evicted r s j → Evicted s t j → Evicted r t j
Evicted-trans r s t j h k = ground arith

evict_loop-Evicted : (fuel : ℕ) (r : Registry) (j : ℕ) → Evicted r (evict_loop fuel r) j
unfolding evict_loop
evict_loop-Evicted zero r j = ground arith
evict_loop-Evicted (suc fuel) r j = elim (Bool-cases (leb r.capacity (length r.operations))) [
  | inr e ↦ rw e (ground arith)
  | inl e ↦ elim (Option-cases (find_terminal r.operations r.order)) [
    | inl n ↦ rw (e, n) (ground arith)
    | inr ((id, order), f) ↦
        rw (e, f)
          (Evicted-trans r (record r { operations = remove id r.operations; order = order }) _ j
            (evict_round r id order j f)
            (evict_loop-Evicted fuel
              (record r { operations = remove id r.operations; order = order }) j))
  ]
]

pub evict-Evicted : (r : Registry) (j : ℕ) → Evicted r (evict r) j
unfolding evict
evict-Evicted r j = evict_loop-Evicted (suc (length r.order)) r j

-- every registered id stands in the order
pub record IsOrdered (r : Registry) (j : ℕ) : Type 0 where
  pub ordered : get j r.operations ≢ none → any (λ i. i == j) r.order ≡ true

evict_round-IsOrdered :
    (r : Registry) (id : ℕ) (order : List ℕ) (j : ℕ)
    → find_terminal r.operations r.order ≡ some (id, order)
    → IsOrdered r j
    → IsOrdered (record r { operations = remove id r.operations; order = order }) j
evict_round-IsOrdered r id order j e h = record {
  ordered = λ n. ground (
    arith,
    get-remove id j r.operations,
    find_terminal-any r.operations r.order id order j e,
    h.ordered,
  );
}

pub evict_loop-enough :
    (fuel : ℕ) (r : Registry) (j : ℕ)
    → length r.order < fuel
    → IsOrdered r j
    → IsOrdered (evict_loop fuel r) j
      × ((length (evict_loop fuel r).operations < r.capacity)
          ⊎ (terminal_op (get j (evict_loop fuel r).operations) ≡ false))
unfolding evict_loop
evict_loop-enough zero r j l h = absurd (omega arith)
evict_loop-enough (suc fuel) r j l h = elim (Bool-cases (leb r.capacity (length r.operations))) [
  | inr e ↦ rw e (h, inl (ground arith))
  | inl e ↦ elim (Option-cases (find_terminal r.operations r.order)) [
    | inl n ↦
        rw (e, n) (h, inr (ground (arith, find_terminal-none r.operations r.order j n, h.ordered)))
    | inr ((id, order), f) ↦
        rw (e, f)
          (evict_loop-enough fuel (record r { operations = remove id r.operations; order = order })
            j (omega (arith, find_terminal-terminal r.operations r.order id order f))
            (evict_round-IsOrdered r id order j f h))
  ]
]

-- the calls of a registry that change it
pub data Call : Type 0 where
  admission : (id digest : ℕ) → Sent → Call
  setting : (id : ℕ) → OperationState → Call

unfoldable pub perform_calls : Registry → List Call → Registry
unfolding admit set
perform_calls r [] = r
perform_calls r (admission id digest outcome ∷ calls) =
    perform_calls (admit r id digest outcome).0 calls
perform_calls r (setting id state ∷ calls) = perform_calls (set r id state) calls

any-append : (p : ℕ → Bool) (xs ys : List ℕ) → any p (xs ++ ys) ≡ (any p xs || any p ys)
any-append p [] ys = refl
any-append p (x ∷ xs) ys = ground (arith, any-append p xs ys)

pop_back-append : (xs : List ℕ) (x : ℕ) → pop_back (xs ++ x ∷ []) ≡ xs
unfolding pop_back
pop_back-append [] x = refl
pop_back-append (y ∷ []) x = refl
pop_back-append (y ∷ z ∷ xs) x = ap (λ ys. y ∷ ys) (pop_back-append (z ∷ xs) x)

evict-IsOrdered : (r : Registry) (j : ℕ) → IsOrdered r j → IsOrdered (evict r) j
unfolding evict
evict-IsOrdered r j h = (evict_loop-enough (suc (length r.order)) r j (omega arith) h).0

registration-IsOrdered :
    (r : Registry) (id digest j : ℕ) → IsOrdered r j → IsOrdered (registration r id digest) j
unfolding registration
registration-IsOrdered r id digest j h = record {
  ordered = λ n. ground (
    arith,
    get-insert id j (record { digest = digest; sequence = r.next_sequence; state = queued })
        r.operations,
    any-append (λ i. i == j) r.order (id ∷ []),
    h.ordered,
    n,
  );
}

unregistration-IsOrdered :
    (r : Registry) (id digest j : ℕ)
    → IsOrdered r j
    → IsOrdered (unregistration (registration r id digest) id) j
unfolding registration unregistration
unregistration-IsOrdered r id digest j h = record {
  ordered = λ n.
      let op : Operation = record { digest = digest; sequence = r.next_sequence; state = queued } in
      ground (
        arith,
        get-remove id j (insert id op r.operations),
        get-insert id j op r.operations,
        pop_back-append r.order id,
        h.ordered,
        n,
      );
}

admit_found-IsOrdered :
    (o : Option Operation) (r : Registry) (id digest : ℕ) (outcome : Sent) (j : ℕ)
    → IsOrdered r j
    → IsOrdered (admit_found o r id digest outcome).0 j
unfolding admit_found admit_new
admit_found-IsOrdered (some op) r id digest outcome j h = elim (Bool-cases (op.digest == digest)) [
  | inl e ↦ rw (admit_found, e) h
  | inr e ↦ rw (admit_found, e) h
]
admit_found-IsOrdered none r id digest sent j h =
    registration-IsOrdered (evict r) id digest j (evict-IsOrdered r j h)
admit_found-IsOrdered none r id digest full j h =
    unregistration-IsOrdered (evict r) id digest j (evict-IsOrdered r j h)
admit_found-IsOrdered none r id digest closed j h =
    unregistration-IsOrdered (evict r) id digest j (evict-IsOrdered r j h)

set-IsOrdered :
    (r : Registry) (id : ℕ) (state : OperationState) (j : ℕ)
    → IsOrdered r j
    → IsOrdered (set r id state) j
unfolding set
set-IsOrdered r id state j h = record {
  ordered = λ n. ground (arith, get-set_in id j state r.operations, h.ordered, n);
}

perform_calls-IsOrdered :
    (r : Registry) (calls : List Call) (j : ℕ) → IsOrdered r j → IsOrdered (perform_calls r calls) j
unfolding perform_calls admit
perform_calls-IsOrdered r [] j h = h
perform_calls-IsOrdered r (admission id digest outcome ∷ calls) j h =
    perform_calls-IsOrdered (admit r id digest outcome).0 calls j
      (admit_found-IsOrdered (get id r.operations) r id digest outcome j h)
perform_calls-IsOrdered r (setting id state ∷ calls) j h =
    perform_calls-IsOrdered (set r id state) calls j (set-IsOrdered r id state j h)

-- Whatever calls a new registry has had, the eviction before an admission ends for lack of anything to evict or
-- below the capacity: after it there is room for a new operation, or the operation of any given id, if it has one,
-- is live; the registry grows past its capacity only if all its operations are still queued or running.
pub evict_room :
    (capacity : ℕ) (calls : List Call) (j : ℕ)
    → let r = evict (perform_calls (new capacity) calls) in
      (length r.operations < r.capacity) ⊎ (terminal_op (get j r.operations) ≡ false)
unfolding evict
evict_room capacity calls j =
    let r = perform_calls (new capacity) calls in
    let h =
      perform_calls-IsOrdered (new capacity) calls j
        (record { ordered = λ n. absurd (n (unfold new get in refl)) }) in
    let room = (evict_loop-enough (suc (length r.order)) r j (omega arith) h).1 in
    elim room [
      | inl below ↦ inl (omega (arith, below, (evict-Evicted r j).capacity_kept))
      | inr live ↦ inr live
    ]
