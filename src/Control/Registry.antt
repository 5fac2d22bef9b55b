-- ===== src/Control/Registry.antt =====
-- `Registry` of crates/chimera-core-manager/src/control/executor.rs: the bounded table of the most
-- recent operations. The `HashMap` is an association list; an `OperationId` is the number that its
-- 16 bytes are (it is compared and hashed by them); a payload digest is the u64 that it prints. A
-- `watch` channel is the state that it holds: every subscriber reads that one.
pub mod Laws
pub mod Admit
pub mod Evict
use chimera_service.Base.{
  ℕ, zero, suc, ◌+◌, Bool, true, false, Option, none, some, List, [], ◌∷◌, ◌++◌, leb, ◌==◌,
  if◌then◌else◌, length,
}
use chimera_service.Errors.{CoreError, core_error, CoreErrorKind}

-- `OperationOutput`; what a reconcile returns is opaque here
pub data Output : Type 0 where
  reconciled : ℕ → Output
  stopped recovered shut_down : Output

pub data OperationState : Type 0 where
  queued running : OperationState
  succeeded : Output → OperationState
  failed : CoreError → OperationState

unfoldable pub is_terminal : OperationState → Bool
is_terminal (succeeded _) = true
is_terminal (failed _) = true
is_terminal _ = false

pub record Operation : Type 0 where
  pub digest : ℕ
  pub sequence : ℕ
  pub state : OperationState

abbrev pub Table : Type 0
Table = List (ℕ × Operation)

-- `HashMap::get`
unfoldable pub get : ℕ → Table → Option Operation
get id [] = none
get id ((j, op) ∷ table) = if j == id then some op else get id table

-- `HashMap::remove`
unfoldable pub remove : ℕ → Table → Table
remove id [] = []
remove id ((j, op) ∷ table) = let rest = remove id table in if j == id then rest else (j, op) ∷ rest

-- `HashMap::insert`
unfoldable pub insert : ℕ → Operation → Table → Table
unfolding remove
insert id op table = (id, op) ∷ remove id table

pub record Registry : Type 0 where
  pub operations : Table
  pub order : List ℕ
  pub next_sequence : ℕ
  pub capacity : ℕ

unfoldable pub new : ℕ → Registry
new capacity = record { operations = []; order = []; next_sequence = 0; capacity = capacity }

abbrev pub terminal_op : Option Operation → Bool
unfolding is_terminal
terminal_op none = false
terminal_op (some op) = is_terminal op.state

-- `order.iter().position(..)` and `order.remove(position)`: the first id in the order whose
-- operation is terminal, and the order without it
unfoldable pub find_terminal : Table → List ℕ → Option (ℕ × List ℕ)
unfolding get is_terminal
find_terminal table [] = none
find_terminal table (id ∷ order) =
    if terminal_op (get id table) then some (id, order) else elim (find_terminal table order) [
      | none ↦ none
      | some (found, rest) ↦ some (found, id ∷ rest)
    ]

-- `while operations.len() >= capacity { .. }`; the fuel bounds the rounds
unfoldable pub evict_loop : ℕ → Registry → Registry
unfolding find_terminal remove
evict_loop zero r = r
evict_loop (suc fuel) r =
    if leb r.capacity (length r.operations)
    then elim (find_terminal r.operations r.order) [
      | none ↦ r
      | some (evicted, order) ↦
          evict_loop fuel (record r { operations = remove evicted r.operations; order = order })
    ]
    else r

-- a round takes an id out of the order, so there are at most as many rounds as ids in it
unfoldable pub evict : Registry → Registry
unfolding evict_loop
evict r = evict_loop (suc (length r.order)) r

-- what `try_send` on the queue answers
pub data Sent : Type 0 where
  sent full closed : Sent

pub data Admission : Type 0 where
  registered : (sequence : ℕ) → Admission
  existing : (sequence : ℕ) → Admission
  refused : CoreError → Admission

-- `VecDeque::pop_back`
unfoldable pub pop_back : List ℕ → List ℕ
pop_back [] = []
pop_back (x ∷ []) = []
pop_back (x ∷ y ∷ xs) = x ∷ pop_back (y ∷ xs)

-- the lines of `admit` from the eviction on: the id is new; an enqueue that fails takes the entry
-- out again, but not the sequence number
registration : Registry → ℕ → ℕ → Registry
registration r id digest = record r {
  operations =
      insert id (record { digest = digest; sequence = r.next_sequence; state = queued })
        r.operations;
  order = r.order ++ id ∷ [];
  next_sequence = r.next_sequence + 1;
}

unregistration : Registry → ℕ → Registry
unregistration r id = record r { operations = remove id r.operations; order = pop_back r.order }

unfoldable pub admit_new : Registry → ℕ → ℕ → Sent → Registry × Admission
unfolding registration unregistration pop_back
admit_new r id digest sent = (registration (evict r) id digest, registered (evict r).next_sequence)
admit_new r id digest full = (
  unregistration (registration (evict r) id digest) id,
  refused (core_error CoreErrorKind.queue_full true id),
)
admit_new r id digest closed = (
  unregistration (registration (evict r) id digest) id,
  refused (core_error CoreErrorKind.internal false id),
)

admit_found : Option Operation → Registry → ℕ → ℕ → Sent → Registry × Admission
unfolding admit_new
admit_found (some op) r id digest outcome =
    if op.digest == digest
    then (r, existing op.sequence)
    else (r, refused (core_error CoreErrorKind.operation_conflict false id))
admit_found none r id digest outcome = admit_new r id digest outcome

-- `Registry::admit`
unfoldable pub admit : Registry → ℕ → ℕ → Sent → Registry × Admission
unfolding admit_found
admit r id digest outcome = admit_found (get id r.operations) r id digest outcome

-- `send_replace` on the operation of an id, where there is one
unfoldable pub set_in : ℕ → OperationState → Table → Table
set_in id state [] = []
set_in id state ((j, op) ∷ table) =
    let rest = set_in id state table in
    if j == id then (j, record op { state = state }) ∷ rest else (j, op) ∷ rest

-- `Registry::set`
unfoldable pub set : Registry → ℕ → OperationState → Registry
unfolding set_in
set r id state = record r { operations = set_in id state r.operations }

-- `Registry::get`
unfoldable pub state_of : Registry → ℕ → Option OperationState
unfolding get
state_of r id = elim (get id r.operations) [ none ↦ none | some op ↦ some op.state ]
