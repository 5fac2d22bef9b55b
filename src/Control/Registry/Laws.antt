-- ===== src/Control/Registry/Laws.antt =====
-- Laws of the table of operations (control/executor.rs).
use chimera_service.Base.{
  ℕ, ◌≤◌, ◌<◌, ◌≡◌, refl, Option, none, some, [], ◌∷◌, arith, ◌==◌, if◌then◌else◌, length,
}
use chimera_service.Control.Registry.{OperationState, Operation, Table, get, remove, insert, set_in}

pub get-remove : (k j : ℕ) (t : Table) → get j (remove k t) ≡ (if k == j then none else get j t)
unfolding get remove
get-remove k j [] = ground arith
get-remove k j ((i, op) ∷ t) = ground (arith, get-remove k j t)

pub get-insert :
    (k j : ℕ) (op : Operation) (t : Table)
    → get j (insert k op t) ≡ (if k == j then some op else get j t)
unfolding insert
get-insert k j op t = ground (arith, get-remove k j t, get_head)
  where
    get_head : get j ((k, op) ∷ remove k t) ≡ (if k == j then some op else get j (remove k t))
    get_head = unfold get in refl

pub length-remove : (k : ℕ) (t : Table) → length (remove k t) ≤ length t
unfolding remove
length-remove k [] = omega arith
length-remove k ((i, op) ∷ t) = ground (arith, length-remove k t)

pub length-remove-some :
    (k : ℕ) (t : Table) (op : Operation) → get k t ≡ some op → length (remove k t) < length t
unfolding remove get
length-remove-some k [] op h = cc
length-remove-some k ((i, o) ∷ t) op h =
    ground (arith, length-remove-some k t op, length-remove k t)

abbrev pub with_state : OperationState → Option Operation → Option Operation
with_state state none = none
with_state state (some op) = some (record op { state = state })

pub get-set_in :
    (k j : ℕ) (state : OperationState) (t : Table)
    → get j (set_in k state t) ≡ (if k == j then with_state state (get j t) else get j t)
unfolding get set_in
get-set_in k j state [] = ground arith
get-set_in k j state ((i, op) ∷ t) = ground (arith, get-set_in k j state t)

pub length-set_in :
    (k : ℕ) (state : OperationState) (t : Table) → length (set_in k state t) ≡ length t
unfolding set_in
length-set_in k state [] = refl
length-set_in k state ((i, op) ∷ t) = ground (arith, length-set_in k state t)
