-- ===== src/Errors/Wire.antt =====
-- The wire spelling of the error kinds (error_kind.rs), and the kinds of the manager's errors.
use Prim.Native.String.{String}
use text.Mathlib.TextEquality.{eq_iff}
use chimera_service.Base.{ℕ, ◌≡◌, refl, subst, ◌↔◌, false, Option, some, List, [], ◌∷◌, arith}
use chimera_service.Errors.{
  CoreErrorKind, all_kinds, as_str, from_wire, find_kind, Error, from_domain,
}

-- Every kind is read back from its own wire string, so no two kinds share one, and a string that
-- names a kind is that kind's own: `from_wire` and `as_str` are inverse on the known kinds.
pub from_wire-as_str : (k : CoreErrorKind) → from_wire (as_str k) ≡ some k
unfolding from_wire as_str
from_wire-as_str CoreErrorKind.not_started = refl
from_wire-as_str CoreErrorKind.already_running = refl
from_wire-as_str CoreErrorKind.revision_conflict = refl
from_wire-as_str CoreErrorKind.quarantined = refl
from_wire-as_str CoreErrorKind.config_check_failed = refl
from_wire-as_str CoreErrorKind.config_not_found = refl
from_wire-as_str CoreErrorKind.binary_not_found = refl
from_wire-as_str CoreErrorKind.invalid_config = refl
from_wire-as_str CoreErrorKind.controller_missing = refl
from_wire-as_str CoreErrorKind.apply_failed = refl
from_wire-as_str CoreErrorKind.apply_rollback_failed = refl
from_wire-as_str CoreErrorKind.stop_unconfirmed = refl
from_wire-as_str CoreErrorKind.native_store_unavailable = refl
from_wire-as_str CoreErrorKind.shutting_down = refl
from_wire-as_str CoreErrorKind.queue_full = refl
from_wire-as_str CoreErrorKind.operation_conflict = refl
from_wire-as_str CoreErrorKind.backend_unavailable = refl
from_wire-as_str CoreErrorKind.internal = refl

find_kind_sound :
    (value : String) (kinds : List CoreErrorKind) (k : CoreErrorKind)
    → find_kind value kinds ≡ some k
    → as_str k ≡ value
unfolding find_kind
find_kind_sound value [] k h = cc
find_kind_sound value (j ∷ kinds) k h =
    ground (arith, eq_iff (as_str j) value, find_kind_sound value kinds k)

-- A wire string is read as a kind exactly if it is the spelling of that kind; any other
-- string is read as no kind.
pub from_wire_iff :
    (value : String) (k : CoreErrorKind) → (from_wire value ≡ some k) ↔ (as_str k ≡ value)
unfolding from_wire
from_wire_iff value k = (
  find_kind_sound value all_kinds k,
  λ e. subst (λ v. find_kind v all_kinds ≡ some k) e (unfold from_wire in from_wire-as_str k),
)

-- An error of the manager is never reported as retryable: no domain error has one of the two kinds
-- that are, however often it is wrapped in a durability warning; and a wrapped error keeps
-- the kind of the error inside.
pub from_domain_not_retryable :
    (e : Error) (id : Option ℕ)
    → ((from_domain e id).retryable ≡ false)
      × ((from_domain (Error.durability_uncertain e) id) ≡ from_domain e id)
unfolding from_domain
from_domain_not_retryable (Error.durability_uncertain e) id =
    ((from_domain_not_retryable e id).0, refl)
from_domain_not_retryable e id = ground arith
