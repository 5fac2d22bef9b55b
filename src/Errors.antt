-- ===== src/Errors.antt =====
-- crates/chimera-core-metadata/src/error_kind.rs and crates/chimera-core-manager/src/error.rs: the
-- kinds of failure with their spelling on the wire, and the errors of the core manager with their
-- kinds. The texts that an error carries are left out, except for those that the code looks at.
pub mod Wire
mod Examples
use Prim.Native.String.{String}
use text.Mathlib.Text.{◌==◌ as str_eq}
use chimera_service.Base.{ℕ, Bool, true, false, Option, none, some, List, [], ◌∷◌, if◌then◌else◌}

pub data CoreErrorKind : Type 0 where
  not_started : CoreErrorKind
  already_running : CoreErrorKind
  revision_conflict : CoreErrorKind
  quarantined : CoreErrorKind
  config_check_failed : CoreErrorKind
  config_not_found : CoreErrorKind
  binary_not_found : CoreErrorKind
  invalid_config : CoreErrorKind
  controller_missing : CoreErrorKind
  apply_failed : CoreErrorKind
  apply_rollback_failed : CoreErrorKind
  stop_unconfirmed : CoreErrorKind
  native_store_unavailable : CoreErrorKind
  shutting_down : CoreErrorKind
  queue_full : CoreErrorKind
  operation_conflict : CoreErrorKind
  backend_unavailable : CoreErrorKind
  internal : CoreErrorKind

pub CoreErrorKind-discrete : Discrete CoreErrorKind
CoreErrorKind-discrete = hlevel

-- `CoreErrorKind::ALL`
abbrev pub all_kinds : List CoreErrorKind
all_kinds =
    not_started ∷ already_running ∷ revision_conflict ∷ quarantined ∷ config_check_failed
    ∷ config_not_found ∷ binary_not_found ∷ invalid_config ∷ controller_missing ∷ apply_failed
    ∷ apply_rollback_failed ∷ stop_unconfirmed ∷ native_store_unavailable ∷ shutting_down
    ∷ queue_full ∷ operation_conflict ∷ backend_unavailable ∷ internal ∷ []

unfoldable pub as_str : CoreErrorKind → String
as_str not_started = "not_started"
as_str already_running = "already_running"
as_str revision_conflict = "revision_conflict"
as_str quarantined = "quarantined"
as_str config_check_failed = "config_check_failed"
as_str config_not_found = "config_not_found"
as_str binary_not_found = "binary_not_found"
as_str invalid_config = "invalid_config"
as_str controller_missing = "controller_missing"
as_str apply_failed = "apply_failed"
as_str apply_rollback_failed = "apply_rollback_failed"
as_str stop_unconfirmed = "stop_unconfirmed"
as_str native_store_unavailable = "native_store_unavailable"
as_str shutting_down = "shutting_down"
as_str queue_full = "queue_full"
as_str operation_conflict = "operation_conflict"
as_str backend_unavailable = "backend_unavailable"
as_str internal = "internal"

unfoldable pub default_retryable : CoreErrorKind → Bool
default_retryable queue_full = true
default_retryable backend_unavailable = true
default_retryable _ = false

-- `iter().copied().find(..)`
find_kind : String → List CoreErrorKind → Option CoreErrorKind
find_kind value [] = none
find_kind value (kind ∷ kinds) =
    if str_eq (as_str kind) value then some kind else find_kind value kinds

unfoldable pub from_wire : String → Option CoreErrorKind
unfolding find_kind
from_wire value = find_kind value all_kinds

-- an `Error` of the manager; `RevisionId` is the epoch, the generation and the hash
pub record RevisionId : Type 0 where
  pub epoch : ℕ
  pub generation : ℕ
  pub effective_hash : ℕ

pub data Error : Type 0 where
  already_running not_started config_not_found binary_not_found : Error
  core_version_probe_failed controller_missing required_local_ipc_unsupported : Error
  config_check_failed invalid_config invalid_manager_options invalid_health_policy : Error
  unsafe_runtime_artifact runtime_directory_owned stop_unconfirmed : Error
  manager_quarantined : (epoch : ℕ) → Error
  revision_conflict : (expected : RevisionId) (actual : Option RevisionId) → Error
  apply_failed apply_rollback_failed : Error
  durability_uncertain : (source : Error) → Error
  startup_timeout startup_failed native_store process api yaml io : Error

-- `Error::kind`
unfoldable pub kind : Error → Option CoreErrorKind
kind Error.already_running = some CoreErrorKind.already_running
kind Error.not_started = some CoreErrorKind.not_started
kind Error.config_not_found = some CoreErrorKind.config_not_found
kind Error.binary_not_found = some CoreErrorKind.binary_not_found
kind Error.controller_missing = some CoreErrorKind.controller_missing
kind Error.config_check_failed = some CoreErrorKind.config_check_failed
kind Error.invalid_config = some CoreErrorKind.invalid_config
kind Error.yaml = some CoreErrorKind.invalid_config
kind Error.stop_unconfirmed = some CoreErrorKind.stop_unconfirmed
kind Error.native_store = some CoreErrorKind.native_store_unavailable
kind (Error.manager_quarantined _) = some CoreErrorKind.quarantined
kind (Error.revision_conflict _ _) = some CoreErrorKind.revision_conflict
kind Error.apply_failed = some CoreErrorKind.apply_failed
kind Error.apply_rollback_failed = some CoreErrorKind.apply_rollback_failed
kind (Error.durability_uncertain source) = kind source
kind Error.core_version_probe_failed = none
kind Error.required_local_ipc_unsupported = none
kind Error.invalid_manager_options = none
kind Error.invalid_health_policy = none
kind Error.unsafe_runtime_artifact = none
kind Error.runtime_directory_owned = none
kind Error.startup_timeout = none
kind Error.startup_failed = none
kind Error.process = none
kind Error.api = none
kind Error.io = none

-- `CoreError`, the error of the control plane, without its message; an operation is named by its id
pub record CoreError : Type 0 where
  pub error_kind : Option CoreErrorKind
  pub retryable : Bool
  pub operation_id : Option ℕ

-- `CoreError::new(kind, ..).with_operation(id)`
abbrev pub core_error : CoreErrorKind → Bool → ℕ → CoreError
core_error k retry id = record { error_kind = some k; retryable = retry; operation_id = some id }

abbrev retryable_kind : Option CoreErrorKind → Bool
unfolding default_retryable
retryable_kind none = false
retryable_kind (some k) = default_retryable k

-- `CoreError::from_domain`
unfoldable pub from_domain : Error → Option ℕ → CoreError
unfolding kind default_retryable
from_domain error id = record {
  error_kind = kind error;
  retryable = retryable_kind (kind error);
  operation_id = id;
}
