-- ===== src/Manager/State.antt =====
-- The state of the core manager: `Ctrl`, `EpochPlan`, `Active` and `EpochAllocator` of
-- crates/chimera-core-manager/src/manager/mod.rs, the statuses of state.rs, and the monad that the
-- transactions are written in. A transaction holds the control lock, so it is a function on the
-- state. What it learns from outside is an answer of the environment: the answers may change from
-- one to the next, so each is a function of the number of answers given before. Texts of errors
-- are left out; a spec, a document, a controller and a uuid are numbers that stand for them.
use chimera_service.Base.{ℕ, ◌+◌, Bool, true, false, Option, none, List}
use Prim.Native.String.{String}
use chimera_service.Base.Text.{Bytes}
use native.Mathlib.Decide.{ℕ_discrete}
use chimera_service.Errors.{Error, RevisionId}

pub data Result (A : Type 0) : Type 0 where
  ok : A → Result A
  err : Error → Result A

pub data HealthState : Type 0 where
  starting healthy unhealthy : HealthState

pub record HealthStatus : Type 0 where
  pub state : HealthState
  pub changed_at : ℕ
  pub consecutive_failures : ℕ
  pub last_error : Option Bytes
  pub last_success_at : Option ℕ

-- `==` on `HealthState`
abbrev pub same_health_state : HealthState → HealthState → Bool
same_health_state HealthState.starting HealthState.starting = true
same_health_state HealthState.healthy HealthState.healthy = true
same_health_state HealthState.unhealthy HealthState.unhealthy = true
same_health_state _ _ = false

-- `HealthStatus::starting`
abbrev pub starting_health : ℕ → HealthStatus
starting_health now = record {
  state = HealthState.starting;
  changed_at = now;
  consecutive_failures = 0;
  last_error = none;
  last_success_at = none;
}

pub data StopReason : Type 0 where
  finished user : StopReason
  error : Error → StopReason

pub data InstanceState : Type 0 where
  starting : InstanceState
  running : (pid : ℕ) → InstanceState
  restarting : (attempt : ℕ) → InstanceState
  stopping : InstanceState
  stopped : StopReason → InstanceState

-- `InstanceState::is_terminal`
abbrev pub is_terminal : InstanceState → Bool
is_terminal (InstanceState.stopped _) = true
is_terminal _ = false

pub record InstanceStatus : Type 0 where
  pub instance_id : Option ℕ
  pub state : InstanceState
  pub health : Option HealthStatus

pub data CoreState : Type 0 where
  stopped : Option StopReason → CoreState
  starting : (epoch : ℕ) → CoreState
  running : (epoch pid : ℕ) → CoreState
  restarting : (epoch attempt : ℕ) → CoreState
  switching : (source : Option ℕ) (target : ℕ) → CoreState
  stopping : (epoch : ℕ) → CoreState

pub HealthStatus-discrete : Discrete (Option HealthStatus)
HealthStatus-discrete = hlevel (ℕ_discrete)

pub CoreState-discrete : Discrete CoreState
CoreState-discrete = hlevel (ℕ_discrete)

pub record EpochPlan : Type 0 where
  pub source_spec : ℕ
  pub revision : RevisionId
  pub controller : ℕ
  pub effective_document : ℕ

pub record CoreStatus : Type 0 where
  pub state : CoreState
  pub changed_at : ℕ
  pub instance_id : Option ℕ
  pub health : Option HealthStatus
  -- the spec and the controller of a plan
  pub spec : Option ℕ
  pub controller : Option ℕ
  pub revision : Option RevisionId

pub record QuarantinedEpoch : Type 0 where
  pub epoch : ℕ
  pub reason : Error
  pub death_proven : Bool

pub data DnsOverrideState : Type 0 where
  applied restore_pending : DnsOverrideState

pub record DnsOverrideRecord : Type 0 where
  pub interface : String
  pub previous : List String
  pub applied : List String
  pub runtime_epoch : ℕ
  pub owner_generation : Option ℕ
  pub state : DnsOverrideState

-- `OrphanReapOutcome`, or an error
pub data Reaped : Type 0 where
  already_exited killed not_found failed : Reaped

pub data ConfigChange : Type 0 where
  noop patch reload replace : ConfigChange

pub data OverlapBlock : Type 0 where
  dns_listen inbound_surface : OverlapBlock

-- what the transactions learn from outside
pub record Environment : Type 0 where
  pub now_ms : ℕ → ℕ
  pub load_snapshot : ℕ → Result ℕ
  -- the prepare step of an epoch from a spec and a snapshot: what the plan has of it
  pub prepare : ℕ → ℕ → ℕ → Result EpochPlan
  pub prepare_graceful : ℕ → ℕ → ℕ → Result EpochPlan
  pub prepare_apply : ℕ → ℕ → ℕ → Result EpochPlan
  pub validate_launchable : ℕ → ℕ → Option Error
  -- whether the features of a spec have local IPC
  pub resolve_features : ℕ → ℕ → Result Bool
  -- what the specs and the documents say: an HTTP controller, the kind `Mihomo`, what keeps two
  -- cores from running at once
  pub keep_http_controller : ℕ → Bool
  pub has_http : ℕ → Bool
  pub is_mihomo : ℕ → Bool
  pub overlap_block : ℕ → Option OverlapBlock
  pub native_store : Bool
  -- what the change from the old plan to the new one asks for
  pub classify : EpochPlan → EpochPlan → Result ConfigChange
  pub backup : ℕ → Option Error
  pub restore_backup : ℕ → Result Bool
  pub remove_backup : ℕ → Option Error
  -- the replacement of a config in the store; whether one that went well is uncertain to last
  pub commit_replace : ℕ → Result Bool
  -- the running core took the new config, within the timeout
  pub reconciled : ℕ → Bool
  pub instance_status : ℕ → InstanceStatus
  pub pid : ℕ → Option ℕ
  pub launch : ℕ → Option Error
  pub wait_ready : ℕ → Option Error
  pub stop_and_confirm_dead : ℕ → Option Error
  pub cleanup_epoch : ℕ → Option Error
  pub reap_epoch_pid_file : ℕ → Reaped
  -- the host's DNS controller: whether there is one, its policy, its calls (`none` and `false` are an
  -- error or the timeout), and whether the record could be written
  pub has_dns : Bool
  pub desired : ℕ → Option (List String)
  pub dns_apply : ℕ → Option DnsOverrideRecord
  pub dns_restore : ℕ → Bool
  pub persist : ℕ → Bool

pub record Manager : Type 0 where
  pub last_epoch : ℕ
  -- the plan of the active instance
  pub current : Option EpochPlan
  pub last_spec : Option ℕ
  pub quarantine : List QuarantinedEpoch
  pub dns_record : Option DnsOverrideRecord
  pub status : CoreStatus
  pub config_commits : Option (ℕ × RevisionId)
  pub log_sink : Bool
  -- the answers that were read
  pub clock : ℕ
  -- not of the code: the processes of an epoch that a launch brought up and that are not proven dead; the
  -- launches of an epoch that answered `StopUnconfirmed`, each of which may have left a process; and
  -- whether the host may have an override of its resolver
  pub processes : ℕ → ℕ
  pub unconfirmed : ℕ → ℕ
  pub overridden : Bool

abbrev pub Transaction : Type 0 → Type 0
Transaction A = Manager → A × Manager

infixl 5 ◌>>=◌ ◌>>◌
unfoldable pub ◌>>=◌ : {A B : Type 0} → Transaction A → (A → Transaction B) → Transaction B
(m >>= f) s = let (a, s') = m s in f a s'

abbrev pub ◌>>◌ : {A B : Type 0} → Transaction A → Transaction B → Transaction B
m >> k = m >>= λ _. k

abbrev pub done : {A : Type 0} → A → Transaction A
done a s = (a, s)

abbrev pub modify : (Manager → Manager) → Transaction Unit
modify f s = (tt, f s)

-- the next answer of the environment
abbrev pub ask : {A : Type 0} → (ℕ → A) → Transaction A
ask answer s = (answer s.clock, record s { clock = s.clock + 1 })

abbrev pub read : Transaction Manager
read s = (s, s)
