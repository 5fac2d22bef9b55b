-- ===== src/Manager/Publish/Epochs.antt =====
-- The status that watchers see, and the epoch that it is about (manager/publish.rs).
use chimera_service.Base.{ℕ, ◌≡◌, Option, none, some}
use chimera_service.Manager.State.{InstanceStatus, CoreStatus}
use chimera_service.Manager.Publish.{instance_core_state}

abbrev pub status_epoch : CoreStatus → Option ℕ
status_epoch status = elim status.revision [ none ↦ none | some r ↦ some r.epoch ]

-- What the status says of the instance is what the event says.
pub record Says (status : CoreStatus) (epoch : ℕ) (event : InstanceStatus) : Type 0 where
  pub state : status.state ≡ instance_core_state epoch event.state
  pub health : status.health ≡ event.health
  pub instance_id : status.instance_id ≡ event.instance_id
