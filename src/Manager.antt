-- ===== src/Manager.antt =====
-- The core manager: crates/chimera-core-manager/src/manager.
pub mod State
pub mod Publish
pub mod Quarantine
pub mod Dns
pub mod Start
pub mod Stop
pub mod Switching
pub mod Graceful
pub mod Switch
pub mod Apply
pub mod Reconcile
pub mod Commands
pub mod Closed
mod Examples
