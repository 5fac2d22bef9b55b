-- ===== src/Control.antt =====
-- The control plane of the core manager: crates/chimera-core-manager/src/control.
pub mod Registry
pub mod Digest
pub mod Executor
