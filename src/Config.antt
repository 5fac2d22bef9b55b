-- ===== src/Config.antt =====
-- The configuration of a core (crates/chimera-core-manager/src/config).
pub mod Diff
