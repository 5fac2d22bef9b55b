-- ===== src/Log.antt =====
-- The normalisation of a core's console output (log.rs of crates/chimera-core-manager).
pub mod Frame
pub mod Ansi
pub mod Logfmt
pub mod Bound
pub mod Parser
pub mod Headers
pub mod Summary
mod Examples
