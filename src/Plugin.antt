-- ===== src/Plugin.antt =====
-- The plugin's domain logic, crates/plugin/src.
pub mod StatusStore
pub mod Permission
pub mod Ledger
pub mod NotifyRules
pub mod Displays
pub mod Rollup
pub mod TabNamer
pub mod RadarState
pub mod Sessions
