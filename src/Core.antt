-- ===== src/Core.antt =====
-- The source-agnostic core, crates/core/src: the vocabularies, the background tasks, and the
-- observation record and store.
pub mod Text
pub mod Sanitize
pub mod Status
pub mod Kind
pub mod Task
pub mod Observation
pub mod Payload
pub mod Command
pub mod Presence
