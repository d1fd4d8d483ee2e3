-- ===== src/Core.antt =====
-- crates/are-core: the pure data and validation that the daemon rests on.
pub mod Error
pub mod Ids
pub mod Grant
pub mod Request
pub mod Platform
pub mod Info
pub mod Capability
pub mod Identity
