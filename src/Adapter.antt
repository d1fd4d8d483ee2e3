-- ===== src/Adapter.antt =====
-- crates/are-agent-adapter/src/lib.rs and error.rs: what an agent sees of an environment. A handle
-- holds the client; each call makes a connection of its own, which is an argument (`Link`).
mod Types
pub mod Process
pub mod Session
pub mod Environment
unfoldable pub use Types.*
