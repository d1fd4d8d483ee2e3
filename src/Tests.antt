-- ===== src/Tests.antt =====
-- Runs of the model on concrete inputs.
pub mod Data
pub mod Files
mod Dispatch
pub mod Supervise
pub mod Core
mod Cli
pub mod Session
pub mod Process
pub mod Handler
pub mod Requests
