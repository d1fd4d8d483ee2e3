-- ===== src/Daemon.antt =====
-- crates/are-daemon: the daemon's components.
pub mod Auth
pub mod Grants
pub mod Os
pub mod Paths
pub mod Disk
pub mod Fs
pub mod Process
pub mod Session
pub mod Handler
pub mod Framing
pub mod Server
pub mod Config
pub mod Main
