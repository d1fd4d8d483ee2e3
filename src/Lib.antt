-- ===== src/Lib.antt =====
-- ARE, an agent runtime environment: a daemon serves authenticated clients with files, sessions and
-- processes inside configured boundaries. This library models what decides access and what keeps
-- the daemon's tables.
--
-- A request comes to the handler (Daemon.Handler, crates/are-daemon/src/handler.rs) with the
-- fingerprint of its caller. The handler looks the caller up in the grants table (Daemon.Grants,
-- crates/are-daemon/src/grants.rs), whose entries are built of grants (Core.Grant,
-- crates/are-core/src/grant.rs). A path goes through the filesystem boundary (Daemon.Fs,
-- crates/are-daemon/src/fs.rs), which resolves it below an allowed root; the path relative to that
-- root is what the grants are checked on. Sessions (Daemon.Session, crates/are-daemon/src/session.rs)
-- own processes (Daemon.Process, crates/are-daemon/src/process.rs); a session that goes reports its
-- id, and the handler kills its processes. Requests are validated first (Core.Request,
-- crates/are-core/src/request.rs; Core.Ids, crates/are-core/src/ids.rs). Core.Capability and
-- Core.Identity (crates/are-core/src/capability.rs, identity.rs) are what an environment advertises
-- and how a machine enrols.
--
-- A handler of a request on files (Daemon.Handler.Files) authorises the path in the tree as it is,
-- other processes act, and the operation resolves the path again, as in the source.
--
-- The supervisor of a child, the readers of its pipes and `terminate` are a step relation
-- (Daemon.Process.Supervise), and `wait` (Daemon.Process.Wait) runs over what its rounds find.
--
-- Daemon.Handler.Dispatch gives each request (Core.Info, crates/are-core/src/info.rs) to its handler.
-- A connection (Daemon.Server) is served as the caller whose certificate it has shown (Daemon.Auth,
-- crates/are-daemon/src/auth.rs). Daemon.Config and Daemon.Main (crates/are-daemon/src/lib.rs,
-- main.rs) build the daemon's state. Client.Connection (crates/are-client/src/connection.rs) has the
-- client's methods, Adapter (crates/are-agent-adapter/src) what an agent calls, and Cli
-- (crates/are-cli/src/main.rs) the commands, with what is outside in the record Console.
--
-- Requests and responses travel as frames (Daemon.Framing, crates/are-daemon/src/framing.rs;
-- Daemon.Server, crates/are-daemon/src/server.rs; Client, crates/are-client/src/framing.rs) over a
-- stream of bytes (Wire) whose calls can fail; the JSON of a type is a parameter.
--
-- Each function has the name of the source's. A manager that the source mutates is passed in and
-- given back. An operation is one critical section of its lock: handle_execute reads the process
-- manager from the state that is left by the session check, as the source does through its `Arc`.
-- The time is an argument (`now`): seconds in sessions, nanoseconds in the process table. Text is a
-- list of UTF-8 bytes, a newtype of text is its text, a `HashMap` is an association list whose order
-- stands for the order of iteration. An error keeps its variant and its text as formatted pieces.
-- What the operating system answers (canonical paths, directories, spawning, random bytes) is the
-- record Daemon.Os, fixed during a request; that `canonicalize` answers canonical paths is a
-- hypothesis where it is needed. The operations on files (Daemon.Fs.Files, Write and Change) run on
-- Daemon.Disk: a tree of entries by canonical path, where each call of the file system is one step,
-- other processes change the tree between the steps, and any call can fail, a write partly done.
-- Links above the last name are gone after the resolution, times and digests are parameters, and a
-- directory is read in one step. Paths on the host are those of Unix (Daemon.Paths, after
-- std::path). The loops that draw an id or the name of a temporary file have eight rounds, as in the source; no
-- other fuel is used.
--
-- Not modelled: logging, locks poisoned by a panic, JSON, TLS and sockets, the accept loop, the
-- parsing of flags; of process.rs the wait of terminate for the child, whose outcome the source
-- drops.
pub mod Base
pub mod Core
pub mod Wire
pub mod Daemon
pub mod Client
pub mod Adapter
pub mod Cli
pub mod Tests
