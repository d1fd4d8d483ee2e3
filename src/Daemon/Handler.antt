-- ===== src/Daemon/Handler.antt =====
-- crates/are-daemon/src/handler.rs: authorisation of requests, and the errors that clients see.
-- Logging is left out.
pub mod Authorize
pub mod Serve
pub mod Files
pub mod Dispatch
use are.Base.{
  refl, ite, Bool, true, false, not, List, [], Option, none, some, Str, ascii, Message, lit, bytes,
  num, Result, ok, ◌>>=◌, ◌>>◌, ensure, map_err, ok_or, if◌then◌else◌, unwrap_or, ◌==◌, str_eq,
}
use are.Base.Dict.{Dict, get}
use are.Core.Error.{◌<+>◌, to_string}
use are.Core.Ids.{EnvironmentId, SessionId, ProcessId}
use are.Core.Grant.{
  Grant, FsGrantKind, read, write, list, grants_allow_fs, grants_allow_exec, grants_allow_inspect,
  grants_allow_terminate, normalize_program_name,
}
use are.Core.Request.{
  PathRequest, WriteFileRequest, RenameRequest, ExecuteRequest, ProcessRequest,
  TerminateProcessRequest, CreateSessionRequest, SessionRequest, ListSessionsRequest, SessionInfo,
  ProcessState, validate_path, validate_write_file, validate_rename, validate_execute,
}
use are.Core.Capability.{CapabilitySet}
use are.Core.Platform.{Platform}
pub use are.Core.Info.{
  RpcError, invalid_request, unknown_request_type, not_found, denied_executable, session_not_found,
  session_expired, forbidden, capacity_exceeded, conflict, internal_error,
}
pub use are.Daemon.Auth.{Caller}
use are.Daemon.Os.{Os}
use are.Daemon.Grants.{GrantsTable, grants_for, is_known}
use are.Daemon.Fs.{FilesystemConfig, FsError, resolve, resolve_no_follow, relativize, creation_rel}
use are.Daemon.Session.{
  SessionManager, SessionError, create_owned, get_owned, list_owned, terminate_owned,
}
use are.Daemon.Process.{
  ProcessManager, ProcessError, check_policy, start, status, terminate, kill_session_processes,
}

pub record DaemonState : Type 0 where
  pub environment_id : EnvironmentId
  pub machine_name : Str
  pub daemon_version : Str
  pub advertised_capabilities : CapabilitySet
  pub platform : Platform
  pub fs : Option FilesystemConfig
  pub proc : Option ProcessManager
  pub sessions : Option SessionManager
  pub grants : Option GrantsTable

unfoldable pub session_error_to_rpc : SessionError → RpcError
session_error_to_rpc (SessionError.invalid_request m) = invalid_request m
session_error_to_rpc (SessionError.environment_mismatch m) = invalid_request m
session_error_to_rpc (SessionError.not_found m) = session_not_found m
session_error_to_rpc (SessionError.expired m) = session_expired m
session_error_to_rpc (SessionError.too_many_sessions m) = capacity_exceeded m
session_error_to_rpc (SessionError.internal m) = internal_error m

unfoldable pub process_error_to_rpc : ProcessError → RpcError
process_error_to_rpc (ProcessError.invalid_request m) = invalid_request m
process_error_to_rpc (ProcessError.environment_mismatch m) = invalid_request m
process_error_to_rpc (ProcessError.denied_executable m) = denied_executable m
process_error_to_rpc (ProcessError.policy_denied m) = denied_executable m
process_error_to_rpc (ProcessError.too_many_processes m) = capacity_exceeded m
process_error_to_rpc (ProcessError.not_found m) = not_found m
process_error_to_rpc (ProcessError.io m) = internal_error m
process_error_to_rpc (ProcessError.internal m) = internal_error m

unfoldable pub fs_error_to_rpc : FsError → Str → RpcError
fs_error_to_rpc (FsError.invalid_path m) path = invalid_request (bytes path <+> lit ": " <+> m)
fs_error_to_rpc (FsError.filesystem_escape m) path =
    internal_error (lit "filesystem escape blocked: " <+> m)
fs_error_to_rpc (FsError.not_found m) path = not_found (bytes path <+> lit ": not found")
fs_error_to_rpc (FsError.conflict m) path = conflict (bytes path <+> lit ": " <+> m)
fs_error_to_rpc (FsError.permission_denied m) path =
    internal_error (bytes path <+> lit ": permission denied")
fs_error_to_rpc (FsError.not_a_directory m) path =
    internal_error (bytes path <+> lit ": not a directory")
fs_error_to_rpc (FsError.is_a_directory m) path =
    internal_error (bytes path <+> lit ": is a directory")
fs_error_to_rpc (FsError.file_too_large p size limit) path = invalid_request (
    lit "file too large: "
    <+> p
    <+> lit " is "
    <+> num size
    <+> lit " bytes, limit is "
    <+> num limit
    <+> lit " bytes")
fs_error_to_rpc (FsError.io m) path = internal_error (bytes path <+> lit ": I/O error: " <+> m)

-- `None`: no grants file, and every check passes.
unfoldable pub effective_grants : DaemonState → Caller → Option (List Grant)
effective_grants state caller = elim state.grants [
  | none ↦ none
  | some table ↦ elim caller [
    | some fingerprint ↦ some (unwrap_or (grants_for table fingerprint) [])
    | none ↦ some []
  ]
]

abbrev pub is_known_caller : GrantsTable → Caller → Bool
is_known_caller table none = false
is_known_caller table (some fingerprint) = is_known table fingerprint

unfoldable pub deny_unknown_principal : DaemonState → Caller → Result RpcError (Unit {0})
deny_unknown_principal state caller = elim state.grants [
  | none ↦ ok tt
  | some table ↦ ensure (is_known_caller table caller) (
      forbidden
        (lit "unknown principal: no grants for this client identity (GetEnvironmentInfo only)"))
]

abbrev pub scope_name : FsGrantKind → Str
scope_name read = ascii "filesystem.read"
scope_name write = ascii "filesystem.write"
scope_name list = ascii "filesystem.list"

unfoldable pub check_fs_grant :
    DaemonState → Caller → FsGrantKind → Str → Result RpcError (Unit {0})
check_fs_grant state caller kind rel = elim (effective_grants state caller) [
  | none ↦ ok tt
  | some grants ↦
      ensure (grants_allow_fs grants kind rel)
        (forbidden (bytes (scope_name kind) <+> lit " denied for '" <+> bytes rel <+> lit "'"))
]

unfoldable pub check_exec_grant : DaemonState → Caller → Str → Result RpcError (Unit {0})
check_exec_grant state caller program = elim (effective_grants state caller) [
  | none ↦ ok tt
  | some grants ↦ ensure (grants_allow_exec grants program) (
      forbidden
        (lit "process.execute denied for '" <+> bytes (normalize_program_name program) <+> lit "'"))
]

unfoldable pub check_inspect_grant : DaemonState → Caller → Result RpcError (Unit {0})
check_inspect_grant state caller = elim (effective_grants state caller) [
  | none ↦ ok tt
  | some grants ↦ ensure (grants_allow_inspect grants) (forbidden (lit "process.inspect denied"))
]

unfoldable pub check_terminate_grant : DaemonState → Caller → Result RpcError (Unit {0})
check_terminate_grant state caller = elim (effective_grants state caller) [
  | none ↦ ok tt
  | some grants ↦
      ensure (grants_allow_terminate grants) (forbidden (lit "process.terminate denied"))
]

unfoldable pub fs_rel_for_grant : Os → FilesystemConfig → Str → Bool → Result RpcError Str
fs_rel_for_grant os fs path follow_final = do
  canonical ←
      map_err (λ e. fs_error_to_rpc e path)
        (if follow_final then resolve os fs path else resolve_no_follow os fs path)
  ok_or (relativize fs canonical)
      (internal_error (lit "filesystem escape blocked: path escapes allowed boundary"))

abbrev pub wrong_environment : EnvironmentId → EnvironmentId → RpcError
wrong_environment requested own = invalid_request (
    lit "requested environment '"
    <+> bytes requested
    <+> lit "' does not match daemon environment '"
    <+> bytes own
    <+> lit "'")

unfoldable pub require_fs : DaemonState → EnvironmentId → Result RpcError FilesystemConfig
require_fs state environment_id = do
  ensure (environment_id == state.environment_id)
      (wrong_environment environment_id state.environment_id)
  ok_or state.fs (internal_error (lit "filesystem backend not configured"))

unfoldable pub require_proc : DaemonState → EnvironmentId → Result RpcError ProcessManager
require_proc state environment_id = do
  ensure (environment_id == state.environment_id)
      (wrong_environment environment_id state.environment_id)
  ok_or state.proc (internal_error (lit "process backend not configured"))

-- `handle_read_file`, `handle_list_directory` and `handle_get_file_metadata`, each with its kind of
-- grant, up to the operation of the backend on the path.
unfoldable pub authorize_read :
    Os → DaemonState → Caller → FsGrantKind → PathRequest → Result RpcError (Unit {0})
unfolding require_fs fs_rel_for_grant
authorize_read os state caller kind req = do
  fs ← require_fs state req.environment_id
  deny_unknown_principal state caller
  rel ← fs_rel_for_grant os fs req.path true
  check_fs_grant state caller kind rel

unfoldable pub authorize_write_file :
    Os → DaemonState → Caller → WriteFileRequest → Result RpcError (Unit {0})
authorize_write_file os state caller req = do
  map_err (λ e. invalid_request (to_string e)) (validate_write_file req)
  fs ← require_fs state req.environment_id
  deny_unknown_principal state caller
  rel ← fs_rel_for_grant os fs req.path true
  check_fs_grant state caller write rel

unfoldable pub authorize_create_directory :
    DaemonState → Caller → PathRequest → Result RpcError (Unit {0})
authorize_create_directory state caller req = do
  map_err (λ e. invalid_request (to_string e)) (validate_path req)
  fs ← require_fs state req.environment_id
  deny_unknown_principal state caller
  rel ← map_err (λ e. fs_error_to_rpc e req.path) (creation_rel req.path)
  check_fs_grant state caller write rel

unfoldable pub authorize_rename :
    Os → DaemonState → Caller → RenameRequest → Result RpcError (Unit {0})
authorize_rename os state caller req = do
  map_err (λ e. invalid_request (to_string e)) (validate_rename req)
  fs ← require_fs state req.environment_id
  deny_unknown_principal state caller
  rel_src ← fs_rel_for_grant os fs req.src false
  check_fs_grant state caller write rel_src
  rel_dst ← fs_rel_for_grant os fs req.dst false
  check_fs_grant state caller write rel_dst

unfoldable pub authorize_delete_file :
    Os → DaemonState → Caller → PathRequest → Result RpcError (Unit {0})
authorize_delete_file os state caller req = do
  map_err (λ e. invalid_request (to_string e)) (validate_path req)
  fs ← require_fs state req.environment_id
  deny_unknown_principal state caller
  rel ← fs_rel_for_grant os fs req.path false
  check_fs_grant state caller write rel
