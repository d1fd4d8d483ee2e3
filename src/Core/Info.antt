-- ===== src/Core/Info.antt =====
-- crates/are-core/src/info.rs: the requests and responses as they travel. The requests that have the
-- same fields share a type, and a response with one field is that field (Core.Request).
use are.Base.{ℕ, Bool, List, Option, Str, Message, lit, is_empty, Result, ok, err, if◌then◌else◌}
use are.Core.Error.{CoreError, ◌<+>◌}
use are.Core.Error
use are.Core.Ids.{EnvironmentId, ProcessId}
use are.Core.Capability.{CapabilitySet}
use are.Core.Platform.{Platform}
use are.Core.Request.{
  FileMetadata, DirectoryEntry, PathRequest, WriteFileRequest, RenameRequest, ExecuteRequest,
  ProcessRequest, TerminateProcessRequest, WaitProcessRequest, CreateSessionRequest, SessionRequest,
  ListSessionsRequest, SessionInfo, ProcessState, WaitProcessResponse,
}

pub record GetEnvironmentInfoRequest : Type 0 where
  pub environment_id : EnvironmentId

unfoldable pub validate_environment_info : GetEnvironmentInfoRequest → Result CoreError (Unit {0})
validate_environment_info req =
    if is_empty req.environment_id
    then err (Error.invalid_request (lit "environment_id must not be empty"))
    else ok tt

pub record GetEnvironmentInfoResponse : Type 0 where
  pub environment_id : EnvironmentId
  pub machine_name : Str
  pub operating_system : Str
  pub daemon_version : Str
  pub advertised_capabilities : CapabilitySet
  pub platform : Platform
  pub caller_fingerprint : Option Str

pub data RpcRequest : Type 0 where
  get_environment_info : GetEnvironmentInfoRequest → RpcRequest
  read_file : PathRequest → RpcRequest
  write_file : WriteFileRequest → RpcRequest
  create_directory : PathRequest → RpcRequest
  rename : RenameRequest → RpcRequest
  delete_file : PathRequest → RpcRequest
  list_directory : PathRequest → RpcRequest
  get_file_metadata : PathRequest → RpcRequest
  execute : ExecuteRequest → RpcRequest
  process_status : ProcessRequest → RpcRequest
  terminate_process : TerminateProcessRequest → RpcRequest
  wait_process : WaitProcessRequest → RpcRequest
  create_session : CreateSessionRequest → RpcRequest
  get_session : SessionRequest → RpcRequest
  list_sessions : ListSessionsRequest → RpcRequest
  terminate_session : SessionRequest → RpcRequest

pub data RpcResponsePayload : Type 0 where
  get_environment_info : GetEnvironmentInfoResponse → RpcResponsePayload
  read_file : List ℕ × FileMetadata → RpcResponsePayload
  write_file : FileMetadata → RpcResponsePayload
  create_directory : FileMetadata → RpcResponsePayload
  rename : FileMetadata → RpcResponsePayload
  delete_file : Bool → RpcResponsePayload
  list_directory : List DirectoryEntry → RpcResponsePayload
  get_file_metadata : FileMetadata → RpcResponsePayload
  execute : ProcessId → RpcResponsePayload
  process_status : ProcessState → RpcResponsePayload
  terminate_process : Bool → RpcResponsePayload
  wait_process : WaitProcessResponse → RpcResponsePayload
  create_session : SessionInfo → RpcResponsePayload
  get_session : SessionInfo → RpcResponsePayload
  list_sessions : List SessionInfo → RpcResponsePayload
  terminate_session : ℕ → RpcResponsePayload

pub data RpcError : Type 0 where
  invalid_request : Message → RpcError
  unknown_request_type : Message → RpcError
  not_found : Message → RpcError
  denied_executable : Message → RpcError
  session_not_found : Message → RpcError
  session_expired : Message → RpcError
  forbidden : Message → RpcError
  capacity_exceeded : Message → RpcError
  conflict : Message → RpcError
  internal_error : Message → RpcError

-- The `Display` text of an error.
unfoldable pub rpc_error_text : RpcError → Message
rpc_error_text (invalid_request m) = lit "invalid request: " <+> m
rpc_error_text (unknown_request_type m) = lit "unknown request type: " <+> m
rpc_error_text (not_found m) = lit "not found: " <+> m
rpc_error_text (denied_executable m) = lit "executable denied by policy: " <+> m
rpc_error_text (session_not_found m) = lit "session not found: " <+> m
rpc_error_text (session_expired m) = lit "session expired: " <+> m
rpc_error_text (forbidden m) = lit "forbidden: " <+> m
rpc_error_text (capacity_exceeded m) = lit "capacity exceeded: " <+> m
rpc_error_text (conflict m) = lit "conflict: " <+> m
rpc_error_text (internal_error m) = lit "internal error: " <+> m

pub record RpcResponse : Type 0 where
  pub result : Result RpcError RpcResponsePayload
