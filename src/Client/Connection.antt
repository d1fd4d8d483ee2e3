-- ===== src/Client/Connection.antt =====
-- crates/are-client/src/connection.rs: the client's methods. Each is one request on a connection of
-- its own. Sockets and TLS are outside: a `Link` is what a new connection finds.
pub mod Remote
pub mod EndToEnd
use are.Base.{
  ℕ, Bool, List, Option, none, some, Str, Message, lit, Result, ok, err, map_err, ◌>>=◌, ◌>>◌,
}
use are.Core.Error.{◌<+>◌}
use are.Core.Ids.{EnvironmentId, ProcessId}
use are.Core.Request.{
  FileMetadata, DirectoryEntry, PathRequest, WriteFileRequest, RenameRequest, ExecuteRequest,
  ProcessRequest, TerminateProcessRequest, WaitProcessRequest, CreateSessionRequest, SessionRequest,
  ListSessionsRequest, SessionInfo, ProcessState, WaitProcessResponse,
}
use are.Core.Info.{
  GetEnvironmentInfoRequest, GetEnvironmentInfoResponse, RpcRequest, RpcResponse,
  RpcResponsePayload, RpcError, rpc_error_text,
}
use are.Wire.{Faults, new_writer}
use are.Daemon.Framing.{Json}
use are.Client.{write_message, read_message}

pub data ClientTlsError : Type 0 where
  pem_read : Message → ClientTlsError
  no_certificate : ClientTlsError
  no_private_key : ClientTlsError
  invalid_server_name : Message → ClientTlsError
  config_error : Message → ClientTlsError

pub data ConnectionError : Type 0 where
  tls : ClientTlsError → ConnectionError
  tcp : Message → ConnectionError
  request_failed : Message → ConnectionError
  rpc_error : Message → ConnectionError
  unexpected_response : ConnectionError

unfoldable pub client_tls_error_text : ClientTlsError → Message
client_tls_error_text (pem_read m) = lit "failed to read PEM file: " <+> m
client_tls_error_text no_certificate = lit "no certificate found in PEM data"
client_tls_error_text no_private_key = lit "no private key found in PEM data"
client_tls_error_text (invalid_server_name m) = lit "invalid server name: " <+> m
client_tls_error_text (config_error m) = lit "TLS config error: " <+> m

-- The `Display` text of an error.
unfoldable pub connection_error_text : ConnectionError → Message
connection_error_text (tls e) = lit "TLS error: " <+> client_tls_error_text e
connection_error_text (tcp m) = lit "connection failed: " <+> m
connection_error_text (request_failed m) = lit "request failed: " <+> m
connection_error_text (rpc_error m) = lit "RPC error: " <+> m
connection_error_text unexpected_response = lit "unexpected response type"

-- Whether the connection and the handshake succeed, which calls of the writer fail, and the bytes
-- that come back once these have been sent.
pub record Link : Type 0 where
  pub connect : Result Message (Unit {0})
  pub handshake : Result Message (Unit {0})
  pub faults : Faults
  pub peer : List ℕ → List ℕ

-- `match response.result`, with the arm of the expected payload.
abbrev pub expect :
    {A : Type 0} → (RpcResponsePayload → Option A) → RpcResponse → Result ConnectionError A
expect payload response = elim response.result [
  | err e ↦ err (rpc_error (rpc_error_text e))
  | ok p ↦ elim (payload p) [ some a ↦ ok a | none ↦ err unexpected_response ]
]

-- The payload that the method for a request expects.
abbrev pub as_get_environment_info : RpcResponsePayload → Option (GetEnvironmentInfoResponse)
as_get_environment_info (RpcResponsePayload.get_environment_info a) = some a
as_get_environment_info p = none

abbrev pub as_read_file : RpcResponsePayload → Option (List ℕ × FileMetadata)
as_read_file (RpcResponsePayload.read_file a) = some a
as_read_file p = none

abbrev pub as_list_directory : RpcResponsePayload → Option (List DirectoryEntry)
as_list_directory (RpcResponsePayload.list_directory a) = some a
as_list_directory p = none

abbrev pub as_get_file_metadata : RpcResponsePayload → Option (FileMetadata)
as_get_file_metadata (RpcResponsePayload.get_file_metadata a) = some a
as_get_file_metadata p = none

abbrev pub as_execute : RpcResponsePayload → Option (ProcessId)
as_execute (RpcResponsePayload.execute a) = some a
as_execute p = none

abbrev pub as_process_status : RpcResponsePayload → Option (ProcessState)
as_process_status (RpcResponsePayload.process_status a) = some a
as_process_status p = none

abbrev pub as_terminate_process : RpcResponsePayload → Option (Bool)
as_terminate_process (RpcResponsePayload.terminate_process a) = some a
as_terminate_process p = none

abbrev pub as_wait_process : RpcResponsePayload → Option (WaitProcessResponse)
as_wait_process (RpcResponsePayload.wait_process a) = some a
as_wait_process p = none

abbrev pub as_create_session : RpcResponsePayload → Option (SessionInfo)
as_create_session (RpcResponsePayload.create_session a) = some a
as_create_session p = none

abbrev pub as_get_session : RpcResponsePayload → Option (SessionInfo)
as_get_session (RpcResponsePayload.get_session a) = some a
as_get_session p = none

abbrev pub as_list_sessions : RpcResponsePayload → Option (List SessionInfo)
as_list_sessions (RpcResponsePayload.list_sessions a) = some a
as_list_sessions p = none

abbrev pub as_terminate_session : RpcResponsePayload → Option (ℕ)
as_terminate_session (RpcResponsePayload.terminate_session a) = some a
as_terminate_session p = none

abbrev pub as_write_file : RpcResponsePayload → Option (FileMetadata)
as_write_file (RpcResponsePayload.write_file a) = some a
as_write_file p = none

abbrev pub as_create_directory : RpcResponsePayload → Option (FileMetadata)
as_create_directory (RpcResponsePayload.create_directory a) = some a
as_create_directory p = none

abbrev pub as_rename : RpcResponsePayload → Option (FileMetadata)
as_rename (RpcResponsePayload.rename a) = some a
as_rename p = none

abbrev pub as_delete_file : RpcResponsePayload → Option (Bool)
as_delete_file (RpcResponsePayload.delete_file a) = some a
as_delete_file p = none

module _ (requests : Json RpcRequest) (responses : Json RpcResponse) (link : Link) where
  unfoldable pub send_rpc : RpcRequest → Result ConnectionError RpcResponse
  send_rpc request = do
    map_err tcp link.connect
    map_err (λ e. tls (config_error (lit "TLS handshake failed: " <+> e))) link.handshake
    let written = write_message requests link.faults request new_writer
    map_err tcp written.0
    map_err tcp (read_message responses (link.peer written.1.sent)).0

  unfoldable pub get_environment_info :
      EnvironmentId → Result ConnectionError (GetEnvironmentInfoResponse)
  get_environment_info environment_id =
      send_rpc (RpcRequest.get_environment_info (record { environment_id = environment_id }))
      >>= expect as_get_environment_info

  unfoldable pub read_file : PathRequest → Result ConnectionError (List ℕ × FileMetadata)
  read_file req = send_rpc (RpcRequest.read_file req) >>= expect as_read_file

  unfoldable pub list_directory : PathRequest → Result ConnectionError (List DirectoryEntry)
  list_directory req = send_rpc (RpcRequest.list_directory req) >>= expect as_list_directory

  unfoldable pub file_metadata : PathRequest → Result ConnectionError (FileMetadata)
  file_metadata req = send_rpc (RpcRequest.get_file_metadata req) >>= expect as_get_file_metadata

  unfoldable pub execute : ExecuteRequest → Result ConnectionError (ProcessId)
  execute req = send_rpc (RpcRequest.execute req) >>= expect as_execute

  unfoldable pub process_status : ProcessRequest → Result ConnectionError (ProcessState)
  process_status req = send_rpc (RpcRequest.process_status req) >>= expect as_process_status

  unfoldable pub terminate_process : TerminateProcessRequest → Result ConnectionError (Bool)
  terminate_process req =
      send_rpc (RpcRequest.terminate_process req) >>= expect as_terminate_process

  unfoldable pub wait_process : WaitProcessRequest → Result ConnectionError (WaitProcessResponse)
  wait_process req = send_rpc (RpcRequest.wait_process req) >>= expect as_wait_process

  unfoldable pub create_session : CreateSessionRequest → Result ConnectionError (SessionInfo)
  create_session req = send_rpc (RpcRequest.create_session req) >>= expect as_create_session

  unfoldable pub get_session : SessionRequest → Result ConnectionError (SessionInfo)
  get_session req = send_rpc (RpcRequest.get_session req) >>= expect as_get_session

  unfoldable pub list_sessions : ListSessionsRequest → Result ConnectionError (List SessionInfo)
  list_sessions req = send_rpc (RpcRequest.list_sessions req) >>= expect as_list_sessions

  unfoldable pub terminate_session : SessionRequest → Result ConnectionError (ℕ)
  terminate_session req =
      send_rpc (RpcRequest.terminate_session req) >>= expect as_terminate_session

  unfoldable pub write_file : WriteFileRequest → Result ConnectionError (FileMetadata)
  write_file req = send_rpc (RpcRequest.write_file req) >>= expect as_write_file

  unfoldable pub create_directory : PathRequest → Result ConnectionError (FileMetadata)
  create_directory req = send_rpc (RpcRequest.create_directory req) >>= expect as_create_directory

  unfoldable pub rename : RenameRequest → Result ConnectionError (FileMetadata)
  rename req = send_rpc (RpcRequest.rename req) >>= expect as_rename

  unfoldable pub delete_file : PathRequest → Result ConnectionError (Bool)
  delete_file req = send_rpc (RpcRequest.delete_file req) >>= expect as_delete_file
