-- ===== src/Daemon/Handler/Dispatch/Kinds.antt =====
-- crates/are-daemon/src/handler.rs: a response is of the kind of its request.
use are.Base.{◌≡◌, refl, Option, none, some, Result, ok, err}
use are.Core.Info.{RpcRequest, RpcResponse, RpcResponsePayload, RpcError}
use are.Daemon.Auth.{Caller}
use are.Daemon.Disk.{Disk}
use are.Daemon.Handler.{DaemonState}
use are.Daemon.Handler.Files.{
  handle_read_file, handle_list_directory, handle_get_file_metadata, handle_write_file,
  handle_create_directory, handle_rename, handle_delete_file,
}
use are.Daemon.Handler.Serve.{
  Served, handle_execute, handle_process_status, handle_terminate_process, handle_wait_process,
  handle_create_session, handle_get_session, handle_list_sessions, handle_terminate_session,
}
use are.Daemon.Handler.Dispatch.{
  Moment, handle_get_environment_info, handle_as, respond, on_disk, on_tables, on_wait,
}

-- The sixteen variants, which are those of `RpcRequest` and of `RpcResponsePayload`.
pub data Kind : Type 0 where
  get_environment_info read_file write_file create_directory rename delete_file : Kind
  list_directory get_file_metadata execute process_status terminate_process wait_process : Kind
  create_session get_session list_sessions terminate_session : Kind

abbrev pub request_kind : RpcRequest → Kind
request_kind (RpcRequest.get_environment_info req) = Kind.get_environment_info
request_kind (RpcRequest.read_file req) = Kind.read_file
request_kind (RpcRequest.write_file req) = Kind.write_file
request_kind (RpcRequest.create_directory req) = Kind.create_directory
request_kind (RpcRequest.rename req) = Kind.rename
request_kind (RpcRequest.delete_file req) = Kind.delete_file
request_kind (RpcRequest.list_directory req) = Kind.list_directory
request_kind (RpcRequest.get_file_metadata req) = Kind.get_file_metadata
request_kind (RpcRequest.execute req) = Kind.execute
request_kind (RpcRequest.process_status req) = Kind.process_status
request_kind (RpcRequest.terminate_process req) = Kind.terminate_process
request_kind (RpcRequest.wait_process req) = Kind.wait_process
request_kind (RpcRequest.create_session req) = Kind.create_session
request_kind (RpcRequest.get_session req) = Kind.get_session
request_kind (RpcRequest.list_sessions req) = Kind.list_sessions
request_kind (RpcRequest.terminate_session req) = Kind.terminate_session

abbrev pub payload_kind : RpcResponsePayload → Kind
payload_kind (RpcResponsePayload.get_environment_info a) = Kind.get_environment_info
payload_kind (RpcResponsePayload.read_file a) = Kind.read_file
payload_kind (RpcResponsePayload.write_file a) = Kind.write_file
payload_kind (RpcResponsePayload.create_directory a) = Kind.create_directory
payload_kind (RpcResponsePayload.rename a) = Kind.rename
payload_kind (RpcResponsePayload.delete_file a) = Kind.delete_file
payload_kind (RpcResponsePayload.list_directory a) = Kind.list_directory
payload_kind (RpcResponsePayload.get_file_metadata a) = Kind.get_file_metadata
payload_kind (RpcResponsePayload.execute a) = Kind.execute
payload_kind (RpcResponsePayload.process_status a) = Kind.process_status
payload_kind (RpcResponsePayload.terminate_process a) = Kind.terminate_process
payload_kind (RpcResponsePayload.wait_process a) = Kind.wait_process
payload_kind (RpcResponsePayload.create_session a) = Kind.create_session
payload_kind (RpcResponsePayload.get_session a) = Kind.get_session
payload_kind (RpcResponsePayload.list_sessions a) = Kind.list_sessions
payload_kind (RpcResponsePayload.terminate_session a) = Kind.terminate_session

-- A payload in the response is of the kind `k`.
abbrev pub HasKind : Kind → Option RpcResponse → Type 0
HasKind k none = Unit
HasKind k (some response) =
    (payload : RpcResponsePayload) → response.result ≡ ok payload → payload_kind payload ≡ k

module _ {A : Type 0} (payload : A → RpcResponsePayload) (k : Kind)
    (of_kind : (a : A) → payload_kind (payload a) ≡ k) where
  respond-HasKind : (r : Result RpcError A) → HasKind k (some (respond payload r))
  respond-HasKind (ok a) p e = cc (of_kind a)
  respond-HasKind (err x) p e = cc

  on_disk-HasKind :
      (state : DaemonState) (x : Result RpcError A × Disk)
      → HasKind k (on_disk payload state x).response
  on_disk-HasKind state (r, d) = respond-HasKind r

  on_tables-HasKind : (d : Disk) (x : Served A) → HasKind k (on_tables payload d x).response
  on_tables-HasKind d (r, state) = respond-HasKind r

  on_wait-HasKind : (d : Disk) (x : Served (Option A)) → HasKind k (on_wait payload d x).response
  on_wait-HasKind d (ok none, state) = tt
  on_wait-HasKind d (ok (some a), state) = respond-HasKind (ok a)
  on_wait-HasKind d (err e, state) = respond-HasKind (err e)

-- A payload that answers a request is of the request's kind.
pub handle_as-HasKind :
    (m : Moment) (state : DaemonState) (caller : Caller) (req : RpcRequest) (d : Disk)
    → HasKind (request_kind req) (handle_as m state caller req d).response
unfolding handle_as
handle_as-HasKind m state caller (RpcRequest.get_environment_info req) d =
    on_tables-HasKind RpcResponsePayload.get_environment_info Kind.get_environment_info (λ a. refl)
      d (handle_get_environment_info m state caller req, state)
handle_as-HasKind m state caller (RpcRequest.read_file req) d =
    on_disk-HasKind RpcResponsePayload.read_file Kind.read_file (λ a. refl) state
      (handle_read_file m.calls state caller req d)
handle_as-HasKind m state caller (RpcRequest.write_file req) d =
    on_disk-HasKind RpcResponsePayload.write_file Kind.write_file (λ a. refl) state
      (handle_write_file m.calls state caller req d)
handle_as-HasKind m state caller (RpcRequest.create_directory req) d =
    on_disk-HasKind RpcResponsePayload.create_directory Kind.create_directory (λ a. refl) state
      (handle_create_directory m.calls state caller req d)
handle_as-HasKind m state caller (RpcRequest.rename req) d =
    on_disk-HasKind RpcResponsePayload.rename Kind.rename (λ a. refl) state
      (handle_rename m.calls state caller req d)
handle_as-HasKind m state caller (RpcRequest.delete_file req) d =
    on_disk-HasKind RpcResponsePayload.delete_file Kind.delete_file (λ a. refl) state
      (handle_delete_file m.calls state caller req d)
handle_as-HasKind m state caller (RpcRequest.list_directory req) d =
    on_disk-HasKind RpcResponsePayload.list_directory Kind.list_directory (λ a. refl) state
      (handle_list_directory m.calls state caller req d)
handle_as-HasKind m state caller (RpcRequest.get_file_metadata req) d =
    on_disk-HasKind RpcResponsePayload.get_file_metadata Kind.get_file_metadata (λ a. refl) state
      (handle_get_file_metadata m.calls state caller req d)
handle_as-HasKind m state caller (RpcRequest.execute req) d =
    on_tables-HasKind RpcResponsePayload.execute Kind.execute (λ a. refl) d
      (handle_execute (m.calls.os d.tree) state caller req m.now m.instant)
handle_as-HasKind m state caller (RpcRequest.process_status req) d =
    on_tables-HasKind RpcResponsePayload.process_status Kind.process_status (λ a. refl) d
      (handle_process_status state caller req m.now)
handle_as-HasKind m state caller (RpcRequest.terminate_process req) d =
    on_tables-HasKind RpcResponsePayload.terminate_process Kind.terminate_process (λ a. refl) d
      (handle_terminate_process state caller req m.now)
handle_as-HasKind m state caller (RpcRequest.wait_process req) d =
    on_wait-HasKind RpcResponsePayload.wait_process Kind.wait_process (λ a. refl) d
      (handle_wait_process state caller req m.now m.instant m.rounds)
handle_as-HasKind m state caller (RpcRequest.create_session req) d =
    on_tables-HasKind RpcResponsePayload.create_session Kind.create_session (λ a. refl) d
      (handle_create_session (m.calls.os d.tree) state caller req m.now)
handle_as-HasKind m state caller (RpcRequest.get_session req) d =
    on_tables-HasKind RpcResponsePayload.get_session Kind.get_session (λ a. refl) d
      (handle_get_session state caller req m.now)
handle_as-HasKind m state caller (RpcRequest.list_sessions req) d =
    on_tables-HasKind RpcResponsePayload.list_sessions Kind.list_sessions (λ a. refl) d
      (handle_list_sessions state caller req m.now)
handle_as-HasKind m state caller (RpcRequest.terminate_session req) d =
    on_tables-HasKind RpcResponsePayload.terminate_session Kind.terminate_session (λ a. refl) d
      (handle_terminate_session state caller req m.now)
