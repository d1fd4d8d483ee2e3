-- ===== src/Daemon/Handler/Dispatch/Elsewhere.antt =====
-- crates/are-daemon/src/handler.rs: requests that name another environment.
use are.Base.{◌≡◌, ◌≢◌, refl, Str, IsErr, IsErr-of_never, err-of_IsErr, arith, ==_iff, str_eq}
use are.Core.Ids.{EnvironmentId}
use are.Core.Grant.{FsGrantKind, read, list}
use are.Core.Info.{GetEnvironmentInfoRequest, RpcRequest, RpcResponsePayload}
use are.Core.Request.{PathRequest, WriteFileRequest, RenameRequest}
use are.Daemon.Os.{Os}
use are.Daemon.Auth.{Caller}
use are.Daemon.Disk.{Disk}
use are.Daemon.Handler.{
  DaemonState, require_fs, require_proc, authorize_read, authorize_write_file,
  authorize_create_directory, authorize_rename, authorize_delete_file,
}
use are.Daemon.Handler.Files.{
  handle_read_file, handle_list_directory, handle_get_file_metadata, handle_write_file,
  handle_create_directory, handle_rename, handle_delete_file,
}
use are.Daemon.Handler.Serve.{
  own_environment, handle_execute, handle_process_status, handle_terminate_process,
  handle_wait_process, handle_create_session, handle_get_session, handle_list_sessions,
  handle_terminate_session,
}
use are.Daemon.Handler.Dispatch.{Moment, handle_get_environment_info, handle_as}
use are.Daemon.Handler.Dispatch.Errors.{
  Refuses, on_tables-Refuses, on_wait-Refuses, on_disk-Refuses, check-Refusal_now,
}

-- The environment that a request names.
abbrev pub named_environment : RpcRequest → EnvironmentId
named_environment (RpcRequest.get_environment_info req) = req.environment_id
named_environment (RpcRequest.read_file req) = req.environment_id
named_environment (RpcRequest.write_file req) = req.environment_id
named_environment (RpcRequest.create_directory req) = req.environment_id
named_environment (RpcRequest.rename req) = req.environment_id
named_environment (RpcRequest.delete_file req) = req.environment_id
named_environment (RpcRequest.list_directory req) = req.environment_id
named_environment (RpcRequest.get_file_metadata req) = req.environment_id
named_environment (RpcRequest.execute req) = req.environment_id
named_environment (RpcRequest.process_status req) = req.environment_id
named_environment (RpcRequest.terminate_process req) = req.environment_id
named_environment (RpcRequest.wait_process req) = req.environment_id
named_environment (RpcRequest.create_session req) = req.environment_id
named_environment (RpcRequest.get_session req) = req.environment_id
named_environment (RpcRequest.list_sessions req) = req.environment_id
named_environment (RpcRequest.terminate_session req) = req.environment_id

-- Nothing has changed.
abbrev pub Same : DaemonState → DaemonState → Type 0
Same state after = after ≡ state

module _ (state : DaemonState) (caller : Caller) where
  refused :
      (environment_id : Str)
      → environment_id ≢ state.environment_id
      → IsErr (own_environment state environment_id)
  refused environment_id other =
      IsErr-of_never _ (λ u h. ground (arith, ==_iff environment_id state.environment_id))

  fs-IsErr :
      (environment_id : Str)
      → environment_id ≢ state.environment_id
      → IsErr (require_fs state environment_id)
  unfolding require_fs
  fs-IsErr environment_id other =
      IsErr-of_never _ (λ u h. ground (arith, ==_iff environment_id state.environment_id))

  proc-IsErr :
      (environment_id : Str)
      → environment_id ≢ state.environment_id
      → IsErr (require_proc state environment_id)
  unfolding require_proc
  proc-IsErr environment_id other =
      IsErr-of_never _ (λ u h. ground (arith, ==_iff environment_id state.environment_id))

  info-IsErr :
      (m : Moment) (req : GetEnvironmentInfoRequest)
      → req.environment_id ≢ state.environment_id
      → IsErr (handle_get_environment_info m state caller req)
  unfolding handle_get_environment_info
  info-IsErr m req other =
      IsErr-of_never _ (λ u h. ground (arith, ==_iff req.environment_id state.environment_id))

  module _ (os : Os) where
    read-IsErr :
        (kind : FsGrantKind) (req : PathRequest)
        → req.environment_id ≢ state.environment_id
        → IsErr (authorize_read os state caller kind req)
    unfolding authorize_read
    read-IsErr kind req other =
        let (e, refusal) =
          err-of_IsErr (require_fs state req.environment_id) (fs-IsErr req.environment_id other) in
        IsErr-of_never _ (λ u h. ground arith)

    write_file-IsErr :
        (req : WriteFileRequest)
        → req.environment_id ≢ state.environment_id
        → IsErr (authorize_write_file os state caller req)
    unfolding authorize_write_file
    write_file-IsErr req other =
        let (e, refusal) =
          err-of_IsErr (require_fs state req.environment_id) (fs-IsErr req.environment_id other) in
        IsErr-of_never _ (λ u h. ground arith)

    create_directory-IsErr :
        (req : PathRequest)
        → req.environment_id ≢ state.environment_id
        → IsErr (authorize_create_directory state caller req)
    unfolding authorize_create_directory
    create_directory-IsErr req other =
        let (e, refusal) =
          err-of_IsErr (require_fs state req.environment_id) (fs-IsErr req.environment_id other) in
        IsErr-of_never _ (λ u h. ground arith)

    rename-IsErr :
        (req : RenameRequest)
        → req.environment_id ≢ state.environment_id
        → IsErr (authorize_rename os state caller req)
    unfolding authorize_rename
    rename-IsErr req other =
        let (e, refusal) =
          err-of_IsErr (require_fs state req.environment_id) (fs-IsErr req.environment_id other) in
        IsErr-of_never _ (λ u h. ground arith)

    delete_file-IsErr :
        (req : PathRequest)
        → req.environment_id ≢ state.environment_id
        → IsErr (authorize_delete_file os state caller req)
    unfolding authorize_delete_file
    delete_file-IsErr req other =
        let (e, refusal) =
          err-of_IsErr (require_fs state req.environment_id) (fs-IsErr req.environment_id other) in
        IsErr-of_never _ (λ u h. ground arith)

  -- A request that names another environment gets an error; nothing is done on the disk, and the
  -- state is as it was.
  pub handle_as-elsewhere :
      (m : Moment) (req : RpcRequest) (d : Disk)
      → named_environment req ≢ state.environment_id
      → Refuses (Same state) d (handle_as m state caller req d)
  unfolding handle_as handle_read_file handle_list_directory handle_get_file_metadata
      handle_write_file handle_create_directory handle_rename handle_delete_file handle_execute
      handle_process_status handle_terminate_process handle_wait_process handle_create_session
      handle_get_session handle_list_sessions handle_terminate_session
  handle_as-elsewhere m (RpcRequest.get_environment_info req) d other =
      on_tables-Refuses (Same state) RpcResponsePayload.get_environment_info d
        (handle_get_environment_info m state caller req, state) (info-IsErr m req other, refl)
  handle_as-elsewhere m (RpcRequest.read_file req) d other =
      on_disk-Refuses (Same state) RpcResponsePayload.read_file m.calls state
        (λ now. authorize_read now state caller read req) _ d refl
        (read-IsErr (m.calls.os d.tree) read req other)
  handle_as-elsewhere m (RpcRequest.list_directory req) d other =
      on_disk-Refuses (Same state) RpcResponsePayload.list_directory m.calls state
        (λ now. authorize_read now state caller list req) _ d refl
        (read-IsErr (m.calls.os d.tree) list req other)
  handle_as-elsewhere m (RpcRequest.get_file_metadata req) d other =
      on_disk-Refuses (Same state) RpcResponsePayload.get_file_metadata m.calls state
        (λ now. authorize_read now state caller read req) _ d refl
        (read-IsErr (m.calls.os d.tree) read req other)
  handle_as-elsewhere m (RpcRequest.write_file req) d other =
      on_disk-Refuses (Same state) RpcResponsePayload.write_file m.calls state
        (λ now. authorize_write_file now state caller req) _ d refl
        (write_file-IsErr (m.calls.os d.tree) req other)
  handle_as-elsewhere m (RpcRequest.create_directory req) d other =
      on_disk-Refuses (Same state) RpcResponsePayload.create_directory m.calls state
        (λ now. authorize_create_directory state caller req) _ d refl
        (create_directory-IsErr (m.calls.os d.tree) req other)
  handle_as-elsewhere m (RpcRequest.rename req) d other =
      on_disk-Refuses (Same state) RpcResponsePayload.rename m.calls state
        (λ now. authorize_rename now state caller req) _ d refl
        (rename-IsErr (m.calls.os d.tree) req other)
  handle_as-elsewhere m (RpcRequest.delete_file req) d other =
      on_disk-Refuses (Same state) RpcResponsePayload.delete_file m.calls state
        (λ now. authorize_delete_file now state caller req) _ d refl
        (delete_file-IsErr (m.calls.os d.tree) req other)
  handle_as-elsewhere m (RpcRequest.execute req) d other =
      on_tables-Refuses (Same state) RpcResponsePayload.execute d _ (
        check-Refusal_now (Same state) (require_proc state req.environment_id) state _ refl
          (proc-IsErr req.environment_id other))
  handle_as-elsewhere m (RpcRequest.process_status req) d other =
      on_tables-Refuses (Same state) RpcResponsePayload.process_status d _ (
        check-Refusal_now (Same state) (require_proc state req.environment_id) state _ refl
          (proc-IsErr req.environment_id other))
  handle_as-elsewhere m (RpcRequest.terminate_process req) d other =
      on_tables-Refuses (Same state) RpcResponsePayload.terminate_process d _ (
        check-Refusal_now (Same state) (require_proc state req.environment_id) state _ refl
          (proc-IsErr req.environment_id other))
  handle_as-elsewhere m (RpcRequest.wait_process req) d other =
      on_wait-Refuses (Same state) RpcResponsePayload.wait_process d _ (
        check-Refusal_now (Same state) (require_proc state req.environment_id) state _ refl
          (proc-IsErr req.environment_id other))
  handle_as-elsewhere m (RpcRequest.create_session req) d other =
      on_tables-Refuses (Same state) RpcResponsePayload.create_session d _ (
        check-Refusal_now (Same state) (own_environment state req.environment_id) state _ refl
          (refused req.environment_id other))
  handle_as-elsewhere m (RpcRequest.get_session req) d other =
      on_tables-Refuses (Same state) RpcResponsePayload.get_session d _ (
        check-Refusal_now (Same state) (own_environment state req.environment_id) state _ refl
          (refused req.environment_id other))
  handle_as-elsewhere m (RpcRequest.list_sessions req) d other =
      on_tables-Refuses (Same state) RpcResponsePayload.list_sessions d _ (
        check-Refusal_now (Same state) (own_environment state req.environment_id) state _ refl
          (refused req.environment_id other))
  handle_as-elsewhere m (RpcRequest.terminate_session req) d other =
      on_tables-Refuses (Same state) RpcResponsePayload.terminate_session d _ (
        check-Refusal_now (Same state) (own_environment state req.environment_id) state _ refl
          (refused req.environment_id other))
