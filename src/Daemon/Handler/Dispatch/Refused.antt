-- ===== src/Daemon/Handler/Dispatch/Refused.antt =====
-- crates/are-daemon/src/handler.rs: what a caller whom the grants file does not name gets.
use are.Base.{
  ℕ, ◌≡◌, ◌≢◌, refl, sym, inl, inr, false, none, some, Str, Result, Message, IsErr, IsErr-of_never,
  err-of_IsErr, arith,
}
use mathlib.Core.Path.{subst}
use are.Core.Grant.{FsGrantKind, read, list}
use are.Core.Info.{RpcRequest, RpcResponsePayload, RpcError}
use are.Core.Request.{SessionInfo, PathRequest, WriteFileRequest, RenameRequest}
use are.Daemon.Os.{Os}
use are.Daemon.Auth.{Caller}
use are.Daemon.Disk.{Disk}
use are.Daemon.Grants.{GrantsTable}
use are.Daemon.Handler.{
  DaemonState, require_proc, is_known_caller, deny_unknown_principal, authorize_read,
  authorize_write_file, authorize_create_directory, authorize_rename, authorize_delete_file,
}
use are.Daemon.Handler.Files.{
  handle_read_file, handle_list_directory, handle_get_file_metadata, handle_write_file,
  handle_create_directory, handle_rename, handle_delete_file,
}
use are.Daemon.Process.{ProcessManager}
use are.Daemon.Handler.Serve.{
  Served, check, and_then, same_environment, require_live_session, handle_execute,
  handle_process_status, handle_terminate_process, handle_wait_process, handle_create_session,
  handle_get_session, handle_list_sessions, handle_terminate_session,
}
use are.Daemon.Handler.Serve.Execute.{require_live_session-grants, deny-same}
use are.Daemon.Handler.Dispatch.{Moment, handle_as}
use are.Daemon.Handler.Dispatch.Kinds.{Kind, request_kind}
use are.Daemon.Handler.Dispatch.Errors.{
  named_session, LeftBy, Refuses, Refusal, on_tables-Refuses, on_wait-Refuses, on_disk-Refuses,
  check-Refusal, check-Refusal_now, and_then-Refusal,
}

module _ (state : DaemonState) (caller : Caller) (table : GrantsTable)
    (strict : state.grants ≡ some table) (unknown : is_known_caller table caller ≡ false) where
  denied : IsErr (deny_unknown_principal state caller)
  unfolding deny_unknown_principal
  denied = IsErr-of_never _ (λ u h. ground arith)

  -- After the check of a session the caller is still unknown.
  denied_after :
      (id : Str) (now : ℕ)
      → IsErr (deny_unknown_principal (require_live_session state caller id now).1 caller)
  denied_after id now =
      subst (λ r. IsErr r)
        (sym (
          deny-same (require_live_session state caller id now).1 state caller
            (require_live_session-grants state caller id now)))
        denied

  module _ (os : Os) where
    read-IsErr :
        (kind : FsGrantKind) (req : PathRequest) → IsErr (authorize_read os state caller kind req)
    unfolding authorize_read
    read-IsErr kind req =
        let (e, refusal) = err-of_IsErr (deny_unknown_principal state caller) denied in
        IsErr-of_never _ (λ u h. ground arith)

    write_file-IsErr : (req : WriteFileRequest) → IsErr (authorize_write_file os state caller req)
    unfolding authorize_write_file
    write_file-IsErr req =
        let (e, refusal) = err-of_IsErr (deny_unknown_principal state caller) denied in
        IsErr-of_never _ (λ u h. ground arith)

    create_directory-IsErr :
        (req : PathRequest) → IsErr (authorize_create_directory state caller req)
    unfolding authorize_create_directory
    create_directory-IsErr req =
        let (e, refusal) = err-of_IsErr (deny_unknown_principal state caller) denied in
        IsErr-of_never _ (λ u h. ground arith)

    rename-IsErr : (req : RenameRequest) → IsErr (authorize_rename os state caller req)
    unfolding authorize_rename
    rename-IsErr req =
        let (e, refusal) = err-of_IsErr (deny_unknown_principal state caller) denied in
        IsErr-of_never _ (λ u h. ground arith)

    delete_file-IsErr : (req : PathRequest) → IsErr (authorize_delete_file os state caller req)
    unfolding authorize_delete_file
    delete_file-IsErr req =
        let (e, refusal) = err-of_IsErr (deny_unknown_principal state caller) denied in
        IsErr-of_never _ (λ u h. ground arith)

  module _ {A : Type 0} where
    -- The four handlers of processes begin alike, and those of sessions.
    process-Refusal :
        (environment_id session_id : Str) (now : ℕ) (reason : Message)
        (body : ProcessManager → SessionInfo → DaemonState → Served A)
        → Refusal (LeftBy state caller now (some session_id)) (
            check (require_proc state environment_id) state (λ configured.
              and_then (require_live_session state caller session_id now) (λ session live.
                check (same_environment session environment_id reason) live (λ _.
                  check
                    (deny_unknown_principal live caller)
                    live
                    (λ _. body configured session live)))))
    process-Refusal environment_id session_id now reason body =
        let left : LeftBy state caller now (some session_id)
            (require_live_session state caller session_id now).1 =
          inr refl in
        check-Refusal (LeftBy state caller now (some session_id))
          (require_proc state environment_id) state
          (λ configured.
            and_then (require_live_session state caller session_id now) (λ session live.
              check (same_environment session environment_id reason) live (λ _.
                check (deny_unknown_principal live caller) live
                  (λ _. body configured session live))))
          (inl refl)
          (λ configured.
            and_then-Refusal (LeftBy state caller now (some session_id))
              (require_live_session state caller session_id now)
              (λ session live. check (same_environment session environment_id reason) live (λ _.
                check (deny_unknown_principal live caller) live
                  (λ _. body configured session live)))
              left
              (λ session.
                let live = (require_live_session state caller session_id now).1 in
                check-Refusal (LeftBy state caller now (some session_id))
                  (same_environment session environment_id reason) live
                  (λ _.
                    check (deny_unknown_principal live caller) live
                      (λ _. body configured session live))
                  left
                  (λ _.
                    check-Refusal_now (LeftBy state caller now (some session_id))
                      (deny_unknown_principal live caller) live (λ _. body configured session live)
                      left (denied_after session_id now))))

    session-Refusal :
        (now : ℕ) (own : Result RpcError (Unit {0})) (body : Served A)
        → Refusal
            (LeftBy state caller now none)
            (check own state (λ _. check (deny_unknown_principal state caller) state (λ _. body)))
    session-Refusal now own body =
        check-Refusal (LeftBy state caller now none) own state
          (λ _. check (deny_unknown_principal state caller) state (λ _. body)) refl
          (λ _.
            check-Refusal_now (LeftBy state caller now none) (deny_unknown_principal state caller)
              state (λ _. body) refl denied)

  -- In strict mode, a caller whom the grants file does not name gets an error for every request but
  -- the one for the environment's description. Nothing is done on the disk, and the state is as it
  -- was, or, for a request on processes, as the check of the session that it names leaves it.
  pub handle_as-unknown :
      (m : Moment) (req : RpcRequest) (d : Disk)
      → request_kind req ≢ Kind.get_environment_info
      → Refuses (LeftBy state caller m.now (named_session req)) d (handle_as m state caller req d)
  unfolding handle_as handle_read_file handle_list_directory handle_get_file_metadata
      handle_write_file handle_create_directory handle_rename handle_delete_file handle_execute
      handle_process_status handle_terminate_process handle_wait_process handle_create_session
      handle_get_session handle_list_sessions handle_terminate_session
  handle_as-unknown m (RpcRequest.get_environment_info req) d other = absurd (other refl)
  handle_as-unknown m (RpcRequest.read_file req) d other =
      on_disk-Refuses (LeftBy state caller m.now none) RpcResponsePayload.read_file m.calls state
        (λ now. authorize_read now state caller read req) _ d refl
        (read-IsErr (m.calls.os d.tree) read req)
  handle_as-unknown m (RpcRequest.list_directory req) d other =
      on_disk-Refuses (LeftBy state caller m.now none) RpcResponsePayload.list_directory m.calls
        state (λ now. authorize_read now state caller list req) _ d refl
        (read-IsErr (m.calls.os d.tree) list req)
  handle_as-unknown m (RpcRequest.get_file_metadata req) d other =
      on_disk-Refuses (LeftBy state caller m.now none) RpcResponsePayload.get_file_metadata m.calls
        state (λ now. authorize_read now state caller read req) _ d refl
        (read-IsErr (m.calls.os d.tree) read req)
  handle_as-unknown m (RpcRequest.write_file req) d other =
      on_disk-Refuses (LeftBy state caller m.now none) RpcResponsePayload.write_file m.calls state
        (λ now. authorize_write_file now state caller req) _ d refl
        (write_file-IsErr (m.calls.os d.tree) req)
  handle_as-unknown m (RpcRequest.create_directory req) d other =
      on_disk-Refuses (LeftBy state caller m.now none) RpcResponsePayload.create_directory m.calls
        state (λ now. authorize_create_directory state caller req) _ d refl
        (create_directory-IsErr (m.calls.os d.tree) req)
  handle_as-unknown m (RpcRequest.rename req) d other =
      on_disk-Refuses (LeftBy state caller m.now none) RpcResponsePayload.rename m.calls state
        (λ now. authorize_rename now state caller req) _ d refl
        (rename-IsErr (m.calls.os d.tree) req)
  handle_as-unknown m (RpcRequest.delete_file req) d other =
      on_disk-Refuses (LeftBy state caller m.now none) RpcResponsePayload.delete_file m.calls state
        (λ now. authorize_delete_file now state caller req) _ d refl
        (delete_file-IsErr (m.calls.os d.tree) req)
  handle_as-unknown m (RpcRequest.execute req) d other =
      on_tables-Refuses (LeftBy state caller m.now (some req.session_id)) RpcResponsePayload.execute
        d _ (process-Refusal req.environment_id req.session_id m.now _ _)
  handle_as-unknown m (RpcRequest.process_status req) d other =
      on_tables-Refuses (LeftBy state caller m.now (some req.session_id))
        RpcResponsePayload.process_status d _
        (process-Refusal req.environment_id req.session_id m.now _ _)
  handle_as-unknown m (RpcRequest.terminate_process req) d other =
      on_tables-Refuses (LeftBy state caller m.now (some req.session_id))
        RpcResponsePayload.terminate_process d _
        (process-Refusal req.environment_id req.session_id m.now _ _)
  handle_as-unknown m (RpcRequest.wait_process req) d other =
      on_wait-Refuses (LeftBy state caller m.now (some req.session_id))
        RpcResponsePayload.wait_process d _
        (process-Refusal req.environment_id req.session_id m.now _ _)
  handle_as-unknown m (RpcRequest.create_session req) d other =
      on_tables-Refuses (LeftBy state caller m.now none) RpcResponsePayload.create_session d _
        (session-Refusal m.now _ _)
  handle_as-unknown m (RpcRequest.get_session req) d other =
      on_tables-Refuses (LeftBy state caller m.now none) RpcResponsePayload.get_session d _
        (session-Refusal m.now _ _)
  handle_as-unknown m (RpcRequest.list_sessions req) d other =
      on_tables-Refuses (LeftBy state caller m.now none) RpcResponsePayload.list_sessions d _
        (session-Refusal m.now _ _)
  handle_as-unknown m (RpcRequest.terminate_session req) d other =
      on_tables-Refuses (LeftBy state caller m.now none) RpcResponsePayload.terminate_session d _
        (session-Refusal m.now _ _)
