-- ===== src/Daemon/Handler/Serve.antt =====
-- crates/are-daemon/src/handler.rs: the handlers of sessions and processes.
pub mod Cascade
pub mod Execute
use are.Base.{
  ℕ, refl, ite, Bool, not, List, [], ◌∷◌, Option, none, some, Message, lit, bytes, Result, ok, err,
  ◌>>=◌, ◌>>◌, ensure, map_err, ok_or, ◌==◌, str_eq,
}
use are.Base.Dict.{Dict, get, values}
use are.Core.Error.{◌<+>◌, to_string}
use are.Core.Ids.{EnvironmentId, SessionId, ProcessId}
use are.Core.Request.{
  ExecuteRequest, ProcessRequest, TerminateProcessRequest, WaitProcessRequest, CreateSessionRequest,
  SessionRequest, ListSessionsRequest, SessionInfo, ProcessState, validate_execute,
}
use are.Daemon.Os.{Os}
use are.Daemon.Session.{
  SessionManager, SessionError, create_owned, get_owned, list_owned, terminate_owned,
}
use are.Daemon.Process.{
  ProcessManager, ProcessError, check_policy, start, status, terminate, kill_session_processes,
}
use are.Core.Request.{WaitProcessResponse}
use are.Daemon.Process.Wait.{Round, wait}
use are.Daemon.Handler.{
  RpcError, session_not_found, session_expired, invalid_request, internal_error, DaemonState,
  Caller, session_error_to_rpc, process_error_to_rpc, deny_unknown_principal, check_exec_grant,
  check_inspect_grant, check_terminate_grant, require_proc, wrong_environment,
}

-- An answer, and the state that is left. The times that the session table is asked at during one
-- request are the same `now`.
abbrev pub Served : Type 0 → Type 0
Served A = Result RpcError A × DaemonState

-- `?` on a step that changes the state, and on one that does not.
abbrev pub and_then : {A B : Type 0} → Served A → (A → DaemonState → Served B) → Served B
and_then (ok a, state) f = f a state
and_then (err e, state) f = (err e, state)

abbrev pub check : {A B : Type 0} → Result RpcError A → DaemonState → (A → Served B) → Served B
check (ok a) state f = f a
check (err e) state f = (err e, state)

abbrev pub no_session_backend : RpcError
no_session_backend = internal_error (lit "session backend not configured")

unfoldable pub kill_session_processes_best_effort : DaemonState → SessionId → DaemonState
kill_session_processes_best_effort state session_id = elim state.proc [
  | none ↦ state
  | some proc ↦ record state {
    proc = some (kill_session_processes proc state.environment_id session_id).1;
  }
]

unfoldable pub kill_purged_sessions_best_effort : DaemonState → List SessionId → DaemonState
unfolding kill_session_processes_best_effort
kill_purged_sessions_best_effort state [] = state
kill_purged_sessions_best_effort state (id ∷ ids) =
    kill_purged_sessions_best_effort (kill_session_processes_best_effort state id) ids

-- `require_live_session`, with `touch_owned`, which is `get_owned`. The expired case of the source
-- is the one of `session_error_to_rpc`.
unfoldable pub require_live_session : DaemonState → Caller → SessionId → ℕ → Served SessionInfo
unfolding kill_purged_sessions_best_effort
require_live_session state caller session_id now = elim state.sessions [
  | none ↦ (err no_session_backend, state)
  | some sessions ↦
      let ((result, purged), left) = get_owned sessions session_id caller now in
      (
        map_err session_error_to_rpc result,
        kill_purged_sessions_best_effort (record state { sessions = some left }) purged,
      )
]

-- The session must be of the environment that the request names.
abbrev pub same_environment : SessionInfo → EnvironmentId → Message → Result RpcError (Unit {0})
same_environment session environment_id m =
    ensure (session.environment_id == environment_id) (RpcError.not_found m)

abbrev unknown_process : ProcessId → Message
unknown_process id = lit "unknown process id '" <+> bytes id <+> lit "'"

-- `now` is the time of the session check, in seconds; `spawned_at` that of the start, in
-- nanoseconds.
unfoldable pub handle_execute :
    Os → DaemonState → Caller → ExecuteRequest → ℕ → ℕ → Served ProcessId
handle_execute os state caller req now spawned_at =
    check (require_proc state req.environment_id) state (λ configured.
      and_then (require_live_session state caller req.session_id now) (λ session live.
        check
          (same_environment session req.environment_id
            (lit "unknown session '" <+> bytes req.session_id <+> lit "'"))
          live
          (λ _. check (deny_unknown_principal live caller) live (λ _.
            check (map_err (λ e. invalid_request (to_string e)) (validate_execute req)) live (λ _.
              check (map_err process_error_to_rpc (check_policy configured.config req.program)) live
                (λ _. check (check_exec_grant live caller req.program) live (λ _. elim live.proc [
                  | none ↦ (err (internal_error (lit "process backend not configured")), live)
                  | some proc ↦
                      let (result, left) = start os proc req session spawned_at in
                      (map_err process_error_to_rpc result, record live { proc = some left })
                ])))))))

unfoldable pub handle_process_status :
    DaemonState → Caller → ProcessRequest → ℕ → Served ProcessState
handle_process_status state caller req now =
    check (require_proc state req.environment_id) state (λ configured.
      and_then (require_live_session state caller req.session_id now) (λ session live.
        check (same_environment session req.environment_id (unknown_process req.process_id)) live
          (λ _. check (deny_unknown_principal live caller) live (λ _.
            check (check_inspect_grant live caller) live (λ _. elim live.proc [
              | none ↦ (err (internal_error (lit "process backend not configured")), live)
              | some proc ↦ (map_err process_error_to_rpc (status proc req), live)
            ])))))

unfoldable pub handle_terminate_process :
    DaemonState → Caller → TerminateProcessRequest → ℕ → Served Bool
handle_terminate_process state caller req now =
    check (require_proc state req.environment_id) state (λ configured.
      and_then (require_live_session state caller req.session_id now) (λ session live.
        check (same_environment session req.environment_id (unknown_process req.process_id)) live
          (λ _. check (deny_unknown_principal live caller) live (λ _.
            check (check_terminate_grant live caller) live (λ _. elim live.proc [
              | none ↦ (err (internal_error (lit "process backend not configured")), live)
              | some proc ↦
                  let (result, left) = terminate proc req in
                  (map_err process_error_to_rpc result, record live { proc = some left })
            ])))))

-- The answer is what the wait has, if its rounds bring it to an end.
unfoldable pub handle_wait_process :
    DaemonState
    → Caller
    → WaitProcessRequest
    → ℕ
    → ℕ
    → List Round
    → Served (Option WaitProcessResponse)
handle_wait_process state caller req now start rounds =
    check (require_proc state req.environment_id) state (λ configured.
      and_then (require_live_session state caller req.session_id now) (λ session live.
        check (same_environment session req.environment_id (unknown_process req.process_id)) live
          (λ _. check (deny_unknown_principal live caller) live (λ _.
            check (check_terminate_grant live caller) live (λ _. elim live.proc [
              | none ↦ (err (internal_error (lit "process backend not configured")), live)
              | some proc ↦ (map_err process_error_to_rpc (wait proc req start rounds), live)
            ])))))

-- The check of the environment that the session handlers begin with.
abbrev pub own_environment : DaemonState → EnvironmentId → Result RpcError (Unit {0})
own_environment state environment_id =
    ensure (environment_id == state.environment_id)
      (wrong_environment environment_id state.environment_id)

-- What follows the call of `create_owned`.
abbrev pub after_creation :
    DaemonState
    → Result SessionError (SessionInfo × List SessionId) × SessionManager
    → Served SessionInfo
after_creation state (err e, left) =
    (err (session_error_to_rpc e), record state { sessions = some left })
after_creation state (ok (session, purged), left) =
    (ok session, kill_purged_sessions_best_effort (record state { sessions = some left }) purged)

unfoldable pub handle_create_session :
    Os → DaemonState → Caller → CreateSessionRequest → ℕ → Served SessionInfo
handle_create_session os state caller req now =
    check (own_environment state req.environment_id) state (λ _.
      check (deny_unknown_principal state caller) state (λ _.
        check (ok_or state.sessions no_session_backend) state
          (λ sessions. after_creation state (create_owned os sessions req caller now))))

unfoldable pub handle_get_session : DaemonState → Caller → SessionRequest → ℕ → Served SessionInfo
handle_get_session state caller req now =
    check (own_environment state req.environment_id) state (λ _.
      check (deny_unknown_principal state caller) state (λ _.
        and_then (require_live_session state caller req.session_id now) (λ session live.
          check
            (same_environment session req.environment_id
              (lit "unknown session '" <+> bytes req.session_id <+> lit "'"))
            live (λ _. (ok session, live)))))

unfoldable pub handle_list_sessions :
    DaemonState → Caller → ListSessionsRequest → ℕ → Served (List SessionInfo)
handle_list_sessions state caller req now =
    check (own_environment state req.environment_id) state (λ _.
      check (deny_unknown_principal state caller) state (λ _.
        check (ok_or state.sessions no_session_backend) state (λ sessions.
          let ((live, purged), left) = list_owned sessions req.environment_id caller now in
          (
            ok live,
            kill_purged_sessions_best_effort (record state { sessions = some left }) purged,
          ))))

abbrev despite_expiry : RpcError → RpcError
despite_expiry (session_expired m) =
    session_expired (m <+> lit " (session processes kill attempted despite expiry)")
despite_expiry e = e

-- The kill before the removal; with no process manager nothing is killed.
abbrev kill_counted : DaemonState → SessionId → ℕ × DaemonState
kill_counted state session_id = elim state.proc [
  | none ↦ (0, state)
  | some proc ↦
      let (count, left) = kill_session_processes proc state.environment_id session_id in
      (count, record state { proc = some left })
]

unfoldable pub handle_terminate_session : DaemonState → Caller → SessionRequest → ℕ → Served ℕ
handle_terminate_session state caller req now =
    check (own_environment state req.environment_id) state (λ _.
      check (deny_unknown_principal state caller) state (λ _.
        check (ok_or state.sessions no_session_backend) state (λ configured.
          let (looked_up, live) = require_live_session state caller req.session_id now in
          check (map_err despite_expiry looked_up) live (λ session.
            check
              (same_environment session req.environment_id
                (lit "unknown session '" <+> bytes req.session_id <+> lit "'"))
              live
              (λ _.
                let (terminated_processes, killed) = kill_counted live req.session_id in
                check (ok_or killed.sessions no_session_backend) killed (λ sessions.
                  let ((result, purged), left) =
                    terminate_owned sessions req.session_id caller now in
                  let after =
                    kill_purged_sessions_best_effort (record killed { sessions = some left })
                      purged in
                  (
                    map_err (λ e. despite_expiry (session_error_to_rpc e)) result >>= λ _.
                        ok terminated_processes,
                    after,
                  )))))))
