-- ===== src/Daemon/Handler/Dispatch/Waits.antt =====
-- crates/are-daemon/src/handler.rs: a wait with a timeout that is out of range.
use are.Base.{ℕ, List, Option, none, some, err, IsErr, err-of_IsErr, lit, map_err}
use are.Core.Info.{RpcRequest, RpcResponsePayload, internal_error}
use are.Core.Request.{WaitProcessRequest, WaitProcessResponse, validate_wait}
use are.Daemon.Auth.{Caller}
use are.Daemon.Disk.{Disk}
use are.Daemon.Process.{ProcessManager}
use are.Daemon.Process.Wait.{Round, wait}
use are.Daemon.Handler.{
  DaemonState, deny_unknown_principal, check_terminate_grant, require_proc, process_error_to_rpc,
}
use are.Daemon.Handler.Serve.{Served, require_live_session, handle_wait_process}
use are.Daemon.Handler.Dispatch.{Moment, handle_as}
use are.Daemon.Handler.Dispatch.Errors.{
  Refuses, Refusal, on_wait-Refuses, check-Refusal, and_then-Refusal,
}

-- Nothing is said of the state.
abbrev pub Any : DaemonState → Type 0
Any state = Unit

module _ (req : WaitProcessRequest) (invalid : IsErr (validate_wait req)) where
  wait-IsErr :
      (proc : ProcessManager) (start : ℕ) (rounds : List Round)
      → IsErr (map_err process_error_to_rpc (wait proc req start rounds))
  unfolding wait
  wait-IsErr proc start rounds =
      let (e, bad) = err-of_IsErr (validate_wait req) invalid in rw bad tt

  -- The end of the handler.
  abbrev waited :
      ℕ → List Round → DaemonState → Option ProcessManager → Served (Option WaitProcessResponse)
  waited start rounds live none =
      (err (internal_error (lit "process backend not configured")), live)
  waited start rounds live (some proc) =
      (map_err process_error_to_rpc (wait proc req start rounds), live)

  waits :
      (start : ℕ) (rounds : List Round) (live : DaemonState) (proc : Option ProcessManager)
      → Refusal Any (waited start rounds live proc)
  waits start rounds live none = (tt, tt)
  waits start rounds live (some proc) = (wait-IsErr proc start rounds, tt)

  pub handle_as-wait_refused :
      (m : Moment) (state : DaemonState) (caller : Caller) (d : Disk)
      → Refuses Any d (handle_as m state caller (RpcRequest.wait_process req) d)
  unfolding handle_as handle_wait_process
  handle_as-wait_refused m state caller d =
      on_wait-Refuses Any RpcResponsePayload.wait_process d _ (
        check-Refusal Any (require_proc state req.environment_id) state _ tt (λ configured.
          and_then-Refusal Any (require_live_session state caller req.session_id m.now) _ tt
            (λ session.
              let live = (require_live_session state caller req.session_id m.now).1 in
              check-Refusal Any _ live _ tt (λ u.
                check-Refusal Any (deny_unknown_principal live caller) live _ tt (λ u.
                  check-Refusal Any (check_terminate_grant live caller) live _ tt
                    (λ u. waits m.instant m.rounds live live.proc))))))
