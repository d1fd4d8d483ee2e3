-- ===== src/Adapter/Process/Waits.antt =====
-- crates/are-agent-adapter/src/process.rs: the waits with no timeout of their own.
use are.Base.{◌≡◌, refl, false, some, Message, Result, ok, err, IsErr}
use mathlib.Core.Path.{subst}
use are.Core.Ids.{SessionId}
use are.Core.Info.{RpcRequest, RpcResponse, RpcResponsePayload, RpcError, rpc_error_text}
use are.Core.Request.{validate_wait}
use are.Daemon.Auth.{Caller}
use are.Daemon.Disk.{Disk}
use are.Daemon.Framing.{Json}
use are.Daemon.Handler.{DaemonState}
use are.Daemon.Handler.Dispatch.{Moment, handle_as}
use are.Daemon.Handler.Dispatch.Errors.{IsRefused}
use are.Daemon.Handler.Dispatch.Waits.{handle_as-wait_refused}
use are.Client.Connection.{Link, rpc_error, expect, as_wait_process, send_rpc, wait_process}
use are.Adapter.Types.{connection, Outcome, returns, answered}
use are.Adapter.Process.{
  ProcessHandle, ProcessOutput, wait_request, wait, wait_infinite, wait_with_timeout, output_from,
}

-- A call that the daemon has answered with an error.
abbrev pub FailsRemotely : Outcome ProcessOutput → Type 0
FailsRemotely outcome = (e : Message) × (outcome ≡ returns (err (connection (rpc_error e))))

failed :
    (r : Result RpcError RpcResponsePayload)
    → IsErr r
    → FailsRemotely
        (returns (answered (expect as_wait_process (record { result = r })) output_from))
failed (err e) h = (rpc_error_text e, refl)
failed (ok p) h = absurd h

module _ (requests : Json RpcRequest) (responses : Json RpcResponse) (link : Link)
    (handle : ProcessHandle) (id : SessionId) (m : Moment) (state : DaemonState) (caller : Caller)
    (d : Disk) (response : RpcResponse) where
  -- `wait_infinite`, and `wait_with_timeout` when its time is not over first, of a process in a
  -- session: when the daemon has answered the request that they send, they return its error,
  -- whatever the state of the daemon and of the process.
  pub wait_infinite-fails :
      handle.session_id ≡ some id
      → (handle_as m state caller
          (RpcRequest.wait_process (wait_request requests responses link handle id 0))
          d).response
        ≡ some response
      → send_rpc requests responses link
          (RpcRequest.wait_process (wait_request requests responses link handle id 0))
        ≡ ok response
      → FailsRemotely (wait_infinite requests responses link handle)
        × FailsRemotely (wait_with_timeout requests responses link handle false)
  unfolding wait wait_infinite wait_with_timeout wait_process validate_wait
  wait_infinite-fails in_session answers sent =
      let refused : IsErr response.result =
        subst IsRefused answers
          (handle_as-wait_refused (wait_request requests responses link handle id 0) tt m state
            caller d).0 in
      rw (in_session, sent) (failed response.result refused, failed response.result refused)
