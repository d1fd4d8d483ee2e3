-- ===== src/Adapter/Process.antt =====
-- crates/are-agent-adapter/src/process.rs: the handle of a process.
pub mod Waits
use are.Base.{
  ℕ, eqb, Bool, true, false, List, Option, none, some, Str, Message, lit, bytes, Result, ok, err,
}
use are.Core.Error.{◌<+>◌}
use are.Core.Ids.{EnvironmentId, SessionId, ProcessId}
use are.Core.Info.{RpcRequest, RpcResponse}
use are.Core.Request.{
  ℤ, pos, ProcessState, ProcessRequest, TerminateProcessRequest, WaitProcessRequest,
  WaitProcessResponse,
}
use are.Daemon.Framing.{Json}
use are.Client.Connection.{Link, process_status, terminate_process, wait_process}
use are.Adapter.Types.{AgentAdapterError, timeout, Outcome, returns, answered, with_session}

pub record ProcessHandle : Type 0 where
  pub environment_id : EnvironmentId
  pub process_id : ProcessId
  pub session_id : Option SessionId

pub data ProcessStatus : Type 0 where
  running : ProcessStatus
  exited : ℤ → ProcessStatus
  failed : Message → ProcessStatus

abbrev pub status_from : ProcessState → ProcessStatus
status_from ProcessState.running = ProcessStatus.running
status_from (ProcessState.exited code) = ProcessStatus.exited code
status_from (ProcessState.failed m) = ProcessStatus.failed m

pub record ProcessOutput : Type 0 where
  pub exit_code : Option ℤ
  pub stdout : List ℕ
  pub stderr : List ℕ
  pub timed_out : Bool
  pub truncated : Bool

abbrev pub output_from : WaitProcessResponse → ProcessOutput
output_from resp = record {
  exit_code = resp.exit_code;
  stdout = resp.stdout;
  stderr = resp.stderr;
  timed_out = resp.timed_out;
  truncated = resp.truncated;
}

unfoldable pub success : ProcessOutput → Bool
success output = elim output.exit_code [ some (pos n) ↦ eqb n 0 | _ ↦ false ]

module _ (requests : Json RpcRequest) (responses : Json RpcResponse) (link : Link) where
  abbrev pub wait_request : ProcessHandle → SessionId → ℕ → WaitProcessRequest
  wait_request handle session_id timeout_secs = record {
    environment_id = handle.environment_id;
    session_id = session_id;
    process_id = handle.process_id;
    timeout_secs = timeout_secs;
  }

  unfoldable pub wait : ProcessHandle → ℕ → Outcome ProcessOutput
  wait handle timeout_secs = with_session handle.session_id (λ session_id.
      answered (wait_process requests responses link (wait_request handle session_id timeout_secs))
        output_from)

  unfoldable pub wait_infinite : ProcessHandle → Outcome ProcessOutput
  unfolding wait
  wait_infinite handle = wait handle 0

  unfoldable pub status : ProcessHandle → Outcome ProcessStatus
  status handle = with_session handle.session_id (λ session_id.
      answered
        (process_status requests responses link (record {
          environment_id = handle.environment_id;
          session_id = session_id;
          process_id = handle.process_id;
        }))
        status_from)

  unfoldable pub terminate : ProcessHandle → Outcome Bool
  terminate handle = with_session handle.session_id (λ session_id.
      answered
        (terminate_process requests responses link (record {
          environment_id = handle.environment_id;
          session_id = session_id;
          process_id = handle.process_id;
          force = true;
        }))
        (λ terminated. terminated))

  -- `expired`: the client's timeout is over before the wait.
  unfoldable pub wait_with_timeout : ProcessHandle → Bool → Outcome ProcessOutput
  unfolding wait
  wait_with_timeout handle false = wait handle 0
  wait_with_timeout handle true =
      returns
        (err (timeout (lit "client-side timeout waiting for process " <+> bytes handle.process_id)))
