-- ===== src/Cli/Proc.antt =====
-- crates/are-cli/src/main.rs: `are proc`.
use are.Base.{ℕ, Bool, List, [], ◌∷◌, ◌++◌, Str, is_empty, lit, bytes, ok, err, if◌then◌else◌}
use are.Core.Error.{◌<+>◌}
use are.Core.Ids.{EnvironmentId, SessionId, ProcessId}
use are.Core.Info.{RpcRequest, RpcResponse}
use are.Core.Request.{WaitProcessResponse}
use are.Daemon.Framing.{Json}
use are.Client.Connection.{Link}
use are.Client.Connection as Client
use are.Cli.Terminal.{
  Console, Ran, Output, println, eprintln, raw, eraw, prints, or_exit, answered, parse_env_id,
  parse_session_id, parse_process_id, parse_env_vars, make_client, bool_text, debug_code,
  debug_state,
}

-- The fields of `ProcConn` that are no part of the connection.
pub record ProcConn : Type 0 where
  pub env_id : Str
  pub session : Str

pub data ProcAction : Type 0 where
  run : ProcConn → Str → List Str → Str → List Str → ProcAction
  status : ProcConn → Str → ProcAction
  wait : ProcConn → Str → ℕ → ProcAction
  kill : ProcConn → Str → Bool → ProcAction

-- What a wait prints: the lines, the output, and the error output if there is some. A stream that
-- fails ends the program.
abbrev pub print_stderr : Console → List Output → List ℕ → Ran
print_stderr console printed stderr =
    if is_empty stderr
    then record { out = printed; status = 0 }
    else (let before = printed ++ (eprintln (lit "--- stderr ---") ∷ []) in
        elim (console.write_stderr stderr) [
          | ok u ↦ record { out = before ++ (eraw stderr ∷ []); status = 0 }
          | err e ↦ record {
            out = before ++ (eprintln (lit "error: failed to write stderr: " <+> e) ∷ []);
            status = 1;
          }
        ])

abbrev pub print_output : Console → WaitProcessResponse → Ran
print_output console resp =
    let lines =
      println (lit "exit_code: " <+> debug_code resp.exit_code)
      ∷ println (lit "timed_out: " <+> bool_text resp.timed_out)
      ∷ println (lit "truncated: " <+> bool_text resp.truncated)
      ∷ [] in
    elim (console.write_stdout resp.stdout) [
      | ok u ↦ print_stderr console (lines ++ (raw resp.stdout ∷ [])) resp.stderr
      | err e ↦ record {
        out = lines ++ (eprintln (lit "error: failed to write stdout: " <+> e) ∷ []);
        status = 1;
      }
    ]

module _ (requests : Json RpcRequest) (responses : Json RpcResponse) (console : Console) where
  unfoldable pub proc_run : ProcConn → Str → List Str → Str → List Str → Ran
  proc_run conn program arg workdir env = or_exit (parse_env_id conn.env_id) (λ env_id.
      or_exit (parse_session_id conn.session) (λ session_id. or_exit (make_client console) (λ link.
        or_exit (parse_env_vars console.debug_bytes env) (λ env_vars.
          answered
            (Client.execute requests responses link (record {
              environment_id = env_id;
              session_id = session_id;
              program = program;
              args = arg;
              working_directory = workdir;
              env_vars = env_vars;
            }))
            (λ process_id. prints (bytes process_id ∷ []))))))

  -- The ids of a command on a process, and the client.
  abbrev pub with_process :
      ProcConn → Str → (EnvironmentId → SessionId → ProcessId → Link → Ran) → Ran
  with_process conn id f = or_exit (parse_env_id conn.env_id) (λ env_id.
      or_exit (parse_session_id conn.session) (λ session_id.
        or_exit (parse_process_id id) (λ process_id.
          or_exit (make_client console) (λ link. f env_id session_id process_id link))))

  unfoldable pub proc_status : ProcConn → Str → Ran
  proc_status conn id = with_process conn id (λ env_id session_id process_id link.
      answered
        (Client.process_status requests responses link
          (record { environment_id = env_id; session_id = session_id; process_id = process_id }))
        (λ state. prints (debug_state console state ∷ [])))

  unfoldable pub proc_wait : ProcConn → Str → ℕ → Ran
  proc_wait conn id timeout = with_process conn id (λ env_id session_id process_id link.
      answered
        (Client.wait_process requests responses link (record {
          environment_id = env_id;
          session_id = session_id;
          process_id = process_id;
          timeout_secs = timeout;
        }))
        (λ resp. print_output console resp))

  unfoldable pub proc_kill : ProcConn → Str → Bool → Ran
  proc_kill conn id force = with_process conn id (λ env_id session_id process_id link.
      answered
        (Client.terminate_process requests responses link (record {
          environment_id = env_id;
          session_id = session_id;
          process_id = process_id;
          force = force;
        }))
        (λ terminated. prints ((lit "terminated: " <+> bool_text terminated) ∷ [])))

  unfoldable pub run_proc : ProcAction → Ran
  run_proc (ProcAction.run conn program arg workdir env) = proc_run conn program arg workdir env
  run_proc (ProcAction.status conn id) = proc_status conn id
  run_proc (ProcAction.wait conn id timeout) = proc_wait conn id timeout
  run_proc (ProcAction.kill conn id force) = proc_kill conn id force
