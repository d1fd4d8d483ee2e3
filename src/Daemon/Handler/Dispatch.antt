-- ===== src/Daemon/Handler/Dispatch.antt =====
-- crates/are-daemon/src/handler.rs: the dispatch of a request to its handler.
pub mod Kinds
pub mod Errors
pub mod Refused
pub mod Elsewhere
pub mod Waits
use are.Base.{
  ℕ, List, Option, none, some, Str, Result, ok, err, ◌>>=◌, ensure, map_err, ◌==◌, str_eq,
}
use are.Core.Info.{
  GetEnvironmentInfoRequest, GetEnvironmentInfoResponse, RpcRequest, RpcResponse,
  RpcResponsePayload, RpcError,
}
use are.Daemon.Auth.{Caller}
use are.Daemon.Disk.{Calls, Disk}
use are.Daemon.Process.Wait.{Round}
use are.Daemon.Handler.{DaemonState, wrong_environment}
use are.Daemon.Handler.Files.{
  handle_read_file, handle_list_directory, handle_get_file_metadata, handle_write_file,
  handle_create_directory, handle_rename, handle_delete_file,
}
use are.Daemon.Handler.Serve.{
  Served, handle_execute, handle_process_status, handle_terminate_process, handle_wait_process,
  handle_create_session, handle_get_session, handle_list_sessions, handle_terminate_session,
}

-- What one request meets: the calls on files, the clock of the sessions and of the processes, the
-- rounds of a wait, and `std::env::consts::OS`.
pub record Moment : Type 0 where
  pub calls : Calls
  pub now : ℕ
  pub instant : ℕ
  pub rounds : List Round
  pub operating_system : Str

-- `none` when the request has not returned: its wait needs more rounds.
pub record Handled : Type 0 where
  pub response : Option RpcResponse
  pub state : DaemonState
  pub disk : Disk

unfoldable pub handle_get_environment_info :
    Moment
    → DaemonState
    → Caller
    → GetEnvironmentInfoRequest
    → Result RpcError GetEnvironmentInfoResponse
handle_get_environment_info moment state caller req =
    ensure (req.environment_id == state.environment_id)
      (wrong_environment req.environment_id state.environment_id)
    >>= λ _. ok (record {
      environment_id = state.environment_id;
      machine_name = state.machine_name;
      operating_system = moment.operating_system;
      daemon_version = state.daemon_version;
      advertised_capabilities = state.advertised_capabilities;
      platform = state.platform;
      caller_fingerprint = caller;
    })

-- `result.map(..)`.
abbrev pub respond : {A : Type 0} → (A → RpcResponsePayload) → Result RpcError A → RpcResponse
respond payload (ok a) = record { result = ok (payload a) }
respond payload (err e) = record { result = err e }

-- A handler that works on the files, and one that works on the tables.
abbrev pub on_disk :
    {A : Type 0} → (A → RpcResponsePayload) → DaemonState → Result RpcError A × Disk → Handled
on_disk payload state (r, d) = record {
  response = some (respond payload r);
  state = state;
  disk = d;
}

abbrev pub on_tables : {A : Type 0} → (A → RpcResponsePayload) → Disk → Served A → Handled
on_tables payload d (r, state) = record {
  response = some (respond payload r);
  state = state;
  disk = d;
}

-- The response of a wait, when it has one.
abbrev pub on_wait : {A : Type 0} → (A → RpcResponsePayload) → Disk → Served (Option A) → Handled
on_wait payload d (ok none, state) = record { response = none; state = state; disk = d }
on_wait payload d (ok (some a), state) = record {
  response = some (respond payload (ok a));
  state = state;
  disk = d;
}
on_wait payload d (err e, state) = record {
  response = some (respond payload (err e));
  state = state;
  disk = d;
}

unfoldable pub handle_as : Moment → DaemonState → Caller → RpcRequest → Disk → Handled
handle_as m state caller (RpcRequest.get_environment_info req) d =
    on_tables RpcResponsePayload.get_environment_info d
      (handle_get_environment_info m state caller req, state)
handle_as m state caller (RpcRequest.read_file req) d =
    on_disk RpcResponsePayload.read_file state (handle_read_file m.calls state caller req d)
handle_as m state caller (RpcRequest.list_directory req) d =
    on_disk RpcResponsePayload.list_directory state
      (handle_list_directory m.calls state caller req d)
handle_as m state caller (RpcRequest.get_file_metadata req) d =
    on_disk RpcResponsePayload.get_file_metadata state
      (handle_get_file_metadata m.calls state caller req d)
handle_as m state caller (RpcRequest.write_file req) d =
    on_disk RpcResponsePayload.write_file state (handle_write_file m.calls state caller req d)
handle_as m state caller (RpcRequest.create_directory req) d =
    on_disk RpcResponsePayload.create_directory state
      (handle_create_directory m.calls state caller req d)
handle_as m state caller (RpcRequest.rename req) d =
    on_disk RpcResponsePayload.rename state (handle_rename m.calls state caller req d)
handle_as m state caller (RpcRequest.delete_file req) d =
    on_disk RpcResponsePayload.delete_file state (handle_delete_file m.calls state caller req d)
handle_as m state caller (RpcRequest.execute req) d =
    on_tables RpcResponsePayload.execute d
      (handle_execute (m.calls.os d.tree) state caller req m.now m.instant)
handle_as m state caller (RpcRequest.process_status req) d =
    on_tables RpcResponsePayload.process_status d (handle_process_status state caller req m.now)
handle_as m state caller (RpcRequest.terminate_process req) d =
    on_tables RpcResponsePayload.terminate_process d
      (handle_terminate_process state caller req m.now)
handle_as m state caller (RpcRequest.wait_process req) d =
    on_wait RpcResponsePayload.wait_process d
      (handle_wait_process state caller req m.now m.instant m.rounds)
handle_as m state caller (RpcRequest.create_session req) d =
    on_tables RpcResponsePayload.create_session d
      (handle_create_session (m.calls.os d.tree) state caller req m.now)
handle_as m state caller (RpcRequest.get_session req) d =
    on_tables RpcResponsePayload.get_session d (handle_get_session state caller req m.now)
handle_as m state caller (RpcRequest.list_sessions req) d =
    on_tables RpcResponsePayload.list_sessions d (handle_list_sessions state caller req m.now)
handle_as m state caller (RpcRequest.terminate_session req) d =
    on_tables RpcResponsePayload.terminate_session d
      (handle_terminate_session state caller req m.now)
