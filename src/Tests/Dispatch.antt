-- ===== src/Tests/Dispatch.antt =====
-- Runs of the theorems on the dispatch, the client's methods, the start of the daemon and the adapter.
use are.Base.{
  ℕ, ◌≡◌, ◌≢◌, refl, true, false, List, [], ◌∷◌, none, some, Option, Str, ascii, Result, ok, err,
  lit, arith, starts_with, if◌then◌else◌, str_eq, ==_iff, ◌==◌, Message, split, num,
}
use are.Core.Capability.{filesystem_read, set_contains}
use are.Core.Ids.{try_new_environment_id, validate_id_bytes, is_valid_id_byte}
use are.Core.Info.{RpcRequest, RpcResponse, RpcResponsePayload}
use are.Wire.{Faults}
use are.Client.Connection.{Link, send_rpc}
use are.Client.Connection.Remote.{local, invoke}
use are.Client.Connection.EndToEnd.{
  sent_response, serving, daemon_link, request_bytes, invoke-handle_as,
}
use are.Daemon.Framing.{Json, default_max_payload}
use are.Base.Dict.{get}
use are.Daemon.Grants.{is_known}
use are.Daemon.Handler.{DaemonState}
use are.Daemon.Handler.Dispatch.{Moment, handle_get_environment_info, handle_as}
use are.Daemon.Handler.Dispatch.Errors.{named_session, LeftBy, Refuses}
use are.Daemon.Handler.Dispatch.Kinds.{Kind, request_kind}
use are.Daemon.Handler.Dispatch.Refused.{handle_as-unknown}
use are.Daemon.Handler.Dispatch.Elsewhere.{Same, named_environment, handle_as-elsewhere}
use are.Daemon.Server.{too_large_fallback}
use are.Daemon.Config.{Machine, default_config, build_daemon_state}
use are.Daemon.Config.Initial.{has_backend, advertised-has_backend}
use are.Daemon.Main.{
  Arguments, Files, validate_authz_mode, load_grants, choose_root, allow_list, listen,
}
use are.Daemon.Main.Modes.{HasMode, listen-HasMode}
use are.Daemon.Handler.Serve.{require_live_session, handle_wait_process}
use are.Daemon.Handler.{
  invalid_request, require_proc, deny_unknown_principal, check_terminate_grant, effective_grants,
  process_error_to_rpc,
}
use are.Daemon.Session.{get_owned, is_expired, owner_permits}
use are.Daemon.Process.Wait.{wait}
use are.Core.Request.{validate_wait}
use are.Core.Error.{◌<+>◌, to_string}
use are.Wire.{frame, read_exact, to_be_bytes, from_be_bytes, drop, write_all}
use are.Client.{write_message, read_message, read_message_sized}
use are.Adapter.Process.{ProcessHandle, wait_request, wait_infinite, wait_with_timeout}
use are.Adapter.Process.Waits.{FailsRemotely, wait_infinite-fails}
use are.Tests.Data.{state, fingerprint, table, env, sid, raw, os}
use are.Tests.Requests.{one_target, start}

abbrev moment : Moment
moment = record {
  calls = one_target;
  now = 5;
  instant = 5;
  rounds = [];
  operating_system = ascii "linux";
}

abbrev delete : RpcRequest
delete = RpcRequest.delete_file (record { environment_id = env; path = ascii "a" })

other_kind : request_kind delete ≢ Kind.get_environment_info
other_kind e = cc

handle_as-unknown_example :
    Refuses
      (LeftBy state (some (ascii "mallory")) 5 (named_session delete))
      start
      (handle_as moment state (some (ascii "mallory")) delete start)
unfolding str_eq is_known get
handle_as-unknown_example =
    handle_as-unknown state (some (ascii "mallory")) table refl refl moment delete start other_kind

abbrev elsewhere : DaemonState
elsewhere = record state { environment_id = ascii "env-2" }

differ : (env == ascii "env-2") ≡ true → ⊥
unfolding str_eq
differ h = cc

other_environment : named_environment delete ≢ elsewhere.environment_id
other_environment e = absurd (differ ((==_iff env (ascii "env-2")).1 e))

handle_as-elsewhere_example :
    Refuses (Same elsewhere) start (handle_as moment elsewhere (some fingerprint) delete start)
handle_as-elsewhere_example =
    handle_as-elsewhere elsewhere (some fingerprint) moment delete start other_environment

abbrev never : Faults
never i = none

abbrev info : RpcRequest
info = RpcRequest.get_environment_info (record { environment_id = env })

abbrev requests : Json RpcRequest
requests = record { to_vec = λ r. ok (ascii "q"); from_slice = λ text. ok info }

abbrev answer : RpcResponse
answer = record {
  result = ok (
      RpcResponsePayload.get_environment_info (record {
        environment_id = env;
        machine_name = state.machine_name;
        operating_system = ascii "linux";
        daemon_version = state.daemon_version;
        advertised_capabilities = state.advertised_capabilities;
        platform = state.platform;
        caller_fingerprint = some fingerprint;
      }));
}

abbrev response_text : RpcResponse → List ℕ
response_text r = elim r.result [ ok p ↦ ascii "p" | err e ↦ ascii "e" ]

abbrev read_response : List ℕ → Result Message RpcResponse
read_response text =
    if starts_with (ascii "p") text
    then ok answer
    else ok (too_large_fallback 1 default_max_payload)

abbrev responses : Json RpcResponse
responses = record { to_vec = λ r. ok (response_text r); from_slice = read_response }

invoke-handle_as_example :
    (invoke requests responses
        (daemon_link requests responses never never moment state fingerprint start)
        info
      ≡ local (sent_response answer 1))
    × ((serving requests responses never never moment state fingerprint start
          (request_bytes requests responses never never moment state fingerprint start info)).state
        ≡ (handle_as moment state (some fingerprint) info start).state)
    × ((serving requests responses never never moment state fingerprint start
          (request_bytes requests responses never never moment state fingerprint start info)).disk
        ≡ (handle_as moment state (some fingerprint) info start).disk)
unfolding handle_as handle_get_environment_info str_eq
invoke-handle_as_example =
    invoke-handle_as requests responses never never moment state fingerprint start info answer
      (ascii "q") (ascii "p") (ascii "e") (refl, refl) (omega arith) refl (refl, refl) (refl, refl)
      (omega arith) (refl, refl, refl) (refl, refl, refl)

abbrev machine : Machine
machine = record {
  hostname = none;
  operating_system = ascii "linux";
  os_release = none;
  version = ascii "0.1.0";
  os = os;
}

advertised-has_backend_example :
    set_contains (build_daemon_state machine default_config).advertised_capabilities filesystem_read
    ≡ has_backend (build_daemon_state machine default_config) filesystem_read
advertised-has_backend_example = advertised-has_backend machine default_config filesystem_read

abbrev files : Files
files = record {
  machine = machine;
  exists = λ path. true;
  current_dir = err (lit "no directory");
  read_grants = λ path. ok raw;
}

abbrev args : Arguments
args = record {
  environment_id = env;
  allowed_root = some (ascii "/srv");
  allow_exec = some (ascii "git, cargo");
  permissive_exec = false;
  session_idle_timeout = 10;
  session_max_lifetime = 100;
  max_sessions = 1;
  max_processes_per_session = 4;
  grants_file = none;
  permissive_authz = true;
}

abbrev started : DaemonState
started = build_daemon_state machine (record {
  environment_id = env;
  max_sessions = 1;
  max_processes_per_session = some 4;
  session_idle_timeout_secs = 10;
  session_max_lifetime_secs = 100;
  allowed_root = some (ascii "/srv");
  allowed_executables = some (ascii "git" ∷ ascii "cargo" ∷ []);
  permissive_exec = false;
  grants = none;
})

starts : listen files args ≡ ok started
unfolding listen validate_authz_mode load_grants choose_root try_new_environment_id
    validate_id_bytes allow_list split is_valid_id_byte
starts = refl

listen-HasMode_example : HasMode files args started
listen-HasMode_example = listen-HasMode files args starts

abbrev handle : ProcessHandle
handle = record { environment_id = env; process_id = ascii "proc-1"; session_id = some sid }

abbrev lost : ProcessHandle
lost = record handle { session_id = none }

abbrev dead : Link
dead = record {
  connect = err (lit "connection refused");
  handshake = ok tt;
  faults = never;
  peer = λ bytes. [];
}

-- The state without a grants file, and its session's owner.
abbrev permissive : DaemonState
permissive = record state { grants = none }

abbrev alice : Option Str
alice = some (ascii "alice")

abbrev zero_wait : RpcRequest
zero_wait = RpcRequest.wait_process (wait_request requests responses dead handle sid 0)

abbrev refused : RpcResponse
refused = record {
  result = err (
      invalid_request (
        lit "invalid request: "
        <+> (lit "timeout_secs "
            <+> num 0
            <+> lit " is below minimum "
            <+> num 1
            <+> lit ": wait requires an explicit timeout")));
}

abbrev refusals : Json RpcResponse
refusals = record { to_vec = λ r. ok (ascii "e"); from_slice = λ text. ok refused }

-- A daemon that answers with this response.
abbrev refusing : Link
refusing = record {
  connect = ok tt;
  handshake = ok tt;
  faults = never;
  peer = λ bytes. frame (ascii "e");
}

refuses : (handle_as moment permissive alice zero_wait start).response ≡ some refused
unfolding handle_as handle_wait_process require_proc require_live_session get_owned is_expired
    owner_permits deny_unknown_principal check_terminate_grant effective_grants wait validate_wait
    process_error_to_rpc to_string str_eq get
refuses = refl

sends : send_rpc requests refusals refusing zero_wait ≡ ok refused
unfolding send_rpc write_message read_message read_message_sized read_exact to_be_bytes
    from_be_bytes drop write_all
sends = refl

wait_infinite-fails_example :
    FailsRemotely (wait_infinite requests refusals refusing handle)
    × FailsRemotely (wait_with_timeout requests refusals refusing handle false)
wait_infinite-fails_example =
    wait_infinite-fails requests refusals refusing handle sid moment permissive alice start refused
      refl refuses sends
