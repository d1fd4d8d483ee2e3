-- ===== src/Adapter/Environment.antt =====
-- crates/are-agent-adapter/src/environment.rs: the handle of an environment. An operation that writes
-- the cache of session handles gives the environment that is left.
use are.Base.{
  ℕ, true, List, [], map, Option, none, some, Str, is_empty, Result, ok, err, if◌then◌else◌, str_eq,
}
use are.Base.Dict.{Dict, insert, remove}
use are.Core.Ids.{EnvironmentId, SessionId}
use are.Core.Capability.{CapabilitySet}
use are.Core.Info.{RpcRequest, RpcResponse}
use are.Core.Request.{SessionInfo}
use are.Daemon.Framing.{Json}
use are.Client.Connection.{Link}
use are.Client.Connection as Client
use are.Adapter.Types.{
  FileWriteResult, DirectoryEntry, FileMetadata, ExecuteRequest, SessionConfig, AgentAdapterError,
  Outcome, answered, with_session, write_result, entry_result, metadata_result,
}
use are.Adapter.Process.{ProcessHandle}
use are.Adapter.Session.{SessionHandle}

pub record RemoteEnvironment : Type 0 where
  pub environment_id : EnvironmentId
  pub capabilities : CapabilitySet
  pub sessions : Dict SessionId SessionHandle

abbrev pub new_unchecked : EnvironmentId → CapabilitySet → RemoteEnvironment
new_unchecked environment_id capabilities = record {
  environment_id = environment_id;
  capabilities = capabilities;
  sessions = [];
}

abbrev pub session_handle : RemoteEnvironment → SessionId → SessionHandle
session_handle self session_id = record {
  environment_id = self.environment_id;
  session_id = session_id;
}

-- The answer with the environment that is left, which an error leaves as it was.
abbrev pub keeping :
    {A : Type 0}
    → RemoteEnvironment
    → Result AgentAdapterError (A × RemoteEnvironment)
    → Result AgentAdapterError A × RemoteEnvironment
keeping self (ok (a, left)) = (ok a, left)
keeping self (err e) = (err e, self)

-- `Some(text).filter(|s| !s.is_empty())`.
abbrev pub unless_empty : Str → Option Str
unless_empty s = if is_empty s then none else some s

module _ (requests : Json RpcRequest) (responses : Json RpcResponse) (link : Link) where
  unfoldable pub connect : EnvironmentId → Result AgentAdapterError RemoteEnvironment
  connect environment_id =
      answered (Client.get_environment_info requests responses link environment_id) (λ info.
        record {
          environment_id = environment_id;
          capabilities = info.advertised_capabilities;
          sessions = [];
        })

  unfoldable pub read_file : RemoteEnvironment → Str → Result AgentAdapterError (List ℕ)
  read_file self path =
      answered
        (Client.read_file requests responses link
          (record { environment_id = self.environment_id; path = path }))
        (λ resp. resp.0)

  unfoldable pub write_file :
      RemoteEnvironment → Str → List ℕ → Result AgentAdapterError FileWriteResult
  write_file self path content =
      answered
        (Client.write_file requests responses link (record {
          environment_id = self.environment_id;
          path = path;
          content = content;
          overwrite = true;
          expected_hash = none;
        }))
        write_result

  unfoldable pub list_directory :
      RemoteEnvironment → Str → Result AgentAdapterError (List DirectoryEntry)
  list_directory self path =
      answered
        (Client.list_directory requests responses link
          (record { environment_id = self.environment_id; path = path }))
        (λ entries. map entry_result entries)

  unfoldable pub file_metadata : RemoteEnvironment → Str → Result AgentAdapterError FileMetadata
  file_metadata self path =
      answered
        (Client.file_metadata requests responses link
          (record { environment_id = self.environment_id; path = path }))
        metadata_result

  unfoldable pub execute : RemoteEnvironment → ExecuteRequest → Outcome ProcessHandle
  execute self request = with_session request.session_id (λ session_id.
      answered
        (Client.execute requests responses link (record {
          environment_id = self.environment_id;
          session_id = session_id;
          program = request.program;
          args = request.args;
          working_directory = request.working_directory;
          env_vars = request.env_vars;
        }))
        (λ process_id. record {
          environment_id = self.environment_id;
          process_id = process_id;
          session_id = some session_id;
        }))

  unfoldable pub create_session :
      RemoteEnvironment → SessionConfig → Result AgentAdapterError SessionHandle × RemoteEnvironment
  create_session self config = keeping self (
      answered
        (Client.create_session requests responses link (record {
          environment_id = self.environment_id;
          working_directory = unless_empty config.working_directory;
          env_vars = config.env_vars;
        }))
        (λ session.
          let handle = session_handle self session.session_id in
          (handle, record self { sessions = insert session.session_id handle self.sessions })))

  unfoldable pub resume_session :
      RemoteEnvironment → SessionId → Result AgentAdapterError SessionHandle × RemoteEnvironment
  resume_session self session_id = keeping self (
      answered
        (Client.get_session requests responses link
          (record { environment_id = self.environment_id; session_id = session_id }))
        (λ session.
          let handle = session_handle self session.session_id in
          (handle, record self { sessions = insert session_id handle self.sessions })))

  unfoldable pub list_sessions : RemoteEnvironment → Result AgentAdapterError (List SessionHandle)
  list_sessions self =
      answered
        (Client.list_sessions requests responses link
          (record { environment_id = self.environment_id }))
        (λ sessions.
          map (λ (summary : SessionInfo). session_handle self summary.session_id) sessions)

  unfoldable pub terminate_session :
      RemoteEnvironment → SessionId → Result AgentAdapterError (Unit {0}) × RemoteEnvironment
  terminate_session self session_id = keeping self (
      answered
        (Client.terminate_session requests responses link
          (record { environment_id = self.environment_id; session_id = session_id }))
        (λ count. (tt, record self { sessions = remove session_id self.sessions })))
