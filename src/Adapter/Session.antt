-- ===== src/Adapter/Session.antt =====
-- crates/are-agent-adapter/src/session.rs: the handle of a session.
use are.Base.{ℕ, true, List, map, none, some, Str, Result, str_eq}
use are.Core.Ids.{EnvironmentId, SessionId}
use are.Core.Info.{RpcRequest, RpcResponse}
use are.Daemon.Framing.{Json}
use are.Client.Connection.{Link}
use are.Client.Connection as Client
use are.Adapter.Types.{
  FileWriteResult, DirectoryEntry, FileMetadata, ExecuteRequest, AgentAdapterError, answered,
  write_result, entry_result, metadata_result,
}
use are.Adapter.Process.{ProcessHandle}

pub record SessionHandle : Type 0 where
  pub environment_id : EnvironmentId
  pub session_id : SessionId

module _ (requests : Json RpcRequest) (responses : Json RpcResponse) (link : Link) where
  unfoldable pub read_file : SessionHandle → Str → Result AgentAdapterError (List ℕ)
  read_file self path =
      answered
        (Client.read_file requests responses link
          (record { environment_id = self.environment_id; path = path }))
        (λ resp. resp.0)

  unfoldable pub write_file :
      SessionHandle → Str → List ℕ → Result AgentAdapterError FileWriteResult
  write_file self path content =
      answered
        (Client.write_file requests responses link (record {
          environment_id = self.environment_id;
          path = path;
          content = content;
          overwrite = true;
          expected_hash = none;
        }))
        write_result

  unfoldable pub list_directory :
      SessionHandle → Str → Result AgentAdapterError (List DirectoryEntry)
  list_directory self path =
      answered
        (Client.list_directory requests responses link
          (record { environment_id = self.environment_id; path = path }))
        (λ entries. map entry_result entries)

  unfoldable pub file_metadata : SessionHandle → Str → Result AgentAdapterError FileMetadata
  file_metadata self path =
      answered
        (Client.file_metadata requests responses link
          (record { environment_id = self.environment_id; path = path }))
        metadata_result

  unfoldable pub create_directory : SessionHandle → Str → Result AgentAdapterError (Unit {0})
  create_directory self path =
      answered
        (Client.create_directory requests responses link
          (record { environment_id = self.environment_id; path = path }))
        (λ resp. tt)

  unfoldable pub rename : SessionHandle → Str → Str → Result AgentAdapterError (Unit {0})
  rename self src dst =
      answered
        (Client.rename requests responses link
          (record { environment_id = self.environment_id; src = src; dst = dst }))
        (λ resp. tt)

  unfoldable pub delete : SessionHandle → Str → Result AgentAdapterError (Unit {0})
  delete self path =
      answered
        (Client.delete_file requests responses link
          (record { environment_id = self.environment_id; path = path }))
        (λ resp. tt)

  unfoldable pub execute : SessionHandle → ExecuteRequest → Result AgentAdapterError ProcessHandle
  execute self request =
      answered
        (Client.execute requests responses link (record {
          environment_id = self.environment_id;
          session_id = self.session_id;
          program = request.program;
          args = request.args;
          working_directory = request.working_directory;
          env_vars = request.env_vars;
        }))
        (λ process_id. record {
          environment_id = self.environment_id;
          process_id = process_id;
          session_id = some self.session_id;
        })
