-- ===== src/Core/Request/Types.antt =====
-- crates/are-core/src/request.rs: the fields of the requests and responses. A response with one field
-- is that field.
use are.Base.{ℕ, Bool, List, Option, Str, Message}
use are.Base.Dict.{Dict}
use are.Core.Ids.{EnvironmentId, SessionId, ProcessId}

abbrev pub EnvVars : Type 0
EnvVars = Dict Str Str

pub record FileMetadata : Type 0 where
  pub size : ℕ
  pub modified_at : Option ℕ
  pub is_dir : Bool
  pub is_file : Bool
  pub hash : Option Str

pub record DirectoryEntry : Type 0 where
  pub name : Str
  pub path : Str
  pub metadata : FileMetadata

pub record WriteFileRequest : Type 0 where
  pub environment_id : EnvironmentId
  pub path : Str
  pub content : List ℕ
  pub overwrite : Bool
  pub expected_hash : Option Str

-- `CreateDirectoryRequest`, `DeleteRequest`, `ReadFileRequest`, `GetFileMetadataRequest` and
-- `ListDirectoryRequest` have these two fields.
pub record PathRequest : Type 0 where
  pub environment_id : EnvironmentId
  pub path : Str

pub record RenameRequest : Type 0 where
  pub environment_id : EnvironmentId
  pub src : Str
  pub dst : Str

pub record ExecuteRequest : Type 0 where
  pub environment_id : EnvironmentId
  pub session_id : SessionId
  pub program : Str
  pub args : List Str
  pub working_directory : Str
  pub env_vars : EnvVars

pub record CreateSessionRequest : Type 0 where
  pub environment_id : EnvironmentId
  pub working_directory : Option Str
  pub env_vars : EnvVars

-- `GetSessionRequest` and `TerminateSessionRequest` have these two fields.
pub record SessionRequest : Type 0 where
  pub environment_id : EnvironmentId
  pub session_id : SessionId

pub record ListSessionsRequest : Type 0 where
  pub environment_id : EnvironmentId

-- `ProcessStatusRequest`.
pub record ProcessRequest : Type 0 where
  pub environment_id : EnvironmentId
  pub session_id : SessionId
  pub process_id : ProcessId

pub record TerminateProcessRequest : Type 0 where
  pub environment_id : EnvironmentId
  pub session_id : SessionId
  pub process_id : ProcessId
  pub force : Bool

pub record WaitProcessRequest : Type 0 where
  pub environment_id : EnvironmentId
  pub session_id : SessionId
  pub process_id : ProcessId
  pub timeout_secs : ℕ

pub record SessionInfo : Type 0 where
  pub session_id : SessionId
  pub environment_id : EnvironmentId
  pub working_directory : Str
  pub env_vars : EnvVars
  pub created_at : ℕ
  pub last_activity : ℕ
  pub owner : Option Str

-- Exit codes: an `i32`.
pub data ℤ : Type 0 where
  pos : ℕ → ℤ
  negsuc : ℕ → ℤ

pub data ProcessState : Type 0 where
  running : ProcessState
  exited : ℤ → ProcessState
  failed : Message → ProcessState

pub record WaitProcessResponse : Type 0 where
  pub stdout : List ℕ
  pub stderr : List ℕ
  pub exit_code : Option ℤ
  pub timed_out : Bool
  pub truncated : Bool
