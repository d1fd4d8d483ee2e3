-- ===== src/Adapter/Types.antt =====
-- crates/are-agent-adapter/src/lib.rs and error.rs: the types, and the errors.
use are.Base.{
  ℕ, ◌/◌, Bool, List, [], Option, none, some, Str, Message, Result, ok, err, if◌then◌else◌,
  unwrap_or,
}
use are.Base.Dict.{Dict}
use are.Core.Ids.{SessionId, try_new_session_id}
use are.Core.Info.{RpcError}
use are.Core.Request as Request
use are.Client.Connection.{ConnectionError}

pub record FileWriteResult : Type 0 where
  pub bytes_written : ℕ
  pub content_hash : Str

pub record DirectoryEntry : Type 0 where
  pub name : Str
  pub is_dir : Bool
  pub size : Option ℕ
  pub content_hash : Option Str

pub record FileMetadata : Type 0 where
  pub is_dir : Bool
  pub size : ℕ
  pub content_hash : Option Str
  pub modified : ℕ

pub record ExecuteRequest : Type 0 where
  pub program : Str
  pub args : List Str
  pub working_directory : Str
  pub env_vars : Dict Str Str
  pub session_id : Option SessionId

pub record SessionConfig : Type 0 where
  pub working_directory : Str
  pub env_vars : Dict Str Str

pub data AgentAdapterError : Type 0 where
  connection : ConnectionError → AgentAdapterError
  rpc : RpcError → AgentAdapterError
  io : Message → AgentAdapterError
  session_not_found : Message → AgentAdapterError
  process_not_found : Message → AgentAdapterError
  capability_not_available : Message → AgentAdapterError
  invalid_request : Message → AgentAdapterError
  timeout : Message → AgentAdapterError
  serialization : Message → AgentAdapterError

-- A call returns, or it panics.
pub data Outcome (A : Type 0) : Type 0 where
  returns : Result AgentAdapterError A → Outcome A
  panics : Outcome A

-- `?` on a call of the client, and what is made of its answer.
abbrev pub answered :
    {A B : Type 0} → Result ConnectionError A → (A → B) → Result AgentAdapterError B
answered (ok a) f = ok (f a)
answered (err e) f = err (connection e)

-- `SessionId::new`: an invalid id is a panic.
unfoldable pub new_session_id : Str → Option SessionId
new_session_id raw = elim (try_new_session_id raw) [ ok id ↦ some id | err e ↦ none ]

-- `session_id.unwrap_or_else(|| SessionId::new(""))`, with what follows.
abbrev pub with_session :
    {A : Type 0} → Option SessionId → (SessionId → Result AgentAdapterError A) → Outcome A
with_session (some id) f = returns (f id)
with_session none f = elim (new_session_id []) [ some id ↦ returns (f id) | none ↦ panics ]

-- `FileWriteResult` and the other results, from the responses.
abbrev pub write_result : Request.FileMetadata → FileWriteResult
write_result metadata = record {
  bytes_written = metadata.size;
  content_hash = unwrap_or metadata.hash [];
}

abbrev pub entry_result : Request.DirectoryEntry → DirectoryEntry
entry_result e = record {
  name = e.name;
  is_dir = e.metadata.is_dir;
  size = if e.metadata.is_file then some e.metadata.size else none;
  content_hash = e.metadata.hash;
}

-- `as_secs`, of a time in nanoseconds since the Unix epoch.
abbrev pub as_secs : Option ℕ → ℕ
as_secs none = 0
as_secs (some t) = t / 1000000000

abbrev pub metadata_result : Request.FileMetadata → FileMetadata
metadata_result meta = record {
  is_dir = meta.is_dir;
  size = meta.size;
  content_hash = meta.hash;
  modified = as_secs meta.modified_at;
}
