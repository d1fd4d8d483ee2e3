-- ===== src/Tests/Data.antt =====
-- Constants of the tests.
use are.Base.{true, false, List, [], ◌∷◌, none, some, Str, ascii, ok, str_eq}
use are.Core.Grant.{Grant, filesystem_read, filesystem_write, process_execute}
use are.Core.Request.{SessionInfo, CreateSessionRequest, running}
use are.Core.Platform.{Platform}
use are.Daemon.Os.{Os}
use are.Daemon.Fs.{FilesystemConfig}
use are.Daemon.Grants.{GrantsTable, RawPrincipalGrants, RawGrantsFile}
use are.Daemon.Session.{SessionConfig, SessionManager}
use are.Daemon.Process.{ProcessConfig, ProcessEntry, ProcessKey, ProcessManager}
use are.Daemon.Handler.{DaemonState}

-- A file tree in which every path leads to the directory `/srv/a`, and a random source that gives
-- sixteen zeros.
abbrev pub os : Os
os = record {
  canonicalize = λ p. ok (ascii "/srv/a");
  is_dir = λ p. ok true;
  spawn = λ program args workdir env. ok tt;
  random = λ i. ok (0 ∷ 0 ∷ 0 ∷ 0 ∷ 0 ∷ 0 ∷ 0 ∷ 0 ∷ 0 ∷ 0 ∷ 0 ∷ 0 ∷ 0 ∷ 0 ∷ 0 ∷ 0 ∷ []);
}

abbrev pub fs : FilesystemConfig
fs = record { allowed_roots = ascii "/srv" ∷ []; max_file_bytes = 1024 }

abbrev pub fingerprint : Str
fingerprint = ascii "blake3:0123456789abcdef0123456789abcdef0123456789abcdef0123456789abcdef"

abbrev pub raw_grants : RawPrincipalGrants
raw_grants = record {
  filesystem_read = ascii "" ∷ [];
  filesystem_write = ascii "a" ∷ [];
  filesystem_list = [];
  process_execute = ascii "git" ∷ [];
  process_inspect = false;
  process_terminate = true;
}

abbrev pub raw : RawGrantsFile
raw = record { principals = (fingerprint, raw_grants) ∷ [] }

abbrev pub grants : List Grant
grants =
    filesystem_read []
    ∷ filesystem_write (ascii "a")
    ∷ process_execute (ascii "git" ∷ [])
    ∷ Grant.process_terminate
    ∷ []

abbrev pub table : GrantsTable
table = record { principals = (fingerprint, grants) ∷ [] }

abbrev pub session_config : SessionConfig
session_config = record {
  idle_timeout_secs = 10;
  max_lifetime_secs = 100;
  max_sessions = 1;
  max_processes_per_session = 4;
}

abbrev pub alice : Str
alice = ascii "alice"

abbrev pub sid : Str
sid = ascii "sess-1"

abbrev pub env : Str
env = ascii "env-1"

abbrev pub info : SessionInfo
info = record {
  session_id = sid;
  environment_id = env;
  working_directory = ascii ".";
  env_vars = [];
  created_at = 0;
  last_activity = 0;
  owner = some alice;
}

abbrev pub one_session : SessionManager
one_session = record {
  environment_id = env;
  config = session_config;
  fs = some fs;
  sessions = (sid, record { info = info }) ∷ [];
}

abbrev pub creation : CreateSessionRequest
creation = record { environment_id = env; working_directory = none; env_vars = [] }

abbrev pub process_config : ProcessConfig
process_config = record {
  allowed_executables = some (ascii "git" ∷ []);
  permissive = false;
  denied_executables = ascii "shutdown" ∷ [];
  max_output_bytes = 4;
  max_processes = 1;
  max_processes_per_session = 1;
  retention_secs = 5;
  drain_timeout_secs = 5;
}

abbrev pub key : ProcessKey
key = (env, (sid, ascii "proc-1"))

abbrev pub entry : ProcessEntry
entry = record {
  program = ascii "git";
  started_at = 0;
  status = running;
  stdout = [];
  stderr = [];
  truncated = false;
  finished_at = none;
  kill_requested = false;
}

abbrev pub one_process : ProcessManager
one_process = record {
  environment_id = env;
  config = process_config;
  fs = some fs;
  processes = (key, entry) ∷ [];
}

abbrev pub state : DaemonState
state = record {
  environment_id = env;
  machine_name = ascii "dev-vm";
  daemon_version = ascii "0.1.0";
  advertised_capabilities = [];
  platform = Platform.debian;
  fs = some fs;
  proc = some one_process;
  sessions = some one_session;
  grants = some table;
}
