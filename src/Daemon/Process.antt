-- ===== src/Daemon/Process.antt =====
-- crates/are-daemon/src/process.rs: the operations on the process table. The time is the argument
-- `now`, in nanoseconds since the Unix epoch.
-- An entry that several parts of the program share through an `Arc` is the
-- entry of the table; its lock is held for one step.
mod Entries
pub mod Env
pub mod Policy
pub mod Table
pub mod Output
pub mod Supervise
pub mod Wait
pub mod Bounded
use are.Base.{
  pair_eq, ℕ, zero, suc, ◌+◌, ◌-◌, ◌/◌, refl, ite, Bool, true, false, not, ◌&&◌, ◌||◌, List, [],
  ◌∷◌, Option, none, some, Str, all, any, keep, is_empty, length, Message, lit, bytes, num, Result,
  ok, err, ◌>>=◌, ◌>>◌, ensure, map_err, ok_or, leb, ltb, if◌then◌else◌, unwrap_or, ◌==◌, str_eq,
}
use are.Base.Dict.{Dict, get, insert, remove, contains_key, keys}
use are.Core.Error.{CoreError, ◌<+>◌, to_string}
use are.Core.Ids.{EnvironmentId, SessionId, ProcessId, process_id_text, try_new_process_id}
use are.Core.Grant.{normalize_program_name}
use are.Core.Request.{
  ℤ, SessionInfo, ProcessState, running, exited, failed, ExecuteRequest, validate_execute,
  WaitProcessRequest, validate_wait, TerminateProcessRequest, ProcessRequest, path_key,
}
use are.Daemon.Os.{Os, IoError}
use are.Daemon.Fs.{FilesystemConfig, FsError, filesystem_escape, resolve}
use are.Daemon.Process.Env.{merge_session_env}
unfoldable pub use Entries.*

unfoldable pub alloc_process_id : Os → ℕ → Result ProcessError ProcessId
alloc_process_id os i = do
  random ← map_err (λ e. internal (lit "failed to generate process id: " <+> e)) (os.random i)
  map_err (λ e. internal (lit "failed to allocate process id: " <+> to_string e))
      (try_new_process_id (process_id_text random))

-- The loop `for _ in 0..8` of `start`.
unfoldable pub choose_process_key :
    Os → Processes → EnvironmentId → SessionId → ℕ → ℕ → Result ProcessError ProcessKey
choose_process_key os table env sess zero i =
    err (internal (lit "repeated process id collisions; refusing spawn"))
choose_process_key os table env sess (suc rounds) i =
    let again = choose_process_key os table env sess rounds (i + 1) in
    alloc_process_id os i >>= λ candidate.
    if contains_key (env, (sess, candidate)) table then again else ok (env, (sess, candidate))

-- Entries of one session in one environment.
abbrev pub in_session : EnvironmentId → SessionId → ProcessKey → Bool
in_session env sess (e, (s, pid)) = e == env && s == sess

-- The entry that `start` inserts.
abbrev pub new_entry : Str → ℕ → ProcessEntry
new_entry program now = record {
  program = program;
  started_at = now;
  status = running;
  stdout = [];
  stderr = [];
  truncated = false;
  finished_at = none;
  kill_requested = false;
}

pub record ProcessManager : Type 0 where
  pub environment_id : EnvironmentId
  pub config : ProcessConfig
  pub fs : Option FilesystemConfig
  pub processes : Processes

abbrev workdir_refused : FsError → ProcessError
workdir_refused (filesystem_escape m) =
    invalid_request (lit "working_directory escapes allowed boundary")
workdir_refused e = invalid_request (lit "invalid working_directory")

abbrev error_text : IoError → Message
error_text (IoError.not_found m) = m
error_text (IoError.permission_denied m) = m
error_text (IoError.already_exists m) = m
error_text (IoError.other m) = m

abbrev workdir_error : IoError → ProcessError
workdir_error (IoError.not_found m) = invalid_request (lit "working_directory does not exist")
workdir_error (IoError.permission_denied m) =
    invalid_request (lit "working_directory permission denied")
workdir_error (IoError.already_exists m) = io (lit "working_directory error: " <+> m)
workdir_error (IoError.other m) = io (lit "working_directory error: " <+> m)

-- The checks of `start` that come before the table is locked; they give the working directory.
unfoldable pub check_start :
    Os → ProcessManager → ExecuteRequest → SessionInfo → Result ProcessError Str
check_start os m req session = do
  map_err (λ e. invalid_request (to_string e)) (validate_execute req)
  ensure (req.environment_id == m.environment_id) (
      environment_mismatch (
        lit "requested environment '"
        <+> bytes req.environment_id
        <+> lit "' does not match managed environment '"
        <+> bytes m.environment_id
        <+> lit "'"))
  ensure (req.session_id == session.session_id)
      (internal (lit "session binding mismatch: touched session differs from request session"))
  ensure (session.environment_id == m.environment_id)
      (internal (lit "session belongs to a different environment"))
  check_policy m.config req.program
  ensure (not (contains_key path_key req.env_vars || contains_key path_key session.env_vars)) (
      invalid_request (
        lit
          "env var PATH must not be supplied: programs resolve against the daemon's trusted PATH"))
  let effective_workdir =
      if is_empty req.working_directory then session.working_directory else req.working_directory
  fs ← ok_or m.fs (internal (lit "filesystem backend not configured"))
  workdir ← map_err workdir_refused (resolve os fs effective_workdir)
  is_dir ← map_err workdir_error (os.is_dir workdir)
  ensure is_dir (invalid_request (lit "working_directory is not a directory"))
  ok workdir

-- The critical section of `start`: the reserved key, and the table.
unfoldable pub reserve :
    Os → ProcessConfig → Processes → ExecuteRequest → ℕ → Result ProcessError ProcessKey × Processes
reserve os config before req now =
    let expired = evict_expired_terminal_entries before config.retention_secs now in
    let session_count =
      length (keep (in_session req.environment_id req.session_id) (keys expired)) in
    if leb config.max_processes_per_session session_count
    then (
      err (
          too_many_processes (
            lit "session '"
            <+> bytes req.session_id
            <+> lit "' holds "
            <+> num session_count
            <+> lit " processes (cap "
            <+> num config.max_processes_per_session
            <+> lit "): refusing spawn")),
      expired,
    )
    else let (made_room, table) = make_room_for_spawn expired config now in
      elim made_room [
        | err e ↦ (err e, table)
        | ok u ↦ elim (choose_process_key os table req.environment_id req.session_id 8 0) [
          | err e ↦ (err e, table)
          | ok key ↦ (ok key, insert key (new_entry req.program now) table)
        ]
      ]

unfoldable pub start :
    Os
    → ProcessManager
    → ExecuteRequest
    → SessionInfo
    → ℕ
    → Result ProcessError ProcessId × ProcessManager
start os m req session now = elim (check_start os m req session) [
  | err e ↦ (err e, m)
  | ok workdir ↦
      let (reserved, table) = reserve os m.config m.processes req now in
      elim reserved [
        | err e ↦ (err e, record m { processes = table })
        | ok (env, (sess, pid)) ↦
            elim (os.spawn req.program req.args workdir
              (merge_session_env session.env_vars req.env_vars)) [
                | ok u ↦ (ok pid, record m { processes = table })
                | err e ↦ (
                  err (
                      internal (
                        lit "failed to spawn "
                        <+> bytes req.program
                        <+> lit ": "
                        <+> error_text e)),
                  record m { processes = remove (req.environment_id, (req.session_id, pid)) table },
                )
              ]
      ]
]

unfoldable pub lookup :
    ProcessManager → EnvironmentId → SessionId → ProcessId → Result ProcessError ProcessEntry
lookup m env sess pid =
    ok_or (get (env, (sess, pid)) m.processes)
      (not_found (lit "unknown process id '" <+> bytes pid <+> lit "'"))

unfoldable pub status : ProcessManager → ProcessRequest → Result ProcessError ProcessState
unfolding lookup
status m req = do entry ← lookup m req.environment_id req.session_id req.process_id; ok entry.status

-- `terminate`, up to the wait for the child: whether a kill was issued.
unfoldable pub terminate :
    ProcessManager → TerminateProcessRequest → Result ProcessError Bool × ProcessManager
terminate m req = elim (lookup m req.environment_id req.session_id req.process_id) [
  | err e ↦ (err e, m)
  | ok entry ↦ if is_terminal entry.status then (ok false, m) else (
    ok true,
    record m {
      processes =
          insert (req.environment_id, (req.session_id, req.process_id))
            (record entry { kill_requested = true }) m.processes;
    },
  )
]

unfoldable pub count_for_session : ProcessManager → SessionId → ℕ
count_for_session m session_id =
    length (keep (λ (env, (sess, pid)). sess == session_id) (keys m.processes))

-- The loop over the entries of the session: the kills issued, and the table.
unfoldable pub kill_all : EnvironmentId → SessionId → Processes → ℕ × Processes
kill_all env sess [] = (0, [])
kill_all env sess ((key, entry) ∷ table) =
    let (count, rest) = kill_all env sess table in
    if in_session env sess key && not (is_terminal entry.status)
    then (count + 1, (key, record entry { kill_requested = true }) ∷ rest)
    else (count, (key, entry) ∷ rest)

unfoldable pub kill_session_processes :
    ProcessManager → EnvironmentId → SessionId → ℕ × ProcessManager
unfolding kill_all
kill_session_processes m env sess =
    let (count, table) = kill_all env sess m.processes in (count, record m { processes = table })
