-- ===== src/Daemon/Session.antt =====
-- crates/are-daemon/src/session.rs: the session table. Each operation takes the manager, and gives
-- its answer with the manager that is left; the time is the argument `now`, in Unix seconds.
pub mod Table
pub mod Access
pub mod Create
pub mod Invariant
pub mod Listing
use are.Base.{
  ℕ, zero, suc, ◌+◌, ◌-◌, refl, ite, Bool, true, false, not, ◌||◌, List, [], ◌∷◌, map, Option, none,
  some, Str, ascii, keep, length, Message, lit, bytes, num, Result, ok, err, ◌>>=◌, ◌>>◌, ensure,
  map_err, ok_or, leb, ltb, if◌then◌else◌, unwrap_or, ◌==◌, str_eq,
}
use are.Base.Dict.{Dict, get, insert, remove, contains_key, values}
use are.Core.Error.{CoreError, ◌<+>◌, to_string}
use are.Core.Ids.{EnvironmentId, SessionId, session_id_text, try_new_session_id}
use are.Core.Request.{SessionInfo, CreateSessionRequest, validate_create_session, path_key}
use are.Daemon.Os.{Os, IoError, permission_denied, already_exists, other}
use are.Daemon.Fs.{FilesystemConfig, FsError, resolve}
use are.Daemon.Process.Env.{sanitize_env}

pub record SessionConfig : Type 0 where
  pub idle_timeout_secs : ℕ
  pub max_lifetime_secs : ℕ
  pub max_sessions : ℕ
  pub max_processes_per_session : ℕ

pub data SessionError : Type 0 where
  invalid_request : Message → SessionError
  environment_mismatch : Message → SessionError
  not_found : Message → SessionError
  expired : Message → SessionError
  too_many_sessions : Message → SessionError
  internal : Message → SessionError

pub record SessionRecord : Type 0 where
  pub info : SessionInfo

abbrev pub Sessions : Type 0
Sessions = Dict SessionId SessionRecord

pub record SessionManager : Type 0 where
  pub environment_id : EnvironmentId
  pub config : SessionConfig
  pub fs : Option FilesystemConfig
  pub sessions : Sessions

-- `SessionManager::new` and `with_filesystem`.
abbrev pub new_manager : EnvironmentId → SessionConfig → Option FilesystemConfig → SessionManager
new_manager environment_id config fs = record {
  environment_id = environment_id;
  config = config;
  fs = fs;
  sessions = [];
}

-- `saturating_sub` is subtraction on ℕ.
unfoldable pub is_expired : SessionInfo → SessionConfig → ℕ → Bool
is_expired info config now =
    let idle = now - info.last_activity in
    let age = now - info.created_at in
    ltb config.idle_timeout_secs idle || ltb config.max_lifetime_secs age

unfoldable pub owner_permits : Option Str → Option Str → Bool
owner_permits none caller_fp = true
owner_permits (some owner) none = false
owner_permits (some owner) (some fp) = owner == fp

-- The i-th call of the random source.
unfoldable pub alloc_session_id : Os → ℕ → Result SessionError SessionId
alloc_session_id os i = do
  random ← map_err (λ e. internal (lit "failed to generate session id: " <+> e)) (os.random i)
  map_err (λ e. internal (lit "failed to allocate session id: " <+> to_string e))
      (try_new_session_id (session_id_text random))

-- The loop `for _ in 0..8`, with the rounds that are left and the number of the next call.
unfoldable pub choose_session_id : Os → Sessions → ℕ → ℕ → Result SessionError SessionId
choose_session_id os table zero i =
    err (internal (lit "repeated session id collisions; refusing creation"))
choose_session_id os table (suc rounds) i =
    let again = choose_session_id os table rounds (i + 1) in
    alloc_session_id os i >>= λ candidate.
    if contains_key candidate table then again else ok candidate

-- The ids of the expired entries.
unfoldable pub expired_ids : Sessions → SessionConfig → ℕ → List SessionId
expired_ids [] config now = []
expired_ids ((id, record') ∷ table) config now =
    let rest = expired_ids table config now in
    if is_expired record'.info config now then id ∷ rest else rest

unfoldable pub remove_all : List SessionId → Sessions → Sessions
remove_all [] table = table
remove_all (id ∷ ids) table = remove_all ids (remove id table)

-- The table that is left, and the purged ids.
unfoldable pub purge_expired_locked : Sessions → SessionConfig → ℕ → Sessions × List SessionId
unfolding expired_ids remove_all
purge_expired_locked table config now =
    (remove_all (expired_ids table config now) table, expired_ids table config now)

abbrev workdir_error : IoError → SessionError
workdir_error (IoError.not_found m) = invalid_request (lit "working_directory does not exist")
workdir_error (permission_denied m) = invalid_request (lit "working_directory permission denied")
workdir_error (already_exists m) = invalid_request (lit "working_directory error: " <+> m)
workdir_error (other m) = invalid_request (lit "working_directory error: " <+> m)

-- The checks of `create_owned` that come before the table is locked; they give the relative
-- working directory.
unfoldable pub check_create : Os → SessionManager → CreateSessionRequest → Result SessionError Str
check_create os m req = do
  map_err (λ e. invalid_request (to_string e)) (validate_create_session req)
  ensure (req.environment_id == m.environment_id) (
      environment_mismatch (
        lit "requested environment '"
        <+> bytes req.environment_id
        <+> lit "' does not match managed environment '"
        <+> bytes m.environment_id
        <+> lit "'"))
  fs ← ok_or m.fs (invalid_request (lit "filesystem backend not configured"))
  let workdir_rel = unwrap_or req.working_directory (ascii ".")
  workdir ←
      map_err (λ e. invalid_request (lit "invalid working_directory")) (resolve os fs workdir_rel)
  is_dir ← map_err workdir_error (os.is_dir workdir)
  ensure is_dir (invalid_request (lit "working_directory is not a directory"))
  ensure (not (contains_key path_key req.env_vars)) (
      invalid_request (
        lit
          "env var PATH must not be supplied: programs resolve against the daemon's trusted PATH"))
  ok workdir_rel

-- The record of a new session.
abbrev pub new_session : SessionId → CreateSessionRequest → Str → Option Str → ℕ → SessionInfo
new_session id req workdir_rel owner now = record {
  session_id = id;
  environment_id = req.environment_id;
  working_directory = workdir_rel;
  env_vars = sanitize_env req.env_vars;
  created_at = now;
  last_activity = now;
  owner = owner;
}

-- An answer, and the table that is left.
abbrev pub Locked : Type 0 → Type 0
Locked A = A × Sessions

abbrev pub table_full : Sessions → SessionError
table_full table =
    too_many_sessions (
      lit "session table full ("
      <+> num (length table)
      <+> lit " live sessions): refusing creation")

-- The critical section of `create_owned`.
unfoldable pub create_locked :
    Os
    → SessionConfig
    → Sessions
    → CreateSessionRequest
    → Str
    → Option Str
    → ℕ
    → Locked (Result SessionError (SessionInfo × List SessionId))
create_locked os config before req workdir_rel owner now =
    let (table, purged) = purge_expired_locked before config now in
    if leb config.max_sessions (length table)
    then (err (table_full table), table)
    else elim (choose_session_id os table 8 0) [
      | err e ↦ (err e, table)
      | ok id ↦
          let info = new_session id req workdir_rel owner now in
          (ok (info, purged), insert id (record { info = info }) table)
    ]

unfoldable pub create_owned :
    Os
    → SessionManager
    → CreateSessionRequest
    → Option Str
    → ℕ
    → Result SessionError (SessionInfo × List SessionId) × SessionManager
create_owned os m req owner now = elim (check_create os m req) [
  | err e ↦ (err e, m)
  | ok workdir_rel ↦
      let (result, table) = create_locked os m.config m.sessions req workdir_rel owner now in
      (result, record m { sessions = table })
]

abbrev pub unknown_session : SessionId → SessionError
unknown_session id = SessionError.not_found (lit "unknown session id '" <+> bytes id <+> lit "'")

abbrev pub expired_session : SessionId → SessionError
expired_session id = expired (lit "session '" <+> bytes id <+> lit "' expired")

-- `record.info.last_activity = now`.
abbrev pub bump : SessionRecord → ℕ → SessionRecord
bump r now = record { info = record (r.info) { last_activity = now } }

unfoldable pub get_session :
    SessionManager → SessionId → ℕ → Result SessionError SessionInfo × SessionManager
get_session m id now = elim (get id m.sessions) [
  | none ↦ (err (unknown_session id), m)
  | some r ↦
      if is_expired r.info m.config now
      then (err (expired_session id), record m { sessions = remove id m.sessions })
      else (ok ((bump r now).info), record m { sessions = insert id (bump r now) m.sessions })
]

-- `list`: every live session of the environment.
unfoldable pub list :
    SessionManager → EnvironmentId → ℕ → (List SessionInfo × List SessionId) × SessionManager
list m environment_id now =
    let (table, purged) = purge_expired_locked m.sessions m.config now in
    (
      (
        keep (λ info. info.environment_id == environment_id) (map (λ r. r.info) (values table)),
        purged,
      ),
      record m { sessions = table },
    )

-- The branch of `get_owned` and `terminate_owned` for a caller that the owner rule refuses.
abbrev pub hidden {ℓ} :
    {A : Type ℓ}
    → SessionManager
    → SessionId
    → SessionRecord
    → ℕ
    → (Result SessionError A × List SessionId) × SessionManager
hidden m id r now =
    if is_expired r.info m.config now
    then ((err (unknown_session id), id ∷ []), record m { sessions = remove id m.sessions })
    else ((err (unknown_session id), []), m)

unfoldable pub get_owned :
    SessionManager
    → SessionId
    → Option Str
    → ℕ
    → (Result SessionError SessionInfo × List SessionId) × SessionManager
get_owned m id caller_fp now = elim (get id m.sessions) [
  | none ↦ ((err (unknown_session id), []), m)
  | some r ↦
      if owner_permits r.info.owner caller_fp
      then (if is_expired r.info m.config now
          then ((err (expired_session id), id ∷ []), record m { sessions = remove id m.sessions })
          else (
            (ok ((bump r now).info), []),
            record m { sessions = insert id (bump r now) m.sessions },
          ))
      else hidden m id r now
]

-- The filter of `list_owned`.
abbrev pub is_visible : Option Str → SessionInfo → Bool
is_visible none info = true
is_visible (some fp) info = elim info.owner [ none ↦ true | some owner ↦ owner == fp ]

unfoldable pub list_owned :
    SessionManager
    → EnvironmentId
    → Option Str
    → ℕ
    → (List SessionInfo × List SessionId) × SessionManager
list_owned m environment_id caller_fp now =
    let (table, purged) = purge_expired_locked m.sessions m.config now in
    (
      (
        keep (is_visible caller_fp) (
            keep (λ info. info.environment_id == environment_id)
              (map (λ r. r.info) (values table))),
        purged,
      ),
      record m { sessions = table },
    )

unfoldable pub terminate_owned :
    SessionManager
    → SessionId
    → Option Str
    → ℕ
    → (Result SessionError (Unit {0}) × List SessionId) × SessionManager
terminate_owned m id caller_fp now = elim (get id m.sessions) [
  | none ↦ ((err (unknown_session id), []), m)
  | some r ↦
      if owner_permits r.info.owner caller_fp
      then (if is_expired r.info m.config now
          then ((err (expired_session id), id ∷ []), record m { sessions = remove id m.sessions })
          else ((ok tt, []), record m { sessions = remove id m.sessions }))
      else hidden m id r now
]

-- `terminate`: the purged ids are dropped.
unfoldable pub terminate :
    SessionManager → SessionId → ℕ → Result SessionError (Unit {0}) × SessionManager
unfolding terminate_owned
terminate m id now = let (answer, m') = terminate_owned m id none now in (answer.0, m')
