-- ===== src/Daemon/Process/Entries.antt =====
-- crates/are-daemon/src/process.rs: the policy, the entries of the table and their eviction.
use are.Base.{
  pair_eq, ℕ, ◌-◌, ◌/◌, Bool, true, false, ◌&&◌, List, [], ◌∷◌, Option, none, some, Str, any,
  length, Message, lit, bytes, num, Result, ok, err, leb, ltb, if◌then◌else◌, unwrap_or, ◌==◌,
  str_eq,
}
use are.Base.Dict.{Dict, remove}
use are.Core.Error.{◌<+>◌}
use are.Core.Ids.{EnvironmentId, SessionId, ProcessId}
use are.Core.Grant.{normalize_program_name}
use are.Core.Request.{ProcessState, running, exited, failed}

pub data ProcessError : Type 0 where
  invalid_request : Message → ProcessError
  environment_mismatch : Message → ProcessError
  denied_executable : Message → ProcessError
  policy_denied : Message → ProcessError
  too_many_processes : Message → ProcessError
  not_found : Message → ProcessError
  io : Message → ProcessError
  internal : Message → ProcessError

pub record ProcessConfig : Type 0 where
  pub allowed_executables : Option (List Str)
  pub permissive : Bool
  pub denied_executables : List Str
  pub max_output_bytes : ℕ
  pub max_processes : ℕ
  pub max_processes_per_session : ℕ
  pub retention_secs : ℕ
  pub drain_timeout_secs : ℕ

-- The test of `check_policy` on a configured list.
abbrev pub names_program : List Str → Str → Bool
names_program names program =
    any (λ name. normalize_program_name name == normalize_program_name program) names

unfoldable pub check_policy : ProcessConfig → Str → Result ProcessError (Unit {0})
check_policy config program =
    let base = normalize_program_name program in
    if names_program config.denied_executables program
    then err
        (denied_executable (lit "program " <+> bytes base <+> lit " is denied by execution policy"))
    else elim config.allowed_executables [
      | some allowed ↦
          if names_program allowed program
          then ok tt
          else err (
              denied_executable
                (lit "program " <+> bytes base <+> lit " is not in the allowed executable list"))
      | none ↦
          if config.permissive
          then ok tt
          else err (policy_denied (lit "no allowed executables configured"))
    ]

-- `ProcessEntry`, with the `ManagedState` that its mutex guards, and the kill flag.
pub record ProcessEntry : Type 0 where
  pub program : Str
  pub started_at : ℕ
  pub status : ProcessState
  pub stdout : List ℕ
  pub stderr : List ℕ
  pub truncated : Bool
  pub finished_at : Option ℕ
  pub kill_requested : Bool

abbrev pub ProcessKey : Type 0
ProcessKey = EnvironmentId × (SessionId × ProcessId)

abbrev pub Processes : Type 0
Processes = Dict ProcessKey ProcessEntry

abbrev pub is_terminal : ProcessState → Bool
is_terminal running = false
is_terminal (exited code) = true
is_terminal (failed m) = true

abbrev pub nanos_per_sec : ℕ
nanos_per_sec = 1000000000

-- The filter of `evict_expired_terminal_entries`.
unfoldable pub is_evictable : ProcessEntry → ℕ → ℕ → Bool
is_evictable entry retention_secs now = is_terminal entry.status && elim entry.finished_at [
  | none ↦ false
  | some finished ↦ ltb retention_secs ((now - finished) / nanos_per_sec)
]

-- It collects the keys, then removes them one by one. The keys of a `HashMap` are distinct, so
-- this keeps every other entry.
unfoldable pub evict_expired_terminal_entries : Processes → ℕ → ℕ → Processes
evict_expired_terminal_entries [] retention_secs now = []
evict_expired_terminal_entries ((key, entry) ∷ table) retention_secs now =
    let rest = evict_expired_terminal_entries table retention_secs now in
    if is_evictable entry retention_secs now then rest else (key, entry) ∷ rest

-- The terminal entries with the time they finished at; one without a stamp is maximally old.
unfoldable pub terminal_keys : Processes → List (ℕ × ProcessKey)
terminal_keys [] = []
terminal_keys ((key, entry) ∷ table) =
    let rest = terminal_keys table in
    if is_terminal entry.status then (unwrap_or entry.finished_at 0, key) ∷ rest else rest

-- `sort_by_key`, which is stable.
unfoldable pub insert_by_time : ℕ × ProcessKey → List (ℕ × ProcessKey) → List (ℕ × ProcessKey)
insert_by_time (t, key) [] = (t, key) ∷ []
insert_by_time (t, key) ((s, k) ∷ sorted) =
    let rest = insert_by_time (t, key) sorted in
    if leb t s then (t, key) ∷ (s, k) ∷ sorted else (s, k) ∷ rest

unfoldable pub sort_by_time : List (ℕ × ProcessKey) → List (ℕ × ProcessKey)
unfolding insert_by_time
sort_by_time [] = []
sort_by_time (entry ∷ entries) = insert_by_time entry (sort_by_time entries)

-- The loop of `evict_oldest_terminal_entries`.
unfoldable pub remove_until : List (ℕ × ProcessKey) → Processes → ℕ → Processes
remove_until [] table max_processes = table
remove_until ((t, key) ∷ entries) table max_processes =
    let rest = remove_until entries (remove key table) max_processes in
    if ltb (length table) max_processes then table else rest

unfoldable pub evict_oldest_terminal_entries : Processes → ℕ → Processes
unfolding terminal_keys sort_by_time remove_until
evict_oldest_terminal_entries table max_processes =
    remove_until (sort_by_time (terminal_keys table)) table max_processes

-- The answer, and the table that is left.
unfoldable pub make_room_for_spawn :
    Processes → ProcessConfig → ℕ → Result ProcessError (Unit {0}) × Processes
make_room_for_spawn before config now =
    let expired = evict_expired_terminal_entries before config.retention_secs now in
    if ltb (length expired) config.max_processes
    then (ok tt, expired)
    else let table = evict_oldest_terminal_entries expired config.max_processes in
      if leb config.max_processes (length table)
      then (
        err (
            too_many_processes (
              lit "process table full ("
              <+> num (length table)
              <+> lit " entries, all live): refusing spawn")),
        table,
      )
      else (ok tt, table)
