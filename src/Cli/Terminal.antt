-- ===== src/Cli/Terminal.antt =====
-- crates/are-cli/src/main.rs: what the commands share.
pub mod EnvVars
use are.Base.{
  ℕ, ◌+◌, ◌*◌, Bool, true, false, not, ◌&&◌, List, [], ◌∷◌, ◌++◌, map, Option, none, some, Str,
  ascii, is_empty, strip_prefix, take, length, Message, lit, bytes, num, Result, ok, err, eqb,
  if◌then◌else◌, unwrap_or, str_eq,
}
use are.Base.Dict.{Dict, insert}
use are.Core.Error.{CoreError, ◌<+>◌, to_string}
use are.Core.Ids.{
  EnvironmentId, SessionId, ProcessId, try_new_environment_id, try_new_session_id,
  try_new_process_id,
}
use are.Core.Grant.{ascii_lower}
use are.Core.Capability.{CapabilitySet, as_str}
use are.Core.Request.{ℤ, pos, negsuc, ProcessState, is_valid_hash}
use are.Client.Connection.{Link, ConnectionError, connection_error_text}

-- A line or bytes, on the standard output or the standard error.
pub data Output : Type 0 where
  print : Message → Output
  println : Message → Output
  eprintln : Message → Output
  raw : List ℕ → Output
  eraw : List ℕ → Output

pub record Ran : Type 0 where
  pub out : List Output
  pub status : ℕ

-- What is outside: `SecureClient::from_pem_files` with the connection that a call finds, the
-- standard input whole, files and streams, the first certificate of a PEM text, BLAKE3, and the
-- formats `{:?}` and `{:>8}`.
pub record Console : Type 0 where
  pub client : Result ConnectionError Link
  pub stdin : Result Message (List ℕ)
  pub file_len : Str → Result Message ℕ
  pub read : Str → Result Message (List ℕ)
  pub write_stdout : List ℕ → Result Message (Unit {0})
  pub write_stderr : List ℕ → Result Message (Unit {0})
  pub first_certificate : List ℕ → Option (Result Message (List ℕ))
  pub hash : List ℕ → Str
  pub debug_time : ℕ → Message
  pub debug_text : Message → Message
  pub debug_bytes : List ℕ → Message
  pub padded : ℕ → Message

-- Lines, and an exit with status 0.
abbrev pub prints : List Message → Ran
prints lines = record { out = map println lines; status = 0 }

-- `eprintln!` and an exit with status 1.
abbrev pub exits : Message → Ran
exits m = record { out = eprintln m ∷ []; status = 1 }

abbrev pub exits_with : ConnectionError → Ran
exits_with e = exits (lit "error: " <+> connection_error_text e)

-- A value, or an exit.
abbrev pub or_exit : {A : Type 0} → Result Message A → (A → Ran) → Ran
or_exit (ok a) f = f a
or_exit (err m) f = exits m

abbrev pub named : {A : Type 0} → Message → Result CoreError A → Result Message A
named what (ok a) = ok a
named what (err e) = err (lit "error: invalid " <+> what <+> lit ": " <+> to_string e)

unfoldable pub parse_env_id : Str → Result Message EnvironmentId
parse_env_id env_id = named (lit "environment_id") (try_new_environment_id env_id)

unfoldable pub parse_process_id : Str → Result Message ProcessId
parse_process_id id = named (lit "process id") (try_new_process_id id)

unfoldable pub parse_session_id : Str → Result Message SessionId
parse_session_id id = named (lit "session id") (try_new_session_id id)

abbrev pub configured : Result ConnectionError Link → Result Message Link
configured (ok link) = ok link
configured (err e) = err (lit "error: failed to configure TLS: " <+> connection_error_text e)

-- `make_client` and `make_sess_client`.
unfoldable pub make_client : Console → Result Message Link
make_client console = configured console.client

-- The answer of the client, or its error.
abbrev pub answered : {A : Type 0} → Result ConnectionError A → (A → Ran) → Ran
answered (ok a) f = f a
answered (err e) f = exits_with e

-- `split_once('=')`.
unfoldable pub split_once : ℕ → Str → Option (Str × Str)
split_once sep [] = none
split_once sep (c ∷ s) =
    let rest = split_once sep s in
    if eqb c sep then some ([], s) else elim rest [ none ↦ none | some (k, v) ↦ some (c ∷ k, v) ]

-- The body of the loop of `parse_env_vars`.
abbrev pub add_env_var : Message → Option (Str × Str) → Dict Str Str → Result Message (Dict Str Str)
add_env_var kv (some ([], v)) env_vars =
    err (lit "error: invalid --env value " <+> kv <+> lit " (expected KEY=VAL)")
add_env_var kv (some (c ∷ k, v)) env_vars = ok (insert (c ∷ k) v env_vars)
add_env_var kv none env_vars =
    err (lit "error: invalid --env value " <+> kv <+> lit " (expected KEY=VAL)")

abbrev and_then : {A B : Type 0} → Result Message A → (A → Result Message B) → Result Message B
and_then (ok a) f = f a
and_then (err e) f = err e

unfoldable pub parse_each_env_var :
    (List ℕ → Message) → List Str → Dict Str Str → Result Message (Dict Str Str)
unfolding split_once
parse_each_env_var debug [] env_vars = ok env_vars
parse_each_env_var debug (kv ∷ env) env_vars =
    and_then (add_env_var (debug kv) (split_once b'=' kv) env_vars)
      (λ added. parse_each_env_var debug env added)

unfoldable pub parse_env_vars : (List ℕ → Message) → List Str → Result Message (Dict Str Str)
unfolding parse_each_env_var
parse_env_vars debug env = parse_each_env_var debug env []

abbrev pub max_cli_content_bytes : ℕ
max_cli_content_bytes = 16 * 1024 * 1024

unfoldable pub read_stdin_capped : Console → Result Message (List ℕ)
read_stdin_capped console = elim console.stdin [
  | ok buf ↦ ok (take (max_cli_content_bytes + 1) buf)
  | err e ↦ err (lit "error: failed to read stdin: " <+> e)
]

unfoldable pub normalize_expect_hash : Str → Option Str
normalize_expect_hash input =
    let hex = map ascii_lower (unwrap_or (strip_prefix (ascii "blake3:") input) input) in
    if is_valid_hash hex then some hex else none

-- `Option<i32>` and `ProcessState` in the format `{:?}`.
abbrev pub int_text : ℤ → Message
int_text (pos n) = num n
int_text (negsuc n) = lit "-" <+> num (n + 1)

abbrev pub debug_code : Option ℤ → Message
debug_code none = lit "None"
debug_code (some code) = lit "Some(" <+> int_text code <+> lit ")"

abbrev pub debug_state : Console → ProcessState → Message
debug_state console ProcessState.running = lit "Running"
debug_state console (ProcessState.exited code) =
    lit "Exited { code: " <+> int_text code <+> lit " }"
debug_state console (ProcessState.failed m) =
    lit "Failed { message: " <+> console.debug_text m <+> lit " }"

abbrev pub bool_text : Bool → Message
bool_text true = lit "true"
bool_text false = lit "false"

abbrev pub capability_lines : CapabilitySet → List Message
capability_lines set = map (λ cap. lit "    - " <+> bytes (as_str cap)) set
