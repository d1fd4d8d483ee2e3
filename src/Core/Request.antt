-- ===== src/Core/Request.antt =====
-- crates/are-core/src/request.rs: the requests, and their validation.
mod Types
pub mod Laws
use are.Base.{
  ℕ, ◌*◌, refl, ite, Bool, not, ◌&&◌, ◌||◌, List, [], ◌∷◌, Option, none, some, Str, ascii, all,
  is_empty, length, Message, lit, bytes, num, Result, ok, err, ◌>>=◌, ◌>>◌, eqb, leb, ltb,
  if◌then◌else◌, ◌==◌, str_eq, contains,
}
use are.Base.Dict.{Dict}
use are.Core.Error.{CoreError, invalid_request, ◌<+>◌}
use are.Core.Ids.{EnvironmentId, SessionId, ProcessId}
unfoldable pub use Types.*

abbrev pub hash_hex_len : ℕ
hash_hex_len = 64

abbrev pub max_exec_args : ℕ
max_exec_args = 256

abbrev pub max_exec_arg_len : ℕ
max_exec_arg_len = 32 * 1024

abbrev pub max_exec_env_vars : ℕ
max_exec_env_vars = 128

abbrev pub max_exec_env_key_len : ℕ
max_exec_env_key_len = 4 * 1024

abbrev pub max_exec_env_value_len : ℕ
max_exec_env_value_len = 1024 * 1024

abbrev pub min_wait_timeout_secs : ℕ
min_wait_timeout_secs = 1

abbrev pub max_wait_timeout_secs : ℕ
max_wait_timeout_secs = 3600

abbrev pub path_key : Str
path_key = ascii "PATH"

-- `b.is_ascii_hexdigit()`.
abbrev pub is_hexdigit : ℕ → Bool
is_hexdigit b =
    (leb b'0' b && leb b b'9') || ((leb b'a' b && leb b b'f') || (leb b'A' b && leb b b'F'))

unfoldable pub is_valid_hash : Str → Bool
is_valid_hash s = eqb (length s) hash_hex_len && all is_hexdigit s

abbrev refuse : Message → Result CoreError (Unit {0})
refuse m = err (invalid_request m)

-- The body of the loop over the variables.
unfoldable pub validate_env_var : Str → Str → Result CoreError (Unit {0})
validate_env_var key value =
    if is_empty key
    then refuse (lit "env var key must not be empty")
    else if contains b'=' key || contains 0 key
    then refuse (lit "invalid env var key: " <+> bytes key)
    else if ltb max_exec_env_key_len (length key)
    then refuse (
        lit "env var key "
        <+> bytes key
        <+> lit " exceeds maximum length "
        <+> num max_exec_env_key_len)
    else if ltb max_exec_env_value_len (length value)
    then refuse (
        lit "env var value for "
        <+> bytes key
        <+> lit " exceeds maximum length "
        <+> num max_exec_env_value_len)
    else if contains 0 value
    then refuse (lit "env var value for " <+> bytes key <+> lit " must not contain NUL")
    else if key == path_key
    then refuse (
        lit "env var PATH must not be supplied: programs resolve against the daemon's trusted PATH")
    else ok tt

unfoldable pub validate_each_env_var : EnvVars → Result CoreError (Unit {0})
unfolding validate_env_var
validate_each_env_var [] = ok tt
validate_each_env_var ((key, value) ∷ env_vars) = do
  validate_env_var key value
  validate_each_env_var env_vars

unfoldable pub validate_env_vars : EnvVars → Result CoreError (Unit {0})
unfolding validate_each_env_var
validate_env_vars env_vars =
    if ltb max_exec_env_vars (length env_vars)
    then refuse (
        lit "too many env vars: "
        <+> num (length env_vars)
        <+> lit " exceeds maximum "
        <+> num max_exec_env_vars)
    else validate_each_env_var env_vars

unfoldable pub validate_write_file : WriteFileRequest → Result CoreError (Unit {0})
unfolding is_valid_hash
validate_write_file req =
    if is_empty req.path then refuse (lit "path must not be empty") else elim req.expected_hash [
      | none ↦ ok tt
      | some h ↦
          if is_valid_hash h
          then ok tt
          else refuse (
              lit "expected_hash must be "
              <+> num hash_hex_len
              <+> lit " hex chars, got "
              <+> bytes h)
    ]

unfoldable pub validate_path : PathRequest → Result CoreError (Unit {0})
validate_path req = if is_empty req.path then refuse (lit "path must not be empty") else ok tt

unfoldable pub validate_rename : RenameRequest → Result CoreError (Unit {0})
validate_rename req =
    if is_empty req.src
    then refuse (lit "src must not be empty")
    else if is_empty req.dst
    then refuse (lit "dst must not be empty")
    else if req.src == req.dst
    then refuse (lit "src and dst must differ")
    else ok tt

unfoldable pub validate_args : List Str → Result CoreError (Unit {0})
validate_args [] = ok tt
validate_args (arg ∷ args) =
    let rest = validate_args args in
    if contains 0 arg
    then refuse (lit "args must not contain NUL")
    else if ltb max_exec_arg_len (length arg)
    then refuse (lit "arg exceeds maximum length " <+> num max_exec_arg_len)
    else rest

unfoldable pub validate_execute : ExecuteRequest → Result CoreError (Unit {0})
unfolding validate_args validate_env_vars
validate_execute req =
    if is_empty req.program
    then refuse (lit "program must not be empty")
    else if contains 0 req.program
    then refuse (lit "program must not contain NUL")
    else if contains 0 req.working_directory
    then refuse (lit "working_directory must not contain NUL")
    else if ltb max_exec_args (length req.args)
    then refuse (
        lit "too many args: "
        <+> num (length req.args)
        <+> lit " exceeds maximum "
        <+> num max_exec_args)
    else validate_args req.args >> validate_env_vars req.env_vars

unfoldable pub validate_create_session : CreateSessionRequest → Result CoreError (Unit {0})
unfolding validate_env_vars
validate_create_session req = elim req.working_directory [
  | none ↦ validate_env_vars req.env_vars
  | some workdir ↦
      if is_empty workdir
      then refuse (lit "working_directory must not be empty: pass None for the default")
      else if contains 0 workdir
      then refuse (lit "working_directory must not contain NUL")
      else validate_env_vars req.env_vars
]

unfoldable pub validate_wait : WaitProcessRequest → Result CoreError (Unit {0})
validate_wait req =
    if ltb req.timeout_secs min_wait_timeout_secs
    then refuse (
        lit "timeout_secs "
        <+> num req.timeout_secs
        <+> lit " is below minimum "
        <+> num min_wait_timeout_secs
        <+> lit ": wait requires an explicit timeout")
    else if ltb max_wait_timeout_secs req.timeout_secs
    then refuse (
        lit "timeout_secs "
        <+> num req.timeout_secs
        <+> lit " exceeds maximum "
        <+> num max_wait_timeout_secs)
    else ok tt
