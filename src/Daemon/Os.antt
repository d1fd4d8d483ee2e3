-- ===== src/Daemon/Os.antt =====
-- What the daemon asks of the operating system, as it is during one request. The file tree, the
-- children and the clock are outside the program: each function is one call, with its answer.
use are.Base.{ℕ, Bool, List, Str, Message, Result, str_eq}
use are.Base.Dict.{Dict}

-- `std::io::ErrorKind`, as far as the code tells kinds apart.
pub data IoError : Type 0 where
  not_found : Message → IoError
  permission_denied : Message → IoError
  already_exists : Message → IoError
  other : Message → IoError

pub record Os : Type 0 where
  -- `std::fs::canonicalize`.
  pub canonicalize : Str → Result IoError Str
  -- `std::fs::metadata(path)?.is_dir()`.
  pub is_dir : Str → Result IoError Bool
  -- `tokio::process::Command::spawn` of a program with arguments, directory and environment.
  pub spawn : Str → List Str → Str → Dict Str Str → Result IoError (Unit {0})
  -- The i-th call of `getrandom` during the request: sixteen bytes, or a failure.
  pub random : ℕ → Result Message (List ℕ)
