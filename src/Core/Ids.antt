-- ===== src/Core/Ids.antt =====
-- crates/are-core/src/ids.rs: identifiers, and the allocation of unguessable ones that
-- crates/are-daemon/src/session.rs and process.rs build from sixteen random bytes. An identifier
-- is the text that the newtype holds.
pub mod Laws
use are.Base.{
  ℕ, ◌+◌, ◌-◌, ◌/◌, ◌%◌, Bool, ◌&&◌, ◌||◌, List, [], ◌∷◌, ◌++◌, Str, ascii, all, is_empty, length,
  Message, lit, bytes, num, Result, ok, err, ◌>>=◌, map_err, eqb, leb, ltb, if◌then◌else◌,
}
use are.Core.Error.{
  CoreError, invalid_environment_id, invalid_session_id, invalid_process_id, ◌<+>◌,
}

abbrev pub EnvironmentId : Type 0
EnvironmentId = Str

abbrev pub SessionId : Type 0
SessionId = Str

abbrev pub ProcessId : Type 0
ProcessId = Str

abbrev pub max_id_length : ℕ
max_id_length = 64

unfoldable pub is_valid_id_byte : ℕ → Bool
is_valid_id_byte b =
    (leb b'a' b && leb b b'z')
    || ((leb b'0' b && leb b b'9') || (eqb b b'-' || (eqb b b'_' || eqb b b'.')))

unfoldable pub validate_id_bytes : Str → Result Message (Unit {0})
validate_id_bytes raw =
    if is_empty raw
    then err (lit "must not be empty")
    else if ltb max_id_length (length raw)
    then err (lit "length " <+> num (length raw) <+> lit " exceeds maximum " <+> num max_id_length)
    else if all is_valid_id_byte raw
    then ok tt
    else err (lit "contains invalid characters (allowed: [a-z0-9-_.])")

unfoldable pub try_new_environment_id : Str → Result CoreError EnvironmentId
try_new_environment_id raw = map_err invalid_environment_id (validate_id_bytes raw) >>= λ _. ok raw

unfoldable pub try_new_session_id : Str → Result CoreError SessionId
try_new_session_id raw = map_err invalid_session_id (validate_id_bytes raw) >>= λ _. ok raw

unfoldable pub try_new_process_id : Str → Result CoreError ProcessId
try_new_process_id raw = map_err invalid_process_id (validate_id_bytes raw) >>= λ _. ok raw

-- `char::from_digit(n, 16).unwrap_or('0')`.
unfoldable pub hex_digit : ℕ → ℕ
hex_digit n = if ltb n 10 then b'0' + n else if ltb n 16 then b'a' + (n - 10) else b'0'

-- The loop over the random bytes: `byte >> 4`, then `byte & 0x0f`.
unfoldable pub hex : List ℕ → Str
unfolding hex_digit
hex [] = []
hex (byte ∷ rest) = hex_digit (byte / 16) ∷ hex_digit (byte % 16) ∷ hex rest

-- The text that is handed to `try_new`.
abbrev pub session_id_text : List ℕ → Str
session_id_text random = ascii "sess-" ++ hex random

abbrev pub process_id_text : List ℕ → Str
process_id_text random = ascii "proc-" ++ hex random
