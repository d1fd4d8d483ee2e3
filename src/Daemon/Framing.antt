-- ===== src/Daemon/Framing.antt =====
-- crates/are-daemon/src/framing.rs, and the response path of crates/are-daemon/src/server.rs: one
-- message is four bytes of length and a JSON text. The JSON of a type is a parameter.
pub mod Laws
use are.Base.{
  ℕ, ◌*◌, ◌^◌, List, [], ◌∷◌, ◌++◌, Message, lit, num, Result, ok, err, length, ltb, if◌then◌else◌,
  ◌>>=◌,
}
use are.Core.Error.{◌<+>◌}
use are.Wire.{Writer, Faults, write_all, flush, and_then, read_exact, to_be_bytes, from_be_bytes}

-- `serde_json::to_vec` and `serde_json::from_slice` for one type.
pub record Json (T : Type 0) : Type 0 where
  pub to_vec : T → Result Message (List ℕ)
  pub from_slice : List ℕ → Result Message T

abbrev pub default_max_payload : ℕ
default_max_payload = 16 * 1024 * 1024

pub data FramingError : Type 0 where
  response_too_large : ℕ → ℕ → FramingError
  serialization : Message → FramingError
  io : Message → FramingError

-- An error of the writer, by `#[from]`.
abbrev from_io : Result Message (Unit {0}) × Writer → Result FramingError (Unit {0}) × Writer
from_io (ok u, w) = (ok tt, w)
from_io (err e, w) = (err (io e), w)

-- The length, the text and the flush.
abbrev pub send : Faults → List ℕ → Writer → Result Message (Unit {0}) × Writer
send faults json w =
    and_then (write_all faults (to_be_bytes (length json)) w)
      (λ w. and_then (write_all faults json w) (λ w. flush faults w))

abbrev pub send_json :
    Faults → ℕ → Writer → Result Message (List ℕ) → Result FramingError (Unit {0}) × Writer
send_json faults max_payload w (err e) = (err (serialization e), w)
send_json faults max_payload w (ok json) =
    if ltb max_payload (length json)
    then (err (response_too_large (length json) max_payload), w)
    else if ltb (length json) (2 ^ 32)
    then from_io (send faults json w)
    else (err (io (lit "payload exceeds 4 GiB")), w)

unfoldable pub write_message_sized :
    {T : Type 0} → Json T → Faults → T → ℕ → Writer → Result FramingError (Unit {0}) × Writer
write_message_sized json faults payload max_payload w =
    send_json faults max_payload w (json.to_vec payload)

unfoldable pub write_message :
    {T : Type 0} → Json T → Faults → T → Writer → Result FramingError (Unit {0}) × Writer
write_message json faults payload w = write_message_sized json faults payload default_max_payload w

abbrev pub too_big : ℕ → ℕ → Message
too_big len max_payload =
    lit "payload size " <+> num len <+> lit " exceeds maximum " <+> num max_payload

-- The text after its length.
abbrev pub read_payload : {T : Type 0} → Json T → ℕ → ℕ → List ℕ → Result Message T × List ℕ
read_payload json max_payload len bytes =
    if ltb max_payload len
    then (err (too_big len max_payload), bytes)
    else (let x = read_exact len bytes in (x.0 >>= λ buf. json.from_slice buf, x.1))

abbrev pub read_after :
    {T : Type 0} → Json T → ℕ → Result Message (List ℕ) × List ℕ → Result Message T × List ℕ
read_after json max_payload (err e, bytes) = (err e, bytes)
read_after json max_payload (ok len_buf, bytes) =
    read_payload json max_payload (from_be_bytes len_buf) bytes

-- The message, and the bytes that are left for the next one.
unfoldable pub read_message_sized : {T : Type 0} → Json T → ℕ → List ℕ → Result Message T × List ℕ
read_message_sized json max_payload bytes = read_after json max_payload (read_exact 4 bytes)

unfoldable pub read_message : {T : Type 0} → Json T → List ℕ → Result Message T × List ℕ
read_message json bytes = read_message_sized json default_max_payload bytes
