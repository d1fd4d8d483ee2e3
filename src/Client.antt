-- ===== src/Client.antt =====
-- crates/are-client/src/framing.rs: the client's end of the wire. It is a copy of the daemon's with
-- no bound on what it sends.
pub mod Wire
pub mod Connection
use are.Base.{
  ℕ, ◌*◌, ◌^◌, List, Message, lit, num, Result, ok, err, length, ltb, if◌then◌else◌, ◌>>=◌,
}
use are.Core.Error.{◌<+>◌}
use are.Wire.{Writer, Faults, write_all, flush, and_then, read_exact, to_be_bytes, from_be_bytes}
use are.Daemon.Framing.{Json}

abbrev pub default_max_payload : ℕ
default_max_payload = 16 * 1024 * 1024

abbrev pub write_json :
    Faults → Writer → Result Message (List ℕ) → Result Message (Unit {0}) × Writer
write_json faults w (err e) = (err e, w)
write_json faults w (ok json) =
    if ltb (length json) (2 ^ 32)
    then and_then (write_all faults (to_be_bytes (length json)) w)
        (λ w. and_then (write_all faults json w) (λ w. flush faults w))
    else (err (lit "payload exceeds 4 GiB"), w)

unfoldable pub write_message :
    {T : Type 0} → Json T → Faults → T → Writer → Result Message (Unit {0}) × Writer
write_message json faults payload w = write_json faults w (json.to_vec payload)

-- The text after its length.
abbrev pub read_text : {T : Type 0} → Json T → ℕ → ℕ → List ℕ → Result Message T × List ℕ
read_text json max_payload len bytes =
    if ltb max_payload len
    then (
      err (lit "payload size " <+> num len <+> lit " exceeds maximum " <+> num max_payload),
      bytes,
    )
    else (let x = read_exact len bytes in (x.0 >>= λ buf. json.from_slice buf, x.1))

abbrev pub read_rest :
    {T : Type 0} → Json T → ℕ → Result Message (List ℕ) × List ℕ → Result Message T × List ℕ
read_rest json max_payload (err e, bytes) = (err e, bytes)
read_rest json max_payload (ok len_buf, bytes) =
    read_text json max_payload (from_be_bytes len_buf) bytes

unfoldable pub read_message_sized : {T : Type 0} → Json T → ℕ → List ℕ → Result Message T × List ℕ
read_message_sized json max_payload bytes = read_rest json max_payload (read_exact 4 bytes)

unfoldable pub read_message : {T : Type 0} → Json T → List ℕ → Result Message T × List ℕ
read_message json bytes = read_message_sized json default_max_payload bytes
