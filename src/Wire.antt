-- ===== src/Wire.antt =====
-- The byte streams that crates/are-daemon/src/framing.rs and crates/are-client/src/framing.rs send
-- and receive on, as tokio gives them. They are outside the program: a call of `write_all` or
-- `flush` can fail, after some of the bytes, and a reader sees the bytes that come before the end.
pub mod Laws
use are.Base.{
  ℕ, zero, suc, ◌+◌, ◌*◌, ◌/◌, ◌%◌, ◌<◌, List, [], ◌∷◌, ◌++◌, Option, none, some, take, length,
  Message, lit, Result, ok, err, ltb, if◌then◌else◌,
}

-- What has been written, and the number of the next call.
pub record Writer : Type 0 where
  pub sent : List ℕ
  pub calls : ℕ

abbrev pub new_writer : Writer
new_writer = record { sent = []; calls = 0 }

-- The i-th call fails, after some number of bytes.
abbrev pub Faults : Type 0
Faults = ℕ → Option (Message × ℕ)

abbrev pub written : List ℕ → Writer → Option (Message × ℕ) → Result Message (Unit {0}) × Writer
written bytes w none = (ok tt, record { sent = w.sent ++ bytes; calls = w.calls + 1 })
written bytes w (some (e, n)) =
    (err e, record { sent = w.sent ++ take n bytes; calls = w.calls + 1 })

unfoldable pub write_all : Faults → List ℕ → Writer → Result Message (Unit {0}) × Writer
write_all faults bytes w = written bytes w (faults w.calls)

abbrev pub flush : Faults → Writer → Result Message (Unit {0}) × Writer
flush faults w = write_all faults [] w

-- `?` between the calls of a writer.
abbrev pub and_then :
    Result Message (Unit {0}) × Writer
    → (Writer → Result Message (Unit {0}) × Writer)
    → Result Message (Unit {0}) × Writer
and_then (ok u, w) next = next w
and_then (err e, w) next = (err e, w)

-- The bytes after the first n.
unfoldable pub drop : ℕ → List ℕ → List ℕ
drop n [] = []
drop zero (b ∷ bytes) = b ∷ bytes
drop (suc n) (b ∷ bytes) = drop n bytes

-- `read_exact`, from the bytes that come: too few of them are an error, and are gone.
unfoldable pub read_exact : ℕ → List ℕ → Result Message (List ℕ) × List ℕ
read_exact n bytes =
    if ltb (length bytes) n then (err (lit "early eof"), []) else (ok (take n bytes), drop n bytes)

-- `u32::to_be_bytes` and `u32::from_be_bytes`.
unfoldable pub to_be_bytes : ℕ → List ℕ
to_be_bytes n = n / 16777216 % 256 ∷ n / 65536 % 256 ∷ n / 256 % 256 ∷ n % 256 ∷ []

unfoldable pub from_be_bytes : List ℕ → ℕ
from_be_bytes (a ∷ b ∷ c ∷ d ∷ []) = a * 16777216 + b * 65536 + c * 256 + d
from_be_bytes _ = 0

-- A JSON text with its length before it.
abbrev pub frame : List ℕ → List ℕ
frame json = to_be_bytes (length json) ++ json
