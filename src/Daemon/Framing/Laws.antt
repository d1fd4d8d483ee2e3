-- ===== src/Daemon/Framing/Laws.antt =====
-- crates/are-daemon/src/framing.rs: what is written is what is read.
use are.Base.{
  ℕ, ◌+◌, ◌^◌, ◌<◌, ◌≤◌, ◌≡◌, refl, ◌∙◌, ap, List, [], ◌++◌, none, ok, err, length, ltb, arith,
  true, false,
}
use are.Wire.{Writer, Faults, read_exact, to_be_bytes, frame}
use are.Wire.Laws.{read_exact-append, from_be_bytes-to_be_bytes, write_all-sent}
use are.Daemon.Framing.{
  Json, response_too_large, too_big, send, write_message_sized, read_payload, read_after,
  read_message_sized,
}
use mathlib.Core.List.{append_assoc, append-nil}

-- The calls for one message, none of which fails.
abbrev pub Sends : Faults → Writer → Type 0
Sends faults w =
    (faults w.calls ≡ none) × (faults (w.calls + 1) ≡ none) × (faults (w.calls + 1 + 1) ≡ none)

abbrev pub sent_after : Writer → List ℕ → Writer
sent_after w text = record { sent = w.sent ++ frame text; calls = w.calls + 1 + 1 + 1 }

pub send-frame :
    (faults : Faults) (text : List ℕ) (w : Writer)
    → Sends faults w
    → send faults text w ≡ (ok tt, sent_after w text)
send-frame faults text w (first, second, third) =
    rw
      (
        write_all-sent faults (to_be_bytes (length text)) w first,
        write_all-sent faults text
            (record { sent = w.sent ++ to_be_bytes (length text); calls = w.calls + 1 }) second,
        write_all-sent faults []
            (record {
              sent = (w.sent ++ to_be_bytes (length text)) ++ text;
              calls = w.calls + 1 + 1;
            })
            third,
        append-nil ((w.sent ++ to_be_bytes (length text)) ++ text),
        append_assoc w.sent (to_be_bytes (length text)) text,
      )
      refl

read_exact-four :
    (n : ℕ) (rest : List ℕ) → read_exact 4 (to_be_bytes n ++ rest) ≡ (ok (to_be_bytes n), rest)
unfolding to_be_bytes
read_exact-four n rest = read_exact-append (to_be_bytes n) rest

-- The first four bytes of a frame are its length.
read_length :
    {T : Type 0} (json : Json T) (max_payload : ℕ) (text rest : List ℕ)
    → length text < 4294967296
    → read_message_sized json max_payload (frame text ++ rest)
      ≡ read_payload json max_payload (length text) (text ++ rest)
unfolding read_message_sized
read_length json max_payload text rest small =
    ap (λ bytes. read_after json max_payload (read_exact 4 bytes))
      (append_assoc (to_be_bytes (length text)) text rest)
    ∙ ap (read_after json max_payload) (read_exact-four (length text) (text ++ rest))
    ∙ ap (λ n. read_payload json max_payload n (text ++ rest))
        (from_be_bytes-to_be_bytes (length text) small)

-- A text within the bound is read whole, and what comes after it is left.
pub read_frame :
    {T : Type 0} (json : Json T) (max_payload : ℕ) (text rest : List ℕ)
    → length text < 4294967296
    → length text ≤ max_payload
    → read_message_sized json max_payload (frame text ++ rest) ≡ (json.from_slice text, rest)
read_frame json max_payload text rest small fits =
    read_length json max_payload text rest small ∙ (rw (within, read_exact-append text rest) refl)
  where
    within : ltb max_payload (length text) ≡ false
    within = ground arith

pub write-frame :
    {T : Type 0} (json : Json T) (faults : Faults) (payload : T) (text : List ℕ) (max_payload : ℕ)
    (w : Writer)
    → json.to_vec payload ≡ ok text
    → ltb max_payload (length text) ≡ false
    → length text < 4294967296
    → Sends faults w
    → write_message_sized json faults payload max_payload w ≡ (ok tt, sent_after w text)
unfolding write_message_sized
write-frame json faults payload text max_payload w encodes within small sends =
    rw (encodes, within, short, send-frame faults text w sends) refl
  where
    short : ltb (length text) (2 ^ 32) ≡ true
    short = ground arith

-- A message that is written with no failure, in at most `max_payload` bytes of text that encode it
-- and below 4 GiB, is one frame after what was written before; and a reader of that frame, with a
-- bound that the text keeps, gets the message back and leaves the bytes after the frame.
pub read_message_sized-write_message_sized :
    {T : Type 0} (json : Json T) (faults : Faults) (payload : T) (text rest : List ℕ)
    (max_payload bound : ℕ) (w : Writer)
    → json.to_vec payload ≡ ok text
    → json.from_slice text ≡ ok payload
    → length text ≤ max_payload
    → length text ≤ bound
    → length text < 4294967296
    → Sends faults w
    → (bytes : List ℕ) × (((write_message_sized json faults payload max_payload w).0 ≡ ok tt)
        × ((write_message_sized json faults payload max_payload w).1.sent ≡ w.sent ++ bytes)
        × (read_message_sized json bound (bytes ++ rest) ≡ (ok payload, rest)))
read_message_sized-write_message_sized json faults payload text rest max_payload bound w encodes
      decodes fits read small sends =
    (
      frame text,
      (
        ap (λ x. x.0) written,
        ap (λ x. x.1.sent) written,
        read_frame json bound text rest small read ∙ (rw (decodes) refl),
      ),
    )
  where
    written : write_message_sized json faults payload max_payload w ≡ (ok tt, sent_after w text)
    written = write-frame json faults payload text max_payload w encodes (ground arith) small sends

-- A text over the writer's bound is refused before anything is written.
pub write-oversize :
    {T : Type 0} (json : Json T) (faults : Faults) (payload : T) (text : List ℕ) (max_payload : ℕ)
    (w : Writer)
    → json.to_vec payload ≡ ok text
    → ltb max_payload (length text) ≡ true
    → write_message_sized json faults payload max_payload w
      ≡ (err (response_too_large (length text) max_payload), w)
unfolding write_message_sized
write-oversize json faults payload text max_payload w encodes over = rw (encodes, over) refl

-- A frame with more text than the reader's bound is refused before its text is read.
pub read-oversize :
    {T : Type 0} (json : Json T) (max_payload : ℕ) (text rest : List ℕ)
    → length text < 4294967296
    → ltb max_payload (length text) ≡ true
    → read_message_sized json max_payload (frame text ++ rest)
      ≡ (err (too_big (length text) max_payload), text ++ rest)
read-oversize json max_payload text rest small over =
    read_length json max_payload text rest small ∙ (rw (over) refl)
