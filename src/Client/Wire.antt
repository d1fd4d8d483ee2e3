-- ===== src/Client/Wire.antt =====
-- crates/are-client/src/framing.rs and crates/are-daemon/src/framing.rs: the two ends understand
-- each other.
use are.Base.{
  ℕ, ◌^◌, ◌<◌, ◌≡◌, refl, ◌∙◌, ap, List, ◌++◌, Result, Message, ok, err, length, ltb, arith, true,
  Bool-cases, inl, inr, if◌then◌else◌,
}
use are.Daemon.Framing.{Json}
use are.Daemon.Framing as Framing
use are.Daemon.Framing.Laws.{Sends, sent_after, send-frame, read_frame, read-oversize}
use are.Client.{write_message, read_rest, read_message_sized}
use are.Wire.{Writer, Faults, frame, read_exact}

-- The client reads what the daemon reads.
pub read_message_sized-same :
    {T : Type 0} (json : Json T) (max_payload : ℕ) (bytes : List ℕ)
    → read_message_sized json max_payload bytes ≡ Framing.read_message_sized json max_payload bytes
unfolding read_message_sized Framing.read_message_sized
read_message_sized-same json max_payload bytes = same (read_exact 4 bytes)
  where
    same :
        (x : Result Message (List ℕ) × List ℕ)
        → read_rest json max_payload x ≡ Framing.read_after json max_payload x
    same (ok len_buf, rest) = refl
    same (err e, rest) = refl

-- A request that has a JSON text below 4 GiB, written by the client when no call fails: it is one
-- frame, and the daemon reads the request from it if the text keeps the daemon's bound, and else
-- refuses it, with the text unread.
pub write_message-arrives :
    {T : Type 0} (json : Json T) (faults : Faults) (request : T) (text rest : List ℕ) (bound : ℕ)
    (w : Writer)
    → json.to_vec request ≡ ok text
    → json.from_slice text ≡ ok request
    → length text < 4294967296
    → Sends faults w
    → (bytes : List ℕ) × (((write_message json faults request w).0 ≡ ok tt)
        × ((write_message json faults request w).1.sent ≡ w.sent ++ bytes)
        × (Framing.read_message_sized json bound (bytes ++ rest) ≡ (
            if ltb bound (length text)
            then (err (Framing.too_big (length text) bound), text ++ rest)
            else (ok request, rest))))
unfolding write_message
write_message-arrives json faults request text rest bound w encodes decodes small sends =
    (frame text, (ap (λ x. x.0) written, ap (λ x. x.1.sent) written, reads))
  where
    short : ltb (length text) (2 ^ 32) ≡ true
    short = ground arith

    written : write_message json faults request w ≡ (ok tt, sent_after w text)
    written = rw (encodes, short) (send-frame faults text w sends)

    reads : Framing.read_message_sized json bound (frame text ++ rest) ≡ (
        if ltb bound (length text)
        then (err (Framing.too_big (length text) bound), text ++ rest)
        else (ok request, rest))
    reads = elim (Bool-cases (ltb bound (length text))) [
      | inl over ↦ rw (over) (read-oversize json bound text rest small over)
      | inr within ↦
          rw (within) (read_frame json bound text rest small (ground arith) ∙ (rw (decodes) refl))
    ]
