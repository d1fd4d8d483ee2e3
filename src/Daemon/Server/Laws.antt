-- ===== src/Daemon/Server/Laws.antt =====
-- crates/are-daemon/src/server.rs: the client always gets a response that it can read.
use are.Base.{
  ℕ, ◌<◌, ◌≤◌, ◌≡◌, refl, ◌∙◌, List, ◌++◌, ok, length, ltb, arith, Bool-cases, if◌then◌else◌, inl,
  inr,
}
use are.Wire.{Writer, Faults, frame}
use are.Daemon.Framing.{Json}
use are.Daemon.Framing.Laws.{Sends, write-oversize, write-frame, read_frame}
use are.Core.Info.{RpcResponse}
use are.Daemon.Server.{too_large_fallback, write_response_sized}
use are.Client.{read_message_sized}
use are.Client.Wire.{read_message_sized-same}

arrives :
    {T : Type 0} (json : Json T) (text rest : List ℕ) (max_payload : ℕ)
    → length text < 4294967296
    → length text ≤ max_payload
    → read_message_sized json max_payload (frame text ++ rest) ≡ (json.from_slice text, rest)
arrives json text rest max_payload small fits =
    read_message_sized-same json max_payload (frame text ++ rest)
    ∙ read_frame json max_payload text rest small fits

-- A response that has a JSON text, and whose replacement has one within the bound, which is below
-- 4 GiB: when no call fails, it is written, as one frame, and a client with the same bound reads the
-- response from it if the text of the response keeps the bound, and else the replacement; the bytes
-- after the frame are left.
pub write_response_sized-arrives :
    (json : Json RpcResponse) (faults : Faults) (response : RpcResponse) (text short rest : List ℕ)
    (max_payload : ℕ) (w : Writer)
    → json.to_vec response ≡ ok text
    → json.from_slice text ≡ ok response
    → json.to_vec (too_large_fallback (length text) max_payload) ≡ ok short
    → json.from_slice short ≡ ok (too_large_fallback (length text) max_payload)
    → length short ≤ max_payload
    → max_payload < 4294967296
    → Sends faults w
    → (bytes : List ℕ) × (((write_response_sized json faults response max_payload w).0 ≡ ok tt)
        × ((write_response_sized json faults response max_payload w).1.sent ≡ w.sent ++ bytes)
        × (read_message_sized json max_payload (bytes ++ rest) ≡ (
          ok (
              if ltb max_payload (length text)
              then too_large_fallback (length text) max_payload
              else response),
          rest,
        )))
unfolding write_response_sized
write_response_sized-arrives json faults response text short rest max_payload w encodes decodes
      encodes_short decodes_short fits bounded sends =
    elim (Bool-cases (ltb max_payload (length text))) [
      | inl large ↦
          let written =
            write-frame json faults (too_large_fallback (length text) max_payload) short max_payload
              w encodes_short (ground arith) (ground arith) sends in
          (
            frame short,
            rw
                (
                  write-oversize json faults response text max_payload w encodes large,
                  written,
                  large,
                )
                (
                  refl,
                  refl,
                  arrives json short rest max_payload (ground arith) fits
                      ∙ (rw (decodes_short) refl),
                ),
          )
      | inr small ↦
          let written =
            write-frame json faults response text max_payload w encodes small (ground arith)
              sends in
          (
            frame text,
            rw (written, small)
                (
                  refl,
                  refl,
                  arrives json text rest max_payload (ground arith) (ground arith)
                      ∙ (rw (decodes) refl),
                ),
          )
    ]
