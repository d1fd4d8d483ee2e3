-- ===== src/Client/Connection/EndToEnd.antt =====
-- crates/are-client/src/connection.rs and crates/are-daemon/src/server.rs: a method of the client, on
-- a connection to the daemon.
use are.Base.{
  ℕ, ◌≡◌, ◌≤◌, refl, sym, ◌∙◌, ap, List, [], some, Str, ok, ltb, if◌then◌else◌, length, arith,
  false, Bool-cases, map_err, inl, inr,
}
use mathlib.Core.List.{append-nil}
use mathlib.Core.Path.{subst}
use are.Core.Info.{RpcRequest, RpcResponse}
use are.Wire.{Faults, new_writer}
use are.Client.{write_message}
use are.Client as Client
use are.Client.Wire.{write_message-arrives}
use are.Client.Connection.{Link, tcp, send_rpc}
use are.Client.Connection.Remote.{local, invoke, invoke-local}
use are.Daemon.Disk.{Disk}
use are.Daemon.Framing.{Json, default_max_payload}
use are.Daemon.Framing as Framing
use are.Daemon.Framing.Laws.{Sends}
use are.Daemon.Handler.{DaemonState}
use are.Daemon.Handler.Dispatch.{Moment, Handled, handle_as}
use are.Daemon.Handler.Dispatch.Kinds.{request_kind, HasKind, handle_as-HasKind}
use are.Daemon.Server.{Connection, write_response, handle_connection, too_large_fallback}
use are.Daemon.Server.Laws.{write_response_sized-arrives}
use are.Daemon.Server.Serves.{handle_connection-serves}

-- `text` is the JSON of `x`.
abbrev pub IsEncoded : {T : Type 0} → Json T → T → List ℕ → Type 0
IsEncoded json x text = (json.to_vec x ≡ ok text) × (json.from_slice text ≡ ok x)

-- What the daemon sends for a response with a text of this length.
abbrev pub sent_response : RpcResponse → ℕ → RpcResponse
sent_response response size =
    if ltb default_max_payload size then too_large_fallback size default_max_payload else response

module _ (requests : Json RpcRequest) (responses : Json RpcResponse) (client daemon : Faults)
    (m : Moment) (state : DaemonState) (fingerprint : Str) (d : Disk) where
  abbrev pub serving : List ℕ → Connection
  serving = handle_connection requests responses daemon m state fingerprint d

  -- A connection to the daemon, on which the TLS handshake has shown `fingerprint`.
  abbrev pub daemon_link : Link
  daemon_link = record {
    connect = ok tt;
    handshake = ok tt;
    faults = client;
    peer = λ bytes. (serving bytes).writer.sent;
  }

  abbrev pub request_bytes : RpcRequest → List ℕ
  request_bytes request = (write_message requests client request new_writer).1.sent

  module _ (request : RpcRequest) (response : RpcResponse) (text answer short : List ℕ)
      (encoded : IsEncoded requests request text) (small : length text ≤ default_max_payload)
      (answers : (handle_as m state (some fingerprint) request d).response ≡ some response)
      (encoded_answer : IsEncoded responses response answer)
      (encoded_short : IsEncoded responses
        (too_large_fallback (length answer) default_max_payload)
        short)
      (fits : length short ≤ default_max_payload) (sends : Sends client new_writer)
      (replies : Sends daemon new_writer) where
    abbrev handled : Handled
    handled = handle_as m state (some fingerprint) request d

    -- The daemon reads the request.
    request-read : (Framing.read_message requests (request_bytes request)).0 ≡ ok request
    unfolding Framing.read_message
    request-read =
        let (bytes, (done, sent, reads)) =
          write_message-arrives requests client request text [] default_max_payload new_writer
            encoded.0 encoded.1 (omega arith) sends in
        let within : ltb default_max_payload (length text) ≡ false = ground arith in
        ap (λ b. (Framing.read_message_sized requests default_max_payload b).0)
          (sent ∙ sym (append-nil bytes))
        ∙ (rw (reads, within) refl)

    request-written : (write_message requests client request new_writer).0 ≡ ok tt
    request-written =
        (write_message-arrives requests client request text [] default_max_payload new_writer
          encoded.0 encoded.1 (omega arith) sends).1.0

    -- The client reads what the daemon sends.
    response-read :
        (Client.read_message responses
          (write_response responses daemon response new_writer).1.sent).0
        ≡ ok (sent_response response (length answer))
    unfolding Client.read_message write_response
    response-read =
        let (bytes, (done, sent, reads)) =
          write_response_sized-arrives responses daemon response answer short [] default_max_payload
            new_writer encoded_answer.0 encoded_answer.1 encoded_short.0 encoded_short.1 fits
            (omega arith) replies in
        ap (λ b. (Client.read_message_sized responses default_max_payload b).0)
          (sent ∙ sym (append-nil bytes))
        ∙ ap (λ x. x.0) reads

    served-state :
        ((serving (request_bytes request)).state ≡ handled.state)
        × ((serving (request_bytes request)).disk ≡ handled.disk)
    served-state =
        let served =
          handle_connection-serves requests responses daemon m state fingerprint d
            (request_bytes request) request response request-read answers in
        (ap (λ c. c.state) served, ap (λ c. c.disk) served)

    send_rpc-sent :
        send_rpc requests responses daemon_link request
        ≡ ok (sent_response response (length answer))
    unfolding send_rpc
    send_rpc-sent =
        let served =
          handle_connection-serves requests responses daemon m state fingerprint d
            (request_bytes request) request response request-read answers in
        rw request-written (
          ap (λ c. map_err tcp (Client.read_message responses c.writer.sent).0) served
          ∙ ap (map_err tcp) response-read)

    sent-HasKind : HasKind (request_kind request) (some (sent_response response (length answer)))
    sent-HasKind = elim (Bool-cases (ltb default_max_payload (length answer))) [
      | inl large ↦ rw large (λ p e. cc)
      | inr small_answer ↦ rw small_answer (
          subst (HasKind (request_kind request)) answers
            (handle_as-HasKind m state (some fingerprint) request d))
    ]

    -- A call of a method of the client, on a connection to the daemon where no call fails, with a
    -- request that has a JSON text within the bound, a response that has a JSON text, and a
    -- replacement for it whose text keeps the bound: the daemon is left as its handler leaves it,
    -- for the caller that the certificate shows; and the method returns the payload or the error of
    -- the handler's response, or of the replacement if the text of the response is over the bound.
    -- It never finds a payload of another kind.
    pub invoke-handle_as :
        (invoke requests responses daemon_link request
          ≡ local (sent_response response (length answer)))
        × ((serving (request_bytes request)).state ≡ handled.state)
        × ((serving (request_bytes request)).disk ≡ handled.disk)
    invoke-handle_as = (
      invoke-local requests responses daemon_link (sent_response response (length answer)) request
          send_rpc-sent sent-HasKind,
      served-state.0,
      served-state.1,
    )
