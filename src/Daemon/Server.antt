-- ===== src/Daemon/Server.antt =====
-- crates/are-daemon/src/server.rs: what is done with one connection. Sockets and TLS are outside.
pub mod Laws
pub mod Serves
use are.Base.{ℕ, List, Option, none, some, Str, Message, lit, num, Result, ok, err}
use are.Core.Error.{◌<+>◌}
use are.Wire.{Writer, Faults, new_writer}
use are.Daemon.Framing.{
  Json, FramingError, response_too_large, serialization, io, write_message_sized, read_message,
  default_max_payload,
}
use are.Core.Info.{RpcRequest, RpcResponse, internal_error}
use are.Daemon.Auth.{Caller, caller_from_peer_certs}
use are.Daemon.Disk.{Disk}
use are.Daemon.Handler.{DaemonState}
use are.Daemon.Handler.Dispatch.{Moment, Handled, handle_as}

abbrev pub too_large_fallback : ℕ → ℕ → RpcResponse
too_large_fallback size max = record {
  result = err (
      internal_error (
        lit "response too large to transmit: "
        <+> num size
        <+> lit " bytes exceeds "
        <+> num max
        <+> lit "; narrow the command or read smaller ranges"));
}

-- What follows the first attempt.
abbrev pub fall_back :
    Json RpcResponse
    → Faults
    → ℕ
    → Result FramingError (Unit {0}) × Writer
    → Result FramingError (Unit {0}) × Writer
fall_back json faults max_payload (ok u, w) = (ok tt, w)
fall_back json faults max_payload (err (response_too_large size max), w) =
    write_message_sized json faults (too_large_fallback size max) max_payload w
fall_back json faults max_payload (err (serialization e), w) = (err (serialization e), w)
fall_back json faults max_payload (err (io e), w) = (err (io e), w)

unfoldable pub write_response_sized :
    Json RpcResponse → Faults → RpcResponse → ℕ → Writer → Result FramingError (Unit {0}) × Writer
write_response_sized json faults response max_payload w =
    fall_back json faults max_payload (write_message_sized json faults response max_payload w)

unfoldable pub write_response :
    Json RpcResponse → Faults → RpcResponse → Writer → Result FramingError (Unit {0}) × Writer
write_response json faults response w =
    write_response_sized json faults response default_max_payload w

pub data ConnectionFailure : Type 0 where
  reading : Message → ConnectionFailure
  writing : FramingError → ConnectionFailure

-- What a connection has come to: `none` while the request has not returned.
pub record Connection : Type 0 where
  pub outcome : Option (Result ConnectionFailure (Unit {0}))
  pub writer : Writer
  pub state : DaemonState
  pub disk : Disk

abbrev write_failure : Result FramingError (Unit {0}) → Result ConnectionFailure (Unit {0})
write_failure (ok u) = ok tt
write_failure (err e) = err (writing e)

-- The response, when the handler has one.
abbrev pub write_handled : Json RpcResponse → Faults → Handled → Connection
write_handled responses faults handled = elim handled.response [
  | none ↦ record {
    outcome = none;
    writer = new_writer;
    state = handled.state;
    disk = handled.disk;
  }
  | some response ↦
      let (result, w) = write_response responses faults response new_writer in
      record {
        outcome = some (write_failure result);
        writer = w;
        state = handled.state;
        disk = handled.disk;
      }
]

-- What follows the reading of the request.
abbrev pub serve :
    Json RpcResponse
    → Faults
    → Moment
    → DaemonState
    → Caller
    → Disk
    → Result Message RpcRequest
    → Connection
serve responses faults m state caller d (err e) = record {
  outcome = some (err (reading e));
  writer = new_writer;
  state = state;
  disk = d;
}
serve responses faults m state caller d (ok request) =
    write_handled responses faults (handle_as m state caller request d)

-- `bytes` are what the client sends.
unfoldable pub handle_connection :
    Json RpcRequest
    → Json RpcResponse
    → Faults
    → Moment
    → DaemonState
    → Str
    → Disk
    → List ℕ
    → Connection
handle_connection requests responses faults m state fingerprint d bytes =
    serve responses faults m state (some fingerprint) d (read_message requests bytes).0

-- The task of an accepted connection, after a handshake that has shown `certs`. One without a
-- certificate is closed.
unfoldable pub accepted :
    (List ℕ → Str)
    → Json RpcRequest
    → Json RpcResponse
    → Faults
    → Moment
    → DaemonState
    → Option (List (List ℕ))
    → Disk
    → List ℕ
    → Option Connection
accepted hash requests responses faults m state certs d bytes =
    elim (caller_from_peer_certs hash certs) [
      | none ↦ none
      | some fingerprint ↦
          some (handle_connection requests responses faults m state fingerprint d bytes)
    ]
