-- ===== src/Daemon/Server/Serves.antt =====
-- crates/are-daemon/src/server.rs: a connection is served by the handler, as the caller of its
-- certificate.
use are.Base.{ℕ, ◌≡◌, refl, List, Option, some, Str, ok}
use are.Core.Info.{RpcRequest, RpcResponse}
use are.Wire.{Faults, new_writer}
use are.Daemon.Disk.{Disk}
use are.Daemon.Framing.{Json, read_message}
use are.Daemon.Handler.{DaemonState}
use are.Daemon.Handler.Dispatch.{Moment, Handled, handle_as}
use are.Daemon.Server.{write_failure, write_response, write_handled, handle_connection}

module _ (requests : Json RpcRequest) (responses : Json RpcResponse) (faults : Faults) (m : Moment)
    (state : DaemonState) (fingerprint : Str) (d : Disk) (bytes : List ℕ) (request : RpcRequest)
    (response : RpcResponse) where
  abbrev pub handled : Handled
  handled = handle_as m state (some fingerprint) request d

  -- The request that was read is handled, and its response written.
  pub handle_connection-serves :
      (read_message requests bytes).0 ≡ ok request
      → handled.response ≡ some response
      → handle_connection requests responses faults m state fingerprint d bytes ≡ record {
        outcome = some (write_failure (write_response responses faults response new_writer).0);
        writer = (write_response responses faults response new_writer).1;
        state = handled.state;
        disk = handled.disk;
      }
  unfolding handle_connection
  handle_connection-serves reads answers = rw reads (answered handled.response answers)
    where
      answered :
          (r : Option RpcResponse)
          → r ≡ some response
          → write_handled responses faults (record handled { response = r }) ≡ record {
            outcome = some (write_failure (write_response responses faults response new_writer).0);
            writer = (write_response responses faults response new_writer).1;
            state = handled.state;
            disk = handled.disk;
          }
      answered r e = rw e refl
