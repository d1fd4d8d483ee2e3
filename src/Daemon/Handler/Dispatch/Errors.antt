-- ===== src/Daemon/Handler/Dispatch/Errors.antt =====
-- crates/are-daemon/src/handler.rs: an error of a check is the answer, and what it leaves.
use are.Base.{ℕ, ◌≡◌, refl, ◌⊎◌, Option, none, some, Result, ok, err, IsErr}
use are.Core.Ids.{SessionId}
use are.Core.Info.{RpcRequest, RpcResponse, RpcResponsePayload, RpcError}
use are.Daemon.Os.{Os}
use are.Daemon.Disk.{Calls, Disk, Run, continue, ◌>>=◌}
use are.Daemon.Auth.{Caller}
use are.Daemon.Handler.{DaemonState}
use are.Daemon.Handler.Files.{authorized, after_check}
use are.Daemon.Handler.Serve.{Served, and_then, check, require_live_session}
use are.Daemon.Handler.Dispatch.{Handled, respond, on_disk, on_tables, on_wait}

-- The response is an error.
abbrev pub IsRefused : Option RpcResponse → Type 0
IsRefused none = ⊥
IsRefused (some response) = IsErr response.result

-- The session of a request on processes.
abbrev pub named_session : RpcRequest → Option SessionId
named_session (RpcRequest.execute req) = some req.session_id
named_session (RpcRequest.process_status req) = some req.session_id
named_session (RpcRequest.terminate_process req) = some req.session_id
named_session (RpcRequest.wait_process req) = some req.session_id
named_session _ = none

-- The state as it was, or as the check of the named session leaves it.
abbrev pub LeftBy : DaemonState → Caller → ℕ → Option SessionId → DaemonState → Type 0
LeftBy state caller now none after = after ≡ state
LeftBy state caller now (some id) after =
    (after ≡ state) ⊎ (after ≡ (require_live_session state caller id now).1)

-- An error, a disk on which nothing was done, and the state.
abbrev pub Refuses : (DaemonState → Type 0) → Disk → Handled → Type 0
Refuses Left d h = IsRefused h.response × Left h.state × (h.disk ≡ d)

-- A handler that answers with an error.
abbrev pub Refusal : {A : Type 0} → (DaemonState → Type 0) → Served A → Type 0
Refusal Left x = IsErr x.0 × Left x.1

module _ {A : Type 0} (Left : DaemonState → Type 0) where
  respond-IsRefused :
      (payload : A → RpcResponsePayload) (r : Result RpcError A)
      → IsErr r
      → IsRefused (some (respond payload r))
  respond-IsRefused payload (err e) h = tt
  respond-IsRefused payload (ok a) h = absurd h

  pub on_tables-Refuses :
      (payload : A → RpcResponsePayload) (d : Disk) (x : Served A)
      → Refusal Left x
      → Refuses Left d (on_tables payload d x)
  on_tables-Refuses payload d (r, after) (h, left) = (respond-IsRefused payload r h, left, refl)

  pub on_wait-Refuses :
      (payload : A → RpcResponsePayload) (d : Disk) (x : Served (Option A))
      → Refusal Left x
      → Refuses Left d (on_wait payload d x)
  on_wait-Refuses payload d (err e, after) (h, left) = (tt, left, refl)
  on_wait-Refuses payload d (ok a, after) (h, left) = absurd h

  -- The check of a handler on files fails, and its operation does not run.
  pub on_disk-Refuses :
      (payload : A → RpcResponsePayload) (os : Calls) (state : DaemonState)
      (test : Os → Result RpcError (Unit {0})) (f : Unit {0} → Run RpcError A) (d : Disk)
      → Left state
      → IsErr (test (os.os d.tree))
      → Refuses Left d (on_disk payload state ((authorized os test >>= f) d))
  unfolding authorized ◌>>=◌
  on_disk-Refuses payload os state test f d left h = failed (test (os.os d.tree)) h
    where
      failed :
          (r : Result RpcError (Unit {0}))
          → IsErr r
          → Refuses Left d (on_disk payload state (continue (after_check os d r) f))
      failed (err e) h = (tt, left, refl)
      failed (ok a) h = absurd h

module _ {A B : Type 0} (Left : DaemonState → Type 0) where
  pub check-Refusal :
      (r : Result RpcError A) (state : DaemonState) (f : A → Served B)
      → Left state
      → ((a : A) → Refusal Left (f a))
      → Refusal Left (check r state f)
  check-Refusal (ok a) state f left h = h a
  check-Refusal (err e) state f left h = (tt, left)

  pub check-Refusal_now :
      (r : Result RpcError A) (state : DaemonState) (f : A → Served B)
      → Left state
      → IsErr r
      → Refusal Left (check r state f)
  check-Refusal_now (err e) state f left h = (tt, left)
  check-Refusal_now (ok a) state f left h = absurd h

  pub and_then-Refusal :
      (x : Served A) (f : A → DaemonState → Served B)
      → Left x.1
      → ((a : A) → Refusal Left (f a x.1))
      → Refusal Left (and_then x f)
  and_then-Refusal (ok a, state) f left h = h a
  and_then-Refusal (err e, state) f left h = (tt, left)
