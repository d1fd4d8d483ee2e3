-- ===== src/Daemon/Handler/Files/Guarded.antt =====
-- crates/are-daemon/src/handler.rs: what the handlers of files have in common.
use are.Base.{◌≡◌, ◌⊎◌, inl, inr, refl, [], some, All, Result, ok, err}
use are.Core.Ids.{EnvironmentId}
use are.Daemon.Os.{Os}
use are.Daemon.Disk.{Calls, Disk, Run, ◌>>=◌, ◌>>◌, lift}
use are.Daemon.Disk.Logic.{after_call, found}
use are.Daemon.Fs.{FilesystemConfig}
use are.Daemon.Fs.Contained.{IsCanonical, Canonicalizes}
use are.Daemon.Grants.{GrantsTable}
use are.Daemon.Handler.{RpcError, DaemonState, Caller, require_fs}
use are.Daemon.Handler.Authorize.{require_fs-same}
use are.Daemon.Handler.Files.{after_check, authorized}

module _ (calls : Calls) (state : DaemonState) (caller : Caller) (fs : FilesystemConfig)
    (table : GrantsTable) (roots : All IsCanonical fs.allowed_roots)
    (configured : state.fs ≡ some fs) (strict : state.grants ≡ some table) (d : Disk)
    (canonicalizes : Canonicalizes (calls.os d.tree)) (fresh : d.steps ≡ []) {A : Type 0}
    (env : EnvironmentId) (authorize : Os → Result RpcError (Unit {0}))
    (operation : FilesystemConfig → Run RpcError A) (Allowed : Type 0)
    (Goal : Result RpcError A → Disk → Type 0) where
  -- An authorisation, what other processes do then, and an operation on the boundary.
  pub guarded :
      (authorize (calls.os d.tree) ≡ ok tt → Allowed)
      → ((e : RpcError) → Goal (err e) (after_call d (found calls d) (found calls d)))
      → (let x = operation fs (after_call d (found calls d) (found calls d)) in Goal x.0 x.1)
      → let x = (authorized calls authorize >> (lift (require_fs state env) >>= operation)) d in
        (x.1.steps ≡ []) ⊎ (Allowed × Goal x.0 x.1)
  unfolding ◌>>=◌ authorized lift
  guarded allowed idle operated = check (authorize (calls.os d.tree)) refl
    where
      backed :
          (r : Result RpcError FilesystemConfig)
          → require_fs state env ≡ r
          → let x = (lift r >>= operation) (after_call d (found calls d) (found calls d)) in
            Goal x.0 x.1
      backed (ok f) e =
          let same : f ≡ fs =
            require_fs-same (calls.os d.tree) state caller fs table canonicalizes roots configured
              strict env f e in
          rw (same) operated
      backed (err e) _ = idle e

      check :
          (r : Result RpcError (Unit {0}))
          → authorize (calls.os d.tree) ≡ r
          → let x =
              ((λ (e : Disk). after_check calls e r) >> (lift (require_fs state env) >>= operation))
                d in
            (x.1.steps ≡ []) ⊎ (Allowed × Goal x.0 x.1)
      check (err e) _ = inl fresh
      check (ok u) e = inr (allowed e, backed (require_fs state env) refl)
