-- ===== src/Daemon/Handler/Files/Entries.antt =====
-- crates/are-daemon/src/handler.rs: `handle_rename` and `handle_delete_file` change what an authorised
-- caller names.
use mathlib.Core.Path.{subst}
use are.Base.{
  Bool, true, ◌≡◌, ◌⊎◌, inl, inr, refl, [], some, Str, All, Result, ok, err, str_eq, arith, ◌++◌,
  ascii,
}
use are.Core.Grant.{write}
use are.Core.Request.{PathRequest, RenameRequest, FileMetadata}
use are.Daemon.Disk.{continue, mapped, Calls, Disk, ◌>>=◌, lift, map_error}
use are.Daemon.Disk.Logic.{Still, Once, Ends, mapped-Ends, after_call, found}
use are.Daemon.Fs.{FsError, FilesystemConfig, resolve_no_follow}
use are.Daemon.Fs.Contained.{IsCanonical, Canonicalizes}
use are.Daemon.Fs.Change.{rename_path, delete_path}
use are.Daemon.Fs.Change.Once.{Removes, delete_path-Removed, Moves, rename_path-Moved}
use are.Daemon.Grants.{RawGrantsFile, GrantsTable, from_raw}
use are.Daemon.Handler.{
  authorize_delete_file, fs_error_to_rpc, RpcError, DaemonState, Caller, authorize_rename,
}
use are.Daemon.Handler.Authorize.{
  Authorized, authorize_rename-Authorized, authorize_delete_file-Authorized,
}
use are.Daemon.Handler.Files.Guarded.{guarded}
use are.Daemon.Handler.Files.{handle_rename, handle_delete_file}

-- How a rename ends: if it succeeds, one step moves the entry; if it fails, none does, or that one
-- has.
abbrev pub RenameEnds : Str → Str → Result RpcError FileMetadata → Disk → Type 0
RenameEnds from to =
    Ends (λ (d : Disk). All Still d.steps ⊎ Once Still (Moves from to) d.steps)
      (λ (m : FileMetadata) (d : Disk). Once Still (Moves from to) d.steps)

-- How a deletion ends.
abbrev pub DeleteEnds : Str → Result RpcError Bool → Disk → Type 0
DeleteEnds path =
    Ends (λ (d : Disk). All Still d.steps)
      (λ (b : Bool) (d : Disk). Once Still (Removes path) d.steps)

module _ (calls : Calls) (state : DaemonState) (caller : Caller) (fs : FilesystemConfig)
    (table : GrantsTable) (raw : RawGrantsFile) (roots : All IsCanonical fs.allowed_roots)
    (configured : state.fs ≡ some fs) (strict : state.grants ≡ some table)
    (loaded : from_raw raw ≡ ok table) (d : Disk) (canonicalizes : Canonicalizes (calls.os d.tree))
    (fresh : d.steps ≡ []) where
  -- The disk that the operation finds.
  abbrev window : Disk
  window = after_call d (found calls d) (found calls d)

  kept : All Still window.steps
  kept = (refl, rw (fresh) tt)

  -- In strict mode, with a grants file that loads, canonical roots and a `canonicalize` that answers
  -- canonical paths: a rename whose two paths other processes do not redirect between the
  -- authorisation and the operation. Either it does nothing to the tree, or grants of the caller to
  -- write cover both paths below an allowed root, and then, whatever other processes do and
  -- wherever a call fails: if it succeeds, exactly one of its steps changes the tree, and that
  -- step moves the entry from the one to the other, a free name; if it fails, no step changes the
  -- tree, or that one step has.
  pub handle_rename-changes :
      (req : RenameRequest) (from to : Str)
      → resolve_no_follow (calls.os d.tree) fs req.src ≡ ok from
      → resolve_no_follow (calls.os d.tree) fs req.dst ≡ ok to
      → resolve_no_follow (calls.os (found calls d)) fs req.src ≡ ok from
      → resolve_no_follow (calls.os (found calls d)) fs req.dst ≡ ok to
      → let x = handle_rename calls state caller req d in
        (x.1.steps ≡ [])
        ⊎ (Authorized fs table caller write from
            × Authorized fs table caller write to
            × RenameEnds from to x.0 x.1)
  unfolding handle_rename map_error
  handle_rename-changes req from to leaves goes leaves_still goes_still =
      let moved =
        mapped-Ends _ _ (λ e. fs_error_to_rpc e (req.src ++ (ascii " -> " ++ req.dst)))
          (rename_path calls fs req.src req.dst window)
          (rename_path-Moved calls from to fs req.src req.dst window leaves_still goes_still
            kept) in
      regroup (
        guarded calls state caller fs table roots configured strict d canonicalizes fresh
          req.environment_id (λ now. authorize_rename now state caller req) _
          (Authorized fs table caller write from × Authorized fs table caller write to)
          (RenameEnds from to) allowed (λ e. inl kept) moved)
    where
      regroup : {N A B C : Type 0} → N ⊎ ((A × B) × C) → N ⊎ (A × B × C)
      regroup (inl n) = inl n
      regroup (inr ((a, b), c)) = inr (a, b, c)

      allowed :
          authorize_rename (calls.os d.tree) state caller req ≡ ok tt
          → Authorized fs table caller write from × Authorized fs table caller write to
      allowed e =
          let ((src, left, holds), (dst, gone, holds')) =
            authorize_rename-Authorized (calls.os d.tree) state caller fs table canonicalizes roots
              configured strict raw loaded req e in
          let same : src ≡ from = ground (arith, leaves, left) in
          let same' : dst ≡ to = ground (arith, goes, gone) in
          (
            subst (λ c. Authorized fs table caller write c) same holds,
            subst (λ c. Authorized fs table caller write c) same' holds',
          )

  -- In strict mode, with a grants file that loads, canonical roots and a `canonicalize` that answers
  -- canonical paths: a deletion whose path other processes do not redirect between the authorisation
  -- and the operation. Either it does nothing to the tree, or a grant of the caller to write covers
  -- the path below an allowed root, and then, whatever other processes do and wherever a call fails:
  -- if it succeeds, exactly one of its steps changes the tree, and that step removes the entry,
  -- which is no directory or an empty one; if it fails, none does.
  pub handle_delete_file-changes :
      (req : PathRequest) (path : Str)
      → resolve_no_follow (calls.os d.tree) fs req.path ≡ ok path
      → resolve_no_follow (calls.os (found calls d)) fs req.path ≡ ok path
      → let x = handle_delete_file calls state caller req d in
        (x.1.steps ≡ []) ⊎ (Authorized fs table caller write path × DeleteEnds path x.0 x.1)
  unfolding handle_delete_file ◌>>=◌ map_error lift
  handle_delete_file-changes req path leads leads_still =
      guarded calls state caller fs table roots configured strict d canonicalizes fresh
        req.environment_id (λ now. authorize_delete_file now state caller req) _
        (Authorized fs table caller write path) (DeleteEnds path) allowed (λ e. kept)
        (answered (delete_path calls fs req.path window)
          (delete_path-Removed calls fs req.path path window leads_still kept))
    where
      answered :
          (x : Result FsError (Unit {0}) × Disk)
          → Ends (λ d. All Still d.steps) (λ u d. Once Still (Removes path) d.steps) x.0 x.1
          → let y =
              continue
                (mapped (λ e. fs_error_to_rpc e req.path) x)
                (λ (u : Unit {0}). lift (ok true)) in
            DeleteEnds path y.0 y.1
      answered (ok u, after) h = h
      answered (err e, after) h = h

      allowed :
          authorize_delete_file (calls.os d.tree) state caller req ≡ ok tt
          → Authorized fs table caller write path
      allowed e =
          let (at, reached, holds) =
            authorize_delete_file-Authorized (calls.os d.tree) state caller fs table canonicalizes
              roots configured strict raw loaded req e in
          let same : at ≡ path = ground (arith, leads, reached) in
          subst (λ c. Authorized fs table caller write c) same holds
