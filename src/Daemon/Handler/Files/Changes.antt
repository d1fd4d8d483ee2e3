-- ===== src/Daemon/Handler/Files/Changes.antt =====
-- crates/are-daemon/src/handler.rs: the handlers of files change the tree for authorised callers only.
use mathlib.Core.Path.{subst}
use are.Base.{
  ℕ, ◌≡◌, ◌⊎◌, inl, inr, refl, sym, Bool, not, List, [], some, Str, All, Result, ok, err, str_eq,
  arith,
}
use are.Core.Grant.{write}
use are.Core.Request.{WriteFileRequest, FileMetadata}
use are.Daemon.Paths.{parent}
use are.Daemon.Disk.{Tree, Calls, Disk, ◌>>=◌, lift, map_error, mapped}
use are.Daemon.Disk.Logic.{Ends, after_call, found}
use are.Daemon.Fs.{FsError, FilesystemConfig, resolve}
use are.Daemon.Fs.Contained.{IsCanonical, Canonicalizes}
use are.Daemon.Fs.Write.{write_file}
use are.Daemon.Fs.Write.Commit.{Quiet, Spares, CommitsOnce}
use are.Daemon.Fs.Write.Atomic.{CleanAt, DoneAt, write_file-Done}
use are.Daemon.Grants.{RawGrantsFile, GrantsTable, from_raw}
use are.Daemon.Handler.{DaemonState, Caller, authorize_write_file}
use are.Daemon.Handler.Authorize.{Authorized, authorize_write_file-Authorized}
use are.Daemon.Handler.Files.Guarded.{guarded}
use are.Daemon.Handler.Files.{authorized, handle_write_file}

mapped-disk : {E F A : Type 0} (f : E → F) (x : Result E A × Disk) → (mapped f x).1 ≡ x.1
mapped-disk f (ok a, d) = refl
mapped-disk f (err e, d) = refl

-- What has been done to the tree by a write.
abbrev pub Written : Str → Str → List ℕ → Bool → List (Tree × Tree) → Type 0
Written dir canonical content no_replace steps =
    All (Spares dir) steps ⊎ CommitsOnce dir canonical content no_replace steps

module _ (calls : Calls) (state : DaemonState) (caller : Caller) (fs : FilesystemConfig)
    (table : GrantsTable) (raw : RawGrantsFile) (roots : All IsCanonical fs.allowed_roots)
    (configured : state.fs ≡ some fs) (strict : state.grants ≡ some table)
    (loaded : from_raw raw ≡ ok table) (d : Disk) (canonicalizes : Canonicalizes (calls.os d.tree))
    (fresh : d.steps ≡ []) where
  -- The disk that the operation finds.
  abbrev window : Disk
  window = after_call d (found calls d) (found calls d)

  -- In strict mode, with a grants file that loads, canonical roots and a `canonicalize` that answers
  -- canonical paths: a write whose path other processes do not redirect between the authorisation
  -- and the operation, in a directory whose temporary files they do not touch. Either it does
  -- nothing to the tree, or one of the caller's grants to write covers the resolved path below an
  -- allowed root, and then its steps touch temporary files only, but for at most one, which puts
  -- the whole content of the request at the target.
  pub handle_write_file-changes :
      (req : WriteFileRequest) (canonical dir : Str)
      → resolve (calls.os d.tree) fs req.path ≡ ok canonical
      → resolve (calls.os (found calls d)) fs req.path ≡ ok canonical
      → parent canonical ≡ some dir
      → Quiet calls dir
      → let steps = (handle_write_file calls state caller req d).1.steps in
        (steps ≡ [])
        ⊎ (Authorized fs table caller write canonical
            × Written dir canonical req.content (not req.overwrite) steps)
  unfolding handle_write_file ◌>>=◌ authorized lift map_error
  handle_write_file-changes req canonical dir resolves still above quiet =
      let written = write_file calls fs req.path req.content req.overwrite req.expected_hash in
      guarded calls state caller fs table roots configured strict d canonicalizes fresh
        req.environment_id (λ now. authorize_write_file now state caller req) _
        (Authorized fs table caller write canonical) (λ r after. Goal after.steps) allowed
        (λ e. inl kept)
        (subst (λ (e : Disk). Goal e.steps) (sym (mapped-disk _ (written window)))
          (settle _ _ (
            write_file-Done calls dir canonical req.content req.overwrite quiet fs req.path
              req.expected_hash window still above kept)))
    where
      Goal : List (Tree × Tree) → Type 0
      Goal steps = Written dir canonical req.content (not req.overwrite) steps

      settle :
          (r : Result FsError FileMetadata) (after : Disk)
          → Ends
              (λ e.
                CleanAt calls dir canonical req.content req.overwrite quiet e
                ⊎ DoneAt calls dir canonical req.content req.overwrite quiet e)
              (λ (m : FileMetadata). DoneAt calls dir canonical req.content req.overwrite quiet)
              r
              after
          → Goal after.steps
      settle (ok meta) after h = inr h.0
      settle (err e) after (inl h) = inl h
      settle (err e) after (inr h) = inr h.0

      kept : All (Spares dir) window.steps
      kept = ((λ p other. refl), rw (fresh) tt)

      allowed :
          authorize_write_file (calls.os d.tree) state caller req ≡ ok tt
          → Authorized fs table caller write canonical
      allowed e =
          let (c, reached, holds) =
            authorize_write_file-Authorized (calls.os d.tree) state caller fs table canonicalizes
              roots configured strict raw loaded req e in
          let same : c ≡ canonical = ground (arith, resolves, reached) in
          subst (λ c. Authorized fs table caller write c) same holds
