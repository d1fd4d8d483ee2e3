-- ===== src/Daemon/Fs/Write/ReadBack.antt =====
-- crates/are-daemon/src/fs.rs: `read_file` after `write_file`.
use mathlib.Core.Path.{subst}
use are.Base.{
  ℕ, ◌+◌, ◌≡◌, ◌⊎◌, inl, inr, sym, ◌∙◌, refl, Bool, true, false, List, [], Option, none, some, Str,
  Result, ok, err, str_eq, length, ltb, Bool-cases,
}
use are.Base.Dict.{get}
use are.Core.Request.{FileMetadata}
use are.Daemon.Os.{IoError}
use are.Daemon.Paths.{parent}
use are.Daemon.Disk.{
  file, Tree, Calls, Disk, ◌>>=◌, lift, call, nothing, stepped, metadata, metadata_of, read_bytes,
  map_error, follow,
}
use are.Daemon.Disk.Logic.{Ends, found, after_call}
use are.Daemon.Fs.{FsError, FilesystemConfig, resolve}
use are.Daemon.Fs.Files.{resolved, read_file, make_metadata, with_content_hash, too_large}
use are.Daemon.Fs.Write.{write_file}
use are.Daemon.Fs.Write.Commit.{Quiet, Untouched}
use are.Daemon.Fs.Write.Atomic.{CleanAt, DoneAt, write_file-Done}

-- A call without a fault.
pub call-act :
    {A : Type 0} (os : Calls) (part : ℕ → Tree → Tree) (act : Tree → Result IoError A × Tree)
    (d : Disk)
    → os.fault d.calls ≡ none
    → call os part act d ≡ stepped d (found os d) (act (found os d))
unfolding call
call-act os part act d fault = rw (call, fault) refl

follow-file :
    (os : Calls) (tree : Tree) (path : Str) (content : List ℕ)
    → get path tree ≡ some (file content)
    → follow os tree path ≡ ok (path, file content)
follow-file os tree path content here = rw (here) refl

-- The calls that find the file.
metadata-found :
    (os : Calls) (canonical : Str) (content : List ℕ) (d : Disk)
    → get canonical (found os d) ≡ some (file content)
    → os.fault d.calls ≡ none
    → metadata os canonical d ≡ (
      ok (metadata_of os (found os d) canonical (file content)),
      after_call d (found os d) (found os d),
    )
unfolding metadata
metadata-found os canonical content d here fault =
    call-act os nothing _ d fault ∙ (rw (follow-file os (found os d) canonical content here) refl)

read_bytes-found :
    (os : Calls) (canonical : Str) (content : List ℕ) (d : Disk)
    → get canonical (found os d) ≡ some (file content)
    → os.fault d.calls ≡ none
    → read_bytes os canonical d ≡ (ok content, after_call d (found os d) (found os d))
unfolding read_bytes
read_bytes-found os canonical content d here fault =
    call-act os nothing _ d fault ∙ (rw (follow-file os (found os d) canonical content here) refl)

-- A file that stays as it is is read whole.
pub read_file-content :
    (os : Calls) (config : FilesystemConfig) (path canonical : Str) (content : List ℕ) (d : Disk)
    → resolve (os.os d.tree) config path ≡ ok canonical
    → get canonical d.tree ≡ some (file content)
    → Untouched os canonical
    → os.fault d.calls ≡ none
    → os.fault (d.calls + 1) ≡ none
    → ltb config.max_file_bytes (length content) ≡ false
    → (read_file os config path d).0
      ≡ ok (
        content,
        with_content_hash os
            (make_metadata (metadata_of os (found os d) canonical (file content)))
            content,
      )
unfolding read_file ◌>>=◌ lift resolved map_error
read_file-content os config path canonical content d e there untouched fault next small =
    rw
      (
        e,
        metadata-found os canonical content d here fault,
        small,
        read_bytes-found os canonical content (after_call d (found os d) (found os d)) still next,
      )
      refl
  where
    here : get canonical (found os d) ≡ some (file content)
    here = untouched d.calls d.tree ∙ there

    still : get canonical (found os (after_call d (found os d) (found os d))) ≡ some (file content)
    still = untouched (d.calls + 1) (found os d) ∙ here

write_file-small :
    (os : Calls) (config : FilesystemConfig) (path : Str) (content : List ℕ) (overwrite : Bool)
    (expected_hash : Option Str) (d written : Disk) (meta : FileMetadata)
    → write_file os config path content overwrite expected_hash d ≡ (ok meta, written)
    → ltb config.max_file_bytes (length content) ≡ false
unfolding write_file ◌>>=◌ lift
write_file-small os config path content overwrite expected_hash d written meta e =
    elim (Bool-cases (ltb config.max_file_bytes (length content))) [
      | inl large ↦
          let refusal : Result FsError FileMetadata × Disk =
            (err (too_large path (length content) config.max_file_bytes), d) in
          let refused : refusal ≡ (ok meta, written) = sym (rw (write_file, large) refl) ∙ e in cc
      | inr small ↦ small
    ]

-- A write that succeeds, in a directory whose temporary files no other process touches, and then a
-- read of the same path, which resolves to the same file, that no other process has touched
-- either: the read returns the bytes that were written, with their digest, if its two calls do not
-- fail.
pub read_file-write_file :
    (os : Calls) (dir canonical : Str) (content : List ℕ) (overwrite : Bool)
    (config : FilesystemConfig) (path : Str) (expected_hash : Option Str) (d written : Disk)
    (meta : FileMetadata)
    → Quiet os dir
    → Untouched os canonical
    → resolve (os.os d.tree) config path ≡ ok canonical
    → parent canonical ≡ some dir
    → d.steps ≡ []
    → write_file os config path content overwrite expected_hash d ≡ (ok meta, written)
    → resolve (os.os written.tree) config path ≡ ok canonical
    → os.fault written.calls ≡ none
    → os.fault (written.calls + 1) ≡ none
    → (now : Option ℕ) × ((read_file os config path written).0
        ≡ ok (
          content,
          record {
            size = length content;
            modified_at = now;
            is_dir = false;
            is_file = true;
            hash = some (os.hash content);
          },
        ))
unfolding with_content_hash make_metadata
read_file-write_file os dir canonical content overwrite config path expected_hash d written meta
      quiet untouched e above fresh result again fault next =
    (
      os.modified (found os written) canonical,
      read_file-content os config path canonical content written again (holds.1 untouched) untouched
          fault next
          (write_file-small os config path content overwrite expected_hash d written meta result),
    )
  where
    holds : DoneAt os dir canonical content overwrite quiet written
    holds =
        subst
          (λ x.
            Ends
              (λ d.
                CleanAt os dir canonical content overwrite quiet d
                ⊎ DoneAt os dir canonical content overwrite quiet d)
              (λ (m : FileMetadata). DoneAt os dir canonical content overwrite quiet) x.0 x.1)
          result
          (write_file-Done os dir canonical content overwrite quiet config path expected_hash d e
            above (rw (fresh) tt))
