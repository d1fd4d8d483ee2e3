-- ===== src/Daemon/Fs/Write.antt =====
-- crates/are-daemon/src/fs.rs: `write_file`, which replaces a file by a rename of a temporary one.
pub mod Commit
pub mod Atomic
pub mod ReadBack
use mathlib.Core.List.{reverse}
use are.Base.{
  ℕ, zero, suc, ◌+◌, Bool, true, false, not, ◌||◌, List, [], ◌∷◌, ◌++◌, map, Option, none, some,
  Str, ascii, length, contains, is_empty, is_some, Message, lit, bytes, Result, ok, err, ensure,
  map_err, ok_or, ltb, eqb, if◌then◌else◌, ◌==◌, str_eq,
}
use are.Core.Error.{◌<+>◌}
use are.Core.Grant.{ascii_lower}
use are.Core.Ids.{hex}
use are.Core.Request.{FileMetadata, DirectoryEntry}
use are.Daemon.Os.{Os, IoError}
use are.Daemon.Paths.{Component, normal, cur_dir, components, path_join, path_starts_with, parent}
use are.Daemon.Disk.{
  Node, file, directory, link, special, Tree, Metadata, Calls, Disk, Run, ◌>>=◌, ◌>>◌, lift,
  attempt, map_error, look, symlink_metadata, metadata, read_bytes, create_new, create_dir,
  write_all, sync_all, rename, rename_exclusive, remove_file, read_dir, remove_dir,
}
use are.Daemon.Fs.{
  FsError, invalid_path, filesystem_escape, not_found, permission_denied, not_a_directory,
  is_a_directory, file_too_large, conflict, io, FilesystemConfig, resolve, resolve_no_follow,
  check_path_shape, creation_parts, escapes,
}
use are.Daemon.Fs.Files.{
  from_io, sys, resolved, resolved_no_follow, is_dir, is_file, is_symlink, make_metadata,
  with_content_hash, too_large, hashed_metadata, rename_noreplace,
}

abbrev changed : Str → FsError
changed path = conflict (lit "file changed since read: " <+> bytes path)

-- The read for the comparison of digests: a file that is gone has changed.
abbrev gone : Str → IoError → FsError
gone path (IoError.not_found m) = changed path
gone path e = from_io e

-- The comparison of the current digest with the expected one.
unfoldable pub check_hash :
    Calls → FilesystemConfig → Str → Str → Metadata → Str → Run FsError (Unit {0})
check_hash os config path canonical meta expected = do
  lift (
      ensure (not (ltb config.max_file_bytes meta.len))
        (too_large path meta.len config.max_file_bytes))
  current ← map_error (gone path) (read_bytes os canonical)
  lift (ensure (os.hash current == map ascii_lower expected) (changed path))

-- The `match` on what stands at the target.
unfoldable pub check_target :
    Calls
    → FilesystemConfig
    → Str
    → Str
    → Bool
    → Option Str
    → Result IoError Metadata
    → Run FsError (Unit {0})
check_target os config path canonical overwrite expected_hash (ok meta) =
    if is_dir meta
    then lift (err (is_a_directory (bytes path)))
    else if overwrite
    then elim expected_hash [
      | none ↦ lift (ok tt)
      | some expected ↦ check_hash os config path canonical meta expected
    ]
    else lift
        (err (conflict (lit "file already exists (pass overwrite to replace): " <+> bytes path)))
check_target os config path canonical overwrite expected_hash (err (IoError.not_found m)) =
    lift (ensure (not (is_some expected_hash)) (changed path))
check_target os config path canonical overwrite expected_hash (err e) = lift (err (from_io e))

-- The parent directory is there.
abbrev pub parent_there : Str → Result IoError Metadata → Run FsError (Unit {0})
parent_there path (ok meta) = lift (ok tt)
parent_there path (err e) =
    lift (err (not_found (lit "parent directory does not exist: " <+> bytes path)))

unfoldable pub temp_name : List ℕ → Str
temp_name rand = ascii ".are-tmp-" ++ hex rand

-- What an attempt to create a temporary file leads to.
abbrev pub created : Str → Run FsError Str → Result IoError (Unit {0}) → Run FsError Str
created tmp_path again (ok u) = lift (ok tmp_path)
created tmp_path again (err (IoError.already_exists m)) = again
created tmp_path again (err e) = lift (err (from_io e))

abbrev pub max_temp_name_attempts : ℕ
max_temp_name_attempts = 8

-- A call of `getrandom`.
abbrev pub random_bytes : Calls → ℕ → Run FsError (List ℕ)
random_bytes os i d =
    lift (map_err (λ e. io (lit "failed to generate temp name: " <+> e)) ((os.os d.tree).random i))
      d

-- The loop that creates the temporary file, with the attempts that are left, for the next random
-- number.
unfoldable pub create_temp : Calls → Str → ℕ → ℕ → Run FsError Str
create_temp os dir zero i =
    lift (err (io (lit "failed to create temporary file: 8 name collisions")))
create_temp os dir (suc attempts) i =
    let again = create_temp os dir attempts (i + 1) in
    random_bytes os i >>= λ rand.
    let tmp_path = path_join dir (temp_name rand) in
    attempt (create_new os tmp_path) >>= created tmp_path again

abbrev pub synced : Calls → Result IoError (Unit {0}) → Run FsError (Unit {0})
synced os (ok dir) = attempt (sync_all os) >>= λ ignored. lift (ok tt)
synced os (err e) = lift (ok tt)

-- The directory of the target is synchronised as far as it can be.
unfoldable pub sync_dir : Calls → Run FsError (Unit {0})
sync_dir os = attempt (sync_all os) >>= synced os

unfoldable pub write_and_rename : Calls → Str → Str → List ℕ → Bool → Run FsError (Unit {0})
write_and_rename os tmp_path target content no_replace = do
  sys (write_all os tmp_path content)
  sys (sync_all os)
  sync_dir os
  if no_replace then rename_noreplace os tmp_path target else sys (rename os tmp_path target)

-- A failure removes the temporary file, as far as it can be, and is passed on.
abbrev pub cleaned : Calls → Str → Result FsError (Unit {0}) → Run FsError (Unit {0})
cleaned os tmp_path (ok u) = lift (ok tt)
cleaned os tmp_path (err e) = attempt (remove_file os tmp_path) >>= λ ignored. lift (err e)

unfoldable pub atomic_commit : Calls → Str → Str → List ℕ → Bool → Run FsError (Unit {0})
atomic_commit os dir target content no_replace = do
  tmp_path ← create_temp os dir max_temp_name_attempts 0
  result ← attempt (write_and_rename os tmp_path target content no_replace)
  cleaned os tmp_path result

-- `write_file` after the resolution.
unfoldable pub write_resolved :
    Calls → FilesystemConfig → Str → Str → List ℕ → Bool → Option Str → Run FsError FileMetadata
write_resolved os config path canonical content overwrite expected_hash = do
  there ← attempt (symlink_metadata os canonical)
  check_target os config path canonical overwrite expected_hash there
  dir ←
      lift (
        ok_or (parent canonical)
          (invalid_path (lit "no parent directory in path: " <+> bytes path)))
  dir_there ← attempt (metadata os dir)
  parent_there path dir_there
  atomic_commit os dir canonical content (not overwrite)
  meta ← sys (metadata os canonical)
  lift (ok (with_content_hash os (make_metadata meta) content))

unfoldable pub write_file :
    Calls → FilesystemConfig → Str → List ℕ → Bool → Option Str → Run FsError FileMetadata
write_file os config path content overwrite expected_hash = do
  lift (
      ensure (not (ltb config.max_file_bytes (length content)))
        (too_large path (length content) config.max_file_bytes))
  canonical ← resolved os config path
  write_resolved os config path canonical content overwrite expected_hash
