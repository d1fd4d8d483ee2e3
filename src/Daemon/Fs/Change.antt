-- ===== src/Daemon/Fs/Change.antt =====
-- crates/are-daemon/src/fs.rs: `rename_path`, `delete_path` and `create_directory`.
pub mod Once
pub mod Under
use mathlib.Core.List.{reverse}
use are.Base.{
  ℕ, zero, suc, ◌+◌, Bool, true, false, not, ◌||◌, List, [], ◌∷◌, ◌++◌, map, Option, none, some,
  Str, ascii, length, contains, is_empty, is_some, Message, lit, bytes, Result, ok, err, ensure,
  map_err, ok_or, ltb, eqb, if◌then◌else◌, ◌==◌, str_eq,
}
use are.Core.Error.{◌<+>◌}
use are.Core.Grant.{ascii_lower}
use are.Core.Ids.{hex}
use are.Core.Request.{FileMetadata, DirectoryEntry}
use are.Daemon.Os.{Os, IoError}
use are.Daemon.Paths.{Component, normal, cur_dir, components, path_join, path_starts_with, parent}
use are.Daemon.Disk.{
  Node, file, directory, link, special, Tree, Metadata, Calls, Disk, Run, ◌>>=◌, ◌>>◌, lift,
  attempt, map_error, look, symlink_metadata, metadata, read_bytes, create_new, create_dir,
  write_all, sync_all, rename, rename_exclusive, remove_file, read_dir, remove_dir,
}
use are.Daemon.Fs.{
  FsError, invalid_path, filesystem_escape, not_found, permission_denied, not_a_directory,
  is_a_directory, file_too_large, conflict, io, FilesystemConfig, resolve, resolve_no_follow,
  check_path_shape, creation_parts, escapes,
}
use are.Daemon.Fs.Files.{
  from_io, sys, resolved, resolved_no_follow, is_dir, is_file, is_symlink, make_metadata,
  with_content_hash, too_large, hashed_metadata, rename_noreplace,
}

abbrev source_there : Str → Result IoError Metadata → Run FsError (Unit {0})
source_there src (ok meta) = lift (ok tt)
source_there src (err (IoError.not_found m)) =
    lift (err (not_found (lit "source not found: " <+> bytes src)))
source_there src (err e) = lift (err (from_io e))

abbrev destination_free : Str → Result IoError Metadata → Run FsError (Unit {0})
destination_free dst (ok meta) =
    lift (err (conflict (lit "destination already exists: " <+> bytes dst)))
destination_free dst (err e) = lift (ok tt)

unfoldable pub rename_path : Calls → FilesystemConfig → Str → Str → Run FsError FileMetadata
rename_path os config src dst = do
  src_canon ← resolved_no_follow os config src
  dst_canon ← resolved_no_follow os config dst
  lift (
      ensure (not (src_canon == dst_canon))
        (invalid_path (lit "src and dst resolve to the same path")))
  src_there ← attempt (symlink_metadata os src_canon)
  source_there src src_there
  dst_there ← attempt (symlink_metadata os dst_canon)
  destination_free dst dst_there
  rename_noreplace os src_canon dst_canon
  meta ← sys (metadata os dst_canon)
  hashed_metadata os config dst_canon meta

abbrev not_there : Str → IoError → FsError
not_there path (IoError.not_found m) = not_found (lit "not found: " <+> bytes path)
not_there path e = from_io e

-- The removal, by what stands at the path.
unfoldable pub delete_node : Calls → Str → Str → Metadata → Run FsError (Unit {0})
delete_node os path canonical meta =
    if is_symlink meta || is_file meta
    then sys (remove_file os canonical)
    else if is_dir meta
    then (sys (read_dir os canonical) >>= λ names.
        lift (
          ensure (is_empty names)
            (conflict (lit "directory not empty; recursive delete not supported: " <+> bytes path)))
        >> sys (remove_dir os canonical))
    else lift (err (invalid_path (lit "unsupported file type: " <+> bytes path)))

unfoldable pub delete_path : Calls → FilesystemConfig → Str → Run FsError (Unit {0})
delete_path os config path = do
  canonical ← resolved_no_follow os config path
  meta ← map_error (not_there path) (symlink_metadata os canonical)
  delete_node os path canonical meta

-- `canonicalize` as a call.
abbrev pub canonicalized : Calls → Str → Run IoError Str
canonicalized os path = look os (λ tree. (os.os tree).canonicalize path)

-- `Path::is_dir`.
abbrev pub dir_there : Result IoError Metadata → Bool
dir_there (ok meta) = is_dir meta
dir_there (err e) = false

abbrev no_directory : Str → FsError
no_directory path = conflict (lit "path exists and is not a directory: " <+> bytes path)

-- The check of a component that is there.
unfoldable pub check_level : Calls → Str → Bool → Str → Metadata → Run FsError (Unit {0})
check_level os path is_final canonical meta =
    let leads_to = attempt (metadata os canonical) in
    if is_final
    then (if is_symlink meta
        then (leads_to >>= λ there. lift (ensure (dir_there there) (no_directory path)))
        else lift (ensure (is_dir meta) (no_directory path)))
    else (leads_to >>= λ there. lift (
        ensure (dir_there there)
          (not_a_directory (lit "path component is not a directory: " <+> bytes path))))

-- A component that is there, and one that is created.
unfoldable pub level : Calls → Str → Str → Bool → Str → Result IoError Metadata → Run FsError Str
level os root path is_final current (ok meta) = do
  canonical ← sys (canonicalized os current)
  lift (ensure (path_starts_with canonical root) escapes)
  check_level os path is_final canonical meta
  lift (ok canonical)
level os root path is_final current (err (IoError.not_found m)) = do
  sys (create_dir os current)
  canonical ← sys (canonicalized os current)
  lift (ensure (path_starts_with canonical root) escapes)
  lift (ok canonical)
level os root path is_final current (err e) = lift (err (from_io e))

-- The loop over the components.
unfoldable pub descend : Calls → Str → Str → Str → List Str → Run FsError Str
descend os root path current [] = lift (ok current)
descend os root path current (comp ∷ comps) = do
  there ← attempt (symlink_metadata os (path_join current comp))
  next ← level os root path (is_empty comps) (path_join current comp) there
  descend os root path next comps

abbrev pub first_root : List Str → Option Str
first_root [] = none
first_root (root ∷ roots) = some root

unfoldable pub ensure_dir_under_root : Calls → FilesystemConfig → Str → Run FsError Str
ensure_dir_under_root os config path = do
  lift (check_path_shape path)
  root ←
      lift
        (ok_or (first_root config.allowed_roots) (invalid_path (lit "no allowed roots configured")))
  comps ← lift (creation_parts path (components path))
  lift (
      ensure (not (is_empty comps))
        (invalid_path (lit "no directory name in path: " <+> bytes path)))
  descend os root path root comps

unfoldable pub create_directory : Calls → FilesystemConfig → Str → Run FsError FileMetadata
create_directory os config path = do
  canonical ← ensure_dir_under_root os config path
  meta ← sys (metadata os canonical)
  lift (ok (make_metadata meta))
