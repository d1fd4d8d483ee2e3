-- ===== src/Daemon/Fs/Files.antt =====
-- crates/are-daemon/src/fs.rs: the operations of `FilesystemBackend` on files and directories. A
-- resolution is one look at the tree, and every call of `tokio::fs` or `std::fs` is one step.
use mathlib.Core.List.{reverse}
use are.Base.{
  ℕ, Bool, true, false, not, ◌||◌, List, [], ◌∷◌, ◌++◌, none, some, Str, ascii, contains, is_empty,
  lit, bytes, ok, ensure, ltb, eqb, if◌then◌else◌, ◌==◌, str_eq,
}
use are.Core.Request.{FileMetadata, DirectoryEntry}
use are.Daemon.Os.{IoError}
use are.Daemon.Paths.{path_join}
use are.Daemon.Disk.{
  file, directory, link, Metadata, Calls, Run, ◌>>=◌, ◌>>◌, lift, map_error, symlink_metadata,
  metadata, read_bytes, rename_exclusive, read_dir,
}
use are.Daemon.Fs.{
  FsError, not_found, permission_denied, not_a_directory, is_a_directory, file_too_large, conflict,
  io, FilesystemConfig, resolve, resolve_no_follow,
}

-- `From<std::io::Error>`.
unfoldable pub from_io : IoError → FsError
from_io (IoError.not_found m) = not_found m
from_io (IoError.permission_denied m) = permission_denied m
from_io (IoError.already_exists m) = io m
from_io (IoError.other m) = io m

-- `?` on a call.
abbrev pub sys : {A : Type 0} → Run IoError A → Run FsError A
sys m = map_error from_io m

-- A resolution in the tree as it is.
unfoldable pub resolved : Calls → FilesystemConfig → Str → Run FsError Str
resolved os config path d = (resolve (os.os d.tree) config path, d)

unfoldable pub resolved_no_follow : Calls → FilesystemConfig → Str → Run FsError Str
resolved_no_follow os config path d = (resolve_no_follow (os.os d.tree) config path, d)

abbrev pub is_dir : Metadata → Bool
is_dir meta = elim meta.node [ directory ↦ true | _ ↦ false ]

abbrev pub is_file : Metadata → Bool
is_file meta = elim meta.node [ file content ↦ true | _ ↦ false ]

abbrev pub is_symlink : Metadata → Bool
is_symlink meta = elim meta.node [ link ↦ true | _ ↦ false ]

unfoldable pub make_metadata : Metadata → FileMetadata
make_metadata meta = record {
  size = meta.len;
  modified_at = meta.modified;
  is_dir = is_dir meta;
  is_file = is_file meta;
  hash = none;
}

unfoldable pub with_content_hash : Calls → FileMetadata → List ℕ → FileMetadata
with_content_hash os meta content =
    if meta.is_file then record meta { hash = some (os.hash content) } else meta

abbrev pub too_large : Str → ℕ → ℕ → FsError
too_large path size limit = file_too_large (bytes path) size limit

unfoldable pub read_file : Calls → FilesystemConfig → Str → Run FsError (List ℕ × FileMetadata)
read_file os config path = do
  canonical ← resolved os config path
  meta ← sys (metadata os canonical)
  lift (ensure (not (is_dir meta)) (is_a_directory (bytes path)))
  lift (
      ensure (not (ltb config.max_file_bytes meta.len))
        (too_large path meta.len config.max_file_bytes))
  content ← sys (read_bytes os canonical)
  lift (ok (content, with_content_hash os (make_metadata meta) content))

abbrev drop_slashes : Str → Str
drop_slashes [] = []
drop_slashes (c ∷ s) = let rest = drop_slashes s in if eqb c b'/' then rest else c ∷ s

-- `trim_end_matches('/')`.
abbrev pub trim_end_slashes : Str → Str
trim_end_slashes path = reverse (drop_slashes (reverse path))

unfoldable pub entry_rel : Str → Str → Str
entry_rel path name =
    if is_empty path || path == ascii "."
    then name
    else trim_end_slashes path ++ (ascii "/" ++ name)

-- The loop over the names of a directory.
unfoldable pub list_entries : Calls → Str → Str → List Str → Run FsError (List DirectoryEntry)
list_entries os path canonical [] = lift (ok [])
list_entries os path canonical (name ∷ names) = do
  entry_meta ← sys (symlink_metadata os (path_join canonical name))
  entries ← list_entries os path canonical names
  lift (
      ok (
        record { name = name; path = entry_rel path name; metadata = make_metadata entry_meta }
        ∷ entries))

unfoldable pub list_directory : Calls → FilesystemConfig → Str → Run FsError (List DirectoryEntry)
list_directory os config path = do
  canonical ← resolved os config path
  meta ← sys (metadata os canonical)
  lift (ensure (is_dir meta) (not_a_directory (bytes path)))
  names ← sys (read_dir os canonical)
  list_entries os path canonical names

-- The metadata of a file with its hash, if it is small enough to be read.
unfoldable pub hashed_metadata :
    Calls → FilesystemConfig → Str → Metadata → Run FsError FileMetadata
hashed_metadata os config canonical meta =
    if is_file meta
    then (if ltb config.max_file_bytes meta.len
        then lift (ok (make_metadata meta))
        else (sys (read_bytes os canonical) >>= λ content.
            lift (ok (with_content_hash os (make_metadata meta) content))))
    else lift (ok (make_metadata meta))

unfoldable pub file_metadata : Calls → FilesystemConfig → Str → Run FsError FileMetadata
file_metadata os config path = do
  canonical ← resolved os config path
  meta ← sys (metadata os canonical)
  hashed_metadata os config canonical meta

-- The error of the exclusive rename: an entry that is there is a conflict.
abbrev exclusive_error : IoError → FsError
exclusive_error (IoError.already_exists m) = conflict (lit "destination exists")
exclusive_error e = from_io e

-- On Linux.
unfoldable pub rename_noreplace : Calls → Str → Str → Run FsError (Unit {0})
rename_noreplace os src dst = do
  lift (ensure (not (contains 0 src)) (io (lit "source path is invalid")))
  lift (ensure (not (contains 0 dst)) (io (lit "destination path is invalid")))
  map_error exclusive_error (rename_exclusive os src dst)
