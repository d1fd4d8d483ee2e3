-- ===== src/Daemon/Fs/Reads.antt =====
-- crates/are-daemon/src/fs.rs: the operations, and the parts of them, that only look at the disk.
use are.Base.{Bool, List, [], ◌∷◌, Option, none, some, Str, Result, ok, err, str_eq, ltb}
use are.Daemon.Os.{IoError}
use are.Daemon.Paths.{path_join}
use are.Daemon.Disk.{
  Metadata, Calls, Disk, Run, lift, symlink_metadata, metadata, read_bytes, read_dir,
}
use are.Daemon.Disk.Logic.{
  Triple, bind, map_errors, lifts, guards, weaken, after_call, found, looks, branches,
}
use are.Daemon.Fs.{FilesystemConfig, resolve}
use are.Daemon.Fs.Files.{
  resolved, hashed_metadata, read_file, list_entries, list_directory, file_metadata, is_dir,
  is_file,
}
use are.Daemon.Fs.Write.{check_hash, check_target, parent_there}

-- A condition that a look keeps, and what it amounts to after a failure.
module _ (os : Calls) (I F : Disk → Type 0)
    (stable : (d : Disk) → I d → I (after_call d (found os d) (found os d)))
    (weaker : (d : Disk) → I d → F d) where
  abbrev Looks : {E A : Type 0} → Run E A → Type 0
  Looks m = Triple I m F (λ a. I)

  lift-Looks : {E A : Type 0} (r : Result E A) → Looks (lift r)
  lift-Looks (ok a) = lifts (ok a) (λ d h. h)
  lift-Looks (err e) = lifts (err e) weaker

  pub resolved-Looks : (config : FilesystemConfig) (path : Str) → Looks (resolved os config path)
  unfolding resolved lift
  resolved-Looks config path = record {
    run = λ d h. (lift-Looks (resolve (os.os d.tree) config path)).run d h;
  }

  pub symlink_metadata-Looks : (path : Str) → Looks (symlink_metadata os path)
  unfolding symlink_metadata
  symlink_metadata-Looks path = weaken (λ d h. h) weaker (λ a d h. h) (looks os _ stable)

  pub metadata-Looks : (path : Str) → Looks (metadata os path)
  unfolding metadata
  metadata-Looks path = weaken (λ d h. h) weaker (λ a d h. h) (looks os _ stable)

  pub read_bytes-Looks : (path : Str) → Looks (read_bytes os path)
  unfolding read_bytes
  read_bytes-Looks path = weaken (λ d h. h) weaker (λ a d h. h) (looks os _ stable)

  pub read_dir-Looks : (path : Str) → Looks (read_dir os path)
  unfolding read_dir
  read_dir-Looks path = weaken (λ d h. h) weaker (λ a d h. h) (looks os _ stable)

  pub hashed_metadata-Looks :
      (config : FilesystemConfig) (path : Str) (meta : Metadata)
      → Looks (hashed_metadata os config path meta)
  unfolding hashed_metadata
  hashed_metadata-Looks config path meta =
      branches (is_file meta)
        (λ t.
          branches (ltb config.max_file_bytes meta.len) (λ t. lift-Looks _)
            (λ t. bind (map_errors _ (read_bytes-Looks path)) (λ content. lift-Looks _)))
        (λ t. lift-Looks _)

  read_file-Looks : (config : FilesystemConfig) (path : Str) → Looks (read_file os config path)
  unfolding read_file
  read_file-Looks config path = bind (resolved-Looks config path) (λ canonical.
      bind (map_errors _ (metadata-Looks canonical)) (λ meta. guards _ _ weaker (λ t.
        guards _ _ weaker
          (λ t. bind (map_errors _ (read_bytes-Looks canonical)) (λ content. lift-Looks _)))))

  list_entries-Looks :
      (path canonical : Str) (names : List Str) → Looks (list_entries os path canonical names)
  unfolding list_entries
  list_entries-Looks path canonical [] = lift-Looks _
  list_entries-Looks path canonical (name ∷ names) =
      bind (map_errors _ (symlink_metadata-Looks (path_join canonical name)))
        (λ meta. bind (list_entries-Looks path canonical names) (λ entries. lift-Looks _))

  list_directory-Looks :
      (config : FilesystemConfig) (path : Str) → Looks (list_directory os config path)
  unfolding list_directory
  list_directory-Looks config path = bind (resolved-Looks config path) (λ canonical.
      bind (map_errors _ (metadata-Looks canonical)) (λ meta. guards _ _ weaker (λ t.
        bind (map_errors _ (read_dir-Looks canonical))
          (λ names. list_entries-Looks path canonical names))))

  file_metadata-Looks :
      (config : FilesystemConfig) (path : Str) → Looks (file_metadata os config path)
  unfolding file_metadata
  file_metadata-Looks config path = bind (resolved-Looks config path) (λ canonical.
      bind (map_errors _ (metadata-Looks canonical))
        (λ meta. hashed_metadata-Looks config canonical meta))

  check_hash-Looks :
      (config : FilesystemConfig) (path canonical : Str) (meta : Metadata) (expected : Str)
      → Looks (check_hash os config path canonical meta expected)
  unfolding check_hash
  check_hash-Looks config path canonical meta expected =
      guards _ _ weaker
        (λ t. bind (map_errors _ (read_bytes-Looks canonical)) (λ current. lift-Looks _))

  pub check_target-Looks :
      (config : FilesystemConfig) (path canonical : Str) (overwrite : Bool)
      (expected_hash : Option Str) (there : Result IoError Metadata)
      → Looks (check_target os config path canonical overwrite expected_hash there)
  unfolding check_target
  check_target-Looks config path canonical overwrite none (ok meta) =
      branches (is_dir meta) (λ t. lift-Looks _)
        (λ t. branches overwrite (λ t. lift-Looks _) (λ t. lift-Looks _))
  check_target-Looks config path canonical overwrite (some expected) (ok meta) =
      branches (is_dir meta) (λ t. lift-Looks _)
        (λ t.
          branches overwrite (λ t. check_hash-Looks config path canonical meta expected)
            (λ t. lift-Looks _))
  check_target-Looks config path canonical overwrite expected_hash (err (IoError.not_found m)) =
      lift-Looks _
  check_target-Looks config path canonical overwrite expected_hash
        (err (IoError.permission_denied m)) =
      lift-Looks _
  check_target-Looks config path canonical overwrite expected_hash
        (err (IoError.already_exists m)) =
      lift-Looks _
  check_target-Looks config path canonical overwrite expected_hash (err (IoError.other m)) =
      lift-Looks _

  pub parent_there-Looks :
      (path : Str) (there : Result IoError Metadata) → Looks (parent_there path there)
  parent_there-Looks path (ok meta) = lift-Looks _
  parent_there-Looks path (err e) = lift-Looks _
