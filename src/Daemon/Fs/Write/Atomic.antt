-- ===== src/Daemon/Fs/Write/Atomic.antt =====
-- crates/are-daemon/src/fs.rs: `write_file` against what other processes do between its calls.
use are.Base.{
  ℕ, ◌≡◌, ◌⊎◌, inl, inr, Bool, not, List, [], Option, some, Str, All, ok, str_eq, length, ltb,
  Bool-cases,
}
use are.Core.Request.{FileMetadata}
use are.Daemon.Paths.{parent}
use are.Daemon.Disk.{Calls, Disk, ◌>>=◌, lift}
use are.Daemon.Disk.Logic.{
  Ends, Triple, Ends-weaken, bind, attempts, map_errors, lifts, weaken, Ends-either, knows,
}
use are.Daemon.Fs.{FsError, FilesystemConfig, resolve}
use are.Daemon.Fs.Files.{resolved}
use are.Daemon.Fs.Write.{write_resolved, write_file}
use are.Daemon.Fs.Write.Commit.{
  Quiet, Spares, CommitsOnce, Clean, Done, Clean-look, Done-look, atomic_commit-Done,
}
use are.Daemon.Fs.Reads.{
  symlink_metadata-Looks, metadata-Looks, check_target-Looks, parent_there-Looks,
}

module _ (os : Calls) (dir canonical : Str) (content : List ℕ) (overwrite : Bool)
    (quiet : Quiet os dir) where
  abbrev pub CleanAt : Disk → Type 0
  CleanAt = Clean os dir canonical content (not overwrite) quiet

  abbrev pub DoneAt : Disk → Type 0
  DoneAt = Done os dir canonical content (not overwrite) quiet

  write_resolved-Done :
      (config : FilesystemConfig) (path : Str) (expected_hash : Option Str)
      → parent canonical ≡ some dir
      → Triple CleanAt
          (write_resolved os config path canonical content overwrite expected_hash)
          (λ d. CleanAt d ⊎ DoneAt d)
          (λ meta. DoneAt)
  unfolding write_resolved
  write_resolved-Done config path expected_hash e = rw (e) (
      bind
        (attempts (
          symlink_metadata-Looks os CleanAt CleanAt
            (Clean-look os dir canonical content (not overwrite) quiet) (λ d h. h) canonical))
        (λ there.
          bind
            (weaken (λ d h. Ends-either CleanAt there d h) (λ d h. inl h) (λ u d h. h)
              (check_target-Looks os CleanAt CleanAt
                (Clean-look os dir canonical content (not overwrite) quiet) (λ d h. h) config path
                canonical overwrite expected_hash there))
            (λ u. knows dir _ (
              bind
                (attempts (
                  metadata-Looks os CleanAt CleanAt
                    (Clean-look os dir canonical content (not overwrite) quiet) (λ d h. h) dir))
                (λ dir_there.
                  bind
                    (weaken (λ d h. Ends-either CleanAt dir_there d h) (λ d h. inl h) (λ u d h. h)
                      (parent_there-Looks os CleanAt CleanAt
                        (Clean-look os dir canonical content (not overwrite) quiet) (λ d h. h) path
                        dir_there))
                    (λ u.
                      bind
                        (weaken (λ d h. h) (λ d h. inl h) (λ u d h. h)
                          (atomic_commit-Done os dir canonical content (not overwrite) quiet))
                        (λ u.
                          bind
                            (map_errors _ (
                              metadata-Looks os DoneAt (λ d. CleanAt d ⊎ DoneAt d)
                                (Done-look os dir canonical content (not overwrite) quiet)
                                (λ d h. inr h) canonical))
                            (λ meta. lifts (ok _) (λ d h. h)))))))))

  pub write_file-Done :
      (config : FilesystemConfig) (path : Str) (expected_hash : Option Str) (d : Disk)
      → resolve (os.os d.tree) config path ≡ ok canonical
      → parent canonical ≡ some dir
      → CleanAt d
      → let x = write_file os config path content overwrite expected_hash d in
        Ends (λ d. CleanAt d ⊎ DoneAt d) (λ meta. DoneAt) x.0 x.1
  unfolding write_file ◌>>=◌ lift resolved
  write_file-Done config path expected_hash d e above kept =
      elim (Bool-cases (ltb config.max_file_bytes (length content))) [
        | inl large ↦ rw (large) (inl kept)
        | inr small ↦
            rw (small, e) ((write_resolved-Done config path expected_hash above).run d kept)
      ]

  -- A write of a file that resolves to `canonical`, in a directory whose temporary files no other
  -- process touches, whatever else the other processes change between its calls and wherever a
  -- call fails: if it succeeds, exactly one of its steps changes an entry that is not a temporary
  -- file, and that step puts the whole new content at the target at once, over no entry when
  -- `overwrite` is false; if it fails, no step changes such an entry, or that one step has.
  pub write_file_atomic :
      (config : FilesystemConfig) (path : Str) (expected_hash : Option Str) (d : Disk)
      → resolve (os.os d.tree) config path ≡ ok canonical
      → parent canonical ≡ some dir
      → d.steps ≡ []
      → let x = write_file os config path content overwrite expected_hash d in
        Ends
          (λ d.
            All (Spares dir) d.steps ⊎ CommitsOnce dir canonical content (not overwrite) d.steps)
          (λ meta d. CommitsOnce dir canonical content (not overwrite) d.steps)
          x.0
          x.1
  write_file_atomic config path expected_hash d e above fresh =
      Ends-weaken {E = FsError} {A = FileMetadata} {Q = λ meta. DoneAt} _ _ weaker (λ meta d h. h.0)
        (write_file-Done config path expected_hash d e above (rw (fresh) tt))
    where
      weaker :
          (d : Disk)
          → CleanAt d ⊎ DoneAt d
          → All (Spares dir) d.steps ⊎ CommitsOnce dir canonical content (not overwrite) d.steps
      weaker d (inl h) = inl h
      weaker d (inr h) = inr h.0
