-- ===== src/Daemon/Fs/Change/Once.antt =====
-- crates/are-daemon/src/fs.rs: `delete_path` and `rename_path` change the tree once, or not at all.
use are.Base.{
  arith, ◌≡◌, ◌≢◌, ◌⊎◌, inl, inr, refl, ◌||◌, List, [], ◌∷◌, Option, none, some, Str, All, Result,
  ok, err, str_eq, is_empty,
}
use are.Base.Dict.{get, remove}
use are.Daemon.Os.{IoError}
use are.Daemon.Disk.{
  Node, file, directory, link, special, Tree, Metadata, Calls, Disk, Run, ◌>>=◌, nothing,
  symlink_metadata, rename_exclusive, placed, moved, remove_file, unlinked, remove_dir, emptied,
  removed_if, names_in,
}
use are.Daemon.Disk.Logic.{
  Still, Once, Ends, Triple, bind, attempts, map_errors, lifts, guards, weaken, after_call, found,
  calls_once, branches, Ends-either,
}
use are.Daemon.Fs.{FsError, FilesystemConfig, resolve_no_follow}
use are.Daemon.Fs.Files.{is_symlink, is_file, is_dir, resolved_no_follow, rename_noreplace}
use are.Daemon.Fs.Change.{source_there, destination_free, rename_path, delete_node, delete_path}
use are.Daemon.Fs.Reads.{
  symlink_metadata-Looks, metadata-Looks, read_dir-Looks, hashed_metadata-Looks,
}

-- The step that removes an entry: a directory has nothing in it.
abbrev pub Removes : Str → Tree × Tree → Type 0
Removes path (before, after) =
    (after ≡ remove path before)
    × (get path before ≢ none)
    × ((get path before ≢ some directory) ⊎ (names_in path before ≡ []))

-- The step that moves an entry to a name that is free.
abbrev pub Moves : Str → Str → Tree × Tree → Type 0
Moves src dst (before, after) =
    (node : Node) × ((get src before ≡ some node)
      × (get dst before ≡ none)
      × (after ≡ moved src dst node before))

abbrev pub Untouching : Disk → Type 0
Untouching d = All Still d.steps

Untouching-look :
    (os : Calls) (d : Disk) → Untouching d → Untouching (after_call d (found os d) (found os d))
Untouching-look os d h = (refl, h)

module _ (os : Calls) (path : Str) where
  abbrev pub Removed : Disk → Type 0
  Removed d = Once Still (Removes path) d.steps

  unlinked-Removed :
      (d : Disk) (tree : Tree) (there : Option Node)
      → Untouching d
      → get path tree ≡ there
      → let x = unlinked path tree there in
        Ends Untouching (λ u. Removed) x.0 (after_call d tree x.1)
  unlinked-Removed d tree none h e = (refl, h)
  unlinked-Removed d tree (some directory) h e = (refl, h)
  unlinked-Removed d tree (some (file content)) h e =
      inr ((refl, ground arith, inl (ground arith)), h)
  unlinked-Removed d tree (some link) h e = inr ((refl, ground arith, inl (ground arith)), h)
  unlinked-Removed d tree (some special) h e = inr ((refl, ground arith, inl (ground arith)), h)

  remove_file-Removed : Triple Untouching (remove_file os path) Untouching (λ u. Removed)
  unfolding remove_file
  remove_file-Removed =
      calls_once os nothing (λ tree. unlinked path tree (get path tree)) (λ d n h. (refl, h))
        (λ d h. unlinked-Removed d (found os d) _ h refl)

  emptied-Removed :
      (d : Disk) (tree : Tree) (there : Option Node)
      → Untouching d
      → get path tree ≡ there
      → let x = emptied path tree there in
        Ends Untouching (λ u. Removed) x.0 (after_call d tree x.1)
  emptied-Removed d tree none h e = (refl, h)
  emptied-Removed d tree (some directory) h e = go (names_in path tree) refl
    where
      go :
          (names : List Str)
          → names_in path tree ≡ names
          → let x = removed_if path tree (is_empty names) in
            Ends Untouching (λ u. Removed) x.0 (after_call d tree x.1)
      go [] n = inr ((refl, ground arith, inr n), h)
      go (name ∷ names) n = (refl, h)
  emptied-Removed d tree (some (file content)) h e = (refl, h)
  emptied-Removed d tree (some link) h e = (refl, h)
  emptied-Removed d tree (some special) h e = (refl, h)

  remove_dir-Removed : Triple Untouching (remove_dir os path) Untouching (λ u. Removed)
  unfolding remove_dir
  remove_dir-Removed =
      calls_once os nothing (λ tree. emptied path tree (get path tree)) (λ d n h. (refl, h))
        (λ d h. emptied-Removed d (found os d) _ h refl)

  delete_node-Removed :
      (text : Str) (meta : Metadata)
      → Triple Untouching (delete_node os text path meta) Untouching (λ u. Removed)
  unfolding delete_node
  delete_node-Removed text meta =
      branches (is_symlink meta || is_file meta) (λ t. map_errors _ remove_file-Removed)
        (λ t.
          branches (is_dir meta)
            (λ t.
              bind
                (map_errors _
                  (read_dir-Looks os Untouching Untouching (Untouching-look os) (λ d h. h) path))
                (λ names. guards _ _ (λ d h. h) (λ t. map_errors _ remove_dir-Removed)))
            (λ t. lifts (err _) (λ d h. h)))

pub delete_path-Removed :
    (os : Calls) (config : FilesystemConfig) (path canonical : Str) (d : Disk)
    → resolve_no_follow (os.os d.tree) config path ≡ ok canonical
    → Untouching d
    → let x = delete_path os config path d in Ends Untouching (λ u. Removed os canonical) x.0 x.1
unfolding delete_path ◌>>=◌ resolved_no_follow
delete_path-Removed os config path canonical d e kept = rw (e) (
    (bind
        (map_errors _ (
          symlink_metadata-Looks os Untouching Untouching (Untouching-look os) (λ d h. h)
            canonical))
        (λ meta. delete_node-Removed os canonical path meta)).run
      d kept)

-- `delete_path` of an entry: if it succeeds, exactly one of its steps changes the tree, and that
-- step removes the entry, which is no directory or an empty one; if it fails, none does.
delete_path-Once :
    (os : Calls) (config : FilesystemConfig) (path canonical : Str) (d : Disk)
    → resolve_no_follow (os.os d.tree) config path ≡ ok canonical
    → d.steps ≡ []
    → let x = delete_path os config path d in
      Ends (λ d. All Still d.steps) (λ u d. Once Still (Removes canonical) d.steps) x.0 x.1
delete_path-Once os config path canonical d e fresh =
    delete_path-Removed os config path canonical d e (rw (fresh) tt)

module _ (os : Calls) (src dst : Str) where
  abbrev Moved : Disk → Type 0
  Moved d = Once Still (Moves src dst) d.steps

  placed-Moved :
      (d : Disk) (tree : Tree) (from to : Option Node)
      → Untouching d
      → get src tree ≡ from
      → get dst tree ≡ to
      → let x = placed src dst tree from to in
        Ends Untouching (λ u. Moved) x.0 (after_call d tree x.1)
  placed-Moved d tree none to h e f = (refl, h)
  placed-Moved d tree (some node) (some taken) h e f = (refl, h)
  placed-Moved d tree (some node) none h e f = inr ((node, (e, f, refl)), h)

  rename_noreplace-Moved : Triple Untouching (rename_noreplace os src dst) Untouching (λ u. Moved)
  unfolding rename_noreplace rename_exclusive
  rename_noreplace-Moved =
      guards _ _ (λ d h. h)
        (λ c.
          guards _ _ (λ d h. h)
            (λ c. map_errors _ (
              calls_once os nothing (λ tree. placed src dst tree (get src tree) (get dst tree))
                (λ d n h. (refl, h)) (λ d h. placed-Moved d (found os d) _ _ h refl refl))))

  source_there-Untouching :
      (text : Str) (there : Result IoError Metadata)
      → Triple Untouching (source_there text there) Untouching (λ u. Untouching)
  source_there-Untouching text (ok meta) = lifts (ok tt) (λ d h. h)
  source_there-Untouching text (err (IoError.not_found m)) = lifts (err _) (λ d h. h)
  source_there-Untouching text (err (IoError.permission_denied m)) = lifts (err _) (λ d h. h)
  source_there-Untouching text (err (IoError.already_exists m)) = lifts (err _) (λ d h. h)
  source_there-Untouching text (err (IoError.other m)) = lifts (err _) (λ d h. h)

  destination_free-Untouching :
      (text : Str) (there : Result IoError Metadata)
      → Triple Untouching (destination_free text there) Untouching (λ u. Untouching)
  destination_free-Untouching text (ok meta) = lifts (err _) (λ d h. h)
  destination_free-Untouching text (err e) = lifts (ok tt) (λ d h. h)

  abbrev Ended : Disk → Type 0
  Ended d = Untouching d ⊎ Moved d

  stable : (d : Disk) → Moved d → Moved (after_call d (found os d) (found os d))
  stable d h = inl (refl, h)

  looked : (path : Str) → Triple Untouching (symlink_metadata os path) Untouching (λ m. Untouching)
  looked path = symlink_metadata-Looks os Untouching Untouching (Untouching-look os) (λ d h. h) path

  after_look :
      (there : Result IoError Metadata) {m : Run FsError (Unit {0})}
      → Triple Untouching m Untouching (λ u. Untouching)
      → Triple (Ends Untouching (λ a. Untouching) there) m Ended (λ u. Untouching)
  after_look there h =
      weaken (λ d h. Ends-either Untouching there d h) (λ d h. inl h) (λ u d h. h) h

  pub rename_path-Moved :
      (config : FilesystemConfig) (src_path dst_path : Str) (d : Disk)
      → resolve_no_follow (os.os d.tree) config src_path ≡ ok src
      → resolve_no_follow (os.os d.tree) config dst_path ≡ ok dst
      → Untouching d
      → let x = rename_path os config src_path dst_path d in
        Ends
          (λ d. All Still d.steps ⊎ Once Still (Moves src dst) d.steps)
          (λ meta d. Once Still (Moves src dst) d.steps)
          x.0
          x.1
  unfolding rename_path ◌>>=◌ resolved_no_follow
  rename_path-Moved config src_path dst_path d e f kept =
      rw (e, f)
        ((guards _ _ (λ d h. inl h)
            (λ differ. bind (attempts (looked src)) (λ there.
              bind (after_look there (source_there-Untouching src_path there)) (λ u.
                bind (attempts (looked dst)) (λ there.
                  bind (after_look there (destination_free-Untouching dst_path there)) (λ u.
                    bind (weaken (λ d h. h) (λ d h. inl h) (λ u d h. h) rename_noreplace-Moved)
                      (λ u.
                        bind
                          (map_errors _ (metadata-Looks os Moved Ended stable (λ d h. inr h) dst))
                          (λ meta.
                            hashed_metadata-Looks os Moved Ended stable (λ d h. inr h) config dst
                              meta)))))))).run
          d kept)

  -- `rename_path` of an entry: if it succeeds, exactly one of its steps changes the tree, and that
  -- step moves the entry to a name that was free; if it fails, no step changes the tree, or that
  -- one step has.
  rename_path-Once :
      (config : FilesystemConfig) (src_path dst_path : Str) (d : Disk)
      → resolve_no_follow (os.os d.tree) config src_path ≡ ok src
      → resolve_no_follow (os.os d.tree) config dst_path ≡ ok dst
      → d.steps ≡ []
      → let x = rename_path os config src_path dst_path d in
        Ends
          (λ d. All Still d.steps ⊎ Once Still (Moves src dst) d.steps)
          (λ meta d. Once Still (Moves src dst) d.steps)
          x.0
          x.1
  rename_path-Once config src_path dst_path d e f fresh =
      rename_path-Moved config src_path dst_path d e f (rw (fresh) tt)
