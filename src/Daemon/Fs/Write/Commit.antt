-- ===== src/Daemon/Fs/Write/Commit.antt =====
-- crates/are-daemon/src/fs.rs: `atomic_commit` against what other processes do between its calls.
use are.Base.{
  ℕ, zero, suc, ◌+◌, ◌≡◌, ◌≢◌, ◌⊎◌, inl, inr, refl, if◌then◌else◌, sym, ◌∙◌, Bool, true, false,
  List, [], Option, none, some, Str, All, Result, ok, err, str_eq,
}
use are.Base.Dict.{get, insert, remove, get-insert_same, get-insert_other, get-remove_other}
use are.Daemon.Os.{IoError}
use are.Daemon.Paths.{path_join}
use are.Daemon.Disk.{
  Node, file, directory, Tree, Calls, Disk, Run, lift, nothing, create_new, made, made_at,
  write_all, sync_all, rename, rename_exclusive, replaced, placed, remove_file, unlinked,
}
use are.Daemon.Disk.Logic.{
  Ends, Triple, bind, attempts, map_errors, lifts, guards, weaken, after_call, found, calls_once,
  looks, Once, Ends-const, Ends-either, branches,
}
use are.Daemon.Fs.{FsError}
use are.Daemon.Fs.Files.{sys, rename_noreplace}
use are.Daemon.Fs.Write.{
  temp_name, created, random_bytes, create_temp, synced, sync_dir, write_and_rename, cleaned,
  atomic_commit, max_temp_name_attempts,
}

-- The names of the temporary files of a directory.
abbrev pub IsTemp : Str → Str → Type 0
IsTemp dir p = (rand : List ℕ) × (p ≡ path_join dir (temp_name rand))

-- No other process touches the temporary files.
abbrev pub Quiet : Calls → Str → Type 0
Quiet os dir =
    (i : ℕ) (tree : Tree) (p : Str) → IsTemp dir p → get p (os.others i tree) ≡ get p tree

-- A step that leaves every other path as it found it.
abbrev pub Spares : Str → Tree × Tree → Type 0
Spares dir (before, after) = (p : Str) → ¬ IsTemp dir p → get p after ≡ get p before

-- The step that replaces the target.
abbrev pub Commits : Str → Str → List ℕ → Bool → Tree × Tree → Type 0
Commits dir target content no_replace (before, after) =
    (get target after ≡ some (file content))
    × ((no_replace ≡ false) ⊎ (get target before ≡ none))
    × ((p : Str) → ¬ IsTemp dir p → target ≢ p → get p after ≡ get p before)

-- One step replaces the target: those before it spare everything, and those after it change nothing.
abbrev pub CommitsOnce : Str → Str → List ℕ → Bool → List (Tree × Tree) → Type 0
CommitsOnce dir target content no_replace =
    Once (Spares dir) (Commits dir target content no_replace)

-- No other process touches a path.
abbrev pub Untouched : Calls → Str → Type 0
Untouched os p = (i : ℕ) (tree : Tree) → get p (os.others i tree) ≡ get p tree

Spares-refl : (dir : Str) (tree : Tree) → Spares dir (tree, tree)
Spares-refl dir tree p other = refl

apart : (dir : Str) {tmp p : Str} → IsTemp dir tmp → ¬ IsTemp dir p → tmp ≢ p
apart dir (rand, e) other same = other (rand, sym same ∙ e)

Spares-insert :
    (dir : Str) {tmp : Str} (node : Node) (tree : Tree)
    → IsTemp dir tmp
    → Spares dir (tree, insert tmp node tree)
Spares-insert dir {tmp = tmp} node tree temp p other =
    get-insert_other tmp p node tree (apart dir temp other)

Spares-remove :
    (dir : Str) {tmp : Str} (tree : Tree) → IsTemp dir tmp → Spares dir (tree, remove tmp tree)
Spares-remove dir {tmp = tmp} tree temp p other = get-remove_other tmp p tree (apart dir temp other)

module _ (os : Calls) (dir target : Str) (content : List ℕ) (no_replace : Bool)
    (quiet : Quiet os dir) where
  -- Before the commit, with the whole content in the temporary file, and after the commit.
  abbrev pub Clean : Disk → Type 0
  Clean d = All (Spares dir) d.steps

  abbrev Written : Str → Disk → Type 0
  Written tmp d = Clean d × (get tmp d.tree ≡ some (file content))

  abbrev pub Done : Disk → Type 0
  Done d =
      CommitsOnce dir target content no_replace d.steps
      × (Untouched os target → get target d.tree ≡ some (file content))

  pub Clean-look : (d : Disk) → Clean d → Clean (after_call d (found os d) (found os d))
  Clean-look d h = (Spares-refl dir (found os d), h)

  Written-look :
      (tmp : Str)
      → IsTemp dir tmp
      → (d : Disk) → Written tmp d
      → Written tmp (after_call d (found os d) (found os d))
  Written-look tmp temp d (h, e) = (Clean-look d h, quiet d.calls d.tree tmp temp ∙ e)

  pub Done-look : (d : Disk) → Done d → Done (after_call d (found os d) (found os d))
  Done-look d (h, kept) = (inl (refl, h), λ untouched. untouched d.calls d.tree ∙ kept untouched)

  made-Clean :
      (tmp : Str) (d : Disk) (tree : Tree) (taken above : Bool)
      → IsTemp dir tmp
      → Clean d
      → let x = made tmp (file []) tree taken above in
        Ends Clean (λ u. Clean) x.0 (after_call d tree x.1)
  made-Clean tmp d tree true above temp h = (Spares-refl dir tree, h)
  made-Clean tmp d tree false true temp h = (Spares-insert dir (file []) tree temp, h)
  made-Clean tmp d tree false false temp h = (Spares-refl dir tree, h)

  create_new-Clean :
      (tmp : Str) → IsTemp dir tmp → Triple Clean (create_new os tmp) Clean (λ u. Clean)
  unfolding create_new
  create_new-Clean tmp temp =
      calls_once os nothing (made_at tmp (file [])) (λ d n h. Clean-look d h)
        (λ d h. made-Clean tmp d (found os d) _ _ temp h)

  write_all-Written :
      (tmp : Str)
      → IsTemp dir tmp
      → Triple Clean (write_all os tmp content) Clean (λ u. Written tmp)
  unfolding write_all
  write_all-Written tmp temp =
      calls_once os _ _ (λ d n h. (Spares-insert dir _ (found os d) temp, h))
        (λ d h. (
          (Spares-insert dir (file content) (found os d) temp, h),
          get-insert_same tmp (file content) (found os d),
        ))

  sync_all-Written :
      (tmp : Str)
      → IsTemp dir tmp
      → Triple (Written tmp) (sync_all os) (Written tmp) (λ u. Written tmp)
  unfolding sync_all
  sync_all-Written tmp temp = looks os _ (Written-look tmp temp)

  unlinked-Clean :
      (tmp : Str) (d : Disk) (tree : Tree) (there : Option Node)
      → IsTemp dir tmp
      → Clean d
      → let x = unlinked tmp tree there in Ends Clean (λ u. Clean) x.0 (after_call d tree x.1)
  unlinked-Clean tmp d tree none temp h = (Spares-refl dir tree, h)
  unlinked-Clean tmp d tree (some directory) temp h = (Spares-refl dir tree, h)
  unlinked-Clean tmp d tree (some node) temp h = (Spares-remove dir tree temp, h)

  remove_file-Clean :
      (tmp : Str) → IsTemp dir tmp → Triple Clean (remove_file os tmp) Clean (λ u. Clean)
  unfolding remove_file
  remove_file-Clean tmp temp =
      calls_once os nothing (λ tree. unlinked tmp tree (get tmp tree)) (λ d n h. Clean-look d h)
        (λ d h. unlinked-Clean tmp d (found os d) _ temp h)

  -- The entry that the rename moves, and what it leaves.
  commit :
      (tmp : Str) (d : Disk) (tree : Tree)
      → IsTemp dir tmp
      → Clean d
      → ((no_replace ≡ false) ⊎ (get target tree ≡ none))
      → Done (after_call d tree (insert target (file content) (remove tmp tree)))
  commit tmp d tree temp h free = (
    inr (
      (
        get-insert_same target (file content) (remove tmp tree),
        free,
        λ p other new.
            get-insert_other target p (file content) (remove tmp tree) new
            ∙ get-remove_other tmp p tree (apart dir temp other),
      ),
      h,
    ),
    λ untouched. get-insert_same target (file content) (remove tmp tree),
  )

  replaced-Done :
      (tmp : Str) (d : Disk) (tree : Tree) (dst : Option Node)
      → IsTemp dir tmp
      → Clean d
      → no_replace ≡ false
      → let x = replaced tmp target tree (some (file content)) dst in
        Ends Clean (λ u. Done) x.0 (after_call d tree x.1)
  replaced-Done tmp d tree (some directory) temp h replace = (Spares-refl dir tree, h)
  replaced-Done tmp d tree none temp h replace = commit tmp d tree temp h (inl replace)
  replaced-Done tmp d tree (some node) temp h replace = commit tmp d tree temp h (inl replace)

  placed-Done :
      (tmp : Str) (d : Disk) (tree : Tree) (dst : Option Node)
      → IsTemp dir tmp
      → Clean d
      → get target tree ≡ dst
      → let x = placed tmp target tree (some (file content)) dst in
        Ends Clean (λ u. Done) x.0 (after_call d tree x.1)
  placed-Done tmp d tree (some node) temp h e = (Spares-refl dir tree, h)
  placed-Done tmp d tree none temp h e = commit tmp d tree temp h (inr e)

  rename-Done :
      (tmp : Str)
      → IsTemp dir tmp
      → no_replace ≡ false
      → Triple (Written tmp) (rename os tmp target) Clean (λ u. Done)
  unfolding rename
  rename-Done tmp temp replace =
      calls_once os nothing (λ tree. replaced tmp target tree (get tmp tree) (get target tree))
        (λ d n h. Clean-look d h.0)
        (λ d h.
          rw (quiet d.calls d.tree tmp temp ∙ h.1)
            (replaced-Done tmp d (found os d) (get target (found os d)) temp h.0 replace))

  rename_exclusive-Done :
      (tmp : Str)
      → IsTemp dir tmp
      → Triple (Written tmp) (rename_exclusive os tmp target) Clean (λ u. Done)
  unfolding rename_exclusive
  rename_exclusive-Done tmp temp =
      calls_once os nothing (λ tree. placed tmp target tree (get tmp tree) (get target tree))
        (λ d n h. Clean-look d h.0)
        (λ d h.
          rw (quiet d.calls d.tree tmp temp ∙ h.1)
            (placed-Done tmp d (found os d) (get target (found os d)) temp h.0 refl))

  abbrev Made : Str → Disk → Type 0
  Made tmp d = Clean d × IsTemp dir tmp

  random_bytes-Clean : (i : ℕ) → Triple Clean (random_bytes os i) Clean (λ rand. Clean)
  unfolding lift
  random_bytes-Clean i = record { run = λ d h. Ends-const Clean _ d h }

  created-Made :
      (tmp : Str) (again : Run FsError Str) (r : Result IoError (Unit {0}))
      → IsTemp dir tmp
      → Triple Clean again Clean Made
      → Triple (Ends Clean (λ u. Clean) r) (created tmp again r) Clean Made
  created-Made tmp again (ok u) temp h = lifts (ok tmp) (λ d clean. (clean, temp))
  created-Made tmp again (err (IoError.already_exists m)) temp h = h
  created-Made tmp again (err (IoError.not_found m)) temp h = lifts (err _) (λ d clean. clean)
  created-Made tmp again (err (IoError.permission_denied m)) temp h =
      lifts (err _) (λ d clean. clean)
  created-Made tmp again (err (IoError.other m)) temp h = lifts (err _) (λ d clean. clean)

  create_temp-Made :
      (attempts_left i : ℕ) → Triple Clean (create_temp os dir attempts_left i) Clean Made
  unfolding create_temp
  create_temp-Made zero i = lifts (err _) (λ d clean. clean)
  create_temp-Made (suc n) i = bind (random_bytes-Clean i) (λ rand.
      bind (attempts (create_new-Clean (path_join dir (temp_name rand)) (rand, refl))) (λ r.
        created-Made (path_join dir (temp_name rand)) _ r (rand, refl)
          (create_temp-Made n (i + 1))))

  rename_noreplace-Done :
      (tmp : Str)
      → IsTemp dir tmp
      → Triple (Written tmp) (rename_noreplace os tmp target) Clean (λ u. Done)
  unfolding rename_noreplace
  rename_noreplace-Done tmp temp =
      guards _ _ (λ d h. h.0)
        (λ c. guards _ _ (λ d h. h.0) (λ c. map_errors _ (rename_exclusive-Done tmp temp)))

  synced-Written :
      (tmp : Str) (r : Result IoError (Unit {0}))
      → IsTemp dir tmp
      → Triple (Ends (Written tmp) (λ u. Written tmp) r) (synced os r) Clean (λ u. Written tmp)
  synced-Written tmp (ok u) temp =
      bind (attempts (sync_all-Written tmp temp))
        (λ r. lifts (ok tt) (λ d h. Ends-either (Written tmp) r d h))
  synced-Written tmp (err e) temp = lifts (ok tt) (λ d h. h)

  sync_dir-Written :
      (tmp : Str) → IsTemp dir tmp → Triple (Written tmp) (sync_dir os) Clean (λ u. Written tmp)
  unfolding sync_dir
  sync_dir-Written tmp temp =
      bind (attempts (sync_all-Written tmp temp)) (λ r. synced-Written tmp r temp)

  renames-Done :
      (tmp : Str)
      → IsTemp dir tmp
      → let m : Run FsError (Unit {0}) =
          if no_replace then rename_noreplace os tmp target else sys (rename os tmp target) in
        Triple (Written tmp) m Clean (λ u. Done)
  renames-Done tmp temp =
      branches no_replace (λ exclusive. rename_noreplace-Done tmp temp)
        (λ replace. map_errors _ (rename-Done tmp temp replace))

  write_and_rename-Done :
      (tmp : Str)
      → IsTemp dir tmp
      → Triple Clean (write_and_rename os tmp target content no_replace) Clean (λ u. Done)
  unfolding write_and_rename
  write_and_rename-Done tmp temp = bind (map_errors _ (write_all-Written tmp temp)) (λ u.
      bind (map_errors _ (weaken (λ d h. h) (λ d h. h.0) (λ u d h. h) (sync_all-Written tmp temp)))
        (λ u. bind (sync_dir-Written tmp temp) (λ u. renames-Done tmp temp)))

  cleaned-Done :
      (tmp : Str) (r : Result FsError (Unit {0}))
      → IsTemp dir tmp
      → Triple (Ends Clean (λ u. Done) r) (cleaned os tmp r) Clean (λ u. Done)
  cleaned-Done tmp (ok u) temp = lifts (ok tt) (λ d h. h)
  cleaned-Done tmp (err e) temp =
      bind (attempts (remove_file-Clean tmp temp))
        (λ r. lifts (err e) (λ d h. Ends-either Clean r d h))

  pub atomic_commit-Done :
      Triple Clean (atomic_commit os dir target content no_replace) Clean (λ u. Done)
  unfolding atomic_commit
  atomic_commit-Done = bind {Q = Made} (create_temp-Made max_temp_name_attempts 0) (λ tmp. record {
    run = λ d h.
        (bind (attempts (write_and_rename-Done tmp h.1)) (λ r. cleaned-Done tmp r h.1)).run d h.0;
  })
