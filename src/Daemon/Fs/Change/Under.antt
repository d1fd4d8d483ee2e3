-- ===== src/Daemon/Fs/Change/Under.antt =====
-- crates/are-daemon/src/fs.rs: `create_directory` stays under the root.
use are.Base.{◌≡◌, ◌⊎◌, true, none, Str, All, str_eq}
use are.Base.Dict.{get, insert}
use are.Core.Grant.Roots.{IsPlain}
use are.Daemon.Fs.Contained.{IsCanonical, Canonicalizes}
use are.Daemon.Paths.{path_join, path_starts_with}
use are.Daemon.Disk.{directory, Tree, Calls, Disk}
use are.Daemon.Disk.Logic.{Still}

-- A place under the root: a canonical path that begins with it.
abbrev pub IsUnder : Str → Str → Type 0
IsUnder root place = (path_starts_with place root ≡ true) × IsCanonical place

-- The step that makes a directory, with a new name that is one plain component, in a place under
-- the root.
abbrev pub MakesUnder : Str → Tree × Tree → Type 0
MakesUnder root (before, after) =
    (above name : Str) × (IsUnder root above
      × IsPlain name
      × (get (path_join above name) before ≡ none)
      × (after ≡ insert (path_join above name) directory before))

-- A step that changes nothing, or makes such a directory.
abbrev pub OnlyMakes : Str → Tree × Tree → Type 0
OnlyMakes root step = Still step ⊎ MakesUnder root step

module _ (os : Calls) (root : Str)
    (canonicalizes : (tree : Tree) → Canonicalizes (os.os tree)) where
  abbrev Under : Disk → Type 0
  Under d = All (OnlyMakes root) d.steps

  abbrev At : Str → Disk → Type 0
  At current d = Under d × IsUnder root current
