-- ===== src/Daemon/Disk.antt =====
-- The file tree as the daemon's calls see and change it. The operating system is outside the
-- program: a call can fail, other processes change the tree between calls, and what a call does
-- when it succeeds is what its documentation says. Paths are canonical but for their last name.
pub mod Logic
use are.Base.{
  ℕ, ◌+◌, ◌≤◌, ◌<◌, ◌≡◌, refl, Bool, true, false, not, ◌&&◌, ◌||◌, List, [], ◌∷◌, ◌++◌, Option,
  none, some, Str, ascii, take, length, contains, strip_prefix, is_empty, any, Message, lit, bytes,
  Result, ok, err, ok_or, if◌then◌else◌, is_some, unwrap_or, ◌==◌, str_eq,
}
use are.Base.Dict.{Dict, get, insert, remove}
use are.Core.Error.{◌<+>◌}
use are.Daemon.Os.{Os, IoError, not_found, permission_denied, already_exists, other}
use are.Daemon.Paths.{parent}

-- What stands under a name. `special` is a socket, a pipe or a device.
pub data Node : Type 0 where
  file : List ℕ → Node
  directory : Node
  link : Node
  special : Node

abbrev pub Tree : Type 0
Tree = Dict Str Node

-- `std::fs::Metadata`.
pub record Metadata : Type 0 where
  pub node : Node
  pub len : ℕ
  pub modified : Option ℕ

-- The environment of the calls of one request.
pub record Calls : Type 0 where
  -- The other calls of the operating system, in a given tree.
  pub os : Tree → Os
  -- What other processes have done to the tree before the i-th call.
  pub others : ℕ → Tree → Tree
  -- The i-th call fails, and how much it has written by then if it writes.
  pub fault : ℕ → Option (IoError × ℕ)
  -- The length of what is no file, the time of a change, and `blake3::hash(..).to_hex()`.
  pub other_len : Tree → Str → ℕ
  pub modified : Tree → Str → Option ℕ
  pub hash : List ℕ → Str

-- The tree, the number of the next call, and the steps so far: each call with the tree that it
-- found and the tree that it left, the last one first.
pub record Disk : Type 0 where
  pub tree : Tree
  pub calls : ℕ
  pub steps : List (Tree × Tree)

-- An operation on the disk, which keeps what it has done when it fails.
abbrev pub Run : Type 0 → Type 0 → Type 0
Run E A = Disk → Result E A × Disk

abbrev pub continue : {E A B : Type 0} → Result E A × Disk → (A → Run E B) → Result E B × Disk
continue (ok a, d) f = f a d
continue (err e, d) f = (err e, d)

infixl 5 ◌>>=◌ ◌>>◌
unfoldable pub ◌>>=◌ : {E A B : Type 0} → Run E A → (A → Run E B) → Run E B
◌>>=◌ m f d = continue (m d) f

abbrev pub ◌>>◌ : {E B : Type 0} → Run E (Unit {0}) → Run E B → Run E B
m >> n = m >>= λ _. n

unfoldable pub lift : {E A : Type 0} → Result E A → Run E A
lift r d = (r, d)

abbrev pub attempted : {E F A : Type 0} → Result E A × Disk → Result F (Result E A) × Disk
attempted (r, d) = (ok r, d)

-- The result of an operation as a value, for a `match` on it.
unfoldable pub attempt : {E F A : Type 0} → Run E A → Run F (Result E A)
attempt m d = attempted (m d)

abbrev pub mapped : {E F A : Type 0} → (E → F) → Result E A × Disk → Result F A × Disk
mapped f (ok a, d) = (ok a, d)
mapped f (err e, d) = (err (f e), d)

unfoldable pub map_error : {E F A : Type 0} → (E → F) → Run E A → Run F A
map_error f m d = mapped f (m d)

-- The state after a call that found `before`.
abbrev pub stepped : {A : Type 0} → Disk → Tree → Result IoError A × Tree → Result IoError A × Disk
stepped d before (r, after) =
    (r, record { tree = after; calls = d.calls + 1; steps = (before, after) ∷ d.steps })

-- One call: `act` if it succeeds, `part` of it if it fails.
unfoldable pub call :
    {A : Type 0} → Calls → (ℕ → Tree → Tree) → (Tree → Result IoError A × Tree) → Run IoError A
call os part act d =
    let before = os.others d.calls d.tree in
    elim (os.fault d.calls) [
      | some (e, n) ↦ stepped d before (err e, part n before)
      | none ↦ stepped d before (act before)
    ]

abbrev pub nothing : ℕ → Tree → Tree
nothing n tree = tree

-- A call that changes nothing.
abbrev pub look : {A : Type 0} → Calls → (Tree → Result IoError A) → Run IoError A
look os f = call os nothing (λ tree. (f tree, tree))

abbrev no_entry : Message
no_entry = lit "No such file or directory"

abbrev pub metadata_of : Calls → Tree → Str → Node → Metadata
metadata_of os tree path (file content) = record {
  node = file content;
  len = length content;
  modified = os.modified tree path;
}
metadata_of os tree path node = record {
  node = node;
  len = os.other_len tree path;
  modified = os.modified tree path;
}

-- The node of a path, and of what it leads to when it is a link.
abbrev pub entry_at : Tree → Str → Result IoError Node
entry_at tree path = ok_or (get path tree) (not_found no_entry)

abbrev followed : Calls → Tree → Str → Option Node → Result IoError (Str × Node)
followed os tree path none = err (not_found no_entry)
followed os tree path (some link) = elim ((os.os tree).canonicalize path) [
  | err e ↦ err e
  | ok leads_to ↦ elim (get leads_to tree) [
    | none ↦ err (not_found no_entry)
    | some node ↦ ok (leads_to, node)
  ]
]
followed os tree path (some node) = ok (path, node)

abbrev pub follow : Calls → Tree → Str → Result IoError (Str × Node)
follow os tree path = followed os tree path (get path tree)

-- `symlink_metadata`, and `metadata`, which follows a link.
unfoldable pub symlink_metadata : Calls → Str → Run IoError Metadata
symlink_metadata os path = look os λ tree. elim (entry_at tree path) [
  | err e ↦ err e
  | ok node ↦ ok (metadata_of os tree path node)
]

unfoldable pub metadata : Calls → Str → Run IoError Metadata
metadata os path = look os λ tree. elim (follow os tree path) [
  | err e ↦ err e
  | ok (leads_to, node) ↦ ok (metadata_of os tree leads_to node)
]

abbrev pub content_of : Node → Result IoError (List ℕ)
content_of (file content) = ok content
content_of directory = err (other (lit "Is a directory"))
content_of _ = err (other (lit "not a regular file"))

-- `fs::read`.
unfoldable pub read_bytes : Calls → Str → Run IoError (List ℕ)
read_bytes os path =
    look os
      λ tree. elim (follow os tree path) [ err e ↦ err e | ok (leads_to, node) ↦ content_of node ]

-- The directory that a new name is made in.
unfoldable pub has_parent : Str → Tree → Bool
has_parent path tree = elim (parent path) [
  | none ↦ false
  | some dir ↦ elim (get dir tree) [ some directory ↦ true | _ ↦ false ]
]

-- What making a new entry does, by whether the name is taken and has a directory above it.
abbrev pub made : Str → Node → Tree → Bool → Bool → Result IoError (Unit {0}) × Tree
made path node tree true above = (err (already_exists (lit "File exists")), tree)
made path node tree false true = (ok tt, insert path node tree)
made path node tree false false = (err (not_found no_entry), tree)

abbrev pub made_at : Str → Node → Tree → Result IoError (Unit {0}) × Tree
made_at path node tree = made path node tree (is_some (get path tree)) (has_parent path tree)

-- `OpenOptions::create_new`, and `create_dir`.
unfoldable pub create_new : Calls → Str → Run IoError (Unit {0})
create_new os path = call os nothing (made_at path (file []))

unfoldable pub create_dir : Calls → Str → Run IoError (Unit {0})
create_dir os path = call os nothing (made_at path directory)

-- `write_all` to a file that was just created; a failure has written some of it.
unfoldable pub write_all : Calls → Str → List ℕ → Run IoError (Unit {0})
write_all os path content =
    call os (λ n tree. insert path (file (take n content)) tree)
      (λ tree. (ok tt, insert path (file content) tree))

-- `sync_all`, and `File::open` of a directory: no change of the tree.
unfoldable pub sync_all : Calls → Run IoError (Unit {0})
sync_all os = look os (λ tree. ok tt)

-- Every entry below the directory `src` goes with it.
unfoldable pub move_below : Str → Str → Tree → Tree
move_below src dst [] = []
move_below src dst ((path, node) ∷ tree) =
    let rest = move_below src dst tree in
    elim (strip_prefix (src ++ ascii "/") path) [
      | none ↦ (path, node) ∷ rest
      | some below ↦ (dst ++ (ascii "/" ++ below), node) ∷ rest
    ]

abbrev pub moved : Str → Str → Node → Tree → Tree
moved src dst directory tree = move_below src dst (insert dst directory (remove src tree))
moved src dst node tree = insert dst node (remove src tree)

-- What a rename does, by what stands at its ends: it replaces what is no directory.
abbrev pub replaced :
    Str → Str → Tree → Option Node → Option Node → Result IoError (Unit {0}) × Tree
replaced src dst tree none there = (err (not_found no_entry), tree)
replaced src dst tree (some node) (some directory) = (err (other (lit "Is a directory")), tree)
replaced src dst tree (some node) there = (ok tt, moved src dst node tree)

-- `rename`.
unfoldable pub rename : Calls → Str → Str → Run IoError (Unit {0})
rename os src dst = call os nothing (λ tree. replaced src dst tree (get src tree) (get dst tree))

-- What an exclusive rename does: it replaces nothing.
abbrev pub placed : Str → Str → Tree → Option Node → Option Node → Result IoError (Unit {0}) × Tree
placed src dst tree none there = (err (not_found no_entry), tree)
placed src dst tree (some node) (some taken) = (err (already_exists (lit "File exists")), tree)
placed src dst tree (some node) none = (ok tt, moved src dst node tree)

-- `renameat2` with `RENAME_NOREPLACE`.
unfoldable pub rename_exclusive : Calls → Str → Str → Run IoError (Unit {0})
rename_exclusive os src dst =
    call os nothing (λ tree. placed src dst tree (get src tree) (get dst tree))

abbrev pub unlinked : Str → Tree → Option Node → Result IoError (Unit {0}) × Tree
unlinked path tree none = (err (not_found no_entry), tree)
unlinked path tree (some directory) = (err (other (lit "Is a directory")), tree)
unlinked path tree (some node) = (ok tt, remove path tree)

-- `remove_file`, of a file or a link itself.
unfoldable pub remove_file : Calls → Str → Run IoError (Unit {0})
remove_file os path = call os nothing (λ tree. unlinked path tree (get path tree))

-- The names in a directory.
unfoldable pub names_in : Str → Tree → List Str
names_in dir [] = []
names_in dir ((path, node) ∷ tree) =
    let rest = names_in dir tree in
    elim (strip_prefix (dir ++ ascii "/") path) [
      | none ↦ rest
      | some name ↦ if is_empty name || contains b'/' name then rest else name ∷ rest
    ]

-- `read_dir`, to its end.
unfoldable pub read_dir : Calls → Str → Run IoError (List Str)
read_dir os path = look os λ tree. ok (names_in path tree)

abbrev pub removed_if : Str → Tree → Bool → Result IoError (Unit {0}) × Tree
removed_if path tree true = (ok tt, remove path tree)
removed_if path tree false = (err (other (lit "Directory not empty")), tree)

abbrev pub emptied : Str → Tree → Option Node → Result IoError (Unit {0}) × Tree
emptied path tree none = (err (not_found no_entry), tree)
emptied path tree (some directory) = removed_if path tree (is_empty (names_in path tree))
emptied path tree (some node) = (err (other (lit "Not a directory")), tree)

-- `remove_dir`, of an empty directory.
unfoldable pub remove_dir : Calls → Str → Run IoError (Unit {0})
remove_dir os path = call os nothing (λ tree. emptied path tree (get path tree))
