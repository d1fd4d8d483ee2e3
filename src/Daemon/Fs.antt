-- ===== src/Daemon/Fs.antt =====
-- crates/are-daemon/src/fs.rs: the resolution of request paths against the allowed roots, and the
-- two forms that grants are checked on. The operations on the files behind the resolution are in
-- Files, Write and Change.
pub mod Contained
pub mod Relative
pub mod Files
pub mod Write
pub mod Change
pub mod Reads
pub mod Served
use are.Base.{
  ℕ, zero, suc, refl, ite, Bool, true, false, not, ◌||◌, List, [], ◌∷◌, Option, none, some, Str,
  ascii, is_empty, Message, lit, bytes, Result, ok, err, ◌>>=◌, ◌>>◌, ensure, map_err, ok_or, eqb,
  if◌then◌else◌, unwrap_or, ◌==◌, str_eq, contains, starts_with, join,
}
use mathlib.Core.List.{reverse}
use are.Core.Error.{◌<+>◌}
use are.Daemon.Os.{Os, IoError}
use are.Daemon.Paths.{
  Component, root_dir, cur_dir, parent_dir, normal, components, path_join, path_text, file_name_of,
  parent_of, file_name, parent, strip_components, path_starts_with,
}

pub data FsError : Type 0 where
  invalid_path : Message → FsError
  filesystem_escape : Message → FsError
  not_found : Message → FsError
  permission_denied : Message → FsError
  not_a_directory : Message → FsError
  is_a_directory : Message → FsError
  file_too_large : Message → ℕ → ℕ → FsError
  conflict : Message → FsError
  io : Message → FsError

pub record FilesystemConfig : Type 0 where
  pub allowed_roots : List Str
  pub max_file_bytes : ℕ

-- The loop of `with_max_file_bytes` over the roots.
unfoldable pub canonical_roots : Os → List Str → Result FsError (List Str)
canonical_roots os [] = ok []
canonical_roots os (root ∷ roots) = do
  c ←
      map_err (λ e. invalid_path (lit "failed to canonicalize root '" <+> bytes root <+> lit "'"))
        (os.canonicalize root)
  rest ← canonical_roots os roots
  ok (c ∷ rest)

unfoldable pub with_max_file_bytes : Os → List Str → ℕ → Result FsError FilesystemConfig
unfolding canonical_roots
with_max_file_bytes os roots max_file_bytes = do
  ensure (not (is_empty roots)) (invalid_path (lit "at least one allowed root must be configured"))
  canonical ← canonical_roots os roots
  ok (record { allowed_roots = canonical; max_file_bytes = max_file_bytes })

-- The second byte is `:`.
abbrev pub has_drive : Str → Bool
has_drive (a ∷ b ∷ s) = eqb b b':'
has_drive _ = false

unfoldable pub check_path_shape : Str → Result FsError (Unit {0})
check_path_shape path =
    if is_empty path
    then err (invalid_path (lit "path must not be empty"))
    else if contains 0 path
    then err (invalid_path (lit "path must not contain NUL"))
    else if starts_with (ascii "/") path || starts_with (ascii "\\") path
    then err (invalid_path (lit "absolute path rejected: " <+> bytes path))
    else if has_drive path
    then err (invalid_path (lit "absolute path rejected: " <+> bytes path))
    else ok tt

pub data MissingParent : Type 0 where
  absent : MissingParent
  escape : MissingParent
  error : MissingParent

-- The walk down the missing tail, in path order, at a depth that is not below zero.
unfoldable pub walk_tail : ℕ → List Str → MissingParent
walk_tail depth [] = absent
walk_tail depth (comp ∷ tail) =
    let up : MissingParent = elim depth [ zero ↦ escape | suc d ↦ walk_tail d tail ] in
    let same = walk_tail depth tail in
    let down = walk_tail (suc depth) tail in
    if comp == ascii ".." then up else if comp == ascii "." then same else down

-- The walk up from the leaf: the text of `current`, its components in reverse, and the missing
-- tail, pushed from the leaf on, so that its head is the component nearest to the root.
unfoldable pub walk_up : Os → Str → Str → List Component → List Str → MissingParent
unfolding walk_tail
walk_up os root current [] tail = elim (os.canonicalize current) [
  | ok canonical ↦ if path_starts_with canonical root then walk_tail 0 tail else escape
  | err (IoError.not_found m) ↦ escape
  | err _ ↦ error
]
walk_up os root current (c ∷ above) tail =
    let next : MissingParent = elim (file_name_of (c ∷ above)) [
      | none ↦ escape
      | some name ↦ walk_up os root (path_text (reverse above)) above (name ∷ tail)
    ] in
    elim (os.canonicalize current) [
      | ok canonical ↦ if path_starts_with canonical root then walk_tail 0 tail else escape
      | err (IoError.not_found m) ↦ next
      | err _ ↦ error
    ]

unfoldable pub classify_missing_parent : Os → Str → Str → MissingParent
unfolding walk_up
classify_missing_parent os root joined = walk_up os root joined (reverse (components joined)) []

abbrev pub escapes : FsError
escapes = filesystem_escape (lit "path escapes allowed boundary")

-- What a round of the loop over the roots does: it returns, or goes on to the next root.
pub data Round : Type 0 where
  returns : Result FsError Str → Round
  goes_on : Round

-- A leaf below a parent that exists.
unfoldable pub join_leaf : Str → Str → Option Str → Str → Round
join_leaf root path leaf canonical_parent =
    if path_starts_with canonical_parent root
    then elim leaf [
      | none ↦ returns (err (invalid_path (lit "no file name in path: " <+> bytes path)))
      | some name ↦
          let full_path = path_join canonical_parent name in
          if path_starts_with full_path root then returns (ok full_path) else returns (err escapes)
    ]
    else returns (err escapes)

-- The branch for a parent that is missing too.
unfoldable pub missing_parent : Os → Str → Str → Round
unfolding classify_missing_parent
missing_parent os root joined = elim (classify_missing_parent os root joined) [
  | absent ↦ goes_on
  | escape ↦ returns (err escapes)
  | error ↦ returns (err (io (lit "failed to resolve parent directory")))
]

-- The branch for a target that does not exist.
unfoldable pub missing_target : Os → Str → Str → Str → Round
unfolding join_leaf missing_parent
missing_target os root path joined = elim (parent joined) [
  | none ↦ returns (err (invalid_path (lit "no parent directory in path: " <+> bytes path)))
  | some above ↦ elim (os.canonicalize above) [
    | ok canonical_parent ↦ join_leaf root path (file_name joined) canonical_parent
    | err (IoError.not_found m) ↦ missing_parent os root joined
    | err _ ↦ returns (err (io (lit "failed to resolve parent directory")))
  ]
]

-- One round of the loop of `resolve`.
unfoldable pub resolve_under : Os → Str → Str → Round
unfolding missing_target
resolve_under os path root =
    let joined = path_join root path in
    elim (os.canonicalize joined) [
      | ok canonical ↦
          if path_starts_with canonical root then returns (ok canonical) else returns (err escapes)
      | err (IoError.not_found m) ↦ missing_target os root path joined
      | err _ ↦ returns (err (io (lit "failed to resolve path")))
    ]

-- The loop, with the flag `parent_missing_under_root`.
unfoldable pub resolve_roots : Os → Str → List Str → Bool → Result FsError Str
resolve_roots os path [] parent_missing =
    if parent_missing
    then err (FsError.not_found (bytes path <+> lit ": parent directory does not exist"))
    else err escapes
resolve_roots os path (root ∷ roots) parent_missing = elim (resolve_under os path root) [
  | returns r ↦ r
  | goes_on ↦ resolve_roots os path roots true
]

unfoldable pub resolve : Os → FilesystemConfig → Str → Result FsError Str
unfolding check_path_shape resolve_under resolve_roots
resolve os config path = do check_path_shape path; resolve_roots os path config.allowed_roots false

-- One round of the loop of `resolve_no_follow`, for the joined parent.
unfoldable pub no_follow_under : Os → Str → Str → Str → Round
no_follow_under os leaf root joined_parent = elim (os.canonicalize joined_parent) [
  | ok canonical_parent ↦
      if path_starts_with canonical_parent root
      then (let full_path = path_join canonical_parent leaf in
          if path_starts_with full_path root then returns (ok full_path) else returns (err escapes))
      else returns (err escapes)
  | err (IoError.not_found m) ↦ goes_on
  | err _ ↦ returns (err (io (lit "failed to resolve parent directory")))
]

-- The loop, with the flag `parent_missing_everywhere`.
unfoldable pub no_follow_roots : Os → Str → Str → Str → List Str → Bool → Result FsError Str
no_follow_roots os path leaf above [] parent_missing =
    if parent_missing
    then err (FsError.not_found (lit "parent does not exist: " <+> bytes path))
    else err escapes
no_follow_roots os path leaf above (root ∷ roots) parent_missing =
    elim (no_follow_under os leaf root (if is_empty above then root else path_join root above)) [
      | returns r ↦ r
      | goes_on ↦ no_follow_roots os path leaf above roots true
    ]

unfoldable pub resolve_no_follow : Os → FilesystemConfig → Str → Result FsError Str
unfolding check_path_shape no_follow_under no_follow_roots
resolve_no_follow os config path = do
  check_path_shape path
  leaf ← ok_or (file_name path) (invalid_path (lit "no file name in path: " <+> bytes path))
  ensure (not (leaf == ascii "." || leaf == ascii ".."))
      (invalid_path (lit "invalid file name in path: " <+> bytes path))
  no_follow_roots os path leaf (unwrap_or (parent path) []) config.allowed_roots false

-- The loop over the components of the relative path.
unfoldable pub normal_names : List Component → Option (List Str)
normal_names [] = some []
normal_names (normal c ∷ comps) = elim (normal_names comps) [
  | none ↦ none
  | some ps ↦ some (c ∷ ps)
]
normal_names (_ ∷ comps) = none

unfoldable pub relativize_roots : List Component → List Str → Option Str
unfolding normal_names
relativize_roots canonical [] = none
relativize_roots canonical (root ∷ roots) = elim (strip_components (components root) canonical) [
  | none ↦ relativize_roots canonical roots
  | some rel ↦ elim (normal_names rel) [ none ↦ none | some parts ↦ some (join b'/' parts) ]
]

unfoldable pub relativize : FilesystemConfig → Str → Option Str
unfolding relativize_roots
relativize config canonical = relativize_roots (components canonical) config.allowed_roots

-- The loop of `creation_rel` over the components.
unfoldable pub creation_parts : Str → List Component → Result FsError (List Str)
creation_parts path [] = ok []
creation_parts path (normal c ∷ comps) = creation_parts path comps >>= λ parts. ok (c ∷ parts)
creation_parts path (cur_dir ∷ comps) = creation_parts path comps
creation_parts path (_ ∷ comps) =
    err (invalid_path (lit "invalid component in directory path: " <+> bytes path))

unfoldable pub creation_rel : Str → Result FsError Str
unfolding check_path_shape creation_parts
creation_rel path = do
  check_path_shape path
  parts ← creation_parts path (components path)
  ensure (not (is_empty parts)) (invalid_path (lit "no directory name in path: " <+> bytes path))
  ok (join b'/' parts)
