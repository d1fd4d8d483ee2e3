-- ===== src/Daemon/Fs/Contained.antt =====
-- crates/are-daemon/src/fs.rs: every path that a resolution gives starts with an allowed root.
use are.Base.{
  Ensures-ensure, Ensures->>, ◌≡◌, refl, sym, ap, ◌∙◌, ◌≢◌, inl, inr, Bool, true, false, not, ◌||◌,
  List, [], ◌∷◌, ◌++◌, map, Option, none, some, arith, Str, ascii, All, Any, All-append, Ensures,
  ok-Ensures, Ensures->>=, lit, bytes, Result, ok, err, ok_or, if◌then◌else◌, Bool-cases, ◌==◌,
  str_eq,
}
use are.Core.Grant.Roots.{IsPlain, path}
use are.Core.Error.{◌<+>◌}
use are.Daemon.Os.{Os, IoError, not_found}
use are.Daemon.Paths.{root_dir, normal, components, path_join, path_starts_with, file_name, parent}
use are.Daemon.Paths.Laws.{components-path_join, components-nil, file_name-IsPlain}
use are.Daemon.Fs.{
  FsError, FilesystemConfig, Round, returns, goes_on, escapes, check_path_shape, join_leaf,
  missing_parent, missing_target, resolve_under, resolve_roots, resolve, no_follow_under,
  no_follow_roots, resolve_no_follow,
}

-- An absolute path of plain components, written without `.`, `..` or empty pieces.
abbrev pub IsCanonical : Str → Type 0
IsCanonical p = (ps : List Str) × (components p ≡ root_dir ∷ map normal ps) × All IsPlain ps

-- What `realpath` documents of its answers.
abbrev pub Canonicalizes : Os → Type 0
Canonicalizes os = (p c : Str) → os.canonicalize p ≡ ok c → IsCanonical c

map-normal-append : (ps qs : List Str) → map normal (ps ++ qs) ≡ map normal ps ++ map normal qs
map-normal-append [] qs = refl
map-normal-append (p ∷ ps) qs = ap (◌∷◌ (normal p)) (map-normal-append ps qs)

IsCanonical-ne-nil : (p : Str) → IsCanonical p → p ≢ []
IsCanonical-ne-nil p (ps, e, h) n = cc (sym components-nil ∙ ap components (sym n) ∙ e)

join-IsCanonical : (p name : Str) → IsCanonical p → IsPlain name → IsCanonical (path_join p name)
join-IsCanonical p name (ps, e, h) k =
    let joined = components-path_join p name (IsCanonical-ne-nil p (ps, e, h)) k in
    (
      ps ++ name ∷ [],
      rw (joined, e, map-normal-append ps (name ∷ [])),
      All-append IsPlain ps (name ∷ []) h (k, tt),
    )

-- A round that returns a path returns one that is canonical and starts with the root.
abbrev pub Contained : Str → Str → Type 0
Contained root p = IsCanonical p × (path_starts_with p root ≡ true)

abbrev RoundEnsures : (Str → Type 0) → Round → Type 0
RoundEnsures P (returns r) = Ensures P r
RoundEnsures P goes_on = Unit

tested :
    (root p : Str)
    → IsCanonical p
    → RoundEnsures
        (Contained root)
        (if path_starts_with p root then returns (ok p) else returns (err escapes))
tested root p h = elim (Bool-cases (path_starts_with p root)) [
  | inl within ↦ rw within (h, within)
  | inr outside ↦ rw outside tt
]

module _ (os : Os) (canonicalizes : Canonicalizes os) (path root : Str) where
  join_leaf-Contained :
      (leaf : Option Str) (canonical_parent : Str)
      → ((c : Str) → leaf ≡ some c → IsPlain c)
      → IsCanonical canonical_parent
      → RoundEnsures (Contained root) (join_leaf root path leaf canonical_parent)
  unfolding join_leaf
  join_leaf-Contained leaf above h k = elim (Bool-cases (path_starts_with above root)) [
    | inl within ↦ rw within (named leaf h)
    | inr outside ↦ rw outside tt
  ]
    where
      named :
          (l : Option Str)
          → ((c : Str) → l ≡ some c → IsPlain c)
          → RoundEnsures (Contained root) (elim l [
            | none ↦
                returns (err (FsError.invalid_path (lit "no file name in path: " <+> bytes path)))
            | some name ↦
                let full_path = path_join above name in
                if path_starts_with full_path root
                then returns (ok full_path)
                else returns (err escapes)
          ])
      named none f = tt
      named (some c) f = tested root (path_join above c) (join-IsCanonical above c k (f c refl))

  missing_parent-Contained :
      (joined : Str) → RoundEnsures (Contained root) (missing_parent os root joined)
  unfolding missing_parent
  missing_parent-Contained joined = ground arith

  below_parent :
      (joined above : Str) (r : Result IoError Str)
      → os.canonicalize above ≡ r
      → RoundEnsures (Contained root) (elim r [
        | ok canonical_parent ↦ join_leaf root path (file_name joined) canonical_parent
        | err (not_found m) ↦ missing_parent os root joined
        | err _ ↦ returns (err (FsError.io (lit "failed to resolve parent directory")))
      ])
  below_parent joined above (ok c) e =
      join_leaf-Contained (file_name joined) c (file_name-IsPlain joined) (canonicalizes above c e)
  below_parent joined above (err (not_found m)) e = missing_parent-Contained joined
  below_parent joined above (err x) e = tt

  missing_target-Contained :
      (joined : Str) → RoundEnsures (Contained root) (missing_target os root path joined)
  unfolding missing_target
  missing_target-Contained joined = go (parent joined)
    where
      go :
          (o : Option Str)
          → RoundEnsures (Contained root) (elim o [
            | none ↦
                returns
                  (err (FsError.invalid_path (lit "no parent directory in path: " <+> bytes path)))
            | some above ↦ elim (os.canonicalize above) [
              | ok canonical_parent ↦ join_leaf root path (file_name joined) canonical_parent
              | err (not_found m) ↦ missing_parent os root joined
              | err _ ↦ returns (err (FsError.io (lit "failed to resolve parent directory")))
            ]
          ])
      go none = tt
      go (some above) = below_parent joined above (os.canonicalize above) refl

  target :
      (joined : Str) (r : Result IoError Str)
      → os.canonicalize joined ≡ r
      → RoundEnsures (Contained root) (elim r [
        | ok canonical ↦
            if path_starts_with canonical root
            then returns (ok canonical)
            else returns (err escapes)
        | err (not_found m) ↦ missing_target os root path joined
        | err _ ↦ returns (err (FsError.io (lit "failed to resolve path")))
      ])
  target joined (ok c) e = tested root c (canonicalizes joined c e)
  target joined (err (not_found m)) e = missing_target-Contained joined
  target joined (err x) e = tt

  resolve_under-Contained : RoundEnsures (Contained root) (resolve_under os path root)
  unfolding resolve_under
  resolve_under-Contained =
      target (path_join root path) (os.canonicalize (path_join root path)) refl

  no_follow-Contained :
      (leaf joined_parent : Str)
      → IsPlain leaf
      → RoundEnsures (Contained root) (no_follow_under os leaf root joined_parent)
  unfolding no_follow_under
  no_follow-Contained leaf joined k = go (os.canonicalize joined) refl
    where
      leaf_below :
          (c : Str)
          → IsCanonical c
          → RoundEnsures (Contained root) (
              if path_starts_with c root
              then (let full_path = path_join c leaf in
                  if path_starts_with full_path root
                  then returns (ok full_path)
                  else returns (err escapes))
              else returns (err escapes))
      leaf_below c h = elim (Bool-cases (path_starts_with c root)) [
        | inl within ↦ rw within (tested root (path_join c leaf) (join-IsCanonical c leaf h k))
        | inr outside ↦ rw outside tt
      ]

      go :
          (r : Result IoError Str)
          → os.canonicalize joined ≡ r
          → RoundEnsures (Contained root) (elim r [
            | ok c ↦
                if path_starts_with c root
                then (let full_path = path_join c leaf in
                    if path_starts_with full_path root
                    then returns (ok full_path)
                    else returns (err escapes))
                else returns (err escapes)
            | err (not_found m) ↦ goes_on
            | err _ ↦ returns (err (FsError.io (lit "failed to resolve parent directory")))
          ])
      go (ok c) e = leaf_below c (canonicalizes joined c e)
      go (err (not_found m)) e = tt
      go (err x) e = tt

-- Somewhere among the roots.
abbrev pub ContainedIn : List Str → Str → Type 0
ContainedIn roots p = Any (λ root. Contained root p) roots

round-Contained :
    (root : Str) (roots : List Str) (round : Round) (rest : Result FsError Str)
    → RoundEnsures (Contained root) round
    → Ensures (ContainedIn roots) rest
    → Ensures (ContainedIn (root ∷ roots)) (elim round [ returns r ↦ r | goes_on ↦ rest ])
round-Contained root roots (returns (ok p)) rest h k = inl h
round-Contained root roots (returns (err e)) rest h k = tt
round-Contained root roots goes_on (ok p) h k = inr k
round-Contained root roots goes_on (err e) h k = tt

module _ (os : Os) (canonicalizes : Canonicalizes os) where
  resolve_roots-Contained :
      (path : Str) (roots : List Str) (flag : Bool)
      → Ensures (ContainedIn roots) (resolve_roots os path roots flag)
  unfolding resolve_roots
  resolve_roots-Contained path [] true = tt
  resolve_roots-Contained path [] false = tt
  resolve_roots-Contained path (root ∷ roots) flag =
      round-Contained root roots (resolve_under os path root) _
        (resolve_under-Contained os canonicalizes path root)
        (resolve_roots-Contained path roots true)

  no_follow_roots-Contained :
      (path leaf above : Str) (roots : List Str) (flag : Bool)
      → IsPlain leaf
      → Ensures (ContainedIn roots) (no_follow_roots os path leaf above roots flag)
  unfolding no_follow_roots
  no_follow_roots-Contained path leaf above [] true k = tt
  no_follow_roots-Contained path leaf above [] false k = tt
  no_follow_roots-Contained path leaf above (root ∷ roots) flag k =
      round-Contained root roots _ _ (no_follow-Contained os canonicalizes path root leaf _ k)
        (no_follow_roots-Contained path leaf above roots true k)

  pub resolve-Contained :
      (config : FilesystemConfig) (path : Str)
      → Ensures (ContainedIn config.allowed_roots) (resolve os config path)
  unfolding resolve
  resolve-Contained config path =
      Ensures->> _ (check_path_shape path) _
        (resolve_roots-Contained path config.allowed_roots false)

  pub resolve_no_follow-Contained :
      (config : FilesystemConfig) (path : Str)
      → Ensures (ContainedIn config.allowed_roots) (resolve_no_follow os config path)
  unfolding resolve_no_follow
  resolve_no_follow-Contained config path = Ensures->> _ (check_path_shape path) _ (
      Ensures->>= _ IsPlain (ok_or (file_name path) _) _
        (ok-Ensures _ _ (λ leaf e. file_name-IsPlain path leaf (ground arith)))
        (λ leaf k.
          Ensures-ensure (ContainedIn config.allowed_roots)
            (not (leaf == ascii "." || leaf == ascii "..")) _ _
            (no_follow_roots-Contained path leaf _ config.allowed_roots false k)))
