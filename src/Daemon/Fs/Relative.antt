-- ===== src/Daemon/Fs/Relative.antt =====
-- crates/are-daemon/src/fs.rs: a resolved path is relativized to plain components below a root.
use are.Base.{
  Ensures-ensure, ℕ, ◌≡◌, refl, sym, inl, inr, not, List, [], ◌∷◌, ◌++◌, map, none, some, arith,
  Str, is_empty, All, Any, Ensures, Ensures-ok, ok-Ensures, Ensures->>=, ok, map_err, Option-cases,
  str_eq,
}
use are.Core.Grant.Roots.{IsPlain, path}
use are.Daemon.Os.{Os}
use are.Daemon.Paths.{Component, normal, components, strip_components, path_starts_with}
use are.Daemon.Paths.Laws.{strip_components_iff}
use are.Daemon.Fs.{
  FilesystemConfig, resolve, resolve_no_follow, canonical_roots, with_max_file_bytes, normal_names,
  relativize_roots, relativize,
}
use are.Daemon.Fs.Contained.{
  IsCanonical, Canonicalizes, ContainedIn, resolve-Contained, resolve_no_follow-Contained,
}

-- What is left of plain components after a plain prefix.
IsPlain-rest :
    (ps rs : List Str) (rest : List Component)
    → map normal ps ≡ map normal rs ++ rest
    → All IsPlain ps
    → (qs : List Str) × (rest ≡ map normal qs) × All IsPlain qs
IsPlain-rest ps [] rest e h = (ps, sym e, h)
IsPlain-rest [] (r ∷ rs) rest e h = cc
IsPlain-rest (p ∷ ps) (r ∷ rs) rest e (h, hs) = IsPlain-rest ps rs rest (ground arith) hs

stripped :
    (p root : Str) (rest : List Component)
    → IsCanonical p
    → IsCanonical root
    → strip_components (components root) (components p) ≡ some rest
    → (qs : List Str) × (rest ≡ map normal qs) × All IsPlain qs
stripped p root rest (ps, ep, hp) (rs, er, hr) h =
    let e = (strip_components_iff (components root) (components p) rest).0 h in
    IsPlain-rest ps rs rest (ground arith) hp

normal_names_of : (qs : List Str) → normal_names (map normal qs) ≡ some qs
unfolding normal_names
normal_names_of [] = refl
normal_names_of (q ∷ qs) = rw (normal_names_of qs)

-- The relative path of `p` from some root: `qs`, component by component.
abbrev pub IsRelative : List Str → Str → Str → Type 0
IsRelative roots p rel =
    (qs : List Str) × (rel ≡ path qs)
    × All IsPlain qs
    × Any (λ root. components p ≡ components root ++ map normal qs) roots

relativize_roots-IsRelative :
    (roots : List Str) (p : Str)
    → All IsCanonical roots
    → IsCanonical p
    → ContainedIn roots p
    → (rel : Str) × (relativize_roots (components p) roots ≡ some rel) × IsRelative roots p rel
unfolding relativize_roots path_starts_with
relativize_roots-IsRelative [] p hs h c = absurd c
relativize_roots-IsRelative (root ∷ roots) p (hr, hs) h c =
    elim (Option-cases (strip_components (components root) (components p))) [
      | inl missed ↦
          let (rel, found, (qs, same, plain, below)) =
            relativize_roots-IsRelative roots p hs h (later c missed) in
          (rel, rw (missed, relativize_roots) found, (qs, same, plain, inr below))
      | inr (rest, found) ↦
          let (qs, named, plain) = stripped p root rest h hr found in
          let cut = (strip_components_iff (components root) (components p) rest).0 found in
          (
            path qs,
            rw (found, relativize_roots) (rw (named, normal_names_of qs)),
            (qs, refl, plain, inl (rw (← named) cut)),
          )
    ]
  where
    later :
        ContainedIn (root ∷ roots) p
        → strip_components (components root) (components p) ≡ none
        → ContainedIn roots p
    later (inl (k, starts)) missed = cc (rw missed at starts)
    later (inr m) missed = m

IsCanonical-of_ContainedIn : (roots : List Str) (p : Str) → ContainedIn roots p → IsCanonical p
IsCanonical-of_ContainedIn [] p c = absurd c
IsCanonical-of_ContainedIn (root ∷ roots) p (inl h) = h.0
IsCanonical-of_ContainedIn (root ∷ roots) p (inr m) = IsCanonical-of_ContainedIn roots p m

-- The grant check always has a path to look at.
relativize_of_ContainedIn :
    (config : FilesystemConfig) (p : Str)
    → All IsCanonical config.allowed_roots
    → ContainedIn config.allowed_roots p
    → (rel : Str) × (relativize config p ≡ some rel) × IsRelative config.allowed_roots p rel
unfolding relativize
relativize_of_ContainedIn config p hs c =
    relativize_roots-IsRelative config.allowed_roots p hs
      (IsCanonical-of_ContainedIn config.allowed_roots p c) c

-- With canonical roots, and `canonicalize` answering canonical paths, a path that `resolve` gives
-- is always relativized, to plain components that lead from an allowed root to it. So `None` in the
-- handler does not occur, and no `..` or `.` reaches the grant check.
pub relativize-resolve :
    (os : Os) (config : FilesystemConfig) (request p : Str)
    → Canonicalizes os
    → All IsCanonical config.allowed_roots
    → resolve os config request ≡ ok p
    → (rel : Str) × (relativize config p ≡ some rel) × IsRelative config.allowed_roots p rel
relativize-resolve os config request p canonicalizes hs e =
    relativize_of_ContainedIn config p hs
      (Ensures-ok _ _ (resolve-Contained os canonicalizes config request) e)

-- With canonical roots, and `canonicalize` answering canonical paths, a path that
-- `resolve_no_follow` gives is always relativized, to plain components that lead from an allowed
-- root to it.
pub relativize-resolve_no_follow :
    (os : Os) (config : FilesystemConfig) (request p : Str)
    → Canonicalizes os
    → All IsCanonical config.allowed_roots
    → resolve_no_follow os config request ≡ ok p
    → (rel : Str) × (relativize config p ≡ some rel) × IsRelative config.allowed_roots p rel
relativize-resolve_no_follow os config request p canonicalizes hs e =
    relativize_of_ContainedIn config p hs
      (Ensures-ok _ _ (resolve_no_follow-Contained os canonicalizes config request) e)

canonical_roots-IsCanonical :
    (os : Os) (roots : List Str)
    → Canonicalizes os
    → Ensures (All IsCanonical) (canonical_roots os roots)
unfolding canonical_roots
canonical_roots-IsCanonical os [] h = tt
canonical_roots-IsCanonical os (root ∷ roots) h =
    Ensures->>= _ IsCanonical (map_err _ (os.canonicalize root)) _
      (ok-Ensures _ _ (λ c e. h root c (ground arith)))
      λ c k.
        Ensures->>= _ (All IsCanonical) (canonical_roots os roots) _
          (canonical_roots-IsCanonical os roots h) λ cs ks. (k, ks)

-- A configuration that loads has canonical roots.
pub with_max_file_bytes-IsCanonical :
    (os : Os) (roots : List Str) (limit : ℕ) (config : FilesystemConfig)
    → Canonicalizes os
    → with_max_file_bytes os roots limit ≡ ok config
    → All IsCanonical config.allowed_roots
unfolding with_max_file_bytes
with_max_file_bytes-IsCanonical os roots limit config h e =
    Ensures-ok (λ (c : FilesystemConfig). All IsCanonical c.allowed_roots) _
      (Ensures-ensure _ (not (is_empty roots)) _ _ (
        Ensures->>= _ (All IsCanonical) (canonical_roots os roots) _
          (canonical_roots-IsCanonical os roots h) (λ cs k. k)))
      e
