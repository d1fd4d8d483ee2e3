-- ===== src/Daemon/Handler/Authorize.antt =====
-- crates/are-daemon/src/handler.rs: what an authorised filesystem request is.
use are.Base.{
  ◌≡◌, refl, sym, inl, inr, Bool, true, false, List, ◌++◌, map, Option, none, some, arith, Str, All,
  Any, All-map, Result, ok, err, >>=-eq-ok, ensure, map_err, ok_or, Option-cases, str_eq,
}
use are.Base.Dict.{get}
use are.Core.Grant.{Grant, FsGrantKind, write, grants_allow_fs}
use are.Core.Request.{validate_path, PathRequest, WriteFileRequest, RenameRequest}
use are.Daemon.Os.{Os}
use are.Core.Request.{validate_write_file, validate_rename}
use are.Core.Grant.Scopes.{HasPlainRoot, Permits, grants_allow_fs_iff}
use are.Daemon.Grants.{RawGrantsFile, GrantsTable, from_raw, grants_for, is_known}
use are.Daemon.Grants.Laws.{from_raw-IsLoaded}
use are.Daemon.Paths.{components, normal}
use are.Daemon.Fs.{FilesystemConfig, resolve, resolve_no_follow, relativize}
use are.Daemon.Fs.Contained.{IsCanonical, Canonicalizes}
use are.Daemon.Fs.Relative.{IsRelative, relativize-resolve, relativize-resolve_no_follow}
use are.Daemon.Handler.{
  DaemonState, Caller, effective_grants, deny_unknown_principal, check_fs_grant, require_fs,
  fs_rel_for_grant, fs_error_to_rpc, authorize_read, authorize_write_file, authorize_rename,
  authorize_delete_file,
}

ensure-true : {E : Type 0} (b : Bool) (e : E) → ensure b e ≡ ok tt → b ≡ true
ensure-true true e h = refl
ensure-true false e h = cc

map_err-ok : {E F A : Type 0} (f : E → F) (r : Result E A) {a : A} → map_err f r ≡ ok a → r ≡ ok a
map_err-ok f (ok a) h = ground arith
map_err-ok f (err e) h = cc

ok_or-some : {E A : Type 0} (o : Option A) (e : E) {a : A} → ok_or o e ≡ ok a → o ≡ some a
ok_or-some none e h = cc
ok_or-some (some a) e h = ground arith

-- Somebody whom the grants file names may use a path for a kind of operation.
abbrev pub MayUse : GrantsTable → Caller → FsGrantKind → Str → Type 0
MayUse table caller kind rel =
    (fingerprint : Str) × (caller ≡ some fingerprint)
    × ((grants : List Grant) × (grants_for table fingerprint ≡ some grants)
        × (grants_allow_fs grants kind rel ≡ true))

-- The path lies below an allowed root, and the grants of the caller have one of this kind whose
-- root is what leads there, or a directory above it.
abbrev pub Authorized : FilesystemConfig → GrantsTable → Caller → FsGrantKind → Str → Type 0
Authorized fs table caller kind canonical =
    (names : List Str) × Any (λ root. components canonical ≡ components root ++ map normal names)
      fs.allowed_roots
    × ((fingerprint : Str) × (caller ≡ some fingerprint)
        × ((grants : List Grant) × (grants_for table fingerprint ≡ some grants)
            × Any (Permits kind names) grants))

module _ (os : Os) (state : DaemonState) (caller : Caller) (fs : FilesystemConfig)
    (table : GrantsTable) (canonicalizes : Canonicalizes os)
    (roots : All IsCanonical fs.allowed_roots) (backend : state.fs ≡ some fs)
    (strict : state.grants ≡ some table) where
  check_fs_grant-MayUse :
      (kind : FsGrantKind) (rel : Str)
      → deny_unknown_principal state caller ≡ ok tt
      → check_fs_grant state caller kind rel ≡ ok tt
      → MayUse table caller kind rel
  unfolding deny_unknown_principal check_fs_grant effective_grants is_known grants_for
  check_fs_grant-MayUse kind rel known allowed = elim (Option-cases caller) [
    | inl anonymous ↦ absurd (cc (rw (strict, anonymous) at known))
    | inr (fp, is) ↦ elim (Option-cases (get fp table.principals)) [
      | inl stranger ↦ absurd (cc (rw (strict, is, stranger) at known))
      | inr (grants, found) ↦
          (fp, is, (grants, found, ensure-true _ _ (rw (strict, is, found) at allowed)))
    ]
  ]

  fs_rel_for_grant-follow :
      (path rel : Str)
      → fs_rel_for_grant os fs path true ≡ ok rel
      → (canonical : Str) × (resolve os fs path ≡ ok canonical)
        × IsRelative fs.allowed_roots canonical rel
  unfolding fs_rel_for_grant
  fs_rel_for_grant-follow path rel e =
      let (canonical, resolved, related) =
        >>=-eq-ok (map_err (λ x. fs_error_to_rpc x path) (resolve os fs path)) _ e in
      let reached = map_err-ok (λ x. fs_error_to_rpc x path) (resolve os fs path) resolved in
      let (r, relativized, inside) =
        relativize-resolve os fs path canonical canonicalizes roots reached in
      let same : r ≡ rel = ground (arith, ok_or-some (relativize fs canonical) _ related) in
      (canonical, reached, rw (sym same) inside)

  fs_rel_for_grant-no_follow :
      (path rel : Str)
      → fs_rel_for_grant os fs path false ≡ ok rel
      → (canonical : Str) × (resolve_no_follow os fs path ≡ ok canonical)
        × IsRelative fs.allowed_roots canonical rel
  unfolding fs_rel_for_grant
  fs_rel_for_grant-no_follow path rel e =
      let (canonical, resolved, related) =
        >>=-eq-ok (map_err (λ x. fs_error_to_rpc x path) (resolve_no_follow os fs path)) _ e in
      let reached =
        map_err-ok (λ x. fs_error_to_rpc x path) (resolve_no_follow os fs path) resolved in
      let (r, relativized, inside) =
        relativize-resolve_no_follow os fs path canonical canonicalizes roots reached in
      let same : r ≡ rel = ground (arith, ok_or-some (relativize fs canonical) _ related) in
      (canonical, reached, rw (sym same) inside)

  pub require_fs-same :
      (env : Str) (found : FilesystemConfig) → require_fs state env ≡ ok found → found ≡ fs
  unfolding require_fs
  require_fs-same env found e = ground arith

  module _ (raw : RawGrantsFile) (loaded : from_raw raw ≡ ok table) where
    MayUse-Authorized :
        (kind : FsGrantKind) (canonical rel : Str)
        → IsRelative fs.allowed_roots canonical rel
        → MayUse table caller kind rel
        → Authorized fs table caller kind canonical
    MayUse-Authorized kind canonical rel (names, same, plain, below)
          (fp, is, (grants, found, allowed)) =
        let roots_plain =
          All-map _ HasPlainRoot (λ g h. h.0) grants
            (from_raw-IsLoaded raw table fp grants loaded found).1 in
        (
          names,
          below,
          (
            fp,
            is,
            (
              grants,
              found,
              (grants_allow_fs_iff grants kind names roots_plain plain).0 (rw same at allowed),
            ),
          ),
        )

    -- In strict mode, with a grants file that loads, canonical roots, and a `canonicalize` that
    -- answers canonical paths: a read, a listing or a metadata request gets to the backend only for
    -- a caller whom the file names, on a path that resolves below an allowed root, where one of the
    -- caller's grants of that kind covers it.
    pub authorize_read-Authorized :
        (kind : FsGrantKind) (req : PathRequest)
        → authorize_read os state caller kind req ≡ ok tt
        → (canonical : Str) × (resolve os fs req.path ≡ ok canonical)
          × Authorized fs table caller kind canonical
    unfolding authorize_read
    authorize_read-Authorized kind req e =
        let (found, got, e1) = >>=-eq-ok (require_fs state req.environment_id) _ e in
        let (u, known, e2) = >>=-eq-ok (deny_unknown_principal state caller) _ e1 in
        let (rel, related, allowed) = >>=-eq-ok (fs_rel_for_grant os found req.path true) _ e2 in
        let same = require_fs-same req.environment_id found got in
        let (canonical, resolved, inside) =
          fs_rel_for_grant-follow req.path rel (rw same at related) in
        (
          canonical,
          resolved,
          MayUse-Authorized kind canonical rel inside
              (check_fs_grant-MayUse kind rel known allowed),
        )

    -- In strict mode, with a grants file that loads, canonical roots, and a `canonicalize` that
    -- answers canonical paths: a write gets to the backend only for a caller whom the file names,
    -- on a path that resolves below an allowed root, where one of the caller's grants to write
    -- covers it.
    pub authorize_write_file-Authorized :
        (req : WriteFileRequest)
        → authorize_write_file os state caller req ≡ ok tt
        → (canonical : Str) × (resolve os fs req.path ≡ ok canonical)
          × Authorized fs table caller write canonical
    unfolding authorize_write_file
    authorize_write_file-Authorized req e =
        let (v, valid, e0) = >>=-eq-ok (map_err _ (validate_write_file req)) _ e in
        let (found, got, e1) = >>=-eq-ok (require_fs state req.environment_id) _ e0 in
        let (u, known, e2) = >>=-eq-ok (deny_unknown_principal state caller) _ e1 in
        let (rel, related, allowed) = >>=-eq-ok (fs_rel_for_grant os found req.path true) _ e2 in
        let same = require_fs-same req.environment_id found got in
        let (canonical, resolved, inside) =
          fs_rel_for_grant-follow req.path rel (rw same at related) in
        (
          canonical,
          resolved,
          MayUse-Authorized write canonical rel inside
              (check_fs_grant-MayUse write rel known allowed),
        )

    -- The same of a deletion, which does not follow a last link.
    pub authorize_delete_file-Authorized :
        (req : PathRequest)
        → authorize_delete_file os state caller req ≡ ok tt
        → (canonical : Str) × (resolve_no_follow os fs req.path ≡ ok canonical)
          × Authorized fs table caller write canonical
    unfolding authorize_delete_file
    authorize_delete_file-Authorized req e =
        let (v, valid, e0) = >>=-eq-ok (map_err _ (validate_path req)) _ e in
        let (found, got, e1) = >>=-eq-ok (require_fs state req.environment_id) _ e0 in
        let (u, known, e2) = >>=-eq-ok (deny_unknown_principal state caller) _ e1 in
        let (rel, related, allowed) = >>=-eq-ok (fs_rel_for_grant os found req.path false) _ e2 in
        let same = require_fs-same req.environment_id found got in
        let (canonical, resolved, inside) =
          fs_rel_for_grant-no_follow req.path rel (rw same at related) in
        (
          canonical,
          resolved,
          MayUse-Authorized write canonical rel inside
              (check_fs_grant-MayUse write rel known allowed),
        )

    -- In strict mode, with a grants file that loads, canonical roots, and a `canonicalize` that
    -- answers canonical paths: a rename gets to the backend only for a caller whom the file names,
    -- and for both ends of it, resolved without following a last link, the path lies below an
    -- allowed root and one of the caller's grants to write covers it.
    pub authorize_rename-Authorized :
        (req : RenameRequest)
        → authorize_rename os state caller req ≡ ok tt
        → ((from : Str) × (resolve_no_follow os fs req.src ≡ ok from)
            × Authorized fs table caller write from)
          × ((to : Str) × (resolve_no_follow os fs req.dst ≡ ok to)
              × Authorized fs table caller write to)
    unfolding authorize_rename
    authorize_rename-Authorized req e =
        let (v, valid, e0) = >>=-eq-ok (map_err _ (validate_rename req)) _ e in
        let (found, got, e1) = >>=-eq-ok (require_fs state req.environment_id) _ e0 in
        let (u, known, e2) = >>=-eq-ok (deny_unknown_principal state caller) _ e1 in
        let (rel, related, e3) = >>=-eq-ok (fs_rel_for_grant os found req.src false) _ e2 in
        let (u', allowed, e4) = >>=-eq-ok (check_fs_grant state caller write rel) _ e3 in
        let (rel', related', allowed') = >>=-eq-ok (fs_rel_for_grant os found req.dst false) _ e4 in
        let same = require_fs-same req.environment_id found got in
        let (from, resolved, inside) =
          fs_rel_for_grant-no_follow req.src rel (rw same at related) in
        let (to, resolved', inside') =
          fs_rel_for_grant-no_follow req.dst rel' (rw same at related') in
        (
          (
            from,
            resolved,
            MayUse-Authorized write from rel inside (check_fs_grant-MayUse write rel known allowed),
          ),
          (
            to,
            resolved',
            MayUse-Authorized write to rel' inside'
                (check_fs_grant-MayUse write rel' known allowed'),
          ),
        )
