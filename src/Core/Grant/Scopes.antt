-- ===== src/Core/Grant/Scopes.antt =====
-- crates/are-core/src/grant.rs: what a list of grants allows.
use are.Base.{
  ◌≡◌, ap, ◌≢◌, ◌↔◌, inl, inr, true, List, [], ◌∷◌, arith, Str, any, All, Any, Bool-cases, ◌==◌,
  str_eq,
}
use are.Core.Grant.{
  Grant, filesystem_read, filesystem_write, filesystem_list, process_execute, FsGrantKind, read,
  write, FsGrantKind.list, grant_covers, grants_allow_fs, normalize_program_name, grant_runs,
  grants_allow_exec,
}
use are.Core.Grant.Roots.{IsPlain, path, Covers, root_covers_iff}

-- The grant that gives one filesystem scope under a root.
abbrev pub fs_grant : FsGrantKind → Str → Grant
fs_grant read root = filesystem_read root
fs_grant write root = filesystem_write root
fs_grant list root = filesystem_list root

-- Every filesystem root among the grants is a path of plain components.
abbrev pub HasPlainRoot : Grant → Type 0
HasPlainRoot (filesystem_read root) = (ps : List Str) × (root ≡ path ps) × All IsPlain ps
HasPlainRoot (filesystem_write root) = (ps : List Str) × (root ≡ path ps) × All IsPlain ps
HasPlainRoot (filesystem_list root) = (ps : List Str) × (root ≡ path ps) × All IsPlain ps
HasPlainRoot _ = Unit

-- The grant has this kind, and its root is the path or a directory above it.
abbrev pub Permits : FsGrantKind → List Str → Grant → Type 0
Permits kind qs g = (ps : List Str) × (g ≡ fs_grant kind (path ps)) × All IsPlain ps × Covers ps qs

grant_covers_sound :
    (kind : FsGrantKind) (qs : List Str) (g : Grant)
    → All IsPlain qs
    → HasPlainRoot g
    → grant_covers kind (path qs) g ≡ true
    → Permits kind qs g
grant_covers_sound read qs (filesystem_read root) k (ps, e, h) c =
    (ps, ap filesystem_read e, h, (root_covers_iff ps qs h k).0 (rw e at c))
grant_covers_sound write qs (filesystem_write root) k (ps, e, h) c =
    (ps, ap filesystem_write e, h, (root_covers_iff ps qs h k).0 (rw e at c))
grant_covers_sound list qs (filesystem_list root) k (ps, e, h) c =
    (ps, ap filesystem_list e, h, (root_covers_iff ps qs h k).0 (rw e at c))
grant_covers_sound kind qs g k h c = cc

grant_covers_complete :
    (kind : FsGrantKind) (qs : List Str) (g : Grant)
    → All IsPlain qs
    → Permits kind qs g
    → grant_covers kind (path qs) g ≡ true
grant_covers_complete read qs g k (ps, e, h, c) = rw e ((root_covers_iff ps qs h k).1 c)
grant_covers_complete write qs g k (ps, e, h, c) = rw e ((root_covers_iff ps qs h k).1 c)
grant_covers_complete list qs g k (ps, e, h, c) = rw e ((root_covers_iff ps qs h k).1 c)

-- With roots in normal form, a filesystem operation on a path of plain components is allowed
-- exactly when some grant of its kind has a root that is the path or a directory above it. So a
-- grant of one kind never allows another.
pub grants_allow_fs_iff :
    (grants : List Grant) (kind : FsGrantKind) (qs : List Str)
    → All HasPlainRoot grants
    → All IsPlain qs
    → (grants_allow_fs grants kind (path qs) ≡ true) ↔ Any (Permits kind qs) grants
unfolding grants_allow_fs
grants_allow_fs_iff [] kind qs h k = (λ e. cc, λ a. absurd a)
grants_allow_fs_iff (g ∷ grants) kind qs (hg, h) k =
    let (to, from) = grants_allow_fs_iff grants kind qs h k in
    (
      λ e. elim (Bool-cases (grant_covers kind (path qs) g)) [
        | inl here ↦ inl (grant_covers_sound kind qs g k hg here)
        | inr away ↦ inr (to (ground arith))
      ],
      elim [
        | inl here ↦ rw (grant_covers_complete kind qs g k here)
        | inr later ↦ ground (arith, from later)
      ],
    )

-- The grant lists a program whose normalized name is that of the request.
abbrev pub Runs : Str → Grant → Type 0
Runs program (process_execute programs) =
    Any (λ entry. normalize_program_name entry ≡ normalize_program_name program) programs
Runs program _ = ⊥

entry_iff :
    (want : Str) (programs : List Str)
    → (any (λ entry. normalize_program_name entry == want) programs ≡ true)
      ↔ Any (λ entry. normalize_program_name entry ≡ want) programs
entry_iff want [] = (λ e. cc, λ a. absurd a)
entry_iff want (p ∷ programs) = ground (arith, entry_iff want programs)

grant_runs_iff :
    (program : Str) (g : Grant)
    → (grant_runs (normalize_program_name program) g ≡ true) ↔ Runs program g
grant_runs_iff program (process_execute programs) = entry_iff _ programs
grant_runs_iff program g = (λ e. cc, λ a. absurd a)

any-Runs_iff :
    (program : Str) (grants : List Grant)
    → (any (grant_runs (normalize_program_name program)) grants ≡ true) ↔ Any (Runs program) grants
any-Runs_iff program [] = (λ e. cc, λ a. absurd a)
any-Runs_iff program (g ∷ grants) =
    ground (arith, grant_runs_iff program g, any-Runs_iff program grants)

-- A program may run exactly when its normalized name is not empty and some execute grant lists a
-- program with the same normalized name.
pub grants_allow_exec_iff :
    (grants : List Grant) (program : Str)
    → (grants_allow_exec grants program ≡ true)
      ↔ ((normalize_program_name program ≢ []) × Any (Runs program) grants)
unfolding grants_allow_exec
grants_allow_exec_iff grants program = ground (arith, any-Runs_iff program grants)
