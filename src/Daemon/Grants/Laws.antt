-- ===== src/Daemon/Grants/Laws.antt =====
-- crates/are-daemon/src/grants.rs: what a table that loads holds.
use are.Base.{
  Ensures, Ensures-ok, ok-Ensures, Ensures->>=, ◌≡◌, ◌≢◌, inl, inr, Bool, true, false, List, [],
  ◌∷◌, ◌++◌, some, arith, Str, ascii, is_empty, length, All, all_iff, All-append, ok, >>=-eq-ok,
  map_err, ok_or, if◌then◌else◌, Bool-cases, str_eq, strip_prefix, strip_prefix_iff,
}
use mathlib.Core.Path.{subst}
use are.Base.Dict.{Dict, get, insert, get-insert}
use are.Core.Grant.{
  Grant, filesystem_read, filesystem_write, filesystem_list, process_execute, process_inspect,
  process_terminate, normalize_grant_root, normalize_program_name,
}
use are.Core.Grant.Roots.{IsPlain, path, normalize_grant_root-IsPlain}
use are.Core.Grant.Scopes.{HasPlainRoot}
use are.Core.Request.{is_hexdigit}
use are.Daemon.Grants.{
  RawPrincipalGrants, RawGrantsFile, GrantsTable, validate_fingerprint, load_roots, load_programs,
  execute_grant, normalized_grants, load_principal, load_principals, from_raw, grants_for,
}

-- `blake3:` and 64 hex digits.
abbrev pub IsFingerprint : Str → Type 0
IsFingerprint fp =
    (hex : Str) × (fp ≡ ascii "blake3:" ++ hex)
    × (length hex ≡ 64)
    × All (λ b. is_hexdigit b ≡ true) hex

-- Programs that an execute grant lists have a name.
abbrev pub HasNames : Grant → Type 0
HasNames (process_execute programs) = All (λ p. normalize_program_name p ≢ []) programs
HasNames _ = Unit

abbrev pub IsLoaded : Grant → Type 0
IsLoaded g = HasPlainRoot g × HasNames g

validate_fingerprint_sound : (fp : Str) → validate_fingerprint fp ≡ ok tt → IsFingerprint fp
unfolding validate_fingerprint
validate_fingerprint_sound fp e =
    let (hex, stripped, e1) = >>=-eq-ok (ok_or (strip_prefix (ascii "blake3:") fp) _) _ e in
    let found : strip_prefix (ascii "blake3:") fp ≡ some hex = ground arith in
    (
      hex,
      (strip_prefix_iff (ascii "blake3:") fp hex).0 found,
      ground arith,
      (all_iff is_hexdigit hex).0 (ground arith),
    )

load_roots-IsLoaded :
    (fp scope : Str) (grant : Str → Grant) (roots : List Str) (gs : List Grant)
    → ((root : Str) → ((ps : List Str) × (root ≡ path ps) × All IsPlain ps) → IsLoaded (grant root))
    → load_roots fp scope grant roots ≡ ok gs
    → All IsLoaded gs
unfolding load_roots
load_roots-IsLoaded fp scope grant [] gs h e = let same : gs ≡ [] = ground arith in rw same tt
load_roots-IsLoaded fp scope grant (root ∷ roots) gs h e =
    let (normal, n, e1) = >>=-eq-ok (map_err _ (normalize_grant_root root)) _ e in
    let (rest, r, e2) = >>=-eq-ok (load_roots fp scope grant roots) _ e1 in
    let same : gs ≡ grant normal ∷ rest = ground arith in
    rw same (
      h normal (normalize_grant_root-IsPlain root normal (ground arith)),
      load_roots-IsLoaded fp scope grant roots rest h r,
    )

load_programs-HasNames :
    (fp : Str) (entries ps : List Str)
    → load_programs fp entries ≡ ok ps
    → All (λ p. normalize_program_name p ≢ []) ps
unfolding load_programs
load_programs-HasNames fp [] ps e = let same : ps ≡ [] = ground arith in rw same tt
load_programs-HasNames fp (entry ∷ entries) ps e =
    elim (Bool-cases (is_empty (normalize_program_name entry))) [
      | inl empty ↦ absurd (cc (rw (empty, load_programs) at e))
      | inr named ↦
          let (rest, r, e2) = >>=-eq-ok (load_programs fp entries) _ (rw named at e) in
          let same : ps ≡ entry ∷ rest = ground arith in
          rw same (ground arith, load_programs-HasNames fp entries rest r)
    ]

normalized_grants-IsLoaded :
    (raw : RawPrincipalGrants) (reads writes lists : List Grant) (programs : List Str)
    → All IsLoaded reads
    → All IsLoaded writes
    → All IsLoaded lists
    → All (λ p. normalize_program_name p ≢ []) programs
    → All IsLoaded (normalized_grants raw reads writes lists programs)
unfolding normalized_grants
normalized_grants-IsLoaded raw reads writes lists programs r w l p = All-append IsLoaded reads _ r (
    All-append IsLoaded writes _ w (
      All-append IsLoaded lists _ l (
        All-append IsLoaded (execute_grant programs) _ (named programs p) (
          All-append IsLoaded (if raw.process_inspect then process_inspect ∷ [] else []) _
            (flag process_inspect (tt, tt) raw.process_inspect)
            (flag process_terminate (tt, tt) raw.process_terminate)))))
  where
    named :
        (ps : List Str)
        → All (λ q. normalize_program_name q ≢ []) ps
        → All IsLoaded (execute_grant ps)
    named [] h = tt
    named (q ∷ ps) h = ((tt, h), tt)

    flag : (g : Grant) → IsLoaded g → (b : Bool) → All IsLoaded (if b then g ∷ [] else [])
    flag g h true = (h, tt)
    flag g h false = tt

module _ (fp : Str) (raw : RawPrincipalGrants) where
  roots :
      (scope : Str) (grant : Str → Grant) (rs : List Str)
      → ((root : Str)
          → ((ps : List Str) × (root ≡ path ps) × All IsPlain ps)
          → IsLoaded (grant root))
      → Ensures (All IsLoaded) (load_roots fp scope grant rs)
  roots scope grant rs h =
      ok-Ensures (All IsLoaded) _ (λ gs. load_roots-IsLoaded fp scope grant rs gs h)

  load_principal_sound : Ensures (λ gs. IsFingerprint fp × All IsLoaded gs) (load_principal fp raw)
  unfolding load_principal
  load_principal_sound =
      Ensures->>= _ (λ _. IsFingerprint fp) (validate_fingerprint fp) _
        (ok-Ensures _ _ (λ _. validate_fingerprint_sound fp))
        λ _ valid.
          Ensures->>= _ (All IsLoaded) (load_roots fp _ filesystem_read raw.filesystem_read) _
            (roots _ filesystem_read _ (λ root h. (h, tt)))
            λ reads r.
              Ensures->>= _ (All IsLoaded) (load_roots fp _ filesystem_write raw.filesystem_write) _
                (roots _ filesystem_write _ (λ root h. (h, tt)))
                λ writes w.
                  Ensures->>= _ (All IsLoaded) (load_roots fp _ filesystem_list raw.filesystem_list)
                    _ (roots _ filesystem_list _ (λ root h. (h, tt)))
                    λ lists l.
                      Ensures->>= _ (All (λ p. normalize_program_name p ≢ []))
                        (load_programs fp raw.process_execute) _
                        (ok-Ensures _ _ (load_programs-HasNames fp raw.process_execute))
                        λ programs p. (
                          valid,
                          normalized_grants-IsLoaded raw reads writes lists programs r w l p,
                        )

-- A table's entries: a fingerprint, and grants in normal form.
abbrev Holds : Dict Str (List Grant) → Type 0
Holds table =
    (fp : Str) (gs : List Grant) → get fp table ≡ some gs → IsFingerprint fp × All IsLoaded gs

insert-Holds :
    (table : Dict Str (List Grant)) (fp : Str) (gs : List Grant)
    → Holds table
    → IsFingerprint fp
    → All IsLoaded gs
    → Holds (insert fp gs table)
insert-Holds table fp gs h valid loaded j js e = elim (str_eq.dec fp j) [
  | yes same ↦
      let value : gs ≡ js = ground (arith, get-insert fp j gs table) in
      (subst IsFingerprint same valid, subst (All IsLoaded) value loaded)
  | no other ↦ h j js (ground (arith, get-insert fp j gs table))
]

load_principals-Holds :
    (raws : List (Str × RawPrincipalGrants)) (table : Dict Str (List Grant))
    → Holds table
    → Ensures Holds (load_principals raws table)
unfolding load_principals
load_principals-Holds [] table h = h
load_principals-Holds ((fp, raw) ∷ more) table h =
    Ensures->>= Holds (λ gs. IsFingerprint fp × All IsLoaded gs) (load_principal fp raw) _
      (load_principal_sound fp raw)
      (λ gs (valid, loaded). load_principals-Holds more _ (insert-Holds table fp gs h valid loaded))

-- In a table that loads, every principal is `blake3:` and 64 hex digits, every root of its grants
-- is a path of plain components, and every program that they list has a name.
pub from_raw-IsLoaded :
    (raw : RawGrantsFile) (table : GrantsTable) (fp : Str) (gs : List Grant)
    → from_raw raw ≡ ok table
    → grants_for table fp ≡ some gs
    → IsFingerprint fp × All IsLoaded gs
unfolding from_raw grants_for get
from_raw-IsLoaded raw table fp gs e g =
    let (t, loaded, same) = >>=-eq-ok (load_principals raw.principals []) _ e in
    let principals : table.principals ≡ t = ground arith in
    Ensures-ok Holds _ (load_principals-Holds raw.principals [] (λ j js n. cc)) loaded fp gs
      (rw (← principals) g)
