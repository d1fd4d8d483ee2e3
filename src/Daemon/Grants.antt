-- ===== src/Daemon/Grants.antt =====
-- crates/are-daemon/src/grants.rs: the grants table. Reading the file and parsing its JSON are
-- not modelled: the input is the parsed `RawGrantsFile`.
pub mod Laws
use are.Base.{
  refl, ite, Bool, not, ◌&&◌, List, [], ◌∷◌, ◌++◌, Option, Str, ascii, all, is_empty, length,
  Message, lit, bytes, Result, ok, err, ◌>>=◌, ◌>>◌, ensure, map_err, ok_or, eqb, if◌then◌else◌,
  str_eq, strip_prefix,
}
use are.Base.Dict.{Dict, get, insert, contains_key}
use are.Core.Error.{CoreError, ◌<+>◌, to_string}
use are.Core.Request.{is_hexdigit}
use are.Core.Grant.{
  Grant, filesystem_read, filesystem_write, filesystem_list, process_execute, process_inspect,
  process_terminate, normalize_grant_root, normalize_program_name,
}

pub record RawPrincipalGrants : Type 0 where
  pub filesystem_read : List Str
  pub filesystem_write : List Str
  pub filesystem_list : List Str
  pub process_execute : List Str
  pub process_inspect : Bool
  pub process_terminate : Bool

pub record RawGrantsFile : Type 0 where
  pub principals : List (Str × RawPrincipalGrants)

pub record GrantsTable : Type 0 where
  pub principals : Dict Str (List Grant)

abbrev malformed : Str → Message
malformed fp =
    lit "malformed principal fingerprint " <+> bytes fp <+> lit ": expected \"blake3:<64 hex>\""

unfoldable pub validate_fingerprint : Str → Result Message (Unit {0})
validate_fingerprint fp = do
  hex ← ok_or (strip_prefix (ascii "blake3:") fp) (malformed fp)
  if eqb (length hex) 64 && all is_hexdigit hex then ok tt else err (malformed fp)

abbrev bad_root : Str → Str → CoreError → Message
bad_root fingerprint scope e =
    lit "principal "
    <+> bytes fingerprint
    <+> lit ": bad "
    <+> bytes scope
    <+> lit " root: "
    <+> to_string e

-- One of the three loops over roots, for the constructor that it pushes.
unfoldable pub load_roots : Str → Str → (Str → Grant) → List Str → Result Message (List Grant)
load_roots fingerprint scope grant [] = ok []
load_roots fingerprint scope grant (root ∷ roots) = do
  normal ← map_err (bad_root fingerprint scope) (normalize_grant_root root)
  rest ← load_roots fingerprint scope grant roots
  ok (grant normal ∷ rest)

-- The loop that refuses an empty program entry.
unfoldable pub load_programs : Str → List Str → Result Message (List Str)
load_programs fingerprint [] = ok []
load_programs fingerprint (entry ∷ entries) = do
  ensure (not (is_empty (normalize_program_name entry)))
      (lit "principal " <+> bytes fingerprint <+> lit ": empty process_execute entry")
  rest ← load_programs fingerprint entries
  ok (entry ∷ rest)

abbrev pub execute_grant : List Str → List Grant
execute_grant [] = []
execute_grant (p ∷ ps) = process_execute (p ∷ ps) ∷ []

-- What the body of the loop pushes onto `normalized`, from its validated parts.
unfoldable pub normalized_grants :
    RawPrincipalGrants → List Grant → List Grant → List Grant → List Str → List Grant
normalized_grants grants reads writes lists programs =
    reads
    ++ (writes
        ++ (lists
            ++ (execute_grant programs
                ++ ((if grants.process_inspect then process_inspect ∷ [] else [])
                    ++ (if grants.process_terminate then process_terminate ∷ [] else [])))))

-- The body of the loop over the principals.
unfoldable pub load_principal : Str → RawPrincipalGrants → Result Message (List Grant)
unfolding validate_fingerprint load_roots load_programs normalized_grants
load_principal fp grants = do
  validate_fingerprint fp
  reads ← load_roots fp (ascii "filesystem_read") filesystem_read grants.filesystem_read
  writes ← load_roots fp (ascii "filesystem_write") filesystem_write grants.filesystem_write
  lists ← load_roots fp (ascii "filesystem_list") filesystem_list grants.filesystem_list
  programs ← load_programs fp grants.process_execute
  ok (normalized_grants grants reads writes lists programs)

unfoldable pub load_principals :
    List (Str × RawPrincipalGrants) → Dict Str (List Grant) → Result Message (Dict Str (List Grant))
load_principals [] table = ok table
load_principals ((fingerprint, grants) ∷ more) table = do
  normalized ← load_principal fingerprint grants
  load_principals more (insert fingerprint normalized table)

-- `parse_json`, from the parsed file on.
unfoldable pub from_raw : RawGrantsFile → Result Message GrantsTable
from_raw raw = do table ← load_principals raw.principals []; ok (record { principals = table })

unfoldable pub grants_for : GrantsTable → Str → Option (List Grant)
grants_for table fingerprint = get fingerprint table.principals

unfoldable pub is_known : GrantsTable → Str → Bool
is_known table fingerprint = contains_key fingerprint table.principals
