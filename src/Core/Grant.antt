-- ===== src/Core/Grant.antt =====
-- crates/are-core/src/grant.rs: scoped permissions, the normal form of roots and program names,
-- and what a list of grants allows.
pub mod Roots
pub mod Programs
pub mod Scopes
use are.Base.{
  ℕ, ◌+◌, ◌-◌, Bool, true, false, ◌&&◌, ◌||◌, List, [], ◌∷◌, ◌++◌, map, Option, none, some, Str,
  ascii, any, is_empty, length, Message, lit, bytes, Result, ok, err, ◌>>=◌, eqb, leb, ltb,
  if◌then◌else◌, str_eq, ◌==◌, strip_prefix, strip_suffix, starts_with, split, last_piece, join,
  unwrap_or,
}
use are.Core.Error.{CoreError, invalid_grant, ◌<+>◌}

pub data Grant : Type 0 where
  filesystem_read : Str → Grant
  filesystem_write : Str → Grant
  filesystem_list : Str → Grant
  process_execute : List Str → Grant
  process_inspect : Grant
  process_terminate : Grant

pub data FsGrantKind : Type 0 where
  read write list : FsGrantKind

-- `raw.replace('\\', "/")`.
unfoldable pub slashed : Str → Str
slashed [] = []
slashed (c ∷ s) = (if eqb c b'\\' then b'/' else c) ∷ slashed s

abbrev pub is_slash : ℕ → Bool
is_slash c = eqb c b'/'

-- The loop over the components, which gives `parts`, or fails at the first `..`.
unfoldable pub normal_parts : Str → List Str → Result CoreError (List Str)
normal_parts raw [] = ok []
normal_parts raw (comp ∷ rest) =
    let parts = normal_parts raw rest in
    if comp == [] || comp == ascii "."
    then parts
    else if comp == ascii ".."
    then err (invalid_grant (lit "grant root climbs above its scope: " <+> bytes raw))
    else parts >>= λ ps. ok (comp ∷ ps)

unfoldable pub normalize_grant_root : Str → Result CoreError Str
unfolding slashed normal_parts
normalize_grant_root raw =
    normal_parts raw (split is_slash (slashed raw)) >>= λ parts. ok (join b'/' parts)

unfoldable pub root_covers : Str → Str → Bool
root_covers root rel =
    if is_empty root
    then true
    else if rel == root
    then true
    else elim (strip_prefix root rel) [ none ↦ false | some rest ↦ starts_with (ascii "/") rest ]

-- `/` or `\`.
abbrev pub is_separator : ℕ → Bool
is_separator c = eqb c b'/' || eqb c b'\\'

abbrev pub ascii_lower : ℕ → ℕ
ascii_lower c = if leb b'A' c && leb c b'Z' then c + 32 else c

unfoldable pub program_basename : Str → Str
program_basename raw = unwrap_or (last_piece (split is_separator raw)) raw

unfoldable pub normalize_program_name : Str → Str
unfolding program_basename
normalize_program_name raw =
    let lower = map ascii_lower (program_basename raw) in
    unwrap_or (strip_suffix (ascii ".exe") lower) lower

abbrev pub grant_covers : FsGrantKind → Str → Grant → Bool
grant_covers read rel (filesystem_read root) = root_covers root rel
grant_covers write rel (filesystem_write root) = root_covers root rel
grant_covers list rel (filesystem_list root) = root_covers root rel
grant_covers _ rel _ = false

unfoldable pub grants_allow_fs : List Grant → FsGrantKind → Str → Bool
grants_allow_fs grants kind rel_path = any (grant_covers kind rel_path) grants

-- One grant of the loop in `grants_allow_exec`, for the normalized name that is wanted.
abbrev pub grant_runs : Str → Grant → Bool
grant_runs want (process_execute programs) =
    any (λ entry. normalize_program_name entry == want) programs
grant_runs want _ = false

unfoldable pub grants_allow_exec : List Grant → Str → Bool
grants_allow_exec grants program =
    let want = normalize_program_name program in
    if is_empty want then false else any (grant_runs want) grants

abbrev pub is_inspect : Grant → Bool
is_inspect process_inspect = true
is_inspect _ = false

unfoldable pub grants_allow_inspect : List Grant → Bool
grants_allow_inspect grants = any is_inspect grants

abbrev pub is_terminate : Grant → Bool
is_terminate process_terminate = true
is_terminate _ = false

unfoldable pub grants_allow_terminate : List Grant → Bool
grants_allow_terminate grants = any is_terminate grants
