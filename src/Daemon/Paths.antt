-- ===== src/Daemon/Paths.antt =====
-- `std::path` on Unix, as crates/are-daemon/src/fs.rs uses it: a path is its text, and is compared
-- by components.
pub mod Laws
use are.Base.{
  ◌≡◌, refl, ◌↔◌, ite, Bool, true, false, ◌||◌, List, [], ◌∷◌, ◌++◌, map, Option, none, some, arith,
  Str, ascii, is_empty, ◌>>=◌, ◌>>◌, if◌then◌else◌, is_some, ◌==◌, str_eq, str_beq, str_beq_iff,
  strip_suffix, starts_with, split, join,
}
use mathlib.Core.List.{reverse}
use mathlib.Core.Logic.{dite}
use are.Core.Grant.{is_slash}

pub data Component : Type 0 where
  root_dir cur_dir parent_dir : Component
  normal : Str → Component

abbrev pub component_beq : Component → Component → Bool
component_beq root_dir root_dir = true
component_beq cur_dir cur_dir = true
component_beq parent_dir parent_dir = true
component_beq (normal a) (normal b) = str_beq a b
component_beq _ _ = false

-- A piece after the first: `.` and the empty one between two slashes do not count.
abbrev pub component : Str → List Component
component piece =
    if piece == [] || piece == ascii "."
    then []
    else if piece == ascii ".."
    then parent_dir ∷ []
    else normal piece ∷ []

abbrev pub components_of : List Str → List Component
components_of [] = []
components_of (piece ∷ pieces) = component piece ++ components_of pieces

-- The first piece of an absolute path is empty; a leading `.` counts.
abbrev pub first_component : Bool → Str → List Component
first_component absolute piece =
    if absolute then root_dir ∷ [] else if piece == ascii "." then cur_dir ∷ [] else component piece

abbrev pub components_from : Bool → List Str → List Component
components_from absolute [] = []
components_from absolute (piece ∷ pieces) = first_component absolute piece ++ components_of pieces

-- `Path::components`.
unfoldable pub components : Str → List Component
components p = components_from (starts_with (ascii "/") p) (split is_slash p)

-- `Path::join`.
unfoldable pub path_join : Str → Str → Str
path_join p rel =
    if starts_with (ascii "/") rel
    then rel
    else if is_empty p || is_some (strip_suffix (ascii "/") p)
    then p ++ rel
    else p ++ (b'/' ∷ rel)

-- The text of a component, and of a path of them.
abbrev pub component_text : Component → Str
component_text root_dir = []
component_text cur_dir = ascii "."
component_text parent_dir = ascii ".."
component_text (normal c) = c

unfoldable pub path_text : List Component → Str
path_text (root_dir ∷ []) = ascii "/"
path_text comps = join b'/' (map component_text comps)

-- `Path::file_name`, from the components in reverse.
abbrev pub file_name_of : List Component → Option Str
file_name_of (normal c ∷ rest) = some c
file_name_of _ = none

unfoldable pub file_name : Str → Option Str
file_name p = file_name_of (reverse (components p))

-- `Path::parent`, from the components in reverse.
abbrev pub parent_of : List Component → Option (List Component)
parent_of [] = none
parent_of (root_dir ∷ rest) = none
parent_of (c ∷ rest) = some rest

unfoldable pub parent : Str → Option Str
parent p = elim (parent_of (reverse (components p))) [
  | none ↦ none
  | some rest ↦ some (path_text (reverse rest))
]

-- What is left of a list of components after a prefix of it.
abbrev pub strip_components : List Component → List Component → Option (List Component)
strip_components [] comps = some comps
strip_components (p ∷ ps) [] = none
strip_components (p ∷ ps) (c ∷ comps) =
    if component_beq p c then strip_components ps comps else none

-- `Path::starts_with`.
unfoldable pub path_starts_with : Str → Str → Bool
path_starts_with p base = is_some (strip_components (components base) (components p))

pub component_beq_iff : (a b : Component) → (component_beq a b ≡ true) ↔ (a ≡ b)
component_beq_iff (normal a) (normal b) = ground (arith, str_beq_iff a b)
component_beq_iff a b = ground arith
