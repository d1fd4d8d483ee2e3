-- ===== src/Daemon/Paths/Laws.antt =====
-- `std::path` on Unix: components of joined paths, of file names and of prefixes.
use are.Base.{
  All-if, strip_suffix_sound, ◌≡◌, refl, sym, ap, ◌∙◌, ◌≢◌, ◌↔◌, inl, inr, Bool, true, false, ◌||◌,
  List, [], ◌∷◌, ◌++◌, some, arith, Str, ascii, is_empty, All, All-append, Bool-cases, Option-cases,
  ◌==◌, str_eq, split-ne-nil, strip_suffix, starts_with, split, Free, split-append_sep,
  split_of_Free, split-Free,
}
use mathlib.Core.Path.{subst}
use mathlib.Core.List.{reverse, append-nil, append_assoc, reverse-cons}
use are.Core.Grant.{is_slash}
use are.Core.Grant.Roots.{IsPlain}
use are.Daemon.Paths.{
  Component, cur_dir, normal, component_beq_iff, component, components_of, first_component,
  components_from, components, path_join, file_name_of, file_name, strip_components,
  path_starts_with,
}

pub strip_components_iff :
    (ps cs rest : List Component) → (strip_components ps cs ≡ some rest) ↔ (cs ≡ ps ++ rest)
strip_components_iff [] cs rest = ground arith
strip_components_iff (p ∷ ps) [] rest = ground arith
strip_components_iff (p ∷ ps) (c ∷ cs) rest =
    ground (arith, component_beq_iff p c, strip_components_iff ps cs rest)

components_of-append :
    (ps qs : List Str) → components_of (ps ++ qs) ≡ components_of ps ++ components_of qs
components_of-append [] qs = refl
components_of-append (p ∷ ps) qs =
    rw (components_of-append ps qs) (sym (append_assoc (component p) _ _))

components_from-append :
    (b : Bool) (ps qs : List Str)
    → ps ≢ []
    → components_from b (ps ++ qs) ≡ components_from b ps ++ components_of qs
components_from-append b [] qs h = absurd (h refl)
components_from-append b (p ∷ ps) qs h =
    rw (components_of-append ps qs) (sym (append_assoc (first_component b p) _ _))

-- What stands before a slash, then what stands after it.
components-slash :
    (a b : Str)
    → components (a ++ (b'/' ∷ b))
      ≡ components_from (starts_with (ascii "/") (a ++ (b'/' ∷ b))) (split is_slash a)
        ++ components_of (split is_slash b)
unfolding components
components-slash a b =
    rw (split-append_sep is_slash a b b'/' refl)
      (components_from-append _ (split is_slash a) (split is_slash b) (split-ne-nil is_slash a))

component_of_IsPlain : (c : Str) → IsPlain c → component c ≡ normal c ∷ []
component_of_IsPlain c h = ground (arith, h.present, h.not_here, h.not_up)

-- The first byte decides whether a path is absolute.
absolute-append :
    (a b c : Str) → a ≢ [] → starts_with (ascii "/") (a ++ b) ≡ starts_with (ascii "/") (a ++ c)
absolute-append [] b c h = absurd (h refl)
absolute-append (x ∷ a) b c h = refl

leaf_of_IsPlain : (c : Str) → IsPlain c → components_of (split is_slash c) ≡ normal c ∷ []
leaf_of_IsPlain c h = rw (split_of_Free is_slash c h.free, component_of_IsPlain c h)

IsPlain-relative : (c : Str) → IsPlain c → starts_with (ascii "/") c ≡ false
IsPlain-relative [] h = refl
IsPlain-relative (x ∷ c) h = ground (arith, h.free)

absolute-ends :
    (a b c : Str)
    → starts_with (ascii "/") (a ++ (b'/' ∷ b)) ≡ starts_with (ascii "/") (a ++ (b'/' ∷ c))
absolute-ends [] b c = refl
absolute-ends (x ∷ a) b c = refl

is_empty-false : (p : Str) → p ≢ [] → is_empty p ≡ false
is_empty-false [] h = absurd (h refl)
is_empty-false (c ∷ p) h = refl

opened :
    (p name : Str)
    → p ≢ []
    → IsPlain name
    → components (p ++ (b'/' ∷ name)) ≡ components p ++ normal name ∷ []
unfolding components
opened [] name h k = absurd (h refl)
opened (x ∷ p) name h k = components-slash (x ∷ p) name ∙ ap (◌++◌ _) (leaf_of_IsPlain name k)

components_of-nil : components_of (split is_slash []) ≡ []
unfolding split str_eq
components_of-nil = refl

ended :
    (a name : Str)
    → IsPlain name
    → components (a ++ (b'/' ∷ name)) ≡ components (a ++ ascii "/") ++ normal name ∷ []
ended a name k = rw (
  components-slash a name,
  components-slash a [],
  absolute-ends a name [],
  leaf_of_IsPlain name k,
  components_of-nil,
  append-nil,
)

-- A plain name joined to a path is one more component.
pub components-path_join :
    (p name : Str)
    → p ≢ []
    → IsPlain name
    → components (path_join p name) ≡ components p ++ normal name ∷ []
unfolding path_join
components-path_join p name h k = elim (Option-cases (strip_suffix (ascii "/") p)) [
  | inl open_end ↦ rw (IsPlain-relative name k, is_empty-false p h, open_end) (opened p name h k)
  | inr (a, closed) ↦
      let text = strip_suffix_sound (ascii "/") p a closed in
      rw (IsPlain-relative name k, is_empty-false p h, closed)
        (rw text (rw (append_assoc a (ascii "/") name) (ended a name k)))
]

-- A component that names an entry is a plain name.
abbrev pub NamesPlain : Component → Type 0
NamesPlain (normal c) = IsPlain c
NamesPlain _ = Unit

component-NamesPlain : (c : Str) → Free is_slash c → All NamesPlain (component c)
component-NamesPlain c h = elim (Bool-cases (c == [] || c == ascii ".")) [
  | inl dropped ↦ rw dropped tt
  | inr named ↦ elim (Bool-cases (c == ascii "..")) [
    | inl up ↦ rw (named, up) (tt, tt)
    | inr down ↦
        rw (named, down)
          (
            record {
              present = ground arith;
              not_here = ground arith;
              not_up = ground arith;
              free = h;
            },
            tt,
          )
  ]
]

components_of-NamesPlain :
    (ps : List Str) → All (Free is_slash) ps → All NamesPlain (components_of ps)
components_of-NamesPlain [] h = tt
components_of-NamesPlain (p ∷ ps) (h, hs) =
    All-append NamesPlain (component p) _ (component-NamesPlain p h)
      (components_of-NamesPlain ps hs)

first-NamesPlain : (b : Bool) (c : Str) → Free is_slash c → All NamesPlain (first_component b c)
first-NamesPlain true c h = (tt, tt)
first-NamesPlain false c h =
    All-if NamesPlain (c == ascii ".") (cur_dir ∷ []) (component c) (tt, tt)
      (component-NamesPlain c h)

pub components-NamesPlain : (p : Str) → All NamesPlain (components p)
unfolding components
components-NamesPlain p = go (split is_slash p) (split-Free is_slash p)
  where
    go :
        (ps : List Str)
        → All (Free is_slash) ps
        → All NamesPlain (components_from (starts_with (ascii "/") p) ps)
    go [] h = tt
    go (q ∷ qs) (h, hs) =
        All-append NamesPlain (first_component (starts_with (ascii "/") p) q) _
          (first-NamesPlain _ q h) (components_of-NamesPlain qs hs)

reverse-All : (P : Component → Type 0) (cs : List Component) → All P cs → All P (reverse cs)
reverse-All P [] h = tt
reverse-All P (c ∷ cs) (h, hs) =
    rw (reverse-cons c cs) (All-append P (reverse cs) (c ∷ []) (reverse-All P cs hs) (h, tt))

file_name_of-IsPlain :
    (cs : List Component) (c : Str) → All NamesPlain cs → file_name_of cs ≡ some c → IsPlain c
file_name_of-IsPlain (normal d ∷ cs) c (h, _) e = subst IsPlain (ground arith) h
file_name_of-IsPlain cs c h e = cc

pub file_name-IsPlain : (p c : Str) → file_name p ≡ some c → IsPlain c
unfolding file_name
file_name-IsPlain p c =
    file_name_of-IsPlain (reverse (components p)) c
      (reverse-All NamesPlain (components p) (components-NamesPlain p))

pub components-nil : components [] ≡ []
unfolding components split str_eq
components-nil = refl

pub strip_components-same : (cs : List Component) → strip_components cs cs ≡ some []
strip_components-same [] = refl
strip_components-same (c ∷ cs) = ground (arith, component_beq_iff c c, strip_components-same cs)

pub path_starts_with-same : (p : Str) → path_starts_with p p ≡ true
unfolding path_starts_with
path_starts_with-same p = rw (strip_components-same (components p)) refl
