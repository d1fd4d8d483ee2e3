-- ===== src/Core/Grant/Programs.antt =====
-- crates/are-core/src/grant.rs: which spellings of a program name are one program.
use are.Base.{
  split-ne-nil, ℕ, ◌≡◌, refl, ◌≢◌, true, false, List, [], ◌∷◌, ◌++◌, map, some, arith, Str, ascii,
  All-append, unwrap_or, str_eq, strip_suffix, split, last_piece, strip_prefix_iff, Free,
  split-append_sep, split_of_Free,
}
use mathlib.Core.List.{reverse, reverse-append, reverse-reverse, map-append}
use are.Core.Grant.{is_separator, ascii_lower, program_basename, normalize_program_name}

last_piece-some : (q : Str) (qs : List Str) → (p : Str) × (last_piece (q ∷ qs) ≡ some p)
last_piece-some q [] = (q, refl)
last_piece-some q (r ∷ qs) = last_piece-some r qs

last_piece-append :
    (ps : List Str) (q : Str) (qs : List Str) → last_piece (ps ++ (q ∷ qs)) ≡ last_piece (q ∷ qs)
last_piece-append [] q qs = refl
last_piece-append (p ∷ []) q qs = refl
last_piece-append (p ∷ r ∷ ps) q qs = last_piece-append (r ∷ ps) q qs

last_or-append :
    (ps qs : List Str) (d d' : Str)
    → qs ≢ []
    → unwrap_or (last_piece (ps ++ qs)) d ≡ unwrap_or (last_piece qs) d'
last_or-append ps [] d d' h = absurd (h refl)
last_or-append ps (q ∷ qs) d d' h =
    let (p, found) = last_piece-some q qs in rw (last_piece-append ps q qs, found)

-- The directory of a program does not count, whichever slash ends it.
program_basename-directory :
    (dir name : Str) (c : ℕ)
    → is_separator c ≡ true
    → program_basename (dir ++ (c ∷ name)) ≡ program_basename name
unfolding program_basename
program_basename-directory dir name c h = rw (split-append_sep is_separator dir name c h) (
    last_or-append (split is_separator dir) (split is_separator name) _ _
      (split-ne-nil is_separator name))

program_basename_of_Free : (name : Str) → Free is_separator name → program_basename name ≡ name
unfolding program_basename
program_basename_of_Free name h = rw (split_of_Free is_separator name h)

ascii_lower_idem : (c : ℕ) → ascii_lower (ascii_lower c) ≡ ascii_lower c
ascii_lower_idem c = ground arith

lower_idem : (s : Str) → map ascii_lower (map ascii_lower s) ≡ map ascii_lower s
lower_idem [] = refl
lower_idem (c ∷ s) = cc (ascii_lower_idem c, lower_idem s)

lower-Free : (s : Str) → Free is_separator s → Free is_separator (map ascii_lower s)
lower-Free [] h = tt
lower-Free (c ∷ s) (h, hs) = (ground arith, lower-Free s hs)

strip_suffix-append : (s suffix : Str) → strip_suffix suffix (s ++ suffix) ≡ some s
strip_suffix-append s suffix =
    rw (reverse-append s suffix, strip_suffix)
      (rw
        (
          (strip_prefix_iff (reverse suffix) (reverse suffix ++ reverse s) (reverse s)).1 refl,
          strip_suffix,
        )
        (rw (reverse-reverse s)))

-- For a file name without slashes: a directory before it, ended by either slash, and the case of
-- its letters do not change the normalized name; with `.exe` after it, the normalized name is the
-- file name in lower case.
pub normalize_program_name_variants :
    (dir name : Str) (c : ℕ)
    → is_separator c ≡ true
    → Free is_separator name
    → (normalize_program_name (dir ++ (c ∷ name)) ≡ normalize_program_name name)
      × (normalize_program_name (map ascii_lower name) ≡ normalize_program_name name)
      × (normalize_program_name (name ++ ascii ".exe") ≡ map ascii_lower name)
unfolding normalize_program_name
normalize_program_name_variants dir name c h k = (
  rw (program_basename-directory dir name c h),
  rw (
    program_basename_of_Free name k,
    program_basename_of_Free _ (lower-Free name k),
    lower_idem name,
  ),
  rw (
    program_basename_of_Free (name ++ ascii ".exe") (
        All-append (λ b. is_separator b ≡ false) name (ascii ".exe") k
          (refl, (refl, (refl, (refl, tt))))),
    map-append ascii_lower name (ascii ".exe"),
    strip_suffix-append (map ascii_lower name) (ascii ".exe"),
  ),
)
