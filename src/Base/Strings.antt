-- ===== src/Base/Strings.antt =====
-- Text as a list of bytes, and the functions of `str` that the code calls. The separators of the
-- code are ASCII, so to split and to compare bytes is to split and to compare characters.
use Prim.Native.Nat.{ℕ}
use Prim.Native.Char.{code}
use Prim.Native.String.{String}
use mathlib.Core.Path.{ap₂, ◌≡⟨◌⟩◌, ◌∎, ◌≡◌, refl, sym, ap}
use mathlib.Core.Logic.{◌↔◌, ◌≢◌, dite}
use mathlib.Core.Bool.{Bool, true, false, ◌&&◌, Bool-discrete}
use mathlib.Core.Option.{Option, none, some, some-injective}
use mathlib.Core.Logic.{inl, inr}
use mathlib.Core.List.{List, [], ◌∷◌, ◌++◌, reverse, append_assoc, reverse-reverse, reverse-append}
use native.Mathlib.Omega.{arith}
use are.Base.Tests.{if◌then◌else◌, eqb, Eq, Bool-cases, Option-cases}
use are.Base.Lists.{any, All}

abbrev pub Str : Type 0
Str = List ℕ

-- The bytes of an ASCII literal.
abbrev pub ascii : String → Str
ascii String.[] = []
ascii (String.◌∷◌ c s) = code c ∷ ascii s

abbrev pub str_beq : Str → Str → Bool
str_beq [] [] = true
str_beq (a ∷ s) (b ∷ t) = eqb a b && str_beq s t
str_beq _ _ = false

pub str_beq_iff : (s t : Str) → (str_beq s t ≡ true) ↔ (s ≡ t)
str_beq_iff [] [] = ground arith
str_beq_iff [] (b ∷ t) = ground arith
str_beq_iff (a ∷ s) [] = ground arith
str_beq_iff (a ∷ s) (b ∷ t) = ground (arith, str_beq_iff s t)

instance unfoldable pub str_eq : Eq Str
str_eq = record {
  dec = λ s t.
      dite (Bool-discrete (str_beq s t) true) (λ same. yes ((str_beq_iff s t).0 same))
        (λ differ. no (λ p. differ ((str_beq_iff s t).1 p)));
}

-- `contains` of a byte.
abbrev pub contains : ℕ → Str → Bool
contains c = any (eqb c)

abbrev pub strip_prefix : Str → Str → Option Str
strip_prefix [] s = some s
strip_prefix (p ∷ ps) [] = none
strip_prefix (p ∷ ps) (c ∷ s) = if eqb p c then strip_prefix ps s else none

abbrev pub starts_with : Str → Str → Bool
starts_with [] s = true
starts_with (p ∷ ps) [] = false
starts_with (p ∷ ps) (c ∷ s) = eqb p c && starts_with ps s

-- A byte goes to the front of the first piece.
abbrev pub push_head : ℕ → List Str → List Str
push_head c [] = (c ∷ []) ∷ []
push_head c (p ∷ ps) = (c ∷ p) ∷ ps

-- `s.split(sep)`: the pieces between the bytes that are separators; never empty.
unfoldable pub split : (ℕ → Bool) → Str → List Str
split sep [] = [] ∷ []
split sep (c ∷ s) = let rest = split sep s in if sep c then [] ∷ rest else push_head c rest

-- `s.rsplit(sep).next()`.
abbrev pub last_piece : List Str → Option Str
last_piece [] = none
last_piece (p ∷ []) = some p
last_piece (p ∷ q ∷ ps) = last_piece (q ∷ ps)

-- `parts.join("/")`, for any separating byte.
abbrev pub join : ℕ → List Str → Str
join sep [] = []
join sep (p ∷ []) = p
join sep (p ∷ q ∷ ps) = p ++ (sep ∷ join sep (q ∷ ps))

abbrev pub strip_suffix : Str → Str → Option Str
strip_suffix suffix s = elim (strip_prefix (reverse suffix) (reverse s)) [
  | none ↦ none
  | some r ↦ some (reverse r)
]

pub strip_prefix_iff : (p s r : Str) → (strip_prefix p s ≡ some r) ↔ (s ≡ p ++ r)
strip_prefix_iff [] s r = ground arith
strip_prefix_iff (a ∷ p) [] r = ground arith
strip_prefix_iff (a ∷ p) (c ∷ s) r = ground (arith, strip_prefix_iff p s r)

-- The text has no separator.
abbrev pub Free : (ℕ → Bool) → Str → Type 0
Free sep = All (λ c. sep c ≡ false)

module _ (sep : ℕ → Bool) where
  pub split-ne-nil : (s : Str) → split sep s ≢ []
  unfolding split
  split-ne-nil [] e = cc
  split-ne-nil (c ∷ s) e = ground (arith, split-ne-nil s)

  push_head-append :
      (c : ℕ) (ps qs : List Str) → ps ≢ [] → push_head c (ps ++ qs) ≡ push_head c ps ++ qs
  push_head-append c [] qs h = absurd (h refl)
  push_head-append c (p ∷ ps) qs h = refl

  -- A separator cuts the text in two.
  pub split-append_sep :
      (a b : Str) (c : ℕ) → sep c ≡ true → split sep (a ++ (c ∷ b)) ≡ split sep a ++ split sep b
  unfolding split
  split-append_sep [] b c h = ground arith
  split-append_sep (x ∷ a) b c h = ground (
    arith,
    split-append_sep a b c h,
    push_head-append x (split sep a) (split sep b) (split-ne-nil a),
  )

  pub split_of_Free : (s : Str) → Free sep s → split sep s ≡ s ∷ []
  unfolding split
  split_of_Free [] h = refl
  split_of_Free (c ∷ s) (h, hs) = ground (arith, split_of_Free s hs)

  pub split-Free : (s : Str) → All (Free sep) (split sep s)
  unfolding split
  split-Free [] = (tt, tt)
  split-Free (c ∷ s) = elim (Bool-cases (sep c)) [
    | inl cut ↦ rw cut (tt, split-Free s)
    | inr kept ↦ rw kept (push_head-Free (split sep s) kept (split-Free s))
  ]
    where
      push_head-Free :
          (ps : List Str) → sep c ≡ false → All (Free sep) ps → All (Free sep) (push_head c ps)
      push_head-Free [] h k = ((h, tt), tt)
      push_head-Free (p ∷ ps) h (k, ks) = ((h, k), ks)

  -- What holds of every byte holds in every piece.
  pub split-All {κ} : (P : ℕ → Type κ) (s : Str) → All P s → All (All P) (split sep s)
  unfolding split
  split-All P [] h = (tt, tt)
  split-All P (c ∷ s) (h, hs) = elim (Bool-cases (sep c)) [
    | inl cut ↦ rw cut (tt, split-All P s hs)
    | inr kept ↦ rw kept (push_head-All (split sep s) (split-All P s hs))
  ]
    where
      push_head-All : (ps : List Str) → All (All P) ps → All (All P) (push_head c ps)
      push_head-All [] k = ((h, tt), tt)
      push_head-All (p ∷ ps) (k, ks) = ((h, k), ks)

pub join-append :
    (sep : ℕ) (ps qs : List Str)
    → ps ≢ []
    → qs ≢ []
    → join sep (ps ++ qs) ≡ join sep ps ++ (sep ∷ join sep qs)
join-append sep [] qs h k = absurd (h refl)
join-append sep (p ∷ []) [] h k = absurd (k refl)
join-append sep (p ∷ []) (q ∷ qs) h k = refl
join-append sep (p ∷ r ∷ ps) qs h k =
    rw (join-append sep (r ∷ ps) qs (λ e. cc) k) (sym (append_assoc p _ _))

-- Pieces without the separator come back from their join.
pub split-join :
    (c : ℕ) (ps : List Str)
    → ps ≢ []
    → All (Free (λ b. eqb b c)) ps
    → split (λ b. eqb b c) (join c ps) ≡ ps
split-join c [] h k = absurd (h refl)
split-join c (p ∷ []) h (k, _) = split_of_Free _ p k
split-join c (p ∷ q ∷ ps) h (k, ks) = rw (
  split-append_sep (λ b. eqb b c) p (join c (q ∷ ps)) c (ground arith),
  split_of_Free (λ b. eqb b c) p k,
  split-join c (q ∷ ps) (λ e. cc) ks,
)

pub strip_suffix_sound : (suffix s r : Str) → strip_suffix suffix s ≡ some r → s ≡ r ++ suffix
strip_suffix_sound suffix s r e = elim (Option-cases (strip_prefix (reverse suffix) (reverse s))) [
  | inl missed ↦ absurd (cc (rw (missed, strip_suffix) at e))
  | inr (t, found) ↦
      let back : reverse t ≡ r = some-injective _ _ (rw (found, strip_suffix) at e) in
      s
      ≡⟨ sym (reverse-reverse s) ⟩ reverse (reverse s)
      ≡⟨ ap reverse ((strip_prefix_iff (reverse suffix) (reverse s) t).0 found) ⟩
        reverse (reverse suffix ++ t)
      ≡⟨ reverse-append (reverse suffix) t ⟩ reverse t ++ reverse (reverse suffix)
      ≡⟨ ap₂ ◌++◌ back (reverse-reverse suffix) ⟩ r ++ suffix ∎
]
