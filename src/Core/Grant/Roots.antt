-- ===== src/Core/Grant/Roots.antt =====
-- crates/are-core/src/grant.rs: what the normal form of a root is, and which paths a root covers.
use are.Base.{
  split-All, ℕ, ◌≡◌, refl, sym, ap, ◌∙◌, ◌≢◌, ◌↔◌, ◌⊎◌, inl, inr, Bool, true, false, ◌||◌, List, [],
  ◌∷◌, ◌++◌, arith, Str, ascii, length, length-append, All, In, All-map, All-append, lit, bytes, ok,
  err, ◌>>=◌, >>=-eq-ok, eqb, Bool-cases, Option-cases, ◌==◌, ==_iff, str_eq, strip_prefix,
  starts_with, split, join, strip_prefix_iff, Free, split-append_sep, split-Free, split-join,
  join-append,
}
use mathlib.Core.Path.{◌≡⟨◌⟩◌, ◌∎}
use mathlib.Core.List.{append-nil}
use are.Core.Error.{CoreError, invalid_grant, ◌<+>◌}
use are.Core.Grant.{slashed, is_slash, normal_parts, normalize_grant_root, root_covers}

-- A path component that names an entry of its directory.
pub record IsPlain (comp : Str) : Type 0 where
  pub present : comp ≢ []
  pub not_here : comp ≢ ascii "."
  pub not_up : comp ≢ ascii ".."
  pub free : Free is_slash comp

-- The components that `a/b` is made of, `[]` for the empty path.
abbrev pub path : List Str → Str
path = join b'/'

-- What the loop keeps of a component, beside a property that all components share.
abbrev Kept : (Str → Type 0) → Str → Type 0
Kept P comp = P comp × (comp ≢ []) × (comp ≢ ascii ".") × (comp ≢ ascii "..")

normal_parts-Kept :
    (P : Str → Type 0) (raw : Str) (comps ps : List Str)
    → All P comps
    → normal_parts raw comps ≡ ok ps
    → All (Kept P) ps
unfolding normal_parts
normal_parts-Kept P raw [] [] h e = tt
normal_parts-Kept P raw [] (p ∷ ps) h e = cc
normal_parts-Kept P raw (comp ∷ rest) ps (f, h) e =
    elim (Bool-cases (comp == [] || comp == ascii ".")) [
      | inl dropped ↦ normal_parts-Kept P raw rest ps h (ground arith)
      | inr named ↦
          let inner : (normal_parts raw rest >>= λ qs. ok (comp ∷ qs)) ≡ ok ps = ground arith in
          let (qs, e', same) = >>=-eq-ok (normal_parts raw rest) (λ qs. ok (comp ∷ qs)) inner in
          let same' : ps ≡ comp ∷ qs = ground arith in
          rw same'
            ((f, ground arith, ground arith, ground arith), normal_parts-Kept P raw rest qs h e')
    ]

Kept-IsPlain : (ps : List Str) → All (Kept (Free is_slash)) ps → All IsPlain ps
Kept-IsPlain =
    All-map (Kept (Free is_slash)) IsPlain
      λ comp (f, a, b, c). record { present = a; not_here = b; not_up = c; free = f }

-- A root that loads is a path of plain components.
pub normalize_grant_root-IsPlain :
    (raw root : Str)
    → normalize_grant_root raw ≡ ok root
    → (ps : List Str) × (root ≡ path ps) × All IsPlain ps
unfolding normalize_grant_root
normalize_grant_root-IsPlain raw root e =
    let comps = split is_slash (slashed raw) in
    let (ps, e', same) = >>=-eq-ok (normal_parts raw comps) (λ parts. ok (path parts)) e in
    (
      ps,
      ground arith,
      Kept-IsPlain ps
          (normal_parts-Kept (Free is_slash) raw comps ps (split-Free is_slash (slashed raw)) e'),
    )

-- The error of a root that climbs.
abbrev pub climb : Str → CoreError
climb raw = invalid_grant (lit "grant root climbs above its scope: " <+> bytes raw)

normal_parts_cases :
    (raw : Str) (comps : List Str)
    → (In (ascii "..") comps × (normal_parts raw comps ≡ err (climb raw)))
      ⊎ ((¬ In (ascii "..") comps) × ((ps : List Str) × (normal_parts raw comps ≡ ok ps)))
unfolding normal_parts
normal_parts_cases raw [] = inr (λ m. m, ([], refl))
normal_parts_cases raw (comp ∷ rest) = ground (arith, normal_parts_cases raw rest)

-- A root is refused exactly when one of its components, at `/` or `\`, is `..`.
pub normalize_grant_root-refuses_iff :
    (raw : Str)
    → (normalize_grant_root raw ≡ err (climb raw)) ↔ In (ascii "..") (split is_slash (slashed raw))
unfolding normalize_grant_root
normalize_grant_root-refuses_iff raw =
    ground (arith, normal_parts_cases raw (split is_slash (slashed raw)))

normal_parts_of_IsPlain : (raw : Str) (ps : List Str) → All IsPlain ps → normal_parts raw ps ≡ ok ps
unfolding normal_parts
normal_parts_of_IsPlain raw [] h = refl
normal_parts_of_IsPlain raw (p ∷ ps) (h, hs) =
    ground (arith, normal_parts_of_IsPlain raw ps hs, h.present, h.not_here, h.not_up)

Free-of_IsPlain : (ps : List Str) → All IsPlain ps → All (Free is_slash) ps
Free-of_IsPlain = All-map IsPlain (Free is_slash) (λ p h. h.free)

split-path : (ps : List Str) → ps ≢ [] → All IsPlain ps → split is_slash (path ps) ≡ ps
split-path ps h k = split-join b'/' ps h (Free-of_IsPlain ps k)

path-ne-nil : (p : Str) (ps : List Str) → IsPlain p → path (p ∷ ps) ≢ []
path-ne-nil [] ps h e = h.present refl
path-ne-nil (c ∷ p) [] h e = cc
path-ne-nil (c ∷ p) (q ∷ ps) h e = cc

-- `root` is `rel` or a directory above it, component by component.
abbrev pub Covers : List Str → List Str → Type 0
Covers ps qs = (rest : List Str) × (qs ≡ ps ++ rest)

Covers-of_strip :
    (p : Str) (ps qs : List Str) (rest : Str)
    → All IsPlain (p ∷ ps)
    → All IsPlain qs
    → path qs ≡ path (p ∷ ps) ++ (b'/' ∷ rest)
    → Covers (p ∷ ps) qs
Covers-of_strip p ps [] rest h k e =
    absurd (omega (arith, ap {B = ℕ} length e, length-append (path (p ∷ ps)) (b'/' ∷ rest)))
Covers-of_strip p ps (q ∷ qs) rest h k e = (
  split is_slash rest,
  q ∷ qs
      ≡⟨ sym (split-path (q ∷ qs) (λ n. cc) k) ⟩ split is_slash (path (q ∷ qs))
      ≡⟨ ap (split is_slash) e ⟩ split is_slash (path (p ∷ ps) ++ (b'/' ∷ rest))
      ≡⟨ split-append_sep is_slash (path (p ∷ ps)) rest b'/' refl ⟩
        split is_slash (path (p ∷ ps)) ++ split is_slash rest
      ≡⟨ ap (λ x. x ++ split is_slash rest) (split-path (p ∷ ps) (λ n. cc) h) ⟩
        (p ∷ ps) ++ split is_slash rest ∎,
)

path-injective :
    (p : Str) (ps qs : List Str)
    → All IsPlain (p ∷ ps)
    → All IsPlain qs
    → path qs ≡ path (p ∷ ps)
    → qs ≡ p ∷ ps
path-injective p ps [] h k e = absurd (path-ne-nil p ps h.0 (sym e))
path-injective p ps (q ∷ qs) h k e =
    sym (split-path (q ∷ qs) (λ n. cc) k) ∙ ap (split is_slash) e ∙ split-path (p ∷ ps) (λ n. cc) h

root_covers_of_Covers :
    (p : Str) (ps rest : List Str) → root_covers (path (p ∷ ps)) (path ((p ∷ ps) ++ rest)) ≡ true
unfolding root_covers
root_covers_of_Covers p ps [] = ground (arith, append-nil (p ∷ ps))
root_covers_of_Covers p ps (r ∷ rest) = ground (
  arith,
  join-append b'/' (p ∷ ps) (r ∷ rest) (λ n. cc) (λ n. cc),
  strip_prefix_iff (path (p ∷ ps)) (path ((p ∷ ps) ++ r ∷ rest)) (b'/' ∷ path (r ∷ rest)),
)

-- What the test on texts says of a root that is not empty.
root_covers_cases :
    (c : ℕ) (root rel : Str)
    → root_covers (c ∷ root) rel ≡ true
    → (rel ≡ c ∷ root) ⊎ ((rest : Str) × (rel ≡ (c ∷ root) ++ (b'/' ∷ rest)))
unfolding root_covers
root_covers_cases c root rel e = elim (Bool-cases (rel == (c ∷ root))) [
  | inl same ↦ inl ((==_iff _ _).0 same)
  | inr other ↦ elim (Option-cases (strip_prefix (c ∷ root) rel)) [
    | inl missed ↦ absurd (cc (rw (other, missed, root_covers) at e))
    | inr (rest, found) ↦
        inr (
          slash_first rest ((strip_prefix_iff (c ∷ root) rel rest).0 found)
            (rw (other, found) at e))
  ]
]
  where
    slash_first :
        (rest : Str)
        → rel ≡ (c ∷ root) ++ rest
        → starts_with (ascii "/") rest ≡ true
        → (tail : Str) × (rel ≡ (c ∷ root) ++ (b'/' ∷ tail))
    slash_first [] f g = cc
    slash_first (x ∷ tail) f g = (tail, ground arith)

Covers-of_root_covers :
    (p : Str) (ps qs : List Str)
    → All IsPlain (p ∷ ps)
    → All IsPlain qs
    → root_covers (path (p ∷ ps)) (path qs) ≡ true
    → Covers (p ∷ ps) qs
Covers-of_root_covers p ps qs h k e = go (path (p ∷ ps)) refl
  where
    go : (root : Str) → path (p ∷ ps) ≡ root → Covers (p ∷ ps) qs
    go [] f = absurd (path-ne-nil p ps h.0 f)
    go (c ∷ root) f = elim (root_covers_cases c root (path qs) (rw f at e)) [
      | inl same ↦ ([], path-injective p ps qs h k (same ∙ sym f) ∙ sym (append-nil (p ∷ ps)))
      | inr (rest, cut) ↦ Covers-of_strip p ps qs rest h k (rw f cut)
    ]

-- Over plain components, `root_covers` is the prefix order of paths: `logs` covers `logs` and
-- `logs/a`, not `logs2/x`; the empty root covers all.
pub root_covers_iff :
    (ps qs : List Str)
    → All IsPlain ps
    → All IsPlain qs
    → (root_covers (path ps) (path qs) ≡ true) ↔ Covers ps qs
unfolding root_covers
root_covers_iff [] qs h k = (λ _. (qs, refl), λ _. refl)
root_covers_iff (p ∷ ps) qs h k =
    (Covers-of_root_covers p ps qs h k, λ (rest, e). rw e (root_covers_of_Covers p ps rest))

abbrev is_backslash : ℕ → Bool
is_backslash c = eqb c b'\\'

slashed-Free : (s : Str) → Free is_backslash (slashed s)
unfolding slashed
slashed-Free [] = tt
slashed-Free (c ∷ s) = (ground arith, slashed-Free s)

slashed_of_Free : (s : Str) → Free is_backslash s → slashed s ≡ s
unfolding slashed
slashed_of_Free [] h = refl
slashed_of_Free (c ∷ s) (h, hs) = ground (arith, slashed_of_Free s hs)

path-Free : (ps : List Str) → All (Free is_backslash) ps → Free is_backslash (path ps)
path-Free [] h = tt
path-Free (p ∷ []) (h, _) = h
path-Free (p ∷ q ∷ ps) (h, hs) =
    All-append (λ c. is_backslash c ≡ false) p (b'/' ∷ path (q ∷ ps)) h
      (refl, path-Free (q ∷ ps) hs)

Kept-Free : (ps : List Str) → All (Kept (Free is_backslash)) ps → All (Free is_backslash) ps
Kept-Free = All-map (Kept (Free is_backslash)) (Free is_backslash) (λ comp (f, a, b, c). f)

normalize_path :
    (ps : List Str)
    → All IsPlain ps
    → All (Free is_backslash) ps
    → normalize_grant_root (path ps) ≡ ok (path ps)
unfolding normalize_grant_root split str_eq
normalize_path [] h k = refl
normalize_path (p ∷ ps) h k = ground (
  arith,
  slashed_of_Free (path (p ∷ ps)) (path-Free (p ∷ ps) k),
  split-path (p ∷ ps) (λ n. cc) h,
  normal_parts_of_IsPlain (path (p ∷ ps)) (p ∷ ps) h,
)

-- Loading a root that was normalized before changes nothing.
pub normalize_grant_root_idempotent :
    (raw root : Str) → normalize_grant_root raw ≡ ok root → normalize_grant_root root ≡ ok root
unfolding normalize_grant_root
normalize_grant_root_idempotent raw root e =
    let comps = split is_slash (slashed raw) in
    let (ps, e', same) = >>=-eq-ok (normal_parts raw comps) (λ parts. ok (path parts)) e in
    let plain =
      normal_parts-Kept (Free is_slash) raw comps ps (split-Free is_slash (slashed raw)) e' in
    let no_backslash =
      normal_parts-Kept (Free is_backslash) raw comps ps
        (split-All is_slash (λ c. is_backslash c ≡ false) (slashed raw) (slashed-Free raw)) e' in
    let same' : root ≡ path ps = ground arith in
    rw same' (normalize_path ps (Kept-IsPlain ps plain) (Kept-Free ps no_backslash))
