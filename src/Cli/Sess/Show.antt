-- ===== src/Cli/Sess/Show.antt =====
-- crates/are-cli/src/main.rs: `keys.sort()` of `are sess show`.
use are.Base.{
  ◌≡◌, refl, sym, ap, ◌∙◌, true, false, List, [], ◌∷◌, map, Option, some, Str, arith, lit, bytes,
  unwrap_or, if◌then◌else◌, ◌==◌, ==_iff, str_eq, Bool-cases, inl, inr,
}
use mathlib.Core.Path.{subst}
use mathlib.Core.List.{Permᴰ}
use are.Base.Dict.{Dict, get, keys, NodupKeys}
use are.Core.Error.{◌<+>◌}
use are.Core.Identity.{str_leb}
use are.Core.Request.{SessionInfo, EnvVars}
use are.Cli.Sess.{insert_sorted, sort, env_line, session_lines}

str_leb_total : (s t : Str) → str_leb s t ≡ false → str_leb t s ≡ true
unfolding str_leb
str_leb_total [] t h = cc
str_leb_total (a ∷ s) [] h = refl
str_leb_total (a ∷ s) (b ∷ t) h = ground (arith, str_leb_total s t)

str_leb_antisym : (s t : Str) → str_leb s t ≡ true → str_leb t s ≡ true → s ≡ t
unfolding str_leb
str_leb_antisym [] [] h g = refl
str_leb_antisym [] (b ∷ t) h g = cc
str_leb_antisym (a ∷ s) [] h g = cc
str_leb_antisym (a ∷ s) (b ∷ t) h g = ground (arith, str_leb_antisym s t)

str_leb_trans : (r s t : Str) → str_leb r s ≡ true → str_leb s t ≡ true → str_leb r t ≡ true
unfolding str_leb
str_leb_trans [] s t h g = refl
str_leb_trans (a ∷ r) [] t h g = cc
str_leb_trans (a ∷ r) (b ∷ s) [] h g = cc
str_leb_trans (a ∷ r) (b ∷ s) (c ∷ t) h g = ground (arith, str_leb_trans r s t)

-- A smaller key is inserted before or after a bigger one.
insert_sorted_comm_ordered :
    (a b : Str) (ks : List Str)
    → str_leb a b ≡ true
    → str_leb b a ≡ false
    → insert_sorted a (insert_sorted b ks) ≡ insert_sorted b (insert_sorted a ks)
unfolding insert_sorted
insert_sorted_comm_ordered a b [] h g = ground arith
insert_sorted_comm_ordered a b (j ∷ ks) h g =
    ground
      (arith, insert_sorted_comm_ordered a b ks h g, str_leb_trans a b j h, str_leb_trans b j a)

insert_sorted_comm :
    (a b : Str) (ks : List Str)
    → insert_sorted a (insert_sorted b ks) ≡ insert_sorted b (insert_sorted a ks)
insert_sorted_comm a b ks = elim (Bool-cases (str_leb a b)) [
  | inl h ↦ elim (Bool-cases (str_leb b a)) [
    | inl g ↦
        let same = str_leb_antisym a b h g in
        ap (λ (k : Str). insert_sorted k (insert_sorted b ks)) same
        ∙ ap (λ (k : Str). insert_sorted b (insert_sorted k ks)) (sym same)
    | inr g ↦ insert_sorted_comm_ordered a b ks h g
  ]
  | inr h ↦ sym (insert_sorted_comm_ordered b a ks (str_leb_total a b h) h)
]

-- Entries in another order have the same keys in order.
sort-keys-perm : {d e : Dict Str Str} → Permᴰ d e → sort (keys d) ≡ sort (keys e)
unfolding sort
sort-keys-perm Permᴰ.nil = refl
sort-keys-perm (Permᴰ.cons same p) = λ i. insert_sorted (same i).0 (sort-keys-perm p i)
sort-keys-perm (Permᴰ.swap {a} {b} {l = l} first second) =
    insert_sorted_comm a.0 b.0 (sort (keys l)) ∙ λ i.
    insert_sorted (second i).0 (insert_sorted (first i).0 (sort (keys l)))
sort-keys-perm (Permᴰ.trans p q) = sort-keys-perm p ∙ sort-keys-perm q

get-swap :
    (a b : Str × Str) (l : Dict Str Str)
    → NodupKeys (a ∷ b ∷ l)
    → NodupKeys (b ∷ a ∷ l) × ((k : Str) → get k (a ∷ b ∷ l) ≡ get k (b ∷ a ∷ l))
unfolding get
get-swap (i, v) (j, w) l (fresh, (other, u)) = (
  (ground (arith, ==_iff i j, ==_iff j i), (ground (arith, ==_iff i j, ==_iff j i), u)),
  λ k. ground (arith, ==_iff i j, ==_iff j i, ==_iff i k, ==_iff j k),
)

-- They are again without double keys, and hold the same values.
get-perm :
    {d e : Dict Str Str} → Permᴰ d e → NodupKeys d → NodupKeys e × ((k : Str) → get k d ≡ get k e)
unfolding get
get-perm Permᴰ.nil u = (tt, λ k. refl)
get-perm (Permᴰ.cons {a} {b} {l₁} {l₂} same p) u =
    let (v, still) = get-perm p u.1 in
    (
      (sym (still b.0) ∙ ap (λ (c : Str × Str). get c.0 l₁) (sym same) ∙ u.0, v),
      λ k i. if (same i).0 == k then some (same i).1 else still k i,
    )
get-perm (Permᴰ.swap {a} {b} {a'} {b'} {l} first second) u =
    let exchanged : b ∷ a ∷ l ≡ a' ∷ b' ∷ l = λ i. second i ∷ first i ∷ l in
    let (v, same) = get-swap a b l u in
    (subst (λ (d : Dict Str Str). NodupKeys d) exchanged v, λ k. same k ∙ ap (get k) exchanged)
get-perm (Permᴰ.trans p q) u =
    let (v, same) = get-perm p u in let (w, still) = get-perm q v in (w, λ k. same k ∙ still k)

-- A session whose variables have different names: `are sess show` prints the same lines for it and
-- for one that differs in the order of its variables.
pub session_lines-perm :
    (s : SessionInfo) (env_vars : EnvVars)
    → NodupKeys s.env_vars
    → Permᴰ s.env_vars env_vars
    → session_lines (record s { env_vars = env_vars }) ≡ session_lines s
unfolding session_lines
session_lines-perm s env_vars u p =
    let (v, same) = get-perm p u in
    let entries : map (env_line env_vars) (sort (keys env_vars))
        ≡ map (env_line s.env_vars) (sort (keys s.env_vars)) =
      ap
        (λ (value : Str → Option Str).
          map (λ (k : Str). lit "    " <+> bytes k <+> lit "=" <+> bytes (unwrap_or (value k) []))
            (sort (keys env_vars)))
        (λ i k. sym (same k) i)
      ∙ ap (map (env_line s.env_vars)) (sym (sort-keys-perm p)) in
    rw (session_lines, entries) refl
