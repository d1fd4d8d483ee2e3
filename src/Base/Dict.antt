-- ===== src/Base/Dict.antt =====
-- `HashMap<K, V>` as an association list. Its order stands for the order of iteration, which the
-- program leaves open.
use mathlib.Core.Path.{◌≡◌, refl, subst, sym}
use mathlib.Core.Logic.{◌≢◌, inl, inr}
use mathlib.Core.Bool.{Bool}
use mathlib.Core.Option.{Option, none, some}
use mathlib.Core.List.{List, [], ◌∷◌}
use native.Mathlib.Omega.{arith}
use Prim.Native.Nat.{◌+◌, ◌≤◌, ◌<◌}
use are.Base.Tests.{Eq, ==_iff, Bool-cases, ◌==◌, if◌then◌else◌, is_some}
use are.Base.Lists.{All, All-if_cases, length}

abbrev pub Dict {ℓ κ} : Type ℓ → Type κ → Type (ℓ ⊔ κ)
Dict K V = List (K × V)

abbrev pub keys {ℓ κ} : {K : Type ℓ} {V : Type κ} → Dict K V → List K
keys [] = []
keys ((k, v) ∷ d) = k ∷ keys d

abbrev pub values {ℓ κ} : {K : Type ℓ} {V : Type κ} → Dict K V → List V
values [] = []
values ((k, v) ∷ d) = v ∷ values d

module _ {ℓ κ} {K : Type ℓ} {V : Type κ} ⦃e : Eq K⦄ where
  unfoldable pub get : K → Dict K V → Option V
  get k [] = none
  get k ((j, v) ∷ d) = if j == k then some v else get k d

  abbrev pub contains_key : K → Dict K V → Bool
  contains_key k d = is_some (get k d)

  -- Replaces the value of a key that is there.
  unfoldable pub insert : K → V → Dict K V → Dict K V
  insert k v [] = (k, v) ∷ []
  insert k v ((j, w) ∷ d) = if j == k then (j, v) ∷ d else (j, w) ∷ insert k v d

  unfoldable pub remove : K → Dict K V → Dict K V
  remove k [] = []
  remove k ((j, w) ∷ d) = let rest = remove k d in if j == k then rest else (j, w) ∷ rest

  -- No key stands twice.
  abbrev pub NodupKeys : Dict K V → Type κ
  NodupKeys [] = Unit
  NodupKeys ((k, _) ∷ d) = (get k d ≡ none) × NodupKeys d

  pub get-insert :
      (k j : K) (v : V) (d : Dict K V) → get j (insert k v d) ≡ (if k == j then some v else get j d)
  unfolding get insert
  get-insert k j v [] = refl
  get-insert k j v ((i, w) ∷ d) = ground (arith, get-insert k j v d)

  pub get-remove :
      (k j : K) (d : Dict K V) → get j (remove k d) ≡ (if k == j then none else get j d)
  unfolding get remove
  get-remove k j [] = ground arith
  get-remove k j ((i, w) ∷ d) = ground (arith, get-remove k j d)

  pub get-insert_same : (k : K) (v : V) (d : Dict K V) → get k (insert k v d) ≡ some v
  get-insert_same k v d = ground (arith, get-insert k k v d, ==_iff k k)

  pub get-insert_other : (k j : K) (v : V) (d : Dict K V) → k ≢ j → get j (insert k v d) ≡ get j d
  get-insert_other k j v d other = ground (arith, get-insert k j v d, ==_iff k j)

  pub get-remove_other : (k j : K) (d : Dict K V) → k ≢ j → get j (remove k d) ≡ get j d
  get-remove_other k j d other = ground (arith, get-remove k j d, ==_iff k j)

  pub insert-NodupKeys : (k : K) (v : V) (d : Dict K V) → NodupKeys d → NodupKeys (insert k v d)
  unfolding get insert
  insert-NodupKeys k v [] h = (refl, tt)
  insert-NodupKeys k v ((j, w) ∷ d) (fresh, h) =
      ground (arith, get-insert k j v d, insert-NodupKeys k v d h)

  pub remove-NodupKeys : (k : K) (d : Dict K V) → NodupKeys d → NodupKeys (remove k d)
  unfolding get remove
  remove-NodupKeys k [] h = tt
  remove-NodupKeys k ((j, w) ∷ d) (fresh, h) =
      ground (arith, get-remove k j d, remove-NodupKeys k d h)

  pub length-insert_new :
      (k : K) (v : V) (d : Dict K V) → get k d ≡ none → length (insert k v d) ≡ length d + 1
  unfolding get insert
  length-insert_new k v [] h = omega arith
  length-insert_new k v ((j, w) ∷ d) h = ground (arith, length-insert_new k v d)

  pub length-insert_old :
      (k : K) (v w : V) (d : Dict K V) → get k d ≡ some w → length (insert k v d) ≡ length d
  unfolding get insert
  length-insert_old k v w [] h = cc
  length-insert_old k v w ((j, u) ∷ d) h = ground (arith, length-insert_old k v w d)

  pub length-remove-le : (k : K) (d : Dict K V) → length (remove k d) ≤ length d
  unfolding remove
  length-remove-le k [] = omega arith
  length-remove-le k ((j, w) ∷ d) = ground (arith, length-remove-le k d)

  pub length-remove :
      (k : K) (d : Dict K V) → NodupKeys d → get k d ≢ none → length (remove k d) < length d
  unfolding get remove
  length-remove k [] u h = absurd (h refl)
  length-remove k ((j, w) ∷ d) (fresh, u) h =
      ground (arith, length-remove k d u, length-remove-le k d)

  -- What holds of every entry, by key.
  pub All-get :
      (P : V → Type 0) (d : Dict K V) (k : K) {v : V} → All P (values d) → get k d ≡ some v → P v
  unfolding get
  All-get P [] k h g = cc
  All-get P ((j, w) ∷ d) k {v} h g = elim (e.dec j k) [
    | yes same ↦ let same_value : w ≡ v = ground arith in subst P same_value h.0
    | no other ↦ All-get P d k h.1 (ground arith)
  ]

  pub insert-All :
      (P : V → Type 0) (k : K) (v : V) (d : Dict K V)
      → P v
      → All P (values d)
      → All P (values (insert k v d))
  unfolding insert
  insert-All P k v [] p h = (p, tt)
  insert-All P k v ((j, w) ∷ d) p h = ground (arith, insert-All P k v d p h.1)

  pub remove-All :
      (P : V → Type 0) (k : K) (d : Dict K V) → All P (values d) → All P (values (remove k d))
  unfolding remove
  remove-All P k [] h = tt
  remove-All P k ((j, w) ∷ d) h = ground (arith, remove-All P k d h.1)

  -- What holds of every entry, of its key and its value.
  pub insert-AllEntries :
      (P : K → V → Type 0) (k : K) (v : V) (d : Dict K V)
      → P k v
      → All (λ (j, w). P j w) d
      → All (λ (j, w). P j w) (insert k v d)
  unfolding insert
  insert-AllEntries P k v [] p h = (p, tt)
  insert-AllEntries P k v ((j, w) ∷ d) p (h, hs) =
      All-if_cases (λ (i, u). P i u) (j == k) ((j, v) ∷ d) ((j, w) ∷ insert k v d)
        (λ same. (subst (λ i. P i v) (sym ((==_iff j k).0 same)) p, hs))
        (λ other. (h, insert-AllEntries P k v d p hs))

  pub remove-AllEntries :
      (P : K → V → Type 0) (k : K) (d : Dict K V)
      → All (λ (j, w). P j w) d
      → All (λ (j, w). P j w) (remove k d)
  unfolding remove
  remove-AllEntries P k [] h = tt
  remove-AllEntries P k ((j, w) ∷ d) (h, hs) =
      All-if_cases (λ (i, u). P i u) (j == k) (remove k d) ((j, w) ∷ remove k d)
        (λ same. remove-AllEntries P k d hs) (λ other. (h, remove-AllEntries P k d hs))

  pub get-AllEntries :
      (P : K → V → Type 0) (d : Dict K V) (k : K) {v : V}
      → All (λ (j, w). P j w) d
      → get k d ≡ some v
      → P k v
  unfolding get
  get-AllEntries P [] k h g = cc
  get-AllEntries P ((j, w) ∷ d) k {v} (h, hs) g = elim (Bool-cases (j == k)) [
    | inl same ↦
        let value : w ≡ v = ground arith in
        subst (λ i. P i v) ((==_iff j k).0 same) (subst (P j) value h)
    | inr other ↦ get-AllEntries P d k hs (ground arith)
  ]
