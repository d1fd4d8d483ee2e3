-- ===== src/Base/Results.antt =====
-- `Result<A, E>` with `?` as bind, and formatted messages.
use Prim.Native.Nat.{ℕ}
use Prim.Native.String.{String}
use mathlib.Core.Path.{◌≡◌, refl, subst}
use mathlib.Core.Logic.{◌⊎◌, inl, inr}
use mathlib.Core.Bool.{Bool, true, false}
use mathlib.Core.Option.{Option, none, some}
use mathlib.Core.List.{List}

pub data Result {ℓ κ} (E : Type ℓ) (A : Type κ) : Type (ℓ ⊔ κ) where
  ok : A → Result E A
  err : E → Result E A

abbrev pub map_err {ℓ κ ρ} :
    {E : Type ℓ} {F : Type κ} {A : Type ρ} → (E → F) → Result E A → Result F A
map_err f (ok a) = ok a
map_err f (err e) = err (f e)

abbrev pub ok_or {ℓ κ} : {E : Type ℓ} {A : Type κ} → Option A → E → Result E A
ok_or none e = err e
ok_or (some a) e = ok a

-- `if !test { return Err(reason); }`.
abbrev pub ensure {ℓ} : {E : Type ℓ} → Bool → E → Result E (Unit {0})
ensure false reason = err reason
ensure true reason = ok tt

-- The operator `?`: an error returns at once.
infixl 5 ◌>>=◌
abbrev pub ◌>>=◌ {ℓ κ ρ} :
    {E : Type ℓ} {A : Type κ} {B : Type ρ} → Result E A → (A → Result E B) → Result E B
err reason >>= next = err reason
ok a >>= next = next a

-- The same for a step that answers nothing.
infixl 5 ◌>>◌
abbrev pub ◌>>◌ {ℓ κ} : {E : Type ℓ} {B : Type κ} → Result E (Unit {0}) → Result E B → Result E B
step >> rest = step >>= λ answer. rest

module _ {ℓ κ} {E : Type ℓ} {A : Type κ} where
  -- A chain that succeeds has succeeded at its first step.
  pub >>=-eq-ok {ρ} :
      {B : Type ρ} (step : Result E A) (next : A → Result E B) {answer : B}
      → (step >>= next) ≡ ok answer
      → (value : A) × (step ≡ ok value) × (next value ≡ ok answer)
  >>=-eq-ok (err reason) next h = cc
  >>=-eq-ok (ok value) next h = (value, refl, h)

  pub Result-cases : (r : Result E A) → ((a : A) × (r ≡ ok a)) ⊎ ((e : E) × (r ≡ err e))
  Result-cases (ok a) = inl (a, refl)
  Result-cases (err e) = inr (e, refl)

abbrev pub IsErr {ℓ κ} : {E : Type ℓ} {A : Type κ} → Result E A → Type 0
IsErr (ok a) = ⊥
IsErr (err e) = Unit

pub IsErr-of_never {ℓ κ} :
    {E : Type ℓ} {A : Type κ} (r : Result E A) → ((a : A) → r ≡ ok a → ⊥) → IsErr r
IsErr-of_never (ok a) h = h a refl
IsErr-of_never (err e) h = tt

pub err-of_IsErr {ℓ κ} :
    {E : Type ℓ} {A : Type κ} (r : Result E A) → IsErr r → (e : E) × (r ≡ err e)
err-of_IsErr (ok a) h = absurd h
err-of_IsErr (err e) h = (e, refl)

-- A success satisfies `P`; nothing is said of an error.
abbrev pub Ensures {ℓ κ ρ} : {E : Type ℓ} {A : Type κ} → (A → Type ρ) → Result E A → Type ρ
Ensures P (ok a) = P a
Ensures P (err e) = Unit

module _ {ℓ κ ρ} {E : Type ℓ} {A : Type κ} (P : A → Type ρ) where
  pub Ensures-ok : (r : Result E A) {a : A} → Ensures P r → r ≡ ok a → P a
  Ensures-ok (ok b) h e = subst (Ensures {E = E} P) e h
  Ensures-ok (err x) h e = cc

  pub ok-Ensures : (r : Result E A) → ((a : A) → r ≡ ok a → P a) → Ensures P r
  ok-Ensures (ok b) h = h b refl
  ok-Ensures (err x) h = tt

  pub Ensures->>= {σ τ} :
      {B : Type σ} (Q : B → Type τ) (m : Result E B) (f : B → Result E A)
      → Ensures Q m
      → ((b : B) → Q b → Ensures P (f b))
      → Ensures P (m >>= f)
  Ensures->>= Q (ok b) f h k = k b h
  Ensures->>= Q (err e) f h k = tt

  -- Past a test, and past a step whose value is not used.
  pub Ensures-ensure :
      (b : Bool) (e : E) (r : Result E A) → Ensures P r → Ensures P (ensure b e >> r)
  Ensures-ensure true e r h = h
  Ensures-ensure false e r h = tt

  pub Ensures->> : (m : Result E (Unit {0})) (r : Result E A) → Ensures P r → Ensures P (m >> r)
  Ensures->> (ok x) r h = h
  Ensures->> (err e) r h = tt

-- What `format!` puts together, piece by piece. Two messages with the same pieces render alike.
pub data Message : Type 0 where
  lit : String → Message
  bytes : List ℕ → Message
  num : ℕ → Message
  ◌⊕◌ : Message → Message → Message
