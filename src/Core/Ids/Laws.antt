-- ===== src/Core/Ids/Laws.antt =====
-- crates/are-core/src/ids.rs: which texts are identifiers, and what the allocation gives.
use are.Base.{
  ℕ, ◌*◌, ◌/◌, ◌%◌, ◌≤◌, ◌<◌, ◌≡◌, refl, ◌≢◌, ◌↔◌, ◌⊎◌, true, List, [], ◌∷◌, Str, ascii, all,
  length, All, All-append, ok, arith,
}
use are.Core.Ids.{
  SessionId, is_valid_id_byte, validate_id_bytes, try_new_session_id, hex_digit, hex,
  session_id_text,
}

-- A byte of `[a-z0-9-_.]`.
abbrev pub IsIdByte : ℕ → Type 0
IsIdByte b =
    ((b'a' ≤ b) × (b ≤ b'z')) ⊎ ((b'0' ≤ b) × (b ≤ b'9')) ⊎ (b ≡ b'-') ⊎ (b ≡ b'_') ⊎ (b ≡ b'.')

pub record IsValidId (raw : Str) : Type 0 where
  pub present : raw ≢ []
  pub short : length raw ≤ 64
  pub plain : All IsIdByte raw

is_valid_id_byte_iff : (b : ℕ) → (is_valid_id_byte b ≡ true) ↔ IsIdByte b
unfolding is_valid_id_byte
is_valid_id_byte_iff b = ground arith

plain_iff : (raw : Str) → (all is_valid_id_byte raw ≡ true) ↔ All IsIdByte raw
plain_iff [] = (λ _. tt, λ _. refl)
plain_iff (b ∷ raw) = ground (arith, is_valid_id_byte_iff b, plain_iff raw)

pub validate_id_bytes_iff : (raw : Str) → (validate_id_bytes raw ≡ ok tt) ↔ IsValidId raw
unfolding validate_id_bytes
validate_id_bytes_iff [] = (λ h. cc, λ v. absurd (v.present refl))
validate_id_bytes_iff (b ∷ raw) = (
  λ h. record {
    present = λ e. cc;
    short = ground arith;
    plain = (plain_iff (b ∷ raw)).0 (ground arith);
  },
  λ v. ground (arith, (plain_iff (b ∷ raw)).1 v.plain, v.short),
)

-- A session id is accepted, unchanged, exactly when it is not empty, has at most 64 bytes, and
-- holds only bytes of `[a-z0-9-_.]`.
pub try_new_session_id_iff :
    (raw : Str) (id : SessionId) → (try_new_session_id raw ≡ ok id) ↔ (IsValidId raw × (id ≡ raw))
unfolding try_new_session_id
try_new_session_id_iff raw id = ground (arith, validate_id_bytes_iff raw)

hex_digit-IsIdByte : (n : ℕ) → IsIdByte (hex_digit n)
unfolding hex_digit
hex_digit-IsIdByte n = ground arith

hex-IsIdByte : (random : List ℕ) → All IsIdByte (hex random)
unfolding hex
hex-IsIdByte [] = tt
hex-IsIdByte (b ∷ rest) =
    (hex_digit-IsIdByte (b / 16), (hex_digit-IsIdByte (b % 16), hex-IsIdByte rest))

length-hex : (random : List ℕ) → length (hex random) ≡ 2 * length random
unfolding hex
length-hex [] = omega arith
length-hex (b ∷ rest) = omega (arith, length-hex rest)

hex_digit-injective : (m n : ℕ) → m < 16 → n < 16 → hex_digit m ≡ hex_digit n → m ≡ n
unfolding hex_digit
hex_digit-injective m n h k e = ground arith

hex-injective : (r s : List ℕ) → All (λ b. b < 256) r → All (λ b. b < 256) s → hex r ≡ hex s → r ≡ s
unfolding hex
hex-injective [] [] h k e = refl
hex-injective [] (b ∷ s) h k e = cc
hex-injective (a ∷ r) [] h k e = cc
hex-injective (a ∷ r) (b ∷ s) (ha, h) (hb, k) e = ground (
  arith,
  hex_digit-injective (a / 16) (b / 16),
  hex_digit-injective (a % 16) (b % 16),
  hex-injective r s h k,
)

-- Sixteen random bytes always give a valid session id, so `alloc_session_id` fails only if the
-- random source does.
pub session_id_text_valid :
    (random : List ℕ)
    → length random ≡ 16
    → (try_new_session_id (session_id_text random) ≡ ok (session_id_text random))
unfolding hex
session_id_text_valid random h = (try_new_session_id_iff _ _).1 (
  record {
    present = λ e. cc;
    short = omega (arith, length-hex random);
    plain = All-append IsIdByte (ascii "sess-") (hex random) (omega arith) (hex-IsIdByte random);
  },
  refl,
)

-- Different random bytes give different session ids.
pub session_id_text-injective :
    (r s : List ℕ)
    → All (λ b. b < 256) r
    → All (λ b. b < 256) s
    → session_id_text r ≡ session_id_text s
    → r ≡ s
session_id_text-injective r s h k e = hex-injective r s h k (ground arith)
