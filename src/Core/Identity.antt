-- ===== src/Core/Identity.antt =====
-- crates/are-core/src/identity.rs: machine identities and enrolment credentials. Times are texts that
-- the order of bytes compares.
use are.Base.{
  ℕ, ◌≡◌, ◌≢◌, refl, ◌↔◌, inl, inr, Bool, true, false, not, ◌&&◌, ◌||◌, [], ◌∷◌, ◌++◌, Str, ascii,
  arith, all, length, is_empty, starts_with, strip_prefix, strip_prefix_iff, lit, num, Result, ok,
  ensure, ok_or, ◌>>=◌, ◌>>◌, >>=-eq-ok, eqb, ltb, if◌then◌else◌, Option-cases,
}
use are.Core.Error.{CoreError, invalid_identity, ◌<+>◌}
use are.Core.Ids.{EnvironmentId}
use are.Core.Capability.{CapabilitySet}
use are.Core.Request.{is_hexdigit}

pub record MachineIdentity : Type 0 where
  pub id : Str
  pub public_key_fingerprint : Str
  pub certificate_pem : Str

abbrev pub fingerprint_prefix : Str
fingerprint_prefix = ascii "sha256:"

abbrev pub fingerprint_hex_len : ℕ
fingerprint_hex_len = 64

unfoldable pub validate_machine_fingerprint : Str → Result CoreError (Unit {0})
validate_machine_fingerprint fingerprint = do
  rest ←
      ok_or (strip_prefix fingerprint_prefix fingerprint)
        (invalid_identity (lit "fingerprint must start with `sha256:`"))
  ensure (eqb (length rest) fingerprint_hex_len) (
      invalid_identity
        (lit "fingerprint hex part must be 64 characters, got " <+> num (length rest)))
  ensure (all is_hexdigit rest)
      (invalid_identity (lit "fingerprint hex part contains non-hex characters"))

unfoldable pub try_new_identity : Str → Str → Str → Result CoreError MachineIdentity
unfolding validate_machine_fingerprint
try_new_identity id fingerprint cert = do
  ensure (not (is_empty id)) (invalid_identity (lit "machine id must not be empty"))
  validate_machine_fingerprint fingerprint
  ensure (not (is_empty cert || not (starts_with (ascii "-----BEGIN") cert)))
      (invalid_identity (lit "certificate_pem must be a valid PEM block"))
  ok (record { id = id; public_key_fingerprint = fingerprint; certificate_pem = cert })

pub record EnrollmentCredential : Type 0 where
  pub token : Str
  pub environment_id : EnvironmentId
  pub capabilities : CapabilitySet
  pub expires_at : Str
  pub single_use : Bool
  pub issued_at : Str

unfoldable pub try_new_credential :
    Str → EnvironmentId → CapabilitySet → Str → Str → Result CoreError EnrollmentCredential
try_new_credential token environment_id capabilities expires_at issued_at = do
  ensure (not (is_empty token)) (invalid_identity (lit "enrollment token must not be empty"))
  ensure (not (is_empty expires_at)) (invalid_identity (lit "expires_at must not be empty"))
  ok (record {
    token = token;
    environment_id = environment_id;
    capabilities = capabilities;
    expires_at = expires_at;
    single_use = true;
    issued_at = issued_at;
  })

-- The order of `str`.
unfoldable pub str_leb : Str → Str → Bool
str_leb [] t = true
str_leb (a ∷ s) [] = false
str_leb (a ∷ s) (b ∷ t) =
    let rest = str_leb s t in if ltb a b then true else if eqb a b then rest else false

unfoldable pub is_credential_expired : EnrollmentCredential → Str → Bool
is_credential_expired credential now = str_leb credential.expires_at now

unfoldable pub validate_credential : EnrollmentCredential → Str → Bool → Result CoreError (Unit {0})
validate_credential credential now consumed = do
  ensure (not (is_credential_expired credential now))
      (invalid_identity (lit "enrollment credential has expired"))
  ensure (not (credential.single_use && consumed))
      (invalid_identity (lit "enrollment credential has already been consumed"))

-- A credential that was made is accepted at a time exactly when the time is before its expiry and it
-- has not been consumed.
pub validate_credential_iff :
    (token : Str) (environment_id : EnvironmentId) (capabilities : CapabilitySet)
    (expires_at issued_at now : Str) (consumed : Bool) (credential : EnrollmentCredential)
    → try_new_credential token environment_id capabilities expires_at issued_at ≡ ok credential
    → (validate_credential credential now consumed ≡ ok tt)
      ↔ ((str_leb expires_at now ≡ false) × (consumed ≡ false))
unfolding try_new_credential validate_credential is_credential_expired
validate_credential_iff token environment_id capabilities expires_at issued_at now consumed
      credential made =
    ground arith

abbrev pub IsFingerprint : Str → Type 0
IsFingerprint fingerprint =
    (hex : Str) × ((fingerprint ≡ fingerprint_prefix ++ hex)
      × (length hex ≡ 64)
      × (all is_hexdigit hex ≡ true))

IsFingerprint-sound :
    (fingerprint : Str)
    → validate_machine_fingerprint fingerprint ≡ ok tt
    → IsFingerprint fingerprint
unfolding validate_machine_fingerprint
IsFingerprint-sound fingerprint e =
    elim (Option-cases (strip_prefix fingerprint_prefix fingerprint)) [
      | inl other ↦ absurd (cc (rw (other) at e))
      | inr (hex, found) ↦ (
        hex,
        (
          (strip_prefix_iff fingerprint_prefix fingerprint hex).0 found,
          ground (arith, rw (found) at e),
          ground (arith, rw (found) at e),
        ),
      )
    ]

IsFingerprint-complete :
    (fingerprint : Str)
    → IsFingerprint fingerprint
    → validate_machine_fingerprint fingerprint ≡ ok tt
unfolding validate_machine_fingerprint
IsFingerprint-complete fingerprint (hex, (e, size, digits)) =
    let found = (strip_prefix_iff fingerprint_prefix fingerprint hex).1 e in
    let fits : eqb (length hex) 64 ≡ true = ground arith in rw (found, fits, digits) refl

named_of : (reason : CoreError) (id : Str) → ensure (not (is_empty id)) reason ≡ ok tt → id ≢ []
named_of reason [] e = cc
named_of reason (c ∷ id) e = λ f. cc

not_empty : (id : Str) → id ≢ [] → is_empty id ≡ false
not_empty [] h = absurd (h refl)
not_empty (c ∷ id) h = refl

pem_of :
    (reason : CoreError) (cert : Str)
    → ensure (not (is_empty cert || not (starts_with (ascii "-----BEGIN") cert))) reason ≡ ok tt
    → starts_with (ascii "-----BEGIN") cert ≡ true
pem_of reason cert e = ground arith

pem_there :
    (cert : Str)
    → starts_with (ascii "-----BEGIN") cert ≡ true
    → (is_empty cert || not (starts_with (ascii "-----BEGIN") cert)) ≡ false
pem_there [] h = cc
pem_there (c ∷ cert) h = rw (h) refl

-- An identity is made exactly from an id that is not empty, a fingerprint of the prefix and
-- sixty-four hexadecimal digits, and a certificate that begins as a PEM block does.
pub try_new_identity_iff :
    (id fingerprint cert : Str)
    → ((made : MachineIdentity) × (try_new_identity id fingerprint cert ≡ ok made))
      ↔ ((id ≢ []) × IsFingerprint fingerprint × (starts_with (ascii "-----BEGIN") cert ≡ true))
unfolding try_new_identity
try_new_identity_iff id fingerprint cert = (
  (λ (made, e).
      let (u, named, e1) = >>=-eq-ok (ensure (not (is_empty id)) _) _ e in
      let (v, valid, e2) = >>=-eq-ok (validate_machine_fingerprint fingerprint) _ e1 in
      let (w, pem, e3) =
        >>=-eq-ok (ensure (not (is_empty cert || not (starts_with (ascii "-----BEGIN") cert))) _) _
          e2 in
      (named_of _ id named, IsFingerprint-sound fingerprint valid, pem_of _ cert pem)),
  λ (named, valid, pem). (
    record { id = id; public_key_fingerprint = fingerprint; certificate_pem = cert },
    rw (not_empty id named, IsFingerprint-complete fingerprint valid, pem_there cert pem) refl,
  ),
)
