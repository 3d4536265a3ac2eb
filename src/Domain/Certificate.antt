-- ===== src/Domain/Certificate.antt =====
-- internal/core/domain/certificate.go and internal/core/adapters/default_cert_validator.go. A pointer
-- that may be nil is an option; the methods that read the clock take the time.
pub mod Expiry
pub mod Identity
use ephemos.Base.{
  ℕ, zero, suc, ◌+◌, ◌-◌, ◌≤◌, ◌<◌, ◌≡◌, refl, sym, ap, ◌∙◌, ◌≢◌, ◌↔◌, ◌⊎◌, inl, inr, Bool, true,
  false, not, ◌&&◌, ◌||◌, Option, none, some, List, [], ◌∷◌, ◌++◌, map, arith, ltb, leb, ◌==◌,
  if◌then◌else◌, Bool-cases, Option-cases, Result, ok, err, fail_if, wrap, ◌>>=◌, ◌>>◌, length, All,
}
use ephemos.Base.Int.{ℤ, pos, leb_ℤ}
use ephemos.GoText.{Text, text, text_eq}
use ephemos.GoTime.{Time, Duration, before, after, sub_time, add_time}
use ephemos.Domain.Keys.{
  Signer, nil_signer, ecdsa_signer, other_signer, KeyError, Key, validate_key_pair_matching,
  extract_public_key_from_signer,
}
use ephemos.Domain.X509.{X509, Verifier}
use ephemos.Domain.Spiffe.{Sdk, SpiffeId, Uri, id_string}
use ephemos.Domain.Namespace.{last_segment}
use ephemos.Domain.Identity.{
  ServiceIdentity, IdentityError, identity_equal, identity_to_spiffe_id,
  new_service_identity_validated,
}
use ephemos.Domain.TrustBundle.{TrustBundle, raw_certificates}

pub record Certificate : Type 0 where
  pub cert : Option X509
  pub private_key : Option Signer
  pub chain : List X509

pub record Options : Type 0 where
  pub expected : Option ServiceIdentity
  pub warning_threshold : Duration
  pub bundle : Option TrustBundle
  pub skip_expiry : Bool
  pub skip_chain_verify : Bool

-- `CertValidationOptions{}`.
abbrev pub no_options : Options
no_options = record {
  expected = none;
  warning_threshold = pos 0;
  bundle = none;
  skip_expiry = false;
  skip_chain_verify = false;
}

pub data CertError : Type 0 where
  nil_cert nil_private_key no_spiffe_uri bad_spiffe_uri verification_failed : CertError
  not_yet_valid expired expected_id identity_mismatch : CertError
  key_error : KeyError → CertError
  identity_error : IdentityError → CertError

abbrev pub is_nil_key : Option Signer → Bool
is_nil_key none = true
is_nil_key (some nil_signer) = true
is_nil_key (some (ecdsa_signer k)) = false
is_nil_key (some (other_signer k)) = false

unfoldable pub is_expired : Time → Certificate → Bool
is_expired now c = elim c.cert [ none ↦ true | some x ↦ after now x.not_after ]

-- The zero time for a nil certificate.
unfoldable pub cert_expires_at : Certificate → Time
cert_expires_at c = elim c.cert [ none ↦ 0 | some x ↦ x.not_after ]

unfoldable pub time_to_expiry : Time → Certificate → Duration
time_to_expiry now c = elim c.cert [ none ↦ pos 0 | some x ↦ sub_time x.not_after now ]

unfoldable pub is_expiring_within : Time → Duration → Certificate → Bool
is_expiring_within now threshold c = elim c.cert [
  | none ↦ true
  | some x ↦ leb_ℤ (sub_time x.not_after now) threshold
]

unfoldable pub is_expiring_soon : Time → Duration → Certificate → Bool
is_expiring_soon now threshold c = elim c.cert [
  | none ↦ true
  | some x ↦ after (add_time now threshold) x.not_after
]

-- The private key's public half, and its match with the certificate.
unfoldable pub check_key_pair : X509 → Signer → Result CertError (Unit {0})
check_key_pair x s = do
  key ← wrap key_error (extract_public_key_from_signer s)
  wrap key_error (validate_key_pair_matching x.public_key key)

unfoldable pub check_expiry : Time → X509 → Result CertError (Unit {0})
check_expiry now x = do
  fail_if (before now x.not_before) not_yet_valid
  fail_if (after now x.not_after) expired
  ok tt

-- The first URI with the scheme of SPIFFE.
unfoldable pub spiffe_uri : List Uri → Option Uri
spiffe_uri [] = none
spiffe_uri (u ∷ us) =
    let later = spiffe_uri us in if text_eq u.uri_scheme (text "spiffe") then some u else later

module _ (sdk : Sdk) where
  abbrev read_uri : Option Uri → Result CertError SpiffeId
  read_uri none = err no_spiffe_uri
  read_uri (some u) = elim (sdk.from_uri u) [ none ↦ err bad_spiffe_uri | some id ↦ ok id ]

  unfoldable pub to_spiffe_id : Certificate → Result CertError SpiffeId
  to_spiffe_id c = elim c.cert [ none ↦ err nil_cert | some x ↦ read_uri (spiffe_uri x.uris) ]

  unfoldable pub to_service_identity : Certificate → Result CertError ServiceIdentity
  to_service_identity c = do
    id ← to_spiffe_id c
    wrap identity_error (new_service_identity_validated sdk (last_segment id.path) id.domain)

  abbrev match_service :
      ServiceIdentity → Result CertError ServiceIdentity → Result CertError (Unit {0})
  match_service expected (err e) = err e
  match_service expected (ok actual) =
      fail_if (not (identity_equal (some actual) (some expected))) identity_mismatch

  -- The identity check without a trust bundle.
  unfoldable pub check_service_identity :
      Certificate → Option ServiceIdentity → Result CertError (Unit {0})
  check_service_identity c none = ok tt
  check_service_identity c (some expected) = match_service expected (to_service_identity c)

  -- The identity check of a verified chain: the printed IDs are compared.
  unfoldable pub check_spiffe_id : SpiffeId → Option ServiceIdentity → Result CertError (Unit {0})
  check_spiffe_id id none = ok tt
  check_spiffe_id id (some expected) = elim (identity_to_spiffe_id sdk expected) [
    | none ↦ err expected_id
    | some e ↦ fail_if (not (text_eq (id_string id) (id_string e))) identity_mismatch
  ]

  unfoldable pub validate_basic_without_trust :
      Time → Certificate → X509 → Signer → Options → Result CertError (Unit {0})
  validate_basic_without_trust now c x s opts = do
    check_key_pair x s
    (if opts.skip_expiry then ok tt else check_expiry now x)
    check_service_identity c opts.expected

  module _ (v : Verifier) where
    -- `createBundleSource` and `ParseAndVerify`: the bundle's certificates stand for the domain of the
    -- certificate's own ID.
    unfoldable pub verify_with_bundle :
        Time → Certificate → X509 → TrustBundle → Result CertError SpiffeId
    verify_with_bundle now c x b = do
      own ← to_spiffe_id c
      elim (v.parse_and_verify (x.raw ∷ map (λ y. y.raw) c.chain) own.domain
          (raw_certificates b.certificates) now) [
            | none ↦ err verification_failed
            | some id ↦ ok id
          ]

    unfoldable pub validate_with_bundle :
        Time → Certificate → X509 → Signer → Options → TrustBundle → Result CertError (Unit {0})
    validate_with_bundle now c x s opts b = do
      id ← verify_with_bundle now c x b
      check_key_pair x s
      check_spiffe_id id opts.expected

    -- With a bundle, unless the chain's verification is skipped; without one otherwise.
    unfoldable pub validate_present :
        Time
        → Certificate
        → X509
        → Signer
        → Options
        → Option TrustBundle
        → Bool
        → Result CertError (Unit {0})
    validate_present now c x s opts (some b) false = validate_with_bundle now c x s opts b
    validate_present now c x s opts none skip = validate_basic_without_trust now c x s opts
    validate_present now c x s opts (some b) true = validate_basic_without_trust now c x s opts

    abbrev validate_parts :
        Time → Certificate → Options → Option X509 → Option Signer → Result CertError (Unit {0})
    validate_parts now c opts none key = err nil_cert
    validate_parts now c opts (some x) none = err nil_private_key
    validate_parts now c opts (some x) (some s) = do
      fail_if (is_nil_key (some s)) nil_private_key
      validate_present now c x s opts opts.bundle opts.skip_chain_verify

    unfoldable pub validate : Time → Certificate → Options → Result CertError (Unit {0})
    validate now c opts = validate_parts now c opts c.cert c.private_key

    -- `DefaultCertValidator.Validate`, of a pointer.
    unfoldable pub default_validator :
        Time → Option Certificate → Options → Result CertError (Unit {0})
    default_validator now none opts = err nil_cert
    default_validator now (some c) opts = validate now c opts

    -- `NewCertificateWithValidation`; `NewCertificate` is the case with validation.
    unfoldable pub new_certificate_with_validation :
        Time → Option X509 → Option Signer → List X509 → Bool → Result CertError Certificate
    new_certificate_with_validation now cert key chain true = do
      validate now (record { cert = cert; private_key = key; chain = chain }) no_options
      ok (record { cert = cert; private_key = key; chain = chain })
    new_certificate_with_validation now cert key chain false =
        ok (record { cert = cert; private_key = key; chain = chain })
