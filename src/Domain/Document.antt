-- ===== src/Domain/Document.antt =====
-- internal/core/domain/identity_document.go. A method that reads the clock takes the time; a method that
-- writes the document returns it. The lists hold no nil certificates.
pub mod Laws
use ephemos.Base.{
  ℕ, zero, suc, ◌+◌, ◌-◌, ◌≤◌, ◌<◌, ◌≡◌, refl, sym, ap, ◌∙◌, ◌≢◌, ◌↔◌, ◌⊎◌, inl, inr, Bool, true,
  false, not, ◌&&◌, ◌||◌, Option, none, some, List, [], ◌∷◌, ◌++◌, map, arith, ltb, leb, ◌==◌,
  if◌then◌else◌, Bool-cases, Option-cases, Result, ok, err, fail_if, wrap, ◌>>=◌, ◌>>◌, length, All,
}
use ephemos.GoText.{Text}
use ephemos.GoTime.{Time, Duration, before, after, sub_time}
use ephemos.Domain.X509.{X509, Verifier}
use ephemos.Domain.Keys.{Signer}
use ephemos.Domain.Spiffe.{Sdk, id_string}
use ephemos.Domain.TrustDomain.{TrustDomain}
use ephemos.Domain.Namespace.{Namespace, NamespaceError, new_namespace_from_string}
use ephemos.Domain.Identity.{ServiceIdentity}
use ephemos.Domain.TrustBundle.{TrustBundle, BundleError, new_trust_bundle}
use ephemos.Domain.Certificate.{
  Certificate, Options, CertError, no_options, is_expiring_soon, to_spiffe_id, to_service_identity,
  validate, new_certificate_with_validation,
}

pub record IdentityDocument : Type 0 where
  pub certificate : Option Certificate
  pub issued_at : Time
  pub valid_until : Time
  pub subject : Text
  pub issuer : Text
  pub validated : Bool
  pub last_checked : Time

pub data DocumentError : Type 0 where
  empty_chain nil_private_key nil_certificate nil_bundle not_yet_valid expired : DocumentError
  invalid_certificate no_spiffe_id : CertError → DocumentError
  invalid_bundle : BundleError → DocumentError
  invalid_namespace : NamespaceError → DocumentError

abbrev pub with_bundle : TrustBundle → Options
with_bundle b = record no_options { bundle = some b }

-- The document of a certificate and its leaf.
abbrev pub document_of : Time → Certificate → X509 → IdentityDocument
document_of now c leaf = record {
  certificate = some c;
  issued_at = leaf.not_before;
  valid_until = leaf.not_after;
  subject = leaf.subject;
  issuer = leaf.issuer;
  validated = true;
  last_checked = now;
}

unfoldable pub get_private_key : IdentityDocument → Option Signer
get_private_key d = elim d.certificate [ none ↦ none | some c ↦ c.private_key ]

-- `GetCertificateChain`: the leaf may be nil.
unfoldable pub get_certificate_chain : IdentityDocument → List (Option X509)
get_certificate_chain d = elim d.certificate [ none ↦ [] | some c ↦ c.cert ∷ map some c.chain ]

unfoldable pub get_leaf_certificate : IdentityDocument → Option X509
get_leaf_certificate d = elim d.certificate [ none ↦ none | some c ↦ c.cert ]

unfoldable pub document_is_expired : Time → IdentityDocument → Bool
document_is_expired now d = after now d.valid_until

unfoldable pub document_is_expiring_soon : Time → Duration → IdentityDocument → Bool
document_is_expiring_soon now threshold d = elim d.certificate [
  | none ↦ true
  | some c ↦ is_expiring_soon now threshold c
]

-- `IsValid`.
unfoldable pub document_is_valid : Time → IdentityDocument → Bool
unfolding document_is_expired
document_is_valid now d = elim d.certificate [
  | none ↦ false
  | some c ↦
      if document_is_expired now d
      then false
      else if before now d.issued_at
      then false
      else d.validated
]

unfoldable pub document_time_until_expiry : Time → IdentityDocument → Duration
document_time_until_expiry now d = sub_time d.valid_until now

module _ (sdk : Sdk) where
  abbrev pub certificate_namespace : Certificate → Result DocumentError Namespace
  certificate_namespace c = do
    id ← wrap no_spiffe_id (to_spiffe_id sdk c)
    wrap invalid_namespace (new_namespace_from_string sdk (id_string id))

  abbrev namespace_of : Option Certificate → Result DocumentError Namespace
  namespace_of none = err nil_certificate
  namespace_of (some c) = certificate_namespace c

  -- `GetIdentityNamespace`.
  unfoldable pub get_identity_namespace : IdentityDocument → Result DocumentError Namespace
  get_identity_namespace d = namespace_of d.certificate

  -- `GetTrustDomain`.
  unfoldable pub get_trust_domain : IdentityDocument → Result DocumentError TrustDomain
  unfolding get_identity_namespace
  get_trust_domain d = do n ← get_identity_namespace d; ok n.domain

  abbrev identity_of : Option Certificate → Result DocumentError ServiceIdentity
  identity_of none = err nil_certificate
  identity_of (some c) = wrap invalid_certificate (to_service_identity sdk c)

  -- `GetServiceIdentity`.
  unfoldable pub get_service_identity : IdentityDocument → Result DocumentError ServiceIdentity
  get_service_identity d = identity_of d.certificate

  module _ (v : Verifier) where
    -- The check against a CA, if one is given.
    abbrev pub check_ca : Time → Certificate → Option X509 → Result DocumentError (Unit {0})
    check_ca now c none = ok tt
    check_ca now c (some ca) = do
      b ← wrap invalid_bundle (new_trust_bundle now (some ca ∷ []))
      wrap invalid_certificate (validate sdk v now c (with_bundle b))

    abbrev pub build :
        Time
        → X509
        → List X509
        → Option Signer
        → Option X509
        → Result DocumentError IdentityDocument
    build now leaf rest key ca = do
      c ←
          wrap invalid_certificate
            (new_certificate_with_validation sdk v now (some leaf) key rest true)
      check_ca now c ca
      ok (document_of now c leaf)

    -- `NewIdentityDocument`, and `NewIdentityDocumentFromConfig`.
    unfoldable pub new_identity_document :
        Time → List X509 → Option Signer → Option X509 → Result DocumentError IdentityDocument
    new_identity_document now [] key ca = err empty_chain
    new_identity_document now (leaf ∷ rest) none ca = err nil_private_key
    new_identity_document now (leaf ∷ rest) (some s) ca = build now leaf rest (some s) ca

    abbrev from_leaf : Time → Certificate → Option X509 → Result DocumentError IdentityDocument
    from_leaf now c none = err nil_certificate
    from_leaf now c (some leaf) = ok (document_of now c leaf)

    -- `NewIdentityDocumentFromCertificate`; a certificate that validates has a leaf.
    unfoldable pub new_document_from_certificate :
        Time → Option Certificate → Result DocumentError IdentityDocument
    new_document_from_certificate now none = err nil_certificate
    new_document_from_certificate now (some c) = do
      wrap invalid_certificate (validate sdk v now c no_options)
      from_leaf now c c.cert

    abbrev pub checked_at : Time → IdentityDocument → IdentityDocument
    checked_at now d = record d { validated = true; last_checked = now }

    -- The document behind a check: an error leaves it as it is.
    abbrev pub mark :
        Time
        → IdentityDocument
        → Result DocumentError (Unit {0})
        → IdentityDocument × Result DocumentError (Unit {0})
    mark now d (ok u) = (checked_at now d, ok tt)
    mark now d (err e) = (d, err e)

    abbrev check_bundle :
        Time → Option Certificate → Option TrustBundle → Result DocumentError (Unit {0})
    check_bundle now none b = err nil_certificate
    check_bundle now (some c) none = err nil_bundle
    check_bundle now (some c) (some b) =
        wrap invalid_certificate (validate sdk v now c (with_bundle b))

    -- `ValidateAgainstBundle`.
    unfoldable pub document_validate_against_bundle :
        Time
        → Option TrustBundle
        → IdentityDocument
        → IdentityDocument × Result DocumentError (Unit {0})
    document_validate_against_bundle now b d = mark now d (check_bundle now d.certificate b)

    abbrev pub check_document :
        Time → IdentityDocument → Option Certificate → Result DocumentError (Unit {0})
    check_document now d none = err nil_certificate
    check_document now d (some c) = do
      wrap invalid_certificate (validate sdk v now c no_options)
      id ← wrap no_spiffe_id (to_spiffe_id sdk c)
      fail_if (before now d.issued_at) not_yet_valid
      fail_if (after now d.valid_until) expired
      ok tt

    -- `Validate`.
    unfoldable pub document_validate :
        Time → IdentityDocument → IdentityDocument × Result DocumentError (Unit {0})
    document_validate now d = mark now d (check_document now d d.certificate)
