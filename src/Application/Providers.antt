-- ===== src/Application/Providers.antt =====
-- x509svid.SVID, and what the ports IdentityProviderPort and BundleProviderPort
-- (internal/core/ports/identity_provider_port.go) answer to the calls of one operation.
pub mod Laws
use ephemos.Base.{true, Option, some, List, Result, wrap}
use ephemos.GoText.{Text}
use ephemos.GoTime.{Time}
use ephemos.Domain.X509.{X509, Verifier}
use ephemos.Domain.Keys.{Signer}
use ephemos.Domain.Namespace.{NamespaceError}
use ephemos.Domain.TrustBundle.{BundleError}
use ephemos.Domain.Spiffe.{Sdk, SpiffeId}
use ephemos.Domain.Certificate.{Certificate, CertError, new_certificate_with_validation}

pub record Svid : Type 0 where
  pub id : SpiffeId
  pub certificates : List X509
  pub svid_key : Option Signer

pub record Answers : Type 0 where
  -- `RefreshIdentity`.
  pub refresh_identity : Result Text (Unit {0})
  -- `GetSVID`, of a pointer.
  pub svid : Result Text (Option Svid)
  -- `GetTrustBundle`, whose bundle the callers drop.
  pub trust_bundle : Result Text (Unit {0})
  -- `ValidateCertificateAgainstBundle`.
  pub trusted : Certificate → Result Text (Unit {0})

pub data AppError : Type 0 where
  no_identity_provider no_bundle_provider : AppError
  already_running not_running nil_svid no_certificates no_current current_expired : AppError
  not_newer panic : AppError
  get_svid refresh get_bundle not_trusted : Text → AppError
  bad_certificate : CertError → AppError
  -- Of the authentication service.
  cancelled nil_peer identity_mismatch peer_expired : AppError
  gave_up : Option Text → AppError
  refreshed_svid domain_bundle peer_not_trusted : Text → AppError
  bad_peer no_peer_id : CertError → AppError
  bad_target : NamespaceError → AppError
  bad_bundle : BundleError → AppError

-- The service's outside: the SDK, the verification of chains.
pub record Outside : Type 0 where
  pub sdk : Sdk
  pub verifier : Verifier

-- `domain.NewCertificate` of an SVID's leaf, key and other certificates.
abbrev pub certificate_of :
    Outside → Time → X509 → List X509 → Option Signer → Result AppError Certificate
certificate_of o now leaf rest key =
    wrap bad_certificate
      (new_certificate_with_validation o.sdk o.verifier now (some leaf) key rest true)
