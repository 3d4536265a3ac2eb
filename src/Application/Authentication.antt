-- ===== src/Application/Authentication.antt =====
-- internal/core/application/authentication_service.go. A call is given what the ports answer to it.
pub mod Retry
pub mod Svids
pub mod Connections
use ephemos.Base.{
  ℕ, zero, suc, Bool, true, false, not, Option, none, some, List, [], ◌∷◌, map, if◌then◌else◌,
  Result, ok, err, fail_if, wrap, ◌>>=◌, ◌>>◌,
}
use ephemos.Base.Int.{ℤ, pos, negsuc}
use ephemos.GoText.{Text, text_eq}
use ephemos.GoTime.{Time, Duration, after}
use ephemos.Domain.X509.{X509}
use ephemos.Domain.Spiffe.{id_string}
use ephemos.Domain.TrustDomain.{TrustDomain}
use ephemos.Domain.Namespace.{new_namespace_from_string}
use ephemos.Domain.TrustBundle.{TrustBundle, new_trust_bundle}
use ephemos.Domain.Certificate.{Certificate, validate, no_options, to_spiffe_id}
use ephemos.Services.State.{Policy}
use ephemos.Application.Providers.{
  Svid, Answers, AppError, no_identity_provider, no_bundle_provider, nil_svid, no_certificates,
  panic, get_svid, get_bundle, Outside, certificate_of, cancelled, nil_peer, identity_mismatch,
  peer_expired, gave_up, refreshed_svid, domain_bundle, peer_not_trusted, bad_peer, no_peer_id,
  bad_target, bad_bundle,
}
use ephemos.Application.Rotation.{or_default, validate_chain, expires_within}

pub record AuthenticationConfig : Type 0 where
  pub with_identity_provider : Bool
  pub with_bundle_provider : Bool
  pub config_threshold : Duration
  pub config_retries : ℤ

pub record AuthenticationService : Type 0 where
  pub expiry_threshold : Duration
  pub max_retries : ℤ

-- `NewAuthenticationService`.
unfoldable pub new_authentication_service :
    AuthenticationConfig → Result AppError AuthenticationService
new_authentication_service c = do
  fail_if (not c.with_identity_provider) no_identity_provider
  fail_if (not c.with_bundle_provider) no_bundle_provider
  ok (record {
    expiry_threshold = or_default c.config_threshold (pos 300_000_000_000);
    max_retries = or_default c.config_retries (pos 3);
  })

-- What a refreshing loop is answered: the attempts, counted from 0, and whether the context ends in the
-- pause behind one.
pub record Refreshing : Type 0 where
  pub attempt : ℕ → Result Text (Unit {0})
  pub cut_short : ℕ → Bool

-- The loop, with the last error, the attempts that are left and the number of the next one.
unfoldable pub refresh_from : Refreshing → Option Text → ℕ → ℕ → Result AppError (Unit {0})
refresh_from b last zero i = err (gave_up last)
refresh_from b last (suc left) i = elim (b.attempt i) [
  | ok u ↦ ok tt
  | err e ↦ elim (b.cut_short i) [
    | true ↦ err cancelled
    | false ↦ refresh_from b (some e) left (suc i)
  ]
]

-- A negative number of retries is none.
abbrev pub attempts : ℤ → ℕ
attempts (pos n) = n
attempts (negsuc n) = 0

-- `refreshIdentityWithRetry`, and `refreshTrustBundleWithRetry`.
unfoldable pub refresh_with_retry : Refreshing → AuthenticationService → Result AppError (Unit {0})
refresh_with_retry b s = refresh_from b none (attempts s.max_retries) 0

-- `RefreshCredentials`.
unfoldable pub refresh_credentials :
    Refreshing → Refreshing → AuthenticationService → Result AppError (Unit {0})
refresh_credentials identity bundle s = do
  refresh_with_retry identity s
  refresh_with_retry bundle s

-- The SVID behind a refresh; one that fails is only logged.
abbrev pub behind_refresh :
    Result Text (Option Svid) → Svid → Result AppError (Unit {0}) → Result AppError (Option Svid)
behind_refresh second v (err e) = ok (some v)
behind_refresh second v (ok u) = wrap refreshed_svid second

-- Behind the check that there are certificates: an SVID that expires soon is refreshed.
abbrev pub refreshed_or_kept :
    Refreshing
    → Result Text (Option Svid)
    → AuthenticationService
    → Time
    → Svid
    → List X509
    → Result AppError (Option Svid)
refreshed_or_kept b second s now v [] = err no_certificates
refreshed_or_kept b second s now v (leaf ∷ rest) =
    if expires_within now s.expiry_threshold (leaf ∷ rest)
    then behind_refresh second v (refresh_with_retry b s)
    else ok (some v)

abbrev pub choose :
    Refreshing
    → Result Text (Option Svid)
    → AuthenticationService
    → Time
    → Option Svid
    → Result AppError (Option Svid)
choose b second s now none = err nil_svid
choose b second s now (some v) = refreshed_or_kept b second s now v v.certificates

-- The rest, of what was chosen: a nil SVID, or one without certificates, panics where its leaf is read,
-- behind the fetch of the trust bundle.
abbrev pub check_leaf : Outside → Time → Answers → Svid → List X509 → Result AppError Svid
check_leaf o now a v [] = wrap get_bundle a.trust_bundle >> err panic
check_leaf o now a v (leaf ∷ rest) = validate_chain o now a v (leaf ∷ rest)

abbrev pub check_chosen : Outside → Time → Answers → Option Svid → Result AppError Svid
check_chosen o now a none = wrap get_bundle a.trust_bundle >> err panic
check_chosen o now a (some v) = check_leaf o now a v v.certificates

-- `GetValidatedSVID`: `now` is the time of the check for expiry, `later` that of the validation, `second`
-- the answer to the second GetSVID.
unfoldable pub get_validated_svid :
    Outside
    → Time
    → Time
    → Answers
    → Refreshing
    → Result Text (Option Svid)
    → AuthenticationService
    → Result AppError Svid
get_validated_svid o now later a b second s = do
  v ← wrap get_svid a.svid
  chosen ← choose b second s now v
  check_chosen o later a chosen

pub record AuthenticatedConnection : Type 0 where
  pub certificate : Certificate
  pub trust_bundle : TrustBundle
  pub policy : Policy
  pub target_service : Text

-- The certificate of an SVID that GetValidatedSVID returned.
abbrev pub svid_certificate : Outside → Time → Svid → List X509 → Result AppError Certificate
svid_certificate o now v [] = err panic
svid_certificate o now v (leaf ∷ rest) = certificate_of o now leaf rest v.svid_key

-- The authorities of a bundle; a nil bundle panics.
abbrev pub authorities_of : Option (List X509) → Result AppError (List X509)
authorities_of none = err panic
authorities_of (some cs) = ok cs

-- `extractTrustDomain`.
unfoldable pub target_domain : Outside → Text → Result AppError TrustDomain
target_domain o target = do
  n ← wrap bad_target (new_namespace_from_string o.sdk target)
  ok n.domain

-- The connection of what GetValidatedSVID returned, with the answers for a domain.
abbrev pub connect :
    Outside
    → Time
    → (TrustDomain → Result Text (Option (List X509)))
    → Text
    → Result AppError Svid
    → Result AppError AuthenticatedConnection
connect o now bundles target validated = do
  v ← validated
  c ← svid_certificate o now v v.certificates
  d ← target_domain o target
  bundle ← wrap domain_bundle (bundles d)
  roots ← authorities_of bundle
  t ← wrap bad_bundle (new_trust_bundle now (map some roots))
  ok (record {
    certificate = c;
    trust_bundle = t;
    policy = record { identity = none; trust_domain = d; require_auth = true };
    target_service = target;
  })

-- `CreateAuthenticatedConnection`, which builds the connection at the last time.
unfoldable pub create_authenticated_connection :
    Outside
    → Time
    → Time
    → Time
    → Answers
    → Refreshing
    → Result Text (Option Svid)
    → (TrustDomain → Result Text (Option (List X509)))
    → Text
    → AuthenticationService
    → Result AppError AuthenticatedConnection
unfolding get_validated_svid
create_authenticated_connection o now later last a b second bundles target s =
    connect o last bundles target (get_validated_svid o now later a b second s)

abbrev peer_over : Time → Option X509 → Bool
peer_over now none = false
peer_over now (some leaf) = after now leaf.not_after

-- `ValidatePeerIdentity`.
unfoldable pub validate_peer_identity :
    Outside → Time → Time → Answers → Text → Option Certificate → Result AppError (Unit {0})
validate_peer_identity o now later a expected none = err nil_peer
validate_peer_identity o now later a expected (some c) = do
  wrap bad_peer (validate o.sdk o.verifier now c no_options)
  wrap peer_not_trusted (a.trusted c)
  id ← wrap no_peer_id (to_spiffe_id o.sdk c)
  fail_if (not (text_eq (id_string id) expected)) identity_mismatch
  fail_if (peer_over later c.cert) peer_expired
