-- ===== src/Middleware.antt =====
-- contrib/middleware/gin/identity.go: the identity of a client in an HTTP server. A handler ends a request
-- with a status, or goes on.
pub mod Admission
use ephemos.Base.{
  ℕ, zero, suc, ◌+◌, ◌-◌, ◌≤◌, ◌<◌, ◌≡◌, refl, sym, ap, ◌∙◌, ◌≢◌, ◌↔◌, ◌⊎◌, inl, inr, Bool, true,
  false, not, ◌&&◌, ◌||◌, Option, none, some, List, [], ◌∷◌, ◌++◌, map, arith, ltb, leb, ◌==◌,
  if◌then◌else◌, Bool-cases, Option-cases, Result, ok, err, fail_if, wrap, ◌>>=◌, ◌>>◌, length, All,
}
use ephemos.GoText.{Text, text, text_eq, trim_prefix, split_on}
use ephemos.Domain.X509.{X509}
use ephemos.Domain.Spiffe.{Sdk, SpiffeId, Uri}
use ephemos.Domain.Namespace.{last_part}
use ephemos.Domain.Certificate.{spiffe_uri}

pub record PeerIdentity : Type 0 where
  pub peer_id : Text
  pub peer_name : Text
  pub peer_domain : Text

pub record IdentityConfig : Type 0 where
  pub require_client_cert : Bool
  -- None means all.
  pub trust_domains : List Text

pub data MiddlewareError : Type 0 where
  no_spiffe_id invalid_id domain_not_allowed : MiddlewareError

-- The statuses 400, 401 and 403.
pub data HttpStatus : Type 0 where
  bad_request unauthorized forbidden : HttpStatus

-- `extractServiceName`.
unfoldable pub extract_service_name : Text → Text
extract_service_name path =
    if text_eq path [] then [] else last_part (split_on b'/' (trim_prefix (text "/") path))

-- Whether one of the texts is the first one.
unfoldable pub is_among : Text → List Text → Bool
is_among s [] = false
is_among s (t ∷ ts) = text_eq s t || is_among s ts

abbrev pub domain_allowed : Text → List Text → Bool
domain_allowed d [] = true
domain_allowed d (t ∷ ts) = is_among d (t ∷ ts)

abbrev pub uri_text : Option Uri → Text
uri_text none = []
uri_text (some u) = u.whole

abbrev pub parsed : Option SpiffeId → Result MiddlewareError SpiffeId
parsed none = err invalid_id
parsed (some id) = ok id

-- `validateClientCertificate`.
unfoldable pub validate_client_certificate :
    Sdk → IdentityConfig → X509 → Result MiddlewareError PeerIdentity
validate_client_certificate sdk config c = do
  fail_if (text_eq (uri_text (spiffe_uri c.uris)) []) no_spiffe_id
  id ← parsed (sdk.from_string (uri_text (spiffe_uri c.uris)))
  fail_if (not (domain_allowed id.domain config.trust_domains)) domain_not_allowed
  ok (record {
    peer_id = uri_text (spiffe_uri c.uris);
    peer_name = extract_service_name id.path;
    peer_domain = id.domain;
  })

abbrev pub required : Bool → HttpStatus → Result HttpStatus (Option PeerIdentity)
required true status = err status
required false status = ok none

abbrev pub identified :
    Result MiddlewareError PeerIdentity → Result HttpStatus (Option PeerIdentity)
identified (err e) = err unauthorized
identified (ok i) = ok (some i)

-- `IdentityMiddleware`, of the peer's certificates, if the request came by TLS, with the identity that
-- it puts into the context.
unfoldable pub identity_middleware :
    Sdk → IdentityConfig → Option (List X509) → Result HttpStatus (Option PeerIdentity)
identity_middleware sdk config none = required config.require_client_cert bad_request
identity_middleware sdk config (some []) = required config.require_client_cert unauthorized
identity_middleware sdk config (some (c ∷ cs)) =
    identified (validate_client_certificate sdk config c)

-- `RequireIdentity`.
unfoldable pub require_identity : Option PeerIdentity → Result HttpStatus (Unit {0})
require_identity none = err unauthorized
require_identity (some i) = ok tt

-- `RequireService`.
unfoldable pub require_service : List Text → Option PeerIdentity → Result HttpStatus (Unit {0})
require_service names none = err unauthorized
require_service names (some i) = fail_if (not (is_among i.peer_name names)) forbidden

-- `RequireTrustDomain`.
unfoldable pub require_trust_domain : List Text → Option PeerIdentity → Result HttpStatus (Unit {0})
require_trust_domain domains none = err unauthorized
require_trust_domain domains (some i) = fail_if (not (is_among i.peer_domain domains)) forbidden
