-- ===== src/Adapters/Transport.antt =====
-- RotatableGRPCProvider of internal/adapters/secondary/transport/grpc_provider_rotatable.go, and the trust
-- domain capability that it is given (internal/adapters/secondary/config/trust_domain_adapter.go). A TLS
-- configuration is what it was made of.
pub mod Authorizers
use ephemos.Base.{
  ℕ, zero, suc, ◌+◌, ◌-◌, ◌≤◌, ◌<◌, ◌≡◌, refl, sym, ap, ◌∙◌, ◌≢◌, ◌↔◌, ◌⊎◌, inl, inr, Bool, true,
  false, not, ◌&&◌, ◌||◌, Option, none, some, List, [], ◌∷◌, ◌++◌, map, arith, ltb, leb, ◌==◌,
  if◌then◌else◌, Bool-cases, Option-cases, Result, ok, err, fail_if, wrap, ◌>>=◌, ◌>>◌, length, All,
}
use ephemos.GoText.{Text, text_eq}
use ephemos.Domain.Spiffe.{Sdk}
use ephemos.Domain.TrustDomain.{domain_is_zero, domain_string}
use ephemos.Services.State.{Policy}
use ephemos.Configuration.{Configuration}
use ephemos.Configuration.Environment.{Env, should_skip_certificate_validation}

-- `AuthorizeAny`, `AuthorizeMemberOf` of a domain, or a caller's own, by its number.
pub data Authorizer : Type 0 where
  authorize_any : Authorizer
  member_of : Text → Authorizer
  given : ℕ → Authorizer

pub data TransportError : Type 0 where
  nil_svid_source nil_bundle_source no_sources no_capability no_domain : TransportError
  bad_domain : Text → TransportError

-- `TrustDomainCapability`, with the answers of its two methods.
pub record Capability : Type 0 where
  pub service_domain : Text
  pub skips_validation : Bool

-- `configCapability`.
unfoldable pub config_capability : Env → Option Configuration → Capability
config_capability env none = record { service_domain = []; skips_validation = false }
config_capability env (some c) = record {
  service_domain = c.domain;
  skips_validation = should_skip_certificate_validation env;
}

abbrev pub parsed_domain : Sdk → Text → Result TransportError Text
parsed_domain sdk d = elim (sdk.trust_domain_from_string d) [
  | none ↦ err (bad_domain d)
  | some e ↦ ok e
]

-- `GetTrustDomain`.
unfoldable pub adapter_trust_domain : Option Capability → Result TransportError Text
adapter_trust_domain none = err no_capability
adapter_trust_domain (some c) =
    if text_eq c.service_domain [] then err no_domain else ok c.service_domain

-- `CreateDefaultAuthorizer`.
unfoldable pub create_default_authorizer :
    Sdk → Option Capability → Result TransportError Authorizer
create_default_authorizer sdk a = do
  d ← adapter_trust_domain a
  e ← parsed_domain sdk d
  ok (member_of e)

abbrev pub parses : Option Text → Bool
parses none = false
parses (some e) = true

-- `IsConfigured`.
unfoldable pub is_configured : Sdk → Option Capability → Bool
is_configured sdk none = false
is_configured sdk (some c) =
    if text_eq c.service_domain []
    then false
    else parses (sdk.trust_domain_from_string c.service_domain)

-- `ShouldSkipCertificateValidation`.
unfoldable pub adapter_skips : Option Capability → Bool
adapter_skips none = false
adapter_skips (some c) = c.skips_validation

-- What the provider asks of its trust provider.
pub record TrustProvider : Type 0 where
  pub skips : Bool
  pub default_authorizer : Result TransportError Authorizer

-- The adapter as a trust provider.
abbrev pub trust_provider_of : Sdk → Option Capability → TrustProvider
trust_provider_of sdk a = record {
  skips = adapter_skips a;
  default_authorizer = create_default_authorizer sdk a;
}

-- A source is a number that names it.
pub record GrpcProvider : Type 0 where
  pub svid_source : Option ℕ
  pub bundle_source : Option ℕ
  pub authorizer : Option Authorizer
  pub trust_provider : Option TrustProvider

-- `NewRotatableGRPCProvider`.
unfoldable pub new_rotatable_grpc_provider : Option TrustProvider → GrpcProvider
new_rotatable_grpc_provider t = record {
  svid_source = none;
  bundle_source = none;
  authorizer = none;
  trust_provider = t;
}

-- `SetSources`.
unfoldable pub set_sources :
    Option ℕ
    → Option ℕ
    → Option Authorizer
    → GrpcProvider
    → GrpcProvider × Result TransportError (Unit {0})
set_sources none bundle a p = (p, err nil_svid_source)
set_sources (some s) none a p = (p, err nil_bundle_source)
set_sources (some s) (some b) a p =
    (record p { svid_source = some s; bundle_source = some b; authorizer = a }, ok tt)

pub data TlsConfig : Type 0 where
  insecure : TlsConfig
  mtls_client mtls_server : ℕ → ℕ → Authorizer → TlsConfig

abbrev pub or_any : Result TransportError Authorizer → Authorizer
or_any (ok a) = a
or_any (err e) = authorize_any

-- `createSecureDefaultAuthorizer`.
unfoldable pub create_secure_default_authorizer : GrpcProvider → Authorizer
create_secure_default_authorizer p = elim p.trust_provider [
  | none ↦ authorize_any
  | some t ↦ or_any t.default_authorizer
]

-- The authorizer of a configuration that rotates.
abbrev pub authorizer_used : GrpcProvider → Authorizer
unfolding create_secure_default_authorizer
authorizer_used p = elim p.authorizer [ none ↦ create_secure_default_authorizer p | some a ↦ a ]

-- `determineAuthorizer`, which nothing calls.
unfoldable pub determine_authorizer :
    Sdk → GrpcProvider → Option Policy → Result TransportError Authorizer
determine_authorizer sdk p none = ok (create_secure_default_authorizer p)
determine_authorizer sdk p (some policy) =
    if domain_is_zero policy.trust_domain
    then ok (create_secure_default_authorizer p)
    else (do e ← parsed_domain sdk (domain_string policy.trust_domain); ok (member_of e))

abbrev pub skips_validation : Option TrustProvider → Bool
skips_validation none = false
skips_validation (some t) = t.skips

-- What a client or a server is made of.
pub record GrpcEnd : Type 0 where
  pub tls_config : Option TlsConfig
  pub policy : Option Policy

abbrev pub with_sources :
    (ℕ → ℕ → TlsConfig) → Option Policy → Option ℕ → Option ℕ → Result TransportError GrpcEnd
with_sources f policy none b = err no_sources
with_sources f policy (some s) none = err no_sources
with_sources f policy (some s) (some b) = ok (record { tls_config = some (f s b); policy = policy })

abbrev pub insecure_or :
    Bool → Option Policy → Result TransportError GrpcEnd → Result TransportError GrpcEnd
insecure_or true policy rest = ok (record { tls_config = some insecure; policy = policy })
insecure_or false policy rest = rest

-- `CreateClient`, whose certificate and bundle are not used.
unfoldable pub create_client : Option Policy → GrpcProvider → Result TransportError GrpcEnd
unfolding authorizer_used
create_client policy p =
    insecure_or (skips_validation p.trust_provider) policy (
      with_sources (λ s b. mtls_client s b (authorizer_used p)) policy p.svid_source
        p.bundle_source)

-- `CreateServer`.
unfoldable pub create_server : Option Policy → GrpcProvider → Result TransportError GrpcEnd
unfolding authorizer_used
create_server policy p =
    insecure_or (skips_validation p.trust_provider) policy (
      with_sources (λ s b. mtls_server s b (authorizer_used p)) policy p.svid_source
        p.bundle_source)
