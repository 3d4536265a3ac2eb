-- ===== src/Services/Create.antt =====
-- identity_service.go: ValidateServiceIdentity, createPolicy, CreateServerIdentity, CreateClientIdentity,
-- and authentication_policy.go.
pub mod Laws
use ephemos.Base.{
  ℕ, zero, suc, ◌+◌, ◌-◌, ◌≤◌, ◌<◌, ◌≡◌, refl, sym, ap, ◌∙◌, ◌≢◌, ◌↔◌, ◌⊎◌, inl, inr, Bool, true,
  false, not, ◌&&◌, ◌||◌, Option, none, some, List, [], ◌∷◌, ◌++◌, map, arith, ltb, leb, ◌==◌,
  if◌then◌else◌, Bool-cases, Option-cases, Result, ok, err, fail_if, wrap, ◌>>=◌, ◌>>◌, length, All,
}
use ephemos.GoText.{Text}
use ephemos.GoTime.{Time}
use ephemos.Domain.Spiffe.{Sdk, SpiffeId}
use ephemos.Domain.Certificate.{Certificate, Options}
use ephemos.Domain.TrustBundle.{TrustBundle}
use ephemos.Domain.TrustDomain.{new_trust_domain, domain_string, zero_trust_domain}
use ephemos.Domain.Identity.{ServiceIdentity, new_service_identity}
use ephemos.Services.State.{
  State, ServiceError, panic, transport, validation, no_certificate, invalid, no_bundle, raise,
  Call, returns, waits, Readings, Policy, Ports, service_name, minutes, r_lock, granted,
  followed_by,
}
use ephemos.Services.Lookup.{get_certificate, get_trust_bundle}

-- The cached ID as an identity: `NewServiceIdentity(Path()[1:], TrustDomain().String())`, which panics.
unfoldable pub own_identity : Sdk → SpiffeId → Option ServiceIdentity
own_identity sdk id = elim (service_name id) [
  | none ↦ none
  | some n ↦ elim (new_service_identity sdk n id.domain) [ err e ↦ none | ok i ↦ some i ]
]

abbrev pub own_options : ServiceIdentity → Option TrustBundle → Options
own_options i bundle = record {
  expected = some i;
  warning_threshold = minutes 60;
  bundle = bundle;
  skip_expiry = false;
  skip_chain_verify = false;
}

-- Behind the validator, a debug line reads the certificate, and panics on a nil pointer.
abbrev pub accept :
    Option Certificate → Result ServiceError (Unit {0}) → Result ServiceError (Unit {0})
accept cert (err e) = err e
accept none (ok u) = err panic
accept (some c) (ok u) = ok tt

abbrev pub check_own :
    Ports
    → Time
    → Option TrustBundle
    → Option Certificate
    → Option ServiceIdentity
    → Result ServiceError (Unit {0})
check_own p now bundle cert none = err panic
check_own p now bundle cert (some i) =
    accept cert (wrap validation (p.validator now cert (own_options i bundle)))

-- `ValidateServiceIdentity`: the cached bundle is used, if there is one.
unfoldable pub validate_service_identity :
    Ports → Time → State → Option Certificate → Call (Unit {0})
validate_service_identity p now s cert =
    granted (r_lock s.mutex) s
      (returns s (check_own p now s.cached_bundle cert (own_identity p.sdk s.cached_identity)))

-- `NewAuthenticationPolicy`: the error of an identity's domain is dropped, with an empty domain.
unfoldable pub new_authentication_policy : Sdk → Option ServiceIdentity → Policy
new_authentication_policy sdk none = record {
  identity = none;
  trust_domain = zero_trust_domain;
  require_auth = true;
}
new_authentication_policy sdk (some i) = record {
  identity = some i;
  trust_domain = elim (new_trust_domain sdk (domain_string i.domain)) [
    | err e ↦ zero_trust_domain
    | ok d ↦ d
  ];
  require_auth = true;
}

-- `createPolicy`.
unfoldable pub create_policy : Ports → SpiffeId → Option Policy
create_policy p id = elim (own_identity p.sdk id) [
  | none ↦ none
  | some i ↦ some (new_authentication_policy p.sdk (some i))
]

module _ (build : Option Certificate → TrustBundle → Policy → Result Text ℕ) (p : Ports) where
  abbrev pub hand_over : State → Option Certificate → TrustBundle → Option Policy → Call ℕ
  hand_over s cert b none = returns s (err panic)
  hand_over s cert b (some policy) = returns s (wrap transport (build cert b policy))

  -- The calls behind each other, from the last.
  abbrev pub deliver : SpiffeId → Option Certificate → State → TrustBundle → Call ℕ
  deliver id cert s b = hand_over s cert b (create_policy p id)

  abbrev pub take_bundle : Readings → SpiffeId → Option Certificate → State → Unit {0} → Call ℕ
  take_bundle t id cert s valid = followed_by no_bundle (get_trust_bundle p t s) (deliver id cert)

  abbrev pub check_certificate : Time → Readings → SpiffeId → State → Option Certificate → Call ℕ
  check_certificate now u id s cert =
      followed_by invalid (validate_service_identity p now s cert) (take_bundle u id cert)

  -- The common text of CreateServerIdentity and CreateClientIdentity, which differ in the last call.
  unfoldable pub create_identity : Readings → Time → Readings → State → Call ℕ
  create_identity t now u s = granted (r_lock s.mutex) s (
      followed_by no_certificate (get_certificate p t s)
        (check_certificate now u s.cached_identity))

unfoldable pub create_server_identity : Ports → Readings → Time → Readings → State → Call ℕ
create_server_identity p t now u s = create_identity p.create_server p t now u s

unfoldable pub create_client_identity : Ports → Readings → Time → Readings → State → Call ℕ
create_client_identity p t now u s = create_identity p.create_client p t now u s
