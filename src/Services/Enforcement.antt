-- ===== src/Services/Enforcement.antt =====
-- internal/core/services/mtls_enforcement_service.go, and EstablishMTLSConnection of identity_service.go.
pub mod Establish
pub mod Meets
pub mod Sweep
use ephemos.Base.{
  ℕ, ◌+◌, Bool, true, false, not, ◌&&◌, Option, none, some, List, [], ◌∷◌, ◌==◌, if◌then◌else◌,
  Result, ok, err, fail_if, wrap, ◌>>=◌, ◌>>◌, length,
}
use ephemos.Base.Int.{ℤ, pos, leb_ℤ, ltb_ℤ}
use ephemos.GoText.{Text, text, text_eq}
use ephemos.GoTime.{Time, Duration, sub_time, before, after}
use ephemos.Domain.X509.{X509}
use ephemos.Domain.Spiffe.{Sdk, id_string}
use ephemos.Domain.TrustDomain.{domain_string}
use ephemos.Domain.Identity.{ServiceIdentity}
use ephemos.Domain.Certificate.{Certificate, CertError, to_spiffe_id}
use ephemos.Services.State.{ServiceError, minutes}
use ephemos.Services.Registry.{
  has_identities, Connection, rotating, same_state, TlsState, Registry, RegistryError,
  close_connection, establish_connection,
}
use ephemos.Services.Keyed.{find}

-- Why a check fails.
pub data Violation : Type 0 where
  no_certificate not_yet_valid expired : Violation
  no_tls_state handshake_incomplete no_peer_certificates : Violation
  missing_identity empty_local_domain empty_remote_domain : Violation
  should_be_rotating too_old : Violation
  no_local_identity wrong_identity : Violation
  no_spiffe_id : CertError → Violation

-- `MTLSInvariant`: the name, and `Check` at an instant.
pub record Invariant : Type 0 where
  pub invariant_name : Text
  pub check : Time → Connection → Result Violation (Unit {0})

-- The certificate that a check reads, if it is there.
abbrev pub dated : Option Certificate → Option X509
dated none = none
dated (some c) = c.cert

abbrev check_dates : Time → Option X509 → Result Violation (Unit {0})
check_dates now none = err no_certificate
check_dates now (some x) = do
  fail_if (before now x.not_before) not_yet_valid
  fail_if (after now x.not_after) expired
  ok tt

-- `CertificateValidityInvariant.Check`.
unfoldable pub check_validity : Time → Connection → Result Violation (Unit {0})
check_validity now c = check_dates now (dated c.conn_cert)

abbrev check_tls : Option TlsState → Result Violation (Unit {0})
check_tls none = err no_tls_state
check_tls (some t) = do
  fail_if (not t.handshake_complete) handshake_incomplete
  fail_if (length t.peer_certificates == 0) no_peer_certificates
  ok tt

-- `MutualAuthInvariant.Check`.
unfoldable pub check_mutual_auth : Time → Connection → Result Violation (Unit {0})
check_mutual_auth now c = check_tls c.tls_state

abbrev check_domains : Option ServiceIdentity → Option ServiceIdentity → Result Violation (Unit {0})
check_domains none remote = err missing_identity
check_domains (some l) none = err missing_identity
check_domains (some l) (some r) = do
  fail_if (text_eq (domain_string l.domain) []) empty_local_domain
  fail_if (text_eq (domain_string r.domain) []) empty_remote_domain
  ok tt

-- `TrustDomainInvariant.Check`.
unfoldable pub check_trust_domain : Time → Connection → Result Violation (Unit {0})
check_trust_domain now c = check_domains c.local_identity c.remote_identity

abbrev pub age_faults : Bool → Bool → Result Violation (Unit {0})
age_faults late old = do fail_if late should_be_rotating; fail_if old too_old; ok tt

abbrev check_ages : Time → Connection → Option X509 → Result Violation (Unit {0})
check_ages now c none = err no_certificate
check_ages now c (some x) =
    age_faults (leb_ℤ (sub_time x.not_after now) (minutes 15) && not (same_state c.state rotating))
      (ltb_ℤ (minutes 60) (sub_time now c.last_rotated))

-- `CertificateRotationInvariant.Check`.
unfoldable pub check_rotation : Time → Connection → Result Violation (Unit {0})
check_rotation now c = check_ages now c (dated c.conn_cert)

module _ (sdk : Sdk) where
  abbrev check_uris : Option Certificate → Option ServiceIdentity → Result Violation (Unit {0})
  check_uris none own = err no_certificate
  check_uris (some d) none = err no_local_identity
  check_uris (some d) (some l) = do
    id ← wrap no_spiffe_id (to_spiffe_id sdk d)
    fail_if (not (text_eq (id_string id) l.uri)) wrong_identity
    ok tt

  -- `IdentityMatchingInvariant.Check`.
  unfoldable pub check_identity : Time → Connection → Result Violation (Unit {0})
  check_identity now c = check_uris c.conn_cert c.local_identity

  abbrev pub identity_invariant : Invariant
  identity_invariant = record { invariant_name = text "identity_matching"; check = check_identity }

abbrev pub validity_invariant : Invariant
validity_invariant = record { invariant_name = text "certificate_validity"; check = check_validity }

abbrev pub mutual_auth_invariant : Invariant
mutual_auth_invariant = record {
  invariant_name = text "mutual_authentication";
  check = check_mutual_auth;
}

abbrev pub trust_domain_invariant : Invariant
trust_domain_invariant = record {
  invariant_name = text "trust_domain_validation";
  check = check_trust_domain;
}

abbrev pub rotation_invariant : Invariant
rotation_invariant = record { invariant_name = text "certificate_rotation"; check = check_rotation }

-- `AddDefaultInvariants`.
unfoldable pub default_invariants : Sdk → List Invariant
default_invariants sdk =
    validity_invariant
    ∷ mutual_auth_invariant
    ∷ trust_domain_invariant
    ∷ rotation_invariant
    ∷ identity_invariant sdk
    ∷ []

-- The names of the invariants that a connection violates, each with the reason, in their order.
unfoldable pub violations : Time → Connection → List Invariant → List (Text × Violation)
violations now c [] = []
violations now c (i ∷ is) =
    let rest = violations now c is in
    elim (i.check now c) [ ok u ↦ rest | err v ↦ (i.invariant_name, v) ∷ rest ]

pub data EnforcementError : Type 0 where
  unknown_connection : Text → EnforcementError
  invariant_violations : Text → List (Text × Violation) → EnforcementError
  certificate_error : ServiceError → EnforcementError
  identity_fault log_fault : EnforcementError
  registry_error : RegistryError → EnforcementError

abbrev pub verdict : Text → List (Text × Violation) → Result EnforcementError (Unit {0})
verdict id [] = ok tt
verdict id (v ∷ vs) = err (invariant_violations id (v ∷ vs))

-- `ValidateConnection`.
unfoldable pub validate_connection :
    Time → List Invariant → Text → Registry → Result EnforcementError (Unit {0})
validate_connection now is id r = elim (find id r.connections) [
  | none ↦ err (unknown_connection id)
  | some c ↦ verdict id (violations now c is)
]

pub data ViolationAction : Type 0 where
  action_log action_close_connection action_restart_service action_alert_only : ViolationAction

pub record EnforcementPolicy : Type 0 where
  pub fail_on_violation : Bool
  pub check_interval : Duration
  pub max_violations : ℤ
  pub violation_action : ViolationAction

unfoldable pub default_enforcement_policy : EnforcementPolicy
default_enforcement_policy = record {
  fail_on_violation = true;
  check_interval = pos 30_000_000_000;
  max_violations = pos 3;
  violation_action = action_close_connection;
}

-- The one action of `handleViolations` that is not only logged.
unfoldable pub closes : ViolationAction → Bool
closes action_log = false
closes action_close_connection = true
closes action_restart_service = false
closes action_alert_only = false

-- `handleViolations`, on the violations that each violating connection has.
unfoldable pub handle_violations :
    EnforcementPolicy → List (Text × List (Text × Violation)) → Registry → Registry
handle_violations p [] r = r
handle_violations p ((id, vs) ∷ more) r = handle_violations p more (
    if leb_ℤ p.max_violations (pos (length vs)) && closes p.violation_action
    then (close_connection id r).0
    else r)

-- The violating connections; one without violations has no entry.
abbrev pub add_entry :
    Text
    → List (Text × Violation)
    → List (Text × List (Text × Violation))
    → List (Text × List (Text × Violation))
add_entry id [] es = es
add_entry id (v ∷ vs) es = (id, v ∷ vs) ∷ es

unfoldable pub violating :
    Time → List Invariant → List (Text × Connection) → List (Text × List (Text × Violation))
violating now is [] = []
violating now is ((id, c) ∷ m) = add_entry id (violations now c is) (violating now is m)

-- The log line of a violation reads the names of both identities, and panics on a nil pointer.
abbrev pub logs : List (Text × Violation) → Connection → Bool
logs [] c = true
logs (v ∷ vs) c = has_identities c

unfoldable pub logs_all : Time → List Invariant → List (Text × Connection) → Bool
logs_all now is [] = true
logs_all now is ((id, c) ∷ m) = logs (violations now c is) c && logs_all now is m

-- `checkAllInvariants`, at one instant: the violations are logged before any is handled.
unfoldable pub check_all_invariants :
    Time
    → List Invariant
    → EnforcementPolicy
    → Registry
    → Registry × Result EnforcementError (Unit {0})
check_all_invariants now is p r =
    if logs_all now is r.connections
    then (handle_violations p (violating now is r.connections) r, ok tt)
    else (r, err log_fault)

-- `InvariantResult` of one invariant, without its texts.
pub record InvariantResult : Type 0 where
  pub pass_count : ℕ
  pub fail_count : ℕ

-- The inner loop of `GetInvariantStatus`.
unfoldable pub invariant_result : Time → Invariant → List Connection → InvariantResult
invariant_result now i [] = record { pass_count = 0; fail_count = 0 }
invariant_result now i (c ∷ cs) =
    let rest = invariant_result now i cs in
    elim (i.check now c) [
      | ok u ↦ record rest { pass_count = rest.pass_count + 1 }
      | err v ↦ record rest { fail_count = rest.fail_count + 1 }
    ]

module _ (now : Time) (later : Time) (is : List Invariant) (id : Text) where
  -- A connection that violates an invariant is closed again.
  abbrev pub judge :
      Connection
      → Registry
      → Result EnforcementError (Unit {0})
      → Registry × Result EnforcementError Connection
  judge c r (ok u) = (r, ok c)
  judge c r (err e) = ((close_connection id r).0, err e)

  abbrev pub judged :
      Registry × Result RegistryError Connection → Registry × Result EnforcementError Connection
  judged (r, err e) = (r, err (registry_error e))
  judged (r, ok c) = judge c r (validate_connection later is id r)

  abbrev pub establish_with :
      Option ServiceIdentity
      → Option Certificate
      → Option ServiceIdentity
      → Registry
      → Registry × Result EnforcementError Connection
  establish_with remote cert none r = (r, err identity_fault)
  establish_with remote cert (some own) r =
      judged (establish_connection now id remote cert (some own) r)

  -- `EstablishMTLSConnection`, behind a `getCertificate` that returned; `own` is the service's identity,
  -- none where its constructor panics.
  unfoldable pub establish_mtls_connection :
      Result ServiceError (Option Certificate)
      → Option ServiceIdentity
      → Option ServiceIdentity
      → Registry
      → Registry × Result EnforcementError Connection
  establish_mtls_connection (err e) own remote r = (r, err (certificate_error e))
  establish_mtls_connection (ok cert) own remote r = establish_with remote cert own r
