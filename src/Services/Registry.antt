-- ===== src/Services/Registry.antt =====
-- internal/core/services/mtls_connection_registry.go. The map of connections is an association list; a
-- pointer to a connection is the connection, and one that leaves the map is returned as it was left.
-- The instant of a call stands for its readings of the clock.
pub mod Rotation
pub mod Stats
pub mod Histories
use ephemos.Base.{
  is_some, ℕ, ◌+◌, Bool, true, false, not, ◌&&◌, ◌||◌, Option, none, some, List, [], ◌∷◌, ◌++◌, map,
  ◌==◌, if◌then◌else◌, Result, ok, err, length,
}
use ephemos.Services.Keyed.{find, put, remove}
use ephemos.GoText.{Text, text, text_eq}
use ephemos.GoTime.{Time, Duration, sub_time, before, after}
use ephemos.Base.Int.{ℤ, pos, leb_ℤ}
use ephemos.Domain.Certificate.{Certificate, is_expired, cert_expires_at, is_expiring_within}
use ephemos.Domain.Identity.{ServiceIdentity}
use ephemos.Domain.X509.{X509}
use ephemos.Services.State.{Stop, failed_with, crashes, hangs, reply, ServiceError, minutes}

pub data ConnectionState : Type 0 where
  active rotating failed closed : ConnectionState

unfoldable pub state_string : ConnectionState → Text
state_string active = text "active"
state_string rotating = text "rotating"
state_string failed = text "failed"
state_string closed = text "closed"

unfoldable pub same_state : ConnectionState → ConnectionState → Bool
same_state active active = true
same_state rotating rotating = true
same_state failed failed = true
same_state closed closed = true
same_state c d = false

-- The part of `tls.ConnectionState` that is read.
pub record TlsState : Type 0 where
  pub handshake_complete : Bool
  pub peer_certificates : List X509

pub record Connection : Type 0 where
  pub remote_identity : Option ServiceIdentity
  pub local_identity : Option ServiceIdentity
  pub state : ConnectionState
  pub established_at : Time
  pub last_rotated : Time
  pub conn_cert : Option Certificate
  pub tls_state : Option TlsState

-- `UpdateRotation`.
unfoldable pub update_rotation : Time → Option Certificate → Connection → Connection
update_rotation now cert c = record c { last_rotated = now; conn_cert = cert; state = active }

-- `IsHealthy`.
unfoldable pub is_healthy : Time → Connection → Bool
is_healthy now c =
    same_state c.state active
    && (elim c.conn_cert [ none ↦ true | some x ↦ not (is_expired now x) ])

-- `GetExpiryInfo`.
unfoldable pub get_expiry_info : Time → Connection → Time × Bool
get_expiry_info now c = elim c.conn_cert [
  | none ↦ (0, true)
  | some x ↦ (cert_expires_at x, is_expiring_within now (minutes 60) x)
]

pub record RotationPolicy : Type 0 where
  pub pre_rotation_threshold : Duration
  pub force_rotation_interval : Duration
  pub max_retry_attempts : ℤ
  pub retry_backoff : Duration

unfoldable pub default_rotation_policy : RotationPolicy
default_rotation_policy = record {
  pre_rotation_threshold = minutes 15;
  force_rotation_interval = minutes 30;
  max_retry_attempts = pos 3;
  retry_backoff = pos 1_000_000_000;
}

-- Why a connection is rotated, as the reason's text names it.
pub data RotationReason : Type 0 where
  expiring_in forced_after : Duration → RotationReason
  connection_failed : RotationReason

-- What observers are told.
pub data Notice : Type 0 where
  rotation_started : Text → RotationReason → Notice
  rotation_completed : Text → Option Certificate → Option Certificate → Notice
  rotation_failed : Text → ServiceError → Notice

pub record Registry : Type 0 where
  pub connections : List (Text × Connection)
  pub rotation_policy : RotationPolicy
  pub notices : List Notice

-- `NewMTLSConnectionRegistry`.
unfoldable pub new_registry : Registry
new_registry = record { connections = []; rotation_policy = default_rotation_policy; notices = [] }

-- `SetRotationPolicy`.
unfoldable pub set_rotation_policy : RotationPolicy → Registry → Registry
set_rotation_policy policy r = record r { rotation_policy = policy }

pub data RegistryError : Type 0 where
  fault endless : RegistryError
  not_found : Text → RegistryError
  rotation_certificate rotation_validation : ServiceError → RegistryError

-- The dates of a certificate, which a log line reads; it panics on a nil pointer.
abbrev pub has_dates : Option Certificate → Bool
has_dates none = false
has_dates (some c) = is_some c.cert

-- `EstablishConnection`: the connection is put into the map before the log line that may panic.
unfoldable pub establish_connection :
    Time
    → Text
    → Option ServiceIdentity
    → Option Certificate
    → Option ServiceIdentity
    → Registry
    → Registry × Result RegistryError Connection
establish_connection now id remote cert own r =
    let c : Connection = record {
      remote_identity = remote;
      local_identity = own;
      state = active;
      established_at = now;
      last_rotated = now;
      conn_cert = cert;
      tls_state = none;
    } in
    (
      record r { connections = put id c r.connections },
      if is_some own && is_some remote && has_dates cert then ok c else err fault,
    )

unfoldable pub get_connection : Text → Registry → Option Connection
get_connection id r = find id r.connections

-- `ListConnections`, in the order of the list; Go's is any order.
unfoldable pub list_connections : Registry → List Connection
list_connections r = map (λ kc. kc.1) r.connections

-- A log line reads the names of both identities, and panics on a nil pointer.
abbrev pub has_identities : Connection → Bool
has_identities c = is_some c.local_identity && is_some c.remote_identity

-- `CloseConnection`, with the connection that was closed, if there was one.
unfoldable pub close_connection :
    Text → Registry → Registry × Result RegistryError (Option Connection)
close_connection id r = (
  record r { connections = remove id r.connections },
  elim (find id r.connections) [
    | none ↦ ok none
    | some c ↦ if has_identities c then ok (some (record c { state = closed })) else err fault
  ],
)

-- `determineRotationReason`.
unfoldable pub expiring_reason : Time → RotationPolicy → Connection → Option RotationReason
expiring_reason now policy c = elim c.conn_cert [
  | none ↦ none
  | some d ↦ elim d.cert [
    | none ↦ none
    | some x ↦
        let left = sub_time x.not_after now in
        if leb_ℤ left policy.pre_rotation_threshold then some (expiring_in left) else none
  ]
]

unfoldable pub determine_rotation_reason :
    Time → RotationPolicy → Connection → Option RotationReason
determine_rotation_reason now policy c = elim (expiring_reason now policy c) [
  | some r ↦ some r
  | none ↦
      if leb_ℤ policy.force_rotation_interval (sub_time now c.last_rotated)
      then some (forced_after policy.force_rotation_interval)
      else if same_state c.state failed
      then some connection_failed
      else none
]

-- What the identity service answers in one rotation: `GetCertificate`, and `ValidateServiceIdentity`;
-- none is a call that never returns.
pub record Answers : Type 0 where
  pub new_certificate : Option (Result ServiceError (Option Certificate))
  pub validity : Option Certificate → Option (Result ServiceError (Unit {0}))

abbrev pub notify : Notice → Registry → Registry
notify n r = record r { notices = r.notices ++ n ∷ [] }

abbrev pub set_connection : Text → Connection → Registry → Registry
set_connection id c r = record r { connections = put id c r.connections }

abbrev fail_rotation : Text → Connection → ServiceError → Registry → Registry
fail_rotation id c e r =
    notify (rotation_failed id e) (set_connection id (record c { state = failed }) r)

-- The log line behind a rotation reads the dates of both certificates.
abbrev complete_rotation :
    Time
    → Text
    → Connection
    → Option Certificate
    → Registry
    → Registry × Result RegistryError (Unit {0})
complete_rotation now id c cert r = (
  notify (rotation_completed id c.conn_cert cert)
      (set_connection id (update_rotation now cert c) r),
  if has_dates c.conn_cert && has_dates cert then ok tt else err fault,
)

abbrev validated_rotation :
    Time
    → Text
    → Connection
    → Option Certificate
    → Result Stop (Unit {0})
    → Registry
    → Registry × Result RegistryError (Unit {0})
validated_rotation now id c cert (err (failed_with e)) r =
    (fail_rotation id c e r, err (rotation_validation e))
validated_rotation now id c cert (err crashes) r = (r, err fault)
validated_rotation now id c cert (err hangs) r = (r, err endless)
validated_rotation now id c cert (ok u) r = complete_rotation now id c cert r

abbrev pub fetched_rotation :
    Time
    → Answers
    → Text
    → Connection
    → Result Stop (Option Certificate)
    → Registry
    → Registry × Result RegistryError (Unit {0})
fetched_rotation now a id c (err (failed_with e)) r =
    (fail_rotation id c e r, err (rotation_certificate e))
fetched_rotation now a id c (err crashes) r = (r, err fault)
fetched_rotation now a id c (err hangs) r = (r, err endless)
fetched_rotation now a id c (ok cert) r =
    validated_rotation now id c cert (reply (a.validity cert)) r

abbrev pub found_rotation :
    Time
    → Answers
    → Text
    → RotationReason
    → Option Connection
    → Registry
    → Registry × Result RegistryError (Unit {0})
found_rotation now a id reason none r = (r, err (not_found id))
found_rotation now a id reason (some c) r =
    let r' : Registry =
      notify (rotation_started id reason) (set_connection id (record c { state = rotating }) r) in
    if has_identities c
    then fetched_rotation now a id c (reply a.new_certificate) r'
    else (r', err fault)

-- `rotateConnection`.
unfoldable pub rotate_connection :
    Time → Answers → Text → RotationReason → Registry → Registry × Result RegistryError (Unit {0})
rotate_connection now a id reason r = found_rotation now a id reason (find id r.connections) r

abbrev pub rotate_for :
    Time
    → Answers
    → Text
    → Option RotationReason
    → Registry
    → Registry × Result RegistryError (Unit {0})
rotate_for now a id none r = (r, ok tt)
rotate_for now a id (some reason) r = rotate_connection now a id reason r

abbrev pub check_found :
    Time
    → Answers
    → Text
    → Option Connection
    → Registry
    → Registry × Result RegistryError (Unit {0})
check_found now a id none r = (r, ok tt)
check_found now a id (some c) r =
    if same_state c.state closed
    then (r, ok tt)
    else rotate_for now a id (determine_rotation_reason now r.rotation_policy c) r

-- `checkAndRotateConnection`.
unfoldable pub check_and_rotate :
    Time → Answers → Text → Registry → Registry × Result RegistryError (Unit {0})
check_and_rotate now a id r = check_found now a id (find id r.connections) r

pub record ConnectionStats : Type 0 where
  pub total_connections : ℕ
  pub state_count : ConnectionState → ℕ
  pub oldest_connection : Time
  pub newest_connection : Time
  pub last_rotation : Time

-- One step of the loop of `GetConnectionStats`; the zero time stands for no connection yet.
unfoldable pub count_connection : ConnectionStats → Connection → ConnectionStats
count_connection st c = record {
  total_connections = st.total_connections;
  state_count = λ k. if same_state c.state k then st.state_count k + 1 else st.state_count k;
  oldest_connection =
      if (st.oldest_connection == 0) || before c.established_at st.oldest_connection
      then c.established_at
      else st.oldest_connection;
  newest_connection =
      if (st.newest_connection == 0) || after c.established_at st.newest_connection
      then c.established_at
      else st.newest_connection;
  last_rotation =
      if (st.last_rotation == 0) || after c.last_rotated st.last_rotation
      then c.last_rotated
      else st.last_rotation;
}

unfoldable pub count_connections : ConnectionStats → List Connection → ConnectionStats
count_connections st [] = st
count_connections st (c ∷ cs) = count_connections (count_connection st c) cs

-- The statistics before the loop.
abbrev pub no_stats : Registry → ConnectionStats
no_stats r = record {
  total_connections = length r.connections;
  state_count = λ k. 0;
  oldest_connection = 0;
  newest_connection = 0;
  last_rotation = 0;
}

-- `GetConnectionStats`.
unfoldable pub get_connection_stats : Registry → ConnectionStats
get_connection_stats r = count_connections (no_stats r) (list_connections r)
