-- ===== src/Services/State.antt =====
-- The state of IdentityService (internal/core/services/identity_service.go), its error values, and what
-- it is given from outside: the validator port, the identity provider, the transport, the clock.
pub mod Replies
use ephemos.Base.{
  refl, ok, err, ◌≡◌, ℕ, zero, suc, ◌+◌, Bool, Option, none, some, List, [], ◌∷◌, ◌++◌, Result,
}
use ephemos.Base.{◌*◌}
use ephemos.Services.Retry.{Event}
use ephemos.Base.Int.{ℤ, pos, negsuc, wrap_int64}
use ephemos.GoText.{Text}
use ephemos.GoTime.{Time, Duration}
use ephemos.Domain.TrustDomain.{TrustDomain}
use ephemos.Domain.Spiffe.{Sdk, SpiffeId}
use ephemos.Domain.Cache.{CacheEntry}
use ephemos.Domain.X509.{X509}
use ephemos.Domain.Certificate.{Certificate, Options, CertError}
use ephemos.Domain.TrustBundle.{TrustBundle, BundleError}
use ephemos.Domain.Identity.{ServiceIdentity}

-- `ports.CacheConfig`; a field that is 0 or less is taken as not set.
pub record CacheConfig : Type 0 where
  pub ttl_minutes : ℤ
  pub proactive_refresh_minutes : ℤ

abbrev pub minutes : ℕ → Duration
minutes n = wrap_int64 (pos (n * 60_000_000_000))

-- A positive number of minutes, or the default.
unfoldable pub minutes_or : ℕ → ℤ → Duration
minutes_or default (pos zero) = minutes default
minutes_or default (pos (suc n)) = minutes (suc n)
minutes_or default (negsuc n) = minutes default

unfoldable pub refresh_threshold : Option CacheConfig → Duration
refresh_threshold none = minutes 10
refresh_threshold (some c) = minutes_or 10 c.proactive_refresh_minutes

-- The time to live that `NewIdentityService` sets.
unfoldable pub cache_ttl_of : Option CacheConfig → Duration
cache_ttl_of none = minutes 30
cache_ttl_of (some c) = minutes_or 30 c.ttl_minutes

-- `sync.RWMutex`, by who holds it: a writer excludes all others, readers exclude a writer. It does not
-- know its holder, so that a call that holds it waits for itself like any other.
pub data Mutex : Type 0 where
  free writing : Mutex
  reading : ℕ → Mutex

-- `Lock` and `RLock`: none is a caller that waits.
unfoldable pub lock : Mutex → Option Mutex
lock free = some writing
lock writing = none
lock (reading n) = none

unfoldable pub r_lock : Mutex → Option Mutex
r_lock free = some (reading 1)
r_lock writing = none
r_lock (reading n) = some (reading (n + 1))

unfoldable pub r_unlock : Mutex → Mutex
r_unlock free = free
r_unlock writing = writing
r_unlock (reading zero) = free
r_unlock (reading (suc zero)) = free
r_unlock (reading (suc (suc n))) = reading (suc n)

pub record State : Type 0 where
  pub mutex : Mutex
  pub cached_identity : SpiffeId
  pub cache_config : Option CacheConfig
  pub cached_cert : Option Certificate
  pub cert_cache_entry : Option CacheEntry
  pub cached_bundle : Option TrustBundle
  pub bundle_cache_entry : Option CacheEntry
  pub cache_ttl : Duration
  -- What the metrics reporter was told, and the pauses between attempts, in order.
  pub metrics : List Event

-- `NewIdentityService`, of an identity that the provider returned: nothing is cached.
unfoldable pub new_state : SpiffeId → Option CacheConfig → State
new_state id config = record {
  mutex = free;
  cached_identity = id;
  cache_config = config;
  cached_cert = none;
  cert_cache_entry = none;
  cached_bundle = none;
  bundle_cache_entry = none;
  cache_ttl = cache_ttl_of config;
  metrics = [];
}

abbrev pub note : List Event → State → State
note events s = record s { metrics = s.metrics ++ events }

abbrev pub with_mutex : Mutex → State → State
with_mutex m s = record s { mutex = m }

-- `panic` is a run-time fault of the program.
pub data ServiceError : Type 0 where
  panic : ServiceError
  provider_failed bundle_provider_failed transport : Text → ServiceError
  bundle_conversion : BundleError → ServiceError
  validation : CertError → ServiceError
  certificate_lookup bundle_lookup no_certificate invalid no_bundle : ServiceError → ServiceError

-- An error is wrapped; a panic passes.
unfoldable pub raise : (ServiceError → ServiceError) → ServiceError → ServiceError
raise f panic = panic
raise f e = f e

-- What becomes of a caller whose call is not good: an error comes back, or the call panics, or it
-- never returns.
pub data Stop : Type 0 where
  failed_with : ServiceError → Stop
  crashes hangs : Stop

unfoldable pub stop_of : ServiceError → Stop
stop_of panic = crashes
stop_of e = failed_with e

-- The answer to a call, where none is a call that never returns.
abbrev pub reply {ℓ} : {A : Type ℓ} → Option (Result ServiceError A) → Result Stop A
unfolding stop_of
reply none = err hangs
reply (some (err e)) = err (stop_of e)
reply (some (ok a)) = ok a

-- A method's call: it returns, or it waits for the mutex, in the state that it has made by then.
pub data Call {ℓ} (A : Type ℓ) : Type ℓ where
  returns : State → Result ServiceError A → Call A
  waits : State → Call A

pub returns-injective {ℓ} :
    {A : Type ℓ} (s s' : State) (r r' : Result ServiceError A)
    → returns s r ≡ returns s' r'
    → (s ≡ s') × (r ≡ r')
returns-injective s s' r r' h = (cc, cc)

-- What runs once the mutex, by the answer to the request, is granted.
abbrev pub granted {ℓ} : {A : Type ℓ} → Option Mutex → State → Call A → Call A
granted none s r = waits s
granted (some m) s r = r

pub granted-eq-returns {ℓ} :
    {A : Type ℓ} (o : Option Mutex) (s : State) (r : Call A) {s' : State}
    {a : Result ServiceError A}
    → granted o s r ≡ returns s' a
    → r ≡ returns s' a
granted-eq-returns none s r h = cc
granted-eq-returns (some m) s r h = h

-- A call and what follows it: an error is wrapped and ends it, and so does a wait.
abbrev pub followed_by {ℓ κ} :
    {A : Type ℓ} {B : Type κ}
    → (ServiceError → ServiceError)
    → Call A
    → (State → A → Call B)
    → Call B
followed_by f (waits s) k = waits s
followed_by f (returns s (err e)) k = returns s (err (raise f e))
followed_by f (returns s (ok a)) k = k s a

pub followed_by-eq-ok {ℓ κ} :
    {A : Type ℓ} {B : Type κ} (f : ServiceError → ServiceError) (r : Call A)
    (k : State → A → Call B) {s' : State} {b : B}
    → followed_by f r k ≡ returns s' (ok b)
    → (s : State) × (a : A) × (r ≡ returns s (ok a)) × (k s a ≡ returns s' (ok b))
followed_by-eq-ok f (waits s) k h = cc
followed_by-eq-ok f (returns s (err e)) k h = cc
followed_by-eq-ok f (returns s (ok a)) k h = (s, a, refl, h)

-- The instants at which one call reads the clock, in its order.
pub record Readings : Type 0 where
  pub fresh : Time
  pub valid : Time
  pub expiring : Time
  pub reason : Time
  pub soon : Time
  pub stored : Time

-- `AuthenticationPolicy`, as authentication_policy.go builds it.
pub record Policy : Type 0 where
  pub identity : Option ServiceIdentity
  pub trust_domain : TrustDomain
  pub require_auth : Bool

pub record Ports : Type 0 where
  pub sdk : Sdk
  -- `CertValidatorPort.Validate`.
  pub validator : Time → Option Certificate → Options → Result CertError (Unit {0})
  -- What the provider answers to each attempt of one call.
  pub certificates : ℕ → Result Text (Option Certificate)
  pub authorities : ℕ → Result Text (List X509)
  -- `TransportProvider.CreateServer` and `CreateClient`, which return a handle.
  pub create_server : Option Certificate → TrustBundle → Policy → Result Text ℕ
  pub create_client : Option Certificate → TrustBundle → Policy → Result Text ℕ

-- `Path()[1:]`, which panics on the empty path.
unfoldable pub service_name : SpiffeId → Option Text
service_name id = elim id.path [ [] ↦ none | c ∷ p ↦ some p ]
