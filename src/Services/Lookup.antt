-- ===== src/Services/Lookup.antt =====
-- The cached lookups of identity_service.go: getCertificate and getTrustBundle. A lookup holds the
-- service's mutex as a writer from begin to end, and the loop that fetches asks for it as a reader.
pub mod Hits
pub mod Bundles
pub mod Reach
use ephemos.Base.{
  true, false, Option, none, some, List, [], ◌∷◌, ◌++◌, map, if◌then◌else◌, Result, ok, err, wrap,
}
use ephemos.Domain.X509.{X509}
use ephemos.GoText.{Text, text}
use ephemos.GoTime.{Time, after, add_time}
use ephemos.Domain.Cache.{CacheEntry, new_cache_entry, is_fresh_at}
use ephemos.Domain.Certificate.{Certificate, Options, no_options, is_expiring_within}
use ephemos.Domain.TrustBundle.{TrustBundle, new_trust_bundle}
use ephemos.Services.State.{
  certificate_lookup, raise, bundle_lookup, free, r_unlock, with_mutex, note, returns, waits, lock,
  r_lock, Call, State, ServiceError, panic, provider_failed, bundle_provider_failed,
  bundle_conversion, Readings, Ports, service_name, refresh_threshold, minutes,
}
use ephemos.Services.Retry.{
  hit, miss, refreshed, Reason, initial, expired, proactive, cache_miss, fetch_with_retry,
}

-- What the checks of the cache come to: the cached certificate serves; a new one is fetched, with what
-- is then left in the cache; or the program panics.
pub data Decision : Type 0 where
  serve : Certificate → Decision
  fetch : Option Certificate → Decision
  crash : Decision

-- `validateCertificateExpiry` skips the verification of the chain.
abbrev pub expiry_options : Options
expiry_options = record no_options { skip_chain_verify = true }

-- A certificate that is about to expire is dropped; logging that reads the service's name.
unfoldable pub refresh_early : State → Decision
refresh_early s = elim (service_name s.cached_identity) [ none ↦ crash | some n ↦ fetch none ]

unfoldable pub decide_fresh : Ports → Readings → State → Certificate → Decision
decide_fresh p t s c = elim (p.validator t.valid (some c) expiry_options) [
  | err e ↦ fetch none
  | ok u ↦
      if is_expiring_within t.expiring (refresh_threshold s.cache_config) c
      then refresh_early s
      else serve c
]

abbrev pub decide_cached :
    Ports → Readings → State → Option Certificate → Option CacheEntry → Decision
decide_cached p t s none entry = fetch none
decide_cached p t s (some c) none = fetch (some c)
decide_cached p t s (some c) (some e) =
    if is_fresh_at e t.fresh then decide_fresh p t s c else fetch (some c)

unfoldable pub decide : Ports → Readings → State → Decision
decide p t s = decide_cached p t s s.cached_cert s.cert_cache_entry

-- The reason that is recorded for a refresh, by what was left in the cache; it reads the dates of the
-- certificate, and panics if that is nil.
unfoldable pub refresh_reason : Readings → Option Certificate → Option Reason
refresh_reason t none = some initial
refresh_reason t (some c) = elim c.cert [
  | none ↦ none
  | some x ↦ some (
      if after t.reason x.not_after
      then expired
      else if after (add_time t.soon (minutes 10)) x.not_after
      then proactive
      else cache_miss)
]

-- `fetchCertificateWithRetry` reads the service's name as a reader; a panic there keeps the mutex.
unfoldable pub fetch_certificate : Ports → State → Call (Option Certificate)
fetch_certificate p s = elim (r_lock s.mutex) [
  | none ↦ waits s
  | some m ↦ elim (service_name s.cached_identity) [
    | none ↦ returns (with_mutex m s) (err panic)
    | some n ↦
        let (r, events) = fetch_with_retry true p.certificates in
        returns (note events (with_mutex (r_unlock m) s)) (wrap provider_failed r)
  ]
]

-- Behind the loop: the reason is recorded, the certificate stored for the time to live, and the mutex
-- given back by the deferred call.
abbrev finish_fetch :
    Readings → State → Option Certificate → Option Reason → Call (Option Certificate)
finish_fetch t s cert none = returns (with_mutex free s) (err panic)
finish_fetch t s cert (some r) =
    returns
      (record s {
        mutex = free;
        cached_cert = cert;
        cert_cache_entry = some (new_cache_entry t.stored s.cache_ttl);
        metrics = s.metrics ++ refreshed r ∷ [];
      })
      (ok cert)

abbrev after_fetch : Readings → Call (Option Certificate) → Call (Option Certificate)
after_fetch t (waits s) = waits s
after_fetch t (returns s (err e)) = returns (with_mutex free s) (err (raise certificate_lookup e))
after_fetch t (returns s (ok cert)) = finish_fetch t s cert (refresh_reason t s.cached_cert)

abbrev pub act : Ports → Readings → State → Decision → Call (Option Certificate)
act p t s (serve c) =
    returns (note (hit (text "certificate") ∷ []) (with_mutex free s)) (ok (some c))
act p t s (fetch left) =
    after_fetch t (
      fetch_certificate p (note (miss (text "certificate") ∷ []) (record s { cached_cert = left })))
act p t s crash = returns (with_mutex free s) (err panic)

-- `getCertificate`, `GetCertificate`.
unfoldable pub get_certificate : Ports → Readings → State → Call (Option Certificate)
get_certificate p t s = elim (lock s.mutex) [
  | none ↦ waits s
  | some m ↦ act p t (with_mutex m s) (decide p t s)
]

abbrev pub usable_bundle : Readings → Option TrustBundle → Option CacheEntry → Option TrustBundle
usable_bundle t none entry = none
usable_bundle t (some b) none = none
usable_bundle t (some b) (some e) = if is_fresh_at e t.fresh then some b else none

-- What the provider's authorities come to: no valid bundle ends the loop with an error.
abbrev convert_bundle : Time → Result Text (List X509) → Result ServiceError TrustBundle
convert_bundle now (err e) = err (bundle_provider_failed e)
convert_bundle now (ok cs) = wrap bundle_conversion (new_trust_bundle now (map some cs))

-- `fetchTrustBundleWithRetry`.
unfoldable pub fetch_bundle : Ports → Readings → State → Call TrustBundle
fetch_bundle p t s = elim (r_lock s.mutex) [
  | none ↦ waits s
  | some m ↦ elim (service_name s.cached_identity) [
    | none ↦ returns (with_mutex m s) (err panic)
    | some n ↦
        let (r, events) = fetch_with_retry false p.authorities in
        returns (note events (with_mutex (r_unlock m) s)) (convert_bundle t.valid r)
  ]
]

abbrev store_bundle : Readings → Call TrustBundle → Call TrustBundle
store_bundle t (waits s) = waits s
store_bundle t (returns s (err e)) = returns (with_mutex free s) (err (raise bundle_lookup e))
store_bundle t (returns s (ok b)) =
    returns
      (record s {
        mutex = free;
        cached_bundle = some b;
        bundle_cache_entry = some (new_cache_entry t.stored s.cache_ttl);
      })
      (ok b)

abbrev pub act_bundle : Ports → Readings → State → Option TrustBundle → Call TrustBundle
act_bundle p t s (some b) = returns (note (hit (text "bundle") ∷ []) (with_mutex free s)) (ok b)
act_bundle p t s none = store_bundle t (fetch_bundle p t (note (miss (text "bundle") ∷ []) s))

-- `getTrustBundle`, `GetTrustBundle`.
unfoldable pub get_trust_bundle : Ports → Readings → State → Call TrustBundle
get_trust_bundle p t s = elim (lock s.mutex) [
  | none ↦ waits s
  | some m ↦ act_bundle p t (with_mutex m s) (usable_bundle t s.cached_bundle s.bundle_cache_entry)
]
