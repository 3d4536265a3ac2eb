-- ===== src/Adapters/Source.antt =====
-- SourceAdapter of internal/adapters/secondary/transport/grpc_provider_rotatable.go: an identity provider
-- as the cached sources of go-spiffe. `none` is a nil pointer.
pub mod Chain
pub mod Caching
use ephemos.Base.{
  ℕ, zero, suc, ◌+◌, ◌-◌, ◌≤◌, ◌<◌, ◌≡◌, refl, sym, ap, ◌∙◌, ◌≢◌, ◌↔◌, ◌⊎◌, inl, inr, Bool, true,
  false, not, ◌&&◌, ◌||◌, Option, none, some, List, [], ◌∷◌, ◌++◌, map, arith, ltb, leb, ◌==◌,
  if◌then◌else◌, Bool-cases, Option-cases, Result, ok, err, fail_if, wrap, ◌>>=◌, ◌>>◌, length, All,
}
use ephemos.Base.Int.{ℤ, pos, negsuc}
use ephemos.GoText.{Text, text_eq}
use ephemos.GoTime.{Time, Duration}
use ephemos.Domain.X509.{X509}
use ephemos.Domain.Spiffe.{Sdk, SpiffeId, Uri, id_string}
use ephemos.Domain.Cache.{CacheEntry, new_cache_entry, is_fresh_at}
use ephemos.Domain.Certificate.{Certificate, spiffe_uri}
use ephemos.Domain.TrustBundle.{TrustBundle, bundle_is_empty, raw_certificates, seen_before}
use ephemos.Application.Providers.{Svid}

-- An `x509bundle.Bundle`: its trust domain's name, and the authorities that were added.
pub record Bundle : Type 0 where
  pub trust_domain : Text
  pub authorities : List X509

-- The fields of a SourceAdapter, without its lock.
pub record Source : Type 0 where
  pub cache_ttl : Duration
  pub cached_svid : Option Svid
  pub svid_entry : Option CacheEntry
  pub cached_bundle : Option Bundle
  pub bundle_entry : Option CacheEntry

-- What the provider answers to one call.
pub record Provided : Type 0 where
  pub certificate : Result Text (Option Certificate)
  pub trust_bundle : Result Text (Option TrustBundle)

pub data SourceError : Type 0 where
  provider : Text → SourceError
  nil_certificate empty_bundle invalid_uri empty_id no_uri : SourceError

abbrev pub default_cache_ttl : Duration
default_cache_ttl = pos 300_000_000_000

-- `NewSourceAdapterWithTTL`.
unfoldable pub new_source_with_ttl : Duration → Source
new_source_with_ttl ttl = record {
  cache_ttl = ttl;
  cached_svid = none;
  svid_entry = none;
  cached_bundle = none;
  bundle_entry = none;
}

-- `NewSourceAdapter`.
unfoldable pub new_source : Source
unfolding new_source_with_ttl
new_source = new_source_with_ttl default_cache_ttl

-- A cached value whose entry is fresh.
abbrev pub fresh {ℓ} : {A : Type ℓ} → Time → Option A → Option CacheEntry → Option A
fresh now (some a) (some e) = if is_fresh_at e now then some a else none
fresh now (some a) none = none
fresh now none e = none

-- A cached value, or else what the rest of the call returns and leaves.
abbrev pub serve_or {ℓ} :
    {A : Type ℓ} → Option A → Source → Source × Result SourceError A → Source × Result SourceError A
serve_or none s rest = rest
serve_or (some a) s rest = (s, ok a)

-- The loop of `buildCertificateChain` over the intermediates, with the DER bytes seen.
unfoldable pub add_unseen : List Text → List X509 → List X509
add_unseen seen [] = []
add_unseen seen (c ∷ cs) = elim (seen_before c.raw seen) [
  | true ↦ add_unseen seen cs
  | false ↦ c ∷ add_unseen (c.raw ∷ seen) cs
]

-- `buildCertificateChain`.
unfoldable pub build_certificate_chain : X509 → List X509 → List X509
build_certificate_chain leaf chain = leaf ∷ add_unseen (leaf.raw ∷ []) chain

-- `InvalidateCache`.
unfoldable pub invalidate_cache : Source → Source
invalidate_cache s = record s {
  cached_svid = none;
  svid_entry = none;
  cached_bundle = none;
  bundle_entry = none;
}

abbrev is_zero_duration : Duration → Bool
is_zero_duration (pos zero) = true
is_zero_duration (pos (suc n)) = false
is_zero_duration (negsuc n) = false

-- `SetCacheTTL`.
unfoldable pub set_cache_ttl : Duration → Source → Source
unfolding invalidate_cache
set_cache_ttl ttl s =
    let s' : Source = record s { cache_ttl = ttl } in
    if is_zero_duration ttl then invalidate_cache s' else s'

module _ (sdk : Sdk) where
  abbrev checked_id : Option SpiffeId → Result SourceError SpiffeId
  checked_id none = err invalid_uri
  checked_id (some id) = if text_eq (id_string id) [] then err empty_id else ok id

  abbrev id_of_uri : Option Uri → Result SourceError SpiffeId
  id_of_uri none = err no_uri
  id_of_uri (some u) = checked_id (sdk.from_uri u)

  -- `extractSPIFFEID`: the first URI with the scheme of SPIFFE.
  unfoldable pub extract_spiffe_id : X509 → Result SourceError SpiffeId
  extract_spiffe_id c = id_of_uri (spiffe_uri c.uris)

  abbrev svid_of : Certificate → Option X509 → Result SourceError Svid
  svid_of c none = err nil_certificate
  svid_of c (some leaf) = do
    id ← extract_spiffe_id leaf
    ok (record {
      id = id;
      certificates = build_certificate_chain leaf c.chain;
      svid_key = c.private_key;
    })

  abbrev svid_of_pointer : Option Certificate → Result SourceError Svid
  svid_of_pointer none = err nil_certificate
  svid_of_pointer (some c) = svid_of c c.cert

  -- The SVID that a fetch makes.
  unfoldable pub fetch_svid : Provided → Result SourceError Svid
  fetch_svid p = do c ← wrap provider p.certificate; svid_of_pointer c

  abbrev pub keep_svid : Time → Source → Result SourceError Svid → Source × Result SourceError Svid
  keep_svid now s (err e) = (s, err e)
  keep_svid now s (ok v) =
      (record s { cached_svid = some v; svid_entry = some (new_cache_entry now s.cache_ttl) }, ok v)

  -- Behind the write lock: the cache is looked at again.
  unfoldable pub svid_locked : Time → Time → Provided → Source → Source × Result SourceError Svid
  svid_locked again stored p s =
      serve_or (fresh again s.cached_svid s.svid_entry) s (keep_svid stored s (fetch_svid p))

  -- `GetX509SVID`: the adapter at the read lock, and as it is when the write lock is given.
  unfoldable pub get_x509_svid :
      Time → Time → Time → Provided → Source → Source → Source × Result SourceError Svid
  get_x509_svid first again stored p s s' =
      serve_or (fresh first s.cached_svid s.svid_entry) s (svid_locked again stored p s')

abbrev pub bundle_of : Text → Option TrustBundle → Result SourceError Bundle
bundle_of d none = err empty_bundle
bundle_of d (some b) =
    if bundle_is_empty b
    then err empty_bundle
    else ok (record { trust_domain = d; authorities = raw_certificates b.certificates })

unfoldable pub fetch_bundle : Text → Provided → Result SourceError Bundle
fetch_bundle d p = do b ← wrap provider p.trust_bundle; bundle_of d b

abbrev pub keep_bundle :
    Time → Source → Result SourceError Bundle → Source × Result SourceError Bundle
keep_bundle now s (err e) = (s, err e)
keep_bundle now s (ok b) = (
  record s { cached_bundle = some b; bundle_entry = some (new_cache_entry now s.cache_ttl) },
  ok b,
)

unfoldable pub bundle_locked :
    Text → Time → Time → Provided → Source → Source × Result SourceError Bundle
bundle_locked d again stored p s =
    serve_or (fresh again s.cached_bundle s.bundle_entry) s
      (keep_bundle stored s (fetch_bundle d p))

-- `GetX509BundleForTrustDomain`, likewise.
unfoldable pub get_x509_bundle :
    Text → Time → Time → Time → Provided → Source → Source → Source × Result SourceError Bundle
get_x509_bundle d first again stored p s s' =
    serve_or (fresh first s.cached_bundle s.bundle_entry) s (bundle_locked d again stored p s')
