-- ===== src/Adapters/Source/Caching.antt =====
-- What the caches of SourceAdapter of grpc_provider_rotatable.go serve.
use ephemos.Base.{
  >>=-eq-ok, ◌≤◌, ◌≡◌, refl, sym, ap, ◌∙◌, Bool, true, false, Option, none, some, arith,
  if◌then◌else◌, Result, ok, err, wrap,
}
use ephemos.Base.Int.{pos}
use mathlib.Core.Path.{subst}
use ephemos.GoText.{Text}
use ephemos.GoTime.{Time, Duration, sub_time, saturate}
use ephemos.Domain.Spiffe.{Sdk}
use ephemos.Domain.Cache.{new_cache_entry, is_fresh_at}
use ephemos.Application.Providers.{Svid}
use ephemos.Adapters.Source.{
  bundle_of, provider, TrustBundle, serve_or, Bundle, Source, Provided, SourceError, fresh,
  set_cache_ttl, fetch_svid, keep_svid, svid_locked, get_x509_svid, fetch_bundle, keep_bundle,
  bundle_locked, get_x509_bundle,
}

-- A bundle that is fetched, and stored.
bundle-fetched :
    (d : Text) (first again stored : Time) (p : Provided) (s s' : Source) (b : Bundle)
    → fresh first s.cached_bundle s.bundle_entry ≡ none
    → fresh again s'.cached_bundle s'.bundle_entry ≡ none
    → fetch_bundle d p ≡ ok b
    → get_x509_bundle d first again stored p s s' ≡ keep_bundle stored s' (ok b)
unfolding get_x509_bundle bundle_locked
bundle-fetched d first again stored p s s' b f g h =
    ap (λ o. serve_or o s (bundle_locked d again stored p s')) f
    ∙ ap (λ o. serve_or o s' (keep_bundle stored s' (fetch_bundle d p))) g
    ∙ ap (keep_bundle stored s') h

bundle_of-domain :
    (d : Text) (o : Option TrustBundle) (b : Bundle) → bundle_of d o ≡ ok b → b.trust_domain ≡ d
bundle_of-domain d none b h = cc
bundle_of-domain d (some t) b h = ground arith

fetched-domain :
    (d : Text) (p : Provided) (b : Bundle) → fetch_bundle d p ≡ ok b → b.trust_domain ≡ d
unfolding fetch_bundle
fetched-domain d p b h =
    let (o, e, f) = >>=-eq-ok (wrap provider p.trust_bundle) (bundle_of d) h in
    bundle_of-domain d o b f

-- A bundle that was fetched for one trust domain, with no fresh one in the cache, carries that
-- domain's name, and is what the next call returns for any other domain too, as long as it is fresh,
-- with the provider not asked.
pub get_x509_bundle-any_domain :
    (d e : Text) (first again stored later again' stored' : Time) (p p' : Provided)
    (s s' s'' : Source) (b : Bundle)
    → fresh first s.cached_bundle s.bundle_entry ≡ none
    → fresh again s'.cached_bundle s'.bundle_entry ≡ none
    → fetch_bundle d p ≡ ok b
    → is_fresh_at (new_cache_entry stored s'.cache_ttl) later ≡ true
    → let r = get_x509_bundle d first again stored p s s' in
      (r.1 ≡ ok b)
      × (b.trust_domain ≡ d)
      × (get_x509_bundle e later again' stored' p' r.0 s'' ≡ (r.0, ok b))
unfolding get_x509_bundle
get_x509_bundle-any_domain d e first again stored later again' stored' p p' s s' s'' b f g h i =
    let q = bundle-fetched d first again stored p s s' b f g h in
    (ap (λ x. x.1) q, fetched-domain d p b h, rw q (rw i refl))

-- An entry with no time to live is not fresh, from the time at which it was made on.
zero-not_fresh : (t now : Time) → t ≤ now → is_fresh_at (new_cache_entry t (pos 0)) now ≡ false
unfolding is_fresh_at new_cache_entry sub_time saturate
zero-not_fresh t now h = ground arith

-- A call that finds no fresh SVID asks the provider.
svid-missed :
    (sdk : Sdk) (first again stored : Time) (p : Provided) (s s' : Source)
    → fresh first s.cached_svid s.svid_entry ≡ none
    → fresh again s'.cached_svid s'.svid_entry ≡ none
    → get_x509_svid sdk first again stored p s s' ≡ keep_svid sdk stored s' (fetch_svid sdk p)
unfolding get_x509_svid svid_locked
svid-missed sdk first again stored p s s' f g =
    ap (λ o. serve_or o s (svid_locked sdk again stored p s')) f
    ∙ ap (λ o. serve_or o s' (keep_svid sdk stored s' (fetch_svid sdk p))) g

-- A source whose time to live was set to 0, behind calls of GetX509SVID, and the time of the last.
pub data Off (sdk : Sdk) : Source → Time → Type 0 where
  set_to_zero : (s : Source) (t : Time) → Off sdk (set_cache_ttl (pos 0) s) t
  called :
      {s : Source} {t : Time} (first again stored : Time) (p : Provided)
      → Off sdk s t
      → t ≤ first
      → t ≤ again
      → t ≤ stored
      → Off sdk (get_x509_svid sdk first again stored p s s).0 stored

record IsOff (s : Source) (t : Time) : Type 0 where
  no_ttl : s.cache_ttl ≡ pos 0
  not_fresh : (now : Time) → t ≤ now → fresh now s.cached_svid s.svid_entry ≡ none

set_cache_ttl-IsOff : (s : Source) (t : Time) → IsOff (set_cache_ttl (pos 0) s) t
unfolding set_cache_ttl
set_cache_ttl-IsOff s t = record { no_ttl = refl; not_fresh = λ now h. refl }

entry-not_fresh :
    (v : Svid) (d : Duration) (t now : Time)
    → d ≡ pos 0
    → t ≤ now
    → fresh now (some v) (some (new_cache_entry t d)) ≡ none
entry-not_fresh v d t now e h =
    ap (λ (b : Bool). if b then some v else none)
      (ap (λ (x : Duration). is_fresh_at (new_cache_entry t x) now) e ∙ zero-not_fresh t now h)

keep_svid-IsOff :
    (sdk : Sdk) (s : Source) (t stored : Time) (r : Result SourceError Svid)
    → t ≤ stored
    → IsOff s t
    → IsOff (keep_svid sdk stored s r).0 stored × ((keep_svid sdk stored s r).1 ≡ r)
keep_svid-IsOff sdk s t stored (err e) h o =
    (record { no_ttl = o.no_ttl; not_fresh = λ now k. o.not_fresh now (omega arith) }, refl)
keep_svid-IsOff sdk s t stored (ok v) h o = (
  record {
    no_ttl = o.no_ttl;
    not_fresh = λ now k. entry-not_fresh v s.cache_ttl stored now o.no_ttl k;
  },
  refl,
)

called-IsOff :
    (sdk : Sdk) (s : Source) (t first again stored : Time) (p : Provided)
    → IsOff s t
    → t ≤ first
    → t ≤ again
    → t ≤ stored
    → IsOff (get_x509_svid sdk first again stored p s s).0 stored
      × ((get_x509_svid sdk first again stored p s s).1 ≡ fetch_svid sdk p)
called-IsOff sdk s t first again stored p o f g h =
    let e = svid-missed sdk first again stored p s s (o.not_fresh first f) (o.not_fresh again g) in
    let (q, r) = keep_svid-IsOff sdk s t stored (fetch_svid sdk p) h o in
    (
      subst (λ (x : Source × Result SourceError Svid). IsOff x.0 stored) (sym e) q,
      ap (λ x. x.1) e ∙ r,
    )

Off-IsOff : {sdk : Sdk} {s : Source} {t : Time} → Off sdk s t → IsOff s t
Off-IsOff (set_to_zero s t) = set_cache_ttl-IsOff s t
Off-IsOff {sdk} (called {s} {t} first again stored p o f g h) =
    (called-IsOff sdk s t first again stored p (Off-IsOff o) f g h).0

-- With the time to live set to 0, and whatever calls of GetX509SVID came since, a call at a time not
-- before them returns what the provider's answer gives, never a cached SVID.
Off-asks :
    {sdk : Sdk} {s : Source} {t : Time} (first again stored : Time) (p : Provided)
    → Off sdk s t
    → t ≤ first
    → t ≤ again
    → t ≤ stored
    → (get_x509_svid sdk first again stored p s s).1 ≡ fetch_svid sdk p
Off-asks {sdk} {s} {t} first again stored p o f g h =
    (called-IsOff sdk s t first again stored p (Off-IsOff o) f g h).1
