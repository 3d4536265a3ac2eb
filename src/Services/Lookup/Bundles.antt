-- ===== src/Services/Lookup/Bundles.antt =====
-- When getTrustBundle of identity_service.go serves from the cache, and what it does otherwise.
use ephemos.Base.{◌≡◌, refl, ap, ◌∙◌, ◌⊎◌, inl, inr, Option, none, some, [], ◌∷◌, Bool-cases, ok}
use ephemos.GoText.{Text, text}
use ephemos.Domain.Cache.{CacheEntry, is_fresh_at}
use ephemos.Domain.TrustBundle.{TrustBundle}
use ephemos.Services.Retry.{hit}
use ephemos.Services.State.{
  State, free, writing, lock, r_lock, returns, Readings, Ports, service_name, note, with_mutex,
}
use ephemos.Services.Lookup.{act_bundle, usable_bundle, fetch_bundle, get_trust_bundle}
use ephemos.Services.Lookup.Hits.{FreshEntry, WaitsForItself, lock-free, with_mutex-free}

-- The cached bundle is there and fresh.
abbrev pub ServesBundle : Readings → State → TrustBundle → Type 0
ServesBundle t s b = (s.cached_bundle ≡ some b) × FreshEntry s.bundle_cache_entry t.fresh

-- A hit: the bundle that serves is returned, and only the metrics change.
abbrev pub HitBundle : Ports → Readings → State → Type 0
HitBundle p t s =
    (b : TrustBundle) × ServesBundle t s b
    × (get_trust_bundle p t s ≡ returns (note (hit (text "bundle") ∷ []) s) (ok b))

data Usable (t : Readings) (s : State) : Option TrustBundle → Type 0 where
  usable_some : (b : TrustBundle) → ServesBundle t s b → Usable t s (some b)
  usable_none : ((b : TrustBundle) → ¬ ServesBundle t s b) → Usable t s none

cached-Usable :
    (t : Readings) (s : State) (bundle : Option TrustBundle) (entry : Option CacheEntry)
    → s.cached_bundle ≡ bundle
    → s.bundle_cache_entry ≡ entry
    → Usable t s (usable_bundle t bundle entry)
cached-Usable t s none entry h k = usable_none (λ b (e, f). cc)
cached-Usable t s (some b) none h k = usable_none (λ c (e, (x, y, z)). cc)
cached-Usable t s (some b) (some e) h k = elim (Bool-cases (is_fresh_at e t.fresh)) [
  | inl f ↦ rw f (usable_some b (h, (e, k, f)))
  | inr f ↦ rw f (usable_none (λ c (d, (x, y, z)). cc))
]

act_bundle-Usable :
    (p : Ports) (t : Readings) (s : State) (n : Text) (b : Option TrustBundle)
    → service_name s.cached_identity ≡ some n
    → Usable t s b
    → ((c : TrustBundle) × ServesBundle t s c
        × (act_bundle p t (with_mutex writing s) b
            ≡ returns (note (hit (text "bundle") ∷ []) (with_mutex free s)) (ok c)))
      ⊎ (((c : TrustBundle) → ¬ ServesBundle t s c)
          × WaitsForItself (act_bundle p t (with_mutex writing s) b))
unfolding fetch_bundle r_lock
act_bundle-Usable p t s n b h (usable_some c k) = inl (c, k, refl)
act_bundle-Usable p t s n b h (usable_none k) = inr (k, (_, refl, refl, refl))

pub get_trust_bundle-free :
    (p : Ports) (t : Readings) (s : State)
    → lock s.mutex ≡ some writing
    → get_trust_bundle p t s
      ≡ act_bundle p t (with_mutex writing s) (usable_bundle t s.cached_bundle s.bundle_cache_entry)
unfolding get_trust_bundle
get_trust_bundle-free p t s h = rw (h, get_trust_bundle) refl

-- With the mutex free and a path that is not empty, getTrustBundle returns exactly if the cached
-- bundle is fresh, and it returns that one; otherwise it waits for a mutex that it holds itself.
pub get_trust_bundle-HitBundle :
    (p : Ports) (t : Readings) (s : State) (n : Text)
    → s.mutex ≡ free
    → service_name s.cached_identity ≡ some n
    → HitBundle p t s
      ⊎ (((b : TrustBundle) → ¬ ServesBundle t s b) × WaitsForItself (get_trust_bundle p t s))
get_trust_bundle-HitBundle p t s n h k =
    let e = get_trust_bundle-free p t s (lock-free s h) in
    elim (act_bundle-Usable p t s n _ k
      (cached-Usable t s s.cached_bundle s.bundle_cache_entry refl refl)) [
        | inl (c, f, r) ↦ inl (
          c,
          f,
          e
              ∙ r
              ∙ ap (λ (u : State). returns (note (hit (text "bundle") ∷ []) u) (ok c))
                  (with_mutex-free s h),
        )
        | inr (f, (u, r, m, q)) ↦ inr (f, (u, e ∙ r, m, q))
      ]
