-- ===== src/Services/Lookup/Reach.antt =====
-- What the calls of getCertificate and getTrustBundle in identity_service.go lead to, one after the
-- other, from the state that NewIdentityService makes.
use ephemos.Base.{◌≡◌, refl, ap, ◌∙◌, ◌⊎◌, inl, inr, Option, none, some}
use ephemos.Domain.Certificate.{Certificate}
use ephemos.Domain.TrustBundle.{TrustBundle}
use ephemos.Domain.Spiffe.{SpiffeId}
use ephemos.Services.State.{
  State, CacheConfig, new_state, free, writing, lock, Call, returns, waits, Readings, Ports,
  service_name, with_mutex, r_lock,
}
use ephemos.Services.Lookup.{
  Text, get_certificate, get_trust_bundle, decide, decide_cached, act, act_bundle, usable_bundle,
  fetch_certificate, fetch_bundle,
}
use ephemos.Services.Lookup.Hits.{get_certificate-free, lock-free}
use ephemos.Services.Lookup.Bundles.{get_trust_bundle-free}

-- The state that a call leaves.
abbrev pub left_by {ℓ} : {A : Type ℓ} → Call A → State
left_by (returns s r) = s
left_by (waits s) = s

-- The states that the calls of one process lead to, whatever the provider and the clock answer.
pub data Reachable (start : State) : State → Type 0 where
  here : Reachable start start
  certificate_step :
      {s : State} (p : Ports) (t : Readings)
      → Reachable start s
      → Reachable start (left_by (get_certificate p t s))
  bundle_step :
      {s : State} (p : Ports) (t : Readings)
      → Reachable start s
      → Reachable start (left_by (get_trust_bundle p t s))

-- Nothing is cached, and the mutex is free or held by a writer.
abbrev pub Empty : SpiffeId → State → Type 0
Empty id s =
    (s.cached_cert ≡ none)
    × (s.cached_bundle ≡ none)
    × (s.cached_identity ≡ id)
    × ((s.mutex ≡ free) ⊎ (s.mutex ≡ writing))

-- A call that waits, and leaves nothing cached.
abbrev WaitsEmpty {ℓ} : {A : Type ℓ} → SpiffeId → Call A → Type ℓ
WaitsEmpty {A = A} id r = (u : State) × (r ≡ waits u) × Empty id u

get_certificate-held :
    (p : Ports) (t : Readings) (s : State) → lock s.mutex ≡ none → get_certificate p t s ≡ waits s
unfolding get_certificate
get_certificate-held p t s h = rw (h, get_certificate) refl

get_trust_bundle-held :
    (p : Ports) (t : Readings) (s : State) → lock s.mutex ≡ none → get_trust_bundle p t s ≡ waits s
unfolding get_trust_bundle
get_trust_bundle-held p t s h = rw (h, get_trust_bundle) refl

module _ (id : SpiffeId) (n : Text) (path : service_name id ≡ some n) where
  certificate-Empty :
      (p : Ports) (t : Readings) (s : State) → Empty id s → WaitsEmpty id (get_certificate p t s)
  unfolding get_certificate lock decide fetch_certificate r_lock
  certificate-Empty p t s (c, b, i, inl m) = (
    _,
    get_certificate-free p t s (lock-free s m)
        ∙ ap
            (λ (o : Option Certificate).
              act p t (with_mutex writing s) (decide_cached p t s o s.cert_cache_entry))
            c,
    (refl, b, i, inr refl),
  )
  certificate-Empty p t s (c, b, i, inr m) =
      (s, get_certificate-held p t s (ap lock m), (c, b, i, inr m))

  bundle-Empty :
      (p : Ports) (t : Readings) (s : State) → Empty id s → WaitsEmpty id (get_trust_bundle p t s)
  unfolding get_trust_bundle lock fetch_bundle r_lock
  bundle-Empty p t s (c, b, i, inl m) = (
    _,
    get_trust_bundle-free p t s (lock-free s m)
        ∙ ap
            (λ (o : Option TrustBundle).
              act_bundle p t (with_mutex writing s) (usable_bundle t o s.bundle_cache_entry))
            b,
    (c, b, i, inr refl),
  )
  bundle-Empty p t s (c, b, i, inr m) =
      (s, get_trust_bundle-held p t s (ap lock m), (c, b, i, inr m))

  left_by-Empty {ℓ} : {A : Type ℓ} (r : Call A) → WaitsEmpty id r → Empty id (left_by r)
  left_by-Empty r (u, e, h) = rw e h

  Reachable-Empty : {start s : State} → Empty id start → Reachable start s → Empty id s
  Reachable-Empty h here = h
  Reachable-Empty h (certificate_step p t r) =
      left_by-Empty _ (certificate-Empty p t _ (Reachable-Empty h r))
  Reachable-Empty h (bundle_step p t r) = left_by-Empty _ (bundle-Empty p t _ (Reachable-Empty h r))

  -- In every state that the calls reach from a new service, whose ID has a path that is not empty,
  -- nothing is cached, and the next getCertificate and the next getTrustBundle wait for the mutex,
  -- whatever the provider answers.
  pub Reachable-waits :
      (config : Option CacheConfig) (s : State)
      → Reachable (new_state id config) s
      → (p : Ports) (t : Readings)
      → (s.cached_cert ≡ none)
        × (s.cached_bundle ≡ none)
        × ((u : State) × (get_certificate p t s ≡ waits u))
        × ((u : State) × (get_trust_bundle p t s ≡ waits u))
  unfolding new_state
  Reachable-waits config s r p t =
      let h = Reachable-Empty (refl, refl, refl, inl refl) r in
      let (u, e, k) = certificate-Empty p t s h in
      let (v, f, l) = bundle-Empty p t s h in (h.0, h.1, (u, e), (v, f))
