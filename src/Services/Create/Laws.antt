-- ===== src/Services/Create/Laws.antt =====
-- What CreateServerIdentity and CreateClientIdentity of identity_service.go have done when they succeed.
use mathlib.Core.Path.{subst}
use ephemos.Base.{
  wrap-eq-ok, Result-cases, ℕ, ◌≡◌, refl, sym, ap, ◌∙◌, inl, inr, Option, none, some, [], ◌∷◌,
  Result, ok, wrap,
}
use ephemos.GoText.{text, Text}
use ephemos.GoTime.{Time}
use ephemos.Domain.Spiffe.{SpiffeId}
use ephemos.Domain.Certificate.{CertError, Certificate}
use ephemos.Domain.TrustBundle.{TrustBundle}
use ephemos.Domain.Identity.{ServiceIdentity}
use ephemos.Services.Retry.{hit}
use ephemos.Services.State.{
  followed_by, Mutex, note, followed_by-eq-ok, returns-injective, granted-eq-returns, State,
  CacheConfig, new_state, free, r_lock, Call, returns, waits, Readings, Policy, Ports, service_name,
}
use ephemos.Services.Lookup.{get_certificate, get_trust_bundle}
use ephemos.Services.Lookup.Hits.{Serves, get_certificate-Hit}
use ephemos.Services.Lookup.Bundles.{ServesBundle, get_trust_bundle-HitBundle}
use ephemos.Services.Lookup.Reach.{Reachable, Reachable-waits}
use ephemos.Services.Create.{
  granted, create_client_identity, create_server_identity, deliver, take_bundle, check_certificate,
  no_bundle, transport, invalid, no_certificate, validation, accept, hand_over, check_own,
  own_identity, own_options, validate_service_identity, new_authentication_policy, create_policy,
  create_identity,
}

-- What a successful call has done: it built the transport from the certificate that the cache serves,
-- accepted under the service's own identity and the cached bundle, that fresh bundle, and the policy
-- for that identity.
abbrev BuiltFromCache :
    (Option Certificate → TrustBundle → Policy → Result Text ℕ)
    → Ports
    → Readings
    → Time
    → Readings
    → State
    → ℕ
    → Type 0
BuiltFromCache build p t now u s h =
    (c : Certificate) × (b : TrustBundle) × (i : ServiceIdentity) × Serves p t s c
    × ServesBundle u s b
    × (own_identity p.sdk s.cached_identity ≡ some i)
    × (p.validator now (some c) (own_options i (some b)) ≡ ok tt)
    × (build (some c) b (new_authentication_policy p.sdk (some i)) ≡ ok h)

check_own-ok :
    (p : Ports) (now : Time) (bundle : Option TrustBundle) (c : Certificate)
    (own : Option ServiceIdentity)
    → check_own p now bundle (some c) own ≡ ok tt
    → (i : ServiceIdentity) × (own ≡ some i)
      × (p.validator now (some c) (own_options i bundle) ≡ ok tt)
check_own-ok p now bundle c none h = cc
check_own-ok p now bundle c (some i) h =
    elim (Result-cases (p.validator now (some c) (own_options i bundle))) [
      | inl (u, e) ↦ (i, refl, e)
      | inr (e, k) ↦ cc (
          sym (ap (λ (r : Result CertError (Unit {0})). accept (some c) (wrap validation r)) k) ∙ h)
    ]

validate_service_identity-ok :
    (p : Ports) (now : Time) (s : State) (c : Certificate) {s' : State}
    → validate_service_identity p now s (some c) ≡ returns s' (ok tt)
    → (s' ≡ s)
      × ((i : ServiceIdentity) × (own_identity p.sdk s.cached_identity ≡ some i)
          × (p.validator now (some c) (own_options i s.cached_bundle) ≡ ok tt))
unfolding validate_service_identity
validate_service_identity-ok p now s c h =
    let (e, f) = returns-injective _ _ _ _ (granted-eq-returns _ s _ h) in
    (sym e, check_own-ok p now s.cached_bundle c (own_identity p.sdk s.cached_identity) f)

create_policy-some :
    (p : Ports) (id : SpiffeId) (i : ServiceIdentity)
    → own_identity p.sdk id ≡ some i
    → create_policy p id ≡ some (new_authentication_policy p.sdk (some i))
unfolding create_policy
create_policy-some p id i h = rw (h, create_policy) refl

hand_over-ok :
    (build : Option Certificate → TrustBundle → Policy → Result Text ℕ) (p : Ports) (s : State)
    (cert : Option Certificate) (b : TrustBundle) (id : SpiffeId) (i : ServiceIdentity) {s' : State}
    {h : ℕ}
    → own_identity p.sdk id ≡ some i
    → hand_over build p s cert b (create_policy p id) ≡ returns s' (ok h)
    → build cert b (new_authentication_policy p.sdk (some i)) ≡ ok h
hand_over-ok build p s cert b id i e h =
    let f = ap (hand_over build p s cert b) (create_policy-some p id i e) in
    let (k, l) = returns-injective _ _ _ _ (sym f ∙ h) in wrap-eq-ok transport _ l

hit_lem {ℓ} :
    {A : Type ℓ} (r : Call A) (v s1 : State) (a b : A)
    → r ≡ returns v (ok a)
    → r ≡ returns s1 (ok b)
    → (s1 ≡ v) × (b ≡ a)
hit_lem r v s1 a b h k = (cc, cc)

-- The last three calls, on a certificate and in a state with the mutex free.
check_certificate-ok :
    (build : Option Certificate → TrustBundle → Policy → Result Text ℕ) (p : Ports) (now : Time)
    (u : Readings) (s s' : State) (n : Text) (c : Certificate) (h : ℕ)
    → s.mutex ≡ free
    → service_name s.cached_identity ≡ some n
    → check_certificate build p now u s.cached_identity s (some c) ≡ returns s' (ok h)
    → (b : TrustBundle) × (i : ServiceIdentity) × ServesBundle u s b
      × (own_identity p.sdk s.cached_identity ≡ some i)
      × (p.validator now (some c) (own_options i (some b)) ≡ ok tt)
      × (build (some c) b (new_authentication_policy p.sdk (some i)) ≡ ok h)
check_certificate-ok build p now u s s' n c h m k e =
    let id = s.cached_identity in
    let (s2, valid, e2, f2) =
      followed_by-eq-ok invalid (validate_service_identity p now s (some c))
        (take_bundle build p u id (some c)) e in
    let (q, (i, o, v)) = validate_service_identity-ok p now s c e2 in
    let f2' =
      subst (λ (x : State). take_bundle build p u id (some c) x valid ≡ returns s' (ok h)) q f2 in
    let (s3, b, e3, f3) =
      followed_by-eq-ok no_bundle (get_trust_bundle p u s) (deliver build p id (some c)) f2' in
    elim (get_trust_bundle-HitBundle p u s n m k) [
      | inr (x, (y, z, w, a)) ↦ cc (sym z ∙ e3)
      | inl (d, x, z) ↦
          let (a, l) = hit_lem _ _ _ _ _ z e3 in
          (
            d,
            i,
            x,
            o,
            ap (λ (r : Option TrustBundle). p.validator now (some c) (own_options i r)) (sym x.0)
                ∙ v,
            ap (λ (r : TrustBundle). build (some c) r (new_authentication_policy p.sdk (some i)))
                  (sym l)
                ∙ hand_over-ok build p s3 (some c) b id i o f3,
          )
    ]

-- What a call that succeeds has done, whatever the state.
create_identity-BuiltFromCache :
    (build : Option Certificate → TrustBundle → Policy → Result Text ℕ) (p : Ports) (t : Readings)
    (now : Time) (u : Readings) (s s' : State) (n : Text) (h : ℕ)
    → s.mutex ≡ free
    → service_name s.cached_identity ≡ some n
    → create_identity build p t now u s ≡ returns s' (ok h)
    → BuiltFromCache build p t now u s h
unfolding create_identity
create_identity-BuiltFromCache build p t now u s s' n h m k e =
    let id = s.cached_identity in
    let (s1, cert, e1, f1) =
      followed_by-eq-ok no_certificate (get_certificate p t s) (check_certificate build p now u id)
        (granted-eq-returns (r_lock s.mutex) s _ e) in
    elim (get_certificate-Hit p t s n m k) [
      | inr (x, (v, q, w, y)) ↦ cc (sym q ∙ e1)
      | inl (c, x, q) ↦
          let (a, l) = hit_lem _ _ _ _ _ q e1 in
          let f2 =
            subst
              (λ (d : Option Certificate).
                check_certificate build p now u id s1 d ≡ returns s' (ok h))
              l f1 in
          let f3 =
            subst (λ (z : State). check_certificate build p now u id z (some c) ≡ returns s' (ok h))
              a f2 in
          let (b, i, y, o, v, w) =
            check_certificate-ok build p now u (note (hit (text "certificate") ∷ []) s) s' n c h m k
              f3 in
          (c, b, i, x, y, o, v, w)
    ]

granted-waits {ℓ} :
    {A : Type ℓ} (o : Option Mutex) (s v : State) (r : Call A)
    → r ≡ waits v
    → (w : State) × (granted o s r ≡ waits w)
granted-waits none s v r h = (s, refl)
granted-waits (some m) s v r h = (v, h)

-- In every state that the lookups reach from a new service, whose ID has a path that is not empty,
-- neither CreateServerIdentity nor CreateClientIdentity returns, whatever the provider, the
-- validator, the transport and the clock answer.
pub Reachable-create_waits :
    (id : SpiffeId) (n : Text) (config : Option CacheConfig) (s : State)
    → service_name id ≡ some n
    → Reachable (new_state id config) s
    → (p : Ports) (t : Readings) (now : Time) (u : Readings)
    → ((v : State) × (create_server_identity p t now u s ≡ waits v))
      × ((v : State) × (create_client_identity p t now u s ≡ waits v))
unfolding create_server_identity create_client_identity create_identity
Reachable-create_waits id n config s h r p t now u =
    let (c, b, (v, e), f) = Reachable-waits id n h config s r p t in
    let go : (build : Option Certificate → TrustBundle → Policy → Result Text ℕ)
        → (w : State) × (create_identity build p t now u s ≡ waits w) =
      λ build. granted-waits _ s v _ (
        ap
          (λ (x : Call (Option Certificate)).
            followed_by no_certificate x (check_certificate build p now u s.cached_identity))
          e) in
    (go p.create_server, go p.create_client)
