-- ===== src/Middleware/Admission.antt =====
-- Which requests the handlers of contrib/middleware/gin/identity.go let through.
use ephemos.Base.{
  >>=-eq-ok, ◌≡◌, refl, sym, ap, ◌∙◌, ◌≢◌, ◌↔◌, ◌⊎◌, inl, inr, Bool, true, false, not, Option, none,
  some, List, [], ◌∷◌, arith, Bool-cases, Result, ok, err, fail_if, ◌>>=◌, ◌>>◌,
}
use mathlib.Core.Path.{subst}
use ephemos.GoText.{Text, text, text_eq}
use ephemos.GoText.Laws.{text_eq_iff, eq_of_text_eq}
use ephemos.Domain.X509.{X509}
use ephemos.Domain.Spiffe.{Sdk, SpiffeId}
use ephemos.Domain.Namespace.{last_segment}
use ephemos.Domain.Certificate.{spiffe_uri}
use ephemos.Middleware.{
  PeerIdentity, IdentityConfig, MiddlewareError, no_spiffe_id, domain_not_allowed, HttpStatus,
  forbidden, extract_service_name, is_among, domain_allowed, uri_text, parsed,
  validate_client_certificate, required, identified, identity_middleware, require_service,
  require_trust_domain,
}

abbrev pub Among : Text → List Text → Type 0
Among s [] = ⊥
Among s (t ∷ ts) = (s ≡ t) ⊎ Among s ts

is_among_iff : (s : Text) (ts : List Text) → (is_among s ts ≡ true) ↔ Among s ts
unfolding is_among
is_among_iff s [] = (λ h. cc, λ h. absurd h)
is_among_iff s (t ∷ ts) = ground (arith, text_eq_iff s t, is_among_iff s ts)

abbrev SameName : Text → Type 0
SameName p = extract_service_name p ≡ last_segment p

-- The name that the middleware takes is the one that the domain takes.
extract_service_name_lem : (p : Text) → extract_service_name p ≡ last_segment p
unfolding extract_service_name last_segment ephemos.GoText.split_on ephemos.GoText.trim_prefix
extract_service_name_lem [] = refl
extract_service_name_lem (c ∷ s) = elim (Bool-cases (text_eq (c ∷ s) (text "/"))) [
  | inl e ↦ subst SameName (sym (eq_of_text_eq (c ∷ s) (text "/") e)) refl
  | inr e ↦ rw e refl
]

abbrev pub IsAllowed : Text → List Text → Type 0
IsAllowed d ts = (ts ≡ []) ⊎ Among d ts

domain_allowed_iff : (d : Text) (ts : List Text) → (domain_allowed d ts ≡ true) ↔ IsAllowed d ts
domain_allowed_iff d [] = (λ h. inl refl, λ h. refl)
domain_allowed_iff d (t ∷ ts) =
    let (f, g) = is_among_iff d (t ∷ ts) in
    (λ h. inr (f h), λ h. elim h [ inl e ↦ cc | inr a ↦ g a ])

id_in : Result MiddlewareError SpiffeId → SpiffeId
id_in (ok id) = id
id_in (err e) = record { domain = []; path = [] }

identity_in : Result MiddlewareError PeerIdentity → PeerIdentity → PeerIdentity
identity_in (ok i) j = i
identity_in (err e) j = j

not_failed : (b : Bool) (s : HttpStatus) → (fail_if (not b) s ≡ ok tt) ↔ (b ≡ true)
not_failed true s = (λ h. refl, λ h. refl)
not_failed false s = (λ h. cc, λ h. cc)

module _ (names domains : List Text) where
  -- The two handlers in a row.
  abbrev pub guards : Option PeerIdentity → Result HttpStatus (Unit {0})
  guards i = require_service names i >> require_trust_domain domains i

  both :
      (a b : Bool)
      → ((fail_if (not a) forbidden >> fail_if (not b) forbidden) ≡ ok tt)
        ↔ ((a ≡ true) × (b ≡ true))
  both true b = let (f, g) = not_failed b forbidden in (λ h. (refl, f h), λ h. g h.1)
  both false b = (λ h. cc, λ h. cc)

  guards_iff :
      (i : PeerIdentity)
      → (guards (some i) ≡ ok tt) ↔ (Among i.peer_name names × Among i.peer_domain domains)
  unfolding require_service require_trust_domain
  guards_iff i =
      let (f, g) = both (is_among i.peer_name names) (is_among i.peer_domain domains) in
      let n = is_among_iff i.peer_name names in
      let d = is_among_iff i.peer_domain domains in
      (λ h. let (a, b) = f h in (n.0 a, d.0 b), λ (a, b). g (n.1 a, d.1 b))

  no_identity : (r : Bool) (s : HttpStatus) → (required r s >>= guards) ≢ ok tt
  unfolding require_service
  no_identity true s h = cc
  no_identity false s h = cc

  identified-ok :
      (r : Result MiddlewareError PeerIdentity)
      → (identified r >>= guards) ≡ ok tt
      → (i : PeerIdentity) × (r ≡ ok i) × (guards (some i) ≡ ok tt)
  identified-ok (err e) h = cc
  identified-ok (ok i) h = (i, refl, h)

  identified_iff :
      (r : Result MiddlewareError PeerIdentity)
      → ((identified r >>= guards) ≡ ok tt)
        ↔ ((i : PeerIdentity) × (r ≡ ok i) × (guards (some i) ≡ ok tt))
  identified_iff r = (identified-ok r, λ (i, e, h). rw e h)

parsed-ok : (o : Option SpiffeId) (id : SpiffeId) → parsed o ≡ ok id → o ≡ some id
unfolding id_in
parsed-ok none id h = cc
parsed-ok (some x) id h = ap some (ap id_in h)

tested : (b : Bool) (e : MiddlewareError) → fail_if b e ≡ ok tt → b ≡ false
tested true e h = cc
tested false e h = refl

tested_not : (b : Bool) (e : MiddlewareError) → fail_if (not b) e ≡ ok tt → b ≡ true
tested_not true e h = refl
tested_not false e h = cc

module _ (sdk : Sdk) (config : IdentityConfig) (c : X509) where
  abbrev first_uri : Text
  first_uri = uri_text (spiffe_uri c.uris)

  -- The identity of an ID.
  abbrev pub identity_of : SpiffeId → PeerIdentity
  identity_of id = record {
    peer_id = first_uri;
    peer_name = extract_service_name id.path;
    peer_domain = id.domain;
  }

  -- The certificate's first SPIFFE URI is that ID, of a domain that the configuration allows.
  abbrev pub HasId : SpiffeId → Type 0
  HasId id =
      (text_eq first_uri [] ≡ false)
      × (sdk.from_string first_uri ≡ some id)
      × IsAllowed id.domain config.trust_domains

  validated :
      (i : PeerIdentity)
      → validate_client_certificate sdk config c ≡ ok i
      → (id : SpiffeId) × HasId id × (i ≡ identity_of id)
  unfolding validate_client_certificate identity_in
  validated i h =
      let (u, e, f) = >>=-eq-ok (fail_if (text_eq first_uri []) no_spiffe_id) (λ passed. _) h in
      let (id, g, k) = >>=-eq-ok (parsed (sdk.from_string first_uri)) (λ id. _) f in
      let (v, l, m) =
        >>=-eq-ok (fail_if (not (domain_allowed id.domain config.trust_domains)) domain_not_allowed)
          (λ passed. _) k in
      (
        id,
        (
          tested _ _ e,
          parsed-ok _ id g,
          (domain_allowed_iff id.domain config.trust_domains).0 (tested_not _ _ l),
        ),
        sym (ap (λ r. identity_in r i) m),
      )

  validates :
      (id : SpiffeId) → HasId id → validate_client_certificate sdk config c ≡ ok (identity_of id)
  unfolding validate_client_certificate
  validates id (e, f, g) = rw (e, f, (domain_allowed_iff id.domain config.trust_domains).1 g) refl

module _ (sdk : Sdk) (config : IdentityConfig) (names domains : List Text) where
  abbrev pub Admitted : Option (List X509) → Type 0
  Admitted tls =
      (c : X509) × (cs : List X509) × (id : SpiffeId) × (tls ≡ some (c ∷ cs))
      × HasId sdk config c id
      × Among (last_segment id.path) names
      × Among id.domain domains

  admitted :
      (c : X509) (cs : List X509)
      → (identity_middleware sdk config (some (c ∷ cs)) >>= guards names domains) ≡ ok tt
      → Admitted (some (c ∷ cs))
  unfolding identity_middleware
  admitted c cs h =
      let (i, e, g) = identified-ok names domains (validate_client_certificate sdk config c) h in
      let (id, p, same) = validated sdk config c i e in
      let (a, b) = (guards_iff names domains i).0 g in
      (
        c,
        cs,
        id,
        refl,
        p,
        subst (λ n. Among n names)
            (ap (λ (x : PeerIdentity). x.peer_name) same ∙ extract_service_name_lem id.path) a,
        subst (λ n. Among n domains) (ap (λ (x : PeerIdentity). x.peer_domain) same) b,
      )

  passes :
      (c : X509) (cs : List X509) (id : SpiffeId)
      → HasId sdk config c id
      → Among (last_segment id.path) names
      → Among id.domain domains
      → (identity_middleware sdk config (some (c ∷ cs)) >>= guards names domains) ≡ ok tt
  unfolding identity_middleware
  passes c cs id p a b =
      (identified_iff names domains (validate_client_certificate sdk config c)).1 (
        identity_of sdk config c id,
        validates sdk config c id p,
        (guards_iff names domains (identity_of sdk config c id)).1
            (subst (λ n. Among n names) (sym (extract_service_name_lem id.path)) a, b),
      )

  Admitted-passes :
      (tls : Option (List X509))
      → Admitted tls
      → (identity_middleware sdk config tls >>= guards names domains) ≡ ok tt
  Admitted-passes tls (c, cs, id, e, p, a, b) =
      subst (λ t. (identity_middleware sdk config t >>= guards names domains) ≡ ok tt) (sym e)
        (passes c cs id p a b)

  -- A request passes IdentityMiddleware and then RequireService and RequireTrustDomain exactly if it
  -- came by TLS with a certificate first whose first spiffe URI is not empty and reads as an ID, of
  -- a domain that the configuration allows (any, if it names none), with a last segment of its path
  -- among the names and its domain among the domains; whether certificates are required makes no
  -- difference to that.
  pub identity_middleware-Admitted :
      (tls : Option (List X509))
      → ((identity_middleware sdk config tls >>= λ i.
            require_service names i >> require_trust_domain domains i)
          ≡ ok tt)
        ↔ Admitted tls
  unfolding identity_middleware
  identity_middleware-Admitted none = (
    λ h. absurd (no_identity names domains config.require_client_cert _ h),
    λ h. Admitted-passes none h,
  )
  identity_middleware-Admitted (some []) = (
    λ h. absurd (no_identity names domains config.require_client_cert _ h),
    λ h. Admitted-passes (some []) h,
  )
  identity_middleware-Admitted (some (c ∷ cs)) =
      (admitted c cs, λ h. Admitted-passes (some (c ∷ cs)) h)
