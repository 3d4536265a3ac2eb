-- ===== src/Application/Authentication/Connections.antt =====
-- What CreateAuthenticatedConnection of authentication_service.go builds.
use ephemos.Base.{
  wrap-eq-ok, >>=-eq-ok, ◌≡◌, refl, sym, ap, ◌∙◌, true, Option, none, some, List, [], ◌∷◌, map,
  Result, ok, err, wrap,
}
use mathlib.Core.Path.{subst}
use ephemos.GoText.{Text}
use ephemos.GoTime.{Time}
use ephemos.Domain.X509.{X509}
use ephemos.Domain.TrustDomain.{TrustDomain}
use ephemos.Domain.Namespace.{Namespace, new_namespace_from_string}
use ephemos.Domain.Certificate.{Certificate, validate, no_options}
use ephemos.Domain.TrustBundle.{TrustBundle, new_trust_bundle, bundle_validate}
use ephemos.Domain.TrustBundle.Merging.{bundle_of, new_trust_bundle-value}
use ephemos.Application.Providers.{
  Svid, Answers, AppError, bad_target, domain_bundle, bad_bundle, Outside,
}
use ephemos.Application.Providers.Laws.{made_of, certificate_of-ok}
use ephemos.Application.Authentication.{
  Refreshing, AuthenticationService, AuthenticatedConnection, get_validated_svid, svid_certificate,
  authorities_of, target_domain, connect, create_authenticated_connection,
}

parts : Text → Certificate → TrustBundle → TrustDomain → AuthenticatedConnection
parts target c b d = record {
  certificate = c;
  trust_bundle = b;
  policy = record { identity = none; trust_domain = d; require_auth = true };
  target_service = target;
}

-- The connection of a certificate, a domain's bundle and a target.
abbrev pub connection_of : Certificate → List X509 → TrustDomain → Text → AuthenticatedConnection
connection_of c roots d target = record {
  certificate = c;
  trust_bundle = bundle_of roots;
  policy = record { identity = none; trust_domain = d; require_auth = true };
  target_service = target;
}

connection_in :
    Result AppError AuthenticatedConnection → AuthenticatedConnection → AuthenticatedConnection
connection_in (ok c) d = c
connection_in (err e) d = d

domain_in : Result AppError TrustDomain → TrustDomain → TrustDomain
domain_in (ok c) d = c
domain_in (err e) d = d

roots_in : Result AppError (List X509) → List X509
roots_in (ok c) = c
roots_in (err e) = []

same_connection :
    (target : Text) (c c' : Certificate) (b b' : TrustBundle) (d d' : TrustDomain)
    → c ≡ c'
    → b ≡ b'
    → d ≡ d'
    → parts target c b d ≡ parts target c' b' d'
unfolding parts
same_connection target c c' b b' d d' p q r = rw (p, q, r) refl

module _ (o : Outside) (now : Time) where
  certificate_made :
      (v : Svid) (cs : List X509) (c : Certificate)
      → svid_certificate o now v cs ≡ ok c
      → (leaf : X509) × (rest : List X509) × (cs ≡ leaf ∷ rest)
        × (validate o.sdk o.verifier now (made_of leaf rest v.svid_key) no_options ≡ ok tt)
        × (c ≡ made_of leaf rest v.svid_key)
  certificate_made v [] c h = cc
  certificate_made v (leaf ∷ rest) c h =
      let (p, q) = (certificate_of-ok o now leaf rest v.svid_key c).0 h in (leaf, rest, refl, p, q)

  domain_found :
      (target : Text) (d : TrustDomain)
      → target_domain o target ≡ ok d
      → (n : Namespace) × (new_namespace_from_string o.sdk target ≡ ok n) × (n.domain ≡ d)
  unfolding target_domain domain_in
  domain_found target d h =
      let (n, e, f) =
        >>=-eq-ok (wrap bad_target (new_namespace_from_string o.sdk target)) (λ n. ok n.domain) h in
      (
        n,
        wrap-eq-ok bad_target (new_namespace_from_string o.sdk target) e,
        ap (λ r. domain_in r d) f,
      )

  authorities :
      (p : Option (List X509)) (roots : List X509) → authorities_of p ≡ ok roots → p ≡ some roots
  unfolding roots_in
  authorities none roots h = cc
  authorities (some cs) roots h = ap some (ap roots_in h)

  module _ (bundles : TrustDomain → Result Text (Option (List X509))) (target : Text) where
    -- The parts of a connection.
    abbrev pub Built : Svid → AuthenticatedConnection → Type 0
    Built t c =
        (leaf : X509) × (rest : List X509) × (n : Namespace) × (roots : List X509) × (t.certificates
          ≡ leaf ∷ rest)
        × (validate o.sdk o.verifier now (made_of leaf rest t.svid_key) no_options ≡ ok tt)
        × (new_namespace_from_string o.sdk target ≡ ok n)
        × (bundles n.domain ≡ ok (some roots))
        × (bundle_validate now (bundle_of roots) ≡ ok tt)
        × (c ≡ connection_of (made_of leaf rest t.svid_key) roots n.domain target)

    connect-Built :
        (r : Result AppError Svid) (c : AuthenticatedConnection)
        → connect o now bundles target r ≡ ok c
        → (t : Svid) × (r ≡ ok t) × Built t c
    unfolding connection_in parts
    connect-Built r c h =
        let (t, e, f) = >>=-eq-ok r (λ v. _) h in
        let (x, e1, f1) = >>=-eq-ok (svid_certificate o now t t.certificates) (λ x. _) f in
        let (d, e2, f2) = >>=-eq-ok (target_domain o target) (λ d. _) f1 in
        let (p, e3, f3) = >>=-eq-ok (wrap domain_bundle (bundles d)) (λ p. _) f2 in
        let (roots, e4, f4) = >>=-eq-ok (authorities_of p) (λ roots. _) f3 in
        let (b, e5, f5) =
          >>=-eq-ok (wrap bad_bundle (new_trust_bundle now (map some roots))) (λ b. _) f4 in
        let (leaf, rest, g, valid, made) = certificate_made t t.certificates x e1 in
        let (n, parsed, k) = domain_found target d e2 in
        let (same, good) = new_trust_bundle-value now roots b (wrap-eq-ok bad_bundle _ e5) in
        (
          t,
          e,
          (
            leaf,
            rest,
            n,
            roots,
            g,
            valid,
            parsed,
            ap bundles k ∙ wrap-eq-ok domain_bundle (bundles d) e3 ∙ ap ok (authorities p roots e4),
            subst (λ (y : TrustBundle). bundle_validate now y ≡ ok tt) same good,
            sym (ap (λ y. connection_in y c) f5)
                ∙ same_connection target x (made_of leaf rest t.svid_key) b (bundle_of roots) d
                    n.domain made same (sym k),
          ),
        )

module _ (o : Outside) (now later last : Time) (a : Answers) (b : Refreshing)
    (second : Result Text (Option Svid)) (bundles : TrustDomain → Result Text (Option (List X509)))
    (target : Text) (s : AuthenticationService) where
  -- An authenticated connection has the certificate of the SVID that GetValidatedSVID returned,
  -- which validates, the bundle of the target's own trust domain, which is valid, and the policy for
  -- that domain.
  pub create_authenticated_connection-Built :
      (c : AuthenticatedConnection)
      → create_authenticated_connection o now later last a b second bundles target s ≡ ok c
      → (t : Svid) × (get_validated_svid o now later a b second s ≡ ok t)
        × Built o last bundles target t c
  unfolding create_authenticated_connection
  create_authenticated_connection-Built c h =
      connect-Built o last bundles target (get_validated_svid o now later a b second s) c h
