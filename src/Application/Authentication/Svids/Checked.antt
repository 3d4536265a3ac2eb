-- ===== src/Application/Authentication/Svids/Checked.antt =====
-- How the SVID that authentication_service.go has chosen is checked.
use ephemos.Base.{
  ◌≡◌, refl, sym, ap, ◌≢◌, ◌↔◌, true, Option, none, some, List, [], ◌∷◌, Result, ok, err, wrap,
  ◌>>=◌, ◌>>◌,
}
use mathlib.Core.Path.{subst}
use ephemos.GoText.{Text}
use ephemos.GoTime.{Time}
use ephemos.Domain.X509.{X509}
use ephemos.Domain.Certificate.{Certificate, CertError, new_certificate_with_validation}
use ephemos.Application.Providers.{
  Svid, Answers, AppError, panic, get_bundle, bad_certificate, not_trusted, Outside,
}
use ephemos.Application.Rotation.Outcomes.{ValidChain, IsValidSvid, validate_chain-ok}
use ephemos.Application.Authentication.{check_leaf, check_chosen}

panicked : Result AppError Svid
panicked = err panic

trust-panic : (r : Result Text (Unit {0})) (v : Svid) → (wrap not_trusted r >> ok v) ≢ err panic
trust-panic (ok u) v h = cc
trust-panic (err e) v h = cc

-- A pointer to no SVID, or to one without certificates.
abbrev pub HasNoLeaf : Option Svid → Type 0
HasNoLeaf none = Unit
HasNoLeaf (some v) = v.certificates ≡ []

bundle-panic :
    (r : Result Text (Unit {0})) → ((wrap get_bundle r >> panicked) ≡ panicked) ↔ (r ≡ ok tt)
unfolding panicked
bundle-panic (ok u) = (λ h. refl, λ h. refl)
bundle-panic (err e) = (λ h. cc, λ h. cc)

bundle-not_ok : (r : Result Text (Unit {0})) (t : Svid) → (wrap get_bundle r >> panicked) ≢ ok t
unfolding panicked
bundle-not_ok (ok u) t h = cc
bundle-not_ok (err e) t h = cc

chain-panic :
    (r : Result Text (Unit {0})) (c : Result CertError Certificate)
    (k : Certificate → Result Text (Unit {0})) (v : Svid)
    → (wrap get_bundle r >> (wrap bad_certificate c >>= λ x. wrap not_trusted (k x) >> ok v))
      ≢ err panic
chain-panic (err e) c k v h = cc
chain-panic (ok u) (err e) k v h = cc
chain-panic (ok u) (ok x) k v h = trust-panic (k x) v h

module _ (o : Outside) (now : Time) (a : Answers) where
  check_leaf-ok :
      (v t : Svid) (cs : List X509)
      → (check_leaf o now a v cs ≡ ok t) ↔ (ValidChain o now a v cs × (v ≡ t))
  unfolding panicked
  check_leaf-ok v t [] = (λ h. absurd (bundle-not_ok a.trust_bundle t h), λ h. absurd h.0)
  check_leaf-ok v t (leaf ∷ rest) = validate_chain-ok o now a v t (leaf ∷ rest)

  check_leaf-panic :
      (v : Svid) (cs : List X509)
      → (check_leaf o now a v cs ≡ err panic) ↔ ((a.trust_bundle ≡ ok tt) × (cs ≡ []))
  unfolding panicked
  check_leaf-panic v [] = let (f, g) = bundle-panic a.trust_bundle in (λ h. (f h, refl), λ h. g h.0)
  check_leaf-panic v (leaf ∷ rest) = (
    λ h. absurd (
        chain-panic a.trust_bundle
          (new_certificate_with_validation o.sdk o.verifier now (some leaf) v.svid_key rest true)
          a.trusted v h),
    λ h. cc,
  )

  pub check_chosen-ok :
      (c : Option Svid) (t : Svid)
      → (check_chosen o now a c ≡ ok t) ↔ ((c ≡ some t) × IsValidSvid o now a t)
  unfolding panicked
  check_chosen-ok none t = (λ h. absurd (bundle-not_ok a.trust_bundle t h), λ h. cc)
  check_chosen-ok (some v) t =
      let (f, g) = check_leaf-ok v t v.certificates in
      (
        λ h. let (p, e) = f h in (ap some e, subst (IsValidSvid o now a) e p),
        λ (e, p). let same : v ≡ t = cc in g (subst (IsValidSvid o now a) (sym same) p, same),
      )

  pub check_chosen-panic :
      (c : Option Svid)
      → (check_chosen o now a c ≡ err panic) ↔ ((a.trust_bundle ≡ ok tt) × HasNoLeaf c)
  unfolding panicked
  check_chosen-panic none = let (f, g) = bundle-panic a.trust_bundle in (λ h. (f h, tt), λ h. g h.0)
  check_chosen-panic (some v) = check_leaf-panic v v.certificates
