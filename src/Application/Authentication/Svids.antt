-- ===== src/Application/Authentication/Svids.antt =====
-- What GetValidatedSVID of authentication_service.go returns, and when it panics.
pub mod Checked
pub mod Chosen
use ephemos.Base.{
  wrap-eq-ok, >>=-eq-ok, ℕ, zero, suc, ◌+◌, ◌-◌, ◌≤◌, ◌<◌, ◌≡◌, refl, sym, ap, ◌∙◌, ◌≢◌, ◌↔◌, ◌⊎◌,
  inl, inr, Bool, true, false, not, ◌&&◌, ◌||◌, Option, none, some, List, [], ◌∷◌, ◌++◌, map, arith,
  ltb, leb, ◌==◌, if◌then◌else◌, Bool-cases, Option-cases, Result, ok, err, fail_if, wrap, ◌>>=◌,
  ◌>>◌, length, All,
}
use mathlib.Core.Path.{subst}
use ephemos.GoText.{Text}
use ephemos.GoTime.{Time}
use ephemos.Domain.X509.{X509}
use ephemos.Domain.Certificate.{Certificate, CertError, new_certificate_with_validation}
use ephemos.Application.Providers.{
  Svid, Answers, AppError, panic, no_certificates, get_svid, get_bundle, refreshed_svid,
  bad_certificate, not_trusted, Outside, certificate_of,
}
use ephemos.Application.Rotation.{expires_within, validate_chain}
use ephemos.Application.Rotation.Outcomes.{ValidChain, IsValidSvid, validate_chain-ok}
use ephemos.Application.Authentication.{
  Refreshing, AuthenticationService, refresh_with_retry, behind_refresh, refreshed_or_kept, choose,
  check_leaf, check_chosen, get_validated_svid,
}
use ephemos.Application.Authentication.Svids.Checked.{
  HasNoLeaf, check_chosen-ok, check_chosen-panic,
}
use ephemos.Application.Authentication.Svids.Chosen.{IsChosen, choose-ok, choose-panic}

-- When a sequence of two calls succeeds, and when it fails.
bind-ok {ℓ κ} :
    {A : Type ℓ} {B : Type κ} (r : Result AppError A) (f : A → Result AppError B) (t : B)
    → ((r >>= f) ≡ ok t) ↔ ((c : A) × (r ≡ ok c) × (f c ≡ ok t))
bind-ok r f t = (λ h. >>=-eq-ok r f h, λ (c, e, g). rw e g)

error_in {ℓ} : {A : Type ℓ} → Result AppError A → AppError
error_in (ok a) = no_certificates
error_in (err e) = e

fails_later {ℓ κ} :
    {A : Type ℓ} {B : Type κ} (r : Result AppError A) (f : A → Result AppError B) (d : AppError)
    → r ≢ err d
    → (r >>= f) ≡ err d
    → (c : A) × (r ≡ ok c) × (f c ≡ err d)
unfolding error_in
fails_later (err e) f d h g = absurd (h (ap err (ap error_in g)))
fails_later (ok c) f d h g = (c, refl, g)

bind-err {ℓ κ} :
    {A : Type ℓ} {B : Type κ} (r : Result AppError A) (f : A → Result AppError B) (d : AppError)
    → r ≢ err d
    → ((r >>= f) ≡ err d) ↔ ((c : A) × (r ≡ ok c) × (f c ≡ err d))
bind-err r f d h = (fails_later r f d h, λ (c, e, g). rw e g)

get_svid-panic : (r : Result Text (Option Svid)) → wrap get_svid r ≢ err panic
get_svid-panic (ok c) g = cc
get_svid-panic (err m) g = cc

answered : Option Svid → Result Text (Option Svid)
answered c = ok c

module _ (o : Outside) (now later : Time) (a : Answers) (b : Refreshing)
    (second : Result Text (Option Svid)) (s : AuthenticationService) where
  after_svid : Option Svid → Result AppError Svid
  after_svid p = choose b second s now p >>= λ c. check_chosen o later a c

  -- GetValidatedSVID returns an SVID exactly if the provider's first answer is an SVID with
  -- certificates, the SVID is that one, or the refreshed one where that one expires within the
  -- threshold and the refresh succeeds, and it validates and is trusted. It panics exactly if,
  -- behind such a first answer, the chosen SVID is nil or has no certificates and the fetch of the
  -- trust bundle succeeds.
  pub get_validated_svid_lem :
      (t : Svid)
      → ((get_validated_svid o now later a b second s ≡ ok t) ↔ (
          (v : Svid) × (a.svid ≡ ok (some v))
          × (v.certificates ≢ [])
          × IsChosen now b second s v (some t)
          × IsValidSvid o later a t))
        × ((get_validated_svid o now later a b second s ≡ err panic) ↔ (
            (v : Svid) × (c : Option Svid) × (a.svid ≡ ok (some v))
            × (v.certificates ≢ [])
            × IsChosen now b second s v c
            × (a.trust_bundle ≡ ok tt)
            × HasNoLeaf c))
  unfolding get_validated_svid after_svid answered
  get_validated_svid_lem t = (
    (
      λ h.
          let (p, e, f) = >>=-eq-ok (wrap get_svid a.svid) after_svid h in
          let (c, g, i) = >>=-eq-ok (choose b second s now p) (check_chosen o later a) f in
          let (v, q, n, k) = (choose-ok now b second s p c).0 g in
          let (same, valid) = (check_chosen-ok o later a c t).0 i in
          (
            v,
            wrap-eq-ok get_svid a.svid e ∙ ap answered q,
            n,
            subst (IsChosen now b second s v) same k,
            valid,
          ),
      λ (v, e, n, k, valid). (bind-ok (wrap get_svid a.svid) after_svid t).1 (
        some v,
        ap (wrap get_svid) e,
        (bind-ok (choose b second s now (some v)) (check_chosen o later a) t).1 (
          some t,
          (choose-ok now b second s (some v) (some t)).1 (v, refl, n, k),
          (check_chosen-ok o later a (some t) t).1 (refl, valid),
        ),
      ),
    ),
    (
      λ h.
          let (p, e, f) =
            fails_later (wrap get_svid a.svid) after_svid panic (get_svid-panic a.svid) h in
          let (c, g, i) =
            fails_later (choose b second s now p) (check_chosen o later a) panic
              (choose-panic now b second s p) f in
          let (v, q, n, k) = (choose-ok now b second s p c).0 g in
          let (l, m) = (check_chosen-panic o later a c).0 i in
          (v, c, wrap-eq-ok get_svid a.svid e ∙ ap answered q, n, k, l, m),
      λ (v, c, e, n, k, l, m).
          (bind-err (wrap get_svid a.svid) after_svid panic (get_svid-panic a.svid)).1 (
            some v,
            ap (wrap get_svid) e,
            (bind-err (choose b second s now (some v)) (check_chosen o later a) panic
                  (choose-panic now b second s (some v))).1
                (
                  c,
                  (choose-ok now b second s (some v) c).1 (v, refl, n, k),
                  (check_chosen-panic o later a c).1 (l, m),
                ),
          ),
    ),
  )
