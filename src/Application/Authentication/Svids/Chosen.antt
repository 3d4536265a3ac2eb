-- ===== src/Application/Authentication/Svids/Chosen.antt =====
-- Which SVID authentication_service.go chooses.
use ephemos.Base.{
  ◌≡◌, refl, sym, ap, ◌≢◌, ◌↔◌, ◌⊎◌, inl, inr, Bool, true, false, Option, none, some, List, [], ◌∷◌,
  if◌then◌else◌, Result, ok, err,
}
use mathlib.Core.Path.{subst}
use ephemos.GoText.{Text}
use ephemos.GoTime.{Time}
use ephemos.Domain.X509.{X509}
use ephemos.Application.Providers.{Svid, AppError, panic}
use ephemos.Application.Rotation.{expires_within}
use ephemos.Application.Authentication.{
  Refreshing, AuthenticationService, refresh_with_retry, behind_refresh, refreshed_or_kept, choose,
}

kept : Option Svid → Result AppError (Option Svid)
kept c = ok c

in_kept : Result AppError (Option Svid) → Option Svid
in_kept (ok c) = c
in_kept (err e) = none

kept-eq : (c d : Option Svid) → (kept c ≡ kept d) ↔ (d ≡ c)
unfolding kept in_kept
kept-eq c d = (λ h. ap in_kept (sym h), λ h. ap kept (sym h))

refresh_ok : Result AppError (Unit {0})
refresh_ok = ok tt

-- Of an SVID that expires soon or not, a refresh and the second answer: what is chosen.
abbrev pub Choice :
    Bool → Result AppError (Unit {0}) → Result Text (Option Svid) → Svid → Option Svid → Type 0
Choice soon refresh second v c =
    ((soon ≡ true) × (refresh ≡ ok tt) × (second ≡ ok c))
    ⊎ (((soon ≡ false) ⊎ (refresh ≢ ok tt)) × (c ≡ some v))

answered : Option Svid → Result Text (Option Svid)
answered c = ok c

in_answer : Result Text (Option Svid) → Option Svid
in_answer (ok c) = c
in_answer (err e) = none

no_choice : (true ≡ false) ⊎ (refresh_ok ≢ ok tt) → ⊥
unfolding refresh_ok
no_choice (inl e) = cc
no_choice (inr h) = h refl

choice_lem :
    (soon : Bool) (r : Result AppError (Unit {0})) (q : Result Text (Option Svid)) (v : Svid)
    (c : Option Svid)
    → ((if soon then behind_refresh q v r else kept (some v)) ≡ kept c) ↔ Choice soon r q v c
unfolding kept in_kept answered in_answer refresh_ok
choice_lem false r q v c =
    let (f, g) = kept-eq (some v) c in
    (λ h. inr (inl refl, f h), λ h. elim h [ inl p ↦ cc | inr p ↦ g p.1 ])
choice_lem true (err e) q v c =
    let (f, g) = kept-eq (some v) c in
    (λ h. inr (inr (λ k. cc), f h), λ h. elim h [ inl p ↦ cc | inr p ↦ g p.1 ])
choice_lem true (ok u) (err e) v c =
    (λ h. cc, λ h. elim h [ inl p ↦ cc | inr p ↦ absurd (no_choice p.0) ])
choice_lem true (ok u) (ok d) v c = (
  λ h. inl (refl, refl, ap answered (ap in_kept h)),
  λ h. elim h [ inl p ↦ ap kept (ap in_answer p.2) | inr p ↦ absurd (no_choice p.0) ],
)

in_svid : Svid → Option Svid → Svid
in_svid d none = d
in_svid d (some v) = v

choice-panic :
    (soon : Bool) (r : Result AppError (Unit {0})) (q : Result Text (Option Svid)) (v : Svid)
    → (if soon then behind_refresh q v r else ok (some v)) ≢ err panic
choice-panic false r q v h = cc
choice-panic true (err e) q v h = cc
choice-panic true (ok u) (err e) v h = cc
choice-panic true (ok u) (ok d) v h = cc

module _ (now : Time) (b : Refreshing) (second : Result Text (Option Svid))
    (s : AuthenticationService) where
  -- What is chosen behind the first SVID.
  abbrev pub IsChosen : Svid → Option Svid → Type 0
  IsChosen v c =
      Choice (expires_within now s.expiry_threshold v.certificates) (refresh_with_retry b s) second
        v c

  refreshed_or_kept-ok :
      (v : Svid) (cs : List X509) (c : Option Svid)
      → (refreshed_or_kept b second s now v cs ≡ ok c) ↔ (
          (cs ≢ [])
          × Choice (expires_within now s.expiry_threshold cs) (refresh_with_retry b s) second v c)
  unfolding kept
  refreshed_or_kept-ok v [] c = (λ h. cc, λ h. absurd (h.0 refl))
  refreshed_or_kept-ok v (leaf ∷ rest) c =
      let (f, g) =
        choice_lem (expires_within now s.expiry_threshold (leaf ∷ rest)) (refresh_with_retry b s)
          second v c in
      (λ h. (λ e. cc, f h), λ h. g h.1)

  pub choose-ok :
      (p c : Option Svid)
      → (choose b second s now p ≡ ok c)
        ↔ ((v : Svid) × (p ≡ some v) × (v.certificates ≢ []) × IsChosen v c)
  unfolding in_svid
  choose-ok none c = (λ h. cc, λ h. cc)
  choose-ok (some v) c =
      let (f, g) = refreshed_or_kept-ok v v.certificates c in
      (
        λ h. let (n, k) = f h in (v, refl, n, k),
        λ (x, e, n, k). g (
            subst (λ (y : Svid). (y.certificates ≢ []) × IsChosen y c) (ap (in_svid v) (sym e))
              (n, k)),
      )

  kept-panic : (v : Svid) (cs : List X509) → refreshed_or_kept b second s now v cs ≢ err panic
  kept-panic v [] h = cc
  kept-panic v (leaf ∷ rest) h =
      choice-panic (expires_within now s.expiry_threshold (leaf ∷ rest)) (refresh_with_retry b s)
        second v h

  pub choose-panic : (p : Option Svid) → choose b second s now p ≢ err panic
  choose-panic none h = cc
  choose-panic (some v) h = kept-panic v v.certificates h
