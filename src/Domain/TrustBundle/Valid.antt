-- ===== src/Domain/TrustBundle/Valid.antt =====
-- Which bundles are valid.
use ephemos.Base.{
  Result-cases, ℕ, ◌+◌, ◌≤◌, ◌≡◌, refl, ap, ◌≢◌, ◌↔◌, inl, inr, true, false, none, some, List, [],
  ◌∷◌, arith, ok, All,
}
use ephemos.GoText.{Text}
use ephemos.GoText.Laws.{not-text_eq_iff}
use ephemos.GoTime.{Time, before, after}
use ephemos.Domain.X509.{X509}
use ephemos.Domain.TrustBundle.{
  TrustBundle, Root, seen_before, check_root, check_roots, bundle_validate, bundle_is_empty,
  status_is_empty, raw_certificates,
}

-- Now within the certificate's validity, its ends included.
abbrev pub IsCurrent : Time → X509 → Type 0
IsCurrent now c = (c.not_before ≤ now) × (now ≤ c.not_after)

-- A CA certificate that is valid now.
abbrev pub IsAnchor : Time → X509 → Type 0
IsAnchor now c = (c.is_ca ≡ true) × IsCurrent now c

-- No key is in the list, and no two certificates have one key.
abbrev pub IsNew : List Text → X509 → Type 0
IsNew seen c = All (λ k. k ≢ c.public_key_info) seen

abbrev pub Distinct : List Text → List X509 → Type 0
Distinct seen [] = Unit
Distinct seen (c ∷ cs) = IsNew seen c × Distinct (c.public_key_info ∷ seen) cs

abbrev pub roots_of : List X509 → List Root
roots_of [] = []
roots_of (c ∷ cs) = some (some c) ∷ roots_of cs

pub not-seen_before_iff :
    (key : Text) (seen : List Text) → (seen_before key seen ≡ false) ↔ All (λ k. k ≢ key) seen
unfolding seen_before
not-seen_before_iff key [] = (λ e. tt, λ n. refl)
not-seen_before_iff key (k ∷ seen) =
    let here = not-text_eq_iff k key in
    let later = not-seen_before_iff key seen in
    (λ e. (here.0 (ground arith), later.0 (ground arith)), λ (n, m). rw (here.1 n) (later.1 m))

check_root_iff :
    (now : Time) (i : ℕ) (seen : List Text) (c : X509)
    → (check_root now i seen c ≡ ok tt) ↔ (IsNew seen c × IsAnchor now c)
unfolding check_root before after
check_root_iff now i seen c =
    let fresh = not-seen_before_iff c.public_key_info seen in
    (λ e. (fresh.0 (ground arith), ground arith), λ (n, a). let f = fresh.1 n in ground arith)

check_roots_sound :
    (now : Time) (i : ℕ) (seen : List Text) (roots : List Root)
    → check_roots now i seen roots ≡ ok tt
    → (cs : List X509) × (roots ≡ roots_of cs) × All (IsAnchor now) cs × Distinct seen cs
unfolding check_roots
check_roots_sound now i seen [] h = ([], refl, tt, tt)
check_roots_sound now i seen (none ∷ roots) h = cc
check_roots_sound now i seen (some none ∷ roots) h = cc
check_roots_sound now i seen (some (some c) ∷ roots) h =
    elim (Result-cases (check_root now i seen c)) [
      | inr (x, e) ↦ cc (rw e at h)
      | inl (u, e) ↦
          let (n, a) = (check_root_iff now i seen c).0 e in
          let (cs, f, b, d) =
            check_roots_sound now (i + 1) (c.public_key_info ∷ seen) roots (rw e at h) in
          (c ∷ cs, cc f, (a, b), (n, d))
    ]

check_roots_complete :
    (now : Time) (i : ℕ) (seen : List Text) (cs : List X509)
    → All (IsAnchor now) cs
    → Distinct seen cs
    → check_roots now i seen (roots_of cs) ≡ ok tt
unfolding check_roots
check_roots_complete now i seen [] a d = refl
check_roots_complete now i seen (c ∷ cs) (a, b) (n, d) =
    rw ((check_root_iff now i seen c).1 (n, a))
      (check_roots_complete now (i + 1) (c.public_key_info ∷ seen) cs b d)

pub raw_certificates-roots_of : (cs : List X509) → raw_certificates (roots_of cs) ≡ cs
unfolding raw_certificates
raw_certificates-roots_of [] = refl
raw_certificates-roots_of (c ∷ cs) = ap (λ (t : List X509). c ∷ t) (raw_certificates-roots_of cs)

not-status_is_empty_iff : (cs : List X509) → (status_is_empty cs ≡ false) ↔ (cs ≢ [])
unfolding status_is_empty
not-status_is_empty_iff [] = (λ e. cc, λ n. absurd (n refl))
not-status_is_empty_iff (c ∷ cs) = (λ e f. cc, λ n. refl)

bundle_validate-parts :
    (now : Time) (b : TrustBundle)
    → bundle_validate now b ≡ ok tt
    → (status_is_empty (raw_certificates b.certificates) ≡ false)
      × (check_roots now 0 [] b.certificates ≡ ok tt)
unfolding bundle_validate bundle_is_empty
bundle_validate-parts now b h = ground arith

bundle_validate_of_parts :
    (now : Time) (b : TrustBundle)
    → status_is_empty (raw_certificates b.certificates) ≡ false
    → check_roots now 0 [] b.certificates ≡ ok tt
    → bundle_validate now b ≡ ok tt
unfolding bundle_validate bundle_is_empty
bundle_validate_of_parts now b h k = rw h k

-- Validate succeeds exactly on a bundle that holds at least one certificate and no nil, only CA
-- certificates that are valid at the time, and no public key twice.
pub bundle_validate_iff :
    (now : Time) (b : TrustBundle)
    → (bundle_validate now b ≡ ok tt) ↔ (
        (cs : List X509) × (b.certificates ≡ roots_of cs)
        × (cs ≢ [])
        × All (IsAnchor now) cs
        × Distinct [] cs)
bundle_validate_iff now b = (
  λ h.
      let (filled, walked) = bundle_validate-parts now b h in
      let (cs, f, a, d) = check_roots_sound now 0 [] b.certificates walked in
      let whole : raw_certificates b.certificates ≡ cs = rw f (raw_certificates-roots_of cs) in
      (cs, f, (not-status_is_empty_iff cs).0 (rw whole at filled), a, d),
  λ (cs, f, n, a, d).
      let whole : raw_certificates b.certificates ≡ cs = rw f (raw_certificates-roots_of cs) in
      bundle_validate_of_parts now b (rw whole ((not-status_is_empty_iff cs).1 n))
        (rw f (check_roots_complete now 0 [] cs a d)),
)
