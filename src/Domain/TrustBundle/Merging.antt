-- ===== src/Domain/TrustBundle/Merging.antt =====
-- What MergeBundles returns.
use mathlib.Core.Path.{subst}
use ephemos.Base.{
  Result-cases, ◌≡◌, refl, sym, ap, ◌∙◌, ◌≢◌, ◌↔◌, ◌⊎◌, inl, inr, true, some, List, [], ◌∷◌, map,
  arith, ok, All,
}
use ephemos.GoText.{Text}
use ephemos.GoTime.{Time}
use ephemos.Domain.X509.{X509}
use ephemos.Domain.TrustBundle.{
  TrustBundle, Root, raw_certificates, merge_bundles, new_trust_bundle, wrap_roots,
  new_root_ca_certificate, new_trust_bundle_with_validation, bundle_validate,
}
use ephemos.Domain.TrustBundle.Merge.{merged, merged-Distinct, merged-HasKey, HasKey}
use ephemos.Domain.TrustBundle.Valid.{
  Distinct, roots_of, bundle_validate_iff, IsAnchor, raw_certificates-roots_of,
}

abbrev pub bundle_of : List X509 → TrustBundle
bundle_of cs = record { certificates = roots_of cs }

wrap_roots-value :
    (cs : List X509) (roots : List Root)
    → wrap_roots true (map some cs) ≡ ok roots
    → roots ≡ roots_of cs
unfolding wrap_roots new_root_ca_certificate
wrap_roots-value [] roots h = cc
wrap_roots-value (c ∷ cs) roots h = elim (Result-cases (wrap_roots true (map some cs))) [
  | inr (x, e) ↦ absurd (ground arith)
  | inl (rs, e) ↦ let f = wrap_roots-value cs rs e in ground arith
]

wrap_roots_of_anchors :
    (now : Time) (cs : List X509)
    → All (IsAnchor now) cs
    → wrap_roots true (map some cs) ≡ ok (roots_of cs)
unfolding wrap_roots new_root_ca_certificate
wrap_roots_of_anchors now [] h = refl
wrap_roots_of_anchors now (c ∷ cs) (a, h) = rw (a.0, wrap_roots_of_anchors now cs h)

pub new_trust_bundle-value :
    (now : Time) (cs : List X509) (m : TrustBundle)
    → new_trust_bundle now (map some cs) ≡ ok m
    → (m ≡ bundle_of cs) × (bundle_validate now m ≡ ok tt)
unfolding new_trust_bundle new_trust_bundle_with_validation
new_trust_bundle-value now cs m h = elim (Result-cases (wrap_roots true (map some cs))) [
  | inr (x, e) ↦ absurd (ground arith)
  | inl (rs, e) ↦ let f = wrap_roots-value cs rs e in (ground arith, ground arith)
]

new_trust_bundle_of_anchors :
    (now : Time) (cs : List X509)
    → cs ≢ []
    → All (IsAnchor now) cs
    → Distinct [] cs
    → new_trust_bundle now (map some cs) ≡ ok (bundle_of cs)
unfolding new_trust_bundle new_trust_bundle_with_validation
new_trust_bundle_of_anchors now cs n a d =
    rw (wrap_roots_of_anchors now cs a)
      (rw ((bundle_validate_iff now (bundle_of cs)).1 (cs, refl, n, a, d)))

merge_bundles_lem :
    (now : Time) (b other : TrustBundle)
    → merge_bundles now b (some other) ≡ new_trust_bundle now (map some (merged b other))
unfolding merge_bundles
merge_bundles_lem now b other = refl

-- A merge of two bundles succeeds exactly if the certificates that it keeps are not none and are all
-- CA certificates valid at the time: no repetition makes it fail.
pub merge_bundles-ok_iff :
    (now : Time) (b other : TrustBundle)
    → (merge_bundles now b (some other) ≡ ok (bundle_of (merged b other)))
      ↔ ((merged b other ≢ []) × All (IsAnchor now) (merged b other))
merge_bundles-ok_iff now b other =
    let cs = merged b other in
    (
      λ h.
          let (_, v) =
            new_trust_bundle-value now cs (bundle_of cs)
              (sym (merge_bundles_lem now b other) ∙ h) in
          let (ds, f, n, a, _) = (bundle_validate_iff now (bundle_of cs)).0 v in
          let same : ds ≡ cs =
            sym (raw_certificates-roots_of ds)
            ∙ ap raw_certificates (sym f)
            ∙ raw_certificates-roots_of cs in
          (subst (λ (t : List X509). t ≢ []) same n, subst (All (IsAnchor now)) same a),
      λ (n, a).
          merge_bundles_lem now b other
          ∙ new_trust_bundle_of_anchors now cs n a (merged-Distinct b other),
    )

-- The merged bundle is valid, and has every public key of either bundle.
merge_bundles-valid :
    (now : Time) (b other m : TrustBundle)
    → merge_bundles now b (some other) ≡ ok m
    → (bundle_validate now m ≡ ok tt)
      × ((k : Text)
          → HasKey k (raw_certificates b.certificates)
            ⊎ HasKey k (raw_certificates other.certificates)
          → HasKey k (raw_certificates m.certificates))
merge_bundles-valid now b other m h =
    let (e, v) =
      new_trust_bundle-value now (merged b other) m (sym (merge_bundles_lem now b other) ∙ h) in
    let whole : raw_certificates m.certificates ≡ merged b other =
      rw e (raw_certificates-roots_of (merged b other)) in
    (v, λ k p. rw whole (merged-HasKey k b other p))
