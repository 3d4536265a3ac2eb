-- ===== src/Domain/Certificate/Identity.antt =====
-- Which certificates pass the check of their own identity.
use ephemos.Base.{
  Result-cases, ◌≡◌, refl, sym, ap, ◌∙◌, ◌↔◌, inl, inr, some, [], ◌∷◌, ◌++◌, arith, ok, length,
}
use ephemos.Base.{length-append}
use ephemos.GoText.{Text}
use ephemos.GoText.Laws.{text_eq_refl, eq_of_text_eq}
use ephemos.GoTime.{Time}
use ephemos.Domain.Keys.{Signer}
use ephemos.Domain.X509.{X509}
use ephemos.Domain.Spiffe.{Sdk, SpiffeId, IsSdk, scheme}
use ephemos.Domain.Namespace.{last_segment}
use ephemos.Domain.Namespace.Segments.{NoSlash, last_segment_lem, slash_view}
use ephemos.Domain.Identity.{ServiceIdentity, new_service_identity_validated, identity_equal}
use ephemos.Domain.Identity.Laws.{
  new_service_identity_validated-value, new_service_identity_validated-domain,
}
use ephemos.Domain.Certificate.{
  Certificate, Options, no_options, to_spiffe_id, to_service_identity, check_service_identity,
  validate_basic_without_trust, check_key_pair, check_expiry,
}

-- The options of a caller that expects an identity and has no bundle.
abbrev pub expecting : ServiceIdentity → Options
expecting expected = record no_options { expected = some expected }

module _ (sdk : Sdk) (laws : IsSdk sdk) (c : Certificate) (id : SpiffeId) (name : Text)
    (expected : ServiceIdentity) (read : to_spiffe_id sdk c ≡ ok id) (path : id.path ≡ b'/' ∷ name)
    (made : new_service_identity_validated sdk name id.domain ≡ ok expected) where
  own_of_NoSlash : NoSlash name → check_service_identity sdk c (some expected) ≡ ok tt
  unfolding check_service_identity to_service_identity identity_equal
  own_of_NoSlash h =
      let last : last_segment id.path ≡ name = rw path (last_segment_lem [] name (inl refl) h) in
      rw (read, last, made) (rw (text_eq_refl expected.uri))

  -- The identity that the certificate is read as, if the check passes.
  own-actual :
      check_service_identity sdk c (some expected) ≡ ok tt
      → (actual : ServiceIdentity) × (new_service_identity_validated sdk
            (last_segment id.path)
            id.domain
          ≡ ok actual)
        × (actual.uri ≡ expected.uri)
  unfolding check_service_identity to_service_identity identity_equal
  own-actual h =
      elim (Result-cases (new_service_identity_validated sdk (last_segment id.path) id.domain)) [
        | inr (x, e) ↦ absurd (ground arith)
        | inl (actual, e) ↦ (actual, e, eq_of_text_eq _ _ (ground arith))
      ]

  shorter :
      (front seg : Text)
      → name ≡ front ++ b'/' ∷ seg
      → NoSlash seg
      → ¬ (check_service_identity sdk c (some expected) ≡ ok tt)
  shorter front seg e h k =
      let last : last_segment id.path ≡ seg =
        rw (path, e) (last_segment_lem (b'/' ∷ front) seg (inr (front, refl)) h) in
      let (actual, f, same) = own-actual k in
      let g = rw last at f in
      let (_, u, _, _) = new_service_identity_validated-value sdk laws seg id.domain actual g in
      let (_, w, _, _) =
        new_service_identity_validated-value sdk laws name id.domain expected made in
      let da = new_service_identity_validated-domain sdk laws seg id.domain actual g in
      let de = new_service_identity_validated-domain sdk laws name id.domain expected made in
      let td : actual.domain.td ≡ expected.domain.td = cc in
      let lengths = ap length (sym u ∙ same ∙ w) in
      absurd (
        omega (
          arith,
          lengths,
          ap length td,
          ap length e,
          length-append scheme (actual.domain.td ++ b'/' ∷ seg),
          length-append scheme (expected.domain.td ++ b'/' ∷ name),
          length-append actual.domain.td (b'/' ∷ seg),
          length-append expected.domain.td (b'/' ∷ name),
          length-append front (b'/' ∷ seg),
        ))

  -- A certificate whose SPIFFE ID has the path "/name", whose key pair and dates are right, and that
  -- is checked, without a trust bundle, for the identity made of that same name and domain, passes
  -- exactly if the name is one segment.
  pub validate_basic_own_identity_iff :
      (now : Time) (x : X509) (s : Signer)
      → check_key_pair x s ≡ ok tt
      → check_expiry now x ≡ ok tt
      → (validate_basic_without_trust sdk now c x s (expecting expected) ≡ ok tt) ↔ NoSlash name
  unfolding validate_basic_without_trust
  validate_basic_own_identity_iff now x s k t = (
    λ h. elim (slash_view name) [
      | inl n ↦ n
      | inr (front, seg, e, n) ↦ absurd (shorter front seg e n (rw (k, t) at h))
    ],
    λ n. rw (k, t) (own_of_NoSlash n),
  )
