-- ===== src/Domain/Identity/Laws.antt =====
-- What a constructed identity is.
use ephemos.Base.{
  Result-cases, ◌≡◌, ap, ◌∙◌, inl, inr, true, some, [], ◌∷◌, ◌++◌, arith, Option-cases, ok,
}
use ephemos.Domain.Spiffe.{Sdk, SpiffeId, IsSdk, IsDomainName, id_string, scheme}
use ephemos.Domain.TrustDomain.{TrustDomain, domain_is_zero, domain_string, new_trust_domain}
use ephemos.Domain.Spiffe.Laws.{id_string_lem}
use ephemos.Domain.Identity.{
  validate_service_name, ServiceIdentity, make_id, identity_of, new_service_identity_validated,
  identity_validate,
}
use ephemos.GoText.{Text}
use ephemos.GoText.Laws.{text_eq_iff}

module _ (sdk : Sdk) (laws : IsSdk sdk) where
  -- The parts of a successful construction.
  record Built (name domain : Text) (s : ServiceIdentity) : Type 0 where
    d : TrustDomain
    id : SpiffeId
    domain_read : new_trust_domain sdk domain ≡ ok d
    id_made : make_id sdk d name ≡ ok id
    valid : identity_validate sdk s ≡ ok tt
    whole : s ≡ identity_of sdk name d id

  built :
      (name domain : Text) (s : ServiceIdentity)
      → new_service_identity_validated sdk name domain ≡ ok s
      → Built name domain s
  unfolding new_service_identity_validated
  built name domain s h = elim (Result-cases (new_trust_domain sdk domain)) [
    | inr (x, e) ↦ absurd (ground arith)
    | inl (d, e) ↦ elim (Result-cases (make_id sdk d name)) [
      | inr (x, f) ↦ absurd (ground arith)
      | inl (id, f) ↦ record {
        d = d;
        id = id;
        domain_read = e;
        id_made = f;
        valid = ground arith;
        whole = ground arith;
      }
    ]
  ]

  -- The ID is the domain and the name behind a slash.
  make_id-value :
      (d : TrustDomain) (name : Text) (id : SpiffeId)
      → IsDomainName sdk d.td
      → make_id sdk d name ≡ ok id
      → id ≡ record { domain = d.td; path = b'/' ∷ name }
  unfolding make_id domain_string domain_is_zero
  make_id-value d name id h e = ground (
    arith,
    laws.from_path_valid d.td (b'/' ∷ name),
    laws.from_path_invalid d.td (b'/' ∷ name),
    laws.domain_not_empty d.td,
    text_eq_iff d.td [],
  )

  domain-value :
      (name : Text) (d : TrustDomain) → new_trust_domain sdk name ≡ ok d → IsDomainName sdk d.td
  unfolding new_trust_domain
  domain-value name d h = elim (Option-cases (sdk.trust_domain_from_string name)) [
    | inl e ↦ absurd (ground arith)
    | inr (t, e) ↦ let same : t ≡ d.td = ground arith in rw same at (laws.domain_again name t e)
  ]

  identity_validate-path :
      (s : ServiceIdentity)
      → identity_validate sdk s ≡ ok tt
      → sdk.validate_path (b'/' ∷ s.name) ≡ true
  unfolding identity_validate validate_service_name
  identity_validate-path s h = ground arith

  -- A constructed identity has the name it was given, is valid, and its URI is the scheme, its
  -- domain, a slash and the name, and reads back as that domain and path.
  pub new_service_identity_validated-value :
      (name domain : Text) (s : ServiceIdentity)
      → new_service_identity_validated sdk name domain ≡ ok s
      → (s.name ≡ name)
        × (s.uri ≡ scheme ++ (s.domain.td ++ b'/' ∷ name))
        × (identity_validate sdk s ≡ ok tt)
        × (sdk.from_string s.uri ≡ some (record { domain = s.domain.td; path = b'/' ∷ name }))
  new_service_identity_validated-value name domain s h =
      let b = built name domain s h in
      let good = domain-value domain b.d b.domain_read in
      let made = make_id-value b.d name b.id good b.id_made in
      let sn : s.name ≡ name = ap (λ (t : ServiceIdentity). t.name) b.whole in
      let sd : s.domain.td ≡ b.d.td = ap (λ (t : ServiceIdentity). t.domain.td) b.whole in
      let id : SpiffeId = record { domain = s.domain.td; path = b'/' ∷ name } in
      let su : s.uri ≡ id_string id =
        ap (λ (t : ServiceIdentity). t.uri) b.whole ∙ ap id_string (made ∙ rw sd) in
      let sg : IsDomainName sdk id.domain = rw sd good in
      (
        sn,
        su ∙ id_string_lem sdk laws id sg,
        b.valid,
        rw su (laws.id_again id sg (rw sn at (identity_validate-path s b.valid))),
      )

  -- The domain is the one that the SDK reads from the text.
  pub new_service_identity_validated-domain :
      (name domain : Text) (s : ServiceIdentity)
      → new_service_identity_validated sdk name domain ≡ ok s
      → sdk.trust_domain_from_string domain ≡ some s.domain.td
  unfolding new_trust_domain
  new_service_identity_validated-domain name domain s h =
      let b = built name domain s h in
      let read = b.domain_read in
      let sd : s.domain.td ≡ b.d.td = ap (λ (t : ServiceIdentity). t.domain.td) b.whole in
      rw sd (ground (arith, read))
