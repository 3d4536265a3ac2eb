-- ===== src/Domain/Namespace/Print.antt =====
-- Printing a namespace, and reading it back.
use mathlib.Core.List.{append_assoc, append-nil}
use ephemos.Base.{
  ℕ, ◌≡◌, refl, sym, ◌∙◌, ap, ◌≢◌, ◌+◌, [], ◌∷◌, ◌++◌, arith, true, false, ok, Option-cases, some,
  inl, inr,
}
use ephemos.GoText.{Text, text, text_eq, has_suffix}
use ephemos.GoText.Laws.{has_suffix-append, not-text_eq_iff}
use ephemos.Domain.Spiffe.{Sdk, SpiffeId, IsSdk, IsDomainName, scheme}
use ephemos.Domain.TrustDomain.{TrustDomain, domain_is_zero, domain_string, new_trust_domain}
use ephemos.Domain.Spiffe.Laws.{id_string_lem}
use ephemos.Domain.Namespace.{
  Namespace, namespace_is_zero, namespace_string, normalize_id, count_slashes, trim_slash,
  new_namespace, namespace_validate, namespace_from_id, or_root, new_namespace_from_string,
}
use ephemos.Domain.Namespace.Segments.{NoSlash}

count_slashes-append : (s t : Text) → count_slashes (s ++ t) ≡ count_slashes s + count_slashes t
unfolding count_slashes
count_slashes-append [] t = omega arith
count_slashes-append (c ∷ s) t = omega (arith, count_slashes-append s t)

count_slashes-NoSlash : (s : Text) → NoSlash s → count_slashes s ≡ 0
unfolding count_slashes
count_slashes-NoSlash [] h = refl
count_slashes-NoSlash (c ∷ s) h = ground (arith, count_slashes-NoSlash s)

trim_slash-append : (s : Text) → trim_slash (s ++ text "/") ≡ s
unfolding trim_slash
trim_slash-append [] = refl
trim_slash-append (c ∷ []) = refl
trim_slash-append (c ∷ d ∷ s) = ap (λ (t : Text). c ∷ t) (trim_slash-append (d ∷ s))

has_suffix-behind :
    (front : Text) (c : ℕ) (p : Text)
    → has_suffix (text "/") (front ++ c ∷ p) ≡ has_suffix (text "/") (c ∷ p)
unfolding has_suffix
has_suffix-behind [] c p = refl
has_suffix-behind (d ∷ []) c p = ground arith
has_suffix-behind (d ∷ e ∷ front) c p = ground (arith, has_suffix-behind (e ∷ front) c p)

slashes_of_root : (d : Text) → NoSlash d → count_slashes ((scheme ++ d) ++ text "/") ≡ 3
unfolding count_slashes
slashes_of_root d h = omega (
  arith,
  count_slashes-append (scheme ++ d) (text "/"),
  count_slashes-append scheme d,
  count_slashes-NoSlash d h,
)

-- The root is printed with a slash, which reading it back takes off.
normalize-root : (d : Text) → NoSlash d → normalize_id (scheme ++ (d ++ text "/")) ≡ scheme ++ d
unfolding normalize_id
normalize-root d h =
    let regroup : scheme ++ (d ++ text "/") ≡ (scheme ++ d) ++ text "/" =
      sym (append_assoc scheme d (text "/")) in
    let ends = has_suffix-append (scheme ++ d) (text "/") in
    let three : count_slashes ((scheme ++ d) ++ text "/") ≡ 3 = slashes_of_root d h in
    rw (regroup, ends, three) (trim_slash-append (scheme ++ d))

normalize-path :
    (d : Text) (c : ℕ) (p : Text)
    → has_suffix (text "/") (c ∷ p) ≡ false
    → normalize_id (scheme ++ (d ++ c ∷ p)) ≡ scheme ++ (d ++ c ∷ p)
unfolding normalize_id
normalize-path d c p h =
    let regroup : scheme ++ (d ++ c ∷ p) ≡ (scheme ++ d) ++ c ∷ p =
      sym (append_assoc scheme d (c ∷ p)) in
    rw (regroup, has_suffix-behind (scheme ++ d) c p, h)

module _ (sdk : Sdk) where
  -- What NewIdentityNamespace accepts, Validate accepts.
  pub new_namespace-validate :
      (d : TrustDomain) (path : Text) (n : Namespace)
      → new_namespace sdk d path ≡ ok n
      → namespace_validate sdk n ≡ ok tt
  unfolding new_namespace namespace_validate namespace_is_zero
  new_namespace-validate d path n h = ground arith

  module _ (laws : IsSdk sdk) where
    -- What a successful parse went through.
    from_string-parts :
        (s : Text) (n : Namespace)
        → new_namespace_from_string sdk s ≡ ok n
        → (id : SpiffeId) × (sdk.from_string (normalize_id s) ≡ some id)
          × (namespace_from_id sdk id ≡ ok n)
    unfolding new_namespace_from_string
    from_string-parts s n h = elim (Option-cases (sdk.from_string (normalize_id s))) [
      | inl e ↦ absurd (ground arith)
      | inr (id, e) ↦ (id, e, ground arith)
    ]

    from_id-value :
        (id : SpiffeId) (n : Namespace)
        → IsDomainName sdk id.domain
        → namespace_from_id sdk id ≡ ok n
        → (n.domain.td ≡ id.domain) × (n.path ≡ or_root sdk id.path)
    unfolding namespace_from_id new_trust_domain new_namespace
    from_id-value id n d h = ground arith

    id-read :
        (id : SpiffeId)
        → IsDomainName sdk id.domain
        → sdk.validate_path id.path ≡ true
        → sdk.from_string (scheme ++ (id.domain ++ id.path)) ≡ some id
    id-read id d v = rw (id_string_lem sdk laws id d) at (laws.id_again id d v)

    string-read :
        (id : SpiffeId)
        → IsDomainName sdk id.domain
        → sdk.validate_path id.path ≡ true
        → (p : Text) → id.path ≡ p
        → sdk.from_string (normalize_id (scheme ++ (id.domain ++ or_root sdk p))) ≡ some id
    string-read id d v [] e =
        let bare : scheme ++ (id.domain ++ id.path) ≡ scheme ++ id.domain = rw (e, append-nil) in
        rw (normalize-root id.domain (laws.domain_no_slash id.domain d))
          (rw bare at (id-read id d v))
    string-read id d v (c ∷ p) e =
        rw (normalize-path id.domain c p (rw e at (laws.path_end id.path v)))
          (ap (λ (t : Text). sdk.from_string (scheme ++ (id.domain ++ t))) (sym e) ∙ id-read id d v)

    namespace_string_lem :
        (n : Namespace) → n.domain.td ≢ [] → namespace_string n ≡ scheme ++ (n.domain.td ++ n.path)
    unfolding namespace_string namespace_is_zero domain_is_zero domain_string
    namespace_string_lem n h = rw ((not-text_eq_iff n.domain.td []).1 h)

    parse_of_read :
        (t : Text) (id : SpiffeId)
        → text_eq t [] ≡ false
        → sdk.from_string (normalize_id t) ≡ some id
        → new_namespace_from_string sdk t ≡ namespace_from_id sdk id
    unfolding new_namespace_from_string
    parse_of_read t id h e = rw (h, e)

    -- A namespace that was read from a text is printed as a text that reads back as the namespace.
    pub from_string-namespace_string :
        (s : Text) (n : Namespace)
        → new_namespace_from_string sdk s ≡ ok n
        → new_namespace_from_string sdk (namespace_string n) ≡ ok n
    from_string-namespace_string s n h =
        let (id, e, f) = from_string-parts s n h in
        let (d, v) = laws.id_parts (normalize_id s) id e in
        let (same, path) = from_id-value id n d f in
        let filled = laws.domain_not_empty id.domain d in
        let printed : namespace_string n ≡ scheme ++ (id.domain ++ or_root sdk id.path) =
          namespace_string_lem n (rw same filled) ∙ rw (same, path) in
        parse_of_read (namespace_string n) id (rw printed)
          (rw printed (string-read id d v id.path refl))
        ∙ f
