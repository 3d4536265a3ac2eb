-- ===== src/Domain/Identity.antt =====
-- internal/core/domain/service_identity.go. A constructor that panics has an error result; a pointer
-- that may be nil is an option.
pub mod Laws
use ephemos.Base.{
  ℕ, zero, suc, ◌+◌, ◌-◌, ◌≤◌, ◌<◌, ◌≡◌, refl, sym, ap, ◌∙◌, ◌≢◌, ◌↔◌, ◌⊎◌, inl, inr, Bool, true,
  false, not, ◌&&◌, ◌||◌, Option, none, some, List, [], ◌∷◌, ◌++◌, map, arith, ltb, leb, ◌==◌,
  if◌then◌else◌, Bool-cases, Option-cases, Result, ok, err, fail_if, wrap, ◌>>=◌, ◌>>◌, length, All,
}
use ephemos.Domain.Spiffe.{Sdk, SpiffeId, id_string, scheme}
use ephemos.Domain.TrustDomain.{
  TrustDomain, DomainError, domain_is_zero, domain_string, domain_validate, new_trust_domain,
}
use ephemos.Domain.Namespace.{last_segment}
use ephemos.GoText.{Text, text, text_eq, len, has_prefix, has_suffix, to_lower}

pub record ServiceIdentity : Type 0 where
  pub name : Text
  pub domain : TrustDomain
  pub uri : Text

pub data IdentityError : Type 0 where
  empty_name empty_domain zero_domain sdk_domain invalid_path slash_at_end invalid_name :
      IdentityError
  invalid_uri constraint_path domain_not_lower : IdentityError
  path_too_long domain_too_long : ℕ → IdentityError
  invalid_domain : DomainError → IdentityError

-- `Equal`, on pointers.
unfoldable pub identity_equal : Option ServiceIdentity → Option ServiceIdentity → Bool
identity_equal none none = true
identity_equal none (some t) = false
identity_equal (some s) none = false
identity_equal (some s) (some t) = text_eq s.uri t.uri

unfoldable pub is_member_of : ServiceIdentity → Text → Bool
is_member_of s d = text_eq (domain_string s.domain) d

module _ (sdk : Sdk) where
  unfoldable pub validate_service_name : Text → Result IdentityError (Unit {0})
  validate_service_name name = do
    fail_if (text_eq name []) empty_name
    fail_if (has_prefix (text "/") name || has_suffix (text "/") name) slash_at_end
    fail_if (not (sdk.validate_path (b'/' ∷ name))) invalid_name
    ok tt

  unfoldable pub validate_spiffe_constraints : SpiffeId → Result IdentityError (Unit {0})
  validate_spiffe_constraints id = do
    fail_if (not (text_eq id.path []) && not (sdk.validate_path id.path)) constraint_path
    fail_if (ltb 2048 (len id.path)) (path_too_long (len id.path))
    fail_if (ltb 255 (len id.domain)) (domain_too_long (len id.domain))
    fail_if (not (text_eq id.domain (to_lower id.domain))) domain_not_lower
    ok tt

  unfoldable pub check_uri : Option SpiffeId → Result IdentityError (Unit {0})
  unfolding validate_spiffe_constraints
  check_uri none = err invalid_uri
  check_uri (some id) = validate_spiffe_constraints id

  unfoldable pub identity_validate : ServiceIdentity → Result IdentityError (Unit {0})
  identity_validate s = do
    fail_if (text_eq s.name []) empty_name
    fail_if (domain_is_zero s.domain) zero_domain
    wrap invalid_domain (domain_validate sdk s.domain)
    validate_service_name s.name
    check_uri (sdk.from_string s.uri)

  -- `spiffeid.TrustDomainFromString` and `spiffeid.FromPath` on a domain and "/" + name.
  unfoldable pub make_id : TrustDomain → Text → Result IdentityError SpiffeId
  make_id d name = elim (sdk.trust_domain_from_string (domain_string d)) [
    | none ↦ err sdk_domain
    | some e ↦ elim (sdk.from_path e (b'/' ∷ name)) [ none ↦ err invalid_path | some id ↦ ok id ]
  ]

  abbrev pub identity_of : Text → TrustDomain → SpiffeId → ServiceIdentity
  identity_of name d id = record { name = name; domain = d; uri = id_string id }

  unfoldable pub new_service_identity_validated : Text → Text → Result IdentityError ServiceIdentity
  new_service_identity_validated name domain = do
    fail_if (text_eq name []) empty_name
    fail_if (text_eq domain []) empty_domain
    d ← wrap invalid_domain (new_trust_domain sdk domain)
    id ← make_id d name
    identity_validate (identity_of name d id)
    ok (identity_of name d id)

  -- `NewServiceIdentity`: the error is the panic.
  unfoldable pub new_service_identity : Text → Text → Result IdentityError ServiceIdentity
  new_service_identity name domain = new_service_identity_validated name domain

  -- `NewServiceIdentityUnchecked`: the domain is checked, by a panic, and the name is not.
  unfoldable pub new_service_identity_unchecked : Text → Text → Result IdentityError ServiceIdentity
  new_service_identity_unchecked name domain = do
    d ← wrap invalid_domain (new_trust_domain sdk domain)
    ok (record { name = name; domain = d; uri = scheme ++ (domain ++ b'/' ∷ name) })

  unfoldable pub new_service_identity_with_trust_domain :
      Text → TrustDomain → Result IdentityError ServiceIdentity
  new_service_identity_with_trust_domain name d = do
    wrap invalid_domain (domain_validate sdk d)
    id ← make_id d name
    ok (identity_of name d id)

  unfoldable pub new_service_identity_from_spiffe_id :
      SpiffeId → Result IdentityError ServiceIdentity
  new_service_identity_from_spiffe_id id = do
    d ← wrap invalid_domain (new_trust_domain sdk id.domain)
    ok (identity_of (last_segment id.path) d id)

  -- `ToSPIFFEID`.
  unfoldable pub identity_to_spiffe_id : ServiceIdentity → Option SpiffeId
  identity_to_spiffe_id s = sdk.from_string s.uri
