-- ===== src/Domain/Namespace.antt =====
-- internal/core/domain/identity_namespace.go: a trust domain and a path.
pub mod Segments
pub mod Tree
pub mod Print
use ephemos.Base.{
  ◌||◌, List, ℕ, Bool, true, false, not, ◌&&◌, some, none, [], ◌∷◌, ◌++◌, ◌+◌, if◌then◌else◌,
  Result, ok, err, ltb, ◌==◌, fail_if, wrap, ◌>>=◌, ◌>>◌,
}
use ephemos.Domain.Spiffe.{Sdk, SpiffeId, scheme}
use ephemos.Domain.TrustDomain.{
  TrustDomain, DomainError, domain_is_zero, domain_string, domain_equals, new_trust_domain,
  domain_validate,
}
use ephemos.GoText.{Text, text, text_eq, len, has_prefix, has_suffix, trim_prefix, split_on}

pub record Namespace : Type 0 where
  pub domain : TrustDomain
  pub path : Text

pub data NamespaceError : Type 0 where
  empty_domain empty_id empty_namespace invalid_path invalid_id : NamespaceError
  invalid_domain : DomainError → NamespaceError
  too_long : ℕ → NamespaceError

abbrev pub max_spiffe_id_length : ℕ
max_spiffe_id_length = 2048

unfoldable pub namespace_is_zero : Namespace → Bool
namespace_is_zero n = domain_is_zero n.domain && text_eq n.path []

unfoldable pub namespace_string : Namespace → Text
namespace_string n =
    if namespace_is_zero n then [] else scheme ++ (domain_string n.domain ++ n.path)

unfoldable pub namespace_equals : Namespace → Namespace → Bool
namespace_equals n m = domain_equals n.domain m.domain && text_eq n.path m.path

unfoldable pub validate_total_length : Namespace → Result NamespaceError (Unit {0})
validate_total_length n =
    let total = len (namespace_string n) in
    if ltb max_spiffe_id_length total then err (too_long total) else ok tt

-- The SDK takes the empty path, and not "/", for the root.
unfoldable pub path_for_validation : Text → Text
path_for_validation path = if text_eq path (text "/") then [] else path

-- `strings.Count(s, "/")`.
unfoldable pub count_slashes : Text → ℕ
count_slashes [] = 0
count_slashes (c ∷ s) = (if c == b'/' then 1 else 0) + count_slashes s

-- `strings.TrimSuffix(s, "/")`.
unfoldable pub trim_slash : Text → Text
trim_slash [] = []
trim_slash (c ∷ []) = if c == b'/' then [] else c ∷ []
trim_slash (c ∷ d ∷ s) = c ∷ trim_slash (d ∷ s)

unfoldable pub normalize_id : Text → Text
normalize_id s = if has_suffix (text "/") s && count_slashes s == 3 then trim_slash s else s

unfoldable pub is_child_of : Namespace → Namespace → Bool
is_child_of n parent =
    if not (domain_equals n.domain parent.domain)
    then false
    else if text_eq parent.path (text "/")
    then true
    else has_prefix
        (if has_suffix (text "/") parent.path then parent.path else parent.path ++ text "/") n.path

-- The last of a list of parts.
abbrev pub last_part : List Text → Text
last_part [] = []
last_part (s ∷ []) = s
last_part (s ∷ t ∷ parts) = last_part (t ∷ parts)

-- `extractServiceNameFromPath`, and the body of `GetServiceName`.
unfoldable pub last_segment : Text → Text
last_segment path =
    if text_eq path [] || text_eq path (text "/")
    then []
    else last_part (split_on b'/' (trim_prefix (text "/") path))

unfoldable pub namespace_service_name : Namespace → Text
namespace_service_name n = last_segment n.path

module _ (sdk : Sdk) where
  unfoldable pub new_namespace : TrustDomain → Text → Result NamespaceError Namespace
  new_namespace d path = do
    fail_if (domain_is_zero d) empty_domain
    wrap invalid_domain (domain_validate sdk d)
    fail_if (not (sdk.validate_path (path_for_validation path))) invalid_path
    let n : Namespace = record { domain = d; path = path }
    validate_total_length n
    ok n

  unfoldable pub namespace_validate : Namespace → Result NamespaceError (Unit {0})
  namespace_validate n = do
    fail_if (namespace_is_zero n) empty_namespace
    wrap invalid_domain (domain_validate sdk n.domain)
    fail_if (not (sdk.validate_path (path_for_validation n.path))) invalid_path
    validate_total_length n

  -- The root path for an ID that has none.
  abbrev or_root : Text → Text
  or_root [] = text "/"
  or_root (c ∷ s) = c ∷ s

  unfoldable pub namespace_from_id : SpiffeId → Result NamespaceError Namespace
  namespace_from_id id = do
    d ← wrap invalid_domain (new_trust_domain sdk id.domain)
    new_namespace d (or_root id.path)

  unfoldable pub new_namespace_from_string : Text → Result NamespaceError Namespace
  new_namespace_from_string s =
      if text_eq s [] then err empty_id else elim (sdk.from_string (normalize_id s)) [
        | none ↦ err invalid_id
        | some id ↦ namespace_from_id id
      ]

  unfoldable pub with_path : Namespace → Text → Result NamespaceError Namespace
  with_path n path = new_namespace n.domain path

  unfoldable pub with_trust_domain : Namespace → TrustDomain → Result NamespaceError Namespace
  with_trust_domain n d = new_namespace d n.path
