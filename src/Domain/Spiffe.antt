-- ===== src/Domain/Spiffe.antt =====
-- The go-spiffe SDK as internal/core/domain uses it (package spiffeid, not in the repository): an
-- interface of operations, and a record of the documented laws that theorems rest on.
pub mod Laws
use ephemos.Base.{
  ℕ, Bool, true, false, ◌≡◌, Option, some, none, [], ◌∷◌, ◌++◌, if◌then◌else◌, All, ◌≢◌,
}
use ephemos.GoText.{Text, text, text_eq, has_suffix}

-- `spiffeid.ID`: the name of the trust domain and the path; the zero ID has neither.
pub record SpiffeId : Type 0 where
  pub domain : Text
  pub path : Text

abbrev pub scheme : Text
scheme = text "spiffe://"

-- `ID.String()`.
unfoldable pub id_string : SpiffeId → Text
id_string id = if text_eq id.domain [] then [] else scheme ++ (id.domain ++ id.path)

-- A `*url.URL` as a certificate carries it.
pub record Uri : Type 0 where
  pub uri_scheme : Text
  pub host : Text
  pub whole : Text

pub record Sdk : Type 0 where
  -- `TrustDomainFromString`: the name of the trust domain.
  pub trust_domain_from_string : Text → Option Text
  -- `ValidatePath`.
  pub validate_path : Text → Bool
  -- `FromString`.
  pub from_string : Text → Option SpiffeId
  -- `FromURI`.
  pub from_uri : Uri → Option SpiffeId
  -- `FromPath` of a trust domain and a path.
  pub from_path : Text → Text → Option SpiffeId

abbrev pub IsDomainName : Sdk → Text → Type 0
IsDomainName sdk d = sdk.trust_domain_from_string d ≡ some d

-- What the package documents: a trust domain's name is not empty, is read back as itself and holds
-- no slash; a path is empty, or begins with a slash and does not end in one; an ID is a trust domain
-- and a path, printed as a URI and read back from it.
pub record IsSdk (sdk : Sdk) : Type 0 where
  pub domain_again : (s d : Text) → sdk.trust_domain_from_string s ≡ some d → IsDomainName sdk d
  pub domain_not_empty : (d : Text) → IsDomainName sdk d → d ≢ []
  pub domain_no_slash : (d : Text) → IsDomainName sdk d → All (λ c. c ≢ b'/') d
  pub path_end : (p : Text) → sdk.validate_path p ≡ true → has_suffix (text "/") p ≡ false
  pub path_start : (c : ℕ) (p : Text) → sdk.validate_path (c ∷ p) ≡ true → c ≡ b'/'
  pub id_parts :
      (s : Text) (id : SpiffeId)
      → sdk.from_string s ≡ some id
      → IsDomainName sdk id.domain × (sdk.validate_path id.path ≡ true)
  pub uri_parts :
      (u : Uri) (id : SpiffeId)
      → sdk.from_uri u ≡ some id
      → IsDomainName sdk id.domain × (sdk.validate_path id.path ≡ true)
  pub id_again :
      (id : SpiffeId)
      → IsDomainName sdk id.domain
      → sdk.validate_path id.path ≡ true
      → sdk.from_string (id_string id) ≡ some id
  pub from_path_valid :
      (d p : Text)
      → IsDomainName sdk d
      → sdk.validate_path p ≡ true
      → sdk.from_path d p ≡ some (record { domain = d; path = p })
  pub from_path_invalid : (d p : Text) → sdk.validate_path p ≡ false → sdk.from_path d p ≡ none
