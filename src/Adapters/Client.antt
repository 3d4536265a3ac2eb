-- ===== src/Adapters/Client.antt =====
-- internal/adapters/primary/api/client.go: the client, its connections, and the sources of their TLS
-- configurations. What the identity service and the domain client answer is an argument.
pub mod Peers
pub mod Waits
use ephemos.Base.{
  ℕ, zero, suc, ◌+◌, ◌-◌, ◌≤◌, ◌<◌, ◌≡◌, refl, sym, ap, ◌∙◌, ◌≢◌, ◌↔◌, ◌⊎◌, inl, inr, Bool, true,
  false, not, ◌&&◌, ◌||◌, Option, none, some, List, [], ◌∷◌, ◌++◌, map, arith, ltb, leb, ◌==◌,
  if◌then◌else◌, Bool-cases, Option-cases, Result, ok, err, fail_if, wrap, ◌>>=◌, ◌>>◌, length, All,
}
use ephemos.GoText.{Text, text, text_eq, has_prefix}
use ephemos.Domain.Spiffe.{Sdk, SpiffeId, Uri, scheme}
use ephemos.Domain.Keys.{Signer}
use ephemos.Services.State.{ServiceError, Stop, failed_with, crashes, hangs, reply}
use ephemos.Domain.X509.{X509}
use ephemos.Domain.ServiceName.{ServiceName, NameError, new_service_name}
use ephemos.Domain.ServiceAddress.{ServiceAddress, AddressError, Net, new_service_address}
use ephemos.Domain.Certificate.{Certificate}
use ephemos.Domain.TrustBundle.{TrustBundle, raw_certificates, bundle_is_empty}
use ephemos.Application.Providers.{Svid}
use ephemos.Adapters.Source.{Bundle}

-- `AuthorizeID`, `AuthorizeMemberOf`, or a caller's own authorizer, by its number.
pub data PeerAuthorizer : Type 0 where
  only_id : SpiffeId → PeerAuthorizer
  any_member : Text → PeerAuthorizer
  own : ℕ → PeerAuthorizer

pub data ClientError : Type 0 where
  nil_configuration nil_provider nil_transport nil_context not_grpc no_authorizer : ClientError
  fault no_connection no_identity_service no_leaf not_a_signer no_id no_authorities : ClientError
  bad_service_name : NameError → ClientError
  bad_service_address : AddressError → ClientError
  not_created : ServiceError → ClientError
  not_made not_connected not_closed no_certificate no_bundle : Text → ClientError
  other_domain : Text → ClientError

-- The zero trust domain is the empty text; a domain client is a number that names it.
pub record Client : Type 0 where
  pub domain_client : Option ℕ
  pub client_domain : Text
  pub own_authorizer : Option PeerAuthorizer
  -- A call holds the client's mutex, and will not give it back.
  pub is_locked : Bool

-- `IdentityClient`, told which arguments are nil, with the answer of NewIdentityService.
unfoldable pub identity_client :
    Bool
    → Bool
    → Bool
    → Result Text (Unit {0})
    → Option PeerAuthorizer
    → Text
    → Result ClientError Client
identity_client with_config with_provider with_transport service a td = do
  fail_if (not with_config) nil_configuration
  fail_if (not with_provider) nil_provider
  fail_if (not with_transport) nil_transport
  wrap not_made service
  ok (record { domain_client = none; client_domain = td; own_authorizer = a; is_locked = false })

-- `NewClient` on the options.
unfoldable pub new_client :
    Bool
    → Bool
    → Bool
    → Result Text (Unit {0})
    → Option PeerAuthorizer
    → Text
    → Result ClientError Client
new_client with_config with_provider with_transport service a td = do
  fail_if (not with_transport) nil_transport
  identity_client with_config with_provider with_transport service a td

-- What the sources of a connection are made of: the restriction of the bundles.
pub record ClientTls : Type 0 where
  pub restricted_to : Text
  pub tls_authorizer : PeerAuthorizer

pub record ClientConnection : Type 0 where
  pub grpc_connection : ℕ
  pub has_domain_connection : Bool
  pub has_identity_service : Bool
  pub authorizer : PeerAuthorizer
  pub connection_domain : Text
  -- What the one run of tlsOnce left.
  pub tls_once : Option (Result ClientError ClientTls)

-- What CreateClientIdentity answers, where none is a call that never returns, and what the domain
-- client's Connect does, where none is a connection of another kind.
pub record ConnectAnswers : Type 0 where
  pub created : Option (Result ServiceError ℕ)
  pub connects : ℕ → Text → Text → Result Text (Option ℕ)

abbrev pub id_or_member : Option SpiffeId → Text → PeerAuthorizer
id_or_member none td = any_member td
id_or_member (some id) td = only_id id

-- `buildAuthorizer`, which is never nil.
unfoldable pub build_authorizer : Sdk → Text → Text → Option PeerAuthorizer
build_authorizer sdk name td =
    if has_prefix scheme name
    then some (id_or_member (sdk.from_string name) td)
    else some (any_member td)

abbrev pub authorizer_or_own :
    Option PeerAuthorizer → Option PeerAuthorizer → Result ClientError PeerAuthorizer
authorizer_or_own (some a) mine = ok a
authorizer_or_own none (some a) = ok a
authorizer_or_own none none = err no_authorizer

abbrev pub grpc_of : Option ℕ → Result ClientError ℕ
grpc_of none = err not_grpc
grpc_of (some g) = ok g

abbrev pub connection_of_client : Client → ℕ → PeerAuthorizer → ClientConnection
connection_of_client c g a = record {
  grpc_connection = g;
  has_domain_connection = true;
  has_identity_service = true;
  authorizer = a;
  connection_domain = c.client_domain;
  tls_once = none;
}

abbrev pub checked_target :
    Net → Bool → Text → Text → Result ClientError (ServiceName × ServiceAddress)
checked_target net with_context name address = do
  fail_if (not with_context) nil_context
  n ← wrap bad_service_name (new_service_name name)
  a ← wrap bad_service_address (new_service_address net address)
  ok (n, a)

-- The client that is there, or else a new one.
abbrev pub opened : ConnectAnswers → Option ℕ → Result Stop ℕ
opened answers none = reply answers.created
opened answers (some d) = ok d

abbrev pub dial :
    Sdk
    → ConnectAnswers
    → ℕ
    → Client
    → ServiceName × ServiceAddress
    → Result ClientError ClientConnection
dial sdk answers d c (n, address) = do
  found ← wrap not_connected (answers.connects d n.value address.address)
  g ← grpc_of found
  a ← authorizer_or_own (build_authorizer sdk n.value c.client_domain) c.own_authorizer
  ok (connection_of_client c g a)

-- A call that does not come to the end of its work under the mutex keeps it.
abbrev pub with_opened :
    Sdk
    → ConnectAnswers
    → Client
    → ServiceName × ServiceAddress
    → Result Stop ℕ
    → Client × Option (Result ClientError ClientConnection)
with_opened sdk answers c target (err (failed_with e)) = (c, some (err (not_created e)))
with_opened sdk answers c target (err crashes) = (record c { is_locked = true }, some (err fault))
with_opened sdk answers c target (err hangs) = (record c { is_locked = true }, none)
with_opened sdk answers c target (ok d) =
    (record c { domain_client = some d }, some (dial sdk answers d c target))

abbrev pub with_target :
    Sdk
    → ConnectAnswers
    → Client
    → Result ClientError (ServiceName × ServiceAddress)
    → Client × Option (Result ClientError ClientConnection)
with_target sdk answers c (err e) = (c, some (err e))
with_target sdk answers c (ok target) =
    if c.is_locked
    then (c, none)
    else with_opened sdk answers c target (opened answers c.domain_client)

-- `Connect`, told whether the context is there; none is a call that never returns.
unfoldable pub connect :
    Sdk
    → Net
    → ConnectAnswers
    → Bool
    → Text
    → Text
    → Client
    → Client × Option (Result ClientError ClientConnection)
connect sdk net answers with_context name address c =
    with_target sdk answers c (checked_target net with_context name address)

abbrev pub closed_with :
    Client → Result Text (Unit {0}) → Client × Option (Result ClientError (Unit {0}))
closed_with c (err e) = (c, some (err (not_closed e)))
closed_with c (ok u) = (record c { domain_client = none }, some (ok tt))

abbrev pub close_held :
    Result Text (Unit {0}) → Client → Option ℕ → Client × Option (Result ClientError (Unit {0}))
close_held closing c none = (c, some (ok tt))
close_held closing c (some d) = closed_with c closing

-- `Client.Close`, with what the domain client's Close answers; none is a call that never returns.
unfoldable pub close_client :
    Result Text (Unit {0}) → Client → Client × Option (Result ClientError (Unit {0}))
close_client closing c = if c.is_locked then (c, none) else close_held closing c c.domain_client

abbrev pub made_tls : ClientConnection → Result ClientError ClientTls
made_tls k = do
  fail_if (not k.has_identity_service) no_identity_service
  ok (record { restricted_to = k.connection_domain; tls_authorizer = k.authorizer })

-- `extractTLSConfig`.
unfoldable pub extract_tls_config :
    ClientConnection → ClientConnection × Result ClientError ClientTls
extract_tls_config k = elim k.tls_once [
  | none ↦ (record k { tls_once = some (made_tls k) }, made_tls k)
  | some r ↦ (k, r)
]

-- `HTTPClient`, which is made of the TLS configuration.
unfoldable pub http_client : ClientConnection → ClientConnection × Result ClientError ClientTls
http_client k = if k.has_domain_connection then extract_tls_config k else (k, err no_connection)

-- `createSVIDSource` hands on; `GetX509SVID` of the adapter, with the answer of GetCertificate.
module _ (sdk : Sdk) where
  -- `extractSPIFFEIDFromCert`: the first URI of SPIFFE that is an ID.
  unfoldable pub first_id : List Uri → Option SpiffeId
  first_id [] = none
  first_id (u ∷ us) =
      let rest = first_id us in
      let here : Option SpiffeId = elim (sdk.from_uri u) [ none ↦ rest | some id ↦ some id ] in
      if text_eq u.uri_scheme (text "spiffe") then here else rest

  abbrev pub or_client_error {ℓ} : {A : Type ℓ} → ClientError → Option A → Result ClientError A
  or_client_error e none = err e
  or_client_error e (some a) = ok a

  unfoldable pub source_svid : Result Text Certificate → Result ClientError Svid
  source_svid answer = do
    c ← wrap no_certificate answer
    leaf ← or_client_error no_leaf c.cert
    signer ← or_client_error not_a_signer c.private_key
    id ← or_client_error no_id (first_id leaf.uris)
    ok (record { id = id; certificates = leaf ∷ c.chain; svid_key = some signer })

-- `GetX509BundleForTrustDomain` of the adapter, with the answer of GetTrustBundle.
unfoldable pub source_bundle : Text → Result Text TrustBundle → Text → Result ClientError Bundle
source_bundle restricted answer td = do
  fail_if (not (text_eq restricted []) && not (text_eq td restricted)) (other_domain td)
  b ← wrap no_bundle answer
  fail_if (bundle_is_empty b) no_authorities
  ok (record { trust_domain = td; authorities = raw_certificates b.certificates })
