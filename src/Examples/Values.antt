-- ===== src/Examples/Values.antt =====
-- Certificates, identities and bundles of the examples.
use ephemos.Base.{true, false, none, some, [], ◌∷◌, ok, err}
use ephemos.Base.Int.{pos}
use ephemos.GoText.{text}
use ephemos.Domain.Keys.{EcdsaPublic, ecdsa_signer, ecdsa_public}
use ephemos.Domain.X509.{X509}
use ephemos.Domain.Spiffe.{SpiffeId}
use ephemos.Domain.TrustDomain.{TrustDomain}
use ephemos.Domain.Identity.{ServiceIdentity}
use ephemos.Domain.TrustBundle.{TrustBundle}
use ephemos.Domain.Certificate.{Certificate}
use ephemos.Domain.Cache.{CacheEntry}
use ephemos.Services.State.{State, free, Readings, Ports}
use ephemos.Services.Registry.{Connection, active, Registry, default_rotation_policy, Answers}
use ephemos.Examples.Sdk.{corp, corp_sdk}

abbrev pub point : EcdsaPublic
point = record { curve = 256; x = 3; y = 5 }

-- Issued at minute 0, until minute 60 (in nanoseconds).
abbrev pub leaf : X509
leaf = record {
  raw = text "leaf";
  public_key_info = text "k1";
  public_key = ecdsa_public point;
  subject = text "pay";
  issuer = text "root";
  is_ca = false;
  not_before = 0;
  not_after = 3600000000000;
  uris = record { uri_scheme = text "spiffe"; host = corp; whole = text "spiffe://corp/pay" } ∷ [];
}

abbrev pub root : X509
root = record leaf { raw = text "root"; public_key_info = text "k2"; is_ca = true; uris = [] }

abbrev pub other_root : X509
other_root = record root { raw = text "other"; public_key_info = text "k3" }

abbrev pub pay_cert : Certificate
pay_cert = record { cert = some leaf; private_key = some (ecdsa_signer point); chain = [] }

abbrev pub pay_id : SpiffeId
pay_id = record { domain = corp; path = text "/pay" }

abbrev pub corp_domain : TrustDomain
corp_domain = record { td = corp }

abbrev pub pay : ServiceIdentity
pay = record { name = text "pay"; domain = corp_domain; uri = text "spiffe://corp/pay" }

abbrev pub one_root : TrustBundle
one_root = record { certificates = some (some root) ∷ [] }

abbrev pub two_roots : TrustBundle
two_roots = record { certificates = some (some root) ∷ some (some other_root) ∷ [] }

-- Every reading of the clock at the start.
abbrev pub at_start : Readings
at_start = record { fresh = 1; valid = 1; expiring = 1; reason = 1; soon = 1; stored = 1 }

-- A provider that always fails, a validator that accepts, and a transport with the handle 7.
abbrev pub ports : Ports
ports = record {
  sdk = corp_sdk;
  validator = λ now cert options. ok tt;
  certificates = λ attempt. err (text "down");
  authorities = λ attempt. err (text "down");
  create_server = λ cert bundle policy. ok 7;
  create_client = λ cert bundle policy. ok 7;
}

abbrev pub entry : CacheEntry
entry = record { fetched_at = 0; ttl = pos 1800000000000 }

-- A service with both caches filled.
abbrev pub filled : State
filled = record {
  mutex = free;
  cached_identity = pay_id;
  cache_config = none;
  cached_cert = some pay_cert;
  cert_cache_entry = some entry;
  cached_bundle = some one_root;
  bundle_cache_entry = some entry;
  cache_ttl = pos 1800000000000;
  metrics = [];
}

abbrev pub connection : Connection
connection = record {
  remote_identity = some pay;
  local_identity = some pay;
  state = active;
  established_at = 5;
  last_rotated = 5;
  conn_cert = some pay_cert;
  tls_state = none;
}

abbrev pub one_connection : Connection → Registry
one_connection c = record {
  connections = (text "a", c) ∷ [];
  rotation_policy = default_rotation_policy;
  notices = [];
}

-- The service gives out a certificate and accepts it.
abbrev pub answers : Answers
answers = record { new_certificate = some (ok (some pay_cert)); validity = λ cert. some (ok tt) }
