-- ===== src/Examples/Peers.antt =====
-- A request and a transport of "corp".
use ephemos.Base.{◌≡◌, ◌↔◌, true, Option, none, some, List, [], ◌∷◌, ok, ◌>>=◌, ◌>>◌}
use ephemos.Domain.X509.{X509}
use ephemos.Configuration.{Configuration}
use ephemos.Middleware.{IdentityConfig, identity_middleware, require_service, require_trust_domain}
use ephemos.Middleware.Admission.{Admitted, identity_middleware-Admitted}
use ephemos.Adapters.Transport.{Authorizer, mtls_client, mtls_server, create_client, create_server}
use ephemos.Adapters.Transport.Authorizers.{Authorizes, provider, tls_of, create_client-Authorizes}
use ephemos.GoText.{text}
use ephemos.Examples.Sdk.{corp, corp_sdk}
use ephemos.Examples.Values.{leaf}
use ephemos.Examples.Configurations.{configuration, environment}

abbrev corp_only : IdentityConfig
corp_only = record { require_client_cert = true; trust_domains = corp ∷ [] }

abbrev request : Option (List X509)
request = some (leaf ∷ [])

identity_middleware-Admitted_example :
    ((identity_middleware corp_sdk corp_only request >>= λ i.
    require_service (text "pay" ∷ []) i >> require_trust_domain (corp ∷ []) i)
      ≡ ok tt)
    ↔ Admitted corp_sdk corp_only (text "pay" ∷ []) (corp ∷ []) request
identity_middleware-Admitted_example =
    identity_middleware-Admitted corp_sdk corp_only (text "pay" ∷ []) (corp ∷ []) request

abbrev of_corp : Configuration
of_corp = record configuration { domain = corp }

create_client-Authorizes_example :
    (u : Authorizer) × Authorizes corp_sdk environment of_corp none u
    × (create_client none (provider corp_sdk environment of_corp 1 2 none)
        ≡ ok (record {
          tls_config = some (tls_of corp_sdk environment of_corp (mtls_client 1 2 u));
          policy = none;
        }))
    × (create_server none (provider corp_sdk environment of_corp 1 2 none)
        ≡ ok (record {
          tls_config = some (tls_of corp_sdk environment of_corp (mtls_server 1 2 u));
          policy = none;
        }))
create_client-Authorizes_example =
    create_client-Authorizes corp_sdk environment of_corp 1 2 none none
