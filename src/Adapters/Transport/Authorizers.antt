-- ===== src/Adapters/Transport/Authorizers.antt =====
-- Which peers the clients and servers of grpc_provider_rotatable.go authorize.
use ephemos.Base.{
  ℕ, ◌≡◌, refl, ◌⊎◌, inl, inr, true, false, Option, none, some, [], if◌then◌else◌, Bool-cases,
  Option-cases, ok,
}
use ephemos.GoText.{Text, text_eq}
use ephemos.Domain.Spiffe.{Sdk}
use ephemos.Services.State.{Policy}
use ephemos.Configuration.{Configuration}
use ephemos.Configuration.Environment.{Env, should_skip_certificate_validation}
use ephemos.Adapters.Transport.{
  Authorizer, authorize_any, member_of, Capability, config_capability, parsed_domain,
  adapter_trust_domain, create_default_authorizer, is_configured, adapter_skips, trust_provider_of,
  GrpcProvider, new_rotatable_grpc_provider, set_sources, TlsConfig, insecure, mtls_client,
  mtls_server, or_any, create_secure_default_authorizer, authorizer_used, create_client,
  create_server,
}

module _ (sdk : Sdk) (env : Env) (c : Configuration) where
  abbrev pub capability : Option Capability
  unfolding config_capability
  capability = some (config_capability env (some c))

  -- The members of the configured domain, or else every peer.
  abbrev pub DefaultAuthorizer : Authorizer → Type 0
  DefaultAuthorizer u =
      ((e : Text) × (is_configured sdk capability ≡ true)
        × (sdk.trust_domain_from_string c.domain ≡ some e)
        × (u ≡ member_of e))
      ⊎ ((is_configured sdk capability ≡ false) × (u ≡ authorize_any))

  -- A caller's authorizer, or else the default.
  abbrev pub Authorizes : Option Authorizer → Authorizer → Type 0
  Authorizes (some a) u = u ≡ a
  Authorizes none u = DefaultAuthorizer u

  abbrev pub provider : ℕ → ℕ → Option Authorizer → GrpcProvider
  unfolding new_rotatable_grpc_provider
  provider s b a =
      (set_sources (some s) (some b) a
        (new_rotatable_grpc_provider (some (trust_provider_of sdk capability)))).0

  default_lem : DefaultAuthorizer (or_any (create_default_authorizer sdk capability))
  unfolding capability create_default_authorizer is_configured adapter_trust_domain
      config_capability
  default_lem = elim (Bool-cases (text_eq c.domain [])) [
    | inl e ↦ rw e (inr (refl, refl))
    | inr e ↦ elim (Option-cases (sdk.trust_domain_from_string c.domain)) [
      | inl f ↦ rw e (rw (f, parsed_domain) (inr (refl, refl)))
      | inr (d, f) ↦ rw e (rw (f, parsed_domain) (inl (d, refl, refl, refl)))
    ]
  ]

  used_lem : (s b : ℕ) (a : Option Authorizer) → Authorizes a (authorizer_used (provider s b a))
  unfolding provider capability authorizer_used set_sources new_rotatable_grpc_provider
      create_secure_default_authorizer
  used_lem s b none = default_lem
  used_lem s b (some a) = refl

  -- The TLS configuration, without any verification where the environment asks for none.
  abbrev pub tls_of : TlsConfig → TlsConfig
  tls_of t = if should_skip_certificate_validation env then insecure else t

  -- A provider of a configuration to which both sources and perhaps an authorizer are given makes
  -- clients and servers that authorize the same peers: those of the given authorizer, or else the
  -- members of the configured domain where it parses, or else every peer; the policy has no part in
  -- it, and where the environment asks for it, they verify nothing.
  pub create_client-Authorizes :
      (s b : ℕ) (a : Option Authorizer) (policy : Option Policy)
      → (u : Authorizer) × Authorizes a u
        × (create_client policy (provider s b a)
            ≡ ok (record { tls_config = some (tls_of (mtls_client s b u)); policy = policy }))
        × (create_server policy (provider s b a)
            ≡ ok (record { tls_config = some (tls_of (mtls_server s b u)); policy = policy }))
  unfolding provider capability create_client create_server set_sources new_rotatable_grpc_provider
      adapter_skips
  create_client-Authorizes s b a policy =
      elim (Bool-cases (should_skip_certificate_validation env)) [
        | inl e ↦ rw e (authorizer_used (provider s b a), used_lem s b a, refl, refl)
        | inr e ↦ rw e (authorizer_used (provider s b a), used_lem s b a, refl, refl)
      ]
