-- ===== src/Configuration/Environment.antt =====
-- Configurations from the variables of the environment, in internal/core/ports/configuration.go.
pub mod Merged
use ephemos.Base.{
  ℕ, zero, suc, ◌+◌, ◌-◌, ◌≤◌, ◌<◌, ◌≡◌, refl, sym, ap, ◌∙◌, ◌≢◌, ◌↔◌, ◌⊎◌, inl, inr, Bool, true,
  false, not, ◌&&◌, ◌||◌, Option, none, some, List, [], ◌∷◌, ◌++◌, map, arith, ltb, leb, ◌==◌,
  if◌then◌else◌, Bool-cases, Option-cases, Result, ok, err, fail_if, wrap, ◌>>=◌, ◌>>◌, length, All,
}
use ephemos.Base.Int.{ℤ}
use ephemos.GoText.{Text, text, text_eq}
use ephemos.Domain.ServiceName.{ServiceName, new_service_name}
use ephemos.Domain.SocketPath.{SocketPath, FileInfo, new_socket_path, new_socket_path_unsafe}
use ephemos.Configuration.{
  CacheConfig, AgentConfig, Configuration, ConfigError, FieldError, name_not_set, bad_name,
  bad_socket, not_decoded, validate_configuration,
}

-- What viper gives for a key: its text, number and truth value, and whether it is set. An instance has
-- its own defaults.
pub record Env : Type 0 where
  pub get_string : Text → Text
  pub get_int : Text → ℤ
  pub get_bool : Text → Bool
  pub is_set : Text → Bool

-- The service name, where a text for it is given.
abbrev pub override_name : Text → Configuration → Result ConfigError Configuration
override_name v c =
    if text_eq v []
    then ok c
    else (do n ← wrap bad_name (new_service_name v); ok (record c { name = n }))

abbrev pub override_domain : Text → Configuration → Configuration
override_domain v c = if text_eq v [] then c else record c { domain = v }

abbrev pub zero_agent : AgentConfig
zero_agent = record { socket_path = record { path_value = [] } }

abbrev pub agent_or_zero : Option AgentConfig → AgentConfig
agent_or_zero none = zero_agent
agent_or_zero (some a) = a

-- An agent, where there is none.
abbrev pub with_agent : Configuration → Configuration
with_agent c = record c { agent = some (agent_or_zero c.agent) }

abbrev pub put_socket : SocketPath → Configuration → Configuration
put_socket p c = record c { agent = some (record { socket_path = p }) }

-- The configuration behind the override of the socket path, which may fail.
abbrev pub store_socket :
    Configuration → Result ConfigError SocketPath → Configuration × Result ConfigError (Unit {0})
store_socket c (err e) = (with_agent c, err e)
store_socket c (ok p) = (put_socket p c, ok tt)

module _ (stat : Text → FileInfo) where
  abbrev pub override_socket : Text → Configuration → Configuration × Result ConfigError (Unit {0})
  override_socket v c =
      if text_eq v [] then (c, ok tt) else store_socket c (wrap bad_socket (new_socket_path stat v))

  module _ (tags : Configuration → List FieldError) where
    -- The validation at the end, unless there was an error.
    abbrev pub validated :
        Configuration × Result ConfigError (Unit {0})
        → Configuration × Result ConfigError (Unit {0})
    validated (c, r) = (c, r >> validate_configuration tags (some c))

    abbrev pub merge_named :
        Env
        → Configuration
        → Result ConfigError Configuration
        → Configuration × Result ConfigError (Unit {0})
    merge_named env c (err e) = (c, err e)
    merge_named env c (ok named) = validated (
        override_socket (env.get_string (text "agent_socket"))
          (override_domain (env.get_string (text "trust_domain")) named))

    -- `MergeWithEnvironment`, with the configuration that it leaves, in an error too.
    unfoldable pub merge_with_environment :
        Env → Configuration → Configuration × Result ConfigError (Unit {0})
    merge_with_environment env c =
        merge_named env c (override_name (env.get_string (text "service_name")) c)

abbrev zero_cache : CacheConfig
zero_cache = record {
  ttl_minutes = ephemos.Base.Int.pos 0;
  proactive_refresh_minutes = ephemos.Base.Int.pos 0;
}

abbrev pub cache_or_zero : Option CacheConfig → CacheConfig
cache_or_zero none = zero_cache
cache_or_zero (some c) = c

-- The cache's settings, where one of them is set.
unfoldable pub load_cache : Env → Option CacheConfig → Option CacheConfig
load_cache env cache =
    let k = cache_or_zero cache in
    let t = env.is_set (text "cache_ttl_minutes") in
    let r = env.is_set (text "cache_refresh_minutes") in
    if t || r
    then some (record {
      ttl_minutes = if t then env.get_int (text "cache_ttl_minutes") else k.ttl_minutes;
      proactive_refresh_minutes =
          if r then env.get_int (text "cache_refresh_minutes") else k.proactive_refresh_minutes;
    })
    else cache

-- The agent: the paths are taken as they are.
unfoldable pub load_agent : Env → Option AgentConfig → AgentConfig
load_agent env agent =
    let s = env.get_string (text "agent_socket") in
    let t = env.get_string (text "agent.socketpath") in
    if not (text_eq s [])
    then record { socket_path = new_socket_path_unsafe s }
    else if not (text_eq t [])
    then record { socket_path = new_socket_path_unsafe t }
    else agent_or_zero agent

-- The trust domain, or else the service's domain.
abbrev pub load_domain : Env → Text
load_domain env =
    let d = env.get_string (text "trust_domain") in
    if text_eq d [] then env.get_string (text "service.domain") else d

module _ (tags : Configuration → List FieldError) where
  -- `LoadFromEnvironment`, with what viper unmarshals.
  unfoldable pub load_from_environment :
      Env → Result Text Configuration → Result ConfigError Configuration
  load_from_environment env decoded = do
    fail_if (not (env.is_set (text "service_name"))) name_not_set
    c ← wrap not_decoded decoded
    named ← override_name (env.get_string (text "service_name")) c
    let loaded : Configuration = record {
      name = named.name;
      domain = load_domain env;
      cache = load_cache env named.cache;
      agent = some (load_agent env named.agent);
    }
    validate_configuration tags (some loaded)
    ok loaded

-- `ShouldSkipCertificateValidation`, and `IsInsecureModeExplicitlyEnabled`.
unfoldable pub should_skip_certificate_validation : Env → Bool
should_skip_certificate_validation env = env.get_bool (text "insecure_skip_verify")
