-- ===== src/Configuration/Builder.antt =====
-- internal/core/ports/configuration_builder.go.
pub mod Valid
use ephemos.Base.{none, some, List, [], Result, ok, fail_if, ◌>>◌}
use ephemos.Base.Int.{ℤ}
use ephemos.GoText.{Text, text_eq}
use ephemos.Domain.ServiceName.{new_service_name_unsafe}
use ephemos.Domain.SocketPath.{new_socket_path_unsafe}
use ephemos.Configuration.{
  Configuration, ConfigError, FieldError, name_required, domain_required, validate_configuration,
}
use ephemos.Configuration.Environment.{zero_agent, cache_or_zero}

-- `NewConfigurationBuilder`; a builder is its configuration.
unfoldable pub new_configuration_builder : Configuration
new_configuration_builder = record {
  name = record { value = [] };
  domain = [];
  cache = none;
  agent = some zero_agent;
}

unfoldable pub with_service_name : Text → Configuration → Configuration
with_service_name n b = record b { name = new_service_name_unsafe n }

unfoldable pub with_trust_domain : Text → Configuration → Configuration
with_trust_domain d b = record b { domain = d }

unfoldable pub with_service : Text → Text → Configuration → Configuration
with_service n d b = record b { name = new_service_name_unsafe n; domain = d }

unfoldable pub with_cache_ttl : ℤ → Configuration → Configuration
with_cache_ttl m b = record b { cache = some (record (cache_or_zero b.cache) { ttl_minutes = m }) }

unfoldable pub with_cache_refresh : ℤ → Configuration → Configuration
with_cache_refresh m b = record b {
  cache = some (record (cache_or_zero b.cache) { proactive_refresh_minutes = m });
}

unfoldable pub with_agent_socket : Text → Configuration → Configuration
with_agent_socket p b = record b {
  agent = some (record { socket_path = new_socket_path_unsafe p });
}

-- `Build`.
unfoldable pub build_configuration :
    (Configuration → List FieldError) → Configuration → Result ConfigError Configuration
build_configuration tags b = do
  fail_if (text_eq b.name.value []) name_required
  fail_if (text_eq b.domain []) domain_required
  validate_configuration tags (some b)
  ok b
