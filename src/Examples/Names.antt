-- ===== src/Examples/Names.antt =====
-- Names, namespaces, identities, keys, statuses and the cache's clock.
use ephemos.GoText.{trim_space, to_lower}
use ephemos.Domain.ServiceName.Laws.{IsServiceName}
use ephemos.Domain.Spiffe.{scheme}
use ephemos.Domain.SocketPath.{
  SocketPath, FileInfo, missing, new_socket_path, unix_prefix, is_abs, in_secure_directory,
  validate_permissions,
}
use ephemos.Domain.SocketPath.Laws.{IsSocketPath, new_socket_path_iff}
use ephemos.GoText.{has_prefix, has_suffix, trim_prefix}
use ephemos.Examples.Values.{pay_id}
use ephemos.Base.{◌+◌, ◌≤◌, ◌<◌, ◌≡◌, refl, ◌↔◌, true, some, ◌++◌, arith, ok}
use ephemos.GoText.{Text, text}
use ephemos.Base.Int.{pos}
use ephemos.Domain.ServiceName.{ServiceName, new_service_name, name_is_valid_for_production}
use ephemos.Domain.ServiceName.Laws.{new_service_name-ok_iff}
use ephemos.Domain.Namespace.{
  Namespace, is_child_of, last_segment, new_namespace_from_string, namespace_string,
}
use ephemos.Domain.Namespace.Print.{from_string-namespace_string}
use ephemos.Domain.Identity.{new_service_identity_validated, identity_validate}
use ephemos.Domain.Identity.Laws.{new_service_identity_validated-value}
use ephemos.Domain.Certificate.{is_expired, is_expiring_within, is_expiring_soon}
use ephemos.Domain.Certificate.Expiry.{is_expiring_iff}
use ephemos.Examples.Sdk.{corp, corp_sdk, corp-IsSdk}
use ephemos.Examples.Values.{corp_domain, pay, leaf, pay_cert}

abbrev pay_api : ServiceName
pay_api = record { value = text "pay-api" }

pay_api_made : new_service_name (text " pay-api ") ≡ ok pay_api
unfolding new_service_name ephemos.Domain.ServiceName.check_name trim_space ephemos.GoText.len
    ephemos.Regex.matches ephemos.Regex.is_alnum ephemos.Domain.ServiceName.is_name_char
    ephemos.GoText.contains to_lower ephemos.Domain.ServiceName.misplaced_test
pay_api_made = refl

new_service_name-ok_iff_example :
    (new_service_name (text " pay-api ") ≡ ok pay_api)
    ↔ ((text "pay-api" ≡ trim_space (text " pay-api ")) × IsServiceName (text "pay-api"))
new_service_name-ok_iff_example = new_service_name-ok_iff (text " pay-api ") pay_api

abbrev folder_at : Text → Namespace
folder_at p = record { domain = corp_domain; path = p }

from_string-namespace_string_example :
    new_namespace_from_string corp_sdk (namespace_string (folder_at (text "/a")))
    ≡ ok (folder_at (text "/a"))
unfolding new_namespace_from_string ephemos.Domain.Namespace.normalize_id ephemos.GoText.has_suffix
    ephemos.Domain.Namespace.namespace_from_id ephemos.Domain.TrustDomain.new_trust_domain
    ephemos.Domain.Namespace.new_namespace ephemos.Domain.TrustDomain.domain_is_zero
    ephemos.Domain.TrustDomain.domain_validate ephemos.Domain.Namespace.path_for_validation
    ephemos.Domain.Namespace.validate_total_length ephemos.GoText.len namespace_string
    ephemos.Domain.Namespace.namespace_is_zero
from_string-namespace_string_example =
    from_string-namespace_string corp_sdk corp-IsSdk (text "spiffe://corp/a")
      (folder_at (text "/a")) refl

new_service_identity_validated-value_example :
    (text "pay" ≡ text "pay")
    × (pay.uri ≡ scheme ++ (corp ++ text "/pay"))
    × (identity_validate corp_sdk pay ≡ ok tt)
    × (corp_sdk.from_string pay.uri ≡ some pay_id)
unfolding new_service_identity_validated ephemos.Domain.TrustDomain.new_trust_domain
    ephemos.Domain.Identity.make_id ephemos.Domain.TrustDomain.domain_string
    ephemos.GoText.has_suffix identity_validate ephemos.Domain.TrustDomain.domain_validate
    ephemos.Domain.Identity.validate_service_name ephemos.GoText.has_prefix
    ephemos.Domain.Identity.check_uri ephemos.Domain.Spiffe.id_string ephemos.GoText.len to_lower
new_service_identity_validated-value_example =
    new_service_identity_validated-value corp_sdk corp-IsSdk (text "pay") corp pay refl

is_expiring_iff_example :
    ((is_expiring_within 7 (pos 600000000000) pay_cert ≡ true) ↔ (3600000000000 ≤ 7 + 600000000000))
    × ((is_expiring_soon 7 (pos 600000000000) pay_cert ≡ true) ↔ (3600000000000 < 7 + 600000000000))
    × (is_expired 7 pay_cert ≡ true → is_expiring_soon 7 (pos 600000000000) pay_cert ≡ true)
is_expiring_iff_example = is_expiring_iff 7 pay_cert leaf 600000000000 refl (omega arith)

-- Nothing is there yet.
abbrev no_file : Text → FileInfo
no_file p = missing

abbrev agent : SocketPath
agent = record { path_value = text "/run/spire/agent.sock" }

agent-taken : new_socket_path no_file (text "unix:///run/spire/agent.sock") ≡ ok agent
unfolding new_socket_path is_abs in_secure_directory validate_permissions has_prefix has_suffix
    trim_prefix
agent-taken = refl

new_socket_path_iff_example :
    (new_socket_path no_file (text "unix:///run/spire/agent.sock") ≡ ok agent) ↔ (
      (text "/run/spire/agent.sock" ≡ trim_prefix unix_prefix (text "unix:///run/spire/agent.sock"))
      × IsSocketPath no_file (text "/run/spire/agent.sock"))
new_socket_path_iff_example =
    new_socket_path_iff no_file (text "unix:///run/spire/agent.sock") agent
