-- ===== src/Examples/Documents.antt =====
-- A document of "spiffe://corp/pay" and a workload that has it.
use ephemos.Base.{◌≡◌, refl, ◌⊎◌, Option, none, some, [], ◌∷◌, ok, err}
use ephemos.GoText.{Text, text}
use ephemos.GoTime.{Time}
use ephemos.Domain.Keys.{Signer, ecdsa_signer}
use ephemos.Domain.Namespace.{Namespace}
use ephemos.Domain.Certificate.{Certificate, expired}
use ephemos.Domain.Document.{
  IdentityDocument, DocumentError, invalid_certificate, document_of, get_certificate_chain,
  get_private_key, document_is_valid, new_identity_document,
}
use ephemos.Domain.Workload.{
  Workload, WorkloadConfig, WorkloadError, invalid_document, status_active, new_workload,
  workload_validate,
}
use ephemos.Domain.Workload.Identity.{
  Life, born, IsDocumentError, IsBundleError, workload_validate-reason,
}
use ephemos.Examples.Sdk.{corp_sdk}
use ephemos.Examples.Values.{point, leaf, pay_cert, corp_domain}
use ephemos.Examples.Rotations.{verifier}

abbrev key : Option Signer
key = some (ecdsa_signer point)

abbrev document : IdentityDocument
document = document_of 5 pay_cert leaf

made : new_identity_document corp_sdk verifier 5 (leaf ∷ []) key none ≡ ok document
unfolding new_identity_document ephemos.Domain.Certificate.new_certificate_with_validation
    ephemos.Domain.Certificate.validate ephemos.Domain.Certificate.validate_present
    ephemos.Domain.Certificate.validate_basic_without_trust
    ephemos.Domain.Certificate.check_key_pair ephemos.Domain.Keys.extract_public_key_from_signer
    ephemos.Domain.Keys.validate_key_pair_matching ephemos.Domain.Certificate.check_expiry
    ephemos.GoTime.before ephemos.GoTime.after ephemos.Domain.Certificate.check_service_identity
made = refl

abbrev pay_namespace : Namespace
pay_namespace = record { domain = corp_domain; path = text "/pay" }

abbrev config : WorkloadConfig
config = record {
  id = text "pay-1";
  config_identity = pay_namespace;
  config_domain = corp_domain;
  config_doc = some document;
  config_bundle = none;
  config_labels = [];
  config_annotations = [];
  config_status = status_active;
}

abbrev workload : Workload
workload = record {
  identity = pay_namespace;
  trust_domain = corp_domain;
  identity_doc = some (record document { last_checked = 6 });
  trust_bundle = none;
  workload_id = text "pay-1";
  status = status_active;
  created_at = 6;
  last_updated = 6;
  labels = [];
  annotations = [];
}

alive : Life corp_sdk verifier workload
unfolding new_workload ephemos.Domain.Workload.check_names ephemos.GoText.trim_space
    ephemos.Domain.Namespace.namespace_is_zero ephemos.Domain.TrustDomain.domain_is_zero
    ephemos.Domain.TrustDomain.domain_equals ephemos.Domain.Workload.check_doc
    ephemos.Domain.Workload.check_identity_doc ephemos.Domain.Document.document_validate
    ephemos.Domain.Certificate.validate ephemos.Domain.Certificate.validate_present
    ephemos.Domain.Certificate.validate_basic_without_trust
    ephemos.Domain.Certificate.check_key_pair ephemos.Domain.Keys.extract_public_key_from_signer
    ephemos.Domain.Keys.validate_key_pair_matching ephemos.Domain.Certificate.check_expiry
    ephemos.GoTime.before ephemos.GoTime.after ephemos.Domain.Certificate.check_service_identity
    ephemos.Domain.Certificate.check_spiffe_id ephemos.Domain.Certificate.spiffe_uri
    ephemos.Domain.Certificate.to_service_identity ephemos.Domain.Certificate.to_spiffe_id
    ephemos.Domain.Certificate.validate_with_bundle ephemos.Domain.Certificate.verify_with_bundle
    ephemos.Domain.Document.get_identity_namespace ephemos.Domain.Identity.check_uri
    ephemos.Domain.Identity.identity_equal ephemos.Domain.Identity.identity_to_spiffe_id
    ephemos.Domain.Identity.identity_validate ephemos.Domain.Identity.make_id
    ephemos.Domain.Identity.new_service_identity_validated
    ephemos.Domain.Identity.validate_service_name
    ephemos.Domain.Identity.validate_spiffe_constraints ephemos.Domain.Keys.keys_match
    ephemos.Domain.Keys.supports_key_type ephemos.Domain.Keys.validate_signer_key_type
    ephemos.Domain.Namespace.count_slashes ephemos.Domain.Namespace.last_segment
    ephemos.Domain.Namespace.namespace_equals ephemos.Domain.Namespace.namespace_from_id
    ephemos.Domain.Namespace.namespace_string ephemos.Domain.Namespace.new_namespace
    ephemos.Domain.Namespace.new_namespace_from_string ephemos.Domain.Namespace.normalize_id
    ephemos.Domain.Namespace.path_for_validation ephemos.Domain.Namespace.trim_slash
    ephemos.Domain.Namespace.validate_total_length ephemos.Domain.Spiffe.id_string
    ephemos.Domain.TrustBundle.bundle_is_empty ephemos.Domain.TrustBundle.bundle_validate
    ephemos.Domain.TrustBundle.check_root ephemos.Domain.TrustBundle.check_roots
    ephemos.Domain.TrustBundle.raw_certificates ephemos.Domain.TrustBundle.seen_before
    ephemos.Domain.TrustBundle.status_is_empty ephemos.Domain.TrustDomain.domain_string
    ephemos.Domain.TrustDomain.domain_validate ephemos.Domain.TrustDomain.new_trust_domain
    ephemos.Domain.Workload.check_trust_bundle ephemos.GoText.has_prefix ephemos.GoText.has_suffix
    ephemos.GoText.is_space ephemos.GoText.len ephemos.GoText.lower_rune ephemos.GoText.split_on
    ephemos.GoText.to_lower ephemos.GoText.trim_left ephemos.GoText.trim_prefix ephemos.GoText.width
alive = born 6 config refl

-- Behind the certificate's expiry.
too_late :
    (workload_validate corp_sdk verifier 3600000000001 workload).1
    ≡ err (invalid_document (invalid_certificate expired))
unfolding workload_validate ephemos.Domain.Workload.check_names ephemos.GoText.trim_space
    ephemos.Domain.Namespace.namespace_is_zero ephemos.Domain.TrustDomain.domain_is_zero
    ephemos.Domain.TrustDomain.domain_equals ephemos.Domain.Workload.check_doc
    ephemos.Domain.Workload.check_identity_doc ephemos.Domain.Document.document_validate
    ephemos.Domain.Certificate.validate ephemos.Domain.Certificate.validate_present
    ephemos.Domain.Certificate.validate_basic_without_trust
    ephemos.Domain.Certificate.check_key_pair ephemos.Domain.Keys.extract_public_key_from_signer
    ephemos.Domain.Keys.validate_key_pair_matching ephemos.Domain.Certificate.check_expiry
    ephemos.GoTime.before ephemos.GoTime.after ephemos.Domain.Certificate.check_service_identity
    ephemos.Domain.Certificate.check_spiffe_id ephemos.Domain.Certificate.spiffe_uri
    ephemos.Domain.Certificate.to_service_identity ephemos.Domain.Certificate.to_spiffe_id
    ephemos.Domain.Certificate.validate_with_bundle ephemos.Domain.Certificate.verify_with_bundle
    ephemos.Domain.Document.get_identity_namespace ephemos.Domain.Identity.check_uri
    ephemos.Domain.Identity.identity_equal ephemos.Domain.Identity.identity_to_spiffe_id
    ephemos.Domain.Identity.identity_validate ephemos.Domain.Identity.make_id
    ephemos.Domain.Identity.new_service_identity_validated
    ephemos.Domain.Identity.validate_service_name
    ephemos.Domain.Identity.validate_spiffe_constraints ephemos.Domain.Keys.keys_match
    ephemos.Domain.Keys.supports_key_type ephemos.Domain.Keys.validate_signer_key_type
    ephemos.Domain.Namespace.count_slashes ephemos.Domain.Namespace.last_segment
    ephemos.Domain.Namespace.namespace_equals ephemos.Domain.Namespace.namespace_from_id
    ephemos.Domain.Namespace.namespace_string ephemos.Domain.Namespace.new_namespace
    ephemos.Domain.Namespace.new_namespace_from_string ephemos.Domain.Namespace.normalize_id
    ephemos.Domain.Namespace.path_for_validation ephemos.Domain.Namespace.trim_slash
    ephemos.Domain.Namespace.validate_total_length ephemos.Domain.Spiffe.id_string
    ephemos.Domain.TrustBundle.bundle_is_empty ephemos.Domain.TrustBundle.bundle_validate
    ephemos.Domain.TrustBundle.check_root ephemos.Domain.TrustBundle.check_roots
    ephemos.Domain.TrustBundle.raw_certificates ephemos.Domain.TrustBundle.seen_before
    ephemos.Domain.TrustBundle.status_is_empty ephemos.Domain.TrustDomain.domain_string
    ephemos.Domain.TrustDomain.domain_validate ephemos.Domain.TrustDomain.new_trust_domain
    ephemos.Domain.Workload.check_trust_bundle ephemos.GoText.has_prefix ephemos.GoText.has_suffix
    ephemos.GoText.is_space ephemos.GoText.len ephemos.GoText.lower_rune ephemos.GoText.split_on
    ephemos.GoText.to_lower ephemos.GoText.trim_left ephemos.GoText.trim_prefix ephemos.GoText.width
too_late = refl

workload_validate-reason_example :
    IsDocumentError corp_sdk verifier (invalid_document (invalid_certificate expired))
    ⊎ IsBundleError corp_sdk verifier (invalid_document (invalid_certificate expired))
workload_validate-reason_example =
    workload_validate-reason corp_sdk verifier 3600000000001
      (invalid_document (invalid_certificate expired)) alive too_late
