-- ===== src/Examples/Bundles.antt =====
-- Trust bundles, and a certificate under its own identity.
use ephemos.Base.{◌≡◌, refl, ◌≢◌, ◌↔◌, some, List, [], ok, All}
use ephemos.GoText.{Text, text}
use ephemos.Domain.TrustBundle.{bundle_validate, merge_bundles}
use ephemos.Domain.TrustBundle.Valid.{bundle_validate_iff, roots_of, IsAnchor, Distinct}
use ephemos.Domain.TrustBundle.Merge.{merged}
use ephemos.Domain.TrustBundle.Merging.{bundle_of, merge_bundles-ok_iff}
use ephemos.Domain.X509.{X509}
use ephemos.Domain.Keys.{ecdsa_signer}
use ephemos.Domain.Certificate.{validate_basic_without_trust}
use ephemos.Domain.Certificate.Identity.{validate_basic_own_identity_iff, expecting}
use ephemos.Domain.Namespace.Segments.{NoSlash}
use ephemos.Examples.Sdk.{corp_sdk, corp-IsSdk}
use ephemos.Examples.Values.{one_root, two_roots, pay_cert, pay_id, pay, leaf, point}

bundle_validate_iff_example : (bundle_validate 7 two_roots ≡ ok tt) ↔ (
    (cs : List X509) × (two_roots.certificates ≡ roots_of cs)
    × (cs ≢ [])
    × All (IsAnchor 7) cs
    × Distinct [] cs)
bundle_validate_iff_example = bundle_validate_iff 7 two_roots

merge_bundles-ok_iff_example :
    (merge_bundles 7 one_root (some two_roots) ≡ ok (bundle_of (merged one_root two_roots)))
    ↔ ((merged one_root two_roots ≢ []) × All (IsAnchor 7) (merged one_root two_roots))
merge_bundles-ok_iff_example = merge_bundles-ok_iff 7 one_root two_roots

validate_basic_own_identity_iff_example :
    (validate_basic_without_trust corp_sdk 7 pay_cert leaf (ecdsa_signer point) (expecting pay)
      ≡ ok tt)
    ↔ NoSlash (text "pay")
unfolding ephemos.Domain.Keys.extract_public_key_from_signer
    ephemos.Domain.Keys.validate_key_pair_matching ephemos.Domain.Certificate.to_spiffe_id
    ephemos.Domain.Certificate.spiffe_uri ephemos.GoText.has_suffix
    ephemos.Domain.Identity.new_service_identity_validated
    ephemos.Domain.TrustDomain.new_trust_domain ephemos.Domain.Identity.make_id
    ephemos.Domain.TrustDomain.domain_string ephemos.Domain.Identity.identity_validate
    ephemos.Domain.TrustDomain.domain_validate ephemos.Domain.Identity.validate_service_name
    ephemos.GoText.has_prefix ephemos.Domain.Identity.check_uri ephemos.Domain.Spiffe.id_string
    ephemos.GoText.len ephemos.GoText.to_lower ephemos.Domain.Certificate.check_key_pair
    ephemos.Domain.Certificate.check_expiry ephemos.GoTime.before ephemos.GoTime.after
validate_basic_own_identity_iff_example =
    validate_basic_own_identity_iff corp_sdk corp-IsSdk pay_cert pay_id (text "pay") pay refl refl
      refl 7 leaf (ecdsa_signer point) refl refl
