-- ===== src/Examples/Authentications.antt =====
-- The authentication service on the SVID of "spiffe://corp/pay".
use ephemos.Base.{
  ℕ, zero, suc, ◌≡◌, refl, ◌≢◌, ◌↔◌, false, Option, none, some, List, [], ◌∷◌, Result, ok, err,
}
use ephemos.Base.Int.{pos}
use ephemos.GoText.{Text, text}
use ephemos.Domain.X509.{X509}
use ephemos.Domain.TrustDomain.{TrustDomain}
use ephemos.Application.Providers.{Svid, panic}
use ephemos.Application.Rotation.Outcomes.{IsValidSvid}
use ephemos.Application.Authentication.{
  Refreshing, AuthenticationService, AuthenticatedConnection, attempts, refresh_with_retry,
  get_validated_svid, create_authenticated_connection,
}
use ephemos.Application.Authentication.Retry.{Ending, refresh_with_retry-Ending}
use ephemos.Application.Authentication.Svids.{get_validated_svid_lem}
use ephemos.Application.Authentication.Svids.Checked.{HasNoLeaf}
use ephemos.Application.Authentication.Svids.Chosen.{IsChosen}
use ephemos.Application.Authentication.Connections.{
  connection_of, Built, create_authenticated_connection-Built,
}
use ephemos.Application.Providers.Laws.{made_of}
use ephemos.Examples.Rotations.{outside, svid, gives}
use ephemos.Examples.Values.{leaf, root, corp_domain}

abbrev second_try : ℕ → Result Text (Unit {0})
second_try zero = err (text "busy")
second_try (suc n) = ok tt

-- The second attempt succeeds.
abbrev refreshing : Refreshing
refreshing = record { attempt = second_try; cut_short = λ i. false }

abbrev service : AuthenticationService
service = record { expiry_threshold = pos 300_000_000_000; max_retries = pos 3 }

refresh_with_retry-Ending_example : Ending refreshing 0 3 (refresh_with_retry refreshing service)
refresh_with_retry-Ending_example = refresh_with_retry-Ending refreshing service

-- Two minutes before the expiry, and the provider has no SVID behind the refresh.
get_validated_svid_lem_example :
    ((get_validated_svid outside 3_480_000_000_000 3_480_000_000_001 gives refreshing
          (ok none)
          service
        ≡ ok svid)
      ↔ ((v : Svid) × (gives.svid ≡ ok (some v))
          × (v.certificates ≢ [])
          × IsChosen 3_480_000_000_000 refreshing (ok none) service v (some svid)
          × IsValidSvid outside 3_480_000_000_001 gives svid))
    × ((get_validated_svid outside 3_480_000_000_000 3_480_000_000_001 gives refreshing
            (ok none)
            service
          ≡ err panic)
        ↔ ((v : Svid) × (c : Option Svid) × (gives.svid ≡ ok (some v))
            × (v.certificates ≢ [])
            × IsChosen 3_480_000_000_000 refreshing (ok none) service v c
            × (gives.trust_bundle ≡ ok tt)
            × HasNoLeaf c))
get_validated_svid_lem_example =
    get_validated_svid_lem outside 3_480_000_000_000 3_480_000_000_001 gives refreshing (ok none)
      service svid

abbrev bundles : TrustDomain → Result Text (Option (List X509))
bundles d = ok (some (root ∷ []))

abbrev target : Text
target = text "spiffe://corp/pay"

abbrev connection : AuthenticatedConnection
connection = connection_of (made_of leaf [] svid.svid_key) (root ∷ []) corp_domain target

connected :
    create_authenticated_connection outside 5 6 7 gives refreshing (ok none) bundles target service
    ≡ ok connection
unfolding create_authenticated_connection ephemos.GoTime.sub_time
    ephemos.Domain.Certificate.new_certificate_with_validation ephemos.Domain.Certificate.validate
    ephemos.Domain.Certificate.validate_present
    ephemos.Domain.Certificate.validate_basic_without_trust
    ephemos.Domain.Certificate.check_key_pair ephemos.Domain.Keys.extract_public_key_from_signer
    ephemos.Domain.Keys.validate_key_pair_matching ephemos.Domain.Certificate.check_expiry
    ephemos.GoTime.before ephemos.GoTime.after ephemos.Domain.Certificate.check_service_identity
    ephemos.Application.Authentication.target_domain
    ephemos.Domain.Namespace.new_namespace_from_string ephemos.Domain.Namespace.normalize_id
    ephemos.GoText.has_suffix get_validated_svid ephemos.Application.Authentication.refresh_from
    refresh_with_retry ephemos.Domain.Certificate.check_spiffe_id
    ephemos.Domain.Certificate.spiffe_uri ephemos.Domain.Certificate.to_service_identity
    ephemos.Domain.Certificate.to_spiffe_id ephemos.Domain.Certificate.validate_with_bundle
    ephemos.Domain.Certificate.verify_with_bundle ephemos.Domain.Identity.check_uri
    ephemos.Domain.Identity.identity_equal ephemos.Domain.Identity.identity_to_spiffe_id
    ephemos.Domain.Identity.identity_validate ephemos.Domain.Identity.make_id
    ephemos.Domain.Identity.new_service_identity_validated
    ephemos.Domain.Identity.validate_service_name
    ephemos.Domain.Identity.validate_spiffe_constraints ephemos.Domain.Keys.keys_match
    ephemos.Domain.Keys.supports_key_type ephemos.Domain.Keys.validate_signer_key_type
    ephemos.Domain.Namespace.count_slashes ephemos.Domain.Namespace.last_segment
    ephemos.Domain.Namespace.namespace_from_id ephemos.Domain.Namespace.namespace_is_zero
    ephemos.Domain.Namespace.namespace_string ephemos.Domain.Namespace.new_namespace
    ephemos.Domain.Namespace.path_for_validation ephemos.Domain.Namespace.trim_slash
    ephemos.Domain.Namespace.validate_total_length ephemos.Domain.Spiffe.id_string
    ephemos.Domain.TrustBundle.bundle_is_empty ephemos.Domain.TrustBundle.bundle_validate
    ephemos.Domain.TrustBundle.check_root ephemos.Domain.TrustBundle.check_roots
    ephemos.Domain.TrustBundle.new_root_ca_certificate ephemos.Domain.TrustBundle.new_trust_bundle
    ephemos.Domain.TrustBundle.new_trust_bundle_with_validation
    ephemos.Domain.TrustBundle.raw_certificates ephemos.Domain.TrustBundle.seen_before
    ephemos.Domain.TrustBundle.status_is_empty ephemos.Domain.TrustBundle.wrap_roots
    ephemos.Domain.TrustDomain.domain_is_zero ephemos.Domain.TrustDomain.domain_string
    ephemos.Domain.TrustDomain.domain_validate ephemos.Domain.TrustDomain.new_trust_domain
    ephemos.GoText.has_prefix ephemos.GoText.len ephemos.GoText.lower_rune ephemos.GoText.split_on
    ephemos.GoText.to_lower ephemos.GoText.trim_prefix ephemos.GoText.width ephemos.GoTime.saturate
connected = refl

create_authenticated_connection-Built_example :
    (t : Svid) × (get_validated_svid outside 5 6 gives refreshing (ok none) service ≡ ok t)
    × Built outside 7 bundles target t connection
create_authenticated_connection-Built_example =
    create_authenticated_connection-Built outside 5 6 7 gives refreshing (ok none) bundles target
      service connection connected
