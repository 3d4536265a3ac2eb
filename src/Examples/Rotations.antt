-- ===== src/Examples/Rotations.antt =====
-- The rotation of an SVID, its sources, documents and workloads.
use ephemos.Base.{◌≤◌, ◌≡◌, refl, ◌≢◌, ◌↔◌, true, false, none, some, List, [], ◌∷◌, ok}
use ephemos.Base.Int.{pos}
use ephemos.GoText.{Text, text}
use ephemos.GoTime.{Time}
use ephemos.Domain.X509.{X509, Verifier}
use ephemos.Domain.Keys.{Signer, ecdsa_signer}
use ephemos.Domain.Cache.{new_cache_entry, is_fresh_at}
use ephemos.Application.Providers.{Svid, Answers, Outside}
use ephemos.Application.Rotation.{
  RotationConfig, RotationService, new_rotation_service, start, stop, installed, rotate_identity,
}
use ephemos.Application.Rotation.Outcomes.{with_svid, IsValidSvid, IsNewer, rotate_identity_lem}
use ephemos.Application.Rotation.Lives.{Life, born, starts, stops, IsSound, Life-IsSound}
use ephemos.Adapters.Source.{
  Bundle, Provided, new_source, fetch_bundle, get_x509_bundle, build_certificate_chain,
}
use ephemos.Adapters.Source.Chain.{HasRaw, DistinctRaw, build_certificate_chain_lem}
use ephemos.Adapters.Source.Caching.{get_x509_bundle-any_domain}
use ephemos.Examples.Sdk.{corp, corp_sdk}
use ephemos.Examples.Values.{point, leaf, root, pay_id, pay_cert, one_root}

abbrev pub verifier : Verifier
verifier = record {
  parse_and_verify = λ chain domain roots now. none;
  verify_chain = λ c rest roots now. true;
}

abbrev pub outside : Outside
outside = record { sdk = corp_sdk; verifier = verifier }

abbrev pub svid : Svid
svid = record { id = pay_id; certificates = leaf ∷ []; svid_key = some (ecdsa_signer point) }

abbrev pub gives : Answers
gives = record {
  refresh_identity = ok tt;
  svid = ok (some svid);
  trust_bundle = ok tt;
  trusted = λ c. ok tt;
}

abbrev config : RotationConfig
config = record {
  has_identity_provider = true;
  has_bundle_provider = true;
  rotation_threshold = pos 0;
  check_interval = pos 0;
  max_rotation_delay = pos 0;
}

abbrev service : RotationService
service = record {
  rotation_threshold = pos 300_000_000_000;
  check_interval = pos 60_000_000_000;
  max_rotation_delay = pos 30_000_000_000;
  is_running = false;
  stop_closed = false;
  current = none;
  last_rotation = 0;
  callbacks = 1 ∷ [];
  notices = [];
}

rotate_identity_lem_example :
    (((rotate_identity outside 5 gives service).1 ≡ ok tt) ↔ (
      (t : Svid) × (gives.refresh_identity ≡ ok tt)
      × (gives.svid ≡ ok (some t))
      × IsValidSvid outside 5 gives t
      × IsNewer none t
      × ((rotate_identity outside 5 gives service).0 ≡ with_svid 5 t service)))
    × ((rotate_identity outside 5 gives service).1 ≢ ok tt
        → (rotate_identity outside 5 gives service).0 ≡ service)
rotate_identity_lem_example = rotate_identity_lem outside 5 gives service

abbrev new_service : RotationService
new_service = record service { callbacks = [] }

-- Started and stopped once.
stopped_once : Life (stop (start outside 5 gives new_service).0).0 1
unfolding new_rotation_service start stop ephemos.Application.Rotation.validate_svid
    ephemos.Domain.Certificate.new_certificate_with_validation ephemos.Domain.Certificate.validate
    ephemos.Domain.Certificate.validate_present
    ephemos.Domain.Certificate.validate_basic_without_trust
    ephemos.Domain.Certificate.check_key_pair ephemos.Domain.Keys.extract_public_key_from_signer
    ephemos.Domain.Keys.validate_key_pair_matching ephemos.Domain.Certificate.check_expiry
    ephemos.GoTime.before ephemos.GoTime.after ephemos.Domain.Certificate.check_service_identity
    ephemos.Application.Rotation.or_default
stopped_once = stops (starts outside 5 gives (born config refl)) refl

Life-IsSound_example : IsSound (stop (start outside 5 gives new_service).0).0 1 × (◌≤◌ 1 1)
Life-IsSound_example = Life-IsSound stopped_once

build_certificate_chain_lem_example :
    (rest : List X509) × (build_certificate_chain leaf (root ∷ leaf ∷ root ∷ []) ≡ leaf ∷ rest)
    × DistinctRaw (leaf ∷ rest)
    × ((raw : Text) → HasRaw raw (leaf ∷ root ∷ leaf ∷ root ∷ []) ↔ HasRaw raw (leaf ∷ rest))
build_certificate_chain_lem_example = build_certificate_chain_lem leaf (root ∷ leaf ∷ root ∷ [])

abbrev provided : Provided
provided = record { certificate = ok (some pay_cert); trust_bundle = ok (some one_root) }

abbrev corp_bundle : Bundle
corp_bundle = record { trust_domain = corp; authorities = root ∷ [] }

corp_fetched : fetch_bundle corp provided ≡ ok corp_bundle
unfolding fetch_bundle ephemos.Domain.TrustBundle.bundle_is_empty
    ephemos.Domain.TrustBundle.status_is_empty ephemos.Domain.TrustBundle.raw_certificates
corp_fetched = refl

still_fresh : is_fresh_at (new_cache_entry 3 (pos 300_000_000_000)) 9 ≡ true
unfolding is_fresh_at new_cache_entry ephemos.GoTime.sub_time
still_fresh = refl

get_x509_bundle-any_domain_example :
    let r = get_x509_bundle corp 1 2 3 provided new_source new_source in
    (r.1 ≡ ok corp_bundle)
    × (corp ≡ corp)
    × (get_x509_bundle (text "other") 9 10 11 provided r.0 r.0 ≡ (r.0, ok corp_bundle))
unfolding new_source
get_x509_bundle-any_domain_example =
    get_x509_bundle-any_domain corp (text "other") 1 2 3 9 10 11 provided provided new_source
      new_source (get_x509_bundle corp 1 2 3 provided new_source new_source).0 corp_bundle refl refl
      corp_fetched still_fresh
