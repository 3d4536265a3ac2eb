-- ===== src/Domain/TrustBundle.antt =====
-- internal/core/domain/trust_bundle.go and trust_bundle_status.go. A bundle holds pointers to wrapped
-- certificates: `none` is a nil wrapper, `some none` a wrapper of a nil certificate.
pub mod Substring
pub mod Valid
pub mod Merge
pub mod Merging
use ephemos.Base.{
  ℕ, suc, ◌+◌, Bool, true, false, not, ◌&&◌, ◌||◌, Option, none, some, List, [], ◌∷◌, ◌++◌, map,
  ltb, leb, if◌then◌else◌, Result, ok, err, fail_if, ◌>>=◌, ◌>>◌, length,
}
use mathlib.Core.Option
use mathlib.Core.List.{flat_map}
use ephemos.Base.{any, is_some}
use ephemos.GoText.{Text, text, text_eq, len, has_prefix, has_suffix}
use ephemos.GoTime.{Time, before, after}
use ephemos.Domain.X509.{X509, Verifier}
use ephemos.Domain.Spiffe.{Sdk, Uri}
use ephemos.Domain.TrustDomain.{TrustDomain, domain_is_zero, domain_string, new_trust_domain}

abbrev pub Root : Type 0
Root = Option (Option X509)

pub record TrustBundle : Type 0 where
  pub certificates : List Root

pub data BundleError : Type 0 where
  nil_certificate not_ca empty_bundle : BundleError
  nil_at duplicate_at not_ca_at not_yet_valid_at expired_at : ℕ → BundleError
  nil_other other_empty none_common panic empty_chain unverified : BundleError

-- The certificates that are there: `getX509Certificates` and `RawCertificates`.
unfoldable pub raw_certificates : List Root → List X509
raw_certificates [] = []
raw_certificates (some (some c) ∷ roots) = c ∷ raw_certificates roots
raw_certificates (some none ∷ roots) = raw_certificates roots
raw_certificates (none ∷ roots) = raw_certificates roots

-- `NewTrustBundleStatus(...).IsEmpty()`.
unfoldable pub status_is_empty : List X509 → Bool
status_is_empty [] = true
status_is_empty (c ∷ cs) = false

unfoldable pub bundle_is_empty : TrustBundle → Bool
bundle_is_empty b = status_is_empty (raw_certificates b.certificates)

unfoldable pub bundle_count : TrustBundle → ℕ
bundle_count b = length b.certificates

-- A set of byte strings.
unfoldable pub seen_before : Text → List Text → Bool
seen_before key [] = false
seen_before key (k ∷ seen) = text_eq k key || seen_before key seen

-- `NewRootCACertificate`.
unfoldable pub new_root_ca_certificate : Option X509 → Result BundleError Root
new_root_ca_certificate none = err nil_certificate
new_root_ca_certificate (some c) = if not c.is_ca then err not_ca else ok (some (some c))

-- The checks of one certificate in `Validate`, in their order.
unfoldable pub check_root : Time → ℕ → List Text → X509 → Result BundleError (Unit {0})
check_root now i seen c = do
  fail_if (seen_before c.public_key_info seen) (duplicate_at i)
  fail_if (not c.is_ca) (not_ca_at i)
  fail_if (before now c.not_before) (not_yet_valid_at i)
  fail_if (after now c.not_after) (expired_at i)
  ok tt

-- The loop of `Validate`, from index `i` with the keys seen.
unfoldable pub check_roots : Time → ℕ → List Text → List Root → Result BundleError (Unit {0})
check_roots now i seen [] = ok tt
check_roots now i seen (none ∷ roots) = err (nil_at i)
check_roots now i seen (some none ∷ roots) = err (nil_at i)
check_roots now i seen (some (some c) ∷ roots) =
    check_root now i seen c >> check_roots now (i + 1) (c.public_key_info ∷ seen) roots

unfoldable pub bundle_validate : Time → TrustBundle → Result BundleError (Unit {0})
bundle_validate now b = do
  fail_if (bundle_is_empty b) empty_bundle
  check_roots now 0 [] b.certificates

-- The loop of `NewTrustBundleWithValidation`.
unfoldable pub wrap_roots : Bool → List (Option X509) → Result BundleError (List Root)
wrap_roots validate [] = ok []
wrap_roots true (c ∷ cs) = do
  root ← new_root_ca_certificate c
  roots ← wrap_roots true cs
  ok (root ∷ roots)
wrap_roots false (c ∷ cs) = do roots ← wrap_roots false cs; ok (some c ∷ roots)

abbrev checked : Bool → Time → TrustBundle → Result BundleError TrustBundle
checked true now b = bundle_validate now b >> ok b
checked false now b = ok b

unfoldable pub new_trust_bundle_with_validation :
    Time → List (Option X509) → Bool → Result BundleError TrustBundle
new_trust_bundle_with_validation now certs validate = do
  roots ← wrap_roots validate certs
  checked validate now (record { certificates = roots })

unfoldable pub new_trust_bundle : Time → List (Option X509) → Result BundleError TrustBundle
new_trust_bundle now certs = new_trust_bundle_with_validation now certs true

-- `ContainsCertificate`, by the same DER bytes; `none` is the panic at a nil wrapper.
unfoldable pub contains_raw : List Root → X509 → Option Bool
contains_raw [] c = some false
contains_raw (none ∷ roots) c = none
contains_raw (some none ∷ roots) c = contains_raw roots c
contains_raw (some (some r) ∷ roots) c =
    let later = contains_raw roots c in if text_eq r.raw c.raw then some true else later

unfoldable pub contains_certificate : TrustBundle → Option X509 → Option Bool
contains_certificate b none = some false
contains_certificate b (some c) = contains_raw b.certificates c

-- The loop of `ValidateAgainstBundle` for a common certificate.
unfoldable pub any_common : List Root → TrustBundle → Option Bool
any_common [] other = some false
any_common (none ∷ roots) other = any_common roots other
any_common (some none ∷ roots) other = any_common roots other
any_common (some (some c) ∷ roots) other = elim (contains_certificate other (some c)) [
  | none ↦ none
  | some found ↦ if found then some true else any_common roots other
]

abbrev require_common : Option Bool → Result BundleError (Unit {0})
require_common none = err panic
require_common (some found) = fail_if (not found) none_common

-- `ValidateAgainstBundle`, on a pointer to the other bundle.
unfoldable pub validate_against_bundle :
    TrustBundle → Option TrustBundle → Result BundleError (Unit {0})
validate_against_bundle b none = err nil_other
validate_against_bundle b (some other) = do
  fail_if (bundle_is_empty b) empty_bundle
  fail_if (bundle_is_empty other) other_empty
  require_common (any_common b.certificates other)

-- `ValidateCertificateChain`: the leaf is verified with the rest of the chain as intermediates.
unfoldable pub validate_certificate_chain :
    Verifier → Time → TrustBundle → List X509 → Result BundleError (Unit {0})
validate_certificate_chain v now b [] = err empty_chain
validate_certificate_chain v now b (leaf ∷ rest) = do
  fail_if (bundle_is_empty b) empty_bundle
  fail_if (not (v.verify_chain leaf rest (raw_certificates b.certificates) now)) unverified
  ok tt

abbrev keep {ℓ κ} : {A : Type ℓ} {B : Type κ} → A → List A × B → List A × B
keep a (xs, b) = (a ∷ xs, b)

-- One pass of `MergeBundles`: the certificates whose keys were not seen, and the keys seen after it.
unfoldable pub collect_unique : List Text → List X509 → List X509 × List Text
collect_unique seen [] = ([], seen)
collect_unique seen (c ∷ cs) = elim (seen_before c.public_key_info seen) [
  | true ↦ collect_unique seen cs
  | false ↦ keep c (collect_unique (c.public_key_info ∷ seen) cs)
]

unfoldable pub merge_bundles :
    Time → TrustBundle → Option TrustBundle → Result BundleError TrustBundle
merge_bundles now b none = err nil_other
merge_bundles now b (some other) =
    let (first, seen) = collect_unique [] (raw_certificates b.certificates) in
    let (second, _) = collect_unique seen (raw_certificates other.certificates) in
    new_trust_bundle now (map some (first ++ second))

-- The helper `indexContains`: the first position of a substring, counted in code points.
unfoldable pub index_contains : Text → Text → Option ℕ
index_contains p [] = if has_prefix p [] then some 0 else none
index_contains p (c ∷ s) =
    let later = Option.map suc (index_contains p s) in
    if has_prefix p (c ∷ s) then some 0 else later

-- The helper `contains`, clause by clause: equal, or longer with the substring in front, at the end or
-- inside.
unfoldable pub substring_of : Text → Text → Bool
substring_of p s =
    leb (len p) (len s)
    && (text_eq s p
        || (ltb (len p) (len s)
            && (has_prefix p s || has_suffix p s || is_some (index_contains p s))))

-- The test of one certificate in `ContainsTrustDomain`.
unfoldable pub covers_domain : Text → X509 → Bool
covers_domain domain c =
    substring_of domain c.subject
    || any (λ u. text_eq u.uri_scheme (text "spiffe") && text_eq u.host domain) c.uris

unfoldable pub contains_trust_domain : TrustBundle → TrustDomain → Bool
contains_trust_domain b d =
    not (domain_is_zero d)
    && any (covers_domain (domain_string d)) (raw_certificates b.certificates)

-- A SPIFFE URI with a host that was not seen.
unfoldable pub wants_domain : List Text → Uri → Bool
wants_domain seen u =
    text_eq u.uri_scheme (text "spiffe") && not (text_eq u.host []) && not (seen_before u.host seen)

module _ (sdk : Sdk) where
  -- The loop of `GetTrustDomains` over the URIs, with the hosts seen so far.
  unfoldable pub domains_of_uris : List Text → List Uri → List TrustDomain × List Text
  domains_of_uris seen [] = ([], seen)
  domains_of_uris seen (u ∷ us) = elim (wants_domain seen u) [
    | false ↦ domains_of_uris seen us
    | true ↦ elim (new_trust_domain sdk u.host) [
      | err e ↦ domains_of_uris seen us
      | ok d ↦ keep d (domains_of_uris (u.host ∷ seen) us)
    ]
  ]

  unfoldable pub get_trust_domains : TrustBundle → List TrustDomain
  get_trust_domains b =
      (domains_of_uris [] (flat_map (λ c. c.uris) (raw_certificates b.certificates))).0
