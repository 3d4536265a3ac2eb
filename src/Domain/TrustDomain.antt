-- ===== src/Domain/TrustDomain.antt =====
-- internal/core/domain/trust_domain.go. A trust domain is the name that the SDK keeps; the zero value
-- has the empty name.
use Prim.Native.Nat.{compare, Ordering}
use ephemos.Base.{Bool, some, none, [], ◌∷◌, ◌++◌, if◌then◌else◌, Result, ok, err}
use ephemos.Domain.Spiffe.{Sdk, scheme}
use ephemos.GoText.{Text, text_eq}

pub record TrustDomain : Type 0 where
  pub td : Text

pub data DomainError : Type 0 where
  empty_domain invalid_domain zero_domain bad_spiffe_id : DomainError

abbrev pub zero_trust_domain : TrustDomain
zero_trust_domain = record { td = [] }

unfoldable pub domain_is_zero : TrustDomain → Bool
domain_is_zero d = text_eq d.td []

-- `String()`; the zero domain prints as the empty text.
unfoldable pub domain_string : TrustDomain → Text
unfolding domain_is_zero
domain_string d = if domain_is_zero d then [] else d.td

unfoldable pub domain_equals : TrustDomain → TrustDomain → Bool
domain_equals d e = text_eq d.td e.td

abbrev compare_step : Ordering → Ordering → Ordering
compare_step Ordering.eq later = later
compare_step here later = here

-- `Compare`: 0, -1 or 1, as an `Ordering`.
unfoldable pub compare_text : Text → Text → Ordering
compare_text [] [] = Ordering.eq
compare_text [] (d ∷ t) = Ordering.lt
compare_text (c ∷ s) [] = Ordering.gt
compare_text (c ∷ s) (d ∷ t) = compare_step (compare c d) (compare_text s t)

unfoldable pub domain_compare : TrustDomain → TrustDomain → Ordering
unfolding compare_text domain_string
domain_compare d e = compare_text (domain_string d) (domain_string e)

-- `ToSPIFFEURI`.
unfoldable pub domain_uri : TrustDomain → Text
unfolding domain_string domain_is_zero
domain_uri d = if domain_is_zero d then [] else scheme ++ domain_string d

module _ (sdk : Sdk) where
  unfoldable pub new_trust_domain : Text → Result DomainError TrustDomain
  new_trust_domain name =
      if text_eq name [] then err empty_domain else elim (sdk.trust_domain_from_string name) [
        | none ↦ err invalid_domain
        | some d ↦ ok (record { td = d })
      ]

  unfoldable pub domain_validate : TrustDomain → Result DomainError (Unit {0})
  unfolding domain_is_zero domain_string
  domain_validate d =
      if domain_is_zero d
      then err zero_domain
      else elim (sdk.trust_domain_from_string (domain_string d)) [
        | none ↦ err invalid_domain
        | some e ↦ ok tt
      ]

  -- `UnmarshalJSON` of a JSON text: the empty one gives the zero domain.
  unfoldable pub domain_unmarshal : Text → Result DomainError TrustDomain
  domain_unmarshal s = if text_eq s [] then ok zero_trust_domain else new_trust_domain s

  unfoldable pub parse_from_spiffe_id : Text → Result DomainError TrustDomain
  parse_from_spiffe_id s = elim (sdk.from_string s) [
    | none ↦ err bad_spiffe_id
    | some id ↦ ok (record { td = id.domain })
  ]
