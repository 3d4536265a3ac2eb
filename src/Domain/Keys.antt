-- ===== src/Domain/Keys.antt =====
-- internal/core/domain/cryptography.go. A key that Go holds in an interface is one of the types that
-- the code tells apart: an ECDSA public or private key, or a value of some other type.
use ephemos.Base.{
  ℕ, ◌≡◌, refl, ◌↔◌, Bool, true, false, not, ◌&&◌, Option, none, some, arith, ◌==◌, if◌then◌else◌,
  Result, ok, err, fail_if, ◌>>◌,
}

pub record EcdsaPublic : Type 0 where
  pub curve : ℕ
  pub x : ℕ
  pub y : ℕ

pub data Key : Type 0 where
  ecdsa_public : EcdsaPublic → Key
  ecdsa_private : EcdsaPublic → Key
  other_key : ℕ → Key

-- A `crypto.Signer`: an ECDSA private key, a pointer that is nil inside the interface, or a signer of
-- another type with the public key that it returns, if any.
pub data Signer : Type 0 where
  ecdsa_signer : EcdsaPublic → Signer
  nil_signer : Signer
  other_signer : Option Key → Signer

pub data KeyError : Type 0 where
  cert_key_type private_key_type mismatch nil_key signer_type nil_public public_type : KeyError
  not_public not_private : KeyError

unfoldable pub supports_key_type : Key → Bool
supports_key_type (ecdsa_public k) = true
supports_key_type (ecdsa_private k) = true
supports_key_type (other_key n) = false

unfoldable pub keys_match : Key → Key → Bool
keys_match (ecdsa_public a) (ecdsa_public b) = a.curve == b.curve && a.x == b.x && a.y == b.y
keys_match _ _ = false

unfoldable pub validate_key_pair_matching : Key → Key → Result KeyError (Unit {0})
unfolding supports_key_type keys_match
validate_key_pair_matching cert key = do
  fail_if (not (supports_key_type cert)) cert_key_type
  fail_if (not (supports_key_type key)) private_key_type
  fail_if (not (keys_match cert key)) mismatch
  ok tt

-- The dynamic type of a signer: a nil pointer is one to an ECDSA private key.
unfoldable pub validate_signer_key_type : Option Signer → Result KeyError (Unit {0})
validate_signer_key_type none = err nil_key
validate_signer_key_type (some (ecdsa_signer k)) = ok tt
validate_signer_key_type (some nil_signer) = ok tt
validate_signer_key_type (some (other_signer p)) = err signer_type

-- `signer.Public()`; of a nil pointer it would panic, and the callers have excluded that.
abbrev public_of : Signer → Option Key
public_of (ecdsa_signer k) = some (ecdsa_public k)
public_of nil_signer = none
public_of (other_signer p) = p

abbrev checked_public : Option Key → Result KeyError Key
checked_public none = err nil_public
checked_public (some k) = if supports_key_type k then ok k else err public_type

unfoldable pub extract_public_key_from_signer : Signer → Result KeyError Key
unfolding validate_signer_key_type supports_key_type
extract_public_key_from_signer s = do
  validate_signer_key_type (some s)
  checked_public (public_of s)

pub record ValidatedKeyPair : Type 0 where
  pub public_key : EcdsaPublic
  pub private_key : EcdsaPublic

-- The private key's own public half stands for it.
unfoldable pub new_validated_key_pair : Key → Signer → Result KeyError ValidatedKeyPair
unfolding validate_key_pair_matching
new_validated_key_pair (ecdsa_public k) (ecdsa_signer s) = do
  validate_key_pair_matching (ecdsa_public k) (ecdsa_public s)
  ok (record { public_key = k; private_key = s })
new_validated_key_pair (ecdsa_public k) _ = err not_private
new_validated_key_pair _ s = err not_public

-- A certificate's key and a signer that gives out a public key are a pair exactly if both are ECDSA
-- with one curve and point.
key_pair_iff :
    (cert : Key) (s : Signer) (key : Key)
    → extract_public_key_from_signer s ≡ ok key
    → (validate_key_pair_matching cert key ≡ ok tt) ↔ (
        (k : EcdsaPublic) × (cert ≡ ecdsa_public k) × (key ≡ ecdsa_public k) × (s ≡ ecdsa_signer k))
unfolding extract_public_key_from_signer validate_key_pair_matching
key_pair_iff (ecdsa_public c) (ecdsa_signer k) key h =
    (λ e. (c, refl, ground arith, ground arith), λ (k', a, b, e). ground arith)
key_pair_iff (ecdsa_private c) (ecdsa_signer k) key h =
    (λ e. absurd (ground arith), λ (k', a, b, e). cc)
key_pair_iff (other_key n) (ecdsa_signer k) key h =
    (λ e. absurd (ground arith), λ (k', a, b, e). cc)
key_pair_iff cert nil_signer key h = absurd (ground arith)
key_pair_iff cert (other_signer p) key h = absurd (ground arith)
