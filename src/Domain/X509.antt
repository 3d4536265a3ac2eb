-- ===== src/Domain/X509.antt =====
-- An `x509.Certificate` of Go, as far as the source reads one. A text stands for a byte string.
use ephemos.Base.{Bool, List, Option}
use ephemos.GoText.{Text}
use ephemos.GoTime.{Time}
use ephemos.Domain.Keys.{Key}
use ephemos.Domain.Spiffe.{Uri, SpiffeId}

pub record X509 : Type 0 where
  pub raw : Text
  pub public_key_info : Text
  pub public_key : Key
  pub subject : Text
  pub issuer : Text
  pub is_ca : Bool
  pub not_before : Time
  pub not_after : Time
  pub uris : List Uri

-- Package x509svid, and `x509.Certificate.Verify`: a chain of DER certificates or of certificates, the
-- roots of its trust domain, the time, and the ID of a verified chain.
pub record Verifier : Type 0 where
  pub parse_and_verify : List Text → Text → List X509 → Time → Option SpiffeId
  pub verify_chain : X509 → List X509 → List X509 → Time → Bool
