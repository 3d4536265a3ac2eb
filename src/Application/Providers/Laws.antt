-- ===== src/Application/Providers/Laws.antt =====
-- When an SVID's certificate is made.
use ephemos.Base.{◌≡◌, refl, sym, ap, ◌↔◌, Option, some, List, Result, ok, err, wrap, ◌>>◌}
use ephemos.GoTime.{Time}
use ephemos.Domain.X509.{X509}
use ephemos.Domain.Keys.{Signer}
use ephemos.Domain.Certificate.{Certificate, new_certificate_with_validation, validate, no_options}
use ephemos.Application.Providers.{CertError, AppError, bad_certificate, Outside, certificate_of}

abbrev pub made_of : X509 → List X509 → Option Signer → Certificate
made_of leaf rest key = record { cert = some leaf; private_key = key; chain = rest }

made : Certificate → Result AppError Certificate
made c = ok c

certificate_in : Result AppError Certificate → Certificate → Certificate
certificate_in (ok c) d = c
certificate_in (err e) d = d

made-eq : (c d : Certificate) → (made d ≡ made c) ↔ (c ≡ d)
unfolding made certificate_in
made-eq c d = (λ h. sym (ap (λ r. certificate_in r c) h), λ h. ap made (sym h))

checked :
    (r : Result CertError (Unit {0})) (made_cert c : Certificate)
    → (wrap bad_certificate (r >> ok made_cert) ≡ ok c) ↔ ((r ≡ ok tt) × (c ≡ made_cert))
unfolding made
checked (ok tt) d c = let e = made-eq c d in (λ h. (refl, e.0 h), λ h. e.1 h.1)
checked (err e) d c = (λ h. cc, λ h. cc)

-- `NewCertificate` succeeds exactly with the certificate of its arguments, if that validates.
pub certificate_of-ok :
    (o : Outside) (now : Time) (leaf : X509) (rest : List X509) (key : Option Signer)
    (c : Certificate)
    → (certificate_of o now leaf rest key ≡ ok c) ↔ (
        (validate o.sdk o.verifier now (made_of leaf rest key) no_options ≡ ok tt)
        × (c ≡ made_of leaf rest key))
unfolding new_certificate_with_validation
certificate_of-ok o now leaf rest key c =
    checked (validate o.sdk o.verifier now (made_of leaf rest key) no_options)
      (made_of leaf rest key) c
