-- ===== src/Domain/Document/Laws.antt =====
-- What a new identity document holds.
use mathlib.Core.Path.{subst}
use ephemos.Base.{
  wrap-eq-ok, >>=-eq-ok, ◌≤◌, ◌≡◌, refl, sym, ap, true, Option, none, some, List, [], ◌∷◌, map,
  arith, Result, ok, err, fail_if, wrap, ◌>>◌,
}
use ephemos.GoTime.{Time, before, after}
use ephemos.Domain.X509.{X509, Verifier}
use ephemos.Domain.Keys.{Signer}
use ephemos.Domain.Spiffe.{Sdk}
use ephemos.Domain.Certificate.{
  Certificate, no_options, nil_private_key, is_nil_key, check_expiry, validate, validate_present,
  validate_basic_without_trust, check_key_pair, new_certificate_with_validation,
}
use ephemos.Domain.Document.{
  IdentityDocument, DocumentError, invalid_certificate, document_of, get_private_key,
  document_is_expired, get_certificate_chain, document_is_valid, check_ca, build,
  new_identity_document,
}

abbrev made_of : X509 → List X509 → Option Signer → Certificate
made_of leaf rest key = record { cert = some leaf; private_key = key; chain = rest }

check_expiry-dates :
    (now : Time) (leaf : X509)
    → check_expiry now leaf ≡ ok tt
    → (leaf.not_before ≤ now) × (now ≤ leaf.not_after)
unfolding check_expiry before after
check_expiry-dates now leaf h = ground arith

certificate_in : {E : Type 0} → Result E Certificate → Certificate → Certificate
certificate_in (ok c) d = c
certificate_in (err e) d = d

document_in : Result DocumentError IdentityDocument → IdentityDocument → IdentityDocument
document_in (ok c) d = c
document_in (err e) d = d

module _ (sdk : Sdk) (v : Verifier) where
  -- A certificate that validates with no options has dates that enclose the time.
  validate-dates :
      (now : Time) (leaf : X509) (rest : List X509) (key : Option Signer)
      → validate sdk v now (made_of leaf rest key) no_options ≡ ok tt
      → (leaf.not_before ≤ now) × (now ≤ leaf.not_after)
  unfolding validate validate_present validate_basic_without_trust
  validate-dates now leaf rest none h = cc
  validate-dates now leaf rest (some s) h =
      let (u, e, f) = >>=-eq-ok (fail_if (is_nil_key (some s)) nil_private_key) (λ passed. _) h in
      let (w, g, i) = >>=-eq-ok (check_key_pair leaf s) (λ passed. _) f in
      let (x, j, k) = >>=-eq-ok (check_expiry now leaf) (λ passed. _) i in
      check_expiry-dates now leaf j

  made-valid :
      (now : Time) (leaf : X509) (rest : List X509) (key : Option Signer) (c : Certificate)
      → new_certificate_with_validation sdk v now (some leaf) key rest true ≡ ok c
      → (validate sdk v now (made_of leaf rest key) no_options ≡ ok tt)
        × (made_of leaf rest key ≡ c)
  unfolding new_certificate_with_validation certificate_in
  made-valid now leaf rest key c h =
      let (u, e, f) =
        >>=-eq-ok (validate sdk v now (made_of leaf rest key) no_options)
          (λ passed. ok (made_of leaf rest key)) h in
      (e, ap (λ r. certificate_in r c) f)

  built :
      (now : Time) (leaf : X509) (rest : List X509) (key : Option Signer) (ca : Option X509)
      (d : IdentityDocument)
      → build sdk v now leaf rest key ca ≡ ok d
      → (validate sdk v now (made_of leaf rest key) no_options ≡ ok tt)
        × (check_ca sdk v now (made_of leaf rest key) ca ≡ ok tt)
        × (document_of now (made_of leaf rest key) leaf ≡ d)
  unfolding document_in
  built now leaf rest key ca d h =
      let (c, e, f) =
        >>=-eq-ok
          (wrap invalid_certificate
            (new_certificate_with_validation sdk v now (some leaf) key rest true))
          (λ c. check_ca sdk v now c ca >> ok (document_of now c leaf)) h in
      let (valid, same) = made-valid now leaf rest key c (wrap-eq-ok invalid_certificate _ e) in
      let f' =
        subst (λ (x : Certificate). (check_ca sdk v now x ca >> ok (document_of now x leaf)) ≡ ok d)
          (sym same) f in
      let (u, g, i) =
        >>=-eq-ok (check_ca sdk v now (made_of leaf rest key) ca)
          (λ passed. ok (document_of now (made_of leaf rest key) leaf)) f' in
      (valid, g, ap (λ r. document_in r d) i)

  document-valid :
      (now : Time) (leaf : X509) (rest : List X509) (key : Option Signer)
      → (leaf.not_before ≤ now) × (now ≤ leaf.not_after)
      → document_is_valid now (document_of now (made_of leaf rest key) leaf) ≡ true
  unfolding document_is_valid document_is_expired before after
  document-valid now leaf rest key h = ground arith

  kept :
      (now : Time) (leaf : X509) (rest : List X509) (s : Signer)
      → (leaf.not_before ≤ now) × (now ≤ leaf.not_after)
      → (get_certificate_chain (document_of now (made_of leaf rest (some s)) leaf)
          ≡ some leaf ∷ map some rest)
        × (get_private_key (document_of now (made_of leaf rest (some s)) leaf) ≡ some s)
        × (document_is_valid now (document_of now (made_of leaf rest (some s)) leaf) ≡ true)
  unfolding get_certificate_chain get_private_key
  kept now leaf rest s h = (refl, refl, document-valid now leaf rest (some s) h)

  -- A document that NewIdentityDocument made has the certificates and the key it was made of, and is
  -- valid at that time.
  new_identity_document-kept :
      (now : Time) (certs : List X509) (key : Option Signer) (ca : Option X509)
      (d : IdentityDocument)
      → new_identity_document sdk v now certs key ca ≡ ok d
      → (get_certificate_chain d ≡ map some certs)
        × (get_private_key d ≡ key)
        × (document_is_valid now d ≡ true)
  unfolding new_identity_document
  new_identity_document-kept now [] key ca d h = cc
  new_identity_document-kept now (leaf ∷ rest) none ca d h = cc
  new_identity_document-kept now (leaf ∷ rest) (some s) ca d h =
      let (valid, g, e) = built now leaf rest (some s) ca d h in
      subst
        (λ (x : IdentityDocument).
          (get_certificate_chain x ≡ some leaf ∷ map some rest)
          × (get_private_key x ≡ some s)
          × (document_is_valid now x ≡ true))
        e (kept now leaf rest s (validate-dates now leaf rest (some s) valid))
