-- ===== src/Domain/Workload/Identity.antt =====
-- The identity of a workload and of its document agree, whatever is done to the workload.
use mathlib.Core.Path.{subst}
use ephemos.Base.{
  wrap-eq-ok, >>=-eq-ok, ◌≡◌, refl, sym, ap, ◌∙◌, ◌≢◌, ◌⊎◌, inl, inr, Bool, true, false, not,
  Option, none, some, Result, ok, err, fail_if, wrap, ◌>>=◌, ◌>>◌,
}
use ephemos.GoText.{Text}
use ephemos.GoTime.{Time}
use ephemos.Domain.X509.{Verifier}
use ephemos.Domain.Spiffe.{Sdk}
use ephemos.Domain.Namespace.{Namespace, namespace_equals}
use ephemos.Domain.TrustBundle.{bundle_validate, BundleError, TrustBundle}
use ephemos.Domain.Document.{
  mark, check_document, IdentityDocument, DocumentError, get_identity_namespace, document_validate,
}
use ephemos.Domain.Workload.{
  invalid_bundle, domain_mismatch, Workload, WorkloadConfig, WorkloadError, invalid_document,
  no_identity, identity_mismatch, check_names, check_identity_doc, check_doc, check_trust_bundle,
  new_workload, marked, store_doc, store_bundle, update_identity_document, update_trust_bundle,
  update_status, add_label, remove_label, add_annotation, remove_annotation, workload_validate,
}

not_failed : (b : Bool) → fail_if (not b) identity_mismatch ≡ ok tt → b ≡ true
not_failed true h = refl
not_failed false h = cc

workload_in : Result WorkloadError Workload → Workload → Workload
workload_in (ok w) d = w
workload_in (err e) d = d

error_in {ℓ} : {A : Type ℓ} → Result WorkloadError A → WorkloadError
error_in (ok a) = domain_mismatch
error_in (err e) = e

wrapped-err {ℓ κ} :
    {D : Type ℓ} {A : Type κ} (f : D → WorkloadError) (r : Result D A) (e : WorkloadError)
    → wrap f r ≡ err e
    → (d : D) × (e ≡ f d)
unfolding error_in
wrapped-err f (ok a) e h = cc
wrapped-err f (err d) e h = (d, sym (ap error_in h))

-- The failure of a sequence is that of its first part or of its rest.
which_fails {ℓ} :
    {A : Type ℓ} (r : Result WorkloadError (Unit {0})) (rest : Result WorkloadError A)
    (e : WorkloadError)
    → (r >> rest) ≡ err e
    → (r ≡ err e) ⊎ (rest ≡ err e)
unfolding error_in
which_fails (ok u) rest e h = inr h
which_fails (err d) rest e h = inl (ap err (ap error_in h))

namespace_in : Result DocumentError Namespace → Namespace → Namespace
namespace_in (ok n) d = n
namespace_in (err e) d = d

found : Namespace → Result DocumentError Namespace
found n = ok n

namespace_eq : (x m : Namespace) → found x ≡ found m → x ≡ m
unfolding namespace_in found
namespace_eq x m h = ap (λ r. namespace_in r m) h

matching : (b : Bool) (e : WorkloadError) → b ≡ true → fail_if (not b) identity_mismatch ≢ err e
matching true e h q = cc
matching false e h q = cc

-- A document whose identity is the workload's fails only where its own check does.
same_identity :
    (r : Result DocumentError (Unit {0})) (g : Result DocumentError Namespace) (n m : Namespace)
    (e : WorkloadError)
    → g ≡ ok m
    → namespace_equals m n ≡ true
    → (wrap invalid_document r
        >> (wrap no_identity g >>= λ x. fail_if (not (namespace_equals x n)) identity_mismatch))
      ≡ err e
    → (d : DocumentError) × (e ≡ invalid_document d)
unfolding error_in found
same_identity (err d) g n m e p q h = (d, sym (ap error_in h))
same_identity (ok u) (err d) n m e p q h = cc
same_identity (ok u) (ok x) n m e p q h =
    absurd (
      matching (namespace_equals x n) e (ap (λ y. namespace_equals y n) (namespace_eq x m p) ∙ q) h)

module _ (sdk : Sdk) (v : Verifier) where
  -- A workload, behind any calls; the times are any.
  pub data Life : Workload → Type 0 where
    born :
        {w : Workload} (now : Time) (c : WorkloadConfig) → new_workload sdk v now c ≡ ok w → Life w
    updates_document :
        {w : Workload} (now : Time) (d : Option IdentityDocument)
        → Life w
        → Life (update_identity_document sdk v now d w).0
    updates_bundle :
        {w : Workload} (now : Time) (b : Option TrustBundle)
        → Life w
        → Life (update_trust_bundle sdk v now b w).0
    validates : {w : Workload} (now : Time) → Life w → Life (workload_validate sdk v now w).0
    updates_status :
        {w : Workload} (now : Time) (status : Text) → Life w → Life (update_status now status w)
    adds_label :
        {w : Workload} (now : Time) (key value : Text) → Life w → Life (add_label now key value w)
    removes_label :
        {w : Workload} (now : Time) (key : Text) → Life w → Life (remove_label now key w)
    adds_annotation :
        {w : Workload} (now : Time) (key value : Text)
        → Life w
        → Life (add_annotation now key value w)
    removes_annotation :
        {w : Workload} (now : Time) (key : Text) → Life w → Life (remove_annotation now key w)

  -- A document whose certificate's identity is the namespace.
  abbrev pub DocHasIdentity : Namespace → Option IdentityDocument → Type 0
  DocHasIdentity n none = Unit
  DocHasIdentity n (some d) =
      (m : Namespace) × (get_identity_namespace sdk d ≡ ok m) × (namespace_equals m n ≡ true)

  pub record IsConsistent (w : Workload) : Type 0 where
    pub named : check_names w.workload_id w.identity w.trust_domain ≡ ok tt
    pub own_document : DocHasIdentity w.identity w.identity_doc

  check_doc-identity :
      (now : Time) (n : Namespace) (d : Option IdentityDocument)
      → (check_doc sdk v now n d).1 ≡ ok tt
      → DocHasIdentity n (check_doc sdk v now n d).0
  unfolding check_doc check_identity_doc
  check_doc-identity now n none h = tt
  check_doc-identity now n (some d) h =
      let d' : IdentityDocument = (document_validate sdk v now d).0 in
      let (u, e, f) =
        >>=-eq-ok (wrap invalid_document (document_validate sdk v now d).1) (λ passed. _) h in
      let (m, g, i) =
        >>=-eq-ok (wrap no_identity (get_identity_namespace sdk d'))
          (λ m. fail_if (not (namespace_equals m n)) identity_mismatch) f in
      (
        m,
        wrap-eq-ok no_identity (get_identity_namespace sdk d') g,
        not_failed (namespace_equals m n) i,
      )

  -- A check only marks a document: its identity stays.
  mark-identity :
      (now : Time) (d : IdentityDocument) (r : Result DocumentError (Unit {0}))
      → get_identity_namespace sdk (mark sdk v now d r).0 ≡ get_identity_namespace sdk d
  unfolding get_identity_namespace
  mark-identity now d (ok u) = refl
  mark-identity now d (err e) = refl

  validated-identity :
      (now : Time) (d : IdentityDocument)
      → get_identity_namespace sdk (document_validate sdk v now d).0 ≡ get_identity_namespace sdk d
  unfolding document_validate
  validated-identity now d = mark-identity now d (check_document sdk v now d d.certificate)

  check_doc-keeps :
      (now : Time) (n : Namespace) (d : Option IdentityDocument)
      → DocHasIdentity n d
      → DocHasIdentity n (check_doc sdk v now n d).0
  unfolding check_doc check_identity_doc
  check_doc-keeps now n none h = tt
  check_doc-keeps now n (some d) (m, g, q) = (m, validated-identity now d ∙ g, q)

  marked-IsConsistent :
      (now : Time) (w : Workload) (r : Result WorkloadError (Unit {0}))
      → IsConsistent w
      → IsConsistent (marked sdk v now w r)
  marked-IsConsistent now w (err e) c = c
  marked-IsConsistent now w (ok u) c = record {
    named = c.named;
    own_document = check_doc-keeps now w.identity w.identity_doc c.own_document;
  }

  store_doc-IsConsistent :
      (now : Time) (w : Workload) (d : Option IdentityDocument)
      (r : Result WorkloadError (Unit {0}))
      → (r ≡ ok tt → DocHasIdentity w.identity d)
      → IsConsistent w
      → IsConsistent (store_doc sdk v now w d r).0
  store_doc-IsConsistent now w d (err e) h c = c
  store_doc-IsConsistent now w d (ok u) h c = record { named = c.named; own_document = h refl }

  store_bundle-IsConsistent :
      (now : Time) (w : Workload) (b : Option TrustBundle) (r : Result WorkloadError (Unit {0}))
      → IsConsistent w
      → IsConsistent (store_bundle sdk v now w b r).0
  store_bundle-IsConsistent now w b (err e) c = c
  store_bundle-IsConsistent now w b (ok u) c = record {
    named = c.named;
    own_document = c.own_document;
  }

  new-IsConsistent :
      (now : Time) (c : WorkloadConfig) (w : Workload)
      → new_workload sdk v now c ≡ ok w
      → IsConsistent w
  unfolding new_workload workload_in
  new-IsConsistent now c w h =
      let (u, e, f) =
        >>=-eq-ok (check_names c.id c.config_identity c.config_domain) (λ passed. _) h in
      let (x, g, i) =
        >>=-eq-ok (check_doc sdk v now c.config_identity c.config_doc).1 (λ passed. _) f in
      let (y, j, k) = >>=-eq-ok (check_trust_bundle sdk v now c.config_bundle) (λ passed. _) i in
      subst IsConsistent (ap (λ r. workload_in r w) k) (record {
        named = e;
        own_document = check_doc-identity now c.config_identity c.config_doc g;
      })

  Life-IsConsistent : {w : Workload} → Life w → IsConsistent w
  unfolding update_identity_document update_trust_bundle update_status add_label remove_label
      add_annotation remove_annotation workload_validate
  Life-IsConsistent (born {w} now c h) = new-IsConsistent now c w h
  Life-IsConsistent (updates_document {w} now d l) =
      store_doc-IsConsistent now w (check_doc sdk v now w.identity d).0
        (check_doc sdk v now w.identity d).1 (check_doc-identity now w.identity d)
        (Life-IsConsistent l)
  Life-IsConsistent (updates_bundle {w} now b l) =
      store_bundle-IsConsistent now w b (check_trust_bundle sdk v now b) (Life-IsConsistent l)
  Life-IsConsistent (validates {w} now l) =
      marked-IsConsistent now w (check_names w.workload_id w.identity w.trust_domain)
        (Life-IsConsistent l)
  Life-IsConsistent (updates_status now status l) =
      let c = Life-IsConsistent l in record { named = c.named; own_document = c.own_document }
  Life-IsConsistent (adds_label now key value l) =
      let c = Life-IsConsistent l in record { named = c.named; own_document = c.own_document }
  Life-IsConsistent (removes_label now key l) =
      let c = Life-IsConsistent l in record { named = c.named; own_document = c.own_document }
  Life-IsConsistent (adds_annotation now key value l) =
      let c = Life-IsConsistent l in record { named = c.named; own_document = c.own_document }
  Life-IsConsistent (removes_annotation now key l) =
      let c = Life-IsConsistent l in record { named = c.named; own_document = c.own_document }

  abbrev pub IsDocumentError : WorkloadError → Type 0
  IsDocumentError e = (d : DocumentError) × (e ≡ invalid_document d)

  abbrev pub IsBundleError : WorkloadError → Type 0
  IsBundleError e = (b : BundleError) × (e ≡ invalid_bundle b)

  check_doc-reason :
      (now : Time) (n : Namespace) (d : Option IdentityDocument) (e : WorkloadError)
      → DocHasIdentity n d
      → (check_doc sdk v now n d).1 ≡ err e
      → IsDocumentError e
  unfolding check_doc check_identity_doc
  check_doc-reason now n none e o h = cc
  check_doc-reason now n (some d) e (m, g, q) h =
      same_identity (document_validate sdk v now d).1
        (get_identity_namespace sdk (document_validate sdk v now d).0) n m e
        (validated-identity now d ∙ g) q h

  check_trust_bundle-reason :
      (now : Time) (b : Option TrustBundle) (e : WorkloadError)
      → check_trust_bundle sdk v now b ≡ err e
      → IsBundleError e
  unfolding check_trust_bundle
  check_trust_bundle-reason now none e h = cc
  check_trust_bundle-reason now (some b) e h =
      wrapped-err invalid_bundle (bundle_validate now b) e h

  -- Of a workload that NewWorkload made, behind any calls of its methods at any times: Validate
  -- fails only with the error of its identity document's own validation or of its trust bundle's,
  -- since its name, its identity and its domain stay in order and the document keeps the workload's
  -- identity.
  pub workload_validate-reason :
      (now : Time) {w : Workload} (e : WorkloadError)
      → Life w
      → (workload_validate sdk v now w).1 ≡ err e
      → IsDocumentError e ⊎ IsBundleError e
  unfolding workload_validate
  workload_validate-reason now {w} e l h =
      let c = Life-IsConsistent l in
      elim (which_fails (check_names w.workload_id w.identity w.trust_domain) _ e h) [
        | inl f ↦ cc (sym c.named ∙ f)
        | inr g ↦ elim (which_fails (check_doc sdk v now w.identity w.identity_doc).1 _ e g) [
          | inl f ↦ inl (check_doc-reason now w.identity w.identity_doc e c.own_document f)
          | inr k ↦ inr (check_trust_bundle-reason now w.trust_bundle e k)
        ]
      ]
