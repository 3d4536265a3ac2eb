-- ===== src/Domain/Workload.antt =====
-- internal/core/domain/workload.go. A document that a workload points to is held by value: no code but
-- the workload writes it. A map is an association list; the copies of a map are the map.
pub mod Identity
use ephemos.Base.{
  ℕ, zero, suc, ◌+◌, ◌-◌, ◌≤◌, ◌<◌, ◌≡◌, refl, sym, ap, ◌∙◌, ◌≢◌, ◌↔◌, ◌⊎◌, inl, inr, Bool, true,
  false, not, ◌&&◌, ◌||◌, Option, none, some, List, [], ◌∷◌, ◌++◌, map, arith, ltb, leb, ◌==◌,
  if◌then◌else◌, Bool-cases, Option-cases, Result, ok, err, fail_if, wrap, ◌>>=◌, ◌>>◌, length, All,
}
use ephemos.GoText.{Text, text, text_eq, trim_space}
use ephemos.GoTime.{Time}
use ephemos.Domain.X509.{Verifier}
use ephemos.Domain.Spiffe.{Sdk}
use ephemos.Domain.TrustDomain.{TrustDomain, domain_is_zero, domain_equals}
use ephemos.Domain.Namespace.{
  Namespace, namespace_is_zero, namespace_equals, namespace_service_name,
}
use ephemos.Domain.TrustBundle.{TrustBundle, BundleError, bundle_validate}
use ephemos.Domain.Document.{
  IdentityDocument, DocumentError, document_is_expired, get_identity_namespace, document_validate,
}
use ephemos.Services.Keyed.{put, remove}

abbrev pub StringMap : Type 0
StringMap = List (Text × Text)

pub record Workload : Type 0 where
  pub identity : Namespace
  pub trust_domain : TrustDomain
  pub identity_doc : Option IdentityDocument
  pub trust_bundle : Option TrustBundle
  pub workload_id : Text
  pub status : Text
  pub created_at : Time
  pub last_updated : Time
  pub labels : StringMap
  pub annotations : StringMap

pub record WorkloadConfig : Type 0 where
  pub id : Text
  pub config_identity : Namespace
  pub config_domain : TrustDomain
  pub config_doc : Option IdentityDocument
  pub config_bundle : Option TrustBundle
  pub config_labels : StringMap
  pub config_annotations : StringMap
  pub config_status : Text

pub data WorkloadError : Type 0 where
  empty_id zero_identity zero_domain domain_mismatch identity_mismatch : WorkloadError
  invalid_document no_identity : DocumentError → WorkloadError
  invalid_bundle : BundleError → WorkloadError

abbrev pub status_active : Text
status_active = text "active"

abbrev pub status_pending : Text
status_pending = text "pending"

-- The checks of the name, the identity and the domain, which NewWorkload and Validate share.
unfoldable pub check_names : Text → Namespace → TrustDomain → Result WorkloadError (Unit {0})
check_names id n d = do
  fail_if (text_eq (trim_space id) []) empty_id
  fail_if (namespace_is_zero n) zero_identity
  fail_if (domain_is_zero d) zero_domain
  fail_if (not (domain_equals n.domain d)) domain_mismatch

module _ (sdk : Sdk) (v : Verifier) where
  -- The checks of a document: it validates, and its identity is the workload's.
  unfoldable pub check_identity_doc :
      Time → Namespace → IdentityDocument → IdentityDocument × Result WorkloadError (Unit {0})
  check_identity_doc now n d =
      let (d', r) = document_validate sdk v now d in
      (
        d',
        do
          wrap invalid_document r
          m ← wrap no_identity (get_identity_namespace sdk d')
          fail_if (not (namespace_equals m n)) identity_mismatch,
      )

  -- The same of a pointer.
  unfoldable pub check_doc :
      Time
      → Namespace
      → Option IdentityDocument
      → Option IdentityDocument × Result WorkloadError (Unit {0})
  check_doc now n none = (none, ok tt)
  check_doc now n (some d) = let (d', r) = check_identity_doc now n d in (some d', r)

  unfoldable pub check_trust_bundle : Time → Option TrustBundle → Result WorkloadError (Unit {0})
  check_trust_bundle now none = ok tt
  check_trust_bundle now (some b) = wrap invalid_bundle (bundle_validate now b)

  -- `NewWorkload`.
  unfoldable pub new_workload : Time → WorkloadConfig → Result WorkloadError Workload
  new_workload now c = do
    check_names c.id c.config_identity c.config_domain
    (check_doc now c.config_identity c.config_doc).1
    check_trust_bundle now c.config_bundle
    ok (record {
      identity = c.config_identity;
      trust_domain = c.config_domain;
      identity_doc = (check_doc now c.config_identity c.config_doc).0;
      trust_bundle = c.config_bundle;
      workload_id = c.id;
      status = if text_eq c.config_status [] then status_pending else c.config_status;
      created_at = now;
      last_updated = now;
      labels = c.config_labels;
      annotations = c.config_annotations;
    })

  abbrev pub store_doc :
      Time
      → Workload
      → Option IdentityDocument
      → Result WorkloadError (Unit {0})
      → Workload × Result WorkloadError (Unit {0})
  store_doc now w d (err e) = (w, err e)
  store_doc now w d (ok u) = (record w { identity_doc = d; last_updated = now }, ok tt)

  -- `UpdateIdentityDocument`, of a document that is not the workload's own one already.
  unfoldable pub update_identity_document :
      Time → Option IdentityDocument → Workload → Workload × Result WorkloadError (Unit {0})
  update_identity_document now d w =
      store_doc now w (check_doc now w.identity d).0 (check_doc now w.identity d).1

  abbrev pub store_bundle :
      Time
      → Workload
      → Option TrustBundle
      → Result WorkloadError (Unit {0})
      → Workload × Result WorkloadError (Unit {0})
  store_bundle now w b (err e) = (w, err e)
  store_bundle now w b (ok u) = (record w { trust_bundle = b; last_updated = now }, ok tt)

  -- `UpdateTrustBundle`.
  unfoldable pub update_trust_bundle :
      Time → Option TrustBundle → Workload → Workload × Result WorkloadError (Unit {0})
  update_trust_bundle now b w = store_bundle now w b (check_trust_bundle now b)

  abbrev pub check_workload : Time → Workload → Result WorkloadError (Unit {0})
  check_workload now w = do
    check_names w.workload_id w.identity w.trust_domain
    (check_doc now w.identity w.identity_doc).1
    check_trust_bundle now w.trust_bundle

  -- The workload behind the check of its names: the check of its document may mark that one.
  abbrev pub marked : Time → Workload → Result WorkloadError (Unit {0}) → Workload
  marked now w (err e) = w
  marked now w (ok u) = record w { identity_doc = (check_doc now w.identity w.identity_doc).0 }

  -- `Validate`.
  unfoldable pub workload_validate : Time → Workload → Workload × Result WorkloadError (Unit {0})
  workload_validate now w =
      (marked now w (check_names w.workload_id w.identity w.trust_domain), check_workload now w)

unfoldable pub update_status : Time → Text → Workload → Workload
update_status now status w = record w { status = status; last_updated = now }

unfoldable pub add_label : Time → Text → Text → Workload → Workload
add_label now key value w = record w { labels = put key value w.labels; last_updated = now }

unfoldable pub remove_label : Time → Text → Workload → Workload
remove_label now key w = record w { labels = remove key w.labels; last_updated = now }

unfoldable pub add_annotation : Time → Text → Text → Workload → Workload
add_annotation now key value w = record w {
  annotations = put key value w.annotations;
  last_updated = now;
}

unfoldable pub remove_annotation : Time → Text → Workload → Workload
remove_annotation now key w = record w {
  annotations = remove key w.annotations;
  last_updated = now;
}

unfoldable pub is_active : Workload → Bool
is_active w = text_eq w.status status_active

unfoldable pub has_valid_identity : Time → Workload → Bool
has_valid_identity now w = elim w.identity_doc [
  | none ↦ false
  | some d ↦ not (document_is_expired now d)
]

unfoldable pub workload_service_name : Workload → Text
workload_service_name w = namespace_service_name w.identity
