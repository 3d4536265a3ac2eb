-- ===== src/Configuration/Builder/Valid.antt =====
-- What a configuration that internal/core/ports/configuration_builder.go built holds.
use ephemos.Base.{
  >>=-eq-ok, ℕ, ◌≤◌, ◌<◌, ◌≡◌, refl, ap, ◌≢◌, ◌⊎◌, Bool, true, false, not, ◌&&◌, Option, none, some,
  List, [], ◌∷◌, arith, Result, ok, err, fail_if,
}
use mathlib.Core.Path.{subst}
use ephemos.Base.Int.{ℤ, pos, negsuc, ltb_ℤ}
use ephemos.GoText.{text_eq}
use ephemos.Configuration.{
  CacheConfig, Configuration, ConfigError, FieldError, name_required, domain_required,
  validate_configuration, validate_cache_constraints, tag_result, check_cache,
  validate_domain_custom,
}
use ephemos.Configuration.Builder.{build_configuration}

-- A number of minutes that passes `omitempty,min=1`, or `omitempty,min=1,max=60`.
abbrev pub UnsetOr : (ℕ → Type 0) → ℤ → Type 0
UnsetOr P (pos n) = (n ≡ 0) ⊎ P n
UnsetOr P (negsuc n) = ⊥

abbrev pub CachePasses : Option CacheConfig → Type 0
CachePasses none = Unit
CachePasses (some k) =
    UnsetOr (λ n. (1 ≤ n) × (n ≤ 60)) k.ttl_minutes
    × UnsetOr (λ n. 1 ≤ n) k.proactive_refresh_minutes

-- What go-playground/validator documents for the tags of a configuration: where none fails, a domain
-- that is not empty passes the validator registered as `domain`, and the cache's numbers pass theirs.
pub record ChecksTags (tags : Configuration → List FieldError) : Type 0 where
  pub domain_tag :
      (c : Configuration)
      → tags c ≡ []
      → text_eq c.domain [] ≡ false
      → validate_domain_custom c.domain ≡ true
  pub cache_tags : (c : Configuration) → tags c ≡ [] → CachePasses c.cache

-- The refresh comes before the end of the time to live, if there is one.
abbrev pub IsOrdered : ℤ → ℤ → Type 0
IsOrdered (pos t) (pos r) = (t ≡ 0) ⊎ ((r < t) × (t ≤ 60))
IsOrdered (pos t) (negsuc r) = ⊥
IsOrdered (negsuc t) r = ⊥

abbrev pub CacheOrdered : Option CacheConfig → Type 0
CacheOrdered none = Unit
CacheOrdered (some k) = IsOrdered k.ttl_minutes k.proactive_refresh_minutes

ordered :
    (t r : ℤ)
    → UnsetOr (λ n. (1 ≤ n) × (n ≤ 60)) t
    → UnsetOr (λ n. 1 ≤ n) r
    → (not (ltb_ℤ r t) && ltb_ℤ (pos 0) t) ≡ false
    → IsOrdered t r
ordered (pos t) (pos r) h k e = ground arith
ordered (pos t) (negsuc r) h k e = absurd k
ordered (negsuc t) r h k e = absurd h

not_failed : (b : Bool) (e : ConfigError) → fail_if b e ≡ ok tt → b ≡ false
not_failed true e h = cc
not_failed false e h = refl

cache-ordered : (k : Option CacheConfig) → CachePasses k → check_cache k ≡ ok tt → CacheOrdered k
unfolding validate_cache_constraints
cache-ordered none h e = tt
cache-ordered (some k) (h, i) e =
    ordered k.ttl_minutes k.proactive_refresh_minutes h i (not_failed _ _ e)

no_errors : (es : List FieldError) → tag_result es ≡ ok tt → es ≡ []
no_errors [] h = refl
no_errors (e ∷ []) h = cc
no_errors (e ∷ f ∷ es) h = cc

configuration_in : Result ConfigError Configuration → Configuration → Configuration
configuration_in (ok c) d = c
configuration_in (err e) d = d

-- With a validator that checks the tags as documented, a configuration that Build returns is the
-- builder's own, has a name, a domain that the source's own check takes, and, if a time to live is
-- set, a refresh that comes before it.
pub build_configuration-CacheOrdered :
    (tags : Configuration → List FieldError) (b c : Configuration)
    → ChecksTags tags
    → build_configuration tags b ≡ ok c
    → (c ≡ b)
      × (c.name.value ≢ [])
      × (validate_domain_custom c.domain ≡ true)
      × CacheOrdered c.cache
unfolding build_configuration validate_configuration configuration_in
build_configuration-CacheOrdered tags b c k h =
    let (u, e, f) = >>=-eq-ok (fail_if (text_eq b.name.value []) name_required) (λ passed. _) h in
    let (v, g, i) = >>=-eq-ok (fail_if (text_eq b.domain []) domain_required) (λ passed. _) f in
    let (w, j, l) = >>=-eq-ok (validate_configuration tags (some b)) (λ passed. ok b) i in
    let (x, m, n) = >>=-eq-ok (tag_result (tags b)) (λ passed. check_cache b.cache) j in
    let none_failed = no_errors (tags b) m in
    let same : b ≡ c = ap (λ r. configuration_in r c) l in
    let named = not_failed (text_eq b.name.value []) name_required e in
    subst
      (λ (y : Configuration).
        (y ≡ b)
        × (y.name.value ≢ [])
        × (validate_domain_custom y.domain ≡ true)
        × CacheOrdered y.cache)
      same
      (
        refl,
        λ q. cc (named, ap (λ s. text_eq s []) q),
        k.domain_tag b none_failed (not_failed (text_eq b.domain []) domain_required g),
        cache-ordered b.cache (k.cache_tags b none_failed) n,
      )
