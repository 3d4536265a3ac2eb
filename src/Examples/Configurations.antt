-- ===== src/Examples/Configurations.antt =====
-- Configurations, with a validator of tags that does what its documentation says.
use ephemos.Base.{
  ℕ, ◌≤◌, ◌≡◌, refl, ◌≢◌, ◌↔◌, Bool, true, false, ◌&&◌, ◌||◌, Option, none, some, List, [], ◌∷◌,
  arith, leb, ◌==◌, if◌then◌else◌, ok,
}
use ephemos.Base.Int.{ℤ, pos, negsuc}
use ephemos.GoText.{Text, text, text_eq}
use ephemos.GoText.Laws.{IsInfix}
use ephemos.Domain.ServiceName.{ServiceName, new_service_name}
use ephemos.Domain.SocketPath.{FileInfo, missing, new_socket_path}
use ephemos.Configuration.{Configuration, CacheConfig, FieldError, validate_domain_custom}
use ephemos.Configuration.Environment.{Env, merge_with_environment}
use ephemos.Configuration.Environment.Merged.{Merge, merge_with_environment-Merge}
use ephemos.Configuration.Production.{is_production_ready}
use ephemos.Configuration.Production.Ready.{IsRealDomain, IsQuiet, is_production_ready_iff}
use ephemos.Configuration.Builder.{build_configuration}
use ephemos.Configuration.Builder.Valid.{
  UnsetOr, CachePasses, ChecksTags, CacheOrdered, build_configuration-CacheOrdered,
}

abbrev unset_or_in : ℕ → ℤ → Bool
unset_or_in most (pos n) = n == 0 || (leb 1 n && leb n most)
unset_or_in most (negsuc n) = false

abbrev at_least_one : ℤ → Bool
at_least_one (pos n) = n == 0 || leb 1 n
at_least_one (negsuc n) = false

abbrev cache_test : Option CacheConfig → Bool
cache_test none = true
cache_test (some k) = unset_or_in 60 k.ttl_minutes && at_least_one k.proactive_refresh_minutes

abbrev one_error : Bool → List FieldError
one_error true = []
one_error false = (text "service", text "invalid") ∷ []

abbrev tags : Configuration → List FieldError
tags c = one_error ((text_eq c.domain [] || validate_domain_custom c.domain) && cache_test c.cache)

no_error : (b : Bool) → one_error b ≡ [] → b ≡ true
no_error true h = refl
no_error false h = cc

both_true : (a b : Bool) → (a && b) ≡ true → (a ≡ true) × (b ≡ true)
both_true a b h = ground arith

or_true : (a b : Bool) → (a || b) ≡ true → a ≡ false → b ≡ true
or_true a b h e = ground arith

ttl_passes : (t : ℤ) → unset_or_in 60 t ≡ true → UnsetOr (λ n. (1 ≤ n) × (n ≤ 60)) t
ttl_passes (pos n) h = ground arith
ttl_passes (negsuc n) h = cc

refresh_passes : (t : ℤ) → at_least_one t ≡ true → UnsetOr (λ n. 1 ≤ n) t
refresh_passes (pos n) h = ground arith
refresh_passes (negsuc n) h = cc

cache_passes : (k : Option CacheConfig) → cache_test k ≡ true → CachePasses k
cache_passes none h = tt
cache_passes (some k) h =
    let (a, b) =
      both_true (unset_or_in 60 k.ttl_minutes) (at_least_one k.proactive_refresh_minutes) h in
    (ttl_passes k.ttl_minutes a, refresh_passes k.proactive_refresh_minutes b)

tags-ChecksTags : ChecksTags tags
tags-ChecksTags = record {
  domain_tag = λ c h e.
      or_true (text_eq c.domain []) (validate_domain_custom c.domain)
        (both_true _ _ (no_error _ h)).0 e;
  cache_tags = λ c h. cache_passes c.cache (both_true _ _ (no_error _ h)).1;
}

abbrev pay_name : ServiceName
pay_name = record { value = text "pay" }

abbrev pub configuration : Configuration
configuration = record {
  name = pay_name;
  domain = text "corp.io";
  cache = some (record { ttl_minutes = pos 30; proactive_refresh_minutes = pos 10 });
  agent = some (record { socket_path = record { path_value = text "/run/agent.sock" } });
}

abbrev no_file : Text → FileInfo
no_file p = missing

-- The environment has a domain, and a socket path that is refused.
abbrev value_of : Text → Text
value_of k =
    if text_eq k (text "trust_domain")
    then text "corp.net"
    else if text_eq k (text "agent_socket")
    then text "/home/a.sock"
    else []

abbrev pub environment : Env
environment = record {
  get_string = value_of;
  get_int = λ k. pos 0;
  get_bool = λ k. false;
  is_set = λ k. false;
}

merge_with_environment-Merge_example :
    Merge no_file tags environment configuration
      (merge_with_environment no_file tags environment configuration)
merge_with_environment-Merge_example =
    merge_with_environment-Merge no_file tags environment configuration

pay_taken : new_service_name (text "pay") ≡ ok pay_name
unfolding new_service_name ephemos.Domain.ServiceName.check_name ephemos.GoText.trim_space
    ephemos.GoText.len ephemos.Regex.matches ephemos.Regex.is_alnum
    ephemos.Domain.ServiceName.is_name_char ephemos.GoText.contains ephemos.GoText.to_lower
    ephemos.Domain.ServiceName.misplaced_test
pay_taken = refl

path_taken :
    new_socket_path no_file (text "/run/agent.sock")
    ≡ ok (record { path_value = text "/run/agent.sock" })
unfolding new_socket_path ephemos.Domain.SocketPath.is_abs ephemos.GoText.has_prefix
    ephemos.GoText.trim_prefix ephemos.Domain.SocketPath.in_secure_directory
    ephemos.GoText.has_suffix ephemos.Domain.SocketPath.validate_permissions
path_taken = refl

is_production_ready_iff_example :
    (is_production_ready environment configuration ≡ ok tt)
    ↔ (IsRealDomain (text "corp.io") × (¬ IsInfix (text "demo") (text "pay")) × IsQuiet environment)
is_production_ready_iff_example =
    is_production_ready_iff environment no_file configuration (text "pay") pay_taken
      (text "/run/agent.sock", path_taken)

built : build_configuration tags configuration ≡ ok configuration
unfolding build_configuration ephemos.Configuration.validate_configuration validate_domain_custom
    ephemos.GoText.trim_space ephemos.GoText.contains ephemos.Regex.matches ephemos.Regex.is_alnum
    ephemos.Configuration.is_label_char ephemos.Configuration.validate_cache_constraints
built = refl

build_configuration-CacheOrdered_example :
    (configuration ≡ configuration)
    × (configuration.name.value ≢ [])
    × (validate_domain_custom configuration.domain ≡ true)
    × CacheOrdered configuration.cache
build_configuration-CacheOrdered_example =
    build_configuration-CacheOrdered tags configuration configuration tags-ChecksTags built
