-- ===== src/Configuration.antt =====
-- internal/core/ports/configuration.go, and the custom validators of internal/core/domain/validation.go
-- that its tags name. The validator of tags (go-playground/validator) and viper are parameters.
pub mod Environment
pub mod Production
pub mod Builder
use ephemos.Base.{
  ℕ, zero, suc, ◌+◌, ◌-◌, ◌≤◌, ◌<◌, ◌≡◌, refl, sym, ap, ◌∙◌, ◌≢◌, ◌↔◌, ◌⊎◌, inl, inr, Bool, true,
  false, not, ◌&&◌, ◌||◌, Option, none, some, List, [], ◌∷◌, ◌++◌, map, arith, ltb, leb, ◌==◌,
  if◌then◌else◌, Bool-cases, Option-cases, Result, ok, err, fail_if, wrap, ◌>>=◌, ◌>>◌, length, All,
}
use ephemos.Base.Int.{ℤ, pos, negsuc, ltb_ℤ}
use ephemos.GoText.{Text, text, text_eq, contains, trim_space, split_on, is_space}
use ephemos.Regex.{Regex, seq, star, class, optional, is_alnum, matches}
use ephemos.Domain.ServiceName.{ServiceName, NameError}
use ephemos.Domain.SocketPath.{SocketPath, PathError}

pub record CacheConfig : Type 0 where
  pub ttl_minutes : ℤ
  pub proactive_refresh_minutes : ℤ

pub record AgentConfig : Type 0 where
  pub socket_path : SocketPath

-- Without the settings of the health checks, which no operation here reads.
pub record Configuration : Type 0 where
  pub name : ServiceName
  pub domain : Text
  pub cache : Option CacheConfig
  pub agent : Option AgentConfig

-- A failed tag: the field and the message.
abbrev pub FieldError : Type 0
FieldError = Text × Text

pub data ConfigError : Type 0 where
  nil_configuration name_not_set name_required domain_required : ConfigError
  bad_field : FieldError → ConfigError
  bad_fields : List FieldError → ConfigError
  refresh_not_less : ℤ → ConfigError
  bad_name : NameError → ConfigError
  bad_socket : PathError → ConfigError
  not_decoded : Text → ConfigError

-- `validateCacheConstraints`.
unfoldable pub validate_cache_constraints : CacheConfig → Result ConfigError (Unit {0})
validate_cache_constraints c =
    fail_if (not (ltb_ℤ c.proactive_refresh_minutes c.ttl_minutes) && ltb_ℤ (pos 0) c.ttl_minutes)
      (refresh_not_less c.proactive_refresh_minutes)

-- The errors of the tags, as Validate converts them.
abbrev pub tag_result : List FieldError → Result ConfigError (Unit {0})
tag_result [] = ok tt
tag_result (e ∷ []) = err (bad_field e)
tag_result (e ∷ f ∷ es) = err (bad_fields (e ∷ f ∷ es))

abbrev pub check_cache : Option CacheConfig → Result ConfigError (Unit {0})
check_cache none = ok tt
check_cache (some c) = validate_cache_constraints c

-- `Validate`, of a pointer; `tags` gives the tags that fail.
module _ (tags : Configuration → List FieldError) where
  unfoldable pub validate_configuration : Option Configuration → Result ConfigError (Unit {0})
  validate_configuration none = err nil_configuration
  validate_configuration (some c) = do tag_result (tags c); check_cache c.cache

-- `parseCommaSeparatedList`.
abbrev pub nonempty_items : List Text → List Text
nonempty_items [] = []
nonempty_items (s ∷ items) =
    let rest = nonempty_items items in
    if text_eq (trim_space s) [] then rest else trim_space s ∷ rest

unfoldable pub parse_comma_separated_list : Text → List Text
parse_comma_separated_list s = nonempty_items (split_on b',' s)

-- `[a-zA-Z0-9-]`.
unfoldable pub is_label_char : ℕ → Bool
unfolding is_alnum
is_label_char c = is_alnum c || c == b'-'

-- `{0,n}`.
abbrev pub up_to : ℕ → Regex → Regex
up_to zero r = ephemos.Regex.empty
up_to (suc n) r = optional (seq r (up_to n r))

-- `[a-zA-Z0-9]([a-zA-Z0-9-]{0,61}[a-zA-Z0-9])?`.
abbrev pub label_pattern : Regex
label_pattern =
    seq (class is_alnum) (optional (seq (up_to 61 (class is_label_char)) (class is_alnum)))

-- `^label(\.label)*$`.
abbrev pub domain_pattern : Regex
domain_pattern = seq label_pattern (star (seq (class (λ c. c == b'.')) label_pattern))

abbrev pub trimmed_domain_passes : Text → Bool
trimmed_domain_passes [] = true
trimmed_domain_passes (c ∷ s) =
    if contains (text ".") (c ∷ s) then matches domain_pattern (c ∷ s) else false

-- `validateDomainCustom`.
unfoldable pub validate_domain_custom : Text → Bool
validate_domain_custom s = trimmed_domain_passes (trim_space s)

abbrev pub all_name_chars : Text → Bool
all_name_chars [] = true
all_name_chars (c ∷ s) = (is_alnum c || c == b'-' || c == b'_') && all_name_chars s

-- `validateServiceNameCustom`.
unfoldable pub validate_service_name_custom : Text → Bool
validate_service_name_custom s = all_name_chars (trim_space s)

-- `validatePortCustom`, of an integer field.
unfoldable pub validate_port_custom : ℤ → Bool
validate_port_custom port = not (ltb_ℤ port (pos 1)) && not (ltb_ℤ (pos 65535) port)
