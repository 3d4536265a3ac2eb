-- ===== src/Domain/ServiceName.antt =====
-- internal/core/domain/service_name.go. An error is one constructor for each message.
pub mod Laws
use ephemos.Base.{
  ℕ, Bool, true, false, not, ◌&&◌, ◌||◌, Option, none, some, [], ltb, leb, ◌==◌, if◌then◌else◌,
  Result, ok, err, fail_if, ◌>>=◌, ◌>>◌,
}
use ephemos.GoText.{
  Text, text, text_eq, len, trim_space, to_lower, contains, has_prefix, has_suffix,
}
use ephemos.Regex.{Regex, seq, star, class, optional, is_alnum, matches}

pub record ServiceName : Type 0 where
  pub value : Text

pub data NameError : Type 0 where
  empty_name too_short bad_characters has_example has_test : NameError
  too_long : ℕ → NameError
  not_for_production : Text → NameError

-- `[a-zA-Z0-9._-]`.
unfoldable pub is_name_char : ℕ → Bool
unfolding is_alnum
is_name_char c = is_alnum c || c == b'.' || c == b'_' || c == b'-'

-- `^[a-zA-Z0-9]([a-zA-Z0-9._-]*[a-zA-Z0-9])?$`.
abbrev pub service_name_pattern : Regex
service_name_pattern =
    seq (class is_alnum) (optional (seq (star (class is_name_char)) (class is_alnum)))

-- The rule on "test": allowed in front as "test-" or at the end as "-test".
unfoldable pub misplaced_test : Text → Bool
misplaced_test lower =
    contains (text "test") lower
    && not (has_prefix (text "test-") lower)
    && not (has_suffix (text "-test") lower)

-- The checks of `NewServiceName` on the trimmed name, in their order.
unfoldable pub check_name : Text → Result NameError ServiceName
check_name trimmed = do
  fail_if (text_eq trimmed []) empty_name
  fail_if (ltb 100 (len trimmed)) (too_long (len trimmed))
  fail_if (ltb (len trimmed) 1) too_short
  fail_if (not (matches service_name_pattern trimmed)) bad_characters
  fail_if (contains (text "example") (to_lower trimmed)) has_example
  fail_if (misplaced_test (to_lower trimmed)) has_test
  ok (record { value = trimmed })

unfoldable pub new_service_name : Text → Result NameError ServiceName
new_service_name name = check_name (trim_space name)

unfoldable pub new_service_name_unsafe : Text → ServiceName
new_service_name_unsafe name = record { value = trim_space name }

unfoldable pub name_equals : ServiceName → ServiceName → Bool
name_equals s t = text_eq s.value t.value

unfoldable pub name_is_empty : ServiceName → Bool
name_is_empty s = text_eq s.value []

unfoldable pub name_length : ServiceName → ℕ
unfolding len
name_length s = len s.value

unfoldable pub name_to_lower : ServiceName → ServiceName
unfolding to_lower
name_to_lower s = record { value = to_lower s.value }

unfoldable pub name_contains : ServiceName → Text → Bool
name_contains s substring = contains (to_lower substring) (to_lower s.value)

unfoldable pub name_has_prefix : ServiceName → Text → Bool
unfolding has_prefix
name_has_prefix s prefix = has_prefix prefix s.value

unfoldable pub name_has_suffix : ServiceName → Text → Bool
unfolding has_suffix
name_has_suffix s suffix = has_suffix suffix s.value

-- `IsValidForProduction`: the text found, or nothing.
unfoldable pub name_is_valid_for_production : ServiceName → Result NameError (Unit {0})
name_is_valid_for_production s = do
  fail_if (name_contains s (text "demo")) (not_for_production (text "demo"))
  fail_if (name_contains s (text "example")) (not_for_production (text "example"))
  fail_if (name_contains s (text "localhost")) (not_for_production (text "localhost"))
  fail_if (has_suffix (text "-test") (to_lower s.value)) (not_for_production (text "-test"))
  ok tt

-- What a decoder of configuration files hands over: a text, a name, or a value of another type.
pub data Decoded : Type 0 where
  raw : Text → Decoded
  name : ServiceName → Decoded
  other : ℕ → Decoded

-- `ServiceNameDecodeHook`, for a target that is, or is not, a service name.
unfoldable pub service_name_decode_hook : Bool → Decoded → Result NameError Decoded
service_name_decode_hook false d = ok d
service_name_decode_hook true (raw s) = do n ← new_service_name s; ok (name n)
service_name_decode_hook true d = ok d
