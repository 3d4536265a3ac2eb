-- ===== src/Domain/ServiceAddress.antt =====
-- internal/core/domain/service_address.go. `url.Parse` and `net.ParseIP` are parameters.
pub mod Endpoints
use ephemos.Base.{
  ℕ, Bool, not, ◌&&◌, ◌||◌, Option, none, some, [], ◌++◌, ltb, ◌==◌, if◌then◌else◌, Result, ok, err,
  fail_if, ◌>>=◌, ◌>>◌,
}
use ephemos.Base.Int.{ℤ, pos, ltb_ℤ}
use ephemos.GoText.{
  Text, text, text_eq, len, trim_space, to_lower, contains, has_prefix, drop_prefix,
}
use ephemos.Regex.{Regex, seq, star, class, optional, plus, literal, is_alnum, is_digit, matches}
use ephemos.GoNet.{split_host_port, atoi}
use ephemos.Domain.Protocol.{
  protocol_http, protocol_https, protocol_string, parse_protocol, default_port,
}

pub record ServiceAddress : Type 0 where
  pub address : Text

pub data AddressError : Type 0 where
  empty_address example_address bad_url bad_host_port bad_hostname : AddressError
  url_not_parsed no_url_host not_split empty_host bad_port : AddressError
  unknown_protocol no_port localhost_address loopback_address insecure_url : AddressError
  address_too_long : ℕ → AddressError
  port_out_of_range : ℤ → AddressError

-- What the source reads of a `url.URL`; the port is `Port()`.
pub record ParsedUrl : Type 0 where
  pub url_scheme : Text
  pub url_host : Text
  pub url_port : Text

-- `url.Parse`, where none is an error, and whether `net.ParseIP` finds an address.
pub record Net : Type 0 where
  pub parse_url : Text → Option ParsedUrl
  pub is_ip : Text → Bool

-- `[a-zA-Z0-9.-]`.
unfoldable pub is_host_char : ℕ → Bool
is_host_char c = is_alnum c || c == b'.' || c == b'-'

-- `^[a-zA-Z0-9.-]+:[0-9]+$`.
abbrev pub host_port_pattern : Regex
host_port_pattern =
    seq (plus (class is_host_char)) (seq (literal (text ":")) (plus (class is_digit)))

-- `^https?://[a-zA-Z0-9.-]+(:[0-9]+)?(/.*)?$`, where `.` is not a line feed.
abbrev pub url_pattern : Regex
url_pattern = seq (literal (text "http")) (
    seq (optional (literal (text "s"))) (
      seq (literal (text "://")) (
        seq (plus (class is_host_char)) (
          seq (optional (seq (literal (text ":")) (plus (class is_digit))))
            (optional (seq (literal (text "/")) (star (class (λ c. not (c == 10))))))))))

-- `^[a-zA-Z0-9]([a-zA-Z0-9.-]*[a-zA-Z0-9])?$`.
abbrev pub hostname_pattern : Regex
hostname_pattern =
    seq (class is_alnum) (optional (seq (star (class is_host_char)) (class is_alnum)))

abbrev pub or_error {ℓ} : {A : Type ℓ} → AddressError → Option A → Result AddressError A
or_error e none = err e
or_error e (some a) = ok a

abbrev pub has_url_prefix : Text → Bool
has_url_prefix s = has_prefix (text "http://") s || has_prefix (text "https://") s

module _ (net : Net) where
  -- `validateURLFormat`.
  unfoldable pub validate_url_format : Text → Result AddressError (Unit {0})
  validate_url_format s = do
    fail_if (not (matches url_pattern s)) bad_url
    u ← or_error url_not_parsed (net.parse_url s)
    fail_if (text_eq u.url_host []) no_url_host

  -- `validateHostnameFormat`.
  unfoldable pub validate_hostname_format : Text → Result AddressError (Unit {0})
  validate_hostname_format s =
      fail_if (not (matches hostname_pattern s || net.is_ip s)) bad_hostname

  -- `validateHostPortFormat`.
  unfoldable pub validate_host_port_format : Text → Result AddressError (Unit {0})
  validate_host_port_format s = do
    fail_if (not (matches host_port_pattern s)) bad_host_port
    parts ← or_error not_split (split_host_port s)
    fail_if (text_eq parts.0 []) empty_host
    port ← or_error bad_port (atoi parts.1)
    fail_if (ltb_ℤ port (pos 1) || ltb_ℤ (pos 65535) port) (port_out_of_range port)
    fail_if (not (matches hostname_pattern parts.0 || net.is_ip parts.0)) bad_hostname

  -- `validateAddressFormat`.
  unfoldable pub validate_address_format : Text → Result AddressError (Unit {0})
  validate_address_format s =
      if has_url_prefix s
      then validate_url_format s
      else if contains (text ":") s
      then validate_host_port_format s
      else validate_hostname_format s

  -- `NewServiceAddress`.
  unfoldable pub new_service_address : Text → Result AddressError ServiceAddress
  new_service_address s = do
    fail_if (text_eq (trim_space s) []) empty_address
    fail_if (ltb 500 (len (trim_space s))) (address_too_long (len (trim_space s)))
    validate_address_format (trim_space s)
    fail_if
        (contains (text "example.com") (to_lower (trim_space s))
          || contains (text "example.org") (to_lower (trim_space s)))
        example_address
    ok (record { address = trim_space s })

-- `NewServiceAddressUnsafe`.
unfoldable pub new_service_address_unsafe : Text → ServiceAddress
new_service_address_unsafe s = record { address = trim_space s }

unfoldable pub address_equals : ServiceAddress → ServiceAddress → Bool
address_equals a b = text_eq a.address b.address

unfoldable pub address_is_empty : ServiceAddress → Bool
address_is_empty a = text_eq a.address []

unfoldable pub is_url : ServiceAddress → Bool
is_url a = has_url_prefix a.address

unfoldable pub is_host_port : ServiceAddress → Bool
is_host_port a = contains (text ":") a.address && not (is_url a)

unfoldable pub is_hostname_only : ServiceAddress → Bool
is_hostname_only a = not (is_url a) && not (is_host_port a)

-- The host of a URL, which may have no port.
abbrev pub host_before_port : Text → Option (Text × Text) → Text
host_before_port whole none = whole
host_before_port whole (some parts) = parts.0

abbrev pub port_number : Text → Result AddressError ℤ
port_number s = or_error bad_port (atoi s)

-- The port of a URL, or its protocol's.
abbrev pub url_port_number : ParsedUrl → Result AddressError ℤ
url_port_number u =
    if text_eq u.url_port []
    then (do p ← or_error unknown_protocol (parse_protocol u.url_scheme); ok (pos (default_port p)))
    else port_number u.url_port

module _ (net : Net) where
  -- `GetHost`.
  unfoldable pub get_host : ServiceAddress → Result AddressError Text
  get_host a =
      if is_url a
      then (do
        u ← or_error url_not_parsed (net.parse_url a.address)
        ok (host_before_port u.url_host (split_host_port u.url_host)))
      else if is_host_port a
      then (do parts ← or_error not_split (split_host_port a.address); ok parts.0)
      else ok a.address

  -- `GetPort`.
  unfoldable pub get_port : ServiceAddress → Result AddressError ℤ
  get_port a =
      if is_url a
      then (do u ← or_error url_not_parsed (net.parse_url a.address); url_port_number u)
      else if is_host_port a
      then (do parts ← or_error not_split (split_host_port a.address); port_number parts.1)
      else err no_port

unfoldable pub is_secure : ServiceAddress → Bool
is_secure a = has_prefix (protocol_string protocol_https ++ text "://") a.address

-- `ToSecure`.
unfoldable pub to_secure : ServiceAddress → ServiceAddress
to_secure a =
    if has_prefix (protocol_string protocol_http ++ text "://") a.address
    then record {
      address =
          (protocol_string protocol_https ++ text "://")
          ++ drop_prefix (protocol_string protocol_http ++ text "://") a.address;
    }
    else a

-- `IsValidForProduction`.
unfoldable pub address_is_valid_for_production : ServiceAddress → Result AddressError (Unit {0})
address_is_valid_for_production a = do
  fail_if (contains (text "localhost") (to_lower a.address)) localhost_address
  fail_if (contains (text "127.0.0.1") (to_lower a.address)) loopback_address
  fail_if (contains (text "example.") (to_lower a.address)) example_address
  fail_if (is_url a && not (is_secure a)) insecure_url
