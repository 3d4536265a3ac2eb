-- ===== src/Domain/SocketPath.antt =====
-- internal/core/domain/socket_path.go, on Unix. What `os.Stat` says of a path is a parameter.
pub mod Laws
use ephemos.Base.{
  ℕ, zero, suc, ◌+◌, ◌-◌, ◌≤◌, ◌<◌, ◌≡◌, refl, sym, ap, ◌∙◌, ◌≢◌, ◌↔◌, ◌⊎◌, inl, inr, Bool, true,
  false, not, ◌&&◌, ◌||◌, Option, none, some, List, [], ◌∷◌, ◌++◌, map, arith, ltb, leb, ◌==◌,
  if◌then◌else◌, Bool-cases, Option-cases, Result, ok, err, fail_if, wrap, ◌>>=◌, ◌>>◌, length, All,
}
use ephemos.GoText.{Text, text, text_eq, has_prefix, has_suffix, trim_prefix}

pub record SocketPath : Type 0 where
  pub path_value : Text

pub data PathError : Type 0 where
  empty_path not_absolute not_secure no_extension not_a_socket : PathError

-- What `os.Stat` finds: nothing, an error of another kind, a socket, or a file of another kind.
pub data FileInfo : Type 0 where
  missing unreadable socket other_file : FileInfo

abbrev pub unix_prefix : Text
unix_prefix = text "unix://"

-- `filepath.IsAbs`.
unfoldable pub is_abs : Text → Bool
is_abs p = has_prefix (text "/") p

-- `validateSecureDirectory`.
unfoldable pub in_secure_directory : Text → Bool
in_secure_directory p =
    has_prefix (text "/run/") p || has_prefix (text "/var/run/") p || has_prefix (text "/tmp/") p

-- `validatePermissionsIfExists`.
unfoldable pub validate_permissions : FileInfo → Result PathError (Unit {0})
validate_permissions missing = ok tt
validate_permissions unreadable = ok tt
validate_permissions socket = ok tt
validate_permissions other_file = err not_a_socket

module _ (stat : Text → FileInfo) where
  abbrev pub check_path : Text → Result PathError SocketPath
  check_path clean = do
    fail_if (not (is_abs clean)) not_absolute
    fail_if (not (in_secure_directory clean)) not_secure
    fail_if (not (has_suffix (text ".sock") clean)) no_extension
    validate_permissions (stat clean)
    ok (record { path_value = clean })

  -- `NewSocketPath`.
  unfoldable pub new_socket_path : Text → Result PathError SocketPath
  new_socket_path path = do
    fail_if (text_eq path []) empty_path
    check_path (trim_prefix unix_prefix path)

-- `NewSocketPathUnsafe`.
unfoldable pub new_socket_path_unsafe : Text → SocketPath
new_socket_path_unsafe path = record { path_value = trim_prefix unix_prefix path }

unfoldable pub with_unix_prefix : SocketPath → Text
with_unix_prefix p = unix_prefix ++ p.path_value

unfoldable pub path_is_empty : SocketPath → Bool
path_is_empty p = text_eq p.path_value []

unfoldable pub path_equals : SocketPath → SocketPath → Bool
path_equals p q = text_eq p.path_value q.path_value
