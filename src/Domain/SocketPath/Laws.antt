-- ===== src/Domain/SocketPath/Laws.antt =====
-- Which paths socket_path.go takes.
use ephemos.Base.{
  ◌≡◌, refl, sym, ap, ◌≢◌, ◌↔◌, ◌⊎◌, Bool, true, false, not, [], ◌∷◌, ◌++◌, arith, Result, ok, err,
  fail_if, ◌>>◌,
}
use ephemos.GoText.{Text, text, has_prefix, has_suffix, trim_prefix}
use mathlib.Core.Path.{subst}
use ephemos.GoText.Laws.{trim_prefix-append, IsPrefix, IsSuffix, has_prefix_iff, has_suffix_iff}
use ephemos.Domain.SocketPath.{
  not_absolute, not_secure, no_extension, SocketPath, FileInfo, missing, unreadable, socket,
  other_file, PathError, unix_prefix, is_abs, in_secure_directory, validate_permissions, check_path,
  new_socket_path, with_unix_prefix,
}

-- A path in one of the three directories, by its text, that ends in ".sock" and is no file of another
-- kind.
pub record IsSocketPath (stat : Text → FileInfo) (p : Text) : Type 0 where
  pub directory :
      IsPrefix (text "/run/") p ⊎ (IsPrefix (text "/var/run/") p ⊎ IsPrefix (text "/tmp/") p)
  pub extension : IsSuffix (text ".sock") p
  pub not_other : stat p ≢ other_file

permissions_iff : (i : FileInfo) → (validate_permissions i ≡ ok tt) ↔ (i ≢ other_file)
unfolding validate_permissions
permissions_iff missing = (λ h e. cc, λ h. refl)
permissions_iff unreadable = (λ h e. cc, λ h. refl)
permissions_iff socket = (λ h e. cc, λ h. refl)
permissions_iff other_file = (λ h. cc, λ h. absurd (h refl))

secure-abs : (p : Text) → in_secure_directory p ≡ true → is_abs p ≡ true
unfolding in_secure_directory is_abs has_prefix
secure-abs [] h = ground arith
secure-abs (c ∷ p) h = ground arith

pub secure_iff :
    (p : Text)
    → (in_secure_directory p ≡ true)
      ↔ (IsPrefix (text "/run/") p ⊎ (IsPrefix (text "/var/run/") p ⊎ IsPrefix (text "/tmp/") p))
unfolding in_secure_directory
secure_iff p = ground (
  arith,
  has_prefix_iff (text "/run/") p,
  has_prefix_iff (text "/var/run/") p,
  has_prefix_iff (text "/tmp/") p,
)

path_of : Result PathError SocketPath → Text
path_of (ok v) = v.path_value
path_of (err e) = []

taken : Text → Result PathError SocketPath
taken p = ok (record { path_value = p })

path_value-eq : (p : Text) (v : SocketPath) → (taken p ≡ ok v) ↔ (v.path_value ≡ p)
unfolding taken path_of
path_value-eq p v = (λ h. sym (ap path_of h), λ h. ap taken (sym h))

-- The guards of `check_path`, for any results of the tests.
guards :
    (a b c : Bool) (r : Result PathError (Unit {0})) (p : Text) (v : SocketPath)
    → ((do
      fail_if (not a) not_absolute
      fail_if (not b) not_secure
      fail_if (not c) no_extension
      r
      taken p)
        ≡ ok v)
      ↔ ((a ≡ true) × (b ≡ true) × (c ≡ true) × (r ≡ ok tt) × (v.path_value ≡ p))
guards false b c r p v = (λ h. cc, λ h. cc)
guards true false c r p v = (λ h. cc, λ h. cc)
guards true true false r p v = (λ h. cc, λ h. cc)
guards true true true (err e) p v = (λ h. cc, λ h. cc)
guards true true true (ok tt) p v =
    let e = path_value-eq p v in (λ h. (refl, refl, refl, refl, e.0 h), λ h. e.1 h.4)

trim-abs : (p : Text) → is_abs p ≡ true → trim_prefix unix_prefix p ≡ p
unfolding is_abs has_prefix trim_prefix
trim-abs [] h = cc
trim-abs (c ∷ p) h = let slash : c ≡ 47 = ground arith in rw slash refl

module _ (stat : Text → FileInfo) where
  checks :
      (p : Text) (v : SocketPath)
      → (check_path stat p ≡ ok v) ↔ (
          (is_abs p ≡ true)
          × (in_secure_directory p ≡ true)
          × (has_suffix (text ".sock") p ≡ true)
          × (validate_permissions (stat p) ≡ ok tt)
          × (v.path_value ≡ p))
  unfolding taken
  checks p v =
      guards (is_abs p) (in_secure_directory p) (has_suffix (text ".sock") p)
        (validate_permissions (stat p)) p v

  check_path_iff :
      (p : Text) (v : SocketPath)
      → (check_path stat p ≡ ok v) ↔ ((v.path_value ≡ p) × IsSocketPath stat p)
  check_path_iff p v =
      let c = checks p v in
      let (d, d') = secure_iff p in
      let (x, x') = has_suffix_iff (text ".sock") p in
      let (o, o') = permissions_iff (stat p) in
      (
        λ h.
            let (a, b, e, f, g) = c.0 h in
            (g, record { directory = d b; extension = x e; not_other = o f }),
        λ (g, n).
            let b = d' n.directory in c.1 (secure-abs p b, b, x' n.extension, o' n.not_other, g),
      )

  unwrapped :
      (path : Text) (v : SocketPath)
      → (new_socket_path stat path ≡ ok v) ↔ (check_path stat (trim_prefix unix_prefix path) ≡ ok v)
  unfolding new_socket_path trim_prefix has_prefix is_abs
  unwrapped [] v = (λ h. cc, λ h. cc)
  unwrapped (c ∷ path) v = (λ h. h, λ h. h)

  -- NewSocketPath gives a value for a path exactly if the value is the path without a leading
  -- "unix://", begins with "/run/", "/var/run/" or "/tmp/", ends in ".sock", and no file that is not
  -- a socket stands there.
  pub new_socket_path_iff :
      (path : Text) (v : SocketPath)
      → (new_socket_path stat path ≡ ok v)
        ↔ ((v.path_value ≡ trim_prefix unix_prefix path) × IsSocketPath stat v.path_value)
  new_socket_path_iff path v =
      let u = unwrapped path v in
      let c = check_path_iff (trim_prefix unix_prefix path) v in
      (
        λ h. let (e, n) = c.0 (u.0 h) in (e, subst (IsSocketPath stat) (sym e) n),
        λ (e, n). u.1 (c.1 (e, subst (IsSocketPath stat) e n)),
      )

  -- A path that NewSocketPath made is taken again, with the same result, both as it is written with
  -- its prefix and as its plain value, as long as os.Stat finds the same.
  new_socket_path-written :
      (path : Text) (v : SocketPath)
      → new_socket_path stat path ≡ ok v
      → (new_socket_path stat (with_unix_prefix v) ≡ ok v)
        × (new_socket_path stat v.path_value ≡ ok v)
  unfolding with_unix_prefix
  new_socket_path-written path v h =
      let (e, n) = (new_socket_path_iff path v).0 h in
      let a = secure-abs v.path_value ((secure_iff v.path_value).1 n.directory) in
      (
        (new_socket_path_iff (unix_prefix ++ v.path_value) v).1
            (sym (trim_prefix-append unix_prefix v.path_value), n),
        (new_socket_path_iff v.path_value v).1 (sym (trim-abs v.path_value a), n),
      )
