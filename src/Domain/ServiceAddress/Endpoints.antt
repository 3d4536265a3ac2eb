-- ===== src/Domain/ServiceAddress/Endpoints.antt =====
-- What service_address.go makes of an address that it took.
use ephemos.Base.{
  ltb, err, Result, ap, ℕ, ◌≤◌, ◌≡◌, refl, ◌≢◌, ◌⊎◌, inl, inr, Bool, true, false, not, ◌||◌, Option,
  none, some, [], ◌∷◌, ◌++◌, arith, Bool-cases, ok, fail_if,
}
use mathlib.Core.Path.{subst}
use ephemos.Base.{>>=-eq-ok}
use ephemos.Base.Int.{ℤ, pos, negsuc, ltb_ℤ}
use ephemos.GoText.{Text, text, text_eq, has_prefix}
use ephemos.GoText.Laws.{not-text_eq_iff}
use ephemos.Regex.{is_alnum, matches}
use ephemos.Regex.Laws.{Matches, one, both, matches_iff}
use ephemos.Regex.Shapes.{Enclosed, enclosed_iff, Begins}
use ephemos.GoNet.{split_host_port, atoi}
use ephemos.GoNet.Laws.{split_host_port-joined}
use ephemos.Domain.ServiceAddress.{
  to_lower, contains, has_url_prefix, address_too_long, validate_hostname_format, no_port, len,
  get_port, empty_address, is_hostname_only, url_not_parsed, get_host, bad_url, trim_space,
  is_host_port, validate_address_format, ParsedUrl, is_url, new_service_address,
  validate_url_format, url_pattern, example_address, ServiceAddress, AddressError, empty_host,
  not_split, bad_port, port_out_of_range, bad_host_port, Net, host_port_pattern, hostname_pattern,
  is_host_char, or_error, validate_host_port_format,
}

passed : (b : Bool) (e : AddressError) (u : Unit {0}) → fail_if b e ≡ ok u → b ≡ false
passed true e u h = cc
passed false e u h = refl

passed_not : (b : Bool) (e : AddressError) (u : Unit {0}) → fail_if (not b) e ≡ ok u → b ≡ true
passed_not true e u h = refl
passed_not false e u h = cc

or_error-ok {ℓ} :
    {A : Type ℓ} (e : AddressError) (o : Option A) (a : A) → or_error e o ≡ ok a → o ≡ some a
or_error-ok e none a h = cc
or_error-ok e (some b) a h = cc

in_range :
    (p : ℤ)
    → (ltb_ℤ p (pos 1) || ltb_ℤ (pos 65535) p) ≡ false
    → (n : ℕ) × (p ≡ pos n) × (1 ≤ n) × (n ≤ 65535)
in_range (pos n) h = (n, refl, ground arith, ground arith)
in_range (negsuc n) h = ground arith

alnum_in : (c : ℕ) → is_alnum c ≡ true → is_host_char c ≡ true
unfolding is_host_char
alnum_in c h = ground arith

host_port-Begins : {s : Text} → Matches host_port_pattern s → Begins is_host_char s
host_port-Begins (both _ _ (both _ _ (one {c} h) _ e) _ f) = rw (f, e) (c, _, refl, h)

no_bracket_first : (s : Text) → Begins is_host_char s → has_prefix (text "[") s ≡ false
unfolding has_prefix is_host_char is_alnum
no_bracket_first s (c, rest, e, h) = rw e (ground arith)

address_in : Result AddressError ServiceAddress → ServiceAddress
address_in (ok a) = a
address_in (err e) = record { address = [] }

abbrev taken : ServiceAddress → Result AddressError ServiceAddress
taken a = ok a

address_of : {a b : ServiceAddress} → taken a ≡ taken b → a ≡ b
unfolding address_in
address_of h = ap address_in h

module _ (net : Net) where
  -- A name by its characters, or an address.
  abbrev pub IsHost : Text → Type 0
  IsHost h = Enclosed is_alnum is_host_char h ⊎ (net.is_ip h ≡ true)

  host_lem : (h : Text) → (matches hostname_pattern h || net.is_ip h) ≡ true → IsHost h
  host_lem h t = elim (Bool-cases (matches hostname_pattern h)) [
    | inl e ↦ inl ((enclosed_iff is_alnum is_host_char alnum_in h).0 e)
    | inr e ↦ inr (rw e at t)
  ]

  -- A host, a colon and a port.
  abbrev pub NamesPort : ServiceAddress → Type 0
  NamesPort a =
      (h : Text) × (q : Text) × (n : ℕ) × (a.address ≡ h ++ b':' ∷ q)
      × (h ≢ [])
      × IsHost h
      × (atoi q ≡ some (pos n))
      × (1 ≤ n)
      × (n ≤ 65535)
      × (split_host_port a.address ≡ some (h, q))

  names_port : (a : ServiceAddress) → validate_host_port_format net a.address ≡ ok tt → NamesPort a
  unfolding validate_host_port_format
  names_port a h =
      let s = a.address in
      let (u, e, h1) =
        >>=-eq-ok (fail_if (not (matches host_port_pattern s)) bad_host_port) (λ x. _) h in
      let (parts, f, h2) = >>=-eq-ok (or_error not_split (split_host_port s)) (λ x. _) h1 in
      let (v, g, h3) = >>=-eq-ok (fail_if (text_eq parts.0 []) empty_host) (λ x. _) h2 in
      let (p, k, h4) = >>=-eq-ok (or_error bad_port (atoi parts.1)) (λ x. _) h3 in
      let (w, l, h5) =
        >>=-eq-ok (fail_if (ltb_ℤ p (pos 1) || ltb_ℤ (pos 65535) p) (port_out_of_range p)) (λ x. _)
          h4 in
      let (n, same, low, high) = in_range p (passed _ _ w l) in
      let split = or_error-ok _ _ _ f in
      let bracket =
        no_bracket_first s
          (host_port-Begins ((matches_iff host_port_pattern s).0 (passed_not _ _ u e))) in
      (
        parts.0,
        parts.1,
        n,
        split_host_port-joined s parts bracket split,
        (not-text_eq_iff parts.0 []).0 (passed _ _ v g),
        host_lem parts.0 (passed_not _ _ _ h5),
        subst (λ z. atoi parts.1 ≡ some z) same (or_error-ok _ _ _ k),
        low,
        high,
        split,
      )

  -- A URL with a host.
  abbrev pub NamesUrl : ServiceAddress → Type 0
  NamesUrl a = (u : ParsedUrl) × (net.parse_url a.address ≡ some u) × (u.url_host ≢ [])

  names_url : (a : ServiceAddress) → validate_url_format net a.address ≡ ok tt → NamesUrl a
  unfolding validate_url_format
  names_url a h =
      let (v, e, f) =
        >>=-eq-ok (fail_if (not (matches url_pattern a.address)) bad_url) (λ x. _) h in
      let (u, g, k) = >>=-eq-ok (or_error url_not_parsed (net.parse_url a.address)) (λ x. _) f in
      (u, or_error-ok _ _ _ g, (not-text_eq_iff u.url_host []).0 (passed _ _ _ k))

  -- What the kind of an address says of its host and its port.
  abbrev pub Endpoint : ServiceAddress → Type 0
  Endpoint a =
      ((is_url a ≡ true) × NamesUrl a)
      ⊎ (((is_host_port a ≡ true)
            × (h : Text) × (q : Text) × (n : ℕ) × (a.address ≡ h ++ b':' ∷ q)
            × IsHost h
            × (get_host net a ≡ ok h)
            × (get_port net a ≡ ok (pos n))
            × (1 ≤ n)
            × (n ≤ 65535))
          ⊎ ((is_hostname_only a ≡ true)
              × IsHost a.address
              × (get_host net a ≡ ok a.address)
              × (get_port net a ≡ err no_port)))

  formatted : (a : ServiceAddress) → validate_address_format net a.address ≡ ok tt → Endpoint a
  unfolding validate_address_format is_url is_host_port is_hostname_only get_host get_port
      validate_hostname_format
  formatted a h = elim (Bool-cases (has_url_prefix a.address)) [
    | inl e ↦ inl (e, names_url a (rw e at h))
    | inr e ↦ elim (Bool-cases (contains (text ":") a.address)) [
      | inl f ↦
          let (d, q, n, same, filled, host, number, low, high, split) =
            names_port a (rw (e, f) at h) in
          inr (
            inl (
              rw (e, f) refl,
              d,
              q,
              n,
              same,
              host,
              rw (e, f, split) refl,
              rw (e, f, split, number) refl,
              low,
              high,
            ))
      | inr f ↦
          let host = host_lem a.address (passed_not _ _ _ (rw (e, f) at h)) in
          inr (inr (rw (e, f) refl, host, rw (e, f) refl, rw (e, f) refl))
    ]
  ]

  -- An address that NewServiceAddress took is one of three: a URL that parses with a host; a host
  -- and a port from 1 to 65535 with a colon between them, which GetHost and GetPort return; or a
  -- host alone, which GetHost returns and of which GetPort fails. The host of the last two is an IP
  -- address or consists of letters, digits, dots and dashes, with a letter or a digit at both ends.
  pub new_service_address-Endpoint :
      (s : Text) (a : ServiceAddress) → new_service_address net s ≡ ok a → Endpoint a
  unfolding new_service_address
  new_service_address-Endpoint s a h =
      let t = trim_space s in
      let (u, e, h1) = >>=-eq-ok (fail_if (text_eq t []) empty_address) (λ x. _) h in
      let (v, f, h2) =
        >>=-eq-ok (fail_if (ltb 500 (len t)) (address_too_long (len t))) (λ x. _) h1 in
      let (w, g, h3) = >>=-eq-ok (validate_address_format net t) (λ x. _) h2 in
      let (y, k, h4) =
        >>=-eq-ok
          (fail_if
            (contains (text "example.com") (to_lower t)
              || contains (text "example.org") (to_lower t))
            example_address)
          (λ x. _) h3 in
      subst Endpoint (address_of h4) (formatted (record { address = t }) g)
