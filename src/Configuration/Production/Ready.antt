-- ===== src/Configuration/Production/Ready.antt =====
-- When a configuration is ready for production, in internal/core/ports/configuration.go.
use ephemos.Base.{
  ℕ, ◌≡◌, refl, ap, ◌∙◌, ◌↔◌, Bool, true, false, Option, none, some, List, [], ◌∷◌, ◌++◌, map,
  arith, Result, ok, err, fail_if,
}
use ephemos.GoText.{lower_rune, Text, text, contains, to_lower}
use ephemos.GoText.Laws.{IsInfix, not-contains_iff}
use ephemos.Domain.ServiceName.{ServiceName, new_service_name}
use ephemos.Domain.ServiceName.Laws.{new_service_name-ok_iff}
use ephemos.Domain.SocketPath.{FileInfo, new_socket_path, in_secure_directory}
use ephemos.Domain.SocketPath.Laws.{secure_iff, new_socket_path_iff}
use ephemos.Configuration.{AgentConfig, Configuration}
use ephemos.Configuration.Environment.{Env}
use ephemos.Configuration.Production.{
  verbose_logging, debug_enabled, insecure_skip_verify, ProductionError, validate_production_domain,
  validate_production_service_name, validate_socket_path, check_agent, noted, is_verbose,
  production_errors, or_nil, is_production_ready,
}

map-++ : (f : ℕ → ℕ) (s t : Text) → map f (s ++ t) ≡ map f s ++ map f t
map-++ f [] t = refl
map-++ f (c ∷ s) t = ap (λ r. f c ∷ r) (map-++ f s t)

-- A test that finds nothing appends nothing.
noted_none :
    (r : Result ProductionError (Unit {0})) (es : List ProductionError)
    → (or_nil (noted r es) ≡ ok tt) ↔ ((r ≡ ok tt) × (or_nil es ≡ ok tt))
noted_none (ok u) es = (λ h. (refl, h), λ h. h.1)
noted_none (err e) es = (λ h. cc, λ h. cc)

domain_iff :
    (d : Text)
    → (validate_production_domain d ≡ ok tt) ↔ (
        (contains (text "example.org") d ≡ false)
        × (contains (text "example.com") d ≡ false)
        × (contains (text "localhost") d ≡ false)
        × (contains (text "demo") d ≡ false)
        × (contains (text "test") d ≡ false))
unfolding validate_production_domain
domain_iff d = ground arith

name_iff :
    (n : Text)
    → contains (text "example") n ≡ false
    → (validate_production_service_name n ≡ ok tt) ↔ (contains (text "demo") n ≡ false)
unfolding validate_production_service_name
name_iff n h = ground arith

lower-infix : (s : Text) → IsInfix (text "example") s → IsInfix (text "example") (to_lower s)
unfolding to_lower lower_rune
lower-infix s (front, rest, e) = (
  map lower_rune front,
  map lower_rune rest,
  ap (map lower_rune) e ∙ map-++ lower_rune front (text "example" ++ rest),
)

-- A name that NewServiceName took has no "example" in it.
real :
    (s : Text) (n : ServiceName)
    → new_service_name s ≡ ok n
    → contains (text "example") n.value ≡ false
real s n h =
    let v = ((new_service_name-ok_iff s n).0 h).1 in
    (not-contains_iff (text "example") n.value).1 (λ i. v.real (lower-infix n.value i))

-- A path that NewSocketPath took, if there is one.
abbrev pub TakenPath : (Text → FileInfo) → Option AgentConfig → Type 0
TakenPath stat none = Unit
TakenPath stat (some a) = (path : Text) × (new_socket_path stat path ≡ ok a.socket_path)

secure-passes : (p : Text) → in_secure_directory p ≡ true → validate_socket_path p ≡ ok tt
unfolding in_secure_directory validate_socket_path
secure-passes p h = rw h refl

agent-passes :
    (stat : Text → FileInfo) (a : Option AgentConfig) → TakenPath stat a → check_agent a ≡ ok tt
agent-passes stat none h = refl
agent-passes stat (some a) (path, h) =
    let v = ((new_socket_path_iff stat path a.socket_path).0 h).1 in
    secure-passes a.socket_path.path_value ((secure_iff a.socket_path.path_value).1 v.directory)

flag_iff : (b : Bool) (e : ProductionError) → (fail_if b e ≡ ok tt) ↔ (b ≡ false)
flag_iff true e = (λ h. cc, λ h. cc)
flag_iff false e = (λ h. refl, λ h. refl)

-- A domain without the words that stand for examples and tests.
pub record IsRealDomain (d : Text) : Type 0 where
  pub not_org : ¬ IsInfix (text "example.org") d
  pub not_com : ¬ IsInfix (text "example.com") d
  pub not_localhost : ¬ IsInfix (text "localhost") d
  pub not_demo : ¬ IsInfix (text "demo") d
  pub not_test : ¬ IsInfix (text "test") d

IsRealDomain-iff : (d : Text) → (validate_production_domain d ≡ ok tt) ↔ IsRealDomain d
IsRealDomain-iff d =
    let (f, g) = domain_iff d in
    let a = not-contains_iff (text "example.org") d in
    let b = not-contains_iff (text "example.com") d in
    let l = not-contains_iff (text "localhost") d in
    let m = not-contains_iff (text "demo") d in
    let t = not-contains_iff (text "test") d in
    (
      λ h.
          let (p, q, r, s, u) = f h in
          record {
            not_org = a.0 p;
            not_com = b.0 q;
            not_localhost = l.0 r;
            not_demo = m.0 s;
            not_test = t.0 u;
          },
      λ h. g (a.1 h.not_org, b.1 h.not_com, l.1 h.not_localhost, m.1 h.not_demo, t.1 h.not_test),
    )

-- The variables of the environment that the check reads are harmless.
abbrev pub IsQuiet : Env → Type 0
IsQuiet env =
    (env.get_bool (text "insecure_skip_verify") ≡ false)
    × (env.get_bool (text "debug_enabled") ≡ false)
    × (is_verbose (to_lower (env.get_string (text "log_level"))) ≡ false)

-- A configuration whose name and path the constructors took is ready for production exactly if its
-- domain has none of "example.org", "example.com", "localhost", "demo" and "test" in it, its name no
-- "demo", and the environment asks neither for no verification, nor for debugging, nor for a verbose
-- log: the tests of the path and for "example" in the name never fail.
pub is_production_ready_iff :
    (env : Env) (stat : Text → FileInfo) (c : Configuration) (s : Text)
    → new_service_name s ≡ ok c.name
    → TakenPath stat c.agent
    → (is_production_ready env c ≡ ok tt)
      ↔ (IsRealDomain c.domain × (¬ IsInfix (text "demo") c.name.value) × IsQuiet env)
unfolding is_production_ready
is_production_ready_iff env stat c s h p =
    let d = IsRealDomain-iff c.domain in
    let n = name_iff c.name.value (real s c.name h) in
    let m = not-contains_iff (text "demo") c.name.value in
    let a = flag_iff (env.get_bool (text "insecure_skip_verify")) insecure_skip_verify in
    let b = flag_iff (env.get_bool (text "debug_enabled")) debug_enabled in
    let l = flag_iff (is_verbose (to_lower (env.get_string (text "log_level")))) verbose_logging in
    (
      λ r.
          let (r1, s1) = (noted_none (validate_production_domain c.domain) _).0 r in
          let (r2, s2) = (noted_none (validate_production_service_name c.name.value) _).0 s1 in
          let (r3, s3) = (noted_none (check_agent c.agent) _).0 s2 in
          let (r4, s4) =
            (noted_none (fail_if (env.get_bool (text "insecure_skip_verify")) insecure_skip_verify)
                _).0
              s3 in
          let (r5, s5) =
            (noted_none (fail_if (env.get_bool (text "debug_enabled")) debug_enabled) _).0 s4 in
          let (r6, s6) =
            (noted_none
                (fail_if (is_verbose (to_lower (env.get_string (text "log_level"))))
                  verbose_logging)
                []).0
              s5 in
          (d.0 r1, m.0 (n.0 r2), (a.0 r4, b.0 r5, l.0 r6)),
      λ (e, f, (x, y, z)).
          rw (d.1 e, n.1 (m.1 f), agent-passes stat c.agent p, x, y, z, production_errors) refl,
    )
