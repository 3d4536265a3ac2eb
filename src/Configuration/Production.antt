-- ===== src/Configuration/Production.antt =====
-- The checks of a configuration for production, in internal/core/ports/configuration.go.
pub mod Ready
use ephemos.Base.{
  ℕ, zero, suc, ◌+◌, ◌-◌, ◌≤◌, ◌<◌, ◌≡◌, refl, sym, ap, ◌∙◌, ◌≢◌, ◌↔◌, ◌⊎◌, inl, inr, Bool, true,
  false, not, ◌&&◌, ◌||◌, Option, none, some, List, [], ◌∷◌, ◌++◌, map, arith, ltb, leb, ◌==◌,
  if◌then◌else◌, Bool-cases, Option-cases, Result, ok, err, fail_if, wrap, ◌>>=◌, ◌>>◌, length, All,
}
use ephemos.GoText.{Text, text, text_eq, contains, has_prefix, to_lower}
use ephemos.Configuration.{Configuration, AgentConfig}
use ephemos.Configuration.Environment.{Env}

pub data ProductionError : Type 0 where
  example_domain localhost_domain demo_domain example_name demo_name : ProductionError
  insecure_socket insecure_skip_verify debug_enabled verbose_logging : ProductionError

-- `validateProductionDomain`.
unfoldable pub validate_production_domain : Text → Result ProductionError (Unit {0})
validate_production_domain d = do
  fail_if (contains (text "example.org") d || contains (text "example.com") d) example_domain
  fail_if (contains (text "localhost") d) localhost_domain
  fail_if (contains (text "demo") d || contains (text "test") d) demo_domain

-- `validateProductionServiceName`.
unfoldable pub validate_production_service_name : Text → Result ProductionError (Unit {0})
validate_production_service_name n = do
  fail_if (contains (text "example") n) example_name
  fail_if (contains (text "demo") n) demo_name

-- `validateSocketPath`.
unfoldable pub validate_socket_path : Text → Result ProductionError (Unit {0})
validate_socket_path p =
    if has_prefix (text "/run/") p || has_prefix (text "/var/run/") p || has_prefix (text "/tmp/") p
    then ok tt
    else err insecure_socket

abbrev pub check_agent : Option AgentConfig → Result ProductionError (Unit {0})
check_agent none = ok tt
check_agent (some a) = validate_socket_path a.socket_path.path_value

-- An error is appended to the list.
abbrev pub noted : Result ProductionError (Unit {0}) → List ProductionError → List ProductionError
noted (ok u) rest = rest
noted (err e) rest = e ∷ rest

abbrev pub is_verbose : Text → Bool
is_verbose level = text_eq level (text "debug") || text_eq level (text "trace")

-- The errors that `validateProductionSecurity` collects.
unfoldable pub production_errors : Env → Configuration → List ProductionError
production_errors env c = noted (validate_production_domain c.domain) (
    noted (validate_production_service_name c.name.value) (
      noted (check_agent c.agent) (
        noted (fail_if (env.get_bool (text "insecure_skip_verify")) insecure_skip_verify) (
          noted (fail_if (env.get_bool (text "debug_enabled")) debug_enabled) (
            noted
              (fail_if (is_verbose (to_lower (env.get_string (text "log_level")))) verbose_logging)
              [])))))

-- `IsProductionReady`: nil where there are no errors.
abbrev pub or_nil : List ProductionError → Result (List ProductionError) (Unit {0})
or_nil [] = ok tt
or_nil (e ∷ es) = err (e ∷ es)

unfoldable pub is_production_ready : Env → Configuration → Result (List ProductionError) (Unit {0})
unfolding production_errors
is_production_ready env c = or_nil (production_errors env c)
