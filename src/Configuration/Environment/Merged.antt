-- ===== src/Configuration/Environment/Merged.antt =====
-- What MergeWithEnvironment of internal/core/ports/configuration.go leaves.
use ephemos.Base.{
  Result-cases, ◌≡◌, refl, sym, ◌⊎◌, inl, inr, true, false, Option, some, List, [], if◌then◌else◌,
  Bool-cases, Result, ok, err,
}
use mathlib.Core.Path.{subst}
use ephemos.GoText.{Text, text, text_eq}
use ephemos.Domain.ServiceName.{ServiceName, NameError, new_service_name}
use ephemos.Domain.SocketPath.{SocketPath, PathError, FileInfo, new_socket_path}
use ephemos.Configuration.{
  AgentConfig, Configuration, ConfigError, FieldError, bad_name, bad_socket, validate_configuration,
}
use ephemos.Configuration.Environment.{
  Env, override_domain, agent_or_zero, override_socket, validated, merge_named,
  merge_with_environment,
}

module _ (stat : Text → FileInfo) (tags : Configuration → List FieldError) (env : Env)
    (c : Configuration) where
  abbrev name_text : Text
  name_text = env.get_string (text "service_name")

  abbrev socket_text : Text
  socket_text = env.get_string (text "agent_socket")

  abbrev domain_text : Text
  domain_text = env.get_string (text "trust_domain")

  -- The name behind the merge: the environment's, if it has one.
  abbrev pub TakesName : ServiceName → Type 0
  TakesName n =
      ((text_eq name_text [] ≡ true) × (n ≡ c.name))
      ⊎ ((text_eq name_text [] ≡ false) × (new_service_name name_text ≡ ok n))

  abbrev pub TakesAgent : Option AgentConfig → Type 0
  TakesAgent a =
      ((text_eq socket_text [] ≡ true) × (a ≡ c.agent))
      ⊎ ((p : SocketPath) × (text_eq socket_text [] ≡ false)
          × (new_socket_path stat socket_text ≡ ok p)
          × (a ≡ some (record { socket_path = p })))

  -- The configuration with a name and an agent, and the domain of the environment, if it has one.
  abbrev pub merged_with : ServiceName → Option AgentConfig → Configuration
  merged_with n a = record {
    name = n;
    domain = if text_eq domain_text [] then c.domain else domain_text;
    cache = c.cache;
    agent = a;
  }

  -- How a merge ends.
  pub data Merge : Configuration × Result ConfigError (Unit {0}) → Type 0 where
    name_refused :
        (e : NameError)
        → text_eq name_text [] ≡ false
        → new_service_name name_text ≡ err e
        → Merge (c, err (bad_name e))
    socket_refused :
        (n : ServiceName) (e : PathError)
        → TakesName n
        → text_eq socket_text [] ≡ false
        → new_socket_path stat socket_text ≡ err e
        → Merge (merged_with n (some (agent_or_zero c.agent)), err (bad_socket e))
    merged :
        (n : ServiceName) (a : Option AgentConfig)
        → TakesName n
        → TakesAgent a
        → Merge (merged_with n a, validate_configuration tags (some (merged_with n a)))

  domain_lem :
      (n : ServiceName)
      → override_domain domain_text (record c { name = n }) ≡ merged_with n c.agent
  domain_lem n = elim (Bool-cases (text_eq domain_text [])) [
    | inl e ↦ rw e refl
    | inr e ↦ rw e refl
  ]

  socket-Merge :
      (n : ServiceName)
      → TakesName n
      → Merge (validated stat tags (override_socket stat socket_text (merged_with n c.agent)))
  socket-Merge n t = elim (Bool-cases (text_eq socket_text [])) [
    | inl e ↦ rw e (merged n c.agent t (inl (e, refl)))
    | inr e ↦ elim (Result-cases (new_socket_path stat socket_text)) [
      | inl (p, q) ↦ rw (e, q) (merged n _ t (inr (p, e, q, refl)))
      | inr (x, q) ↦ rw (e, q) (socket_refused n x t e q)
    ]
  ]

  named-Merge :
      (n : ServiceName)
      → TakesName n
      → Merge (merge_named stat tags env c (ok (record c { name = n })))
  named-Merge n t =
      subst
        (λ (x : Configuration). Merge (validated stat tags (override_socket stat socket_text x)))
        (sym (domain_lem n)) (socket-Merge n t)

  -- A merge ends in one of three ways: the name of the environment is refused, and nothing is
  -- changed; its socket path is refused, with the name, the domain and an agent already in the
  -- configuration; or the configuration has every setting that the environment gives, and the result
  -- is that of its validation.
  pub merge_with_environment-Merge : Merge (merge_with_environment stat tags env c)
  unfolding merge_with_environment
  merge_with_environment-Merge = elim (Bool-cases (text_eq name_text [])) [
    | inl e ↦ rw e (named-Merge c.name (inl (e, refl)))
    | inr e ↦ elim (Result-cases (new_service_name name_text)) [
      | inl (n, q) ↦ rw (e, q) (named-Merge n (inr (e, q)))
      | inr (x, q) ↦ rw (e, q) (name_refused x e q)
    ]
  ]
