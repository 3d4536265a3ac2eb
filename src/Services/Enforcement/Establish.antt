-- ===== src/Services/Enforcement/Establish.antt =====
-- What EstablishMTLSConnection of identity_service.go comes to, with the default invariants.
use ephemos.Base.{
  Result-cases, ◌≡◌, refl, ap, ◌∙◌, inl, inr, Option, none, some, List, [], ◌∷◌, ◌++◌, Result, ok,
  err,
}
use ephemos.GoText.{Text, text}
use ephemos.GoTime.{Time}
use ephemos.Domain.Spiffe.{Sdk}
use ephemos.Domain.Certificate.{Certificate}
use ephemos.Domain.Identity.{ServiceIdentity}
use ephemos.Services.State.{ServiceError}
use ephemos.Services.Registry.{
  Connection, Registry, RegistryError, close_connection, establish_connection,
}
use ephemos.Services.Keyed.{find}
use ephemos.Services.Keyed.Laws.{find-put, find-put-other, find-remove, find-remove-other}
use ephemos.Services.Registry.Rotation.{OthersKept}
use ephemos.Services.Registry.Histories.{History, History-Sound, find-NoTls}
use ephemos.Services.Enforcement.{
  validity_invariant, mutual_auth_invariant, trust_domain_invariant, rotation_invariant,
  identity_invariant, Violation, Invariant, no_tls_state, check_mutual_auth, default_invariants,
  violations, EnforcementError, invariant_violations, validate_connection, verdict, judge, judged,
  establish_with, establish_mtls_connection,
}

-- An error that names the lack of a TLS state.
abbrev pub NamesNoTls : Text → Result EnforcementError (Unit {0}) → Type 0
NamesNoTls id r =
    (vs : List (Text × Violation)) × (ws : List (Text × Violation)) × (r
      ≡ err (invariant_violations id (vs ++ (text "mutual_authentication", no_tls_state) ∷ ws)))

violations-failing :
    (now : Time) (c : Connection) (is : List Invariant) (i : Invariant) (js : List Invariant)
    (v : Violation)
    → i.check now c ≡ err v
    → violations now c (is ++ i ∷ js)
      ≡ violations now c is ++ (i.invariant_name, v) ∷ violations now c js
unfolding violations
violations-failing now c [] i js v h = rw h refl
violations-failing now c (k ∷ is) i js v h = elim (Result-cases (k.check now c)) [
  | inl (u, e) ↦ rw e (violations-failing now c is i js v h)
  | inr (w, e) ↦ rw e (ap (λ vs. (k.invariant_name, w) ∷ vs) (violations-failing now c is i js v h))
]

verdict-NamesNoTls :
    (id : Text) (vs ws : List (Text × Violation))
    → NamesNoTls id (verdict id (vs ++ (text "mutual_authentication", no_tls_state) ∷ ws))
verdict-NamesNoTls id [] ws = ([], ws, refl)
verdict-NamesNoTls id (v ∷ vs) ws = (v ∷ vs, ws, refl)

no-tls :
    (now : Time) (c : Connection) → c.tls_state ≡ none → check_mutual_auth now c ≡ err no_tls_state
unfolding check_mutual_auth
no-tls now c h = rw h refl

pub validate_connection-some :
    (now : Time) (is : List Invariant) (id : Text) (r : Registry) (c : Connection)
    → find id r.connections ≡ some c
    → validate_connection now is id r ≡ verdict id (violations now c is)
unfolding validate_connection
validate_connection-some now is id r c h = rw (h, validate_connection) refl

no-tls-NamesNoTls :
    (sdk : Sdk) (now : Time) (id : Text) (r : Registry) (c : Connection)
    → find id r.connections ≡ some c
    → c.tls_state ≡ none
    → NamesNoTls id (validate_connection now (default_invariants sdk) id r)
unfolding default_invariants
no-tls-NamesNoTls sdk now id r c f h =
    let rest = trust_domain_invariant ∷ rotation_invariant ∷ identity_invariant sdk ∷ [] in
    let e =
      violations-failing now c (validity_invariant ∷ []) mutual_auth_invariant rest no_tls_state
        (no-tls now c h) in
    let (vs, ws, q) =
      verdict-NamesNoTls id (violations now c (validity_invariant ∷ [])) (violations now c rest) in
    (vs, ws, validate_connection-some now _ id r c f ∙ ap (verdict id) e ∙ q)

-- After any sequence of operations on the registry, the validation of a registered connection under
-- the default invariants fails, and names the missing TLS state among the violations.
History-NamesNoTls :
    (sdk : Sdk) (now : Time) (id : Text) (r : Registry) (c : Connection)
    → History r
    → find id r.connections ≡ some c
    → NamesNoTls id (validate_connection now (default_invariants sdk) id r)
History-NamesNoTls sdk now id r c h f =
    no-tls-NamesNoTls sdk now id r c f (find-NoTls id r.connections c (History-Sound r h).0 f)

module _ (sdk : Sdk) (now later : Time) (id : Text) where
  -- Where the call ends: in an error; the other connections are as before, and the ID is not in the
  -- registry if the connection was judged.
  abbrev pub Refused : Registry → Registry × Result EnforcementError Connection → Type 0
  Refused r (r', ok c) = ⊥
  Refused r (r', err e) =
      OthersKept id r r'
      × ((vs : List (Text × Violation))
          → e ≡ invariant_violations id vs
          → find id r'.connections ≡ none)

  judge-Refused :
      (c : Connection) (r q : Registry) (v : Result EnforcementError (Unit {0}))
      → NamesNoTls id v
      → OthersKept id r q
      → Refused r (judge now later (default_invariants sdk) id c q v)
  unfolding close_connection
  judge-Refused c r q (ok u) (vs, ws, n) o = cc
  judge-Refused c r q (err e) n o =
      (λ k h. find-remove-other k id q.connections h ∙ o k h, λ vs h. find-remove id q.connections)

  judged-Refused :
      (r q : Registry) (v : Result RegistryError Connection)
      → NamesNoTls id (validate_connection later (default_invariants sdk) id q)
      → OthersKept id r q
      → Refused r (judged now later (default_invariants sdk) id (q, v))
  judged-Refused r q (err e) n o = (o, λ vs h. cc)
  judged-Refused r q (ok c) n o = judge-Refused c r q _ n o

  establish_with-Refused :
      (remote : Option ServiceIdentity) (cert : Option Certificate) (own : Option ServiceIdentity)
      (r : Registry)
      → Refused r (establish_with now later (default_invariants sdk) id remote cert own r)
  unfolding establish_connection
  establish_with-Refused remote cert none r = (λ k h. refl, λ vs h. cc)
  establish_with-Refused remote cert (some own) r =
      judged-Refused r _ _ (no-tls-NamesNoTls sdk later id _ _ (find-put id _ r.connections) refl)
        (λ k h. find-put-other k id _ r.connections h)

  -- With the default invariants, EstablishMTLSConnection returns no connection, whatever its
  -- arguments and the lookup of the certificate, since no connection is given a TLS state; the other
  -- connections stay as they are, and a connection that was judged is not in the registry any more.
  pub establish_mtls_connection-Refused :
      (cert : Result ServiceError (Option Certificate)) (own remote : Option ServiceIdentity)
      (r : Registry)
      → Refused r
          (establish_mtls_connection now later (default_invariants sdk) id cert own remote r)
  unfolding establish_mtls_connection
  establish_mtls_connection-Refused (err e) own remote r = (λ k h. refl, λ vs h. cc)
  establish_mtls_connection-Refused (ok cert) own remote r =
      establish_with-Refused remote cert own r
