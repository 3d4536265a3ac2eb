-- ===== src/Services/Enforcement/Meets.antt =====
-- The default invariants of mtls_enforcement_service.go, against what they are meant to ensure.
use ephemos.Services.Enforcement.Establish.{validate_connection-some}
use ephemos.Services.Registry.Histories.{History, History-Sound, find-NoTls}
use ephemos.Base.{
  false, Result, none, none, err, ap, ◌∷◌, List, Result-cases, ℕ, ◌+◌, ◌≤◌, ◌<◌, ◌≡◌, refl, sym,
  ◌∙◌, ◌≢◌, ◌↔◌, ◌⊎◌, inl, inr, Bool, true, not, ◌&&◌, some, [], arith, Bool-cases, ok,
}
use ephemos.Base.Int.{ℤ, wrap_int64_lem, pos, leb_ℤ, ltb_ℤ}
use ephemos.GoText.{Text, text, text_eq}
use ephemos.GoText.Laws.{text_eq_iff}
use ephemos.GoTime.{Time, sub_time, before, after, saturate}
use ephemos.Domain.X509.{X509}
use ephemos.Domain.Spiffe.{Sdk, SpiffeId, id_string}
use ephemos.Domain.Certificate.{Certificate, to_spiffe_id}
use ephemos.Domain.TrustDomain.{TrustDomain, domain_string, domain_is_zero}
use ephemos.Domain.Identity.{ServiceIdentity}
use ephemos.Services.State.{minutes}
use ephemos.Services.Registry.{Connection, rotating, same_state}
use mathlib.Core.Path.{subst}
use ephemos.Services.Enforcement.{
  invariant_violations, validate_connection, find, verdict, Violation, default_invariants,
  Invariant, Registry, violations, age_faults, check_validity, check_mutual_auth,
  check_trust_domain, check_rotation, check_identity, dated,
}

-- A connection with its parts at hand.
pub record Parts : Type 0 where
  pub certificate : Certificate
  pub x509 : X509
  pub own : ServiceIdentity
  pub remote : ServiceIdentity

abbrev pub HasParts : Connection → Parts → Type 0
HasParts c q =
    (c.conn_cert ≡ some q.certificate)
    × (q.certificate.cert ≡ some q.x509)
    × (c.local_identity ≡ some q.own)
    × (c.remote_identity ≡ some q.remote)

validity_iff :
    (now : Time) (c : Connection) (x : X509)
    → dated c.conn_cert ≡ some x
    → (check_validity now c ≡ ok tt) ↔ ((x.not_before ≤ now) × (now ≤ x.not_after))
unfolding check_validity before after
validity_iff now c x h = rw h (ground arith)

-- No connection of the registry has the state of a TLS handshake.
untls : (now : Time) (c : Connection) → c.tls_state ≡ none → check_mutual_auth now c ≢ ok tt
unfolding check_mutual_auth
untls now c h e = cc (rw h at e)

quarter : minutes 15 ≡ pos 900000000000
quarter = wrap_int64_lem (pos 900000000000) (omega arith)

hour_lem : minutes 60 ≡ pos 3600000000000
hour_lem = wrap_int64_lem (pos 3600000000000) (omega arith)

left_iff :
    (now t n : ℕ)
    → n < 9223372036854775807
    → (leb_ℤ (sub_time t now) (pos n) ≡ true) ↔ (t ≤ now + n)
unfolding sub_time saturate
left_iff now t n h = ground arith

age_iff :
    (now t n : ℕ)
    → n < 9223372036854775807
    → (ltb_ℤ (pos n) (sub_time now t) ≡ true) ↔ (t + n < now)
unfolding sub_time saturate
age_iff now t n h = ground arith

ages_lem :
    (x now t : ℕ) (l a r : Bool)
    → (l ≡ true) ↔ (x ≤ now + 900000000000)
    → (a ≡ true) ↔ (t + 3600000000000 < now)
    → (age_faults (l && not r) a ≡ ok tt)
      ↔ (((r ≡ true) ⊎ (now + 900000000000 < x)) × (now ≤ t + 3600000000000))
ages_lem x now t l a r h k = ground arith

rotation_iff :
    (now : Time) (c : Connection) (x : X509)
    → dated c.conn_cert ≡ some x
    → (check_rotation now c ≡ ok tt) ↔ (
        ((same_state c.state rotating ≡ true) ⊎ (now + 900000000000 < x.not_after))
        × (now ≤ c.last_rotated + 3600000000000))
unfolding check_rotation
rotation_iff now c x h = rw h (
    ages_lem x.not_after now c.last_rotated _ _ _
      (subst
        (λ (d : ℤ).
          (leb_ℤ (sub_time x.not_after now) d ≡ true) ↔ (x.not_after ≤ now + 900000000000))
        (sym quarter) (left_iff now x.not_after 900000000000 (omega arith)))
      (subst
        (λ (d : ℤ).
          (ltb_ℤ d (sub_time now c.last_rotated) ≡ true) ↔ (c.last_rotated + 3600000000000 < now))
        (sym hour_lem) (age_iff now c.last_rotated 3600000000000 (omega arith))))

domain_string-empty : (d : TrustDomain) → (text_eq (domain_string d) [] ≡ true) ↔ (d.td ≡ [])
unfolding domain_string domain_is_zero
domain_string-empty d = elim (Bool-cases (text_eq d.td [])) [
  | inl e ↦ rw e (λ h. (text_eq_iff d.td []).0 e, λ h. (text_eq_iff [] []).1 refl)
  | inr e ↦ rw (e, e) (λ h. cc, λ h. cc (sym e ∙ (text_eq_iff d.td []).1 h))
]

domain_iff :
    (now : Time) (c : Connection) (l r : ServiceIdentity)
    → c.local_identity ≡ some l
    → c.remote_identity ≡ some r
    → (check_trust_domain now c ≡ ok tt) ↔ ((l.domain.td ≢ []) × (r.domain.td ≢ []))
unfolding check_trust_domain domain_string domain_is_zero
domain_iff now c l r h k =
    rw (h, k) (ground (arith, domain_string-empty l.domain, domain_string-empty r.domain))

module _ (sdk : Sdk) where
  identity_iff :
      (now : Time) (c : Connection) (d : Certificate) (l : ServiceIdentity)
      → c.conn_cert ≡ some d
      → c.local_identity ≡ some l
      → (check_identity sdk now c ≡ ok tt)
        ↔ ((id : SpiffeId) × (to_spiffe_id sdk d ≡ ok id) × (id_string id ≡ l.uri))
  unfolding check_identity
  identity_iff now c d l h k =
      rw (h, k)
        elim (Result-cases (to_spiffe_id sdk d)) [
          | inl (id, e) ↦ rw e (ground (arith, text_eq_iff (id_string id) l.uri))
          | inr (v, e) ↦ rw e (ground arith)
        ]

-- The names among the violations.
abbrev pub Violated : Text → List (Text × Violation) → Type 0
Violated n [] = ⊥
Violated n ((k, v) ∷ vs) = (k ≡ n) ⊎ Violated n vs

verdict-Violated :
    (id n : Text) (vs : List (Text × Violation))
    → Violated n vs
    → verdict id vs ≡ err (invariant_violations id vs)
verdict-Violated id n [] h = absurd h
verdict-Violated id n (v ∷ vs) h = refl

-- An invariant of the name fails.
abbrev FailsIf : Bool → Type 0 → Type 0 → Type 0
FailsIf true here later = here ⊎ later
FailsIf false here later = later

abbrev Fails : Time → Connection → Text → List Invariant → Type 0
Fails now c n [] = ⊥
Fails now c n (i ∷ is) =
    FailsIf (text_eq i.invariant_name n) (i.check now c ≢ ok tt) (Fails now c n is)

never_true : false ≡ true → ⊥
never_true h = cc

trans_iff : {A B C : Type 0} → A ↔ B → B ↔ C → A ↔ C
trans_iff (f, g) (h, k) = (λ a. h (f a), λ c. g (k c))

passes :
    (b : Bool) (here later : Type 0) (rest : Type 0)
    → ¬ here
    → rest ↔ later
    → rest ↔ FailsIf b here later
passes true here later rest n (f, g) =
    (λ h. inr (f h), λ h. elim h [ inl x ↦ absurd (n x) | inr x ↦ g x ])
passes false here later rest n e = e

stops :
    (b : Bool) (same here later rest : Type 0)
    → here
    → (b ≡ true) ↔ same
    → rest ↔ later
    → (same ⊎ rest) ↔ FailsIf b here later
stops true same here later rest x (p, q) (f, g) = (
  λ h. elim h [ inl k ↦ inl x | inr y ↦ inr (f y) ],
  λ h. elim h [ inl k ↦ inl (p refl) | inr y ↦ inr (g y) ],
)
stops false same here later rest x (p, q) (f, g) =
    (λ h. elim h [ inl k ↦ absurd (never_true (q k)) | inr y ↦ f y ], λ h. inr (g h))

violations-Fails :
    (now : Time) (c : Connection) (n : Text) (is : List Invariant)
    → Violated n (violations now c is) ↔ Fails now c n is
unfolding violations
violations-Fails now c n [] = (λ h. h, λ h. h)
violations-Fails now c n (i ∷ is) = elim (Result-cases (i.check now c)) [
  | inl (u, e) ↦
      rw e (passes (text_eq i.invariant_name n) _ _ _ (λ x. x refl) (violations-Fails now c n is))
  | inr (v, e) ↦ rw e (
      stops (text_eq i.invariant_name n) _ _ _ _ (λ x. cc) (text_eq_iff i.invariant_name n)
        (violations-Fails now c n is))
]

-- A check that is good exactly under a condition fails exactly against it.
failing :
    {r : Result Violation (Unit {0})} {P : Type 0} → (r ≡ ok tt) ↔ P → ((r ≢ ok tt) ⊎ ⊥) ↔ (¬ P)
failing (f, g) = (λ h. elim h [ inl n ↦ λ p. n (g p) | inr x ↦ absurd x ], λ n. inl (λ e. n (f e)))

module _ (sdk : Sdk) (now : Time) (id : Text) (r : Registry) (c : Connection) (q : Parts) where
  -- Which of the five invariants a connection violates.
  abbrev pub Violates : List (Text × Violation) → Type 0
  Violates vs =
      Violated (text "mutual_authentication") vs
      × (Violated (text "certificate_validity") vs
          ↔ (¬ ((q.x509.not_before ≤ now) × (now ≤ q.x509.not_after))))
      × (Violated (text "trust_domain_validation") vs
          ↔ (¬ ((q.own.domain.td ≢ []) × (q.remote.domain.td ≢ []))))
      × (Violated (text "certificate_rotation") vs ↔ (
          ¬ (
            ((same_state c.state rotating ≡ true) ⊎ (now + 900000000000 < q.x509.not_after))
            × (now ≤ c.last_rotated + 3600000000000))))
      × (Violated (text "identity_matching") vs ↔ (
          ¬ ((i : SpiffeId) × (to_spiffe_id sdk q.certificate ≡ ok i) × (id_string i ≡ q.own.uri))))

  violations-Violates :
      c.tls_state ≡ none → HasParts c q → Violates (violations now c (default_invariants sdk))
  unfolding default_invariants
  violations-Violates t (h, k, l, m) =
      let is = default_invariants sdk in
      let x = ap dated h ∙ k in
      (
        (violations-Fails now c (text "mutual_authentication") is).1 (inl (untls now c t)),
        trans_iff (violations-Fails now c (text "certificate_validity") is)
            (failing (validity_iff now c q.x509 x)),
        trans_iff (violations-Fails now c (text "trust_domain_validation") is)
            (failing (domain_iff now c q.own q.remote l m)),
        trans_iff (violations-Fails now c (text "certificate_rotation") is)
            (failing (rotation_iff now c q.x509 x)),
        trans_iff (violations-Fails now c (text "identity_matching") is)
            (failing (identity_iff sdk now c q.certificate q.own h l)),
      )

  -- After any sequence of operations on a registry, a registered connection that has a certificate
  -- and both identities fails the default invariants, and the error lists: mutual_authentication
  -- always, since there is never a TLS state; certificate_validity exactly if the certificate's
  -- dates do not enclose the time; trust_domain_validation exactly if a trust domain has no name;
  -- certificate_rotation exactly if 15 minutes or less are left with no rotation on, or the last
  -- rotation is more than an hour old; identity_matching exactly if the certificate's SPIFFE ID is
  -- not the own identity. The last four are stated as the negations of what the invariants ask.
  pub validate_connection-Violates :
      History r
      → find id r.connections ≡ some c
      → HasParts c q
      → (vs : List (Text × Violation)) × (validate_connection now (default_invariants sdk) id r
          ≡ err (invariant_violations id vs))
        × Violates vs
  validate_connection-Violates past f parts =
      let is = default_invariants sdk in
      let t = find-NoTls id r.connections c (History-Sound r past).0 f in
      let v = violations-Violates t parts in
      (
        violations now c is,
        validate_connection-some now is id r c f
            ∙ verdict-Violated id (text "mutual_authentication") (violations now c is) v.0,
        v,
      )
