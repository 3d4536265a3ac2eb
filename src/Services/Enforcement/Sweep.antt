-- ===== src/Services/Enforcement/Sweep.antt =====
-- What one pass of checkAllInvariants in mtls_enforcement_service.go leaves of the registry.
use mathlib.Core.Path.{subst}
use ephemos.Services.Registry.Histories.{History, History-Sound, some-injective}
use ephemos.Services.Enforcement.{
  add_entry, logs, logs_all, log_fault, ViolationAction, action_log, action_close_connection,
  action_restart_service, action_alert_only,
}
use ephemos.Domain.Identity.{ServiceIdentity}
use ephemos.Base.{
  is_some, Option, ◌↔◌, arith, ok, err, ◌≡◌, refl, sym, ap, ◌∙◌, ◌≢◌, ◌⊎◌, inl, inr, Bool, true,
  false, ◌&&◌, none, some, List, [], ◌∷◌, if◌then◌else◌, Bool-cases, length, All,
}
use ephemos.Base.Int.{pos, leb_ℤ, ◌≤ℤ◌}
use ephemos.GoText.{Text, text_eq}
use ephemos.GoText.Laws.{text_eq_iff}
use ephemos.GoTime.{Time}
use ephemos.Services.Registry.{Connection, Registry, close_connection}
use ephemos.Services.Keyed.{find, remove}
use ephemos.Services.Keyed.Laws.{UniqueKeys, Absent, find-remove, find-remove-other}
use ephemos.Services.Enforcement.{
  Violation, Invariant, violations, EnforcementPolicy, closes, handle_violations, violating,
  check_all_invariants,
}

-- The entries for a key that lead to its closing.
abbrev pub closing : EnforcementPolicy → List (Text × Violation) → Bool
closing p vs = leb_ℤ p.max_violations (pos (length vs)) && closes p.violation_action

-- A key that no listed entry closes.
abbrev pub Spared : EnforcementPolicy → Text → List (Text × List (Text × Violation)) → Type 0
Spared p id es = All (λ (e : Text × List (Text × Violation)). e.0 ≡ id → closing p e.1 ≡ false) es

remove-none :
    (id k : Text) (m : List (Text × Connection)) → find id m ≡ none → find id (remove k m) ≡ none
remove-none id k m h = elim (Bool-cases (text_eq id k)) [
  | inl e ↦
      subst (λ (x : Text). find x (remove k m) ≡ none) (sym ((text_eq_iff id k).0 e))
        (find-remove k m)
  | inr e ↦ find-remove-other id k m (λ q. cc (sym e ∙ (text_eq_iff id k).1 q)) ∙ h
]

handle-none :
    (p : EnforcementPolicy) (id : Text) (es : List (Text × List (Text × Violation))) (r : Registry)
    → find id r.connections ≡ none
    → find id (handle_violations p es r).connections ≡ none
unfolding handle_violations close_connection
handle-none p id [] r h = h
handle-none p id ((k, vs) ∷ es) r h = elim (Bool-cases (closing p vs)) [
  | inl e ↦ rw (e, handle_violations) (handle-none p id es _ (remove-none id k r.connections h))
  | inr e ↦ rw (e, handle_violations) (handle-none p id es r h)
]

handle-Spared :
    (p : EnforcementPolicy) (id : Text) (es : List (Text × List (Text × Violation))) (r : Registry)
    → Spared p id es
    → find id (handle_violations p es r).connections ≡ find id r.connections
unfolding handle_violations close_connection
handle-Spared p id [] r h = refl
handle-Spared p id ((k, vs) ∷ es) r (h, hs) = elim (Bool-cases (closing p vs)) [
  | inl e ↦
      rw (e, handle_violations)
        (handle-Spared p id es _ hs
          ∙ find-remove-other id k r.connections (λ q. cc (sym (h (sym q)) ∙ e)))
  | inr e ↦ rw (e, handle_violations) (handle-Spared p id es r hs)
]

add_entry-Spared :
    (p : EnforcementPolicy) (id k : Text) (vs : List (Text × Violation))
    (es : List (Text × List (Text × Violation)))
    → (k ≡ id → (vs ≡ []) ⊎ (closing p vs ≡ false))
    → Spared p id es
    → Spared p id (add_entry k vs es)
add_entry-Spared p id k [] es h s = s
add_entry-Spared p id k (v ∷ vs) es h s = (λ q. elim (h q) [ inl e ↦ cc e | inr e ↦ e ], s)

violating-Absent :
    (now : Time) (is : List Invariant) (p : EnforcementPolicy) (id : Text)
    (m : List (Text × Connection))
    → Absent id m
    → Spared p id (violating now is m)
unfolding violating
violating-Absent now is p id [] a = tt
violating-Absent now is p id ((k, c) ∷ m) (a, b) =
    add_entry-Spared p id k (violations now c is) _ (λ q. absurd (a q))
      (violating-Absent now is p id m b)

-- The head of a map, and the rest.
find-head :
    (id k : Text) (d c : Connection) (m : List (Text × Connection))
    → find id ((k, d) ∷ m) ≡ some c
    → ((k ≡ id) × (d ≡ c)) ⊎ ((k ≢ id) × (find id m ≡ some c))
unfolding find
find-head id k d c m h = elim (Bool-cases (text_eq k id)) [
  | inl e ↦ inl (
    (text_eq_iff k id).0 e,
    some-injective d c (sym (ap (λ (t : Bool). if t then some d else find id m) e) ∙ h),
  )
  | inr e ↦ inr (
    λ q. cc (sym e ∙ (text_eq_iff k id).1 q),
    sym (ap (λ (t : Bool). if t then some d else find id m) e) ∙ h,
  )
]

violating-Spared :
    (now : Time) (is : List Invariant) (p : EnforcementPolicy) (id : Text) (c : Connection)
    (m : List (Text × Connection))
    → UniqueKeys m
    → find id m ≡ some c
    → (violations now c is ≡ []) ⊎ (closing p (violations now c is) ≡ false)
    → Spared p id (violating now is m)
unfolding violating
violating-Spared now is p id c [] u f h = tt
violating-Spared now is p id c ((k, d) ∷ m) (a, u) f h = elim (find-head id k d c m f) [
  | inl (q, e) ↦
      add_entry-Spared p id k (violations now d is) _
        (λ z.
          subst
            (λ (x : Connection).
              (violations now x is ≡ []) ⊎ (closing p (violations now x is) ≡ false))
            (sym e) h)
        (violating-Absent now is p id m (subst (λ (x : Text). Absent x m) q a))
  | inr (q, g) ↦
      add_entry-Spared p id k (violations now d is) _ (λ z. absurd (q z))
        (violating-Spared now is p id c m u g h)
]

-- Some entry closes the key.
abbrev Struck : EnforcementPolicy → Text → List (Text × List (Text × Violation)) → Type 0
Struck p id [] = ⊥
Struck p id ((k, vs) ∷ es) = ((k ≡ id) × (closing p vs ≡ true)) ⊎ Struck p id es

handle-Struck :
    (p : EnforcementPolicy) (id : Text) (es : List (Text × List (Text × Violation))) (r : Registry)
    → Struck p id es
    → find id (handle_violations p es r).connections ≡ none
unfolding handle_violations close_connection
handle-Struck p id [] r s = absurd s
handle-Struck p id ((k, vs) ∷ es) r (inl (q, e)) =
    rw (e, handle_violations)
      (handle-none p id es _ (
        subst (λ (x : Text). find id (remove x r.connections) ≡ none) (sym q)
          (find-remove id r.connections)))
handle-Struck p id ((k, vs) ∷ es) r (inr s) = handle-Struck p id es _ s

add_entry-Struck :
    (p : EnforcementPolicy) (id k : Text) (vs : List (Text × Violation))
    (es : List (Text × List (Text × Violation)))
    → ((k ≡ id) × (vs ≢ []) × (closing p vs ≡ true)) ⊎ Struck p id es
    → Struck p id (add_entry k vs es)
add_entry-Struck p id k [] es (inl (q, n, e)) = absurd (n refl)
add_entry-Struck p id k [] es (inr s) = s
add_entry-Struck p id k (v ∷ vs) es (inl (q, n, e)) = inl (q, e)
add_entry-Struck p id k (v ∷ vs) es (inr s) = inr s

violating-Struck :
    (now : Time) (is : List Invariant) (p : EnforcementPolicy) (id : Text) (c : Connection)
    (m : List (Text × Connection))
    → find id m ≡ some c
    → violations now c is ≢ []
    → closing p (violations now c is) ≡ true
    → Struck p id (violating now is m)
unfolding violating find
violating-Struck now is p id c [] f n e = cc
violating-Struck now is p id c ((k, d) ∷ m) f n e = elim (find-head id k d c m f) [
  | inl (q, z) ↦ add_entry-Struck p id k (violations now d is) _ (
      inl (
        subst
          (λ (x : Connection).
            (k ≡ id) × (violations now x is ≢ []) × (closing p (violations now x is) ≡ true))
          (sym z) (q, n, e)))
  | inr (q, g) ↦
      add_entry-Struck p id k (violations now d is) _ (inr (violating-Struck now is p id c m g n e))
]

-- A policy that closes a connection with these violations.
abbrev pub Exceeds : EnforcementPolicy → List (Text × Violation) → Type 0
Exceeds p vs =
    (p.violation_action ≡ action_close_connection) × (p.max_violations ≤ℤ pos (length vs))

closes_iff : (a : ViolationAction) → (closes a ≡ true) ↔ (a ≡ action_close_connection)
unfolding closes
closes_iff action_log = (λ h. cc, λ h. cc)
closes_iff action_close_connection = (λ h. refl, λ h. refl)
closes_iff action_restart_service = (λ h. cc, λ h. cc)
closes_iff action_alert_only = (λ h. cc, λ h. cc)

closing_iff :
    (p : EnforcementPolicy) (vs : List (Text × Violation)) → (closing p vs ≡ true) ↔ Exceeds p vs
closing_iff p vs = ground (arith, closes_iff p.violation_action)

closing_not :
    (p : EnforcementPolicy) (vs : List (Text × Violation)) → ¬ Exceeds p vs → closing p vs ≡ false
closing_not p vs n = elim (Bool-cases (closing p vs)) [
  | inl e ↦ absurd (n ((closing_iff p vs).0 e))
  | inr e ↦ e
]

unexceeded :
    (p : EnforcementPolicy) (vs : List (Text × Violation))
    → (vs ≡ []) ⊎ (¬ Exceeds p vs)
    → (vs ≡ []) ⊎ (closing p vs ≡ false)
unexceeded p vs (inl e) = inl e
unexceeded p vs (inr n) = inr (closing_not p vs n)

both_ways : {b : Bool} → b ≡ false → b ≢ true
both_ways f t = cc

-- A connection whose violations, if it has any, can be logged.
abbrev pub IsLogged : Time → List Invariant → Text × Connection → Type 0
IsLogged now is (id, c) =
    (violations now c is ≡ []) ⊎ ((c.local_identity ≢ none) × (c.remote_identity ≢ none))

both_there :
    (l r : Option ServiceIdentity) → ((is_some l && is_some r) ≡ true) ↔ ((l ≢ none) × (r ≢ none))
both_there none r = (λ h. cc, λ h. absurd (h.0 refl))
both_there (some l) none = (λ h. cc, λ h. absurd (h.1 refl))
both_there (some l) (some r) = (λ h. (λ e. cc, λ e. cc), λ h. refl)

logs_iff :
    (vs : List (Text × Violation)) (c : Connection)
    → (logs vs c ≡ true) ↔ ((vs ≡ []) ⊎ ((c.local_identity ≢ none) × (c.remote_identity ≢ none)))
logs_iff [] c = (λ h. inl refl, λ h. refl)
logs_iff (v ∷ vs) c =
    let (f, g) = both_there c.local_identity c.remote_identity in
    (λ h. inr (f h), λ h. elim h [ inl e ↦ cc | inr n ↦ g n ])

logs_all_iff :
    (now : Time) (is : List Invariant) (m : List (Text × Connection))
    → (logs_all now is m ≡ true) ↔ All (IsLogged now is) m
unfolding logs_all
logs_all_iff now is [] = (λ h. tt, λ h. refl)
logs_all_iff now is ((id, c) ∷ m) =
    ground (arith, logs_iff (violations now c is) c, logs_all_iff now is m)

-- After any sequence of operations on a registry: a pass panics in its log and closes nothing
-- exactly if some connection has violations and lacks an identity. Any other pass ends without a
-- fault, and closes a connection if it has violations, at least as many as the policy allows, and
-- the policy's action is to close; any other connection stays as it is.
pub check_all_invariants_lem :
    (now : Time) (is : List Invariant) (p : EnforcementPolicy) (r : Registry) (id : Text)
    (c : Connection)
    → History r
    → find id r.connections ≡ some c
    → (All (IsLogged now is) r.connections
        → ((check_all_invariants now is p r).1 ≡ ok tt)
          × ((violations now c is ≢ []) × Exceeds p (violations now c is)
              → find id (check_all_invariants now is p r).0.connections ≡ none)
          × ((violations now c is ≡ []) ⊎ (¬ Exceeds p (violations now c is))
              → find id (check_all_invariants now is p r).0.connections ≡ some c))
      × ((¬ All (IsLogged now is) r.connections)
          → check_all_invariants now is p r ≡ (r, err log_fault))
unfolding check_all_invariants
check_all_invariants_lem now is p r id c past f =
    let u = (History-Sound r past).1 in
    let (g, g') = logs_all_iff now is r.connections in
    elim (Bool-cases (logs_all now is r.connections)) [
      | inl e ↦ rw e (
        λ logged. (
          refl,
          λ (n, x).
              handle-Struck p id _ r
                (violating-Struck now is p id c r.connections f n ((closing_iff p _).1 x)),
          λ h.
              handle-Spared p id _ r
                (violating-Spared now is p id c r.connections u f (unexceeded p _ h))
              ∙ f,
        ),
        λ n. absurd (n (g e)),
      )
      | inr e ↦ rw e (λ logged. absurd (both_ways e (g' logged)), λ n. refl)
    ]
