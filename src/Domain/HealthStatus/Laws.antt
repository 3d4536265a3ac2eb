-- ===== src/Domain/HealthStatus/Laws.antt =====
-- The overall health over all updates, and the three readings of a registration.
use ephemos.Base.{
  ◌≡◌, refl, sym, ap, ◌∙◌, ◌≢◌, ◌↔◌, inl, inr, Bool, true, false, Option, none, some, List, [], ◌∷◌,
  arith, if◌then◌else◌, Bool-cases, All,
}
use mathlib.Core.Path.{subst}
use ephemos.GoText.{Text, text_eq}
use ephemos.GoText.Laws.{text_eq_iff}
use ephemos.GoTime.{saturate, Time, before, after, sub_time}
use ephemos.Base.Int.{pos, ◌<ℤ◌}
use ephemos.Services.Keyed.{find, put}
use ephemos.Services.Keyed.Laws.{find-put, find-put-other, Absent, UniqueKeys, put-UniqueKeys}
use ephemos.Domain.HealthStatus.{
  ComponentHealth, HealthStatus, new_health_status, tally, update_overall_health, add_component,
  get_component_health, RegistrationStatus, is_registered, registration_is_expired,
  time_until_expiry,
}

-- For a registration read at one instant, IsRegistered holds exactly if TimeUntilExpiry is positive,
-- and IsExpired exactly if it is negative, the saturation of the difference included.
time_until_expiry_lem :
    (now : Time) (r : RegistrationStatus)
    → ((is_registered now r ≡ true) ↔ (pos 0 <ℤ time_until_expiry now r))
      × ((registration_is_expired now r ≡ true) ↔ (time_until_expiry now r <ℤ pos 0))
unfolding is_registered registration_is_expired time_until_expiry sub_time saturate before after
time_until_expiry_lem now r = ground arith

-- The updates of a status, the first one first.
abbrev pub Update : Type 0
Update = Text × ComponentHealth × Time

unfoldable pub add_all : List Update → HealthStatus → HealthStatus
add_all [] h = h
add_all ((name, c, now) ∷ us) h = add_all us (add_component now name c h)

AllWell : List (Text × ComponentHealth) → Type 0
AllWell m = All (λ (kc : Text × ComponentHealth). kc.1.healthy ≡ true) m

tally-AllWell : (m : List (Text × ComponentHealth)) → ((tally m).0 ≡ true) ↔ AllWell m
unfolding tally AllWell
tally-AllWell [] = (λ h. tt, λ h. refl)
tally-AllWell ((k, c) ∷ m) = ground (arith, tally-AllWell m)

find-Absent : (k : Text) (m : List (Text × ComponentHealth)) → Absent k m → find k m ≡ none
unfolding find
find-Absent k [] a = refl
find-Absent k ((l, d) ∷ m) (n, a) = elim (Bool-cases (text_eq l k)) [
  | inl e ↦ absurd (n ((text_eq_iff l k).0 e))
  | inr e ↦ rw e (find-Absent k m a)
]

find-here :
    (k name : Text) (d : ComponentHealth) (m : List (Text × ComponentHealth))
    → text_eq k name ≡ true
    → find name ((k, d) ∷ m) ≡ some d
unfolding find
find-here k name d m e = rw e refl

find-later :
    (k name : Text) (d : ComponentHealth) (m : List (Text × ComponentHealth))
    → text_eq k name ≡ false
    → find name ((k, d) ∷ m) ≡ find name m
unfolding find
find-later k name d m e = rw e refl

some_eq : (c d : ComponentHealth) → some c ≡ some d → c ≡ d
some_eq c d e = cc

none-some : (c : ComponentHealth) → none ≡ some c → c.healthy ≡ true
none-some c e = cc

found-nowhere : (name : Text) (c : ComponentHealth) → find name [] ≡ some c → c.healthy ≡ true
unfolding find
found-nowhere name c h = none-some c h

found-AllWell :
    (m : List (Text × ComponentHealth)) (name : Text) (c : ComponentHealth)
    → AllWell m
    → find name m ≡ some c
    → c.healthy ≡ true
unfolding AllWell
found-AllWell [] name c a h = found-nowhere name c h
found-AllWell ((k, d) ∷ m) name c (x, a) h = elim (Bool-cases (text_eq k name)) [
  | inl e ↦
      ap (λ (y : ComponentHealth). y.healthy) (some_eq c d (sym h ∙ find-here k name d m e)) ∙ x
  | inr e ↦ found-AllWell m name c a (sym (find-later k name d m e) ∙ h)
]

AllWell-found :
    (m : List (Text × ComponentHealth))
    → UniqueKeys m
    → ((name : Text) (c : ComponentHealth) → find name m ≡ some c → c.healthy ≡ true)
    → AllWell m
unfolding AllWell
AllWell-found [] u h = tt
AllWell-found ((k, d) ∷ m) (a, u) h = (
  h k d (find-here k k d m ((text_eq_iff k k).1 refl)),
  AllWell-found m u (λ name c q. elim (Bool-cases (text_eq k name)) [
    | inl e ↦
        none-some c
          (sym (find-Absent k m a) ∙ ap (λ (x : Text). find x m) ((text_eq_iff k name).0 e) ∙ q)
    | inr e ↦ h name c (find-later k name d m e ∙ q)
  ]),
)

abbrev or_else : Option ComponentHealth → Option ComponentHealth → Option ComponentHealth
or_else (some c) o = some c
or_else none o = o

-- The last component that the updates give a name.
abbrev pub latest : Text → List Update → Option ComponentHealth
latest name [] = none
latest name ((n, c, now) ∷ us) =
    let later = latest name us in or_else later (if text_eq n name then some c else none)

-- A status whose keys are distinct and whose flag says if all are healthy.
record IsTallied (h : HealthStatus) : Type 0 where
  pub unique : UniqueKeys h.components
  pub tallied : h.overall ≡ (tally h.components).0

add_component-IsTallied :
    (now : Time) (name : Text) (c : ComponentHealth) (h : HealthStatus)
    → IsTallied h
    → IsTallied (add_component now name c h)
unfolding add_component update_overall_health
add_component-IsTallied now name c h t = record {
  unique = put-UniqueKeys name c h.components t.unique;
  tallied = refl;
}

add_all-IsTallied : (us : List Update) (h : HealthStatus) → IsTallied h → IsTallied (add_all us h)
unfolding add_all
add_all-IsTallied [] h t = t
add_all-IsTallied ((name, c, now) ∷ us) h t =
    add_all-IsTallied us (add_component now name c h) (add_component-IsTallied now name c h t)

false-true : false ≢ true
false-true h = cc

add_component-find :
    (now : Time) (name n : Text) (c : ComponentHealth) (h : HealthStatus)
    → get_component_health name (add_component now n c h)
      ≡ (if text_eq n name then some c else get_component_health name h)
unfolding add_component update_overall_health get_component_health
add_component-find now name n c h = elim (Bool-cases (text_eq n name)) [
  | inl e ↦ rw e (
      subst (λ (x : Text). find x (put n c h.components) ≡ some c) ((text_eq_iff n name).0 e)
        (find-put n c h.components))
  | inr e ↦ rw e (
      find-put-other name n c h.components
        (λ q. false-true (sym e ∙ (text_eq_iff n name).1 (sym q))))
]

choose :
    (o : Option ComponentHealth) (b : Bool) (c : ComponentHealth) (p : Option ComponentHealth)
    → or_else o (if b then some c else p) ≡ or_else (or_else o (if b then some c else none)) p
choose (some d) b c p = refl
choose none true c p = refl
choose none false c p = refl

add_all-find :
    (name : Text) (us : List Update) (h : HealthStatus)
    → get_component_health name (add_all us h)
      ≡ or_else (latest name us) (get_component_health name h)
unfolding add_all
add_all-find name [] h = refl
add_all-find name ((n, c, now) ∷ us) h =
    add_all-find name us (add_component now n c h)
    ∙ ap (or_else (latest name us)) (add_component-find now name n c h)
    ∙ choose (latest name us) (text_eq n name) c (get_component_health name h)

new-IsTallied : (start : Time) → IsTallied (new_health_status start)
unfolding new_health_status tally
new-IsTallied start = record { unique = tt; tallied = refl }

or_else-none : (o : Option ComponentHealth) → or_else o none ≡ o
or_else-none none = refl
or_else-none (some c) = refl

add_all-components :
    (name : Text) (us : List Update) (start : Time)
    → find name (add_all us (new_health_status start)).components ≡ latest name us
unfolding get_component_health new_health_status find
add_all-components name us start =
    add_all-find name us (new_health_status start) ∙ or_else-none (latest name us)

-- After any sequence of AddComponent on a new status, the status is healthy overall exactly if, for
-- every name, the last component that was given under it is healthy.
add_all-overall :
    (us : List Update) (start : Time)
    → ((add_all us (new_health_status start)).overall ≡ true)
      ↔ ((name : Text) (c : ComponentHealth) → latest name us ≡ some c → c.healthy ≡ true)
add_all-overall us start =
    let h = add_all us (new_health_status start) in
    let t = add_all-IsTallied us (new_health_status start) (new-IsTallied start) in
    let (f, g) = tally-AllWell h.components in
    (
      λ e name c l.
          found-AllWell h.components name c (f (sym t.tallied ∙ e))
            (add_all-components name us start ∙ l),
      λ w.
          t.tallied
          ∙ g (
              AllWell-found h.components t.unique
                (λ name c q. w name c (sym (add_all-components name us start) ∙ q))),
    )
