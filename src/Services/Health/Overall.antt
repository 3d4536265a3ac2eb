-- ===== src/Services/Health/Overall.antt =====
-- What the results of health_monitor.go come to.
use mathlib.Core.Path.{subst, ◌∙◌}
use ephemos.Base.{ok, err, false, sym, ◌==◌}
use ephemos.Services.Keyed.Laws.{find-put, find-put-other}
use ephemos.GoText.{text_eq}
use ephemos.GoText.Laws.{text_eq_iff}
use ephemos.Base.{
  Bool-cases, inl, some, inr, Result, ◌≤◌, ◌≡◌, refl, ◌≢◌, ◌↔◌, ◌⊎◌, true, List, [], ◌∷◌, arith,
  length, All,
}
use ephemos.GoText.{Text}
use ephemos.Base.Int.{pos}
use ephemos.Services.Health.{
  check_all, put, outcome, find, Time, collect, HealthStatus, healthy, unhealthy, unknown,
  HealthResult, Monitor, is_healthy_status, healthy_count, get_overall_health,
}

abbrev pub AllHealthy : List (Text × HealthResult) → Type 0
AllHealthy rs = All (λ (kr : Text × HealthResult). kr.1.status ≡ healthy) rs

healthy_count_le : (rs : List (Text × HealthResult)) → healthy_count rs ≤ length rs
unfolding healthy_count
healthy_count_le [] = omega arith
healthy_count_le ((k, r) ∷ rs) = ground (arith, healthy_count_le rs)

is_healthy_status_iff : (s : HealthStatus) → (is_healthy_status s ≡ true) ↔ (s ≡ healthy)
unfolding is_healthy_status
is_healthy_status_iff healthy = (λ h. refl, λ h. refl)
is_healthy_status_iff unhealthy = (λ h. cc, λ h. cc)
is_healthy_status_iff unknown = (λ h. cc, λ h. cc)

healthy_count-AllHealthy :
    (rs : List (Text × HealthResult)) → (healthy_count rs ≡ length rs) ↔ AllHealthy rs
unfolding healthy_count
healthy_count-AllHealthy [] = (λ h. tt, λ h. refl)
healthy_count-AllHealthy ((k, r) ∷ rs) =
    let (f, g) = healthy_count-AllHealthy rs in
    let (a, b) = is_healthy_status_iff r.status in
    let le = healthy_count_le rs in
    (λ h. (a (ground arith), f (ground arith)), λ (x, y). ground (arith, b x, g y))

-- The overall health is unknown exactly if there are no results, and healthy exactly if there are
-- results and all are healthy.
get_overall_health_iff :
    (h : Monitor)
    → ((get_overall_health h ≡ unknown) ↔ (h.results ≡ []))
      × ((get_overall_health h ≡ healthy) ↔ ((h.results ≢ []) × AllHealthy h.results))
unfolding get_overall_health
get_overall_health_iff h = ground (arith, healthy_count-AllHealthy h.results)

-- The names among the arrivals.
abbrev pub Arrived : Text → List Text → Type 0
Arrived name [] = ⊥
Arrived name (n ∷ ns) = (n ≡ name) ⊎ Arrived name ns

arrive :
    (now : Time) (answer : Text → Result Text HealthResult) (name n : Text) (names : List Text)
    (rs : List (Text × HealthResult))
    → (find name rs ≡ some (outcome now name (answer name))) ⊎ Arrived name (n ∷ names)
    → (find name (put n (outcome now n (answer n)) rs) ≡ some (outcome now name (answer name)))
      ⊎ Arrived name names
arrive now answer name n names rs h = elim (Bool-cases (text_eq n name)) [
  | inl e ↦ inl (
      subst
        (λ (x : Text).
          find x (put n (outcome now n (answer n)) rs) ≡ some (outcome now x (answer x)))
        ((text_eq_iff n name).0 e) (find-put n (outcome now n (answer n)) rs))
  | inr e ↦ elim h [
    | inl f ↦
        inl (find-put-other name n _ rs (λ q. cc (sym e ∙ (text_eq_iff n name).1 (sym q))) ∙ f)
    | inr (inl q) ↦ cc (sym e ∙ (text_eq_iff n name).1 q)
    | inr (inr a) ↦ inr a
  ]
]

collect-find :
    (now : Time) (answer : Text → Result Text HealthResult) (name : Text) (names : List Text)
    (rs : List (Text × HealthResult))
    → (find name rs ≡ some (outcome now name (answer name))) ⊎ Arrived name names
    → find name (collect now answer names rs) ≡ some (outcome now name (answer name))
unfolding collect
collect-find now answer name [] rs (inl e) = e
collect-find now answer name [] rs (inr a) = absurd a
collect-find now answer name (n ∷ names) rs h =
    collect-find now answer name names _ (arrive now answer name n names rs h)

collect-other :
    (now : Time) (answer : Text → Result Text HealthResult) (name : Text) (names : List Text)
    (rs : List (Text × HealthResult))
    → ¬ Arrived name names
    → find name (collect now answer names rs) ≡ find name rs
unfolding collect
collect-other now answer name [] rs h = refl
collect-other now answer name (n ∷ names) rs h =
    collect-other now answer name names _ (λ a. h (inr a))
    ∙ find-put-other name n _ rs (λ e. h (inl (sym e)))

-- The result that a checker's answer gives for its name: its own, or, where it failed, one of unknown
-- health at that time.
abbrev pub ResultOf : Time → Text → Result Text HealthResult → HealthResult → Type 0
ResultOf now name (ok a) r = r ≡ a
ResultOf now name (err e) r =
    (r.status ≡ unknown) × (r.component ≡ name) × (r.checked_at ≡ now) × (r.response_time ≡ pos 0)

outcome-ResultOf :
    (now : Time) (name : Text) (a : Result Text HealthResult)
    → ResultOf now name a (outcome now name a)
outcome-ResultOf now name (ok r) = refl
outcome-ResultOf now name (err e) = (refl, refl, refl, refl)

-- With checkers registered, a check whose results have all arrived stores for each name that arrived
-- what its checker answered, or, where the checker failed, a result of unknown health under that
-- name with the time of the check and no response time, in whatever order they came, and keeps the
-- other names' results; where not all have arrived, the monitor is unchanged.
pub check_all_lem :
    (now : Time) (answer : Text → Result Text HealthResult) (arrivals : List Text) (h : Monitor)
    (name : Text)
    → length h.checkers ≢ 0
    → (length arrivals ≡ length h.checkers
        → (Arrived name arrivals
            → (r : HealthResult) × (find name (check_all now answer arrivals h).0.results ≡ some r)
              × ResultOf now name (answer name) r)
          × (¬ Arrived name arrivals
              → find name (check_all now answer arrivals h).0.results ≡ find name h.results))
      × (length arrivals ≢ length h.checkers → (check_all now answer arrivals h).0 ≡ h)
unfolding check_all
check_all_lem now answer arrivals h name n =
    let filled : (length h.checkers == 0) ≡ false = ground arith in
    (
      λ e.
          let all_in : (length arrivals == length h.checkers) ≡ true = ground arith in
          (
            λ a. (
              outcome now name (answer name),
              rw (filled, all_in) (collect-find now answer name arrivals h.results (inr a)),
              outcome-ResultOf now name (answer name),
            ),
            λ a. rw (filled, all_in) (collect-other now answer name arrivals h.results a),
          ),
      λ e.
          let missing : (length arrivals == length h.checkers) ≡ false = ground arith in
          rw (filled, missing) refl,
    )
