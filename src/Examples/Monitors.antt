-- ===== src/Examples/Monitors.antt =====
-- The health monitor, and the health status of the domain.
use ephemos.Domain.HealthStatus.{
  ComponentHealth, RegistrationStatus, new_health_status, add_component, update_overall_health,
  tally,
}
use ephemos.Domain.HealthStatus.Laws.{Update, add_all}
use ephemos.Base.Int.{pos}
use ephemos.Base.{List, false, ◌≡◌, refl, ◌≢◌, true, some, [], ◌∷◌, Result, ok, err, length}
use ephemos.GoText.{Text, text}
use ephemos.Services.Keyed.{find, put}
use ephemos.Services.Health.{
  Monitor, HealthResult, healthy, checking, ended, not_running, check_all, stop_monitoring,
  end_check,
}
use ephemos.Services.Health.Loop.{now, ends, stop_monitoring-Later}
use ephemos.Services.Health.Overall.{ResultOf, Arrived, check_all_lem}

-- A monitor of one component, in a check.
abbrev monitor : Monitor
monitor = record {
  health_config = record { enabled = true; timeout = pos 0; interval = pos 0 };
  checkers = (text "agent", tt) ∷ [];
  results = [];
  reports = [];
  stop_channel = 0;
  monitoring = true;
  loop = checking;
}

abbrev answer : Text → Result Text HealthResult
answer name =
    ok (record { status = healthy; component = name; checked_at = 3; response_time = pos 1 })

abbrev stopped : Monitor
stopped = (stop_monitoring monitor).0

stop_monitoring-Later_example :
    ((end_check stopped).loop ≢ ended)
    × (stop_monitoring (end_check stopped) ≡ (end_check stopped, err not_running))
stop_monitoring-Later_example =
    stop_monitoring-Later monitor (end_check stopped) refl refl (ends now)

check_all_lem_example :
    (length (text "agent" ∷ []) ≡ length monitor.checkers
      → (Arrived (text "agent") (text "agent" ∷ [])
          → (r : HealthResult) × (find
                (text "agent")
                (check_all 4 answer (text "agent" ∷ []) monitor).0.results
              ≡ some r)
            × ResultOf 4 (text "agent") (answer (text "agent")) r)
        × (¬ Arrived (text "agent") (text "agent" ∷ [])
            → find (text "agent") (check_all 4 answer (text "agent" ∷ []) monitor).0.results
              ≡ find (text "agent") monitor.results))
    × (length (text "agent" ∷ []) ≢ length monitor.checkers
        → (check_all 4 answer (text "agent" ∷ []) monitor).0 ≡ monitor)
check_all_lem_example = check_all_lem 4 answer (text "agent" ∷ []) monitor (text "agent") (λ e. cc)

abbrev database_down : ComponentHealth
database_down = record { healthy = false; last_check = 4; error_message = text "refused" }

abbrev database_up : ComponentHealth
database_up = record { healthy = true; last_check = 9; error_message = [] }

-- The database is down and comes up again.
abbrev recovery : List Update
recovery = (text "database", database_down, 5) ∷ (text "database", database_up, 10) ∷ []

recovered : (add_all recovery (new_health_status 1)).overall ≡ true
unfolding add_all new_health_status add_component update_overall_health tally put
recovered = refl

abbrev registration : RegistrationStatus
registration = record {
  registered = true;
  spiffe_id = text "spiffe://prod.example.org/pay";
  selectors = text "unix:uid:1000" ∷ [];
  registered_at = 100;
  registration_expires_at = 200;
  registration_error = [];
}
