-- ===== src/Services/Health.antt =====
-- internal/core/services/health_monitor.go, and the results of internal/core/ports/health.go. Reporters
-- are the log of what they are told.
pub mod Overall
pub mod Loop
use ephemos.Base.{
  ℕ, zero, suc, ◌+◌, ◌-◌, ◌≤◌, ◌<◌, ◌≡◌, refl, sym, ap, ◌∙◌, ◌≢◌, ◌↔◌, ◌⊎◌, inl, inr, Bool, true,
  false, not, ◌&&◌, ◌||◌, Option, none, some, List, [], ◌∷◌, ◌++◌, map, arith, ltb, leb, ◌==◌,
  if◌then◌else◌, Bool-cases, Option-cases, Result, ok, err, fail_if, wrap, ◌>>=◌, ◌>>◌, length, All,
}
use ephemos.GoText.{Text, text, text_eq}
use ephemos.GoTime.{Time, Duration}
use ephemos.Base.Int.{ℤ, pos, ltb_ℤ}
use ephemos.Services.Keyed.{find, put, remove}

pub data HealthStatus : Type 0 where
  healthy unhealthy unknown : HealthStatus

-- The text of a message and the details are left out.
pub record HealthResult : Type 0 where
  pub status : HealthStatus
  pub component : Text
  pub checked_at : Time
  pub response_time : Duration

pub record HealthConfig : Type 0 where
  pub enabled : Bool
  pub timeout : Duration
  pub interval : Duration

-- The goroutine of the monitoring that was started last: it waits, with the stop channel that it read when it began to wait;
-- it runs a check; or it has ended. There is none before the first start.
pub data Monitoring : Type 0 where
  idle checking ended : Monitoring
  selecting : ℕ → Monitoring

-- The stop channels are numbered: the one that the field holds is open, those before it are closed.
pub record Monitor : Type 0 where
  pub health_config : HealthConfig
  pub checkers : List (Text × Unit {0})
  pub results : List (Text × HealthResult)
  pub reports : List HealthResult
  pub stop_channel : ℕ
  pub monitoring : Bool
  pub loop : Monitoring

pub data MonitorError : Type 0 where
  nil_config no_name not_registered already_running not_running : MonitorError
  interrupted : List (Text × HealthResult) → MonitorError

-- `NewHealthMonitorService`.
unfoldable pub new_monitor : Option HealthConfig → Result MonitorError Monitor
new_monitor none = err nil_config
new_monitor (some c) = ok (record {
  health_config = c;
  checkers = [];
  results = [];
  reports = [];
  stop_channel = 0;
  monitoring = false;
  loop = idle;
})

-- `RegisterChecker`, of a checker by its name.
unfoldable pub register_checker : Text → Monitor → Monitor × Result MonitorError (Unit {0})
register_checker name h =
    if text_eq name []
    then (h, err no_name)
    else (record h { checkers = put name tt h.checkers }, ok tt)

-- `UnregisterChecker`.
unfoldable pub unregister_checker : Text → Monitor → Monitor × Result MonitorError (Unit {0})
unregister_checker name h = elim (find name h.checkers) [
  | none ↦ (h, err not_registered)
  | some u ↦
      (record h { checkers = remove name h.checkers; results = remove name h.results }, ok tt)
]

-- What a check of a component comes to: a check that fails is a result of unknown health.
abbrev pub outcome : Time → Text → Result Text HealthResult → HealthResult
outcome now name (ok r) = r
outcome now name (err e) = record {
  status = unknown;
  component = name;
  checked_at = now;
  response_time = pos 0;
}

-- The results of one check, put into the map as they arrive.
unfoldable pub collect :
    Time
    → (Text → Result Text HealthResult)
    → List Text
    → List (Text × HealthResult)
    → List (Text × HealthResult)
collect now answer [] results = results
collect now answer (name ∷ names) results =
    collect now answer names (put name (outcome now name (answer name)) results)

-- `CheckAll`: the names in the order in which their results arrive; where the context ends before all
-- have arrived, the results go to the caller and are not stored.
unfoldable pub check_all :
    Time
    → (Text → Result Text HealthResult)
    → List Text
    → Monitor
    → Monitor × Result MonitorError (List (Text × HealthResult))
check_all now answer arrivals h =
    let found = collect now answer arrivals [] in
    if length h.checkers == 0
    then (h, ok [])
    else if length arrivals == length h.checkers
    then (
      record h {
        results = collect now answer arrivals h.results;
        reports = h.reports ++ map (λ kr. kr.1) found;
      },
      ok found,
    )
    else (h, err (interrupted found))

unfoldable pub is_healthy_status : HealthStatus → Bool
is_healthy_status healthy = true
is_healthy_status unhealthy = false
is_healthy_status unknown = false

unfoldable pub healthy_count : List (Text × HealthResult) → ℕ
healthy_count [] = 0
healthy_count ((k, r) ∷ rs) = (if is_healthy_status r.status then 1 else 0) + healthy_count rs

-- `GetOverallHealth`.
unfoldable pub get_overall_health : Monitor → HealthStatus
get_overall_health h =
    if length h.results == 0
    then unknown
    else if healthy_count h.results == length h.results
    then healthy
    else unhealthy

-- `StartMonitoring`.
unfoldable pub start_monitoring : Monitor → Monitor × Result MonitorError (Unit {0})
start_monitoring h =
    if not h.health_config.enabled
    then (h, ok tt)
    else if h.monitoring
    then (h, err already_running)
    else (record h { monitoring = true; loop = selecting h.stop_channel }, ok tt)

-- `StopMonitoring`: the open channel is closed, and the field holds a new one.
unfoldable pub stop_monitoring : Monitor → Monitor × Result MonitorError (Unit {0})
stop_monitoring h =
    if h.monitoring
    then (record h { monitoring = false; stop_channel = h.stop_channel + 1 }, ok tt)
    else (h, err not_running)

-- `getCheckTimeout`.
unfoldable pub check_timeout : HealthConfig → Duration
check_timeout c = if ltb_ℤ (pos 0) c.timeout then c.timeout else pos 10_000_000_000

-- The steps of `monitoringLoop`: the ticker starts a check; at its end the loop reads the stop channel
-- again; a loop that waits on a closed channel ends.
abbrev pub after_tick : Monitoring → Monitoring
after_tick idle = idle
after_tick checking = checking
after_tick ended = ended
after_tick (selecting n) = checking

abbrev pub after_check : ℕ → Monitoring → Monitoring
after_check channel idle = idle
after_check channel checking = selecting channel
after_check channel ended = ended
after_check channel (selecting n) = selecting n

abbrev pub after_stop : ℕ → Monitoring → Monitoring
after_stop channel idle = idle
after_stop channel checking = checking
after_stop channel ended = ended
after_stop channel (selecting n) = if ltb n channel then ended else selecting n

unfoldable pub tick : Monitor → Monitor
tick h = record h { loop = after_tick h.loop }

unfoldable pub end_check : Monitor → Monitor
end_check h = record h { loop = after_check h.stop_channel h.loop }

unfoldable pub observe_stop : Monitor → Monitor
observe_stop h = record h { loop = after_stop h.stop_channel h.loop }
