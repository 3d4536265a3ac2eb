-- ===== src/Domain/HealthStatus.antt =====
-- internal/core/domain/health_status.go. A component's metadata, which no code reads, is left out.
pub mod Laws
use ephemos.Base.{
  ℕ, zero, suc, ◌+◌, ◌-◌, ◌≤◌, ◌<◌, ◌≡◌, refl, sym, ap, ◌∙◌, ◌≢◌, ◌↔◌, ◌⊎◌, inl, inr, Bool, true,
  false, not, ◌&&◌, ◌||◌, Option, none, some, List, [], ◌∷◌, ◌++◌, map, arith, ltb, leb, ◌==◌,
  if◌then◌else◌, Bool-cases, Option-cases, Result, ok, err, fail_if, wrap, ◌>>=◌, ◌>>◌, length, All,
}
use ephemos.GoText.{Text}
use ephemos.GoTime.{Time, Duration, before, after, sub_time}
use ephemos.Base.Int.{pos}
use ephemos.Services.Keyed.{find, put}

pub record ComponentHealth : Type 0 where
  pub healthy : Bool
  pub last_check : Time
  pub error_message : Text

-- The texts of the status: the one it starts with, and the two of updateOverallHealth.
pub data StatusMessage : Type 0 where
  service_is_healthy all_components_healthy : StatusMessage
  components_unhealthy : ℕ → StatusMessage

pub record HealthStatus : Type 0 where
  pub overall : Bool
  pub components : List (Text × ComponentHealth)
  pub last_updated : Time
  pub message : StatusMessage

-- `NewHealthStatus`.
unfoldable pub new_health_status : Time → HealthStatus
new_health_status now = record {
  overall = true;
  components = [];
  last_updated = now;
  message = service_is_healthy;
}

-- The loop of `updateOverallHealth`: whether every component is healthy, and how many are not.
unfoldable pub tally : List (Text × ComponentHealth) → Bool × ℕ
tally [] = (true, 0)
tally ((name, c) ∷ m) =
    let (overall, count) = tally m in if c.healthy then (overall, count) else (false, count + 1)

unfoldable pub update_overall_health : HealthStatus → HealthStatus
update_overall_health h =
    let (overall, count) = tally h.components in
    record h {
      overall = overall;
      message = if overall then all_components_healthy else components_unhealthy count;
    }

-- `AddComponent`, at a time.
unfoldable pub add_component : Time → Text → ComponentHealth → HealthStatus → HealthStatus
unfolding update_overall_health
add_component now name c h =
    update_overall_health (record h { components = put name c h.components; last_updated = now })

unfoldable pub get_component_health : Text → HealthStatus → Option ComponentHealth
get_component_health name h = find name h.components

pub record RegistrationStatus : Type 0 where
  pub registered : Bool
  pub spiffe_id : Text
  pub selectors : List Text
  pub registered_at : Time
  pub registration_expires_at : Time
  pub registration_error : Text

-- `NewRegistrationStatus`; the zero Time is the start.
unfoldable pub new_registration_status : RegistrationStatus
new_registration_status = record {
  registered = false;
  spiffe_id = [];
  selectors = [];
  registered_at = 0;
  registration_expires_at = 0;
  registration_error = [];
}

unfoldable pub is_registered : Time → RegistrationStatus → Bool
unfolding after
is_registered now r = r.registered && after r.registration_expires_at now

unfoldable pub registration_is_expired : Time → RegistrationStatus → Bool
unfolding before
registration_is_expired now r = r.registered && before r.registration_expires_at now

unfoldable pub time_until_expiry : Time → RegistrationStatus → Duration
unfolding sub_time
time_until_expiry now r = if not r.registered then pos 0 else sub_time r.registration_expires_at now
