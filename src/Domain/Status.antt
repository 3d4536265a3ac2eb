-- ===== src/Domain/Status.antt =====
-- internal/core/domain/status.go.
pub mod Laws
use ephemos.Base.{
  ℕ, zero, suc, ◌+◌, ◌-◌, ◌≤◌, ◌<◌, ◌≡◌, refl, sym, ap, ◌∙◌, ◌≢◌, ◌↔◌, ◌⊎◌, inl, inr, Bool, true,
  false, not, ◌&&◌, ◌||◌, Option, none, some, List, [], ◌∷◌, ◌++◌, map, arith, ltb, leb, ◌==◌,
  if◌then◌else◌, Bool-cases, Option-cases, Result, ok, err, fail_if, wrap, ◌>>=◌, ◌>>◌, length, All,
}
use ephemos.GoText.{Text, text, text_eq}

-- `Status` is an int: status_other stands for each that is none of the constants.
pub data Status : Type 0 where
  status_unknown status_healthy status_unhealthy status_up status_down : Status
  status_running status_stopped status_active status_inactive : Status
  status_ready status_not_ready status_enabled status_disabled : Status
  status_other : Status

-- `String`.
unfoldable pub status_string : Status → Text
status_string status_unknown = text "unknown"
status_string status_healthy = text "healthy"
status_string status_unhealthy = text "unhealthy"
status_string status_up = text "up"
status_string status_down = text "down"
status_string status_running = text "running"
status_string status_stopped = text "stopped"
status_string status_active = text "active"
status_string status_inactive = text "inactive"
status_string status_ready = text "ready"
status_string status_not_ready = text "not_ready"
status_string status_enabled = text "enabled"
status_string status_disabled = text "disabled"
status_string status_other = text "unknown"

-- The table `stringToStatus`.
abbrev pub status_table : List (Text × Status)
status_table =
    (text "healthy", status_healthy)
    ∷ (text "unhealthy", status_unhealthy)
    ∷ (text "up", status_up)
    ∷ (text "down", status_down)
    ∷ (text "running", status_running)
    ∷ (text "stopped", status_stopped)
    ∷ (text "active", status_active)
    ∷ (text "inactive", status_inactive)
    ∷ (text "ready", status_ready)
    ∷ (text "not_ready", status_not_ready)
    ∷ (text "enabled", status_enabled)
    ∷ (text "disabled", status_disabled)
    ∷ []

unfoldable pub look_up : Text → List (Text × Status) → Option Status
look_up s [] = none
look_up s ((t, v) ∷ table) = let rest = look_up s table in if text_eq t s then some v else rest

-- `ParseStatus`: none is the error.
unfoldable pub parse_status : Text → Option Status
parse_status s = look_up s status_table

unfoldable pub status_is_valid : Status → Bool
status_is_valid status_unknown = false
status_is_valid status_other = false
status_is_valid s = true

unfoldable pub status_is_healthy : Status → Bool
status_is_healthy status_healthy = true
status_is_healthy status_up = true
status_is_healthy status_running = true
status_is_healthy status_active = true
status_is_healthy status_ready = true
status_is_healthy status_enabled = true
status_is_healthy s = false

unfoldable pub status_is_operational : Status → Bool
status_is_operational status_healthy = true
status_is_operational status_up = true
status_is_operational status_running = true
status_is_operational status_active = true
status_is_operational status_ready = true
status_is_operational s = false

unfoldable pub status_is_error : Status → Bool
status_is_error status_unhealthy = true
status_is_error status_down = true
status_is_error status_stopped = true
status_is_error status_inactive = true
status_is_error status_not_ready = true
status_is_error s = false
