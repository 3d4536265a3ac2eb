-- ===== src/Services/Continuity.antt =====
-- internal/core/services/rotation_continuity_service.go. A server or client is a handle; what happens
-- around one rotation, the answers of the identity service and which waits are cut short, is an argument.
pub mod Outcomes
use ephemos.Base.{
  ℕ, zero, suc, ◌+◌, ◌-◌, ◌≤◌, ◌<◌, ◌≡◌, refl, sym, ap, ◌∙◌, ◌≢◌, ◌↔◌, ◌⊎◌, inl, inr, Bool, true,
  false, not, ◌&&◌, ◌||◌, Option, none, some, List, [], ◌∷◌, ◌++◌, map, arith, ltb, leb, ◌==◌,
  if◌then◌else◌, Bool-cases, Option-cases, Result, ok, err, fail_if, wrap, ◌>>=◌, ◌>>◌, length, All,
}
use ephemos.GoText.{Text, text}
use ephemos.GoTime.{Time, Duration}
use ephemos.Base.Int.{ℤ, pos}
use ephemos.Domain.Certificate.{Certificate}
use ephemos.Services.State.{Stop, failed_with, crashes, hangs, reply, ServiceError, minutes}
use ephemos.Services.Keyed.{put, remove}
use ephemos.Services.Registry.{has_dates}

pub data Phase : Type 0 where
  preparation overlap validation completion phase_failed : Phase

unfoldable pub phase_string : Phase → Text
phase_string preparation = text "preparation"
phase_string overlap = text "overlap"
phase_string validation = text "validation"
phase_string completion = text "completion"
phase_string phase_failed = text "failed"

-- `ContinuityServerPair` and `ContinuityClientPair`.
pub record Pair : Type 0 where
  pub old_end : ℕ
  pub new_end : ℕ
  pub started_at : Time
  pub phase : Phase
  pub old_cert : Option Certificate
  pub new_cert : Option Certificate

pub record ContinuityPolicy : Type 0 where
  pub overlap_duration : Duration
  pub graceful_shutdown_timeout : Duration
  pub pre_rotation_prep_time : Duration
  pub post_rotation_validation_time : Duration
  pub max_concurrent_rotations : ℤ

unfoldable pub default_continuity_policy : ContinuityPolicy
default_continuity_policy = record {
  overlap_duration = minutes 5;
  graceful_shutdown_timeout = pos 30_000_000_000;
  pre_rotation_prep_time = pos 30_000_000_000;
  post_rotation_validation_time = pos 30_000_000_000;
  max_concurrent_rotations = pos 2;
}

-- The tables of active rotations, and the old servers whose `Stop` was called, in order.
pub record Continuity : Type 0 where
  pub continuity_policy : ContinuityPolicy
  pub active_servers : List (Text × Pair)
  pub active_clients : List (Text × Pair)
  pub stopped : List ℕ

-- `NewRotationContinuityService`.
unfoldable pub new_continuity : Continuity
new_continuity = record {
  continuity_policy = default_continuity_policy;
  active_servers = [];
  active_clients = [];
  stopped = [];
}

-- `SetContinuityPolicy`.
unfoldable pub set_continuity_policy : ContinuityPolicy → Continuity → Continuity
set_continuity_policy policy s = record s { continuity_policy = policy }

pub data ContinuityError : Type 0 where
  crash endless cancelled : ContinuityError
  not_created no_fresh_certificate no_current_certificate : ServiceError → ContinuityError
  refused_in_overlap refused_in_validation : ServiceError → ContinuityError

pub record Course : Type 0 where
  -- `CreateServerIdentity` or `CreateClientIdentity`, and `GetCertificate` behind it, twice; none is
  -- a call that never returns.
  pub created : Option (Result ServiceError ℕ)
  pub fresh_certificate : Option (Result ServiceError (Option Certificate))
  pub current_certificate : Option (Result ServiceError (Option Certificate))
  -- The preparation time passed before the context was done.
  pub prepared : Bool
  -- The overlap ended by a deadline: its own, or the caller's.
  pub overlapped : Bool
  -- `ValidateServiceIdentity`, in the overlap and in the validation.
  pub first_check : Option Certificate → Option (Result ServiceError (Unit {0}))
  pub second_check : Option Certificate → Option (Result ServiceError (Unit {0}))

-- What a call that is not good makes of the rotation.
abbrev pub stopped_by : (ServiceError → ContinuityError) → Stop → ContinuityError
stopped_by f (failed_with e) = f e
stopped_by f crashes = crash
stopped_by f hangs = endless

abbrev pub answered {ℓ} :
    {A : Type ℓ}
    → (ServiceError → ContinuityError)
    → Option (Result ServiceError A)
    → Result ContinuityError A
answered f o = wrap (stopped_by f) (reply o)

-- `validateNewServer` and `validateNewClient`: behind the check a debug line reads the dates.
abbrev pub validate_new :
    (ServiceError → ContinuityError)
    → Option Certificate
    → Result Stop (Unit {0})
    → Result ContinuityError (Unit {0})
validate_new f cert (err e) = err (stopped_by f e)
validate_new f cert (ok u) = if has_dates cert then ok tt else err crash

-- The phases behind the registration: the one in which they end, and how.
abbrev pub validation_phase :
    Course
    → Option Certificate
    → Result ContinuityError (Unit {0})
    → Phase × Result ContinuityError (Unit {0})
validation_phase a cert (err e) = (validation, err e)
validation_phase a cert (ok u) = (completion, ok tt)

abbrev pub overlap_phase :
    Course
    → Option Certificate
    → Result ContinuityError (Unit {0})
    → Phase × Result ContinuityError (Unit {0})
overlap_phase a cert (err e) = (overlap, err e)
overlap_phase a cert (ok u) =
    if a.overlapped
    then validation_phase a cert
        (validate_new refused_in_validation cert (reply (a.second_check cert)))
    else (overlap, err cancelled)

-- `executeServerRotationPhases` and `executeClientRotationPhases`, up to the stop of the old server.
unfoldable pub execute_phases :
    Course → Option Certificate → Phase × Result ContinuityError (Unit {0})
execute_phases a cert =
    if a.prepared
    then overlap_phase a cert (validate_new refused_in_overlap cert (reply (a.first_check cert)))
    else (preparation, err cancelled)

-- A panic, or a call that never returns, leaves the pair in its phase; an error sets it to failed.
abbrev pub final_phase : Phase → ContinuityError → Phase
final_phase reached crash = reached
final_phase reached endless = reached
final_phase reached e = phase_failed

abbrev pub settle : Pair → Phase → ContinuityError → Pair
settle pair reached e = record pair { phase = final_phase reached e }

module _ (now : Time) (a : Course) (id : Text) (old : ℕ) where
  -- The pair as it is registered, if a new end and both certificates are there.
  unfoldable pub prepare : Result ContinuityError Pair
  prepare = do
    new ← answered not_created a.created
    cert ← answered no_fresh_certificate a.fresh_certificate
    current ← answered no_current_certificate a.current_certificate
    ok (record {
      old_end = old;
      new_end = new;
      started_at = now;
      phase = preparation;
      old_cert = current;
      new_cert = cert;
    })

  abbrev pub finish_server :
      Pair
      → Continuity
      → Phase × Result ContinuityError (Unit {0})
      → Continuity × Result ContinuityError (Unit {0})
  finish_server pair s (reached, err e) =
      (record s { active_servers = put id (settle pair reached e) s.active_servers }, err e)
  finish_server pair s (reached, ok u) = (
    record s {
      active_servers = remove id (put id (record pair { phase = reached }) s.active_servers);
      stopped = s.stopped ++ old ∷ [];
    },
    ok tt,
  )

  abbrev pub run_server :
      Continuity → Result ContinuityError Pair → Continuity × Result ContinuityError (Unit {0})
  run_server s (err e) = (s, err e)
  run_server s (ok pair) = finish_server pair s (execute_phases a pair.new_cert)

  -- `RotateServerWithContinuity`.
  unfoldable pub rotate_server : Continuity → Continuity × Result ContinuityError (Unit {0})
  rotate_server s = run_server s prepare

  abbrev pub finish_client :
      Pair
      → Continuity
      → Phase × Result ContinuityError (Unit {0})
      → Continuity × Result ContinuityError (Unit {0})
  finish_client pair s (reached, err e) =
      (record s { active_clients = put id (settle pair reached e) s.active_clients }, err e)
  finish_client pair s (reached, ok u) = (
    record s {
      active_clients = remove id (put id (record pair { phase = reached }) s.active_clients);
    },
    ok tt,
  )

  abbrev pub run_client :
      Continuity → Result ContinuityError Pair → Continuity × Result ContinuityError (Unit {0})
  run_client s (err e) = (s, err e)
  run_client s (ok pair) = finish_client pair s (execute_phases a pair.new_cert)

  -- `RotateClientWithContinuity`: the old client is left as it is.
  unfoldable pub rotate_client : Continuity → Continuity × Result ContinuityError (Unit {0})
  rotate_client s = run_client s prepare

pub record RotationStats : Type 0 where
  pub active_server_rotations : ℕ
  pub active_client_rotations : ℕ
  pub total_active_rotations : ℕ
  pub max_concurrent_allowed : ℤ

-- `GetRotationStats`.
unfoldable pub get_rotation_stats : Continuity → RotationStats
get_rotation_stats s = record {
  active_server_rotations = length s.active_servers;
  active_client_rotations = length s.active_clients;
  total_active_rotations = length s.active_servers + length s.active_clients;
  max_concurrent_allowed = s.continuity_policy.max_concurrent_rotations;
}
