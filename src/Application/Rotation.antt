-- ===== src/Application/Rotation.antt =====
-- internal/core/application/identity_rotation_service.go. A call reads the clock once; the loops are left
-- out, and a turn of one is a call of check_and_rotate_if_needed or of handle_external_rotation.
pub mod Outcomes
pub mod Lives
use ephemos.Base.{
  ℕ, zero, suc, ◌+◌, ◌-◌, ◌≤◌, ◌<◌, ◌≡◌, refl, sym, ap, ◌∙◌, ◌≢◌, ◌↔◌, ◌⊎◌, inl, inr, Bool, true,
  false, not, ◌&&◌, ◌||◌, Option, none, some, List, [], ◌∷◌, ◌++◌, map, arith, ltb, leb, ◌==◌,
  if◌then◌else◌, Bool-cases, Option-cases, Result, ok, err, fail_if, wrap, ◌>>=◌, ◌>>◌, length, All,
}
use ephemos.Base.{◌%◌}
use ephemos.Base.Int.{ℤ, pos, negsuc, ltb_ℤ}
use ephemos.GoText.{Text}
use ephemos.GoTime.{Time, Duration, before, after, sub_time}
use ephemos.Domain.X509.{X509}
use ephemos.Application.Providers.{
  Svid, Answers, AppError, no_identity_provider, no_bundle_provider, already_running, not_running,
  nil_svid, no_certificates, no_current, current_expired, not_newer, panic, get_svid, refresh,
  get_bundle, not_trusted, Outside, certificate_of,
}

-- A callback is a number that names it.
abbrev pub Callback : Type 0
Callback = ℕ

pub record RotationConfig : Type 0 where
  pub has_identity_provider : Bool
  pub has_bundle_provider : Bool
  pub rotation_threshold : Duration
  pub check_interval : Duration
  pub max_rotation_delay : Duration

pub record RotationService : Type 0 where
  pub rotation_threshold : Duration
  pub check_interval : Duration
  pub max_rotation_delay : Duration
  pub is_running : Bool
  -- Whether `stopChan` is closed.
  pub stop_closed : Bool
  pub current : Option Svid
  pub last_rotation : Time
  pub callbacks : List Callback
  -- The calls of callbacks that were started, with the old SVID and the new one.
  pub notices : List (Callback × Option Svid × Svid)

-- A duration that is 0 is not set.
unfoldable pub or_default : Duration → Duration → Duration
or_default (pos zero) d = d
or_default (pos (suc n)) d = pos (suc n)
or_default (negsuc n) d = negsuc n

-- `NewIdentityRotationService`; the zero Time is the start.
unfoldable pub new_rotation_service : RotationConfig → Result AppError RotationService
new_rotation_service c = do
  fail_if (not c.has_identity_provider) no_identity_provider
  fail_if (not c.has_bundle_provider) no_bundle_provider
  ok (record {
    rotation_threshold = or_default c.rotation_threshold (pos 300_000_000_000);
    check_interval = or_default c.check_interval (pos 60_000_000_000);
    max_rotation_delay = or_default c.max_rotation_delay (pos 30_000_000_000);
    is_running = false;
    stop_closed = false;
    current = none;
    last_rotation = 0;
    callbacks = [];
    notices = [];
  })

-- `isNewerSVID`: issued later, or at the same time with a later expiry.
abbrev pub newer_leaf : X509 → X509 → Bool
newer_leaf old new =
    after new.not_before old.not_before
    || (new.not_before == old.not_before && after new.not_after old.not_after)

unfoldable pub newer_certificates : List X509 → List X509 → Bool
newer_certificates old [] = false
newer_certificates [] (y ∷ new) = true
newer_certificates (x ∷ old) (y ∷ new) = newer_leaf x y

unfoldable pub is_newer_svid : Svid → Svid → Bool
unfolding newer_certificates
is_newer_svid old new = newer_certificates old.certificates new.certificates

-- `validateSVID`, of a pointer, with the SVID that passed.
abbrev pub validate_chain : Outside → Time → Answers → Svid → List X509 → Result AppError Svid
validate_chain o now a s [] = err no_certificates
validate_chain o now a s (leaf ∷ rest) = do
  wrap get_bundle a.trust_bundle
  cert ← certificate_of o now leaf rest s.svid_key
  wrap not_trusted (a.trusted cert)
  ok s

unfoldable pub validate_svid : Outside → Time → Answers → Option Svid → Result AppError Svid
validate_svid o now a none = err nil_svid
validate_svid o now a (some s) = validate_chain o now a s s.certificates

-- `notifyRotationCallbacks`: a goroutine for each callback.
abbrev pub notified : List Callback → Option Svid → Svid → List (Callback × Option Svid × Svid)
notified [] old new = []
notified (f ∷ fs) old new = (f, old, new) ∷ notified fs old new

abbrev pub installed : Time → Svid → RotationService → RotationService
installed now new s = record s {
  current = some new;
  last_rotation = now;
  notices = s.notices ++ notified s.callbacks s.current new;
}

-- Whether there is an SVID and the other one is not newer.
abbrev pub stale : Option Svid → Svid → Bool
stale none new = false
stale (some old) new = not (is_newer_svid old new)

-- The end of a call: an error leaves the service as it is.
abbrev pub settle {ℓ} :
    {A : Type ℓ}
    → RotationService
    → Result AppError A
    → (A → RotationService)
    → RotationService × Result AppError (Unit {0})
settle s (err e) f = (s, err e)
settle s (ok a) f = (f a, ok tt)

-- `Start`.
unfoldable pub start :
    Outside → Time → Answers → RotationService → RotationService × Result AppError (Unit {0})
start o now a s =
    settle s
      (do
        fail_if s.is_running already_running
        svid ← wrap get_svid a.svid
        validate_svid o now a svid)
      (λ new. record s { current = some new; last_rotation = now; is_running = true })

-- `Stop`: closing a closed channel panics, with the lock released and the service still running.
unfoldable pub stop : RotationService → RotationService × Result AppError (Unit {0})
stop s =
    settle s (do fail_if (not s.is_running) not_running; fail_if s.stop_closed panic)
      (λ u. record s { stop_closed = true; is_running = false })

unfoldable pub register_rotation_callback : Callback → RotationService → RotationService
register_rotation_callback f s = record s { callbacks = s.callbacks ++ (f ∷ []) }

abbrev expired_leaf : Time → List X509 → Bool
expired_leaf now [] = false
expired_leaf now (leaf ∷ rest) = after now leaf.not_after

abbrev served : Time → Option Svid → Result AppError Svid
served now none = err no_current
served now (some s) = if expired_leaf now s.certificates then err current_expired else ok s

-- `GetCurrentSVID`.
unfoldable pub get_current_svid : Time → RotationService → Result AppError Svid
get_current_svid now s = served now s.current

-- The new SVID of `rotateIdentity`.
unfoldable pub fetch_newer : Outside → Time → Answers → Option Svid → Result AppError Svid
fetch_newer o now a old = do
  wrap refresh a.refresh_identity
  svid ← wrap get_svid a.svid
  new ← validate_svid o now a svid
  fail_if (stale old new) not_newer
  ok new

-- `rotateIdentity`, and `ForceRotation`.
unfoldable pub rotate_identity :
    Outside → Time → Answers → RotationService → RotationService × Result AppError (Unit {0})
rotate_identity o now a s = settle s (fetch_newer o now a s.current) (λ new. installed now new s)

-- `handleExternalRotation`, of what the watch hands over.
unfoldable pub handle_external_rotation :
    Outside
    → Time
    → Answers
    → Option Svid
    → RotationService
    → RotationService × Result AppError (Unit {0})
handle_external_rotation o now a svid s =
    settle s (do new ← validate_svid o now a svid; fail_if (stale s.current new) not_newer; ok new)
      (λ new. installed now new s)

abbrev pub expires_within : Time → Duration → List X509 → Bool
expires_within now threshold [] = false
expires_within now threshold (leaf ∷ rest) = ltb_ℤ (sub_time leaf.not_after now) threshold

abbrev pub check_current :
    Outside
    → Time
    → Time
    → Answers
    → RotationService
    → Option Svid
    → RotationService × Result AppError (Unit {0})
check_current o now later a s none = (s, err no_current)
check_current o now later a s (some c) =
    if expires_within now s.rotation_threshold c.certificates
    then rotate_identity o later a s
    else (s, ok tt)

-- `checkAndRotateIfNeeded`, which reads the clock, and rotates at a later time, behind the jitter.
unfoldable pub check_and_rotate_if_needed :
    Outside → Time → Time → Answers → RotationService → RotationService × Result AppError (Unit {0})
check_and_rotate_if_needed o now later a s = check_current o now later a s s.current

-- `calculateRotationJitter`: Go's remainder has the dividend's sign; none is the panic at 0.
unfoldable pub rotation_jitter : ℕ → Duration → Option Duration
rotation_jitter nanos (pos zero) = none
rotation_jitter nanos (pos (suc n)) = some (pos (nanos % suc n))
rotation_jitter nanos (negsuc n) = some (pos (nanos % suc n))

pub record RotationMetrics : Type 0 where
  pub last_rotation : Time
  pub time_until_expiry : Duration
  pub is_running : Bool
  pub callback_count : ℕ

abbrev until_expiry : Time → Option Svid → Duration
until_expiry now none = pos 0
until_expiry now (some s) = elim s.certificates [
  | [] ↦ pos 0
  | leaf ∷ rest ↦ sub_time leaf.not_after now
]

unfoldable pub get_rotation_metrics : Time → RotationService → RotationMetrics
get_rotation_metrics now s = record {
  last_rotation = s.last_rotation;
  time_until_expiry = until_expiry now s.current;
  is_running = s.is_running;
  callback_count = length s.callbacks;
}
