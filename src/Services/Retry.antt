-- ===== src/Services/Retry.antt =====
-- The loops fetchCertificateWithRetry and fetchTrustBundleWithRetry of identity_service.go. The provider
-- is what it answers to each attempt; the loop's log of metrics and pauses is part of its result.
pub mod Laws
use ephemos.Base.{
  ℕ, zero, suc, ◌+◌, ◌-◌, ◌≤◌, ◌<◌, ◌≡◌, refl, sym, ap, ◌∙◌, ◌≢◌, ◌↔◌, ◌⊎◌, inl, inr, Bool, true,
  false, not, ◌&&◌, ◌||◌, Option, none, some, List, [], ◌∷◌, ◌++◌, map, arith, ltb, leb, ◌==◌,
  if◌then◌else◌, Bool-cases, Option-cases, Result, ok, err, fail_if, wrap, ◌>>=◌, ◌>>◌, length, All,
}
use ephemos.GoText.{Text}
use ephemos.Base.{◌^◌, ◌*◌}

-- The reasons that `RecordRefresh` is given.
pub data Reason : Type 0 where
  cache_miss initial expired proactive : Reason

pub data Event : Type 0 where
  hit miss : Text → Event
  retried : ℕ → Event
  pause : ℕ → Event
  refreshed : Reason → Event

abbrev pub max_retries : ℕ
max_retries = 3

abbrev pub base_delay_ms : ℕ
base_delay_ms = 100

-- `baseDelay * (1 << attempt)`, before every attempt but the first.
unfoldable pub backoff : ℕ → List Event
backoff attempt =
    if ltb attempt (max_retries - 1) then pause (base_delay_ms * 2 ^ attempt) ∷ [] else []

module _ {ℓ} {A : Type ℓ} (note_retry : Bool) (answer : ℕ → Result Text A) where
  -- From an attempt on, with the attempts left and the last error.
  unfoldable pub fetch_from : ℕ → ℕ → Text → Result Text A × List Event
  fetch_from zero attempt last = (err last, [])
  fetch_from (suc left) attempt last = elim (answer attempt) [
    | ok a ↦ (ok a, [])
    | err e ↦
        let (r, events) = fetch_from left (attempt + 1) e in
        (r, (if note_retry then retried (attempt + 1) ∷ [] else []) ++ (backoff attempt ++ events))
  ]

  unfoldable pub fetch_with_retry : Result Text A × List Event
  fetch_with_retry = fetch_from max_retries 0 []
