-- ===== src/Application/Authentication/Retry.antt =====
-- How the refreshing loops of authentication_service.go end.
use ephemos.Base.{
  Result-cases, ℕ, zero, suc, ◌+◌, ◌≤◌, ◌<◌, ◌≡◌, ap, ◌⊎◌, inl, inr, true, false, Option, none,
  some, arith, Bool-cases, Result, ok, err,
}
use mathlib.Core.Path.{subst}
use ephemos.GoText.{Text}
use ephemos.Application.Providers.{AppError, gave_up, cancelled}
use ephemos.Application.Authentication.{
  Refreshing, AuthenticationService, refresh_from, attempts, refresh_with_retry,
}

at_or_after : (i k : ℕ) → i ≤ k → (i ≡ k) ⊎ (suc i ≤ k)
at_or_after i k h = ground arith

module _ (b : Refreshing) where
  abbrev pub Failed : ℕ → Type 0
  Failed k = (e : Text) × (b.attempt k ≡ err e)

  -- An attempt that fails, with a pause that runs to its end.
  abbrev pub Missed : ℕ → Type 0
  Missed k = Failed k × (b.cut_short k ≡ false)

  -- The attempts from the first number on, below the second, are missed.
  abbrev pub AllMissed : ℕ → ℕ → Type 0
  AllMissed i j = (k : ℕ) → i ≤ k → k < j → Missed k

  abbrev pub SucceedsAt : ℕ → ℕ → ℕ → Type 0
  SucceedsAt i n j = (i ≤ j) × (j < n) × (b.attempt j ≡ ok tt) × AllMissed i j

  abbrev pub CutAt : ℕ → ℕ → ℕ → Type 0
  CutAt i n j = (i ≤ j) × (j < n) × Failed j × (b.cut_short j ≡ true) × AllMissed i j

  abbrev pub error_of : Result Text (Unit {0}) → Option Text
  error_of (ok u) = none
  error_of (err e) = some e

  -- The last error of a number of attempts.
  abbrev pub last_error : ℕ → Option Text
  last_error zero = none
  last_error (suc n) = error_of (b.attempt n)

  -- How the loop over the attempts from the first number on, below the second, ends.
  pub data Ending (i n : ℕ) : Result AppError (Unit {0}) → Type 0 where
    succeeds : (j : ℕ) → SucceedsAt i n j → Ending i n (ok tt)
    is_cut : (j : ℕ) → CutAt i n j → Ending i n (err cancelled)
    gives_up : AllMissed i n → Ending i n (err (gave_up (last_error n)))

  Missed-first : (i j : ℕ) → Missed i → AllMissed (suc i) j → AllMissed i j
  Missed-first i j m h k p q = elim (at_or_after i k p) [
    | inl e ↦ subst Missed e m
    | inr l ↦ h k l q
  ]

  longer : (i n : ℕ) (r : Result AppError (Unit {0})) → Missed i → Ending (suc i) n r → Ending i n r
  longer i n r m (succeeds j (p, q, e, h)) =
      succeeds j (omega (arith, p), q, e, Missed-first i j m h)
  longer i n r m (is_cut j (p, q, f, e, h)) =
      is_cut j (omega (arith, p), q, f, e, Missed-first i j m h)
  longer i n r m (gives_up h) = gives_up (Missed-first i n m h)

  none_below : (i : ℕ) → AllMissed i i
  none_below i k p q = absurd (omega (arith, p, q))

  refresh_from-Ending :
      (left i n : ℕ) → i + left ≡ n → Ending i n (refresh_from b (last_error i) left i)
  unfolding refresh_from
  refresh_from-Ending zero i n h =
      subst (λ x. Ending i x (err (gave_up (last_error i)))) (omega arith) (gives_up (none_below i))
  refresh_from-Ending (suc left) i n h = elim (Result-cases (b.attempt i)) [
    | inl (u, e) ↦ rw (e, refresh_from) (succeeds i (omega arith, omega arith, e, none_below i))
    | inr (m, e) ↦ elim (Bool-cases (b.cut_short i)) [
      | inl c ↦
          rw (e, c, refresh_from) (is_cut i (omega arith, omega arith, (m, e), c, none_below i))
      | inr c ↦
          rw (e, c, refresh_from)
            (longer i n _ ((m, e), c)
              (subst (λ o. Ending (suc i) n (refresh_from b o left (suc i))) (ap error_of e)
                (refresh_from-Ending left (suc i) n (omega arith))))
    ]
  ]

module _ (b : Refreshing) (s : AuthenticationService) where
  -- The loop ends in one of three ways: it succeeds at the first attempt below the maximum that
  -- does, with every earlier one failed and its pause not cut short; it is cancelled in the pause
  -- behind the first attempt where that is so, with all up to it failed; or every attempt fails, and
  -- it gives up with the last error, or none where there was no attempt.
  pub refresh_with_retry-Ending : Ending b 0 (attempts s.max_retries) (refresh_with_retry b s)
  unfolding refresh_with_retry
  refresh_with_retry-Ending =
      refresh_from-Ending b (attempts s.max_retries) 0 (attempts s.max_retries) (omega arith)
