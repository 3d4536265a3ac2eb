-- ===== src/Services/Retry/Laws.antt =====
-- The loop returns the first answer that is no error, within three attempts.
use mathlib.Core.Path.{subst}
use ephemos.Base.{
  Result-cases, ℕ, ◌+◌, ◌≤◌, ◌≡◌, refl, sym, ap, ◌∙◌, ◌↔◌, ◌⊎◌, inl, inr, Bool, List, [], ◌∷◌,
  arith, Result, ok, err,
}
use ephemos.GoText.{Text}
use ephemos.Services.Retry.{
  Event, hit, miss, retried, pause, refreshed, backoff, fetch_from, fetch_with_retry,
}

-- The milliseconds that a log pauses.
abbrev pub pauses : List Event → ℕ
pauses [] = 0
pauses (pause n ∷ es) = n + pauses es
pauses (hit k ∷ es) = pauses es
pauses (miss k ∷ es) = pauses es
pauses (retried n ∷ es) = pauses es
pauses (refreshed r ∷ es) = pauses es

module _ {ℓ} {A : Type ℓ} (note_retry : Bool) (answer : ℕ → Result Text A) where
  -- The first answer that is no error, among three.
  abbrev pub FirstOk : A → Type ℓ
  FirstOk a =
      (answer 0 ≡ ok a)
      ⊎ (((e : Text) × (answer 0 ≡ err e) × (answer 1 ≡ ok a))
          ⊎ ((e : Text) × (f : Text) × (answer 0 ≡ err e) × (answer 1 ≡ err f) × (answer 2 ≡ ok a)))

  -- The three errors that use up the loop.
  abbrev pub AllFail : Text → Type ℓ
  AllFail e = (d : Text) × (f : Text) × (answer 0 ≡ err d) × (answer 1 ≡ err f) × (answer 2 ≡ err e)

  -- The four runs of the loop.
  data Run : Result Text A → List Event → Type ℓ where
    run_ok :
        (a : A) {r : Result Text A} {es : List Event}
        → FirstOk a
        → r ≡ ok a
        → pauses es ≤ 300
        → Run r es
    run_err :
        (e : Text) {r : Result Text A} {es : List Event}
        → AllFail e
        → r ≡ err e
        → pauses es ≤ 300
        → Run r es

  run : Run (fetch_with_retry note_retry answer).0 (fetch_with_retry note_retry answer).1
  unfolding fetch_with_retry fetch_from backoff
  run = elim (Result-cases (answer 0)) [
    | inl (a, h) ↦ rw (h, fetch_from) (run_ok a (inl h) refl (omega arith))
    | inr (e, h) ↦ elim (Result-cases (answer 1)) [
      | inl (a, k) ↦ rw (h, k, fetch_from) (run_ok a (inr (inl (e, h, k))) refl (ground arith))
      | inr (f, k) ↦ elim (Result-cases (answer 2)) [
        | inl (a, l) ↦
            rw (h, k, l, fetch_from) (run_ok a (inr (inr (e, f, h, k, l))) refl (ground arith))
        | inr (g, l) ↦ rw (h, k, l, fetch_from) (run_err g (e, f, h, k, l) refl (ground arith))
      ]
    ]
  ]

  FirstOk-unique : (a b : A) → FirstOk a → FirstOk b → a ≡ b
  FirstOk-unique a b h k = ground arith

  not-FirstOk-AllFail : (a : A) (e : Text) → FirstOk a → AllFail e → ⊥
  not-FirstOk-AllFail a e h k = ground arith

  AllFail-unique : (e f : Text) → AllFail e → AllFail f → e ≡ f
  AllFail-unique e f h k = ground arith

  Run-ok : {r : Result Text A} {es : List Event} → Run r es → (a : A) → (r ≡ ok a) ↔ FirstOk a
  Run-ok (run_ok b f p n) a =
      (λ e. subst FirstOk (cc (sym p ∙ e)) f, λ k. p ∙ ap ok (FirstOk-unique b a f k))
  Run-ok (run_err e f p n) a = (λ q. cc (sym p ∙ q), λ k. absurd (not-FirstOk-AllFail a e k f))

  Run-err : {r : Result Text A} {es : List Event} → Run r es → (e : Text) → (r ≡ err e) ↔ AllFail e
  Run-err (run_ok b f p n) e = (λ q. cc (sym p ∙ q), λ k. absurd (not-FirstOk-AllFail b e f k))
  Run-err (run_err d f p n) e =
      (λ q. subst AllFail (cc (sym p ∙ q)) f, λ k. p ∙ ap err (AllFail-unique d e f k))

  Run-pauses : {r : Result Text A} {es : List Event} → Run r es → pauses es ≤ 300
  Run-pauses (run_ok b f p n) = n
  Run-pauses (run_err d f p n) = n

  -- The loop returns an answer exactly if it is the first good one of three; it returns an error
  -- exactly if all three are errors, and then the last of them; it pauses for 300 ms at most.
  pub fetch_with_retry_lem :
      ((a : A) → ((fetch_with_retry note_retry answer).0 ≡ ok a) ↔ FirstOk a)
      × ((e : Text) → ((fetch_with_retry note_retry answer).0 ≡ err e) ↔ AllFail e)
      × (pauses (fetch_with_retry note_retry answer).1 ≤ 300)
  fetch_with_retry_lem = (Run-ok run, Run-err run, Run-pauses run)
