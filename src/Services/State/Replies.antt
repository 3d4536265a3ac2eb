-- ===== src/Services/State/Replies.antt =====
-- What the answers to a call come to.
use ephemos.Base.{◌≡◌, refl, ap, ◌∙◌, ◌≢◌, ◌⊎◌, inl, inr, Option, none, some, Result, ok, err}
use ephemos.Services.State.{ServiceError, panic, failed_with, crashes, hangs, stop_of, reply}

-- The call panics, or it never returns.
abbrev pub Halts {ℓ} : {A : Type ℓ} → Option (Result ServiceError A) → Type ℓ
Halts o = (o ≡ none) ⊎ (o ≡ some (err panic))

-- The call returns an error.
abbrev pub FailsWith {ℓ} : {A : Type ℓ} → Option (Result ServiceError A) → ServiceError → Type ℓ
FailsWith o e = (e ≢ panic) × (o ≡ some (err e))

pub reply-ok {ℓ} :
    {A : Type ℓ} (o : Option (Result ServiceError A)) (a : A) → reply o ≡ ok a → o ≡ some (ok a)
unfolding reply
reply-ok none a h = cc
reply-ok (some (err e)) a h = cc
reply-ok (some (ok b)) a h = cc

stop_of-cases :
    (e : ServiceError)
    → ((e ≡ panic) × (stop_of e ≡ crashes)) ⊎ ((e ≢ panic) × (stop_of e ≡ failed_with e))
unfolding stop_of
stop_of-cases panic = inl (refl, refl)
stop_of-cases e = inr (λ h. cc, refl)

pub reply-failed {ℓ} :
    {A : Type ℓ} (o : Option (Result ServiceError A)) (e : ServiceError)
    → reply o ≡ err (failed_with e)
    → FailsWith o e
unfolding reply
reply-failed none e h = cc
reply-failed (some (err d)) e h = elim (stop_of-cases d) [
  | inl (p, q) ↦ cc
  | inr (n, q) ↦ let same : d ≡ e = cc in (λ p. n (same ∙ p), ap (λ x. some (err x)) same)
]
reply-failed (some (ok a)) e h = cc

pub reply-crashes {ℓ} :
    {A : Type ℓ} (o : Option (Result ServiceError A)) → reply o ≡ err crashes → Halts o
unfolding reply
reply-crashes none h = cc
reply-crashes (some (err d)) h = elim (stop_of-cases d) [
  | inl (p, q) ↦ inr (ap (λ x. some (err x)) p)
  | inr (n, q) ↦ cc
]
reply-crashes (some (ok a)) h = cc

pub reply-hangs {ℓ} :
    {A : Type ℓ} (o : Option (Result ServiceError A)) → reply o ≡ err hangs → Halts o
unfolding reply
reply-hangs none h = inl refl
reply-hangs (some (err d)) h = elim (stop_of-cases d) [ inl (p, q) ↦ cc | inr (n, q) ↦ cc ]
reply-hangs (some (ok a)) h = cc

pub reply-known {ℓ} :
    {A : Type ℓ} (o : Option (Result ServiceError A)) (a : A) → o ≡ some (ok a) → reply o ≡ ok a
unfolding reply
reply-known o a h = rw h refl

pub reply-none {ℓ} :
    {A : Type ℓ} (o : Option (Result ServiceError A)) → o ≡ none → reply o ≡ err hangs
unfolding reply
reply-none o h = rw h refl
