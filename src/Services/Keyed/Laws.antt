-- ===== src/Services/Keyed/Laws.antt =====
-- What reading, writing and deleting a key do together.
use mathlib.Core.Path.{subst}
use ephemos.Base.{
  ◌≡◌, refl, sym, ap, ◌∙◌, ◌≢◌, inl, inr, true, false, none, some, List, [], ◌∷◌, Bool-cases, All,
}
use ephemos.GoText.{Text, text_eq}
use ephemos.GoText.Laws.{text_eq_iff}
use ephemos.Services.Keyed.{find, put, remove}

text_eq_self : (s : Text) → text_eq s s ≡ true
text_eq_self s = (text_eq_iff s s).1 refl

text_eq-other : (s t : Text) → s ≢ t → text_eq s t ≡ false
text_eq-other s t h = elim (Bool-cases (text_eq s t)) [
  | inl e ↦ absurd (h ((text_eq_iff s t).0 e))
  | inr e ↦ e
]

true-not-false : true ≢ false
true-not-false h = cc h

pub find-put {ℓ} :
    {A : Type ℓ} (id : Text) (c : A) (m : List (Text × A)) → find id (put id c m) ≡ some c
unfolding find put
find-put id c [] = rw (text_eq_self id) refl
find-put id c ((k, d) ∷ m) = elim (Bool-cases (text_eq k id)) [
  | inl e ↦ rw (e, text_eq_self id) refl
  | inr e ↦ rw (e, e) (find-put id c m)
]

pub find-put-other {ℓ} :
    {A : Type ℓ} (k id : Text) (c : A) (m : List (Text × A))
    → k ≢ id
    → find k (put id c m) ≡ find k m
unfolding find put
find-put-other k id c [] h = rw (text_eq-other id k (λ e. h (sym e))) refl
find-put-other k id c ((l, d) ∷ m) h = elim (Bool-cases (text_eq l id)) [
  | inl e ↦
      rw
        (
          e,
          text_eq-other id k (λ q. h (sym q)),
          text_eq-other l k (λ q. h (sym q ∙ (text_eq_iff l id).0 e)),
        )
        refl
  | inr e ↦ rw (e, find-put-other k id c m h) refl
]

pub find-remove {ℓ} : {A : Type ℓ} (id : Text) (m : List (Text × A)) → find id (remove id m) ≡ none
unfolding find remove
find-remove id [] = refl
find-remove id ((k, d) ∷ m) = elim (Bool-cases (text_eq k id)) [
  | inl e ↦ rw e (find-remove id m)
  | inr e ↦ rw (e, e) (find-remove id m)
]

pub find-remove-other {ℓ} :
    {A : Type ℓ} (k id : Text) (m : List (Text × A)) → k ≢ id → find k (remove id m) ≡ find k m
unfolding find remove
find-remove-other k id [] h = refl
find-remove-other k id ((l, d) ∷ m) h = elim (Bool-cases (text_eq l id)) [
  | inl e ↦
      rw (e, text_eq-other l k (λ q. h (sym q ∙ (text_eq_iff l id).0 e)))
        (find-remove-other k id m h)
  | inr e ↦ rw (e, find-remove-other k id m h) refl
]

-- A key that no entry has; each key once.
abbrev pub Absent {ℓ} : {A : Type ℓ} → Text → List (Text × A) → Type 0
Absent {A = A} id m = All (λ (kc : Text × A). kc.0 ≢ id) m

abbrev pub UniqueKeys {ℓ} : {A : Type ℓ} → List (Text × A) → Type 0
UniqueKeys [] = Unit
UniqueKeys ((k, c) ∷ m) = Absent k m × UniqueKeys m

put-Absent {ℓ} :
    {A : Type ℓ} (k id : Text) (c : A) (m : List (Text × A))
    → id ≢ k
    → Absent k m
    → Absent k (put id c m)
unfolding put
put-Absent k id c [] h a = (h, tt)
put-Absent k id c ((l, d) ∷ m) h (a, b) = elim (Bool-cases (text_eq l id)) [
  | inl e ↦ rw e (h, b)
  | inr e ↦ rw e (a, put-Absent k id c m h b)
]

pub put-UniqueKeys {ℓ} :
    {A : Type ℓ} (id : Text) (c : A) (m : List (Text × A)) → UniqueKeys m → UniqueKeys (put id c m)
unfolding put
put-UniqueKeys id c [] u = (tt, tt)
put-UniqueKeys id c ((l, d) ∷ m) (a, u) = elim (Bool-cases (text_eq l id)) [
  | inl e ↦ rw e (subst (λ (x : Text). Absent x m) ((text_eq_iff l id).0 e) a, u)
  | inr e ↦ rw e (
    put-Absent l id c m
        (λ q. true-not-false (sym (text_eq_self id) ∙ ap (λ (x : Text). text_eq x id) q ∙ e)) a,
    put-UniqueKeys id c m u,
  )
]

remove-Absent {ℓ} :
    {A : Type ℓ} (k id : Text) (m : List (Text × A)) → Absent k m → Absent k (remove id m)
unfolding remove
remove-Absent k id [] a = tt
remove-Absent k id ((l, d) ∷ m) (a, b) = elim (Bool-cases (text_eq l id)) [
  | inl e ↦ rw e (remove-Absent k id m b)
  | inr e ↦ rw e (a, remove-Absent k id m b)
]

pub remove-UniqueKeys {ℓ} :
    {A : Type ℓ} (id : Text) (m : List (Text × A)) → UniqueKeys m → UniqueKeys (remove id m)
unfolding remove
remove-UniqueKeys id [] u = tt
remove-UniqueKeys id ((l, d) ∷ m) (a, u) = elim (Bool-cases (text_eq l id)) [
  | inl e ↦ rw e (remove-UniqueKeys id m u)
  | inr e ↦ rw e (remove-Absent l id m a, remove-UniqueKeys id m u)
]
