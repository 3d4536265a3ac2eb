-- ===== src/GoText/Laws.antt =====
-- What the searches of package strings find: prefixes, suffixes and infixes, and the ends of a
-- trimmed text.
use ephemos.Base.{
  false, Bool, ◌+◌, ◌≡◌, refl, ap, true, ◌↔◌, inl, inr, [], ◌∷◌, ◌++◌, arith, Bool-cases,
}
use ephemos.GoText.{Text, text_eq, len, has_prefix, has_suffix, contains, drop_prefix, trim_prefix}

pub text_eq_refl : (s : Text) → text_eq s s ≡ true
text_eq_refl [] = refl
text_eq_refl (c ∷ s) = ground (arith, text_eq_refl s)

pub eq_of_text_eq : (s t : Text) → text_eq s t ≡ true → s ≡ t
eq_of_text_eq [] [] h = refl
eq_of_text_eq [] (d ∷ t) h = cc
eq_of_text_eq (c ∷ s) [] h = cc
eq_of_text_eq (c ∷ s) (d ∷ t) h = ground (arith, eq_of_text_eq s t)

pub text_eq_iff : (s t : Text) → (text_eq s t ≡ true) ↔ (s ≡ t)
text_eq_iff s t = (eq_of_text_eq s t, λ e. rw e (text_eq_refl t))

pub len-append : (s t : Text) → len (s ++ t) ≡ len s + len t
unfolding len
len-append [] t = omega arith
len-append (c ∷ s) t = omega (arith, len-append s t)

abbrev pub IsPrefix : Text → Text → Type 0
IsPrefix p s = (rest : Text) × (s ≡ p ++ rest)

pub has_prefix_sound : (p s : Text) → has_prefix p s ≡ true → IsPrefix p s
unfolding has_prefix
has_prefix_sound [] s h = (s, refl)
has_prefix_sound (d ∷ p) [] h = cc
has_prefix_sound (d ∷ p) (c ∷ s) h =
    let later : has_prefix p s ≡ true = ground arith in
    let same : c ≡ d = ground arith in
    let found = has_prefix_sound p s later in (found.0, cc (found.1, same))

pub has_prefix-append : (p rest : Text) → has_prefix p (p ++ rest) ≡ true
unfolding has_prefix
has_prefix-append [] rest = refl
has_prefix-append (d ∷ p) rest = ground (arith, has_prefix-append p rest)

pub has_prefix_iff : (p s : Text) → (has_prefix p s ≡ true) ↔ IsPrefix p s
has_prefix_iff p s = (has_prefix_sound p s, λ h. rw h.1 (has_prefix-append p h.0))

drop_prefix-append : (p rest : Text) → drop_prefix p (p ++ rest) ≡ rest
drop_prefix-append [] rest = refl
drop_prefix-append (d ∷ p) rest = drop_prefix-append p rest

-- Trimming a prefix takes exactly it away.
pub trim_prefix-append : (p rest : Text) → trim_prefix p (p ++ rest) ≡ rest
unfolding trim_prefix
trim_prefix-append p rest = rw (has_prefix-append p rest) (drop_prefix-append p rest)

abbrev pub IsSuffix : Text → Text → Type 0
IsSuffix p s = (front : Text) × (s ≡ front ++ p)

pub has_suffix_sound : (p s : Text) → has_suffix p s ≡ true → IsSuffix p s
unfolding has_suffix
has_suffix_sound p [] h = ([], eq_of_text_eq [] p h)
has_suffix_sound p (c ∷ s) h = elim (Bool-cases (text_eq (c ∷ s) p)) [
  | inl here ↦ ([], eq_of_text_eq (c ∷ s) p here)
  | inr other ↦
      let later : has_suffix p s ≡ true = ground arith in
      let found = has_suffix_sound p s later in (c ∷ found.0, ap (λ (t : Text). c ∷ t) found.1)
]

pub has_suffix_self : (p : Text) → has_suffix p p ≡ true
unfolding has_suffix
has_suffix_self [] = refl
has_suffix_self (c ∷ p) = ground (arith, text_eq_refl p)

pub has_suffix-append : (front p : Text) → has_suffix p (front ++ p) ≡ true
unfolding has_suffix
has_suffix-append [] p = has_suffix_self p
has_suffix-append (c ∷ front) p = ground (arith, has_suffix-append front p)

pub has_suffix_iff : (p s : Text) → (has_suffix p s ≡ true) ↔ IsSuffix p s
has_suffix_iff p s = (has_suffix_sound p s, λ h. rw h.1 (has_suffix-append h.0 p))

abbrev pub IsInfix : Text → Text → Type 0
IsInfix p s = (front : Text) × (rest : Text) × (s ≡ front ++ (p ++ rest))

pub contains_sound : (p s : Text) → contains p s ≡ true → IsInfix p s
unfolding contains
contains_sound p [] h = let found = has_prefix_sound p [] h in ([], found.0, found.1)
contains_sound p (c ∷ s) h = elim (Bool-cases (has_prefix p (c ∷ s))) [
  | inl here ↦ let found = has_prefix_sound p (c ∷ s) here in ([], found.0, found.1)
  | inr other ↦
      let found = contains_sound p s (rw other at h) in
      (c ∷ found.0, found.1, ap (λ (t : Text). c ∷ t) found.2)
]

contains_of_prefix : (p s : Text) → has_prefix p s ≡ true → contains p s ≡ true
unfolding contains
contains_of_prefix p [] h = h
contains_of_prefix p (c ∷ s) h = rw h

pub contains-append : (p front rest : Text) → contains p (front ++ (p ++ rest)) ≡ true
unfolding contains
contains-append p [] rest = contains_of_prefix p (p ++ rest) (has_prefix-append p rest)
contains-append p (c ∷ front) rest = ground (arith, contains-append p front rest)

pub contains_iff : (p s : Text) → (contains p s ≡ true) ↔ IsInfix p s
contains_iff p s = (contains_sound p s, λ h. rw h.2 (contains-append p h.0 h.1))

false_iff {ℓ} : {P : Type ℓ} (b : Bool) → (b ≡ true) ↔ P → (b ≡ false) ↔ (¬ P)
false_iff true h = (λ e. cc, λ n. absurd (n (h.0 refl)))
false_iff false h = (λ e p. cc (h.1 p), λ n. refl)

pub not-contains_iff : (p s : Text) → (contains p s ≡ false) ↔ (¬ IsInfix p s)
not-contains_iff p s = false_iff (contains p s) (contains_iff p s)

pub not-has_suffix_iff : (p s : Text) → (has_suffix p s ≡ false) ↔ (¬ IsSuffix p s)
not-has_suffix_iff p s = false_iff (has_suffix p s) (has_suffix_iff p s)

pub not-has_prefix_iff : (p s : Text) → (has_prefix p s ≡ false) ↔ (¬ IsPrefix p s)
not-has_prefix_iff p s = false_iff (has_prefix p s) (has_prefix_iff p s)

pub not-text_eq_iff : (s t : Text) → (text_eq s t ≡ false) ↔ (¬ (s ≡ t))
not-text_eq_iff s t = false_iff (text_eq s t) (text_eq_iff s t)
