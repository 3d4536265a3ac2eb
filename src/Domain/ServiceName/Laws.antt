-- ===== src/Domain/ServiceName/Laws.antt =====
-- Which names the constructor takes, and what a taken name looks like.
use ephemos.Base.{
  ℕ, ◌≡◌, sym, ◌≤◌, ◌<◌, refl, ◌↔◌, ◌⊎◌, inl, inr, true, false, [], ◌∷◌, arith, ltb, Bool-cases, ok,
}
use ephemos.GoText.{
  Text, text, text_eq, len, width, trim_space, to_lower, contains, has_prefix, has_suffix,
  lower_rune,
}
use ephemos.GoText.Laws.{
  IsPrefix, IsSuffix, IsInfix, has_prefix_iff, has_suffix_iff, contains_iff, not-contains_iff,
  not-has_suffix_iff,
}
use ephemos.GoText.Trim.{trim_space_lem}
use ephemos.Regex.{is_alnum, matches}
use ephemos.Regex.Shapes.{Enclosed, enclosed_iff}
use ephemos.Domain.ServiceName.{
  ServiceName, is_name_char, service_name_pattern, misplaced_test, check_name, new_service_name,
  name_is_valid_for_production, name_contains,
}

-- A valid name, in words: at most 100 bytes of letters, digits, dots, underscores and hyphens, with a
-- letter or digit at both ends, free of "example", and with "test" only if it begins with "test-"
-- or ends in "-test" (all without regard to case).
pub record IsServiceName (v : Text) : Type 0 where
  pub short : len v ≤ 100
  pub shape : Enclosed is_alnum is_name_char v
  pub real : ¬ IsInfix (text "example") (to_lower v)
  pub test_rule :
      IsInfix (text "test") (to_lower v)
      → IsPrefix (text "test-") (to_lower v) ⊎ IsSuffix (text "-test") (to_lower v)

alnum_in_name : (c : ℕ) → is_alnum c ≡ true → is_name_char c ≡ true
unfolding is_name_char
alnum_in_name c h = ground arith

shape_iff : (v : Text) → (matches service_name_pattern v ≡ true) ↔ Enclosed is_alnum is_name_char v
shape_iff v = enclosed_iff is_alnum is_name_char alnum_in_name v

-- The checks, test by test.
record Passes (v : Text) : Type 0 where
  not_empty : text_eq v [] ≡ false
  short : ltb 100 (len v) ≡ false
  not_short : ltb (len v) 1 ≡ false
  shape : matches service_name_pattern v ≡ true
  real : contains (text "example") (to_lower v) ≡ false
  test_rule : misplaced_test (to_lower v) ≡ false

check_name-Passes : (v : Text) (n : ServiceName) → check_name v ≡ ok n → Passes v × (n.value ≡ v)
unfolding check_name
check_name-Passes v n h = ground arith

check_name_of_Passes : (v : Text) → Passes v → check_name v ≡ ok (record { value = v })
unfolding check_name
check_name_of_Passes v p = ground arith

test_rule_iff :
    (lower : Text)
    → (misplaced_test lower ≡ false) ↔ (
        IsInfix (text "test") lower → IsPrefix (text "test-") lower ⊎ IsSuffix (text "-test") lower)
unfolding misplaced_test
test_rule_iff lower = (forth, back)
  where
    forth :
        misplaced_test lower ≡ false
        → IsInfix (text "test") lower
        → IsPrefix (text "test-") lower ⊎ IsSuffix (text "-test") lower
    forth h i = elim (Bool-cases (has_prefix (text "test-") lower)) [
      | inl p ↦ inl ((has_prefix_iff _ _).0 p)
      | inr p ↦ elim (Bool-cases (has_suffix (text "-test") lower)) [
        | inl s ↦ inr ((has_suffix_iff _ _).0 s)
        | inr s ↦ let c = (contains_iff (text "test") lower).1 i in cc (rw (c, p, s) at h)
      ]
    ]

    back :
        (IsInfix (text "test") lower
          → IsPrefix (text "test-") lower ⊎ IsSuffix (text "-test") lower)
        → misplaced_test lower ≡ false
    back f = elim (Bool-cases (contains (text "test") lower)) [
      | inr n ↦ rw n
      | inl c ↦ elim (f ((contains_iff _ _).0 c)) [
        | inl p ↦ let e = (has_prefix_iff (text "test-") lower).1 p in rw (c, e)
        | inr s ↦ let e = (has_suffix_iff (text "-test") lower).1 s in ground arith
      ]
    ]

IsServiceName-of_Passes : (v : Text) → Passes v → IsServiceName v
IsServiceName-of_Passes v p = record {
  short = ground (arith, p.short);
  shape = (shape_iff v).0 p.shape;
  real = (not-contains_iff _ _).0 p.real;
  test_rule = (test_rule_iff (to_lower v)).0 p.test_rule;
}

width_pos : (c : ℕ) → 0 < width c
unfolding width
width_pos c = ground arith

len_pos : (c : ℕ) (s : Text) → 0 < len (c ∷ s)
unfolding len
len_pos c s = omega (arith, width_pos c)

Passes-of_IsServiceName : (v : Text) → IsServiceName v → Passes v
Passes-of_IsServiceName v n =
    let (c, rest, e, h) = n.shape.first in
    let long : 0 < len v = rw e (len_pos c rest) in
    record {
      not_empty = rw e;
      short = ground (arith, n.short);
      not_short = ground arith;
      shape = (shape_iff v).1 n.shape;
      real = (not-contains_iff _ _).1 n.real;
      test_rule = (test_rule_iff (to_lower v)).1 n.test_rule;
    }

-- NewServiceName succeeds with a value exactly if the value is the trimmed name and is a valid name.
pub new_service_name-ok_iff :
    (name : Text) (n : ServiceName)
    → (new_service_name name ≡ ok n) ↔ ((n.value ≡ trim_space name) × IsServiceName n.value)
unfolding new_service_name
new_service_name-ok_iff name n = (
  λ h.
      let (p, e) = check_name-Passes (trim_space name) n h in
      (e, rw e (IsServiceName-of_Passes (trim_space name) p)),
  λ (e, v). rw (← e) (check_name_of_Passes n.value (Passes-of_IsServiceName n.value v)),
)

-- A name that NewServiceName returned is taken again, unchanged.
new_service_name-value :
    (name : Text) (n : ServiceName) → new_service_name name ≡ ok n → new_service_name n.value ≡ ok n
new_service_name-value name n h =
    let v = ((new_service_name-ok_iff name n).0 h).1 in
    (new_service_name-ok_iff n.value n).1
      (sym (trim_space_lem n.value v.shape.first v.shape.last), v)

lower_words :
    (to_lower (text "demo") ≡ text "demo")
    × (to_lower (text "example") ≡ text "example")
    × (to_lower (text "localhost") ≡ text "localhost")
unfolding to_lower lower_rune
lower_words = (refl, refl, refl)

production_tests :
    (n : ServiceName)
    → contains (text "example") (to_lower n.value) ≡ false
    → (name_is_valid_for_production n ≡ ok tt) ↔ (
        (contains (text "demo") (to_lower n.value) ≡ false)
        × (contains (text "localhost") (to_lower n.value) ≡ false)
        × (has_suffix (text "-test") (to_lower n.value) ≡ false))
unfolding name_is_valid_for_production name_contains
production_tests n e = let (a, b, c) = lower_words in rw (a, b, c) (ground arith)

-- Of a name that NewServiceName took, the production check is decided by "demo", "localhost" and a
-- final "-test", without regard to case; its test for "example" never fails.
name_is_valid_for_production_iff :
    (name : Text) (n : ServiceName)
    → new_service_name name ≡ ok n
    → (name_is_valid_for_production n ≡ ok tt) ↔ (
        (¬ IsInfix (text "demo") (to_lower n.value))
        × (¬ IsInfix (text "localhost") (to_lower n.value))
        × (¬ IsSuffix (text "-test") (to_lower n.value)))
name_is_valid_for_production_iff name n h =
    let v = ((new_service_name-ok_iff name n).0 h).1 in
    let d = not-contains_iff (text "demo") (to_lower n.value) in
    let l = not-contains_iff (text "localhost") (to_lower n.value) in
    let t = not-has_suffix_iff (text "-test") (to_lower n.value) in
    let tests = production_tests n ((not-contains_iff _ _).1 v.real) in
    (
      λ e. let (a, b, c) = tests.0 e in (d.0 a, l.0 b, t.0 c),
      λ (a, b, c). tests.1 (d.1 a, l.1 b, t.1 c),
    )
