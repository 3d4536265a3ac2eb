-- ===== src/Domain/TrustBundle/Substring.antt =====
-- The hand-written substring test of trust_bundle.go.
use ephemos.Base.{
  ℕ, suc, ◌+◌, ◌≤◌, ◌≡◌, refl, sym, ap, ◌∙◌, ◌↔◌, inl, inr, true, Option, none, some, [], ◌∷◌, ◌++◌,
  arith, Bool-cases,
}
use mathlib.Core.Option
use mathlib.Core.List.{append-nil}
use ephemos.Base.{is_some}
use ephemos.GoText.{Text, text_eq, len, width, has_prefix, has_suffix, contains}
use ephemos.GoText.Laws.{
  IsInfix, contains_iff, has_prefix_iff, has_suffix_iff, text_eq_iff, len-append,
}
use ephemos.Domain.TrustBundle.{index_contains, substring_of}

is_some-map-suc : (o : Option ℕ) → is_some (Option.map suc o) ≡ is_some o
is_some-map-suc none = refl
is_some-map-suc (some n) = refl

index_contains-contains : (p s : Text) → is_some (index_contains p s) ≡ contains p s
unfolding index_contains contains
index_contains-contains p [] = ground arith
index_contains-contains p (c ∷ s) =
    ground (arith, index_contains-contains p s, is_some-map-suc (index_contains p s))

len-eq-zero : (s : Text) → len s ≡ 0 → s ≡ []
unfolding len width
len-eq-zero [] h = refl
len-eq-zero (c ∷ s) h = absurd (ground arith)

whole_of_infix : (p s : Text) → IsInfix p s → len s ≤ len p → s ≡ p
whole_of_infix p s (front, rest, e) h =
    let total : len s ≡ len front + (len p + len rest) =
      rw e (omega (arith, len-append front (p ++ rest), len-append p rest)) in
    let a = len-eq-zero front (omega arith) in
    let b = len-eq-zero rest (omega arith) in e ∙ rw (a, b) (append-nil p)

le_of_infix : (p s : Text) → IsInfix p s → len p ≤ len s
le_of_infix p s (front, rest, e) =
    rw e (omega (arith, len-append front (p ++ rest), len-append p rest))

infix_of_parts : (p s : Text) → substring_of p s ≡ true → IsInfix p s
unfolding substring_of
infix_of_parts p s h = elim (Bool-cases (text_eq s p)) [
  | inl e ↦ ([], [], (text_eq_iff s p).0 e ∙ sym (append-nil p))
  | inr n ↦ elim (Bool-cases (has_prefix p s)) [
    | inl e ↦ let (rest, f) = (has_prefix_iff p s).0 e in ([], rest, f)
    | inr m ↦ elim (Bool-cases (has_suffix p s)) [
      | inl e ↦
          let (front, f) = (has_suffix_iff p s).0 e in
          (front, [], f ∙ ap (λ (t : Text). front ++ t) (sym (append-nil p)))
      | inr k ↦ (contains_iff p s).0 (ground (arith, index_contains-contains p s))
    ]
  ]
]

parts_of_infix : (p s : Text) → IsInfix p s → substring_of p s ≡ true
unfolding substring_of
parts_of_infix p s i = ground (
  arith,
  le_of_infix p s i,
  index_contains-contains p s,
  (contains_iff p s).1 i,
  whole_of_infix p s i,
  text_eq_iff s p,
)

-- The helper `contains` finds exactly the substrings; it minds the case.
pub substring_of_iff : (p s : Text) → (substring_of p s ≡ true) ↔ IsInfix p s
substring_of_iff p s = (infix_of_parts p s, parts_of_infix p s)
