-- ===== src/Domain/Namespace/Segments.antt =====
-- The service name of a path is its last segment.
use ephemos.Base.{
  ==_iff, Bool, ℕ, ◌≡◌, refl, ◌≢◌, ◌⊎◌, inl, inr, List, [], ◌∷◌, ◌++◌, All, arith, ◌==◌, Bool-cases,
  true, false,
}
use ephemos.GoText.{Text, text, text_eq, split_on, split_step}
use ephemos.GoText.Laws.{IsPrefix, trim_prefix-append}
use ephemos.Domain.Namespace.{last_part, last_segment}

abbrev pub NoSlash : Text → Type 0
NoSlash s = All (λ c. c ≢ b'/') s

split_on-NoSlash : (s : Text) → NoSlash s → split_on b'/' s ≡ s ∷ []
unfolding split_on
split_on-NoSlash [] h = refl
split_on-NoSlash (c ∷ s) h = elim (Bool-cases (c == b'/')) [
  | inl e ↦ absurd (h.0 (ground arith))
  | inr e ↦ rw (e, split_on-NoSlash s h.1)
]

abbrev EndsIn : Text → List Text → Type 0
EndsIn seg parts =
    (a : Text) × (b : Text) × (rest : List Text) × (parts ≡ a ∷ b ∷ rest)
    × (last_part (b ∷ rest) ≡ seg)

EndsIn-step :
    (t : Bool) (c : ℕ) (seg : Text) (parts : List Text)
    → EndsIn seg parts
    → EndsIn seg (split_step t c parts)
EndsIn-step true c seg parts (a, b, rest, e, l) = ([], a, b ∷ rest, rw e, l)
EndsIn-step false c seg parts (a, b, rest, e, l) = (c ∷ a, b, rest, rw e, l)

split_on-EndsIn :
    (front seg : Text) → NoSlash seg → EndsIn seg (split_on b'/' (front ++ b'/' ∷ seg))
unfolding split_on
split_on-EndsIn [] seg h = ([], seg, [], rw (split_on-NoSlash seg h), refl)
split_on-EndsIn (c ∷ front) seg h = EndsIn-step (c == b'/') c seg _ (split_on-EndsIn front seg h)

last_part-split_on :
    (front seg : Text) → NoSlash seg → last_part (split_on b'/' (front ++ b'/' ∷ seg)) ≡ seg
last_part-split_on front seg h = let (a, b, rest, e, l) = split_on-EndsIn front seg h in rw e l

last_segment_first : (seg : Text) → NoSlash seg → last_segment (b'/' ∷ seg) ≡ seg
unfolding last_segment
last_segment_first [] h = refl
last_segment_first (c ∷ seg) h =
    rw (trim_prefix-append (text "/") (c ∷ seg), split_on-NoSlash (c ∷ seg) h) refl

not_nil : (s : Text) (c : ℕ) (t : Text) → text_eq (s ++ c ∷ t) [] ≡ false
not_nil [] c t = refl
not_nil (d ∷ s) c t = refl

last_segment_later :
    (front seg : Text) → NoSlash seg → last_segment (b'/' ∷ (front ++ b'/' ∷ seg)) ≡ seg
unfolding last_segment
last_segment_later front seg h =
    rw (not_nil front b'/' seg, trim_prefix-append (text "/") (front ++ b'/' ∷ seg))
      (last_part-split_on front seg h)

-- Behind nothing, or behind a text that begins with a slash, a slash and a text without slashes end
-- a path whose service name is that text.
pub last_segment_lem :
    (front seg : Text)
    → (front ≡ []) ⊎ IsPrefix (text "/") front
    → NoSlash seg
    → last_segment (front ++ b'/' ∷ seg) ≡ seg
last_segment_lem front seg (inl e) h = rw e (last_segment_first seg h)
last_segment_lem front seg (inr (rest, e)) h = rw e (last_segment_later rest seg h)

-- A text has no slash, or a last one.
pub slash_view :
    (s : Text)
    → NoSlash s ⊎ ((front : Text) × (seg : Text) × (s ≡ front ++ b'/' ∷ seg) × NoSlash seg)
slash_view [] = inl tt
slash_view (c ∷ s) = elim (slash_view s) [
  | inr (front, seg, e, h) ↦ inr (c ∷ front, seg, cc e, h)
  | inl h ↦ elim (Bool-cases (c == b'/')) [
    | inl e ↦ inr ([], s, cc ((==_iff c b'/').0 e), h)
    | inr e ↦ inl (ground arith, h)
  ]
]

pub not-NoSlash : (front seg : Text) → ¬ NoSlash (front ++ b'/' ∷ seg)
not-NoSlash [] seg h = h.0 refl
not-NoSlash (c ∷ front) seg h = not-NoSlash front seg h.1
