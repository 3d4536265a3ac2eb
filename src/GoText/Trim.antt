-- ===== src/GoText/Trim.antt =====
-- What `TrimSpace` leaves alone.
use mathlib.Core.List.{reverse-reverse, reverse-append}
use ephemos.Base.{ℕ, ◌≡◌, true, false, [], ◌∷◌, reverse, arith}
use ephemos.GoText.{Text, is_space, trim_left, trim_space}
use ephemos.Regex.{is_alnum}
use ephemos.Regex.Shapes.{Begins, Ends}

trim_left_at : (c : ℕ) (s : Text) → is_space c ≡ false → trim_left (c ∷ s) ≡ c ∷ s
unfolding trim_left
trim_left_at c s h = rw h

is_alnum-not_space : (c : ℕ) → is_alnum c ≡ true → is_space c ≡ false
unfolding is_alnum is_space
is_alnum-not_space c h = ground arith

-- A text with a letter or digit at both ends is not trimmed.
pub trim_space_lem : (s : Text) → Begins is_alnum s → Ends is_alnum s → trim_space s ≡ s
unfolding trim_space
trim_space_lem s (c, rest, e, h) (front, d, f, g) =
    let left : trim_left s ≡ s = rw e (trim_left_at c rest (is_alnum-not_space c h)) in
    let back : reverse s ≡ d ∷ reverse front = rw f (reverse-append front (d ∷ [])) in
    rw (left, back, trim_left_at d (reverse front) (is_alnum-not_space d g), ← back)
      (reverse-reverse s)
