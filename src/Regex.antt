-- ===== src/Regex.antt =====
-- Go's regular expressions (package regexp), as far as the source writes them: classes, sequence,
-- alternative, `*`, and patterns anchored by `^` and `$`. A text matches if the derivative of the
-- pattern by the whole text accepts the empty text.
pub mod Laws
pub mod Shapes
use ephemos.Base.{ℕ, Bool, true, false, ◌&&◌, ◌||◌, List, [], ◌∷◌, leb, ◌==◌, if◌then◌else◌}
use ephemos.GoText.{Text}

pub data Regex : Type 0 where
  never : Regex
  empty : Regex
  class : (ℕ → Bool) → Regex
  seq : Regex → Regex → Regex
  alt : Regex → Regex → Regex
  star : Regex → Regex

-- `r?`, `r+` and a literal text.
abbrev pub optional : Regex → Regex
optional r = alt empty r

abbrev pub plus : Regex → Regex
plus r = seq r (star r)

abbrev pub literal : Text → Regex
literal [] = empty
literal (c ∷ s) = seq (class (λ d. d == c)) (literal s)

unfoldable pub accepts_empty : Regex → Bool
accepts_empty never = false
accepts_empty empty = true
accepts_empty (class p) = false
accepts_empty (seq r q) = accepts_empty r && accepts_empty q
accepts_empty (alt r q) = accepts_empty r || accepts_empty q
accepts_empty (star r) = true

-- What is left to match after one code point.
unfoldable pub derive : ℕ → Regex → Regex
unfolding accepts_empty
derive c never = never
derive c empty = never
derive c (class p) = if p c then empty else never
derive c (seq r q) =
    let first = seq (derive c r) q in
    let both = alt (seq (derive c r) q) (derive c q) in if accepts_empty r then both else first
derive c (alt r q) = alt (derive c r) (derive c q)
derive c (star r) = seq (derive c r) (star r)

-- `MatchString` of an anchored pattern.
unfoldable pub matches : Regex → Text → Bool
unfolding derive
matches r [] = accepts_empty r
matches r (c ∷ s) = matches (derive c r) s

-- The classes of the source's patterns.
unfoldable pub is_alnum : ℕ → Bool
is_alnum c = (leb b'a' c && leb c b'z') || (leb b'A' c && leb c b'Z') || (leb b'0' c && leb c b'9')

unfoldable pub is_digit : ℕ → Bool
is_digit c = leb b'0' c && leb c b'9'
