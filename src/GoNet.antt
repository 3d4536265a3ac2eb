-- ===== src/GoNet.antt =====
-- `net.SplitHostPort` and `strconv.Atoi` of Go, whose errors are none.
pub mod Laws
use ephemos.Base.{
  ◌*◌, ℕ, zero, suc, ◌+◌, ◌-◌, Bool, not, ◌&&◌, ◌||◌, Option, none, some, [], ◌∷◌, ltb, leb, ◌==◌,
  if◌then◌else◌,
}
use ephemos.Base.Int.{ℤ, pos, negsuc, int64_limit}
use ephemos.GoText.{Text, text, text_eq, has_prefix, contains}
use ephemos.Regex.{is_digit}

-- What lies before the last separator, and behind it.
unfoldable pub cut_last : ℕ → Text → Option (Text × Text)
cut_last sep [] = none
cut_last sep (c ∷ s) = elim (cut_last sep s) [
  | none ↦ if c == sep then some ([], s) else none
  | some cut ↦ some (c ∷ cut.0, cut.1)
]

abbrev pub no_brackets : Text → Bool
no_brackets s = not (contains (text "[") s || contains (text "]") s)

-- The host in front of its closing bracket.
abbrev pub closed : Text → Option (Text × Text) → Option (Text × Text)
closed port none = none
closed port (some (host, rest)) =
    if text_eq rest [] && no_brackets host && no_brackets port then some (host, port) else none

abbrev pub without_bracket : Text → Text
without_bracket [] = []
without_bracket (c ∷ s) = s

abbrev pub checked_parts : Text → Text → Option (Text × Text)
unfolding cut_last
checked_parts front port =
    if has_prefix (text "[") front
    then closed port (cut_last b']' (without_bracket front))
    else if not (contains (text ":") front) && no_brackets front && no_brackets port
    then some (front, port)
    else none

abbrev pub parts_of : Option (Text × Text) → Option (Text × Text)
parts_of none = none
parts_of (some (front, port)) = checked_parts front port

-- `SplitHostPort`.
unfoldable pub split_host_port : Text → Option (Text × Text)
split_host_port s = parts_of (cut_last b':' s)

unfoldable pub digits_value : ℕ → Text → Option ℕ
unfolding is_digit
digits_value n [] = some n
digits_value n (c ∷ s) =
    let rest = digits_value (n * 10 + (c - b'0')) s in if is_digit c then rest else none

unfoldable pub number : Text → Option ℕ
unfolding digits_value
number [] = none
number (c ∷ s) = digits_value 0 (c ∷ s)

abbrev pub positive : Option ℕ → Option ℤ
positive none = none
positive (some n) = if ltb n int64_limit then some (pos n) else none

abbrev pub opposite : ℕ → ℤ
opposite zero = pos zero
opposite (suc n) = negsuc n

abbrev pub negative : Option ℕ → Option ℤ
negative none = none
negative (some n) = if leb n int64_limit then some (opposite n) else none

-- `Atoi`, on a 64-bit machine.
unfoldable pub atoi : Text → Option ℤ
atoi [] = none
atoi (c ∷ s) =
    if c == b'-'
    then negative (number s)
    else if c == b'+'
    then positive (number s)
    else positive (number (c ∷ s))
