-- ===== src/GoNet/Laws.antt =====
-- What `net.SplitHostPort` leaves of a text.
use ephemos.Base.{
  ℕ, ◌≡◌, refl, ap, ◌∙◌, inl, inr, Bool, true, false, not, ◌&&◌, Option, none, some, [], ◌∷◌, ◌++◌,
  arith, ◌==◌, if◌then◌else◌, Option-cases,
}
use ephemos.GoText.{Text, text, has_prefix, contains}
use ephemos.GoNet.{parts_of, cut_last, split_host_port, checked_parts, no_brackets}

pub if_some {ℓ} :
    {A : Type ℓ} (b : Bool) (x d : A) → (if b then some x else none) ≡ some d → (b ≡ true) × (x ≡ d)
if_some true x d h = (refl, cc)
if_some false x d h = cc

in_front : ℕ → Text × Text → Text × Text
in_front c cut = (c ∷ cut.0, cut.1)

joined : ℕ → Text × Text → Text
joined sep cut = cut.0 ++ sep ∷ cut.1

cut_last-joined :
    (sep : ℕ) (s : Text) (cut : Text × Text) → cut_last sep s ≡ some cut → s ≡ joined sep cut
unfolding cut_last joined in_front
cut_last-joined sep [] cut h = cc
cut_last-joined sep (c ∷ s) cut h = elim (Option-cases (cut_last sep s)) [
  | inl e ↦
      let (b, f) = if_some (c == sep) ([], s) cut (rw e at h) in
      let same : c ≡ sep = ground arith in ap (λ d. d ∷ s) same ∙ ap (joined sep) f
  | inr (d, e) ↦
      let g = cut_last-joined sep s d e in
      let k : some (in_front c d) ≡ some cut = rw e at h in
      let f : in_front c d ≡ cut = cc in ap (λ t. c ∷ t) g ∙ ap (joined sep) f
]

no_bracket :
    (front rest : Text)
    → has_prefix (text "[") (front ++ rest) ≡ false
    → has_prefix (text "[") front ≡ false
unfolding has_prefix
no_bracket [] rest h = refl
no_bracket (c ∷ front) rest h = h

from_cut :
    (s : Text) (cut : Option (Text × Text)) (parts : Text × Text)
    → cut_last b':' s ≡ cut
    → has_prefix (text "[") s ≡ false
    → parts_of cut ≡ some parts
    → s ≡ joined b':' parts
unfolding joined checked_parts
from_cut s none parts e b h = cc
from_cut s (some (front, port)) parts e b h =
    let g = cut_last-joined b':' s (front, port) e in
    let n = no_bracket front (b':' ∷ port) (rw g at b) in
    let (t, f) =
      if_some (not (contains (text ":") front) && no_brackets front && no_brackets port)
        (front, port) parts (rw n at h) in
    g ∙ ap (joined b':') f

pub split_host_port-joined :
    (s : Text) (parts : Text × Text)
    → has_prefix (text "[") s ≡ false
    → split_host_port s ≡ some parts
    → s ≡ parts.0 ++ b':' ∷ parts.1
unfolding split_host_port joined
split_host_port-joined s parts b h = from_cut s (cut_last b':' s) parts refl b h
