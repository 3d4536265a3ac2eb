-- ===== src/Regex/Laws.antt =====
-- The matcher decides the language of a pattern.
use ephemos.Base.{
  ℕ, ◌≡◌, refl, sym, ap, ◌∙◌, Bool, true, false, ◌↔◌, inl, inr, [], ◌∷◌, ◌++◌, arith, Bool-cases,
  if◌then◌else◌,
}
use ephemos.GoText.{Text}
use ephemos.Regex.{Regex, never, empty, class, seq, alt, star, accepts_empty, derive, matches}

-- The language of a pattern, as a relation.
pub data Matches : Regex → Text → Type 0 where
  nothing : Matches empty []
  one : {p : ℕ → Bool} {c : ℕ} → p c ≡ true → Matches (class p) (c ∷ [])
  both :
      {r q : Regex} {u : Text} (s t : Text)
      → Matches r s
      → Matches q t
      → u ≡ s ++ t
      → Matches (seq r q) u
  left : {r q : Regex} {u : Text} → Matches r u → Matches (alt r q) u
  right : {r q : Regex} {u : Text} → Matches q u → Matches (alt r q) u
  stop : {r : Regex} → Matches (star r) []
  again :
      {r : Regex} {u : Text} (s t : Text)
      → Matches r s
      → Matches (star r) t
      → u ≡ s ++ t
      → Matches (star r) u

accepts_empty_sound : (r : Regex) → accepts_empty r ≡ true → Matches r []
unfolding accepts_empty
accepts_empty_sound never h = cc
accepts_empty_sound empty h = nothing
accepts_empty_sound (class p) h = cc
accepts_empty_sound (seq r q) h =
    let a : accepts_empty r ≡ true = ground arith in
    let b : accepts_empty q ≡ true = ground arith in
    both [] [] (accepts_empty_sound r a) (accepts_empty_sound q b) refl
accepts_empty_sound (alt r q) h = elim (Bool-cases (accepts_empty r)) [
  | inl a ↦ left (accepts_empty_sound r a)
  | inr n ↦ right (accepts_empty_sound q (rw n at h))
]
accepts_empty_sound (star r) h = stop

class_sound :
    (p : ℕ → Bool) (c : ℕ) (s : Text)
    → (b : Bool) → p c ≡ b
    → Matches (if b then empty else never) s
    → Matches (class p) (c ∷ s)
class_sound p c s true h nothing = one h
class_sound p c s false h m = elim m [ ]

seq_sound :
    (r q : Regex) (c : ℕ) (s : Text) (d e : Regex)
    → ((a : Text) → Matches d a → Matches r (c ∷ a))
    → ((a : Text) → Matches e a → Matches q (c ∷ a))
    → (b : Bool) → accepts_empty r ≡ b
    → Matches (if b then alt (seq d q) e else seq d q) s
    → Matches (seq r q) (c ∷ s)
seq_sound r q c s d e f g true h (left (both a b m k p)) =
    both (c ∷ a) b (f a m) k (ap (λ (t : Text). c ∷ t) p)
seq_sound r q c s d e f g true h (right m) = both [] (c ∷ s) (accepts_empty_sound r h) (g s m) refl
seq_sound r q c s d e f g false h (both a b m k p) =
    both (c ∷ a) b (f a m) k (ap (λ (t : Text). c ∷ t) p)

derive_sound : (r : Regex) (c : ℕ) (s : Text) → Matches (derive c r) s → Matches r (c ∷ s)
unfolding derive
derive_sound never c s m = elim m [ ]
derive_sound empty c s m = elim m [ ]
derive_sound (class p) c s m = class_sound p c s (p c) refl m
derive_sound (seq r q) c s m =
    seq_sound r q c s (derive c r) (derive c q) (derive_sound r c) (derive_sound q c)
      (accepts_empty r) refl m
derive_sound (alt r q) c s (left m) = left (derive_sound r c s m)
derive_sound (alt r q) c s (right m) = right (derive_sound q c s m)
derive_sound (star r) c s (both a b m k e) =
    again (c ∷ a) b (derive_sound r c a m) k (ap (λ (t : Text). c ∷ t) e)

pub matches_sound : (r : Regex) (s : Text) → matches r s ≡ true → Matches r s
unfolding matches
matches_sound r [] h = accepts_empty_sound r h
matches_sound r (c ∷ s) h = derive_sound r c s (matches_sound (derive c r) s h)

accepts_empty_complete : {r : Regex} {u : Text} → Matches r u → u ≡ [] → accepts_empty r ≡ true
unfolding accepts_empty
accepts_empty_complete nothing e = refl
accepts_empty_complete (one h) e = cc
accepts_empty_complete (both [] [] m k p) e =
    ground (arith, accepts_empty_complete m refl, accepts_empty_complete k refl)
accepts_empty_complete (both [] (d ∷ t) m k p) e = cc
accepts_empty_complete (both (d ∷ s) t m k p) e = cc
accepts_empty_complete (left m) e = ground (arith, accepts_empty_complete m e)
accepts_empty_complete (right m) e = ground (arith, accepts_empty_complete m e)
accepts_empty_complete stop e = refl
accepts_empty_complete (again s t m k p) e = refl

derive_seq_first :
    (r q : Regex) (c : ℕ) {a b s : Text}
    → Matches (derive c r) a
    → Matches q b
    → s ≡ a ++ b
    → (t : Bool)
    → Matches (if t then alt (seq (derive c r) q) (derive c q) else seq (derive c r) q) s
derive_seq_first r q c {a} {b} m k e true = left (both a b m k e)
derive_seq_first r q c {a} {b} m k e false = both a b m k e

tail_eq : {c d : ℕ} {s t : Text} → c ∷ s ≡ d ∷ t → s ≡ t
tail_eq e = cc

head_eq : {c d : ℕ} {s t : Text} → c ∷ s ≡ d ∷ t → c ≡ d
head_eq e = cc

derive_complete :
    {r : Regex} {u : Text} → Matches r u → (c : ℕ) (s : Text) → u ≡ c ∷ s → Matches (derive c r) s
unfolding derive
derive_complete nothing c s e = cc
derive_complete (one {p} {c = d} h) c s e = rw (← tail_eq e) (rw (← head_eq e) (rw h nothing))
derive_complete (both {r} {q} [] t m k p) c s e =
    rw (accepts_empty_complete m refl) (right (derive_complete k c s (sym p ∙ e)))
derive_complete (both {r} {q} (d ∷ a) t m k p) c s e =
    derive_seq_first r q c (derive_complete m c a (cc (head_eq (sym p ∙ e)))) k
      (sym (tail_eq (sym p ∙ e))) (accepts_empty r)
derive_complete (left m) c s e = left (derive_complete m c s e)
derive_complete (right m) c s e = right (derive_complete m c s e)
derive_complete stop c s e = cc
derive_complete (again [] t m k p) c s e = derive_complete k c s (sym p ∙ e)
derive_complete (again (d ∷ a) t m k p) c s e =
    both a t (derive_complete m c a (cc (head_eq (sym p ∙ e)))) k (sym (tail_eq (sym p ∙ e)))

pub matches_complete : {r : Regex} (s : Text) → Matches r s → matches r s ≡ true
unfolding matches
matches_complete [] m = accepts_empty_complete m refl
matches_complete (c ∷ s) m = matches_complete s (derive_complete m c s refl)

-- The matcher decides the language.
pub matches_iff : (r : Regex) (s : Text) → (matches r s ≡ true) ↔ Matches r s
matches_iff r s = (matches_sound r s, matches_complete s)
