-- ===== src/Regex/Shapes.antt =====
-- The languages of the source's name patterns, said without a pattern: the characters of a text, and
-- its two ends.
use ephemos.Base.{ℕ, ◌≡◌, refl, ap, Bool, true, ◌↔◌, [], ◌∷◌, ◌++◌, All}
use ephemos.GoText.{Text}
use ephemos.Regex.{Regex, class, seq, star, optional, matches}
use ephemos.Regex.Laws.{Matches, nothing, one, both, left, right, stop, again, matches_iff}

module _ (p : ℕ → Bool) where
  abbrev pub AllIn : Text → Type 0
  AllIn s = All (λ c. p c ≡ true) s

  abbrev pub Begins : Text → Type 0
  Begins s = (c : ℕ) × (rest : Text) × (s ≡ c ∷ rest) × (p c ≡ true)

  abbrev pub Ends : Text → Type 0
  Ends s = (front : Text) × (c : ℕ) × (s ≡ front ++ c ∷ []) × (p c ≡ true)

  pub AllIn-append : (s t : Text) → AllIn s → AllIn t → AllIn (s ++ t)
  AllIn-append [] t h k = k
  AllIn-append (c ∷ s) t h k = (h.0, AllIn-append s t h.1 k)

  pub AllIn-append_left : (s t : Text) → AllIn (s ++ t) → AllIn s
  AllIn-append_left [] t h = tt
  AllIn-append_left (c ∷ s) t h = (h.0, AllIn-append_left s t h.1)

  pub star_class_sound : {u : Text} → Matches (star (class p)) u → AllIn u
  star_class_sound stop = tt
  star_class_sound (again s t (one h) k e) = rw e (h, star_class_sound k)

  pub star_class_complete : (u : Text) → AllIn u → Matches (star (class p)) u
  star_class_complete [] h = stop
  star_class_complete (c ∷ u) h = again (c ∷ []) u (one h.0) (star_class_complete u h.1) refl

-- The last character of a text that is not empty.
pub snoc_view : (c : ℕ) (s : Text) → (front : Text) × (d : ℕ) × (c ∷ s ≡ front ++ d ∷ [])
snoc_view c [] = ([], c, refl)
snoc_view c (d ∷ s) =
    let view = snoc_view d s in (c ∷ view.0, view.1, ap (λ (t : Text). c ∷ t) view.2)

snoc_injective : (s t : Text) (c d : ℕ) → s ++ c ∷ [] ≡ t ++ d ∷ [] → (s ≡ t) × (c ≡ d)
snoc_injective [] [] c d e = (refl, cc)
snoc_injective [] (b ∷ []) c d e = cc
snoc_injective [] (b ∷ a ∷ t) c d e = cc
snoc_injective (b ∷ []) [] c d e = cc
snoc_injective (b ∷ a ∷ s) [] c d e = cc
snoc_injective (a ∷ s) (b ∷ t) c d e =
    let rest = snoc_injective s t c d (cc) in (cc (rest.0), rest.1)

head_eq : {c d : ℕ} {s t : Text} → c ∷ s ≡ d ∷ t → c ≡ d
head_eq e = cc

-- `p(q*p)?`: all of class `q`, with both ends of class `p`.
pub record Enclosed (p q : ℕ → Bool) (s : Text) : Type 0 where
  pub first : Begins p s
  pub last : Ends p s
  pub inside : AllIn q s

abbrev pub enclosed : (ℕ → Bool) → (ℕ → Bool) → Regex
enclosed p q = seq (class p) (optional (seq (star (class q)) (class p)))

module _ (p q : ℕ → Bool) (p_in_q : (c : ℕ) → p c ≡ true → q c ≡ true) where
  enclosed_sound : {s : Text} → Matches (enclosed p q) s → Enclosed p q s
  enclosed_sound (both _ _ (one {c} h) (left nothing) e) =
      rw e (record { first = (c, [], refl, h); last = ([], c, refl, h); inside = (p_in_q c h, tt) })
  enclosed_sound (both _ _ (one {c} h) (right (both a _ k (one {c = d} g) f)) e) =
      rw (e, f)
        (record {
          first = (c, a ++ d ∷ [], refl, h);
          last = (c ∷ a, d, refl, g);
          inside = (p_in_q c h, AllIn-append q a (d ∷ []) (star_class_sound q k) (p_in_q d g, tt));
        })

  enclosed_at :
      (front : Text) (d : ℕ)
      → p d ≡ true
      → Begins p (front ++ d ∷ [])
      → AllIn q (front ++ d ∷ [])
      → Matches (enclosed p q) (front ++ d ∷ [])
  enclosed_at [] d h b k = both (d ∷ []) [] (one h) (left nothing) refl
  enclosed_at (c ∷ a) d h (c', rest, e, g) k =
      let same : p c ≡ true = rw (head_eq e) g in
      both (c ∷ []) (a ++ d ∷ []) (one same)
        (right (
          both a (d ∷ []) (star_class_complete q a (AllIn-append_left q a (d ∷ []) k.1)) (one h)
            refl))
        refl

  enclosed_complete : (s : Text) → Enclosed p q s → Matches (enclosed p q) s
  enclosed_complete s n =
      let (front, d, e, h) = n.last in
      rw e (enclosed_at front d h (rw e at n.first) (rw e at n.inside))

  -- The pattern matches exactly the enclosed texts.
  pub enclosed_iff : (s : Text) → (matches (enclosed p q) s ≡ true) ↔ Enclosed p q s
  enclosed_iff s = (
    λ h. enclosed_sound ((matches_iff (enclosed p q) s).0 h),
    λ n. (matches_iff (enclosed p q) s).1 (enclosed_complete s n),
  )
