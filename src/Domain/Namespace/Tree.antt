-- ===== src/Domain/Namespace/Tree.antt =====
-- The order of namespaces by their paths.
use mathlib.Core.List.{append_assoc, append-nil}
use ephemos.Base.{
  ◌<◌, length, ◌≡◌, refl, sym, ◌∙◌, ap, ◌⊎◌, inl, inr, [], ◌∷◌, ◌++◌, arith, Bool-cases, true,
  false, if◌then◌else◌,
}
use ephemos.GoText.{Text, text, text_eq, has_prefix, has_suffix}
use ephemos.GoText.Laws.{
  has_suffix_self, IsPrefix, IsSuffix, has_prefix_iff, has_suffix_iff, text_eq_iff, eq_of_text_eq,
}
use ephemos.Domain.TrustDomain.{domain_equals}
use ephemos.Domain.Namespace.{Namespace, is_child_of}

abbrev slash : Text
slash = text "/"

-- The path of a parent with a slash at its end.
abbrev folder : Text → Text
folder p = if has_suffix slash p then p else p ++ slash

record IsChild (n parent : Namespace) : Type 0 where
  same : n.domain.td ≡ parent.domain.td
  below : (parent.path ≡ slash) ⊎ IsPrefix (folder parent.path) n.path

is_child_of-IsChild : (n m : Namespace) → is_child_of n m ≡ true → IsChild n m
unfolding is_child_of domain_equals
is_child_of-IsChild n m h = elim (Bool-cases (text_eq n.domain.td m.domain.td)) [
  | inr d ↦ cc (rw d at h)
  | inl d ↦ record {
    same = eq_of_text_eq _ _ d;
    below = elim (Bool-cases (text_eq m.path slash)) [
      | inl r ↦ inl (eq_of_text_eq _ _ r)
      | inr r ↦ inr ((has_prefix_iff _ _).0 (rw (d, r) at h))
    ];
  }
]

IsChild-is_child_of : (n m : Namespace) → IsChild n m → is_child_of n m ≡ true
unfolding is_child_of domain_equals
IsChild-is_child_of n m k = rw ((text_eq_iff _ _).1 k.same) (elim k.below [
  | inl r ↦ rw ((text_eq_iff _ _).1 r)
  | inr p ↦ let e = (has_prefix_iff (folder m.path) n.path).1 p in ground arith
])

IsPrefix-trans : (p q r : Text) → IsPrefix p q → IsPrefix q r → IsPrefix p r
IsPrefix-trans p q r (a, e) (b, f) = (a ++ b, f ∙ ap (λ (t : Text). t ++ b) e ∙ append_assoc p a b)

folder-ends : (p : Text) → IsSuffix slash (folder p)
folder-ends p = elim (Bool-cases (has_suffix slash p)) [
  | inl h ↦ rw h ((has_suffix_iff slash p).0 h)
  | inr h ↦ rw h (p, refl)
]

IsPrefix-folder : (p : Text) → IsPrefix p (folder p)
IsPrefix-folder p = elim (Bool-cases (has_suffix slash p)) [
  | inl h ↦ rw h ([], sym (append-nil p))
  | inr h ↦ rw h (slash, refl)
]

-- A text that ends in a slash and is a prefix of "/" is "/".
prefix_of_slash : (front rest : Text) → slash ≡ (front ++ slash) ++ rest → front ++ slash ≡ slash
prefix_of_slash [] rest e = refl
prefix_of_slash (c ∷ []) rest e = cc
prefix_of_slash (c ∷ d ∷ front) rest e = cc

folder_of_root : (p : Text) → IsPrefix (folder p) slash → folder p ≡ slash
folder_of_root p (rest, e) =
    let (front, f) = folder-ends p in
    f ∙ prefix_of_slash front rest (e ∙ ap (λ (t : Text). t ++ rest) f)

below_trans :
    (a b c : Text)
    → IsPrefix slash a
    → (b ≡ slash) ⊎ IsPrefix (folder b) a
    → (c ≡ slash) ⊎ IsPrefix (folder c) b
    → (c ≡ slash) ⊎ IsPrefix (folder c) a
below_trans a b c h ab (inl e) = inl e
below_trans a b c h (inl e) (inr p) = let root = folder_of_root c (rw e at p) in inr (rw root h)
below_trans a b c h (inr q) (inr p) =
    inr (IsPrefix-trans (folder c) b a p (IsPrefix-trans b (folder b) a (IsPrefix-folder b) q))

-- A child of a child is a child, for a path that begins with a slash.
is_child_of_trans :
    (a b c : Namespace)
    → has_prefix (text "/") a.path ≡ true
    → is_child_of a b ≡ true
    → is_child_of b c ≡ true
    → is_child_of a c ≡ true
is_child_of_trans a b c h p q =
    let ab = is_child_of-IsChild a b p in
    let bc = is_child_of-IsChild b c q in
    IsChild-is_child_of a c (record {
      same = ab.same ∙ bc.same;
      below =
          below_trans a.path b.path c.path ((has_prefix_iff slash a.path).0 h) ab.below bc.below;
    })

longer : (p rest : Text) → length p < length ((p ++ slash) ++ rest)
longer [] rest = omega arith
longer (c ∷ p) rest = omega (arith, longer p rest)

-- No namespace is its own child, unless its path ends in a slash (the root's does).
pub is_child_of_irrefl :
    (n : Namespace) → has_suffix (text "/") n.path ≡ false → is_child_of n n ≡ false
is_child_of_irrefl n h = elim (Bool-cases (is_child_of n n)) [
  | inr e ↦ e
  | inl e ↦ elim (is_child_of-IsChild n n e).below [
    | inl r ↦ cc (rw (r, has_suffix_self slash) at h)
    | inr (rest, f) ↦ let g = rw h at f in absurd (omega (arith, longer n.path rest, ap length g))
  ]
]
