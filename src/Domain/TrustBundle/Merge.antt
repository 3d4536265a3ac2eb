-- ===== src/Domain/TrustBundle/Merge.antt =====
-- Merging two bundles.
use mathlib.Core.Path.{subst}
use ephemos.Base.{◌≡◌, refl, ◌⊎◌, inl, inr, true, false, List, [], ◌∷◌, ◌++◌, Bool-cases}
use ephemos.GoText.{Text, text_eq}
use ephemos.GoText.Laws.{text_eq_iff}
use ephemos.Domain.X509.{X509}
use ephemos.Domain.TrustBundle.{TrustBundle, seen_before, raw_certificates, collect_unique, keep}
use ephemos.Domain.TrustBundle.Valid.{Distinct, not-seen_before_iff}

-- What a pass leaves is new to the keys it began with and without repetition, and the keys it ends
-- with are those, in front of the ones it began with.
abbrev grow : List Text → List X509 → List Text
grow seen [] = seen
grow seen (c ∷ cs) = grow (c.public_key_info ∷ seen) cs

collect_skip :
    (seen : List Text) (c : X509) (cs : List X509)
    → seen_before c.public_key_info seen ≡ true
    → collect_unique seen (c ∷ cs) ≡ collect_unique seen cs
unfolding collect_unique
collect_skip seen c cs e = rw (e, collect_unique)

collect_keep :
    (seen : List Text) (c : X509) (cs : List X509)
    → seen_before c.public_key_info seen ≡ false
    → collect_unique seen (c ∷ cs) ≡ keep c (collect_unique (c.public_key_info ∷ seen) cs)
unfolding collect_unique
collect_keep seen c cs e = rw (e, collect_unique)

collect_unique-Distinct :
    (seen : List Text) (cs : List X509)
    → Distinct seen (collect_unique seen cs).0
      × ((collect_unique seen cs).1 ≡ grow seen (collect_unique seen cs).0)
collect_unique-Distinct seen [] = unfold collect_unique in (tt, refl)
collect_unique-Distinct seen (c ∷ cs) = elim (Bool-cases (seen_before c.public_key_info seen)) [
  | inl e ↦ rw (collect_skip seen c cs e) (collect_unique-Distinct seen cs)
  | inr e ↦
      let (d, g) = collect_unique-Distinct (c.public_key_info ∷ seen) cs in
      rw (collect_keep seen c cs e) (((not-seen_before_iff c.public_key_info seen).0 e, d), g)
]

Distinct-append :
    (seen : List Text) (cs ds : List X509)
    → Distinct seen cs
    → Distinct (grow seen cs) ds
    → Distinct seen (cs ++ ds)
Distinct-append seen [] ds h k = k
Distinct-append seen (c ∷ cs) ds (n, h) k =
    (n, Distinct-append (c.public_key_info ∷ seen) cs ds h k)

-- The certificates that a merge keeps.
abbrev pub merged : TrustBundle → TrustBundle → List X509
merged b other =
    let (first, seen) = collect_unique [] (raw_certificates b.certificates) in
    let (second, _) = collect_unique seen (raw_certificates other.certificates) in first ++ second

pub merged-Distinct : (b other : TrustBundle) → Distinct [] (merged b other)
merged-Distinct b other =
    let (d, g) = collect_unique-Distinct [] (raw_certificates b.certificates) in
    let (d', _) =
      collect_unique-Distinct (collect_unique [] (raw_certificates b.certificates)).1
        (raw_certificates other.certificates) in
    Distinct-append [] (collect_unique [] (raw_certificates b.certificates)).0
      (collect_unique (collect_unique [] (raw_certificates b.certificates)).1
        (raw_certificates other.certificates)).0
      d
      (subst
        (λ (seen : List Text).
          Distinct seen
            (collect_unique (collect_unique [] (raw_certificates b.certificates)).1
              (raw_certificates other.certificates)).0)
        g d')

-- A key that some certificate of the list has.
abbrev pub HasKey : Text → List X509 → Type 0
HasKey k [] = ⊥
HasKey k (c ∷ cs) = (c.public_key_info ≡ k) ⊎ HasKey k cs

HasKey-append_left : (k : Text) (cs ds : List X509) → HasKey k cs → HasKey k (cs ++ ds)
HasKey-append_left k [] ds h = absurd h
HasKey-append_left k (c ∷ cs) ds (inl e) = inl e
HasKey-append_left k (c ∷ cs) ds (inr h) = inr (HasKey-append_left k cs ds h)

HasKey-append_right : (k : Text) (cs ds : List X509) → HasKey k ds → HasKey k (cs ++ ds)
HasKey-append_right k [] ds h = h
HasKey-append_right k (c ∷ cs) ds h = inr (HasKey-append_right k cs ds h)

-- Every key that is in the list is kept, unless it was there before.
collect_unique-HasKey :
    (k : Text) (seen : List Text) (cs : List X509)
    → HasKey k cs
    → (seen_before k seen ≡ true) ⊎ HasKey k (collect_unique seen cs).0
collect_unique-HasKey k seen [] h = absurd h
collect_unique-HasKey k seen (c ∷ cs) h = elim (Bool-cases (seen_before c.public_key_info seen)) [
  | inl e ↦
      rw (collect_skip seen c cs e) (elim h [
        | inl same ↦ inl (rw same at e)
        | inr later ↦ collect_unique-HasKey k seen cs later
      ])
  | inr e ↦ rw (collect_keep seen c cs e) (elim h [
    | inl same ↦ inr (inl same)
    | inr later ↦ elim (collect_unique-HasKey k (c.public_key_info ∷ seen) cs later) [
      | inr kept ↦ inr (inr kept)
      | inl before ↦ elim (Bool-cases (text_eq c.public_key_info k)) [
        | inl same ↦ inr (inl ((text_eq_iff c.public_key_info k).0 same))
        | inr other ↦ inl (unfold seen_before in rw other at before)
      ]
    ]
  ])
]

seen_before-grow :
    (k : Text) (seen : List Text) (cs : List X509)
    → seen_before k (grow seen cs) ≡ true
    → (seen_before k seen ≡ true) ⊎ HasKey k cs
unfolding seen_before
seen_before-grow k seen [] h = inl h
seen_before-grow k seen (c ∷ cs) h = elim (seen_before-grow k (c.public_key_info ∷ seen) cs h) [
  | inr later ↦ inr (inr later)
  | inl e ↦ elim (Bool-cases (text_eq c.public_key_info k)) [
    | inl same ↦ inr (inl ((text_eq_iff c.public_key_info k).0 same))
    | inr other ↦ inl (rw other at e)
  ]
]

pub merged-HasKey :
    (k : Text) (b other : TrustBundle)
    → HasKey k (raw_certificates b.certificates) ⊎ HasKey k (raw_certificates other.certificates)
    → HasKey k (merged b other)
merged-HasKey k b other h =
    let first = collect_unique [] (raw_certificates b.certificates) in
    let second = collect_unique first.1 (raw_certificates other.certificates) in
    let (_, g) = collect_unique-Distinct [] (raw_certificates b.certificates) in
    let in_first : seen_before k [] ≡ true → HasKey k first.0 = λ e. unfold seen_before in cc in
    elim h [
      | inl a ↦ elim (collect_unique-HasKey k [] _ a) [
        | inl e ↦ HasKey-append_left k first.0 second.0 (in_first e)
        | inr kept ↦ HasKey-append_left k first.0 second.0 kept
      ]
      | inr a ↦ elim (collect_unique-HasKey k first.1 _ a) [
        | inr kept ↦ HasKey-append_right k first.0 second.0 kept
        | inl e ↦ elim (seen_before-grow k [] first.0 (rw g at e)) [
          | inl none_yet ↦ HasKey-append_left k first.0 second.0 (in_first none_yet)
          | inr kept ↦ HasKey-append_left k first.0 second.0 kept
        ]
      ]
    ]
