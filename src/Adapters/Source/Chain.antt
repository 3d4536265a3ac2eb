-- ===== src/Adapters/Source/Chain.antt =====
-- The chain that buildCertificateChain of grpc_provider_rotatable.go builds.
use ephemos.Base.{
  ◌≡◌, refl, sym, ◌∙◌, ◌↔◌, ◌⊎◌, inl, inr, true, false, List, [], ◌∷◌, arith, Bool-cases,
}
use mathlib.Core.Path.{subst}
use ephemos.GoText.{Text}
use ephemos.GoText.Laws.{text_eq_iff}
use ephemos.Domain.X509.{X509}
use ephemos.Domain.TrustBundle.{seen_before}
use ephemos.Adapters.Source.{add_unseen, build_certificate_chain}

abbrev pub HasRaw : Text → List X509 → Type 0
HasRaw raw [] = ⊥
HasRaw raw (c ∷ cs) = (c.raw ≡ raw) ⊎ HasRaw raw cs

-- No two certificates have the same DER bytes.
abbrev pub DistinctRaw : List X509 → Type 0
DistinctRaw [] = Unit
DistinctRaw (c ∷ cs) = (¬ HasRaw c.raw cs) × DistinctRaw cs

abbrev Seen : Text → List Text → Type 0
Seen raw [] = ⊥
Seen raw (k ∷ ks) = (k ≡ raw) ⊎ Seen raw ks

seen_before_iff : (raw : Text) (ks : List Text) → (seen_before raw ks ≡ true) ↔ Seen raw ks
unfolding seen_before
seen_before_iff raw [] = (λ h. cc, λ h. absurd h)
seen_before_iff raw (k ∷ ks) = ground (arith, text_eq_iff k raw, seen_before_iff raw ks)

add_unseen-seen :
    (ks : List Text) (c : X509) (cs : List X509)
    → seen_before c.raw ks ≡ true
    → add_unseen ks (c ∷ cs) ≡ add_unseen ks cs
unfolding add_unseen
add_unseen-seen ks c cs e = rw (e, add_unseen) refl

add_unseen-new :
    (ks : List Text) (c : X509) (cs : List X509)
    → seen_before c.raw ks ≡ false
    → add_unseen ks (c ∷ cs) ≡ c ∷ add_unseen (c.raw ∷ ks) cs
unfolding add_unseen
add_unseen-new ks c cs e = rw (e, add_unseen) refl

not-Seen : (raw : Text) (ks : List Text) → seen_before raw ks ≡ false → ¬ Seen raw ks
not-Seen raw ks e s = cc (sym e ∙ (seen_before_iff raw ks).1 s)

nothing_kept : (raw : Text) (ks : List Text) → ¬ HasRaw raw (add_unseen ks [])
unfolding add_unseen
nothing_kept raw ks h = h

nothing_distinct : (ks : List Text) → DistinctRaw (add_unseen ks [])
unfolding add_unseen
nothing_distinct ks = tt

kept_first :
    (raw : Text) (ks : List Text) (c : X509) (cs : List X509)
    → seen_before c.raw ks ≡ false
    → HasRaw raw (add_unseen ks (c ∷ cs))
    → (c.raw ≡ raw) ⊎ HasRaw raw (add_unseen (c.raw ∷ ks) cs)
kept_first raw ks c cs e h = subst (HasRaw raw) (add_unseen-new ks c cs e) h

still_there :
    (raw : Text) (ks : List Text) (c : X509) (cs : List X509)
    → seen_before c.raw ks ≡ false
    → (c.raw ≡ raw) ⊎ HasRaw raw (add_unseen (c.raw ∷ ks) cs)
    → HasRaw raw (add_unseen ks (c ∷ cs))
still_there raw ks c cs e h = subst (HasRaw raw) (sym (add_unseen-new ks c cs e)) h

-- The certificates that are kept have bytes that were not seen.
unseen :
    (raw : Text) (ks : List Text) (cs : List X509) → Seen raw ks → ¬ HasRaw raw (add_unseen ks cs)
unseen raw ks [] s h = nothing_kept raw ks h
unseen raw ks (c ∷ cs) s h = elim (Bool-cases (seen_before c.raw ks)) [
  | inl e ↦ unseen raw ks cs s (subst (HasRaw raw) (add_unseen-seen ks c cs e) h)
  | inr e ↦ elim (kept_first raw ks c cs e h) [
    | inl q ↦ not-Seen c.raw ks e (subst (λ (r : Text). Seen r ks) (sym q) s)
    | inr r ↦ unseen raw (c.raw ∷ ks) cs (inr s) r
  ]
]

distinct : (ks : List Text) (cs : List X509) → DistinctRaw (add_unseen ks cs)
distinct ks [] = nothing_distinct ks
distinct ks (c ∷ cs) = elim (Bool-cases (seen_before c.raw ks)) [
  | inl e ↦ subst DistinctRaw (sym (add_unseen-seen ks c cs e)) (distinct ks cs)
  | inr e ↦
      subst DistinctRaw (sym (add_unseen-new ks c cs e))
        (unseen c.raw (c.raw ∷ ks) cs (inl refl), distinct (c.raw ∷ ks) cs)
]

-- What is kept is one of the certificates.
sound :
    (raw : Text) (ks : List Text) (cs : List X509) → HasRaw raw (add_unseen ks cs) → HasRaw raw cs
sound raw ks [] h = nothing_kept raw ks h
sound raw ks (c ∷ cs) h = elim (Bool-cases (seen_before c.raw ks)) [
  | inl e ↦ inr (sound raw ks cs (subst (HasRaw raw) (add_unseen-seen ks c cs e) h))
  | inr e ↦ elim (kept_first raw ks c cs e h) [
    | inl q ↦ inl q
    | inr r ↦ inr (sound raw (c.raw ∷ ks) cs r)
  ]
]

-- All bytes are there, of those seen before and of the certificates.
complete :
    (raw : Text) (ks : List Text) (cs : List X509)
    → HasRaw raw cs
    → Seen raw ks ⊎ HasRaw raw (add_unseen ks cs)
complete raw ks [] h = absurd h
complete raw ks (c ∷ cs) h = elim (Bool-cases (seen_before c.raw ks)) [
  | inl e ↦ elim h [
    | inl q ↦ inl (subst (λ (r : Text). Seen r ks) q ((seen_before_iff c.raw ks).0 e))
    | inr r ↦ elim (complete raw ks cs r) [
      | inl s ↦ inl s
      | inr t ↦ inr (subst (HasRaw raw) (sym (add_unseen-seen ks c cs e)) t)
    ]
  ]
  | inr e ↦ elim h [
    | inl q ↦ inr (still_there raw ks c cs e (inl q))
    | inr r ↦ elim (complete raw (c.raw ∷ ks) cs r) [
      | inl (inl q) ↦ inr (still_there raw ks c cs e (inl q))
      | inl (inr s) ↦ inl s
      | inr t ↦ inr (still_there raw ks c cs e (inr t))
    ]
  ]
]

-- The chain of a certificate begins with the leaf, holds no DER bytes twice, and holds exactly the
-- DER bytes of the leaf and the intermediates.
pub build_certificate_chain_lem :
    (leaf : X509) (chain : List X509)
    → (rest : List X509) × (build_certificate_chain leaf chain ≡ leaf ∷ rest)
      × DistinctRaw (leaf ∷ rest)
      × ((raw : Text) → HasRaw raw (leaf ∷ chain) ↔ HasRaw raw (leaf ∷ rest))
unfolding build_certificate_chain
build_certificate_chain_lem leaf chain =
    let ks : List Text = leaf.raw ∷ [] in
    (
      add_unseen ks chain,
      refl,
      (unseen leaf.raw ks chain (inl refl), distinct ks chain),
      λ raw. (
        λ h. elim h [
          | inl q ↦ inl q
          | inr r ↦ elim (complete raw ks chain r) [
            | inl (inl q) ↦ inl q
            | inl (inr s) ↦ absurd s
            | inr t ↦ inr t
          ]
        ],
        λ h. elim h [ inl q ↦ inl q | inr r ↦ inr (sound raw ks chain r) ],
      ),
    )
