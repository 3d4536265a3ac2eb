-- ===== src/Services/Keyed.antt =====
-- A Go map with strings for keys, as an association list: reading, writing and deleting a key.
pub mod Laws
use ephemos.Base.{
  ℕ, zero, suc, ◌+◌, ◌-◌, ◌≤◌, ◌<◌, ◌≡◌, refl, sym, ap, ◌∙◌, ◌≢◌, ◌↔◌, ◌⊎◌, inl, inr, Bool, true,
  false, not, ◌&&◌, ◌||◌, Option, none, some, List, [], ◌∷◌, ◌++◌, map, arith, ltb, leb, ◌==◌,
  if◌then◌else◌, Bool-cases, Option-cases, Result, ok, err, fail_if, wrap, ◌>>=◌, ◌>>◌, length, All,
}
use ephemos.GoText.{Text, text_eq}

unfoldable pub find {ℓ} : {A : Type ℓ} → Text → List (Text × A) → Option A
find id [] = none
find id ((k, c) ∷ m) = let rest = find id m in if text_eq k id then some c else rest

unfoldable pub put {ℓ} : {A : Type ℓ} → Text → A → List (Text × A) → List (Text × A)
put id c [] = (id, c) ∷ []
put id c ((k, d) ∷ m) = let rest = put id c m in if text_eq k id then (id, c) ∷ m else (k, d) ∷ rest

unfoldable pub remove {ℓ} : {A : Type ℓ} → Text → List (Text × A) → List (Text × A)
remove id [] = []
remove id ((k, c) ∷ m) = let rest = remove id m in if text_eq k id then rest else (k, c) ∷ rest
