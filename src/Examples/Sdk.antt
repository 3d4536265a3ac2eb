-- ===== src/Examples/Sdk.antt =====
-- An SDK with the one trust domain "corp", which has the laws that the theorems take from go-spiffe.
use ephemos.Base.{
  ◌≡◌, refl, sym, ap, ◌∙◌, ◌≢◌, inl, inr, Bool, true, false, not, ◌&&◌, Option, none, some, [], ◌∷◌,
  ◌++◌, arith, ◌==◌, if◌then◌else◌, Bool-cases, All,
}
use mathlib.Core.Path.{subst}
use ephemos.Base.{==_iff}
use ephemos.GoText.{Text, text, text_eq, has_suffix}
use ephemos.Domain.Spiffe.{Sdk, SpiffeId, IsSdk, IsDomainName, id_string, scheme}

abbrev pub corp : Text
corp = text "corp"

abbrev strip : Text → Text → Option Text
strip [] s = some s
strip (c ∷ p) [] = none
strip (c ∷ p) (d ∷ s) = let rest = strip p s in if c == d then rest else none

abbrev path_ok : Text → Bool
path_ok [] = true
path_ok (c ∷ p) = (c == b'/') && not (has_suffix (text "/") (c ∷ p))

abbrev of_path : Text → Option SpiffeId
of_path p = if path_ok p then some (record { domain = corp; path = p }) else none

abbrev of_text : Option Text → Option SpiffeId
of_text none = none
of_text (some p) = of_path p

abbrev pub corp_sdk : Sdk
corp_sdk = record {
  trust_domain_from_string = λ s. if text_eq s corp then some corp else none;
  validate_path = path_ok;
  from_string = λ s. of_text (strip (scheme ++ corp) s);
  from_uri = λ u. of_text (strip (scheme ++ corp) u.whole);
  from_path = λ d p. if text_eq d corp then of_path p else none;
}

if_some {ℓ} :
    {A : Type ℓ} (b : Bool) (x d : A) → (if b then some x else none) ≡ some d → (b ≡ true) × (x ≡ d)
if_some true x d h = (refl, cc)
if_some false x d h = cc

only_corp : (s d : Text) → corp_sdk.trust_domain_from_string s ≡ some d → d ≡ corp
only_corp s d h = sym (if_some (text_eq s corp) corp d h).1

corp_again : corp_sdk.trust_domain_from_string corp ≡ some corp
corp_again = refl

strip-append : (p s : Text) → strip p (p ++ s) ≡ some s
strip-append [] s = refl
strip-append (c ∷ p) s = rw ((==_iff c c).1 refl) (strip-append p s)

of_path-parts :
    (p : Text) (id : SpiffeId) → of_path p ≡ some id → (id.domain ≡ corp) × (path_ok id.path ≡ true)
of_path-parts p id h =
    let (e, q) = if_some (path_ok p) (record { domain = corp; path = p }) id h in
    (sym (ap (λ (i : SpiffeId). i.domain) q), subst (λ (i : SpiffeId). path_ok i.path ≡ true) q e)

of_text-parts :
    (o : Option Text) (id : SpiffeId)
    → of_text o ≡ some id
    → (id.domain ≡ corp) × (path_ok id.path ≡ true)
of_text-parts none id h = cc
of_text-parts (some p) id h = of_path-parts p id h

named :
    (id : SpiffeId)
    → (id.domain ≡ corp) × (path_ok id.path ≡ true)
    → IsDomainName corp_sdk id.domain × (path_ok id.path ≡ true)
named id (d, p) = (subst (IsDomainName corp_sdk) (sym d) corp_again, p)

no_slashes : All (λ c. c ≢ b'/') corp
no_slashes = (cc, (cc, (cc, (cc, tt))))

path_ok-end : (p : Text) → path_ok p ≡ true → has_suffix (text "/") p ≡ false
unfolding has_suffix
path_ok-end [] h = refl
path_ok-end (c ∷ p) h = ground arith

of_path-some : (p : Text) → path_ok p ≡ true → of_path p ≡ some (record { domain = corp; path = p })
of_path-some p h = rw h refl

string_again :
    (p : Text)
    → path_ok p ≡ true
    → of_text (strip (scheme ++ corp) (id_string (record { domain = corp; path = p })))
      ≡ some (record { domain = corp; path = p })
unfolding id_string
string_again p h = of_path-some p h

path_refused :
    (p d : Text) → path_ok p ≡ false → (if text_eq d corp then of_path p else none) ≡ none
path_refused p d h = elim (Bool-cases (text_eq d corp)) [
  | inl e ↦ rw (e, h) refl
  | inr e ↦ rw e refl
]

pub corp-IsSdk : IsSdk corp_sdk
corp-IsSdk = record {
  domain_again = λ s d h. subst (IsDomainName corp_sdk) (sym (only_corp s d h)) corp_again;
  domain_not_empty = λ d h e. cc (sym (only_corp d d h) ∙ e);
  domain_no_slash = λ d h. subst (All (λ c. c ≢ b'/')) (sym (only_corp d d h)) no_slashes;
  path_end = path_ok-end;
  path_start = λ c p h. ground (arith, ==_iff c b'/');
  id_parts = λ s id h. named id (of_text-parts (strip (scheme ++ corp) s) id h);
  uri_parts = λ u id h. named id (of_text-parts (strip (scheme ++ corp) u.whole) id h);
  id_again = λ id d p.
      subst
        (λ (e : Text).
          of_text (strip (scheme ++ corp) (id_string (record { domain = e; path = id.path })))
          ≡ some (record { domain = e; path = id.path }))
        (sym (only_corp id.domain id.domain d)) (string_again id.path p);
  from_path_valid = λ d p h q.
      subst
        (λ (e : Text).
          (if text_eq e corp then of_path p else none) ≡ some (record { domain = e; path = p }))
        (sym (only_corp d d h)) (of_path-some p q);
  from_path_invalid = λ d p h. path_refused p d h;
}
