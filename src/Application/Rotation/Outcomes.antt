-- ===== src/Application/Rotation/Outcomes.antt =====
-- When the rotation of identity_rotation_service.go succeeds, and what it leaves.
use ephemos.Base.{
  ◌++◌, wrap-eq-ok, >>=-eq-ok, ◌<◌, ◌≡◌, refl, sym, ap, ◌∙◌, ◌≢◌, ◌↔◌, ◌⊎◌, Bool, true, false,
  Option, none, some, List, [], ◌∷◌, arith, Result, ok, err, fail_if, wrap, ◌>>=◌, ◌>>◌,
}
use mathlib.Core.Path.{subst}
use ephemos.GoTime.{after, Time}
use ephemos.Domain.X509.{X509}
use ephemos.Domain.Certificate.{validate, no_options}
use ephemos.Application.Providers.{
  get_svid, refresh, not_newer, Svid, Answers, AppError, Outside, certificate_of, not_trusted,
  get_bundle,
}
use ephemos.Application.Providers.Laws.{made_of, certificate_of-ok}
use ephemos.Application.Rotation.{
  Callback, notified, map, inl, inr, validate_chain, Text, after, RotationService, is_newer_svid,
  newer_certificates, validate_svid, installed, stale, settle, fetch_newer, rotate_identity,
  handle_external_rotation,
}

-- An SVID whose certificate validates, and is trusted.
abbrev pub ValidChain : Outside → Time → Answers → Svid → List X509 → Type 0
ValidChain o now a s [] = ⊥
ValidChain o now a s (leaf ∷ rest) =
    (a.trust_bundle ≡ ok tt)
    × (validate o.sdk o.verifier now (made_of leaf rest s.svid_key) no_options ≡ ok tt)
    × (a.trusted (made_of leaf rest s.svid_key) ≡ ok tt)

abbrev pub IsValidSvid : Outside → Time → Answers → Svid → Type 0
IsValidSvid o now a s = ValidChain o now a s s.certificates

-- Later in the order of issue first and expiry second.
abbrev NewerLeaf : X509 → X509 → Type 0
NewerLeaf x y =
    (x.not_before < y.not_before) ⊎ ((x.not_before ≡ y.not_before) × (x.not_after < y.not_after))

abbrev NewerChain : List X509 → List X509 → Type 0
NewerChain old [] = ⊥
NewerChain [] (y ∷ new) = Unit
NewerChain (x ∷ old) (y ∷ new) = NewerLeaf x y

abbrev pub IsNewer : Option Svid → Svid → Type 0
IsNewer none new = Unit
IsNewer (some old) new = NewerChain old.certificates new.certificates

newer_certificates_iff :
    (old new : List X509) → (newer_certificates old new ≡ true) ↔ NewerChain old new
unfolding newer_certificates after
newer_certificates_iff old [] = (λ h. cc, λ h. absurd h)
newer_certificates_iff [] (y ∷ new) = (λ h. tt, λ h. refl)
newer_certificates_iff (x ∷ old) (y ∷ new) = ground arith

stale_iff : (old : Option Svid) (new : Svid) → (stale old new ≡ false) ↔ IsNewer old new
unfolding is_newer_svid
stale_iff none new = (λ h. tt, λ h. refl)
stale_iff (some old) new = ground (arith, newer_certificates_iff old.certificates new.certificates)

svid_of : Result AppError Svid → Svid → Svid
svid_of (ok s) d = s
svid_of (err e) d = d

given : Svid → Result AppError Svid
given s = ok s

given-eq : (s t : Svid) → given s ≡ given t → s ≡ t
unfolding given svid_of
given-eq s t h = ap (λ r. svid_of r s) h

trusted-ok :
    (r : Result Text (Unit {0})) (s t : Svid)
    → (wrap not_trusted r >> ok s) ≡ ok t
    → (r ≡ ok tt) × (s ≡ t)
unfolding given
trusted-ok (ok tt) s t h = (refl, given-eq s t h)
trusted-ok (err e) s t h = cc

unstale :
    (b : Bool) (s t : Svid)
    → ((fail_if b not_newer >> given s) ≡ given t) ↔ ((b ≡ false) × (given s ≡ given t))
unfolding given
unstale true s t = (λ h. cc, λ h. cc)
unstale false s t = (λ h. (refl, h), λ h. h.1)

fetched : Option Svid → Result Text (Option Svid)
fetched svid = ok svid

in_fetched : Result Text (Option Svid) → Option Svid
in_fetched (ok svid) = svid
in_fetched (err e) = none

fetched-eq : (s t : Option Svid) → fetched s ≡ fetched t → s ≡ t
unfolding fetched in_fetched
fetched-eq s t h = ap in_fetched h

module _ (o : Outside) (now : Time) (a : Answers) where
  pub validate_chain-ok :
      (s t : Svid) (cs : List X509)
      → (validate_chain o now a s cs ≡ ok t) ↔ (ValidChain o now a s cs × (s ≡ t))
  unfolding given
  validate_chain-ok s t [] = (λ h. cc, λ h. absurd h.0)
  validate_chain-ok s t (leaf ∷ rest) = (
    λ h.
        let (u, e, h') = >>=-eq-ok (wrap get_bundle a.trust_bundle) (λ passed. _) h in
        let (c, f, h'') = >>=-eq-ok (certificate_of o now leaf rest s.svid_key) (λ cert. _) h' in
        let (q, same) = trusted-ok (a.trusted c) s t h'' in
        let (v, made) = (certificate_of-ok o now leaf rest s.svid_key c).0 f in
        ((wrap-eq-ok get_bundle a.trust_bundle e, v, ap a.trusted (sym made) ∙ q), same),
    λ ((b, v, q), same).
        rw
          (
            b,
            (certificate_of-ok o now leaf rest s.svid_key (made_of leaf rest s.svid_key)).1
                (v, refl),
            q,
          )
          (ap given same),
  )

  pub validate_svid-ok :
      (svid : Option Svid) (t : Svid)
      → (validate_svid o now a svid ≡ ok t) ↔ ((svid ≡ some t) × IsValidSvid o now a t)
  unfolding validate_svid
  validate_svid-ok none t = (λ h. cc, λ h. cc)
  validate_svid-ok (some s) t =
      let (f, g) = validate_chain-ok s t s.certificates in
      (
        λ h. let (v, e) = f h in (ap some e, subst (IsValidSvid o now a) e v),
        λ (e, v). let same : s ≡ t = cc in g (subst (IsValidSvid o now a) (sym same) v, same),
      )

  -- An SVID that passes, and is not stale against the old one.
  checked-IsNewer :
      (r : Result AppError Svid) (old : Option Svid) (t : Svid)
      → ((r >>= λ new. fail_if (stale old new) not_newer >> ok new) ≡ ok t)
        ↔ ((r ≡ ok t) × IsNewer old t)
  unfolding given
  checked-IsNewer (err e) old t = (λ h. cc, λ h. cc)
  checked-IsNewer (ok s) old t =
      let (f, g) = unstale (stale old s) s t in
      let (p, q) = stale_iff old s in
      (
        λ h. let (b, e) = f h in (e, subst (IsNewer old) (given-eq s t e) (p b)),
        λ (e, n). g (q (subst (IsNewer old) (sym (given-eq s t e)) n), e),
      )

  -- The SVID that a refresh and a fetch give, checked.
  refreshed :
      (r : Result Text (Unit {0})) (g : Result Text (Option Svid)) (old : Option Svid) (t : Svid)
      → ((wrap refresh r
            >> (wrap get_svid g >>= λ svid.
                validate_svid o now a svid >>= λ new. fail_if (stale old new) not_newer >> ok new))
          ≡ ok t)
        ↔ ((r ≡ ok tt) × (g ≡ ok (some t)) × IsValidSvid o now a t × IsNewer old t)
  unfolding fetched
  refreshed (err e) g old t = (λ h. cc, λ h. cc)
  refreshed (ok u) (err e) old t = (λ h. cc, λ h. cc)
  refreshed (ok u) (ok svid) old t =
      let (f, f') = checked-IsNewer (validate_svid o now a svid) old t in
      let (g, g') = validate_svid-ok svid t in
      (
        λ h. let (e, n) = f h in let (w, v) = g e in (refl, ap fetched w, v, n),
        λ (d, w, v, n). f' (g' (fetched-eq svid (some t) w, v), n),
      )

  fetch_newer-ok :
      (old : Option Svid) (t : Svid)
      → (fetch_newer o now a old ≡ ok t) ↔ (
          (a.refresh_identity ≡ ok tt)
          × (a.svid ≡ ok (some t))
          × IsValidSvid o now a t
          × IsNewer old t)
  unfolding fetch_newer
  fetch_newer-ok old t = refreshed a.refresh_identity a.svid old t

ValidChain-leaf :
    (o : Outside) (now : Time) (a : Answers) (s : Svid) (cs : List X509)
    → ValidChain o now a s cs
    → cs ≢ []
ValidChain-leaf o now a s [] v = absurd v
ValidChain-leaf o now a s (c ∷ cs) v = λ e. cc

-- A valid SVID has a certificate.
pub valid_leaf :
    (o : Outside) (now : Time) (a : Answers) (s : Svid)
    → IsValidSvid o now a s
    → s.certificates ≢ []
valid_leaf o now a s v = ValidChain-leaf o now a s s.certificates v

-- A call that leaves the service as it is unless it succeeds.
settle-ok :
    (s : RotationService) (r : Result AppError Svid) (f : Svid → RotationService)
    → ((settle s r f).1 ≡ ok tt) ↔ ((t : Svid) × (r ≡ ok t) × ((settle s r f).0 ≡ f t))
settle-ok s (ok t) f = (λ h. (t, refl, refl), λ h. refl)
settle-ok s (err e) f = (λ h. cc, λ h. cc)

pub settle-cases :
    (s : RotationService) (r : Result AppError Svid) (f : Svid → RotationService)
    → ((settle s r f).0 ≡ s) ⊎ ((t : Svid) × (r ≡ ok t) × ((settle s r f).0 ≡ f t))
settle-cases s (ok t) f = inr (t, refl, refl)
settle-cases s (err e) f = inl refl

settle-same :
    (s : RotationService) (r : Result AppError Svid) (f : Svid → RotationService)
    → (settle s r f).1 ≢ ok tt
    → (settle s r f).0 ≡ s
settle-same s (ok t) f h = absurd (h refl)
settle-same s (err e) f h = refl

module _ (o : Outside) (now : Time) (a : Answers) (s : RotationService) where
  -- When a rotation succeeds, and the state that it leaves.
  pub rotate_identity-installed :
      (((rotate_identity o now a s).1 ≡ ok tt) ↔ (
        (t : Svid) × (a.refresh_identity ≡ ok tt)
        × (a.svid ≡ ok (some t))
        × IsValidSvid o now a t
        × IsNewer s.current t
        × ((rotate_identity o now a s).0 ≡ installed now t s)))
      × ((rotate_identity o now a s).1 ≢ ok tt → (rotate_identity o now a s).0 ≡ s)
  unfolding rotate_identity
  rotate_identity-installed =
      let r = fetch_newer o now a s.current in
      let f : Svid → RotationService = λ new. installed now new s in
      let (p, q) = settle-ok s r f in
      (
        (
          λ h.
              let (t, e, g) = p h in
              let (u, v, w, n) = (fetch_newer-ok o now a s.current t).0 e in (t, u, v, w, n, g),
          λ (t, u, v, w, n, g). q (t, (fetch_newer-ok o now a s.current t).1 (u, v, w, n), g),
        ),
        settle-same s r f,
      )

  -- The same of an SVID that the watch hands over.
  pub handle_external_rotation_lem :
      (svid : Option Svid)
      → (((handle_external_rotation o now a svid s).1 ≡ ok tt) ↔ (
          (t : Svid) × (svid ≡ some t)
          × IsValidSvid o now a t
          × IsNewer s.current t
          × ((handle_external_rotation o now a svid s).0 ≡ installed now t s)))
        × ((handle_external_rotation o now a svid s).1 ≢ ok tt
            → (handle_external_rotation o now a svid s).0 ≡ s)
  unfolding handle_external_rotation
  handle_external_rotation_lem svid =
      let r : Result AppError Svid =
        validate_svid o now a svid >>= λ new. fail_if (stale s.current new) not_newer >> ok new in
      let f : Svid → RotationService = λ new. installed now new s in
      let (p, q) = settle-ok s r f in
      (
        (
          λ h.
              let (t, e, g) = p h in
              let (e', n) =
                (checked-IsNewer o now a (validate_svid o now a svid) s.current t).0 e in
              let (w, v) = (validate_svid-ok o now a svid t).0 e' in (t, w, v, n, g),
          λ (t, w, v, n, g). q (
            t,
            (checked-IsNewer o now a (validate_svid o now a svid) s.current t).1
                ((validate_svid-ok o now a svid t).1 (w, v), n),
            g,
          ),
        ),
        settle-same s r f,
      )

-- A service as it was, with the SVID, the time, and a notice of both SVIDs to each callback.
abbrev pub with_svid : Time → Svid → RotationService → RotationService
with_svid now t s = record s {
  current = some t;
  last_rotation = now;
  notices = s.notices ++ map (λ f. (f, s.current, t)) s.callbacks;
}

notified_lem :
    (fs : List Callback) (old : Option Svid) (t : Svid)
    → notified fs old t ≡ map (λ f. (f, old, t)) fs
notified_lem [] old t = refl
notified_lem (f ∷ fs) old t = ap (λ ns. (f, old, t) ∷ ns) (notified_lem fs old t)

abbrev noting :
    Time → Svid → RotationService → List (Callback × Option Svid × Svid) → RotationService
noting now t s ns = record s { current = some t; last_rotation = now; notices = s.notices ++ ns }

installed_lem :
    (now : Time) (t : Svid) (s : RotationService) → installed now t s ≡ with_svid now t s
installed_lem now t s = ap (noting now t s) (notified_lem s.callbacks s.current t)

-- rotateIdentity succeeds exactly if the refresh succeeds, the provider gives an SVID that validates
-- and that the bundle provider trusts, and that SVID is newer than the current one, if there is one
-- (issued later, or at the same time with a later expiry), and then the service is as before but for
-- three fields: that SVID is the current one, the last rotation is at that time, and each callback,
-- in order, is told of the old and the new SVID; any other call leaves the service as it was.
pub rotate_identity_lem :
    (o : Outside) (now : Time) (a : Answers) (s : RotationService)
    → (((rotate_identity o now a s).1 ≡ ok tt) ↔ (
        (t : Svid) × (a.refresh_identity ≡ ok tt)
        × (a.svid ≡ ok (some t))
        × IsValidSvid o now a t
        × IsNewer s.current t
        × ((rotate_identity o now a s).0 ≡ with_svid now t s)))
      × ((rotate_identity o now a s).1 ≢ ok tt → (rotate_identity o now a s).0 ≡ s)
rotate_identity_lem o now a s =
    let ((f, g), same) = rotate_identity-installed o now a s in
    (
      (
        λ h. let (t, u, v, w, n, e) = f h in (t, u, v, w, n, e ∙ installed_lem now t s),
        λ (t, u, v, w, n, e). g (t, u, v, w, n, e ∙ sym (installed_lem now t s)),
      ),
      same,
    )
