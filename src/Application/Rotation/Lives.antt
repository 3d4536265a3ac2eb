-- ===== src/Application/Rotation/Lives.antt =====
-- The states that the calls of identity_rotation_service.go reach from a new service.
use mathlib.Core.Path.{subst}
use ephemos.Base.{
  >>=-eq-ok, ℕ, suc, ◌≤◌, ◌≡◌, refl, sym, ◌≢◌, ◌⊎◌, inl, inr, Bool, true, false, Option, none, some,
  List, [], ◌∷◌, ◌++◌, arith, if◌then◌else◌, Result, ok, err, fail_if, wrap, ◌>>=◌, ◌>>◌, All,
}
use ephemos.GoTime.{Time}
use ephemos.Application.Providers.{Svid, Answers, AppError, Outside, already_running, get_svid}
use ephemos.Application.Rotation.{
  check_current, expires_within, Callback, RotationConfig, RotationService, new_rotation_service,
  validate_svid, notified, installed, start, stop, register_rotation_callback, rotate_identity,
  handle_external_rotation, check_and_rotate_if_needed,
}
use ephemos.Application.Rotation.Outcomes.{
  valid_leaf, settle-cases, IsNewer, validate_svid-ok, rotate_identity-installed,
  handle_external_rotation_lem,
}

-- A state, with the number of calls of Stop that returned nil.
pub data Life : RotationService → ℕ → Type 0 where
  born : (c : RotationConfig) {s : RotationService} → new_rotation_service c ≡ ok s → Life s 0
  starts :
      {s : RotationService} {n : ℕ} (o : Outside) (now : Time) (a : Answers)
      → Life s n
      → Life (start o now a s).0 n
  stops : {s : RotationService} {n : ℕ} → Life s n → (stop s).1 ≡ ok tt → Life (stop s).0 (suc n)
  fails_to_stop : {s : RotationService} {n : ℕ} → Life s n → (stop s).1 ≢ ok tt → Life (stop s).0 n
  registers :
      {s : RotationService} {n : ℕ} (f : Callback)
      → Life s n
      → Life (register_rotation_callback f s) n
  rotates :
      {s : RotationService} {n : ℕ} (o : Outside) (now : Time) (a : Answers)
      → Life s n
      → Life (rotate_identity o now a s).0 n
  is_given :
      {s : RotationService} {n : ℕ} (o : Outside) (now : Time) (a : Answers) (svid : Option Svid)
      → Life s n
      → Life (handle_external_rotation o now a svid s).0 n
  checks :
      {s : RotationService} {n : ℕ} (o : Outside) (now later : Time) (a : Answers)
      → Life s n
      → Life (check_and_rotate_if_needed o now later a s).0 n

abbrev pub Notice : Type 0
Notice = Callback × Option Svid × Svid

-- The new SVID is newer than the old one.
abbrev pub NoticeNewer : Notice → Type 0
NoticeNewer (f, old, new) = IsNewer old new

abbrev pub HasLeaf : Option Svid → Type 0
HasLeaf none = Unit
HasLeaf (some s) = s.certificates ≢ []

pub record IsSound (s : RotationService) (n : ℕ) : Type 0 where
  pub newer : All NoticeNewer s.notices
  pub leaf : HasLeaf s.current
  pub stopped : n ≡ (if s.stop_closed then 1 else 0)
  pub has_svid : s.is_running ≡ true → s.current ≢ none

append-newer :
    (xs ys : List Notice) → All NoticeNewer xs → All NoticeNewer ys → All NoticeNewer (xs ++ ys)
append-newer [] ys a b = b
append-newer (x ∷ xs) ys (a, as') b = (a, append-newer xs ys as' b)

notified-newer :
    (fs : List Callback) (old : Option Svid) (new : Svid)
    → IsNewer old new
    → All NoticeNewer (notified fs old new)
notified-newer [] old new h = tt
notified-newer (f ∷ fs) old new h = (h, notified-newer fs old new h)

installed-IsSound :
    (now : Time) (t : Svid) (s : RotationService) (n : ℕ)
    → HasLeaf (some t)
    → IsNewer s.current t
    → IsSound s n
    → IsSound (installed now t s) n
installed-IsSound now t s n l h i = record {
  newer = append-newer s.notices _ i.newer (notified-newer s.callbacks s.current t h);
  leaf = l;
  stopped = i.stopped;
  has_svid = λ r e. cc;
}

tt-cases : (r : Result AppError (Unit {0})) → (r ≡ ok tt) ⊎ (r ≢ ok tt)
tt-cases (ok u) = inl refl
tt-cases (err e) = inr (λ h. cc)

rotate_identity-IsSound :
    (o : Outside) (now : Time) (a : Answers) (s : RotationService) (n : ℕ)
    → IsSound s n
    → IsSound (rotate_identity o now a s).0 n
rotate_identity-IsSound o now a s n i =
    let (f, g) = rotate_identity-installed o now a s in
    elim (tt-cases (rotate_identity o now a s).1) [
      | inl e ↦
          let (t, u, v, w, h, q) = f.0 e in
          subst (λ (x : RotationService). IsSound x n) (sym q)
            (installed-IsSound now t s n (valid_leaf o now a t w) h i)
      | inr e ↦ subst (λ (x : RotationService). IsSound x n) (sym (g e)) i
    ]

handle_external-IsSound :
    (o : Outside) (now : Time) (a : Answers) (svid : Option Svid) (s : RotationService) (n : ℕ)
    → IsSound s n
    → IsSound (handle_external_rotation o now a svid s).0 n
handle_external-IsSound o now a svid s n i =
    let (f, g) = handle_external_rotation_lem o now a s svid in
    elim (tt-cases (handle_external_rotation o now a svid s).1) [
      | inl e ↦
          let (t, v, w, h, q) = f.0 e in
          subst (λ (x : RotationService). IsSound x n) (sym q)
            (installed-IsSound now t s n (valid_leaf o now a t w) h i)
      | inr e ↦ subst (λ (x : RotationService). IsSound x n) (sym (g e)) i
    ]

rotated_or_not :
    (b : Bool) (s : RotationService) (r : RotationService × Result AppError (Unit {0})) (n : ℕ)
    → IsSound s n
    → IsSound r.0 n
    → IsSound (if b then r else (s, ok tt)).0 n
rotated_or_not true s r n i j = j
rotated_or_not false s r n i j = i

registers-IsSound :
    (f : Callback) (s : RotationService) (n : ℕ)
    → IsSound s n
    → IsSound (register_rotation_callback f s) n
unfolding register_rotation_callback
registers-IsSound f s n i = record {
  newer = i.newer;
  leaf = i.leaf;
  stopped = i.stopped;
  has_svid = i.has_svid;
}

started-IsSound :
    (o : Outside) (now : Time) (a : Answers) (s : RotationService) (n : ℕ) (t : Svid)
    → (fail_if s.is_running already_running
        >> (wrap get_svid a.svid >>= λ svid. validate_svid o now a svid))
      ≡ ok t
    → IsSound s n
    → IsSound (record s { current = some t; last_rotation = now; is_running = true }) n
started-IsSound o now a s n t e i =
    let (u, f, g) = >>=-eq-ok (fail_if s.is_running already_running) (λ passed. _) e in
    let (svid, h, k) = >>=-eq-ok (wrap get_svid a.svid) (λ x. validate_svid o now a x) g in
    record {
      newer = i.newer;
      leaf = valid_leaf o now a t ((validate_svid-ok o now a svid t).0 k).1;
      stopped = i.stopped;
      has_svid = λ r q. cc;
    }

check_current-IsSound :
    (o : Outside) (now later : Time) (a : Answers) (s : RotationService) (n : ℕ)
    (current : Option Svid)
    → IsSound s n
    → IsSound (check_current o now later a s current).0 n
check_current-IsSound o now later a s n none i = i
check_current-IsSound o now later a s n (some c) i =
    rotated_or_not (expires_within now s.rotation_threshold c.certificates) s _ n i
      (rotate_identity-IsSound o later a s n i)

checks-IsSound :
    (o : Outside) (now later : Time) (a : Answers) (s : RotationService) (n : ℕ)
    → IsSound s n
    → IsSound (check_and_rotate_if_needed o now later a s).0 n
unfolding check_and_rotate_if_needed
checks-IsSound o now later a s n i = check_current-IsSound o now later a s n s.current i

start-IsSound :
    (o : Outside) (now : Time) (a : Answers) (s : RotationService) (n : ℕ)
    → IsSound s n
    → IsSound (start o now a s).0 n
unfolding start
start-IsSound o now a s n i =
    elim (settle-cases s _
      (λ new. record s { current = some new; last_rotation = now; is_running = true })) [
        | inl e ↦ subst (λ (x : RotationService). IsSound x n) (sym e) i
        | inr (t, e, f) ↦
            subst (λ (x : RotationService). IsSound x n) (sym f) (started-IsSound o now a s n t e i)
      ]

stop-IsSound :
    (s : RotationService) (n : ℕ)
    → IsSound s n
    → ((stop s).1 ≡ ok tt → IsSound (stop s).0 (suc n))
      × ((stop s).1 ≢ ok tt → IsSound (stop s).0 n)
unfolding stop
stop-IsSound s n i = ground arith

stopped-le : (b : Bool) (n : ℕ) → n ≡ (if b then 1 else 0) → n ≤ 1
stopped-le b n h = ground arith

new-IsSound :
    (c : RotationConfig) (s : RotationService) → new_rotation_service c ≡ ok s → IsSound s 0
unfolding new_rotation_service
new-IsSound c s h = ground arith

Life-every : {s : RotationService} {n : ℕ} → Life s n → IsSound s n
Life-every (born c {s} h) = new-IsSound c s h
Life-every (starts {s} {n} o now a l) = start-IsSound o now a s n (Life-every l)
Life-every (stops {s} {n} l h) = (stop-IsSound s n (Life-every l)).0 h
Life-every (fails_to_stop {s} {n} l h) = (stop-IsSound s n (Life-every l)).1 h
Life-every (registers {s} {n} f l) = registers-IsSound f s n (Life-every l)
Life-every (rotates {s} {n} o now a l) = rotate_identity-IsSound o now a s n (Life-every l)
Life-every (is_given {s} {n} o now a svid l) =
    handle_external-IsSound o now a svid s n (Life-every l)
Life-every (checks {s} {n} o now later a l) = checks-IsSound o now later a s n (Life-every l)

-- After any sequence of calls of the rotation service: every callback was told of an SVID newer than
-- the one before it, the current SVID, if any, has a leaf, and a running service has one; Stop has
-- succeeded at most once, however often the service was started again.
pub Life-IsSound : {s : RotationService} {n : ℕ} → Life s n → IsSound s n × (n ≤ 1)
Life-IsSound {s} {n} l = let i = Life-every l in (i, stopped-le s.stop_closed n i.stopped)
