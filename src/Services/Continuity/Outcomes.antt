-- ===== src/Services/Continuity/Outcomes.antt =====
-- How a rotation of a server ends in rotation_continuity_service.go.
use ephemos.Base.{
  wrap-eq-ok, ℕ, ◌≡◌, refl, sym, ap, ◌∙◌, ◌≢◌, ◌⊎◌, inl, inr, true, false, Bool-cases, Option, none,
  some, [], ◌∷◌, ◌++◌, Result, ok, err, wrap,
}
use mathlib.Core.Path.{subst}
use ephemos.Base.{if◌then◌else◌, Bool, >>=-eq-ok}
use ephemos.GoText.{Text}
use ephemos.GoTime.{Time}
use ephemos.Domain.Certificate.{Certificate}
use ephemos.Services.State.{ServiceError, Stop, failed_with, crashes, hangs, reply}
use ephemos.Services.State.Replies.{
  reply-known, Halts, reply-ok, reply-failed, reply-crashes, reply-hangs, FailsWith,
}
use ephemos.Services.Registry.{has_dates}
use ephemos.Services.Keyed.{find}
use ephemos.Services.Keyed.Laws.{find-put, find-put-other, find-remove, find-remove-other}
use ephemos.Services.Continuity.{
  Phase, preparation, overlap, validation, phase_failed, Pair, Continuity, Course, ContinuityError,
  crash, endless, cancelled, refused_in_overlap, refused_in_validation, not_created,
  no_fresh_certificate, no_current_certificate, validate_new, overlap_phase, validation_phase,
  execute_phases, prepare, finish_server, run_server, rotate_server, settle, final_phase, answered,
  stopped_by,
}

-- The first check of the new certificate is good: the preparation was waited for, the service accepts
-- the certificate, and its dates are there.
abbrev pub FirstGood : Course → Option Certificate → Type 0
FirstGood a cert =
    (a.prepared ≡ true) × (a.first_check cert ≡ some (ok tt)) × (has_dates cert ≡ true)

-- A course in which the new certificate is accepted twice, and no wait is cut short.
abbrev pub Smooth : Course → Option Certificate → Type 0
Smooth a cert = FirstGood a cert × (a.overlapped ≡ true) × (a.second_check cert ≡ some (ok tt))

-- The first or the second check never comes to an end, or panics.
abbrev pub BreaksInOverlap : Course → Option Certificate → Type 0
BreaksInOverlap a cert =
    (a.prepared ≡ true)
    × (Halts (a.first_check cert)
        ⊎ ((a.first_check cert ≡ some (ok tt)) × (has_dates cert ≡ false)))

abbrev pub BreaksInValidation : Course → Option Certificate → Type 0
BreaksInValidation a cert = FirstGood a cert × (a.overlapped ≡ true) × Halts (a.second_check cert)

-- The phase in which a pair is left that did not come to its end.
abbrev pub LeftIn : Course → Option Certificate → Phase → Type 0
LeftIn a cert k =
    (BreaksInOverlap a cert × (k ≡ overlap))
    ⊎ ((BreaksInValidation a cert × (k ≡ validation))
        ⊎ ((¬ BreaksInOverlap a cert) × (¬ BreaksInValidation a cert) × (k ≡ phase_failed)))

-- What the phases come to.
abbrev PhasesEnd : Course → Option Certificate → Phase × Result ContinuityError (Unit {0}) → Type 0
PhasesEnd a cert (reached, ok u) = Smooth a cert
PhasesEnd a cert (reached, err e) = (¬ Smooth a cert) × LeftIn a cert (final_phase reached e)

good-Halts {ℓ} :
    {A : Type ℓ} (o : Option (Result ServiceError A)) (v : A) → o ≡ some (ok v) → ¬ Halts o
good-Halts o v h (inl e) = cc
good-Halts o v h (inr e) = cc

fails-Halts {ℓ} :
    {A : Type ℓ} (o : Option (Result ServiceError A)) (e : ServiceError) → FailsWith o e → ¬ Halts o
fails-Halts o e (n, h) (inl k) = cc
fails-Halts o e (n, h) (inr k) = n (cc)

fails-good {ℓ} :
    {A : Type ℓ} (o : Option (Result ServiceError A)) (e : ServiceError) (v : A)
    → FailsWith o e
    → o ≢ some (ok v)
fails-good o e v (n, h) k = cc

never_both : {b : Bool} → b ≡ false → b ≢ true
never_both f t = cc

module _ (a : Course) (cert : Option Certificate) where
  good-unbroken : FirstGood a cert → ¬ BreaksInOverlap a cert
  good-unbroken (x, y, z) (p, inl q) = good-Halts (a.first_check cert) tt y q
  good-unbroken (x, y, z) (p, inr (q, n)) = cc

  -- A first check that is not good leaves no smooth course, and no break in the validation.
  first_lem : (¬ FirstGood a cert) → (¬ Smooth a cert) × (¬ BreaksInValidation a cert)
  first_lem n = (λ h. n h.0, λ h. n h.0)

  second_lem :
      (o : Result Stop (Unit {0}))
      → FirstGood a cert
      → a.overlapped ≡ true
      → reply (a.second_check cert) ≡ o
      → PhasesEnd a cert (validation_phase a cert (validate_new refused_in_validation cert o))
  second_lem (err (failed_with e)) g w h =
      let f = reply-failed (a.second_check cert) e h in
      (
        λ m. fails-good (a.second_check cert) e tt f m.2,
        inr (inr (good-unbroken g, λ m. fails-Halts (a.second_check cert) e f m.2, refl)),
      )
  second_lem (err crashes) g w h =
      let b = reply-crashes (a.second_check cert) h in
      (λ m. good-Halts (a.second_check cert) tt m.2 b, inr (inl ((g, w, b), refl)))
  second_lem (err hangs) g w h =
      let b = reply-hangs (a.second_check cert) h in
      (λ m. good-Halts (a.second_check cert) tt m.2 b, inr (inl ((g, w, b), refl)))
  second_lem (ok u) g w h = rw (g.2) (g, w, reply-ok (a.second_check cert) tt h)

  broken :
      (o : Phase × Result ContinuityError (Unit {0}))
      → BreaksInOverlap a cert
      → (e : ContinuityError) × (o ≡ (overlap, err e)) × (final_phase overlap e ≡ overlap)
      → PhasesEnd a cert o
  broken o b (e, q, k) = rw q (λ m. good-unbroken m.0 b, inl (b, k))

  abbrev later : Phase × Result ContinuityError (Unit {0})
  later =
      validation_phase a cert
        (validate_new refused_in_validation cert (reply (a.second_check cert)))

  abbrev whole : Phase × Result ContinuityError (Unit {0})
  whole = overlap_phase a cert (validate_new refused_in_overlap cert (reply (a.first_check cert)))

  waited :
      FirstGood a cert
      → PhasesEnd a cert (
          if a.overlapped
          then validation_phase a cert
              (validate_new refused_in_validation cert (reply (a.second_check cert)))
          else (overlap, err cancelled))
  waited g = elim (Bool-cases a.overlapped) [
    | inl w ↦
        subst (λ b. PhasesEnd a cert (if b then later else (overlap, err cancelled))) (sym w)
          (second_lem (reply (a.second_check cert)) g w refl)
    | inr w ↦
        subst (λ b. PhasesEnd a cert (if b then later else (overlap, err cancelled))) (sym w)
          (λ m. never_both w m.1, inr (inr (good-unbroken g, λ m. never_both w m.1, refl)))
  ]

  overlap_lem :
      (o : Result Stop (Unit {0}))
      → a.prepared ≡ true
      → reply (a.first_check cert) ≡ o
      → PhasesEnd a cert (overlap_phase a cert (validate_new refused_in_overlap cert o))
  overlap_lem (err (failed_with e)) p h =
      let f = reply-failed (a.first_check cert) e h in
      let (n, v) = first_lem (λ (x, y, z). fails-good (a.first_check cert) e tt f y) in
      (
        n,
        inr (
            inr (
              λ (q, m). elim m [
                | inl k ↦ fails-Halts (a.first_check cert) e f k
                | inr (k, l) ↦ fails-good (a.first_check cert) e tt f k
              ],
              v,
              refl,
            )),
      )
  overlap_lem (err crashes) p h =
      broken _ (p, inl (reply-crashes (a.first_check cert) h)) (crash, refl, refl)
  overlap_lem (err hangs) p h =
      broken _ (p, inl (reply-hangs (a.first_check cert) h)) (endless, refl, refl)
  overlap_lem (ok u) p h =
      let good = reply-ok (a.first_check cert) tt h in
      elim (Bool-cases (has_dates cert)) [
        | inr d ↦ rw d (broken _ (p, inr (good, d)) (crash, refl, refl))
        | inl d ↦ rw d (waited (p, good, d))
      ]

  execute_phases_lem : PhasesEnd a cert (execute_phases a cert)
  unfolding execute_phases
  execute_phases_lem = elim (Bool-cases a.prepared) [
    | inl p ↦
        subst (λ b. PhasesEnd a cert (if b then whole else (preparation, err cancelled))) (sym p)
          (overlap_lem (reply (a.first_check cert)) p refl)
    | inr p ↦
        let (n, v) = first_lem (λ (x, y, z). never_both p x) in
        subst (λ b. PhasesEnd a cert (if b then whole else (preparation, err cancelled))) (sym p)
          (n, inr (inr (λ m. never_both p m.0, v, refl)))
  ]

module _ (now : Time) (a : Course) (id : Text) (old : ℕ) where
  -- The pair that the answers give, as it is registered.
  abbrev pub IsPrepared : Pair → Type 0
  IsPrepared pair =
      (a.created ≡ some (ok pair.new_end))
      × (a.fresh_certificate ≡ some (ok pair.new_cert))
      × (a.current_certificate ≡ some (ok pair.old_cert))
      × (pair.old_end ≡ old)
      × (pair.started_at ≡ now)

  answered-ok {ℓ} :
      {A : Type ℓ} (f : ServiceError → ContinuityError) (o : Option (Result ServiceError A)) (v : A)
      → answered f o ≡ ok v
      → o ≡ some (ok v)
  answered-ok f o v h = reply-ok o v (wrap-eq-ok (stopped_by f) (reply o) h)

  prepared_pair : ℕ → Option Certificate → Option Certificate → Pair
  prepared_pair new cert current = record {
    old_end = old;
    new_end = new;
    started_at = now;
    phase = preparation;
    old_cert = current;
    new_cert = cert;
  }

  pair_in : Pair → Result ContinuityError Pair → Pair
  pair_in d (ok pair) = pair
  pair_in d (err e) = d

  prepare-ok : (pair : Pair) → prepare now a id old ≡ ok pair → IsPrepared pair
  unfolding prepare prepared_pair pair_in
  prepare-ok pair h =
      let (new, e, h1) = >>=-eq-ok (answered not_created a.created) (λ x. _) h in
      let (cert, f, h2) =
        >>=-eq-ok (answered no_fresh_certificate a.fresh_certificate) (λ x. _) h1 in
      let (current, g, h3) =
        >>=-eq-ok (answered no_current_certificate a.current_certificate) (λ x. _) h2 in
      let same : prepared_pair new cert current ≡ pair = ap (pair_in pair) h3 in
      subst IsPrepared same (
        answered-ok not_created a.created new e,
        answered-ok no_fresh_certificate a.fresh_certificate cert f,
        answered-ok no_current_certificate a.current_certificate current g,
        refl,
        refl,
      )

  answered-known {ℓ} :
      {A : Type ℓ} (f : ServiceError → ContinuityError) (o : Option (Result ServiceError A)) (v : A)
      → o ≡ some (ok v)
      → answered f o ≡ ok v
  answered-known f o v h = ap (wrap (stopped_by f)) (reply-known o v h)

  good_err : (pair : Pair) (e : ContinuityError) → ok pair ≢ err e
  good_err pair e h = cc

  prepared_lem :
      (n : ℕ) (cert current : Option Certificate)
      → a.created ≡ some (ok n)
      → a.fresh_certificate ≡ some (ok cert)
      → a.current_certificate ≡ some (ok current)
      → prepare now a id old ≡ ok (prepared_pair n cert current)
  unfolding prepare prepared_pair
  prepared_lem n cert current x y z =
      rw
        (
          answered-known not_created a.created n x,
          answered-known no_fresh_certificate a.fresh_certificate cert y,
          answered-known no_current_certificate a.current_certificate current z,
        )
        refl

  prepare-err :
      (e : ContinuityError) → prepare now a id old ≡ err e → (pair : Pair) → ¬ IsPrepared pair
  prepare-err e h pair (x, y, z, v, w) =
      good_err _ e (sym (prepared_lem pair.new_end pair.new_cert pair.old_cert x y z) ∙ h)

  -- The three ways to end.
  pub data Ended (s : Continuity) : Continuity × Result ContinuityError (Unit {0}) → Type 0 where
    done :
        {s' : Continuity} (pair : Pair)
        → IsPrepared pair
        → Smooth a pair.new_cert
        → find id s'.active_servers ≡ none
        → s'.stopped ≡ s.stopped ++ old ∷ []
        → Ended s (s', ok tt)
    unprepared : (e : ContinuityError) → ((pair : Pair) → ¬ IsPrepared pair) → Ended s (s, err e)
    left :
        {s' : Continuity} (pair : Pair) (e : ContinuityError)
        → IsPrepared pair
        → ¬ Smooth a pair.new_cert
        → LeftIn a pair.new_cert pair.phase
        → find id s'.active_servers ≡ some pair
        → s'.stopped ≡ s.stopped
        → Ended s (s', err e)

  finish-Ended :
      (pair : Pair) (s : Continuity) (x : Phase × Result ContinuityError (Unit {0}))
      → IsPrepared pair
      → PhasesEnd a pair.new_cert x
      → Ended s (finish_server now a id old pair s x)
  finish-Ended pair s (reached, err e) h (n, l) =
      left (settle pair reached e) e h n l (find-put id _ s.active_servers) refl
  finish-Ended pair s (reached, ok u) h m = done pair h m (find-remove id _) refl

  run-Ended :
      (s : Continuity) (x : Result ContinuityError Pair)
      → prepare now a id old ≡ x
      → Ended s (run_server now a id old s x)
  run-Ended s (err e) h = unprepared e (prepare-err e h)
  run-Ended s (ok pair) h =
      finish-Ended pair s (execute_phases a pair.new_cert) (prepare-ok pair h)
        (execute_phases_lem a pair.new_cert)

  finish-others :
      (pair : Pair) (s : Continuity) (x : Phase × Result ContinuityError (Unit {0})) (k : Text)
      → k ≢ id
      → find k (finish_server now a id old pair s x).0.active_servers ≡ find k s.active_servers
  finish-others pair s (reached, err e) k h = find-put-other k id _ s.active_servers h
  finish-others pair s (reached, ok u) k h =
      find-remove-other k id _ h ∙ find-put-other k id _ s.active_servers h

  run-others :
      (s : Continuity) (x : Result ContinuityError Pair) (k : Text)
      → k ≢ id
      → find k (run_server now a id old s x).0.active_servers ≡ find k s.active_servers
  run-others s (err e) k h = refl
  run-others s (ok pair) k h = finish-others pair s (execute_phases a pair.new_cert) k h

  -- A server's rotation ends in one of three ways. In success: the new server and both certificates
  -- came, the waits were not cut short, the new certificate, whose dates are there, was accepted
  -- twice, the pair is not in the table any more, and the old server was stopped. In an error, a
  -- panic or a wait for ever before the registration, where a server or a certificate did not come,
  -- with nothing changed. Or behind the registration, with no server stopped and the pair left in
  -- the table, with the servers, certificates and time that it was given: in the phase overlap or
  -- validation where the check of that phase panicked or never returned, and in the phase failed
  -- otherwise. The other rotations stay in the table as they are.
  pub rotate_server-Ended :
      (s : Continuity)
      → Ended s (rotate_server now a id old s)
        × ((k : Text)
            → k ≢ id
            → find k (rotate_server now a id old s).0.active_servers ≡ find k s.active_servers)
  unfolding rotate_server
  rotate_server-Ended s =
      (run-Ended s (prepare now a id old) refl, λ k h. run-others s (prepare now a id old) k h)
