-- ===== src/Services/Registry/Rotation.antt =====
-- Rotations of a connection in mtls_connection_registry.go.
use mathlib.Core.Path.{subst}
use ephemos.Base.{◌≡◌, refl, sym, ◌∙◌, ◌≢◌, ◌⊎◌, inl, inr, true, Option, some, Result, ok, err}
use ephemos.GoText.{Text}
use ephemos.GoTime.{Time}
use ephemos.Domain.Certificate.{Certificate}
use ephemos.Services.State.{ServiceError, Stop, failed_with, crashes, hangs, reply}
use ephemos.Services.State.Replies.{
  Halts, FailsWith, reply-ok, reply-failed, reply-crashes, reply-hangs,
}
use ephemos.Services.Registry.{
  Connection, active, rotating, failed, Registry, RotationReason, Answers, has_identities,
  update_rotation, fetched_rotation, validated_rotation, found_rotation, rotate_connection,
}
use ephemos.Services.Keyed.{find}
use ephemos.Services.Keyed.Laws.{find-put, find-put-other}

-- The answers give a certificate that the service accepts.
abbrev pub Accepts : Answers → Option Certificate → Type 0
Accepts a cert = (a.new_certificate ≡ some (ok cert)) × (a.validity cert ≡ some (ok tt))

-- The service returns an error, for the certificate or against it.
abbrev pub Refuses : Answers → Type 0
Refuses a =
    (e : ServiceError) × (FailsWith a.new_certificate e
      ⊎ ((cert : Option Certificate) × (a.new_certificate ≡ some (ok cert))
          × FailsWith (a.validity cert) e))

-- One of the two calls panics or does not return.
abbrev pub Breaks : Answers → Type 0
Breaks a =
    Halts a.new_certificate
    ⊎ ((cert : Option Certificate) × (a.new_certificate ≡ some (ok cert)) × Halts (a.validity cert))

-- What a rotation leaves of the connection.
abbrev pub Rotated : Time → Answers → Connection → Option Connection → Type 0
Rotated now a c o =
    ((cert : Option Certificate) × Accepts a cert
      × (o ≡ some (record c { conn_cert = cert; last_rotated = now; state = active })))
    ⊎ ((Refuses a × (o ≡ some (record c { state = failed })))
        ⊎ (Breaks a × (o ≡ some (record c { state = rotating }))))

-- The registry in which the rotation of a connection has begun.
abbrev Begun : Text → Connection → Registry → Type 0
Begun id c r = find id r.connections ≡ some (record c { state = rotating })

validated-Rotated :
    (now : Time) (a : Answers) (id : Text) (c : Connection) (cert : Option Certificate)
    (v : Result Stop (Unit {0})) (r : Registry)
    → Begun id c r
    → a.new_certificate ≡ some (ok cert)
    → reply (a.validity cert) ≡ v
    → Rotated now a c (find id (validated_rotation now id c cert v r).0.connections)
unfolding update_rotation
validated-Rotated now a id c cert (err (failed_with e)) r b h k =
    inr (inl ((e, inr (cert, h, reply-failed (a.validity cert) e k)), find-put id _ r.connections))
validated-Rotated now a id c cert (err crashes) r b h k =
    inr (inr (inr (cert, h, reply-crashes (a.validity cert) k), b))
validated-Rotated now a id c cert (err hangs) r b h k =
    inr (inr (inr (cert, h, reply-hangs (a.validity cert) k), b))
validated-Rotated now a id c cert (ok tt) r b h k =
    inl (cert, (h, reply-ok (a.validity cert) tt k), find-put id _ r.connections)

fetched-Rotated :
    (now : Time) (a : Answers) (id : Text) (c : Connection) (n : Result Stop (Option Certificate))
    (r : Registry)
    → Begun id c r
    → reply a.new_certificate ≡ n
    → Rotated now a c (find id (fetched_rotation now a id c n r).0.connections)
fetched-Rotated now a id c (err (failed_with e)) r b h =
    inr (inl ((e, inl (reply-failed a.new_certificate e h)), find-put id _ r.connections))
fetched-Rotated now a id c (err crashes) r b h =
    inr (inr (inl (reply-crashes a.new_certificate h), b))
fetched-Rotated now a id c (err hangs) r b h = inr (inr (inl (reply-hangs a.new_certificate h), b))
fetched-Rotated now a id c (ok cert) r b h =
    validated-Rotated now a id c cert (reply (a.validity cert)) r b
      (reply-ok a.new_certificate cert h) refl

-- A relation between the map before and after.
abbrev pub OthersKept : Text → Registry → Registry → Type 0
OthersKept id r r' = (k : Text) → k ≢ id → find k r'.connections ≡ find k r.connections

validated-OthersKept :
    (now : Time) (id : Text) (c : Connection) (cert : Option Certificate)
    (v : Result Stop (Unit {0})) (r : Registry)
    → OthersKept id r (validated_rotation now id c cert v r).0
validated-OthersKept now id c cert (err (failed_with e)) r k h =
    find-put-other k id _ r.connections h
validated-OthersKept now id c cert (err crashes) r k h = refl
validated-OthersKept now id c cert (err hangs) r k h = refl
validated-OthersKept now id c cert (ok u) r k h = find-put-other k id _ r.connections h

fetched-OthersKept :
    (now : Time) (a : Answers) (id : Text) (c : Connection) (n : Result Stop (Option Certificate))
    (r : Registry)
    → OthersKept id r (fetched_rotation now a id c n r).0
fetched-OthersKept now a id c (err (failed_with e)) r k h = find-put-other k id _ r.connections h
fetched-OthersKept now a id c (err crashes) r k h = refl
fetched-OthersKept now a id c (err hangs) r k h = refl
fetched-OthersKept now a id c (ok cert) r k h =
    validated-OthersKept now id c cert (reply (a.validity cert)) r k h

found-Rotated :
    (now : Time) (a : Answers) (id : Text) (reason : RotationReason) (c : Connection) (r : Registry)
    → has_identities c ≡ true
    → Rotated now a c (find id (found_rotation now a id reason (some c) r).0.connections)
      × OthersKept id r (found_rotation now a id reason (some c) r).0
found-Rotated now a id reason c r h = rw h (
  fetched-Rotated now a id c (reply a.new_certificate) _ (find-put id _ r.connections) refl,
  λ k q.
      fetched-OthersKept now a id c (reply a.new_certificate) _ k q
      ∙ find-put-other k id _ r.connections q,
)

-- Rotating a registered connection whose identities are set changes it in one of three ways: it is
-- active, with a certificate that the service gave out and accepted and with the time of its last
-- rotation; it is failed, with all else as before, where the service returned an error for the
-- certificate or against it; or it stays in rotation, with all else as before, where one of the two
-- calls panics or never returns. The other connections stay as they are.
pub rotate_connection-Rotated :
    (now : Time) (a : Answers) (id : Text) (reason : RotationReason) (c : Connection) (r : Registry)
    → find id r.connections ≡ some c
    → has_identities c ≡ true
    → Rotated now a c (find id (rotate_connection now a id reason r).0.connections)
      × OthersKept id r (rotate_connection now a id reason r).0
unfolding rotate_connection
rotate_connection-Rotated now a id reason c r f h =
    subst
      (λ (o : Option Connection).
        Rotated now a c (find id (found_rotation now a id reason o r).0.connections)
        × OthersKept id r (found_rotation now a id reason o r).0)
      (sym f) (found-Rotated now a id reason c r h)
