-- ===== src/Services/Registry/Histories.antt =====
-- What holds of the registry of mtls_connection_registry.go after any sequence of its operations.
use ephemos.Base.{
  ◌≡◌, refl, sym, ap, ◌∙◌, inl, inr, Bool, Option, none, some, List, [], ◌∷◌, if◌then◌else◌,
  Bool-cases, Result, ok, err, All,
}
use ephemos.GoText.{Text, text_eq}
use ephemos.GoTime.{Time}
use ephemos.Domain.Certificate.{Certificate}
use ephemos.Domain.Identity.{ServiceIdentity}
use ephemos.Services.State.{Stop, failed_with, crashes, hangs, reply}
use ephemos.Services.Registry.{
  rotate_for, Connection, Registry, new_registry, RotationPolicy, set_rotation_policy,
  RotationReason, Answers, has_identities, update_rotation, set_connection, fetched_rotation,
  validated_rotation, found_rotation, rotate_connection, check_found, check_and_rotate,
  close_connection, establish_connection, determine_rotation_reason, same_state, closed,
}
use ephemos.Services.Keyed.{find, put, remove}
use ephemos.Services.Keyed.Laws.{put-UniqueKeys, remove-UniqueKeys, UniqueKeys}

-- A registry that operations have led to from an empty one.
pub data History : Registry → Type 0 where
  start : History new_registry
  establish :
      {r : Registry} (now : Time) (id : Text) (remote : Option ServiceIdentity)
      (cert : Option Certificate) (own : Option ServiceIdentity)
      → History r
      → History (establish_connection now id remote cert own r).0
  close : {r : Registry} (id : Text) → History r → History (close_connection id r).0
  rotate :
      {r : Registry} (now : Time) (a : Answers) (id : Text)
      → History r
      → History (check_and_rotate now a id r).0
  policy : {r : Registry} (p : RotationPolicy) → History r → History (set_rotation_policy p r)

-- No entry has the state of a TLS connection; each key occurs once.
abbrev pub NoTls : Text × Connection → Type 0
NoTls kc = kc.1.tls_state ≡ none

abbrev pub Sound : Registry → Type 0
Sound r = All NoTls r.connections × UniqueKeys r.connections

put-NoTls :
    (id : Text) (c : Connection) (m : List (Text × Connection))
    → c.tls_state ≡ none
    → All NoTls m
    → All NoTls (put id c m)
unfolding put
put-NoTls id c [] h a = (h, tt)
put-NoTls id c ((k, d) ∷ m) h (a, b) = elim (Bool-cases (text_eq k id)) [
  | inl e ↦ rw e (h, b)
  | inr e ↦ rw e (a, put-NoTls id c m h b)
]

remove-NoTls : (id : Text) (m : List (Text × Connection)) → All NoTls m → All NoTls (remove id m)
unfolding remove
remove-NoTls id [] a = tt
remove-NoTls id ((k, d) ∷ m) (a, b) = elim (Bool-cases (text_eq k id)) [
  | inl e ↦ rw e (remove-NoTls id m b)
  | inr e ↦ rw e (a, remove-NoTls id m b)
]

pub some-injective : (c d : Connection) → some c ≡ some d → c ≡ d
some-injective c d h = cc

pub find-NoTls :
    (id : Text) (m : List (Text × Connection)) (c : Connection)
    → All NoTls m
    → find id m ≡ some c
    → c.tls_state ≡ none
unfolding find
find-NoTls id [] c a h = cc
find-NoTls id ((k, d) ∷ m) c (a, b) h = elim (Bool-cases (text_eq k id)) [
  | inl e ↦
      ap (λ (x : Connection). x.tls_state)
        (sym (some-injective d c (sym (ap (λ (t : Bool). if t then some d else find id m) e) ∙ h)))
      ∙ a
  | inr e ↦ find-NoTls id m c b (sym (ap (λ (t : Bool). if t then some d else find id m) e) ∙ h)
]

set_connection-Sound :
    (id : Text) (c : Connection) (r : Registry)
    → c.tls_state ≡ none
    → Sound r
    → Sound (set_connection id c r)
set_connection-Sound id c r h (a, u) =
    (put-NoTls id c r.connections h a, put-UniqueKeys id c r.connections u)

validated-Sound :
    (now : Time) (id : Text) (c : Connection) (cert : Option Certificate)
    (v : Result Stop (Unit {0})) (r : Registry)
    → c.tls_state ≡ none
    → Sound r
    → Sound (validated_rotation now id c cert v r).0
unfolding update_rotation
validated-Sound now id c cert (err (failed_with e)) r h s = set_connection-Sound id _ r h s
validated-Sound now id c cert (err crashes) r h s = s
validated-Sound now id c cert (err hangs) r h s = s
validated-Sound now id c cert (ok u) r h s = set_connection-Sound id _ r h s

fetched-Sound :
    (now : Time) (a : Answers) (id : Text) (c : Connection) (n : Result Stop (Option Certificate))
    (r : Registry)
    → c.tls_state ≡ none
    → Sound r
    → Sound (fetched_rotation now a id c n r).0
fetched-Sound now a id c (err (failed_with e)) r h s = set_connection-Sound id _ r h s
fetched-Sound now a id c (err crashes) r h s = s
fetched-Sound now a id c (err hangs) r h s = s
fetched-Sound now a id c (ok cert) r h s =
    validated-Sound now id c cert (reply (a.validity cert)) r h s

found-Sound :
    (now : Time) (a : Answers) (id : Text) (reason : RotationReason) (o : Option Connection)
    (r : Registry)
    → find id r.connections ≡ o
    → Sound r
    → Sound (found_rotation now a id reason o r).0
found-Sound now a id reason none r f s = s
found-Sound now a id reason (some c) r f s =
    let h = find-NoTls id r.connections c s.0 f in
    elim (Bool-cases (has_identities c)) [
      | inl e ↦
          rw e (
            fetched-Sound now a id c (reply a.new_certificate) _ h
              (set_connection-Sound id _ r h s))
      | inr e ↦ rw e (set_connection-Sound id _ r h s)
    ]

rotate_for-Sound :
    (now : Time) (a : Answers) (id : Text) (o : Option RotationReason) (r : Registry)
    → Sound r
    → Sound (rotate_for now a id o r).0
unfolding rotate_connection
rotate_for-Sound now a id none r s = s
rotate_for-Sound now a id (some reason) r s =
    found-Sound now a id reason (find id r.connections) r refl s

check_found-Sound :
    (now : Time) (a : Answers) (id : Text) (o : Option Connection) (r : Registry)
    → Sound r
    → Sound (check_found now a id o r).0
check_found-Sound now a id none r s = s
check_found-Sound now a id (some c) r s = elim (Bool-cases (same_state c.state closed)) [
  | inl e ↦ rw e s
  | inr e ↦ rw e (rotate_for-Sound now a id (determine_rotation_reason now r.rotation_policy c) r s)
]

-- After any sequence of operations each connection ID occurs once in the registry, and no connection
-- has the state of a TLS handshake.
pub History-Sound : (r : Registry) → History r → Sound r
unfolding new_registry establish_connection close_connection check_and_rotate set_rotation_policy
History-Sound r start = (tt, tt)
History-Sound r (establish {r = q} now id remote cert own h) =
    let (a, u) = History-Sound q h in
    (put-NoTls id _ q.connections refl a, put-UniqueKeys id _ q.connections u)
History-Sound r (close {r = q} id h) =
    let (a, u) = History-Sound q h in
    (remove-NoTls id q.connections a, remove-UniqueKeys id q.connections u)
History-Sound r (rotate {r = q} now a id h) =
    check_found-Sound now a id (find id q.connections) q (History-Sound q h)
History-Sound r (policy p h) = History-Sound _ h
