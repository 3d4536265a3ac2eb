-- ===== src/Examples/Connections.antt =====
-- The registry of connections and the enforcement of the invariants.
use ephemos.Base.{err, List, All, ◌≡◌, refl, ◌≢◌, ◌⊎◌, true, none, some, [], ok}
use ephemos.GoText.{Text, text}
use ephemos.Services.Registry.{
  Connection, Registry, new_registry, connection_failed, rotate_connection, establish_connection,
}
use ephemos.Services.Keyed.{find, put}
use ephemos.Services.Continuity.{Course, new_continuity, rotate_server}
use ephemos.Services.Continuity.Outcomes.{Ended, rotate_server-Ended}
use ephemos.Services.Registry.Rotation.{Rotated, OthersKept, rotate_connection-Rotated}
use ephemos.Services.Registry.Histories.{History, start, establish}
use ephemos.Services.Enforcement.{
  Violation, Invariant, invariant_violations, log_fault, default_invariants,
  default_enforcement_policy, violations, validate_connection, check_all_invariants,
  establish_mtls_connection,
}
use ephemos.Services.Enforcement.Establish.{Refused, establish_mtls_connection-Refused}
use ephemos.Services.Enforcement.Meets.{Parts, Violates, validate_connection-Violates}
use ephemos.Services.Enforcement.Sweep.{Exceeds, IsLogged, check_all_invariants_lem}
use ephemos.Examples.Sdk.{corp_sdk}
use ephemos.Examples.Values.{pay, pay_cert, connection, leaf, one_connection, answers}

abbrev id_a : Text
id_a = text "a"

establish_mtls_connection-Refused_example : Refused corp_sdk 7 8 id_a new_registry (
    establish_mtls_connection 7 8
      (default_invariants corp_sdk)
      id_a
      (ok (some pay_cert))
      (some pay)
      (some pay)
      new_registry)
establish_mtls_connection-Refused_example =
    establish_mtls_connection-Refused corp_sdk 7 8 id_a (ok (some pay_cert)) (some pay) (some pay)
      new_registry

abbrev after_one : Registry
after_one = (establish_connection 7 id_a (some pay) (some pay_cert) (some pay) new_registry).0

abbrev history : History after_one
history = establish 7 id_a (some pay) (some pay_cert) (some pay) start

abbrev established : Connection
established = record connection { established_at = 7; last_rotated = 7 }

rotate_connection-Rotated_example :
    Rotated 9 answers connection (
      find id_a
        (rotate_connection 9 answers id_a connection_failed
          (one_connection connection)).0.connections)
    × OthersKept id_a
        (one_connection connection)
        (rotate_connection 9 answers id_a connection_failed (one_connection connection)).0
unfolding find
rotate_connection-Rotated_example =
    rotate_connection-Rotated 9 answers id_a connection_failed connection
      (one_connection connection) refl refl

abbrev parts : Parts
parts = record { certificate = pay_cert; x509 = leaf; own = pay; remote = pay }

validate_connection-Violates_example :
    (vs : List (Text × Violation)) × (validate_connection 9
        (default_invariants corp_sdk)
        id_a
        after_one
      ≡ err (invariant_violations id_a vs))
    × Violates corp_sdk 9 id_a after_one established parts vs
unfolding establish_connection new_registry find put
validate_connection-Violates_example =
    validate_connection-Violates corp_sdk 9 id_a after_one established parts history refl
      (refl, refl, refl, refl)

abbrev invariants : List Invariant
invariants = default_invariants corp_sdk

check_all_invariants_lem_example :
    (All (IsLogged 9 invariants) after_one.connections
      → ((check_all_invariants 9 invariants default_enforcement_policy after_one).1 ≡ ok tt)
        × ((violations 9 established invariants ≢ [])
              × Exceeds default_enforcement_policy (violations 9 established invariants)
            → find id_a
                (check_all_invariants 9 invariants default_enforcement_policy
                  after_one).0.connections
              ≡ none)
        × ((violations 9 established invariants ≡ [])
              ⊎ (¬ Exceeds default_enforcement_policy (violations 9 established invariants))
            → find id_a
                (check_all_invariants 9 invariants default_enforcement_policy
                  after_one).0.connections
              ≡ some established))
    × ((¬ All (IsLogged 9 invariants) after_one.connections)
        → check_all_invariants 9 invariants default_enforcement_policy after_one
          ≡ (after_one, err log_fault))
unfolding establish_connection new_registry find put
check_all_invariants_lem_example =
    check_all_invariants_lem 9 invariants default_enforcement_policy after_one id_a established
      history refl

-- A rotation in which all goes well.
abbrev smooth : Course
smooth = record {
  created = some (ok 7);
  fresh_certificate = some (ok (some pay_cert));
  current_certificate = some (ok (some pay_cert));
  prepared = true;
  overlapped = true;
  first_check = λ cert. some (ok tt);
  second_check = λ cert. some (ok tt);
}

rotate_server-Ended_example :
    Ended 7 smooth id_a 3 new_continuity (rotate_server 7 smooth id_a 3 new_continuity)
    × ((k : Text)
        → k ≢ id_a
        → find k (rotate_server 7 smooth id_a 3 new_continuity).0.active_servers
          ≡ find k new_continuity.active_servers)
rotate_server-Ended_example = rotate_server-Ended 7 smooth id_a 3 new_continuity
