-- ===== src/Examples/Lookups.antt =====
-- The caches of the identity service, and the loop that fetches.
use ephemos.Base.{ℕ, ◌≤◌, ◌≡◌, refl, ◌↔◌, ◌⊎◌, true, none, ◌==◌, if◌then◌else◌, Result, ok, err}
use ephemos.GoText.{Text, text}
use ephemos.Domain.Certificate.{Certificate}
use ephemos.Services.Retry.{fetch_with_retry}
use ephemos.Services.Retry.Laws.{FirstOk, AllFail, pauses, fetch_with_retry_lem}
use ephemos.Services.State.{State, new_state, waits, returns}
use ephemos.Services.Lookup.{get_certificate, get_trust_bundle}
use ephemos.Services.Lookup.Hits.{Hit, Serves, WaitsForItself, get_certificate-Hit}
use ephemos.Services.Lookup.Reach.{here, certificate_step, left_by, Reachable-waits}
use ephemos.Services.Create.{create_server_identity, create_client_identity}
use ephemos.Services.Create.Laws.{Reachable-create_waits}
use ephemos.Examples.Values.{pay_id, ports, at_start, filled}

abbrev second_try : ℕ → Result Text ℕ
second_try n = if n == 0 then err (text "down") else ok n

fetch_with_retry_lem_example :
    ((a : ℕ) → ((fetch_with_retry true second_try).0 ≡ ok a) ↔ FirstOk true second_try a)
    × ((e : Text) → ((fetch_with_retry true second_try).0 ≡ err e) ↔ AllFail true second_try e)
    × (pauses (fetch_with_retry true second_try).1 ≤ 300)
fetch_with_retry_lem_example = fetch_with_retry_lem true second_try

get_certificate-Hit_example :
    Hit ports at_start filled
    ⊎ (((c : Certificate) → ¬ Serves ports at_start filled c)
        × WaitsForItself (get_certificate ports at_start filled))
unfolding ephemos.Services.State.service_name
get_certificate-Hit_example = get_certificate-Hit ports at_start filled (text "pay") refl refl

abbrev next : State
next = left_by (get_certificate ports at_start (new_state pay_id none))

Reachable-waits_example :
    (next.cached_cert ≡ none)
    × (next.cached_bundle ≡ none)
    × ((u : State) × (get_certificate ports at_start next ≡ waits u))
    × ((u : State) × (get_trust_bundle ports at_start next ≡ waits u))
unfolding ephemos.Services.State.service_name
Reachable-waits_example =
    Reachable-waits pay_id (text "pay") refl none next (certificate_step ports at_start here) ports
      at_start

Reachable-create_waits_example :
    ((v : State) × (create_server_identity ports at_start 1 at_start next ≡ waits v))
    × ((v : State) × (create_client_identity ports at_start 1 at_start next ≡ waits v))
unfolding ephemos.Services.State.service_name
Reachable-create_waits_example =
    Reachable-create_waits pay_id (text "pay") none next refl (certificate_step ports at_start here)
      ports at_start 1 at_start
