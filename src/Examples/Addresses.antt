-- ===== src/Examples/Addresses.antt =====
-- The address "pay.corp:8443".
use ephemos.Base.{◌≡◌, none, some, some, true, ◌≡◌, refl, false, none, ok}
use ephemos.Domain.ServiceName.{ServiceName}
use ephemos.Examples.Sdk.{corp, corp_sdk}
use ephemos.Adapters.Client.{Client, own, identity_client, connect}
use ephemos.Adapters.Client.Waits.{
  Around, Reached, born, answers_of, IsTaken, Stuck, Errs, Reached-Stuck,
}
use ephemos.Services.State.{new_state}
use ephemos.Services.Lookup.Reach.{here}
use ephemos.Examples.Values.{pay_id, ports, at_start}
use ephemos.GoText.{Text, text}
use ephemos.Domain.ServiceAddress.{Net, ServiceAddress, new_service_address}
use ephemos.Domain.ServiceAddress.Endpoints.{Endpoint, new_service_address-Endpoint}

abbrev no_net : Net
no_net = record { parse_url = λ s. none; is_ip = λ s. false }

abbrev pay_address : ServiceAddress
pay_address = record { address = text "pay.corp:8443" }

address-taken : new_service_address no_net (text " pay.corp:8443") ≡ ok pay_address
unfolding new_service_address ephemos.GoText.trim_space ephemos.GoText.len
    ephemos.Domain.ServiceAddress.validate_address_format ephemos.GoText.has_prefix
    ephemos.GoText.contains ephemos.Domain.ServiceAddress.validate_host_port_format
    ephemos.Regex.matches ephemos.Domain.ServiceAddress.is_host_char ephemos.Regex.is_alnum
    ephemos.Regex.is_digit ephemos.GoNet.split_host_port ephemos.GoNet.cut_last ephemos.GoNet.atoi
    ephemos.GoNet.number ephemos.GoText.to_lower
address-taken = refl

new_service_address-Endpoint_example : Endpoint no_net pay_address
new_service_address-Endpoint_example =
    new_service_address-Endpoint no_net (text " pay.corp:8443") pay_address address-taken

abbrev pay_name : ServiceName
pay_name = record { value = text "pay" }

-- A new client, whose identity service is new too.
abbrev new : Client
new = record {
  domain_client = none;
  client_domain = corp;
  own_authorizer = some (own 3);
  is_locked = false;
}

around : Around corp_sdk no_net pay_id none
around = record {
  service = new_state pay_id none;
  reached = here;
  ports = ports;
  readings = at_start;
  instant = 1;
  later = at_start;
  dials = λ d n a. ok (some 7);
}

born_new : Reached corp_sdk no_net pay_id none new
unfolding identity_client
born_new = born (some (own 3)) corp refl

Reached-Stuck_example :
    (IsTaken corp_sdk no_net pay_id none true (text "pay") (text " pay.corp:8443")
      → Stuck corp_sdk no_net pay_id none (
          connect corp_sdk no_net
            (answers_of corp_sdk no_net pay_id none around)
            true
            (text "pay")
            (text " pay.corp:8443")
            new))
    × ((¬ IsTaken corp_sdk no_net pay_id none true (text "pay") (text " pay.corp:8443"))
        → Errs corp_sdk no_net pay_id none new (
            connect corp_sdk no_net
              (answers_of corp_sdk no_net pay_id none around)
              true
              (text "pay")
              (text " pay.corp:8443")
              new))
unfolding ephemos.Services.State.service_name
Reached-Stuck_example =
    Reached-Stuck corp_sdk no_net pay_id none (text "pay") refl new born_new around true
      (text "pay") (text " pay.corp:8443")
