-- ===== src/Compute/Endpoints/Examples.antt =====
-- A node with one endpoint for the platform's network, and a tunnel.
use nctl.Prelude.{String, false, List, [], ◌∷◌, Option, none, some, ◌≡◌, refl, ◌==◌, if◌then◌else◌}
use nctl.Prelude.Value.{str, field, end}
use nctl.Compute.Endpoints.{
  DesiredEndpoint, Interface, Gateway, intent, instance_override, select_compute_primary_endpoint,
  effective_compute_defaults,
}
use nctl.Compute.Endpoints.Selected.{IsAnswer, select_compute_primary_endpoint-IsAnswer}

abbrev interface_of : String → Option Interface
interface_of t =
    if t == "10.0.0.5/24" then some (record { version = 4; first = 256; last = 511 }) else none

abbrev gateway_of : String → Option Gateway
gateway_of t = if t == "10.0.0.1" then some (record { version = 4; value = 257 }) else none

abbrev endpoint : String → DesiredEndpoint
endpoint kind = record {
  endpoint_type = kind;
  ip_address = some "10.0.0.5/24";
  gateway_address = some "10.0.0.1";
  ip_policy = "static";
  dns_name = none;
  mdns_name = some "n1.local";
  mac_address = some "52:54:00:ab:cd:0f";
  generate_dnsmasq = false;
}

abbrev endpoints : List DesiredEndpoint
endpoints = endpoint "vpn" ∷ endpoint "primary" ∷ []

select_compute_primary_endpoint-IsAnswer_example :
    IsAnswer interface_of gateway_of endpoints
      (select_compute_primary_endpoint interface_of gateway_of endpoints)
select_compute_primary_endpoint-IsAnswer_example =
    select_compute_primary_endpoint-IsAnswer interface_of gateway_of endpoints

-- the storage of the instance goes before the platform's, and the MAC is the endpoint's
effective_compute_defaults-sources :
    ((effective_compute_defaults interface_of gateway_of
        (field "storage" (str "fast") end)
        (field "default_storage" (str "slow") (field "default_bridge" (str "br0") end))
        endpoints).storage
      ≡ record { value = some (str "fast"); provenance = instance_override })
    × ((effective_compute_defaults interface_of gateway_of
          (field "storage" (str "fast") end)
          (field "default_storage" (str "slow") (field "default_bridge" (str "br0") end))
          endpoints).mac
        ≡ record { value = some (str "52:54:00:ab:cd:0f"); provenance = intent })
unfolding effective_compute_defaults
effective_compute_defaults-sources = (refl, refl)
