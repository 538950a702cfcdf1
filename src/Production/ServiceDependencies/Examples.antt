-- ===== src/Production/ServiceDependencies/Examples.antt =====
-- A web service that is bound to a database, on two nodes.
use nctl.Prelude.{
  String, Bool, true, false, List, [], ◌∷◌, Option, none, some, ◌≡◌, ◌↔◌, refl, ◌==◌, arith,
  if◌then◌else◌,
}
use nctl.Production.Reaches.{reaches}
use nctl.Production.Reaches.Sound.{Leads}
use nctl.Production.Reaches.Total.{reaches_iff}
use nctl.Production.Active.{
  BindingInput, PlacementInput, EndpointCandidate, NodeInput, Resolution, Active, Endpoints,
  active_by_service, endpoints_of, leads_back,
}
use nctl.Production.ServiceDependencies.{resolve_binding}
use nctl.Production.ServiceDependencies.LeadsBack.{Chain, leads_back_iff}
use nctl.Production.ServiceDependencies.Usable.{IsUsable, resolve_binding-IsUsable}

abbrev binding : BindingInput
binding = record {
  id = "b1";
  binding_name = "db";
  provider_service_id = "s2";
  provider_service_slug = "db";
}

abbrev placement : String → String → Option String → List BindingInput → PlacementInput
placement id service endpoint bindings = record {
  id = id;
  deployment_profile = "web";
  desired_state = "active";
  service_id = service;
  service_slug = service;
  endpoint_id = endpoint;
  bindings = bindings;
}

abbrev web : PlacementInput
web = placement "p1" "s1" none (binding ∷ [])

abbrev db : PlacementInput
db = placement "p2" "s2" (some "e2") []

abbrev endpoint : EndpointCandidate
endpoint = record {
  id = "e2";
  ip_address = some "10.0.0.2";
  dns_name = none;
  mdns_name = none;
  protocol = some "http";
  port = some 5432;
}

abbrev nodes : List NodeInput
nodes =
    record { id = "n1"; slug = "n1"; endpoints = []; placements = web ∷ [] }
    ∷ record { id = "n2"; slug = "n2"; endpoints = endpoint ∷ []; placements = db ∷ [] }
    ∷ []

abbrev active : Active
active = active_by_service nodes []

abbrev endpoints : Endpoints
endpoints = endpoints_of nodes []

abbrev declared : String → String → Option String
declared profile name = some "db_url"

abbrev resolution : Resolution
resolution = record {
  variables =
      ("db_url", record { protocol = "http"; host = "10.0.0.2"; bracketed = false; port = 5432 })
      ∷ [];
  provenance =
      record {
        consumer_placement_id = "p1";
        binding_name = "db";
        provider_service_slug = "db";
        provider_placement_id = "p2";
        endpoint_id = "e2";
      }
      ∷ [];
}

resolve_binding-IsUsable_example :
    IsUsable (λ s. s) (λ s. some s) (λ s. some 4) declared web binding active endpoints resolution
unfolding resolve_binding active_by_service endpoints_of
resolve_binding-IsUsable_example =
    resolve_binding-IsUsable (λ s. s) (λ s. some s) (λ s. some 4) declared web binding active
      endpoints resolution refl

leads_back_iff_example : (leads_back active "s2" "s1" ≡ true) ↔ Chain active "s1" "s2"
leads_back_iff_example = leads_back_iff active "s2" "s1"

-- two services that are bound to each other
abbrev partner : String → List String
partner s = if s == "a" then "b" ∷ [] else if s == "b" then "a" ∷ [] else []

reaches_iff_example :
    (b : Bool) × (seen : List String) × (reaches partner "c" 3 "a" [] ≡ some (b, seen))
    × ((b ≡ true) ↔ Leads partner "c" "a")
reaches_iff_example = reaches_iff ("a" ∷ "b" ∷ []) partner "c" (λ x y m. ground arith) "a" refl
