-- ===== src/Production/Active.antt =====
-- src/nctl_core/production/model.py and service_dependencies.py: the rows that the resolution of bindings
-- reads, the indexes that it builds of them, and its test for cycles.
use nctl.Prelude.{
  ℕ, suc, String, Bool, false, not, ◌&&◌, List, [], ◌∷◌, ◌++◌, Option, none, some, map, length,
  ◌==◌, if◌then◌else◌,
}
use nctl.Prelude.Dict
use nctl.Prelude.Dict.{Dict}
use nctl.Production.Reaches.{Found, reaches}

pub record BindingInput : Type 0 where
  pub id : String
  pub binding_name : String
  pub provider_service_id : String
  pub provider_service_slug : String

pub record PlacementInput : Type 0 where
  pub id : String
  pub deployment_profile : String
  pub desired_state : String
  pub service_id : String
  pub service_slug : String
  pub endpoint_id : Option String
  pub bindings : List BindingInput

pub record EndpointCandidate : Type 0 where
  pub id : String
  pub ip_address : Option String
  pub dns_name : Option String
  pub mdns_name : Option String
  pub protocol : Option String
  pub port : Option ℕ

pub record NodeInput : Type 0 where
  pub id : String
  pub slug : String
  pub endpoints : List EndpointCandidate
  pub placements : List PlacementInput

pub record Url : Type 0 where
  pub protocol : String
  pub host : String
  pub bracketed : Bool
  pub port : ℕ

pub record Provenance : Type 0 where
  pub consumer_placement_id : String
  pub binding_name : String
  pub provider_service_slug : String
  pub provider_placement_id : String
  pub endpoint_id : String

pub record Resolution : Type 0 where
  pub variables : Dict Url
  pub provenance : List Provenance

abbrev pub Active : Type 0
Active = Dict (List (NodeInput × PlacementInput))

abbrev pub Endpoints : Type 0
Endpoints = Dict (NodeInput × EndpointCandidate)

-- `endpoints`, and the loops that fill it
unfoldable pub add_endpoints : NodeInput → List EndpointCandidate → Endpoints → Endpoints
unfolding Dict.put
add_endpoints n [] d = d
add_endpoints n (e ∷ es) d = add_endpoints n es (Dict.put d e.id (n, e))

unfoldable pub endpoints_of : List NodeInput → Endpoints → Endpoints
unfolding add_endpoints
endpoints_of [] d = d
endpoints_of (n ∷ ns) d = endpoints_of ns (add_endpoints n n.endpoints d)

abbrev pub listed : Option (List (NodeInput × PlacementInput)) → List (NodeInput × PlacementInput)
listed none = []
listed (some l) = l

abbrev pub is_active : PlacementInput → Bool
is_active p = p.desired_state == "active"

-- `active_by_service.setdefault(service_id, []).append((node, placement))`
unfoldable pub add_placements : NodeInput → List PlacementInput → Active → Active
unfolding Dict.get Dict.put
add_placements n [] d = d
add_placements n (p ∷ ps) d = add_placements n ps (
    if is_active p && not (p.service_id == "")
    then Dict.put d p.service_id (listed (Dict.get d p.service_id) ++ (n, p) ∷ [])
    else d)

unfoldable pub active_by_service : List NodeInput → Active → Active
unfolding add_placements
active_by_service [] d = d
active_by_service (n ∷ ns) d = active_by_service ns (add_placements n n.placements d)

abbrev pub provider_ids : List BindingInput → List String
provider_ids = map (λ b. b.provider_service_id)

abbrev pub providers_in : List (NodeInput × PlacementInput) → List String
providers_in [] = []
providers_in ((n, p) ∷ rest) = provider_ids p.bindings ++ providers_in rest

-- the services that the active placements of a service bind to
unfoldable pub providers_of : Active → String → List String
unfolding Dict.get
providers_of active service = providers_in (listed (Dict.get active service))

abbrev pub all_providers : Active → List String
all_providers [] = []
all_providers ((s, l) ∷ rest) = providers_in l ++ all_providers rest

abbrev pub succeeded : Found → Bool
succeeded none = false
succeeded (some (b, seen)) = b

-- _reaches with a new set of seen services
unfoldable pub leads_back : Active → String → String → Bool
unfolding reaches providers_of
leads_back active provider service = succeeded (
    reaches (providers_of active) service (suc (length (provider ∷ all_providers active))) provider
      [])
