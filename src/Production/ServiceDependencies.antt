-- ===== src/Production/ServiceDependencies.antt =====
-- src/nctl_core/production/service_dependencies.py, with the inputs of production/model.py and the endpoints
-- of production/derivation.py that it reads. A resolution with an error is its code; a URL is kept in its
-- parts, and a port is a natural number.
mod Usable
mod LeadsBack
mod Examples
use nctl.Prelude.{
  ℕ, suc, String, Bool, true, false, not, ◌&&◌, ◌||◌, List, [], ◌∷◌, ◌++◌, Option, none, some, map,
  length, leb, nat_eq, ◌==◌, if◌then◌else◌,
}
use nctl.Prelude.Dict
use nctl.Prelude.Dict.{Dict}
use nctl.Prelude.Result.{Result, ok, err, ◌>>=◌}
use nctl.Compute.Text.{strip, between}
use nctl.Production.Active.{
  BindingInput, PlacementInput, EndpointCandidate, NodeInput, Url, Provenance, Resolution, Active,
  Endpoints, add_endpoints, endpoints_of, listed, is_active, add_placements, active_by_service,
  providers_in, providers_of, all_providers, succeeded, leads_back,
}
use nctl.Production.Reaches.{Found, reaches}
use Prim.Native.Char.{code}
use Prim.Native.String as Text

-- `_text(value)`
abbrev stripped : Option String → Option String
stripped none = none
stripped (some s) = if strip s == "" then none else some (strip s)

abbrev or_first : Option String → Option String → Option String
or_first none rest = rest
or_first (some s) rest = some s

-- `address.split("/", 1)[0]`
unfoldable pub before_slash : String → String
before_slash Text.[] = ""
before_slash (Text.◌∷◌ c s) =
    let rest = before_slash s in if nat_eq (code c) b'/' then "" else Text.◌∷◌ c rest

abbrev pub unless_empty : Option String → Option String
unless_empty none = none
unless_empty (some s) = if s == "" then none else some s

-- `lower` is str.lower; `ip_interface` is str(ipaddress.ip_interface(text).ip) and `ip_version` the version
-- of ipaddress.ip_address(text), with `none` for a ValueError; `binding_variable` is the lookup in
-- PROFILE_BINDING_VARIABLES
module _ (lower : String → String) (ip_interface : String → Option String)
    (ip_version : String → Option ℕ) (binding_variable : String → String → Option String) where
  abbrev normalized_ip : Option String → Option String
  normalized_ip none = none
  normalized_ip (some s) = ip_interface s

  unfoldable pub address : EndpointCandidate → Option String
  unfolding strip
  address e =
      or_first (normalized_ip (stripped e.ip_address))
        (or_first (stripped e.dns_name) (stripped e.mdns_name))

  abbrev pub protocol_text : Option String → String
  protocol_text none = ""
  protocol_text (some s) = lower (strip s)

  abbrev is_version_6 : Option ℕ → Bool
  is_version_6 none = false
  is_version_6 (some v) = nat_eq v 6

  abbrev url_at : String → String → ℕ → Url
  url_at protocol host port = record {
    protocol = protocol;
    host = host;
    bracketed = is_version_6 (ip_version host);
    port = port;
  }

  abbrev pub url_with : String → Option String → Option ℕ → Option Url
  url_with protocol none port = none
  url_with protocol (some host) none = none
  url_with protocol (some host) (some port) =
      if not (host == "") && ((protocol == "http" || protocol == "https") && between 1 65535 port)
      then some (url_at protocol (before_slash host) port)
      else none

  unfoldable pub endpoint_url : EndpointCandidate → Option Url
  unfolding address strip before_slash
  endpoint_url e = url_with (protocol_text e.protocol) (address e) e.port

  abbrev pub resolved :
      String → PlacementInput → BindingInput → PlacementInput → String → Url → Resolution
  resolved variable placement binding provider endpoint url = record {
    variables = (variable, url) ∷ [];
    provenance =
        record {
          consumer_placement_id = placement.id;
          binding_name = binding.binding_name;
          provider_service_slug = binding.provider_service_slug;
          provider_placement_id = provider.id;
          endpoint_id = endpoint;
        }
        ∷ [];
  }

  abbrev pub use_url :
      String
      → PlacementInput
      → BindingInput
      → PlacementInput
      → String
      → Option Url
      → Result String Resolution
  use_url variable placement binding provider endpoint none = err "binding_endpoint_unusable"
  use_url variable placement binding provider endpoint (some url) =
      ok (resolved variable placement binding provider endpoint url)

  abbrev pub use_endpoint :
      String
      → PlacementInput
      → BindingInput
      → NodeInput
      → PlacementInput
      → Option (NodeInput × EndpointCandidate)
      → Result String Resolution
  use_endpoint variable placement binding node provider none = err "binding_endpoint_invalid"
  use_endpoint variable placement binding node provider (some (owner, endpoint)) =
      if owner.id == node.id
      then use_url variable placement binding provider endpoint.id (endpoint_url endpoint)
      else err "binding_endpoint_invalid"

  abbrev pub use_provider :
      String
      → PlacementInput
      → BindingInput
      → Endpoints
      → NodeInput
      → PlacementInput
      → Option String
      → Result String Resolution
  use_provider variable placement binding endpoints node provider none =
      err "binding_endpoint_missing"
  use_provider variable placement binding endpoints node provider (some id) =
      use_endpoint variable placement binding node provider (Dict.get endpoints id)

  abbrev pub use_candidates :
      String
      → PlacementInput
      → BindingInput
      → Active
      → Endpoints
      → List (NodeInput × PlacementInput)
      → Result String Resolution
  use_candidates variable placement binding active endpoints [] = err "binding_provider_missing"
  use_candidates variable placement binding active endpoints ((node, provider) ∷ []) =
      if not (placement.service_id == "")
        && leads_back active binding.provider_service_id placement.service_id
      then err "binding_cycle"
      else use_provider variable placement binding endpoints node provider
          (unless_empty provider.endpoint_id)
  use_candidates variable placement binding active endpoints (first ∷ second ∷ rest) =
      err "binding_provider_ambiguous"

  abbrev pub use_variable :
      PlacementInput → BindingInput → Active → Endpoints → Option String → Result String Resolution
  use_variable placement binding active endpoints none = err "binding_name_undeclared"
  use_variable placement binding active endpoints (some variable) =
      if binding.provider_service_id == placement.service_id
      then err "binding_self_reference"
      else use_candidates variable placement binding active endpoints
          (listed (Dict.get active binding.provider_service_id))

  unfoldable pub resolve_binding :
      PlacementInput → BindingInput → Active → Endpoints → Result String Resolution
  unfolding Dict.get leads_back endpoint_url
  resolve_binding placement binding active endpoints =
      use_variable placement binding active endpoints
        (binding_variable placement.deployment_profile binding.binding_name)

  -- `bound`: the bindings of the active placements of a node
  unfoldable pub bound_of : List PlacementInput → List (PlacementInput × BindingInput)
  bound_of [] = []
  bound_of (p ∷ ps) =
      let rest = bound_of ps in if is_active p then map (λ b. (p, b)) p.bindings ++ rest else rest

  -- `dict.update`
  unfoldable pub update_all : Dict Url → Dict Url → Dict Url
  unfolding Dict.put
  update_all d [] = d
  update_all d ((k, v) ∷ rest) = update_all (Dict.put d k v) rest

  -- the loop over the bindings of a consumer, with its break
  unfoldable pub merge_bindings :
      List (PlacementInput × BindingInput)
      → Active
      → Endpoints
      → Resolution
      → Result String Resolution
  unfolding resolve_binding update_all
  merge_bindings [] active endpoints sum = ok sum
  merge_bindings ((p, b) ∷ rest) active endpoints sum =
      resolve_binding p b active endpoints >>= λ r. merge_bindings rest active endpoints (record {
        variables = update_all sum.variables r.variables;
        provenance = sum.provenance ++ r.provenance;
      })

  unfoldable pub resolve_consumers :
      List NodeInput
      → Active
      → Endpoints
      → Dict (Result String Resolution)
      → Dict (Result String Resolution)
  unfolding bound_of merge_bindings Dict.put
  resolve_consumers [] active endpoints result = result
  resolve_consumers (n ∷ ns) active endpoints result =
      resolve_consumers ns active endpoints (elim (bound_of n.placements) [
        | [] ↦ result
        | b ∷ bs ↦
            Dict.put result n.id (
              merge_bindings (b ∷ bs) active endpoints (record { variables = []; provenance = [] }))
      ])

  unfoldable pub resolve_service_dependencies : List NodeInput → Dict (Result String Resolution)
  unfolding resolve_consumers active_by_service endpoints_of
  resolve_service_dependencies nodes =
      resolve_consumers nodes (active_by_service nodes []) (endpoints_of nodes []) []
