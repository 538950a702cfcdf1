-- ===== src/Sources.antt =====
-- src/nctl_core/sources/desired.py and compute/model.py: the desired rows, in the fields that planning
-- and lifecycle read.
use nctl.Prelude.{String, Bool, List, [], ◌∷◌, Option}
use nctl.Prelude.Dict
use nctl.Prelude.Dict.{Dict}

pub record DesiredNode : Type 0 where
  pub id : String
  pub slug : String
  pub name : String
  pub lifecycle : String
  pub realized_device_id : Option String

pub record DesiredServicePlacement : Type 0 where
  pub service_id : String
  pub node_id : String
  pub desired_state : String
  pub deployment_profile : String
  pub management_mode : String

pub record DesiredService : Type 0 where
  pub id : String
  pub slug : String
  pub name : String

pub record DesiredComputePlatform : Type 0 where
  pub id : String
  pub slug : String
  pub name : String
  pub lifecycle : String
  pub control_node_id : String
  pub realized_cluster_id : Option String

pub record DesiredComputeInstance : Type 0 where
  pub id : String
  pub desired_node_id : String
  pub platform_id : String
  pub realized_vm_id : Option String

pub record DesiredWorkspace : Type 0 where
  pub id : String
  pub slug : String
  pub name : String

pub record DesiredAgent : Type 0 where
  pub id : String
  pub slug : String
  pub name : String

pub record DesiredSnapshot : Type 0 where
  pub nodes : List DesiredNode
  pub services : List DesiredService
  pub placements : List DesiredServicePlacement
  pub compute_platforms : List DesiredComputePlatform
  pub compute_instances : List DesiredComputeInstance
  pub workspaces : List DesiredWorkspace
  pub agents : List DesiredAgent

-- `{node.id: node for node in nodes}`, and the like
unfoldable pub nodes_by_id : List DesiredNode → Dict DesiredNode → Dict DesiredNode
unfolding Dict.put
nodes_by_id [] d = d
nodes_by_id (n ∷ rest) d = nodes_by_id rest (Dict.put d n.id n)

unfoldable pub services_by_slug : List DesiredService → Dict DesiredService → Dict DesiredService
unfolding Dict.put
services_by_slug [] d = d
services_by_slug (s ∷ rest) d = services_by_slug rest (Dict.put d s.slug s)

unfoldable pub platforms_by_id :
    List DesiredComputePlatform → Dict DesiredComputePlatform → Dict DesiredComputePlatform
unfolding Dict.put
platforms_by_id [] d = d
platforms_by_id (p ∷ rest) d = platforms_by_id rest (Dict.put d p.id p)

pub record DesiredIpRange : Type 0 where
  pub id : String
  pub name : String
  pub slug : String
  pub start_address : String
  pub end_address : String
  pub range_policy : String
  pub lifecycle : String
  pub generate_dnsmasq : Bool
