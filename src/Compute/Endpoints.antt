-- ===== src/Compute/Endpoints.antt =====
-- src/nctl_core/compute/contract.py: the primary endpoint of a compute instance, and its effective values.
mod Selected
mod Examples
use nctl.Prelude.{
  ℕ, String, Bool, true, false, not, ◌&&◌, List, [], ◌∷◌, Option, none, some, select, nat_eq, ltb,
  leb, ◌==◌, if◌then◌else◌,
}
use nctl.Prelude.Value.{Value, Fields, null, str, lookup}
use nctl.Compute.Text.{strip}

pub record DesiredEndpoint : Type 0 where
  pub endpoint_type : String
  pub ip_address : Option String
  pub gateway_address : Option String
  pub ip_policy : String
  pub dns_name : Option String
  pub mdns_name : Option String
  pub mac_address : Option String
  pub generate_dnsmasq : Bool

-- an interface and an address of Python's `ipaddress`; `first` and `last` are the values of the network's
-- network_address and broadcast_address
pub record Interface : Type 0 where
  pub version : ℕ
  pub first : ℕ
  pub last : ℕ

pub record Gateway : Type 0 where
  pub version : ℕ
  pub value : ℕ

pub data Provenance : Type 0 where
  instance_override platform_default unresolved intent : Provenance

pub record Effective : Type 0 where
  pub value : Option Value
  pub provenance : Provenance

pub record EffectiveDefaults : Type 0 where
  pub cluster_name : Effective
  pub storage : Effective
  pub bridge : Effective
  pub vmid : Effective
  pub mac : Effective

-- `d.get(k)`, with None for a missing key and for null
abbrev present : Option Value → Option Value
present none = none
present (some null) = none
present (some v) = some v

unfoldable pub effective_value : Option Value → Option Value → Effective
effective_value (some v) platform = record { value = some v; provenance = instance_override }
effective_value none (some v) = record { value = some v; provenance = platform_default }
effective_value none none = record { value = none; provenance = unresolved }

unfoldable pub effective_single_source_value : Option Value → Effective
effective_single_source_value none = record { value = none; provenance = unresolved }
effective_single_source_value (some v) = record { value = some v; provenance = intent }

-- `value or ""`
abbrev or_empty : Option String → String
or_empty none = ""
or_empty (some s) = s

-- `ip_interface` and `ip_address` are those of `ipaddress`, with `none` for a ValueError
module _ (ip_interface : String → Option Interface) (ip_address : String → Option Gateway) where
  abbrev parses : Option Interface → Bool
  parses none = false
  parses (some i) = true

  unfoldable pub endpoint_has_usable_ip : DesiredEndpoint → Bool
  endpoint_has_usable_ip e =
      not (or_empty e.ip_address == "") && parses (ip_interface (or_empty e.ip_address))

  -- the gateway is an address of the network, and neither its first nor its last one
  abbrev pub is_usable_gateway : Option Interface → Option Gateway → Bool
  is_usable_gateway none g = false
  is_usable_gateway (some i) none = false
  is_usable_gateway (some i) (some g) =
      nat_eq i.version 4
      && (nat_eq g.version 4
          && ((leb i.first g.value && leb g.value i.last)
              && not (nat_eq g.value i.first)
              && not (nat_eq g.value i.last)))

  -- whether static_ipv4_network returns the texts of the interface and of the gateway
  unfoldable pub has_static_ipv4_network : DesiredEndpoint → Bool
  has_static_ipv4_network e =
      e.ip_policy == "static"
      && is_usable_gateway (ip_interface (or_empty e.ip_address))
          (ip_address (or_empty e.gateway_address))

  unfoldable pub endpoint_satisfies_compute_address_contract : DesiredEndpoint → Bool
  unfolding endpoint_has_usable_ip has_static_ipv4_network strip
  endpoint_satisfies_compute_address_contract e =
      if e.ip_policy == "dhcp_reserved"
      then endpoint_has_usable_ip e
        && (not (strip (or_empty e.dns_name) == "") && e.generate_dnsmasq)
      else if e.ip_policy == "static"
      then has_static_ipv4_network e
      else false

  unfoldable pub is_candidate : DesiredEndpoint → Bool
  unfolding endpoint_satisfies_compute_address_contract strip
  is_candidate e =
      e.endpoint_type == "primary"
      && (not (or_empty e.mac_address == "")
          && (not (strip (or_empty e.mdns_name) == "")
              && endpoint_satisfies_compute_address_contract e))

  abbrev pub sole : List DesiredEndpoint → Option DesiredEndpoint × Option String
  sole [] = (none, some "compute_primary_endpoint_missing")
  sole (e ∷ []) = (some e, none)
  sole (e ∷ f ∷ rest) = (none, some "compute_primary_endpoint_ambiguous")

  unfoldable pub select_compute_primary_endpoint :
      List DesiredEndpoint → Option DesiredEndpoint × Option String
  unfolding is_candidate
  select_compute_primary_endpoint endpoints = sole (select is_candidate endpoints)

  abbrev mac_of : Option DesiredEndpoint → Option Value
  mac_of none = none
  mac_of (some e) = elim e.mac_address [ none ↦ none | some m ↦ some (str m) ]

  -- the configurations of the instance and of the platform, empty where there is none
  unfoldable pub effective_compute_defaults :
      Fields → Fields → List DesiredEndpoint → EffectiveDefaults
  unfolding lookup effective_value effective_single_source_value select_compute_primary_endpoint
  effective_compute_defaults instance_config platform_config endpoints = record {
    cluster_name = effective_single_source_value (present (lookup "cluster_name" platform_config));
    storage =
        effective_value (present (lookup "storage" instance_config))
          (present (lookup "default_storage" platform_config));
    bridge =
        effective_value (present (lookup "bridge" instance_config))
          (present (lookup "default_bridge" platform_config));
    vmid = effective_single_source_value (present (lookup "vmid" instance_config));
    mac = effective_single_source_value (mac_of (select_compute_primary_endpoint endpoints).0);
  }
