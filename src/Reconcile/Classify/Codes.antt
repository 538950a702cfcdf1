-- ===== src/Reconcile/Classify/Codes.antt =====
-- src/nctl_core/reconcile/classify.py and production/composer.py: the sets of diff codes, in the order
-- of the source. `PRODUCTION_BLOCKING_NODE_CODES` is the union of its parts.
use nctl.Prelude.{String, List, [], ◌∷◌, ◌++◌}

abbrev pub observation_codes : List String
observation_codes =
    "ingest_lag" ∷ "missing_actual_data" ∷ "stale_actual_data" ∷ "invalid_actual_timestamp"
    ∷ "missing_actual_node" ∷ "no_realized_device" ∷ "missing_observed_system"
    ∷ "missing_mac_address" ∷ "missing_network_interface" ∷ "service_observation_missing"
    ∷ "service_observation_stale" ∷ "service_config_observation_missing"
    ∷ "service_config_observation_mismatch" ∷ "service_observed_facts_unknown" ∷ "binding_unknown"
    ∷ []

abbrev pub link_actual_node_codes : List String
link_actual_node_codes = "actual_node_not_linked" ∷ []

abbrev pub reconcile_ipam_codes : List String
reconcile_ipam_codes = "missing_actual_ip_address" ∷ "actual_ip_address_not_linked" ∷ []

abbrev pub service_profile_codes : List String
service_profile_codes =
    "service_missing" ∷ "service_not_running" ∷ "service_should_be_stopped"
    ∷ "service_config_missing" ∷ "service_config_unreadable" ∷ "service_config_mismatch"
    ∷ "binding_unbound" ∷ "binding_misbound" ∷ []

abbrev pub manual_review_codes : List String
manual_review_codes =
    "multiple_realized_links" ∷ "realized_actual_type_not_accepted"
    ∷ "ambiguous_actual_node_candidates" ∷ "realized_device_missing" ∷ "no_realized_object"
    ∷ "unsupported_actual_type" ∷ "serial_mismatch" ∷ "uuid_mismatch" ∷ "platform_mismatch"
    ∷ "hostname_mismatch" ∷ "ip_address_mismatch" ∷ "ambiguous_ip_address_candidates"
    ∷ "missing_interface_candidate" ∷ "ambiguous_interface" ∷ "invalid_ip_policy_range"
    ∷ "missing_ip_policy_range" ∷ "ambiguous_ip_policy_range"
    ∷ "dhcp_reserved_endpoint_in_dynamic_pool" ∷ "ip_policy_range_mismatch"
    ∷ "static_endpoint_in_dhcp_pool" ∷ "desired_mac_mismatch" ∷ "ipam_reconcile_observation_missing"
    ∷ "ipam_reconcile_observation_mismatch" ∷ "ipam_reconcile_observation_ambiguous"
    ∷ "service_lifecycle_inactive" ∷ "missing_service_lifecycle" ∷ "service_has_no_active_placement"
    ∷ "service_observed_on_wrong_node" ∷ "compute_platform_missing"
    ∷ "compute_platform_observation_stale" ∷ "compute_platform_ambiguous"
    ∷ "compute_instance_kind_not_creatable" ∷ "compute_template_unavailable"
    ∷ "compute_storage_unavailable" ∷ "compute_bridge_unavailable" ∷ "compute_vmid_conflict"
    ∷ "compute_endpoint_ip_conflict" ∷ "compute_control_node_not_actionable"
    ∷ "compute_instance_candidate_ambiguous" ∷ "compute_realized_instance_missing"
    ∷ "compute_identity_conflict" ∷ "compute_endpoint_mac_conflict"
    ∷ "compute_primary_endpoint_missing" ∷ "compute_primary_endpoint_ambiguous"
    ∷ "compute_power_state_mismatch" ∷ "compute_instance_node_missing"
    ∷ "compute_instance_platform_invalid" ∷ "compute_instance_platform_missing"
    ∷ "compute_platform_control_node_missing" ∷ "duplicate_compute_instance_for_node"
    ∷ "duplicate_mac_address" ∷ "duplicate_platform_slug" ∷ "invalid_mac_address"
    ∷ "invalid_compute_platform" ∷ "invalid_compute_instance" ∷ "invalid_config_type"
    ∷ "invalid_config_value" ∷ "invalid_source" ∷ "invalid_vmid" ∷ "missing_config_value"
    ∷ "missing_control_node" ∷ "missing_desired_node" ∷ "missing_platform" ∷ "unknown_config_key"
    ∷ "binding_name_undeclared" ∷ "binding_self_reference" ∷ "binding_provider_missing"
    ∷ "binding_provider_ambiguous" ∷ "binding_cycle" ∷ "binding_endpoint_missing"
    ∷ "binding_endpoint_invalid" ∷ "binding_endpoint_unusable" ∷ "binding_unreachable"
    ∷ "binding_provider_not_converged" ∷ "vmid_out_of_range" ∷ []

abbrev pub unsupported_codes : List String
unsupported_codes = "compute_resource_mismatch" ∷ "unexplained_compute_guest" ∷ []

abbrev node_local_codes : List String
node_local_codes =
    "unsupported_observed_host_os" ∷ "invalid_platform_power" ∷ "endpoint_node_mismatch"
    ∷ "unresolved_connection_path" ∷ "invalid_connection_address" ∷ []

abbrev operational_derivation_codes : List String
operational_derivation_codes = "ambiguous_connection_endpoints" ∷ "missing_connection_endpoint" ∷ []

abbrev placement_local_codes : List String
placement_local_codes =
    "unknown_profile" ∷ "unsupported_config_schema" ∷ "invalid_placement_config"
    ∷ "unknown_config_key" ∷ "missing_required_config" ∷ "invalid_profile_value_type" ∷ []

abbrev service_dependency_local_codes : List String
service_dependency_local_codes =
    "binding_name_undeclared" ∷ "binding_self_reference" ∷ "binding_provider_missing"
    ∷ "binding_provider_ambiguous" ∷ "binding_cycle" ∷ "binding_endpoint_missing"
    ∷ "binding_endpoint_invalid" ∷ "binding_endpoint_unusable" ∷ []

abbrev merge_local_codes : List String
merge_local_codes = "conflicting_host_variable" ∷ []

abbrev local_composition_codes : List String
local_composition_codes =
    node_local_codes ++ placement_local_codes ++ merge_local_codes ++ service_dependency_local_codes

abbrev pub production_blocking_node_codes : List String
production_blocking_node_codes =
    local_composition_codes
    ++ operational_derivation_codes
    ++ "active_placement_not_applied" ∷ "invalid_actual_timestamp" ∷ "missing_actual_data"
      ∷ "missing_mac_address" ∷ "missing_observed_system" ∷ "no_realized_device"
      ∷ "stale_actual_data" ∷ "unsupported_actual_type" ∷ []
