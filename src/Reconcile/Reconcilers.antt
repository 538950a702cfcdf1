-- ===== src/Reconcile/Reconcilers.antt =====
-- src/nctl_core/reconcile/reconcilers.py: the registered reconcilers and the planners that need no
-- derivation from the snapshot; profiles.py's data that they read.
pub mod Registered
pub mod Ipam
use Prim.Native.String as Text
use nctl.Prelude.{
  String, Bool, true, false, List, [], ◌∷◌, ◌++◌, map, Option, none, some, ◌==◌, if◌then◌else◌,
}
use nctl.Prelude.Order.{sorted}
use nctl.Prelude.Dict
use nctl.Prelude.Dict.{Dict}
use nctl.Prelude.Sets.{set_of}
use nctl.Prelude.Value.{Value, Fields, end, field, str, arr, obj, texts}
use nctl.Prelude.Result.{Result, ok, err, ◌>>=◌}
use nctl.Drift.Model.{Target}
use nctl.Reconcile.Model.{ReconcileAction, Classification, unsupported}
use nctl.Reconcile.Registry.{Reconciler, RegistryError, register_reconciler}

abbrev reconciler : String → String → Bool → Bool → Reconciler
reconciler id kind requires ssh = record {
  id = id;
  action_kind = kind;
  mutates = true;
  requires_observation = requires;
  connects_over_ssh = ssh;
}

abbrev pub observe_node : Reconciler
observe_node = reconciler "observe_node" "observation" false true

abbrev pub link_actual_node : Reconciler
link_actual_node = reconciler "link_actual_node" "ledger_patch" false false

abbrev pub link_compute_realization : Reconciler
link_compute_realization = reconciler "link_compute_realization" "ledger_patch" false false

abbrev pub create_compute_instance : Reconciler
create_compute_instance = reconciler "create_compute_instance" "compute_create" true true

abbrev pub destroy_compute_instance : Reconciler
destroy_compute_instance = reconciler "destroy_compute_instance" "compute_destroy" true true

abbrev pub reconcile_ipam : Reconciler
reconcile_ipam = reconciler "reconcile_ipam" "job" false false

abbrev pub service_profile : Reconciler
service_profile = reconciler "service_profile" "playbook" true true

abbrev pub dnsmasq_config : Reconciler
dnsmasq_config = reconciler "dnsmasq_config" "dnsmasq_config" true true

abbrev pub new_node_baseline : Reconciler
new_node_baseline = reconciler "new_node_baseline" "playbook" false true

unfoldable pub register_all :
    List Reconciler → Dict Reconciler → Result RegistryError (Dict Reconciler)
unfolding register_reconciler
register_all [] registry = ok registry
register_all (r ∷ rest) registry = register_reconciler registry r >>= λ next. register_all rest next

-- the module's registrations, in order
abbrev pub registrations : List Reconciler
registrations =
    observe_node ∷ link_actual_node ∷ link_compute_realization ∷ create_compute_instance
    ∷ destroy_compute_instance ∷ reconcile_ipam ∷ service_profile ∷ dnsmasq_config
    ∷ new_node_baseline ∷ []

-- `_REGISTRY` once the module is loaded
unfoldable pub registry : Dict Reconciler
unfolding register_all
registry = elim (register_all registrations []) [ ok d ↦ d | err e ↦ [] ]

pub record Fallback : Type 0 where
  pub classification : Classification
  pub reason : String
  pub evidence : Fields

pub data Outcome : Type 0 where
  planned : ReconcileAction → Outcome
  declined : Fallback → Outcome

-- `{target.slug for target in targets if target.slug}`
unfoldable pub target_slugs : List Target → List String
target_slugs [] = []
target_slugs (t ∷ ts) =
    let rest = target_slugs ts in
    elim t.slug [ none ↦ rest | some s ↦ if s == "" then rest else s ∷ rest ]

unfoldable pub plan_observe_node : String → String → List Target → List String → ReconcileAction
unfolding target_slugs
plan_observe_node action_id reason targets claimed = record {
  id = action_id;
  reconciler_id = observe_node.id;
  action_kind = observe_node.action_kind;
  targets = targets;
  claimed_diff_codes = sorted (set_of claimed);
  reason = reason;
  evidence = end;
  dependencies = [];
  mutates = observe_node.mutates;
  requires_observation = observe_node.requires_observation;
  parameters = field "host_slugs" (arr (texts (sorted (set_of (target_slugs targets))))) end;
}

-- profiles.py: `ProfileAction` and `ProfileReconciliation`, in the fields that planning reads
pub data ProfileAction : Type 0 where
  playbook_action : Option String → Fields → ProfileAction
  dnsmasq_action : ProfileAction

pub record ProfileReconciliation : Type 0 where
  pub action : Option ProfileAction
  pub observe_only : Bool
  pub dependencies : List String

infixr 66 ◌<>◌
abbrev pub ◌<>◌ : String → String → String
◌<>◌ = Text.◌++◌

-- an f-string shows a missing slug as `None`
abbrev pub shown : Option String → String
shown none = "None"
shown (some s) = s

abbrev pub optional_text : Option String → Value
optional_text none = Value.null
optional_text (some s) = str s

abbrev no_evidence : String → Outcome
no_evidence reason =
    declined (record { classification = unsupported; reason = reason; evidence = end })

abbrev built : Reconciler → Target → List String → String → Fields → ReconcileAction
built r target claimed profile parameters = record {
  id = r.id <> ":" <> profile <> ":" <> shown target.slug;
  reconciler_id = r.id;
  action_kind = r.action_kind;
  targets = target ∷ [];
  claimed_diff_codes = sorted (set_of claimed);
  reason = "Run the profile's reconciliation action for this service.";
  evidence = end;
  dependencies = [];
  mutates = r.mutates;
  requires_observation = r.requires_observation;
  parameters = parameters;
}

abbrev profile_parameters : String → List String → Fields → Fields
profile_parameters profile hosts more =
    field "deployment_profile" (str profile) (field "host_slugs" (arr (texts (sorted hosts))) more)

-- The reasons leave out the profile's name, which the source quotes with Python's repr.
-- The assertion that an entry has an action or is observe_only is an unsupported outcome here: the
-- validator of `ProfileReconciliation` refuses such an entry.
unfoldable pub plan_service_profile :
    Target → List String → String → List String → Dict ProfileReconciliation → Outcome
plan_service_profile target claimed profile hosts reconciliation =
    elim (Dict.get reconciliation profile) [
      | none ↦ no_evidence "the profile declares no reconciliation metadata"
      | some entry ↦
          if entry.observe_only
          then no_evidence "the profile is observe_only; no actuation is available"
          else elim entry.action [
            | none ↦ no_evidence "neither action nor observe_only"
            | some dnsmasq_action ↦
                planned (
                  built dnsmasq_config target claimed profile
                    (profile_parameters profile hosts end))
            | some (playbook_action playbook by_os) ↦ planned (
                built service_profile target claimed profile (
                  profile_parameters profile hosts (
                    field "playbook" (optional_text playbook)
                      (field "playbook_by_os" (obj by_os) end))))
          ]
    ]
