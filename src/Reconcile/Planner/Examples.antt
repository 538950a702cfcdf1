-- ===== src/Reconcile/Planner/Examples.antt =====
-- A plan for a service on two hosts, one of them blocked.
use nctl.Prelude.{true, false, [], ◌∷◌, none, some, refl, ◌⊎◌}
use mathlib.Core.List.{Memᴰ}
use nctl.Prelude.Dict
use nctl.Prelude.Order
use nctl.Prelude.Value
use nctl.Prelude.Value.{end, field, str, obj}
use nctl.Prelude.Sets.{Distinct}
use nctl.Prelude.Sets
use nctl.Drift.Model.{Target, DiffRecord, error}
use nctl.Sources.{DesiredSnapshot}
use nctl.Reconcile.Model.{
  ReconcileAction, ReconcilePlan, PlanScope, cluster, observation, manual_review,
}
use nctl.Reconcile.Registry.Order.{IsTopological}
use nctl.Reconcile.Classify.{CodeClassification, by, alone}
use nctl.Reconcile.Reconcilers.{ProfileReconciliation, dnsmasq_action}
use nctl.Reconcile.Planner.Partition.{Group, Parts, empty_parts}
use nctl.Reconcile.Planner.Services.{Draft, Drafting, plan_services, wire_profile_dependencies}
use nctl.Reconcile.Planner.Build.{finish_plan}
use nctl.Reconcile.Planner.Kept.{Kept}
use nctl.Reconcile.Planner.Blocked.{IsConfined, plan_services-Adds}
use nctl.Reconcile.Planner.Ordered.{finish_plan-IsTopological}

abbrev service_target : Target
service_target = record { kind = "service"; slug = some "dns"; name = some "dns"; id = some "s1" }

abbrev missing : DiffRecord
missing = record {
  target = service_target;
  code = "service_missing";
  severity = error;
  message = "";
  desired = end;
  actual = end;
  sources = [];
}

abbrev two_codes : Dict.Dict CodeClassification
two_codes =
    ("service_missing", alone manual_review)
    ∷ ("missing_actual_data", by observation "observe_node")
    ∷ []

abbrev no_parts : Parts
no_parts = empty_parts

abbrev reviewed_parts : Parts
reviewed_parts = record no_parts {
  manual_review =
      record {
        target = service_target;
        code = "service_missing";
        severity = "error";
        message = "";
        reason = "not automatable: ambiguity, conflict, or destructive change";
        evidence = field "desired" (obj end) (field "actual" (obj end) end);
      }
      ∷ [];
}

abbrev snapshot : DesiredSnapshot
snapshot = record {
  nodes =
      record { id = "n1"; slug = "a"; name = "a"; lifecycle = "active"; realized_device_id = none }
      ∷ record {
        id = "n2";
        slug = "b";
        name = "b";
        lifecycle = "active";
        realized_device_id = none;
      }
      ∷ [];
  services = record { id = "s1"; slug = "dns"; name = "dns" } ∷ [];
  placements =
      record {
        service_id = "s1";
        node_id = "n1";
        desired_state = "active";
        deployment_profile = "dnsmasq";
        management_mode = "nctl_managed";
      }
      ∷ record {
        service_id = "s1";
        node_id = "n2";
        desired_state = "active";
        deployment_profile = "dnsmasq";
        management_mode = "nctl_managed";
      }
      ∷ [];
  compute_platforms = [];
  compute_instances = [];
  workspaces = [];
  agents = [];
}

abbrev profiles : Dict.Dict ProfileReconciliation
profiles =
    ("dnsmasq", record { action = some dnsmasq_action; observe_only = false; dependencies = [] })
    ∷ []

abbrev whole : PlanScope
whole = record { kind = cluster; host_slug = none }

abbrev nothing : Drafting
nothing = record { drafts = []; manual_review = []; unsupported = [] }

abbrev dns_group : Group
dns_group = record {
  key = ("service", "dns");
  target = service_target;
  codes = "service_missing" ∷ [];
  diffs = missing ∷ [];
}

abbrev dns_action : ReconcileAction
dns_action = record {
  id = "dnsmasq_config:dnsmasq:dns";
  reconciler_id = "dnsmasq_config";
  action_kind = "dnsmasq_config";
  targets = service_target ∷ [];
  claimed_diff_codes = "service_missing" ∷ [];
  reason = "Run the profile's reconciliation action for this service.";
  evidence = end;
  dependencies = [];
  mutates = true;
  requires_observation = true;
  parameters =
      field "deployment_profile" (str "dnsmasq")
        (field "host_slugs" (Value.arr (Value.cons (str "b") Value.nil)) end);
}

abbrev dns_draft : Draft
dns_draft = record { action = dns_action; profile = some "dnsmasq" }

abbrev drafted : Drafting
drafted = record nothing { drafts = dns_draft ∷ [] }

plan_services-Adds_example : Memᴰ dns_draft [] ⊎ IsConfined whole ("a" ∷ []) dns_action
unfolding plan_services Sets.set_of Value.texts
plan_services-Adds_example =
    plan_services-Adds whole ("a" ∷ []) profiles snapshot (dns_group ∷ []) nothing dns_draft
      {after = drafted} refl (Memᴰ.head refl)

abbrev dns_plan : ReconcilePlan
dns_plan = record {
  scope = whole;
  drift_fingerprint = "f";
  drift_generated_at = none;
  actions = dns_action ∷ [];
  manual_review = [];
  unsupported = [];
}

finish_plan-IsTopological_example :
    IsTopological
      (wire_profile_dependencies profiles drafted.drafts)
      ("dnsmasq_config:dnsmasq:dns" ∷ [])
    × ((a : ReconcileAction)
        → Memᴰ a (dns_action ∷ [])
        → Memᴰ a (wire_profile_dependencies profiles drafted.drafts))
unfolding finish_plan wire_profile_dependencies Order.sorted Dict.keys Dict.put
finish_plan-IsTopological_example =
    finish_plan-IsTopological whole "f" none profiles drafted dns_plan (refl, tt) refl
