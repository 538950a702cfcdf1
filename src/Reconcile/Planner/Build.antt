-- ===== src/Reconcile/Planner/Build.antt =====
-- `build_plan` of planner.py: the loops, in order, and the sorted plan.
use nctl.Prelude.{String, List, [], ◌∷◌, ◌++◌, Option, none, some, nonempty, if◌then◌else◌}
use nctl.Prelude.Order.{sorted}
use nctl.Prelude.Dict
use nctl.Prelude.Dict.{Dict}
use nctl.Prelude.Result.{Result, ok, err, ◌>>=◌}
use nctl.Drift.Model.{Target, DiffRecord}
use nctl.Sources.{DesiredSnapshot, nodes_by_id}
use nctl.Reconcile.Model.{ReconcileAction, ReconcilePlan, PlanScope}
use nctl.Reconcile.Registry.{topological_order, by_id}
use nctl.Reconcile.Classify.{code_classification}
use nctl.Reconcile.Reconcilers.{ProfileReconciliation, plan_observe_node}
use nctl.Reconcile.Planner.{PlanFailure, bad_order, select_scoped_diffs}
use nctl.Reconcile.Planner.Partition.{Parts, empty_parts, partition_diffs}
use nctl.Reconcile.Planner.Services.{Drafting, plan_services, wire_profile_dependencies}
use nctl.Reconcile.Planner.Plan.{
  Derivations, sorted_groups, append, plan_links, plan_transitions, plan_ipam, blocked_node_slugs,
  transition_slugs, retired_effective_lifecycle_slugs, unenrollable_guest_slugs, ordered_targets,
  slugs_of, compute_evidence_refresh,
}

abbrev default_reason : String
default_reason = "Fresh nodeutils collection and ingest may resolve or refine this evidence gap."

abbrev evidence_reason : String
evidence_reason =
    "A scoped compute instance has no realized VirtualMachine; a fresh hypervisor-side collection and ingest on the platform's control node is the evidence that can resolve or refine it."

-- an observation, if it has a target
abbrev observe : String → String → List Target → List String → Drafting → Drafting
observe id reason targets codes s =
    if nonempty targets then append (plan_observe_node id reason targets codes) s else s

-- `[actions_by_id[id] for id in order]`; every id of an order is the id of an action
unfoldable pub actions_in : Dict ReconcileAction → List String → List ReconcileAction
unfolding Dict.get
actions_in index [] = []
actions_in index (id ∷ rest) =
    let later = actions_in index rest in
    elim (Dict.get index id) [ none ↦ later | some a ↦ a ∷ later ]

-- the actions of the plan, and what it could not plan
unfoldable pub finish_plan :
    PlanScope
    → String
    → Option String
    → Dict ProfileReconciliation
    → Drafting
    → Result PlanFailure ReconcilePlan
unfolding wire_profile_dependencies topological_order actions_in by_id
finish_plan scope fingerprint generated_at reconciliation s =
    let actions = wire_profile_dependencies reconciliation s.drafts in
    elim (topological_order actions) [
      | err e ↦ err (bad_order e)
      | ok order ↦ ok (record {
        scope = scope;
        drift_fingerprint = fingerprint;
        drift_generated_at = generated_at;
        actions = actions_in (by_id actions []) order;
        manual_review = s.manual_review;
        unsupported = s.unsupported;
      })
    ]

module _ (derive : Derivations) (snapshot : DesiredSnapshot) (scope : PlanScope)
    (reconciliation : Dict ProfileReconciliation) where
  -- the compute transitions, after the links of the nodes
  unfoldable pub draft_links : Parts → Drafting × Dict String
  unfolding sorted_groups plan_links plan_transitions
  draft_links parts =
      let (linked, node_links) =
        plan_links derive.plan_link_actual_node (sorted_groups "link_actual_node" parts) (
          record {
            drafts = [];
            manual_review = parts.manual_review;
            unsupported = parts.unsupported;
          },
          [],
        ) in
      let (realized, compute_links) =
        plan_links derive.plan_link_compute_realization
          (sorted_groups "link_compute_realization" parts) (linked, []) in
      let created =
        plan_transitions derive.plan_create_compute_instance []
          (sorted_groups "create_compute_instance" parts) realized in
      (
        plan_transitions derive.plan_destroy_compute_instance compute_links
            (sorted_groups "destroy_compute_instance" parts) created,
        node_links,
      )

  -- the observations of nodes, and of the control nodes
  unfoldable pub draft_observations : List DiffRecord → Parts → Drafting → Drafting
  unfolding plan_observe_node ordered_targets transition_slugs retired_effective_lifecycle_slugs
      unenrollable_guest_slugs nodes_by_id slugs_of compute_evidence_refresh sorted
  draft_observations diffs parts s =
      let nodes = nodes_by_id snapshot.nodes [] in
      let transitions = transition_slugs s.drafts in
      let retired = retired_effective_lifecycle_slugs snapshot in
      let targets =
        ordered_targets
          (transitions ++ retired ++ unenrollable_guest_slugs nodes derive.realizations)
          parts.observe_targets in
      let (controls, codes) =
        compute_evidence_refresh nodes diffs derive.realizations transitions (slugs_of targets)
          retired in
      observe "observe_node:compute-evidence" evidence_reason controls codes
        (observe "observe_node" default_reason targets (sorted parts.observe_codes) s)

  -- every loop that appends to the actions
  unfoldable pub draft_actions : List DiffRecord → Parts → Result PlanFailure Drafting
  unfolding draft_links draft_observations plan_ipam plan_services sorted_groups blocked_node_slugs
  draft_actions diffs parts =
      let (linked, node_links) = draft_links parts in
      plan_services scope (blocked_node_slugs diffs) reconciliation snapshot
        (sorted_groups "service_profile" parts)
        (plan_ipam node_links (sorted_groups "reconcile_ipam" parts)
          (draft_observations diffs parts linked))

  unfoldable pub plan_scoped : Option String → List DiffRecord → Result PlanFailure ReconcilePlan
  unfolding partition_diffs draft_actions finish_plan code_classification
  plan_scoped generated_at diffs =
      partition_diffs code_classification diffs empty_parts >>= λ parts.
      draft_actions diffs parts
      >>= finish_plan scope (derive.fingerprint diffs) generated_at reconciliation

  unfoldable pub build_plan : Option String → List DiffRecord → Result PlanFailure ReconcilePlan
  unfolding select_scoped_diffs plan_scoped
  build_plan generated_at diffs =
      select_scoped_diffs diffs scope snapshot >>= plan_scoped generated_at
