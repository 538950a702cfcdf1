-- ===== src/Reconcile/Planner/Plan.antt =====
-- `build_plan`, composed of its loops.
use nctl.Prelude.{
  String, Bool, false, not, ◌&&◌, ◌||◌, List, [], ◌∷◌, ◌++◌, map, Option, none, some, contains,
  select, nonempty, ◌==◌, if◌then◌else◌,
}
use nctl.Prelude.Order.{sort, str_le, sorted}
use nctl.Prelude.Dict
use nctl.Prelude.Dict.{Dict}
use nctl.Prelude.Sets.{add, set_of}
use nctl.Drift.Model.{Target, DiffRecord}
use nctl.Sources.{
  DesiredNode, DesiredComputePlatform, DesiredComputeInstance, DesiredSnapshot, platforms_by_id,
}
use nctl.Compute.Lifecycle.{effective_lifecycle}
use nctl.Reconcile.Model.{ReconcileAction}
use nctl.Reconcile.Classify.Codes.{production_blocking_node_codes}
use nctl.Reconcile.Reconcilers.{Outcome, planned, declined}
use nctl.Reconcile.Reconcilers.Ipam.{plan_reconcile_ipam}
use nctl.Reconcile.Planner.Partition.{TargetKey, Group, Parts, groups_of}
use nctl.Reconcile.Planner.Services.{Draft, Drafting, fall_back}

-- A `ComputeRealization`, in what the planner reads: the desired node of the instance, whether there is a
-- virtual machine, and the control node of the platform.
pub record Realization : Type 0 where
  pub desired_node_id : String
  pub has_virtual_machine : Bool
  pub control_node_id : String

-- What the planner asks of the derivations from the snapshot.
pub record Derivations : Type 0 where
  pub plan_link_actual_node : Target → Outcome
  pub plan_link_compute_realization : Target → Outcome
  pub plan_create_compute_instance : Target → Outcome
  pub plan_destroy_compute_instance : Target → Outcome
  -- derive_compute_realizations
  pub realizations : List Realization
  -- compute_drift_fingerprint
  pub fingerprint : List DiffRecord → String

abbrev pub key_le : TargetKey → TargetKey → Bool
key_le (a, b) (c, d) = if a == c then str_le b d else str_le a c

abbrev pub group_le : Group → Group → Bool
group_le g h = key_le g.key h.key

-- `sorted(automatic_groups.get(id, {}).items())`
unfoldable pub sorted_groups : String → Parts → List Group
unfolding sort str_le Dict.get
sorted_groups id parts = sort group_le (groups_of (Dict.get parts.automatic_groups id))

-- a slug that is there and is not empty
abbrev pub truthy : Option String → List String
truthy none = []
truthy (some s) = if s == "" then [] else s ∷ []

-- `targets[0].slug`, if there is one
abbrev first_slug : ReconcileAction → List String
first_slug a = elim a.targets [ [] ↦ [] | t ∷ rest ↦ truthy t.slug ]

abbrev pub append : ReconcileAction → Drafting → Drafting
append a s = record s { drafts = s.drafts ++ record { action = a; profile = none } ∷ [] }

unfoldable pub link_slug : Option String → String → Dict String → Dict String
unfolding Dict.put
link_slug none id links = links
link_slug (some s) id links = if s == "" then links else Dict.put links s id

-- a loop that links nodes: the ids of the planned actions are kept by slug
unfoldable pub plan_links :
    (Target → Outcome) → List Group → Drafting × Dict String → Drafting × Dict String
unfolding fall_back link_slug
plan_links plan [] state = state
plan_links plan (g ∷ rest) (s, links) = plan_links plan rest (elim (plan g.target) [
  | declined f ↦ (fall_back f g.diffs s, links)
  | planned a ↦ (append a s, link_slug g.target.slug a.id links)
])

-- `action.model_copy(update={"dependencies": [links[slug]]})` where the slug is linked
unfoldable pub after_link : Dict String → Option String → ReconcileAction → ReconcileAction
unfolding Dict.get
after_link links none a = a
after_link links (some s) a =
    if s == ""
    then a
    else elim (Dict.get links s) [ none ↦ a | some id ↦ record a { dependencies = id ∷ [] } ]

unfoldable pub plan_transitions :
    (Target → Outcome) → Dict String → List Group → Drafting → Drafting
unfolding fall_back after_link
plan_transitions plan links [] s = s
plan_transitions plan links (g ∷ rest) s = plan_transitions plan links rest (elim (plan g.target) [
  | declined f ↦ fall_back f g.diffs s
  | planned a ↦ append (after_link links g.target.slug a) s
])

unfoldable pub plan_ipam : Dict String → List Group → Drafting → Drafting
unfolding after_link plan_reconcile_ipam
plan_ipam links [] s = s
plan_ipam links (g ∷ rest) s =
    plan_ipam links rest
      (append (after_link links g.target.slug (plan_reconcile_ipam g.target g.diffs)) s)

-- node slugs with a finding that makes production actuation unsafe
unfoldable pub blocked_node_slugs : List DiffRecord → List String
blocked_node_slugs [] = []
blocked_node_slugs (d ∷ rest) =
    let later = blocked_node_slugs rest in
    if (d.target.kind == "node") && contains d.code production_blocking_node_codes
    then truthy d.target.slug ++ later
    else later

abbrev transition_ids : List String
transition_ids =
    "create_compute_instance" ∷ "destroy_compute_instance" ∷ "link_compute_realization" ∷ []

unfoldable pub transition_slugs : List Draft → List String
transition_slugs [] = []
transition_slugs (d ∷ rest) =
    let later = transition_slugs rest in
    if contains d.action.reconciler_id transition_ids then first_slug d.action ++ later else later

-- `platform_by_node_id`
unfoldable pub platform_by_node_id :
    Dict DesiredComputePlatform
    → List DesiredComputeInstance
    → Dict (Option DesiredComputePlatform)
    → Dict (Option DesiredComputePlatform)
unfolding Dict.get Dict.put
platform_by_node_id platforms [] d = d
platform_by_node_id platforms (i ∷ rest) d =
    platform_by_node_id platforms rest
      (Dict.put d i.desired_node_id (Dict.get platforms i.platform_id))

abbrev node_lifecycle : Option (Option DesiredComputePlatform) → DesiredNode → String
node_lifecycle none n = n.lifecycle
node_lifecycle (some none) n = n.lifecycle
node_lifecycle (some (some platform)) n = effective_lifecycle n.lifecycle platform.lifecycle

unfoldable retired_among : Dict (Option DesiredComputePlatform) → List DesiredNode → List String
unfolding Dict.get effective_lifecycle
retired_among platforms [] = []
retired_among platforms (n ∷ rest) =
    let later = retired_among platforms rest in
    if (node_lifecycle (Dict.get platforms n.id) n == "retired") && not (n.slug == "")
    then n.slug ∷ later
    else later

unfoldable pub retired_effective_lifecycle_slugs : DesiredSnapshot → List String
unfolding retired_among platform_by_node_id platforms_by_id
retired_effective_lifecycle_slugs snapshot =
    retired_among
      (platform_by_node_id (platforms_by_id snapshot.compute_platforms [])
        snapshot.compute_instances [])
      snapshot.nodes

abbrev is_unenrollable : Realization → Option DesiredNode → List String
is_unenrollable r none = []
is_unenrollable r (some n) = elim n.realized_device_id [
  | some device ↦ []
  | none ↦ if not r.has_virtual_machine && not (n.slug == "") then n.slug ∷ [] else []
]

unfoldable pub unenrollable_guest_slugs : Dict DesiredNode → List Realization → List String
unfolding Dict.get
unenrollable_guest_slugs nodes [] = []
unenrollable_guest_slugs nodes (r ∷ rest) =
    is_unenrollable r (Dict.get nodes r.desired_node_id) ++ unenrollable_guest_slugs nodes rest

abbrev slug_in : Option String → List String → Bool
slug_in none slugs = false
slug_in (some s) slugs = contains s slugs

abbrev target_le : TargetKey × Target → TargetKey × Target → Bool
target_le (a, t) (b, u) = key_le a b

-- the targets of the first observation, in order
unfoldable pub ordered_targets : List String → List (TargetKey × Target) → List Target
unfolding sort str_le
ordered_targets excluded targets =
    select (λ t. not (slug_in t.slug excluded))
      (map (λ (e : TargetKey × Target). e.1) (sort target_le targets))

unfoldable pub slugs_of : List Target → List String
slugs_of [] = []
slugs_of (t ∷ rest) = truthy t.slug ++ slugs_of rest

-- the slugs of the scoped diffs of instances and nodes
unfoldable pub diff_slugs : List DiffRecord → List String
diff_slugs [] = []
diff_slugs (d ∷ rest) =
    let later = diff_slugs rest in
    if contains d.target.kind ("compute_instance" ∷ "node" ∷ [])
    then truthy d.target.slug ++ later
    else later

pub record Refresh : Type 0 where
  pub controls : Dict Target
  pub triggering : List String

module _ (nodes : Dict DesiredNode) (in_scope excluded observed retired : List String) where
  -- the control node, unless it is covered already
  unfoldable pub refresh_control : DesiredNode → Realization → Refresh → Refresh
  unfolding Dict.get Dict.put add
  refresh_control n r s = elim (Dict.get nodes r.control_node_id) [
    | none ↦ s
    | some c ↦
        if (c.slug == "") || (contains c.slug observed || contains c.slug retired)
        then s
        else record {
          controls =
              Dict.put s.controls c.slug
                (record { kind = "node"; slug = some c.slug; name = some c.name; id = some c.id });
          triggering = add n.slug s.triggering;
        }
  ]

  -- the loop of `_compute_evidence_refresh`
  unfoldable pub refresh_each : List Realization → Refresh → Refresh
  unfolding Dict.get refresh_control
  refresh_each [] s = s
  refresh_each (r ∷ rest) s = refresh_each rest (elim (Dict.get nodes r.desired_node_id) [
    | none ↦ s
    | some n ↦
        if contains n.slug in_scope && (not (contains n.slug excluded) && not r.has_virtual_machine)
        then refresh_control n r s
        else s
  ])

abbrev control_le : String × Target → String × Target → Bool
control_le (a, t) (b, u) = str_le a b

unfoldable pub compute_evidence_refresh :
    Dict DesiredNode
    → List DiffRecord
    → List Realization
    → List String
    → List String
    → List String
    → List Target × List String
unfolding diff_slugs refresh_each sort str_le sorted set_of
compute_evidence_refresh nodes diffs realizations excluded observed retired =
    let in_scope = diff_slugs diffs in
    if nonempty in_scope
    then (let found =
          refresh_each nodes in_scope excluded observed retired realizations
            (record { controls = []; triggering = [] }) in
        (
          map (λ (e : String × Target). e.1) (sort control_le found.controls),
          sorted (
              set_of (
                map (λ d. d.code)
                  (select
                    (λ d.
                      (d.target.kind == "compute_instance")
                      && slug_in d.target.slug found.triggering)
                    diffs))),
        ))
    else ([], [])
