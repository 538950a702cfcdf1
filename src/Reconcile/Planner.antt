-- ===== src/Reconcile/Planner.antt =====
-- src/nctl_core/reconcile/planner.py: the failures of planning, and the diffs of a scope.
pub mod Partition
pub mod Services
pub mod Plan
pub mod Build
pub mod Observed
pub mod Kept
pub mod Lossless
pub mod Blocked
pub mod Ordered
mod Examples
use nctl.Prelude.{
  String, Bool, true, false, not, ◌&&◌, ◌||◌, List, [], ◌∷◌, Option, none, some, contains, select,
  ◌==◌, if◌then◌else◌,
}
use nctl.Prelude.Dict
use nctl.Prelude.Value.{Value, Fields, null, str, obj, end, lookup}
use nctl.Prelude.Result.{Result, ok, err, ◌>>=◌}
use nctl.Drift.Model.{Target, DiffRecord}
use nctl.Sources.{
  DesiredNode, DesiredService, DesiredServicePlacement, DesiredSnapshot, services_by_slug,
}
use nctl.Reconcile.Model.{PlanScope, cluster, host}
use nctl.Reconcile.Registry.{PlanError}

pub data PlanFailure : Type 0 where
  -- HostScopeError
  no_host several_hosts : String → PlanFailure
  -- UnclassifiedDiffCodeError
  unclassified_code : String → PlanFailure
  -- the `ValueError` of an observation without a node
  planner_defect : String → PlanFailure
  -- the `AttributeError` of an `expected` that is no object
  no_attribute : PlanFailure
  -- topological_order
  bad_order : PlanError → PlanFailure

-- x or ""
abbrev pub or_empty : Option String → String
or_empty none = ""
or_empty (some s) = s

abbrev pub is_text : Option String → String → Bool
is_text none s = false
is_text (some t) s = t == s

unfoldable pub resolve_host_node : DesiredSnapshot → String → Result PlanFailure DesiredNode
resolve_host_node snapshot slug = elim (select (λ n. n.slug == slug) snapshot.nodes) [
  | [] ↦ err (no_host slug)
  | n ∷ [] ↦ ok n
  | n ∷ m ∷ rest ↦ err (several_hosts slug)
]

-- `{placement.service_id for placement in placements if ...}`
unfoldable pub service_ids_on : String → List DesiredServicePlacement → List String
service_ids_on node_id [] = []
service_ids_on node_id (p ∷ rest) =
    let later = service_ids_on node_id rest in
    if (p.node_id == node_id) && (p.desired_state == "active") then p.service_id ∷ later else later

-- `diff.desired.get("expected")` if it is a dict
unfoldable pub expected_of : DiffRecord → Fields
unfolding lookup
expected_of d = elim (lookup "expected" d.desired) [ some (obj fs) ↦ fs | _ ↦ end ]

abbrev pub object_or_fail : Option Value → Result PlanFailure Fields
object_or_fail none = ok end
object_or_fail (some (obj fs)) = ok fs
object_or_fail (some v) = err no_attribute

-- `diff.desired.get("expected", {})`, of which a field is read
unfoldable pub expected_fields : DiffRecord → Result PlanFailure Fields
unfolding lookup
expected_fields d = object_or_fail (lookup "expected" d.desired)

-- `v is not None`
abbrev pub is_given : Option Value → Bool
is_given none = false
is_given (some v) = elim v [ null ↦ false | _ ↦ true ]

abbrev pub value_is : String → Option Value → Bool
value_is s none = false
value_is s (some v) = elim v [ str t ↦ t == s | _ ↦ false ]

-- whether a service diff names a node of its own
unfoldable pub names_node : DiffRecord → Bool
unfolding expected_of lookup
names_node d =
    is_given (lookup "node_slug" (expected_of d)) || is_given (lookup "node_id" (expected_of d))

unfoldable pub names_host : DesiredNode → DiffRecord → Bool
unfolding expected_of lookup
names_host n d =
    value_is n.slug (lookup "node_slug" (expected_of d))
    || value_is n.id (lookup "node_id" (expected_of d))

-- the body of the loop of `select_scoped_diffs`: whether the diff is selected
unfoldable pub in_host_scope : DesiredSnapshot → DesiredNode → DiffRecord → Bool
unfolding names_node names_host service_ids_on services_by_slug Dict.get
in_host_scope snapshot n d =
    if d.target.kind == "global"
    then true
    else if (d.target.kind == "node") && is_text d.target.slug n.slug
    then true
    else if (d.target.kind == "compute_instance") && is_text d.target.slug n.slug
    then true
    else if d.target.kind == "service"
    then elim (Dict.get (services_by_slug snapshot.services []) (or_empty d.target.slug)) [
      | none ↦ false
      | some service ↦
          if not (contains service.id (service_ids_on n.id snapshot.placements))
          then false
          else if names_node d
          then names_host n d
          else true
    ]
    else false

unfoldable pub select_scoped_diffs :
    List DiffRecord → PlanScope → DesiredSnapshot → Result PlanFailure (List DiffRecord)
unfolding resolve_host_node in_host_scope
select_scoped_diffs diffs scope snapshot = elim scope.kind [
  | cluster ↦ ok diffs
  | host ↦ resolve_host_node snapshot (or_empty scope.host_slug) >>= λ n.
      ok (select (in_host_scope snapshot n) diffs)
]
