-- ===== src/Reconcile/Planner/Services.antt =====
-- The service actions of `build_plan`: `_service_profile_inputs`, its loop, `_wire_profile_dependencies`.
use nctl.Prelude.{
  String, Bool, true, false, not, ◌&&◌, List, [], ◌∷◌, ◌++◌, map, Option, none, some, contains, any,
  select, nonempty, ◌==◌, if◌then◌else◌,
}
use nctl.Prelude.Order.{sorted, sort, str_le}
use nctl.Prelude.Dict
use nctl.Prelude.Dict.{Dict, is_some}
use nctl.Prelude.Sets.{add}
use nctl.Prelude.Value.{Value, null, str, end, lookup, text_list}
use nctl.Prelude.Result.{Result, ok, ◌>>=◌}
use nctl.Drift.Model.{Target, DiffRecord}
use nctl.Sources.{
  DesiredNode, DesiredService, DesiredServicePlacement, DesiredSnapshot, nodes_by_id,
}
use nctl.Reconcile.Model.{manual_review, ReviewRecord, ReconcileAction, PlanScope, cluster, host}
use nctl.Reconcile.Reconcilers.{
  Fallback, planned, declined, ProfileReconciliation, plan_service_profile,
}
use nctl.Reconcile.Planner.{PlanFailure, expected_fields, is_text}
use nctl.Reconcile.Planner.Partition.{Group, apply_fallback}

abbrev pub needs_person : String → Fallback
needs_person reason = record { classification = manual_review; reason = reason; evidence = end }

unfoldable pub service_named : Option String → List DesiredService → Option DesiredService
service_named slug [] = none
service_named slug (s ∷ rest) =
    let later = service_named slug rest in if is_text slug s.slug then some s else later

abbrev pub hosts_in : Option (List String) → List String
hosts_in none = []
hosts_in (some hosts) = hosts

-- `hosts_by_profile`: the hosts of the managed placements of a service, by profile
unfoldable pub hosts_by_profile :
    Dict DesiredNode → List DesiredServicePlacement → Dict (List String) → Dict (List String)
unfolding Dict.get Dict.put add
hosts_by_profile nodes [] d = d
hosts_by_profile nodes (p ∷ rest) d = hosts_by_profile nodes rest (elim (Dict.get nodes p.node_id) [
  | none ↦ d
  | some n ↦
      if p.management_mode == "nctl_managed"
      then Dict.put d p.deployment_profile (add n.slug (hosts_in (Dict.get d p.deployment_profile)))
      else d
])

-- what is sorted are the items; profiles are keys, so no two of them are the same
abbrev pub by_profile : String × List String → String × List String → Bool
by_profile (p, hosts) (q, others) = str_le p q

abbrev pub sort_hosts : String × List String → String × List String
sort_hosts (p, hosts) = (p, sorted hosts)

abbrev pub active_placements :
    DesiredService → List DesiredServicePlacement → List DesiredServicePlacement
active_placements service =
    select (λ p. (p.service_id == service.id) && (p.desired_state == "active"))

pub data Inputs : Type 0 where
  inputs : List (String × List String) → Inputs
  no_inputs : Fallback → Inputs

unfoldable pub service_profile_inputs : Target → DesiredSnapshot → Inputs
unfolding service_named hosts_by_profile nodes_by_id sort str_le sorted
service_profile_inputs target snapshot = elim (service_named target.slug snapshot.services) [
  | none ↦ no_inputs (needs_person "no desired service found for the slug")
  | some service ↦
      let active = active_placements service snapshot.placements in
      if nonempty active
      then inputs (
          map sort_hosts
            (sort by_profile (hosts_by_profile (nodes_by_id snapshot.nodes []) active [])))
      else no_inputs (needs_person "the service has no active placement")
]

-- `value in (None, profile)`
abbrev pub is_none_or : String → Option Value → Bool
is_none_or profile none = true
is_none_or profile (some null) = true
is_none_or profile (some (str p)) = p == profile
is_none_or profile (some v) = false

-- `diff.desired.get("expected", {}).get("deployment_profile") in (None, profile)`
unfoldable pub concerns : String → DiffRecord → Result PlanFailure Bool
unfolding expected_fields lookup
concerns profile d =
    expected_fields d >>= λ expected. ok (is_none_or profile (lookup "deployment_profile" expected))

-- `profile_diffs`
unfoldable pub concerning : String → List DiffRecord → Result PlanFailure (List DiffRecord)
unfolding concerns
concerning profile [] = ok []
concerning profile (d ∷ rest) =
    let more = concerning profile rest in
    concerns profile d >>= λ yes. more >>= λ later. ok (if yes then d ∷ later else later)

-- An action of the plan under construction. `profile` is the key under which the source keeps the same
-- object in `profile_actions_by_profile`: what `_wire_profile_dependencies` does to the object
-- there, it does to the action of the plan.
pub record Draft : Type 0 where
  pub action : ReconcileAction
  pub profile : Option String

-- the lists that the loops of `build_plan` append to
pub record Drafting : Type 0 where
  pub drafts : List Draft
  pub manual_review : List ReviewRecord
  pub unsupported : List ReviewRecord

unfoldable pub fall_back : Fallback → List DiffRecord → Drafting → Drafting
unfolding apply_fallback
fall_back f diffs s =
    let (manual, refused) = apply_fallback f diffs (s.manual_review, s.unsupported) in
    record s { manual_review = manual; unsupported = refused }

-- the hosts that are left for a service action
unfoldable pub actionable_hosts : PlanScope → List String → List String → List String
actionable_hosts scope blocked hosts =
    let mine : List String = elim scope.kind [
      | cluster ↦ hosts
      | host ↦ select (λ h. is_text scope.host_slug h) hosts
    ] in
    select (λ h. not (contains h blocked)) mine

module _ (scope : PlanScope) (blocked : List String)
    (reconciliation : Dict ProfileReconciliation) where
  -- what the diffs of a profile call for
  unfoldable pub draft_profile :
      Group → String → List String → Drafting → List DiffRecord → Drafting
  unfolding actionable_hosts plan_service_profile fall_back
  draft_profile g profile hosts s diffs =
      let left = actionable_hosts scope blocked hosts in
      if nonempty diffs && nonempty left
      then elim (plan_service_profile g.target (map (λ d. d.code) diffs) profile left
          reconciliation) [
            | declined f ↦ fall_back f diffs s
            | planned a ↦ record s {
              drafts = s.drafts ++ record { action = a; profile = some profile } ∷ [];
            }
          ]
      else s

  -- the inner loop
  unfoldable pub plan_profile :
      Group → String → List String → Drafting → Result PlanFailure Drafting
  unfolding concerning draft_profile
  plan_profile g profile hosts s =
      concerning profile g.diffs >>= λ diffs. ok (draft_profile g profile hosts s diffs)

  unfoldable pub plan_profiles :
      Group → List (String × List String) → Drafting → Result PlanFailure Drafting
  unfolding plan_profile
  plan_profiles g [] s = ok s
  plan_profiles g ((profile, hosts) ∷ rest) s =
      plan_profile g profile hosts s >>= plan_profiles g rest

  abbrev pub plan_group : Group → Drafting → Inputs → Result PlanFailure Drafting
  plan_group g s (no_inputs f) = ok (fall_back f g.diffs s)
  plan_group g s (inputs profiles) = plan_profiles g profiles s

  unfoldable pub plan_services :
      DesiredSnapshot → List Group → Drafting → Result PlanFailure Drafting
  unfolding service_profile_inputs plan_profiles fall_back
  plan_services snapshot [] s = ok s
  plan_services snapshot (g ∷ rest) s =
      plan_group g s (service_profile_inputs g.target snapshot) >>= plan_services snapshot rest

abbrev pub is_profile : String → Draft → Bool
is_profile p d = is_text d.profile p

-- `action.parameters.get("host_slugs", [])`
unfoldable pub host_slugs : ReconcileAction → List String
unfolding text_list
host_slugs a = text_list "host_slugs" a.parameters

abbrev pub overlap : List String → List String → Bool
overlap xs ys = any (λ x. contains x ys) xs

-- `dependencies.extend(dep for dep in deps if dep not in dependencies)`: the generator reads the list
-- while it grows
unfoldable pub extend_missing : List String → List String → List String
unfolding add
extend_missing dependencies [] = dependencies
extend_missing dependencies (dep ∷ rest) = extend_missing (add dep dependencies) rest

-- the ids of the actions of a profile that share a host with an action
unfoldable pub shared_with : List Draft → ReconcileAction → String → List String
unfolding host_slugs
shared_with drafts a profile =
    map (λ d. d.action.id)
      (select (λ d. overlap (host_slugs a) (host_slugs d.action))
        (select (is_profile profile) drafts))

unfoldable pub wire_all : List Draft → ReconcileAction → List String → List String → List String
unfolding shared_with extend_missing
wire_all drafts a [] dependencies = dependencies
wire_all drafts a (profile ∷ rest) dependencies =
    wire_all drafts a rest (extend_missing dependencies (shared_with drafts a profile))

unfoldable pub wire : Dict ProfileReconciliation → List Draft → Draft → ReconcileAction
unfolding wire_all Dict.get
wire reconciliation drafts d = elim d.profile [
  | none ↦ d.action
  | some p ↦ elim (Dict.get reconciliation p) [
    | none ↦ d.action
    | some entry ↦ record (d.action) {
      dependencies = wire_all drafts d.action entry.dependencies d.action.dependencies;
    }
  ]
]

-- `_wire_profile_dependencies`: only the dependencies of an action change, and what is read of the others
-- does not, so the order in which the actions are visited does not matter.
unfoldable pub wire_profile_dependencies :
    Dict ProfileReconciliation → List Draft → List ReconcileAction
unfolding wire
wire_profile_dependencies reconciliation drafts = map (wire reconciliation drafts) drafts
