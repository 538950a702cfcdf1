-- ===== src/Reconcile/Reconcilers/Ipam.antt =====
-- `plan_reconcile_ipam` of reconcilers.py.
use nctl.Prelude.{String, Bool, List, [], ◌∷◌, map, Option, none, some, ◌==◌, if◌then◌else◌}
use nctl.Prelude.Order.{sort, str_le, sorted}
use nctl.Prelude.Sets.{set_of}
use nctl.Prelude.Value.{
  Value, Items, Fields, null, str, arr, obj, nil, cons, end, field, lookup, texts, text_field,
}
use nctl.Drift.Model.{Target, DiffRecord}
use nctl.Reconcile.Model.{ReconcileAction}
use nctl.Reconcile.Reconcilers.{reconcile_ipam, ◌<>◌, shown, optional_text}

abbrev value_or_null : Option Value → Value
value_or_null none = null
value_or_null (some v) = v

abbrev expected : DiffRecord → Fields
expected d = elim (lookup "expected" d.desired) [ some (obj fs) ↦ fs | _ ↦ end ]

unfoldable entry : String → DiffRecord → Fields
unfolding lookup
entry endpoint_id d = field "endpoint_id" (str endpoint_id) (
    field "endpoint_name" (value_or_null (lookup "endpoint_name" (expected d))) (
      field "ip_policy" (value_or_null (lookup "ip_policy" (expected d))) (
        field "ip_address" (value_or_null (lookup "ip_address" (expected d)))
          (field "gap_code" (str d.code) end))))

unfoldable pub eligible_endpoints : List DiffRecord → List (String × Fields)
unfolding entry text_field lookup
eligible_endpoints [] = []
eligible_endpoints (d ∷ rest) =
    let later = eligible_endpoints rest in
    elim (text_field "endpoint_id" (expected d)) [
      | none ↦ later
      | some id ↦ if id == "" then later else (id, entry id d) ∷ later
    ]

abbrev by_endpoint : String × Fields → String × Fields → Bool
by_endpoint (a, x) (b, y) = str_le a b

unfoldable objects : List Fields → Items
objects [] = nil
objects (x ∷ xs) = cons (obj x) (objects xs)

unfoldable pub plan_reconcile_ipam : Target → List DiffRecord → ReconcileAction
unfolding eligible_endpoints sort str_le sorted set_of objects texts
plan_reconcile_ipam target diffs =
    let eligible = sort by_endpoint (eligible_endpoints diffs) in
    let ids = arr (texts (map (λ (e : String × Fields). e.0) eligible)) in
    record {
      id = "reconcile_ipam:" <> shown target.slug;
      reconciler_id = reconcile_ipam.id;
      action_kind = reconcile_ipam.action_kind;
      targets = target ∷ [];
      claimed_diff_codes = sorted (set_of (map (λ d. d.code) diffs));
      reason = "Trigger the retained Reconcile Desired IPAM Intent Job scoped to this node.";
      evidence = field "desired_node_slug" (optional_text target.slug) (
          field "eligible_endpoint_ids" ids (
            field "eligible_endpoints" (arr (objects (map (λ (e : String × Fields). e.1) eligible)))
              end));
      dependencies = [];
      mutates = reconcile_ipam.mutates;
      requires_observation = reconcile_ipam.requires_observation;
      parameters =
          field "desired_node_slug" (optional_text target.slug)
            (field "eligible_endpoint_ids" ids end);
    }
