-- ===== src/Reconcile/Executor/Forced.antt =====
-- `_with_forced_observation` of executor.py: one explicit observation in the first round.
use Prim.Native.String as Text
use nctl.Prelude.{
  String, Bool, true, false, not, List, [], ◌∷◌, Option, none, some, any, nonempty, select, ◌==◌,
  if◌then◌else◌,
}
use nctl.Prelude.Value.{Fields, bool, end, field, arr, texts, merge}
use nctl.Prelude.Result.{Result, ok, err}
use nctl.Drift.Model.{Target}
use nctl.Reconcile.Model.{ReconcileAction, ReconcilePlan}

-- the action whose targets widen the scope (`ForcedObservationScopeError`)
pub data ScopeViolation : Type 0 where
  scope_violation : String → ScopeViolation

abbrev pub has_slug : String → Target → Bool
has_slug slug t = elim t.slug [ none ↦ false | some s ↦ s == slug ]

abbrev pub forced_evidence : Fields
forced_evidence = field "forced_refresh" (bool true) end

unfoldable pub force : ReconcileAction → ReconcileAction
unfolding merge
force a = record a {
  reason = Text.◌++◌ "Explicit observation refresh requested; " a.reason;
  evidence = merge a.evidence forced_evidence;
  parameters = merge a.parameters forced_evidence;
}

abbrev pub forced_action : Target → String → ReconcileAction
forced_action node slug = record {
  id = "observe_node";
  reconciler_id = "observe_node";
  action_kind = "observation";
  targets = node ∷ [];
  claimed_diff_codes = [];
  reason = "Explicit observation refresh requested for this node.";
  evidence = forced_evidence;
  dependencies = [];
  mutates = true;
  requires_observation = false;
  parameters =
      field "forced_refresh" (bool true) (field "host_slugs" (arr (texts (slug ∷ []))) end);
}

abbrev pub covers : String → ReconcileAction → Bool
covers slug a = if a.reconciler_id == "observe_node" then any (has_slug slug) a.targets else false

abbrev pub other_targets : String → ReconcileAction → List Target
other_targets slug a = select (λ t. not (has_slug slug t)) a.targets

-- The `for` loop: the first observation of the node is forced in place; `ok none` is a loop that ran
-- to its end.
unfoldable pub force_first :
    String → List ReconcileAction → Result ScopeViolation (Option (List ReconcileAction))
unfolding force
force_first slug [] = ok none
force_first slug (a ∷ rest) =
    let later = force_first slug rest in
    if covers slug a
    then if nonempty (other_targets slug a)
      then err (scope_violation a.id)
      else ok (some (force a ∷ rest))
    else elim later [
      | err e ↦ err e
      | ok none ↦ ok none
      | ok (some forced) ↦ ok (some (a ∷ forced))
    ]

-- The node is the scope's desired node, which the plan was made for; `slug` is its slug.
unfoldable pub with_forced_observation :
    Target → String → ReconcilePlan → Result ScopeViolation ReconcilePlan
unfolding force_first
with_forced_observation node slug plan = elim (force_first slug plan.actions) [
  | err e ↦ err e
  | ok (some actions) ↦ ok (record plan { actions = actions })
  | ok none ↦ ok (record plan { actions = forced_action node slug ∷ plan.actions })
]
