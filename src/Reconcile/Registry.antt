-- ===== src/Reconcile/Registry.antt =====
-- src/nctl_core/reconcile/registry.py: the reconcilers' registry and the order of a plan's actions.
pub mod Visit
pub mod Order
mod Ends
pub mod Total
mod Examples
use nctl.Prelude.{
  ℕ, zero, suc, String, Bool, true, false, not, ◌||◌, List, [], ◌∷◌, ◌++◌, map, Option, none, some,
  length, contains, ◌==◌, if◌then◌else◌,
}
use nctl.Prelude.Order.{sorted}
use nctl.Prelude.Dict
use nctl.Prelude.Dict.{Dict}
use nctl.Prelude.Result.{Result, ok, err, ◌>>=◌, ◌>>◌}
use nctl.Reconcile.Model.{ReconcileAction}

pub record Reconciler : Type 0 where
  pub id : String
  pub action_kind : String
  pub mutates : Bool
  pub requires_observation : Bool
  pub connects_over_ssh : Bool

pub data RegistryError : Type 0 where
  duplicate unknown : String → RegistryError

-- `_REGISTRY`, threaded through
unfoldable pub register_reconciler :
    Dict Reconciler → Reconciler → Result RegistryError (Dict Reconciler)
register_reconciler registry r = elim (Dict.get registry r.id) [
  | some _ ↦ err (duplicate r.id)
  | none ↦ ok (Dict.put registry r.id r)
]

unfoldable pub get_reconciler : Dict Reconciler → String → Result RegistryError Reconciler
get_reconciler registry id = elim (Dict.get registry id) [ some r ↦ ok r | none ↦ err (unknown id) ]

unfoldable pub registered_reconciler_ids : Dict Reconciler → List String
registered_reconciler_ids registry = sorted (Dict.keys registry)

-- `PlanCycleError` with what it names. `key_error` and `out_of_fuel` never come out
-- (Registry/Total.antt): the model has them since its search is on fuel over a dictionary.
pub data PlanError : Type 0 where
  not_in_plan : String → String → PlanError
  cycle : List String → PlanError
  key_error : String → PlanError
  out_of_fuel : PlanError

pub record Search : Type 0 where
  pub visited : List String
  pub in_progress : List String
  pub ordered : List String

-- `in_progress.discard(id)`
unfoldable pub discard : String → List String → List String
discard a [] = []
discard a (x ∷ xs) = let rest = discard a xs in if a == x then rest else x ∷ rest

-- `for dep in deps: visit(dep, path)`
unfoldable pub visit_each :
    (String → Search → Result PlanError Search) → List String → Search → Result PlanError Search
visit_each visit [] s = ok s
visit_each visit (dep ∷ deps) s = visit dep s >>= λ s'. visit_each visit deps s'

unfoldable pub finish : String → Search → Search
unfolding discard
finish id s = record {
  visited = id ∷ s.visited;
  in_progress = discard id s.in_progress;
  ordered = s.ordered ++ id ∷ [];
}

-- `visit` of `topological_order`; the graph is what `by_id` says of the dependencies of an id.
unfoldable pub visit :
    ℕ → (String → Option (List String)) → List String → String → Search → Result PlanError Search
unfolding visit_each finish
visit zero graph path id s = err out_of_fuel
visit (suc fuel) graph path id s =
    if contains id s.visited
    then ok s
    else if contains id s.in_progress
    then err (cycle (path ++ id ∷ []))
    else elim (graph id) [
      | none ↦ err (key_error id)
      | some deps ↦
          visit_each (visit fuel graph (path ++ id ∷ [])) (sorted deps)
            (record s { in_progress = id ∷ s.in_progress })
          >>= λ s'. ok (finish id s')
    ]

unfoldable pub by_id : List ReconcileAction → Dict ReconcileAction → Dict ReconcileAction
by_id [] d = d
by_id (a ∷ rest) d = by_id rest (Dict.put d a.id a)

-- the first dependency that the plan lacks
unfoldable pub missing_in : List String → String → List String → Option PlanError
missing_in ids owner [] = none
missing_in ids owner (dep ∷ deps) =
    let rest = missing_in ids owner deps in
    if contains dep ids then rest else some (not_in_plan owner dep)

unfoldable pub check_dependencies : List String → List ReconcileAction → Option PlanError
unfolding missing_in
check_dependencies ids [] = none
check_dependencies ids (a ∷ rest) =
    let later = check_dependencies ids rest in
    elim (missing_in ids a.id a.dependencies) [ some e ↦ some e | none ↦ later ]

abbrev pub empty_search : Search
empty_search = record { visited = []; in_progress = []; ordered = [] }

abbrev pub dependencies_of : Option ReconcileAction → Option (List String)
dependencies_of none = none
dependencies_of (some a) = some a.dependencies

unfoldable pub graph_of : Dict ReconcileAction → String → Option (List String)
graph_of d id = dependencies_of (Dict.get d id)

-- the search is made only if every dependency is in the plan
abbrev pub unless {ℓ} : {E A : Type ℓ} → Option E → Result E A → Result E A
unless none search = search
unless (some e) search = err e

-- One visit nests in another only for a new id, so one more than the number of ids is enough fuel.
unfoldable pub topological_order : List ReconcileAction → Result PlanError (List String)
unfolding by_id check_dependencies graph_of visit
topological_order actions =
    let index = by_id actions [] in
    let ids = Dict.keys index in
    unless (check_dependencies ids actions) (
      visit_each (visit (suc (length ids)) (graph_of index) []) (sorted ids) empty_search >>= λ s.
      ok s.ordered)
