-- ===== src/Reconcile/DependencyCycles.antt =====
-- src/nctl_core/reconcile/profiles.py: _reject_dependency_cycles, over the dependencies of each declared
-- profile.
mod Chains
pub mod Acyclic
mod Examples
use nctl.Prelude.{
  ℕ, zero, suc, String, List, [], ◌∷◌, ◌++◌, none, some, length, contains, if◌then◌else◌,
}
use nctl.Prelude.Order.{sorted}
use nctl.Prelude.Dict
use nctl.Prelude.Dict.{Dict}
use nctl.Prelude.Result.{Result, ok, err, ◌>>=◌}
use nctl.Reconcile.Registry.{discard}

-- `ProfileReconciliationError` with the cycle that it names. `out_of_fuel` never comes out.
pub data CycleError : Type 0 where
  cycle : List String → CycleError
  out_of_fuel : CycleError

pub record Marks : Type 0 where
  pub visited : List String
  pub in_progress : List String

abbrev pub enter : String → Marks → Marks
enter name s = record s { in_progress = name ∷ s.in_progress }

unfoldable pub finish : String → Marks → Marks
unfolding discard
finish name s = record { visited = name ∷ s.visited; in_progress = discard name s.in_progress }

-- a loop over names that calls `visit`
unfoldable pub visit_each :
    (String → Marks → Result CycleError Marks) → List String → Marks → Result CycleError Marks
visit_each visit [] s = ok s
visit_each visit (dep ∷ deps) s = visit dep s >>= λ t. visit_each visit deps t

unfoldable pub visit :
    Dict (List String) → ℕ → List String → String → Marks → Result CycleError Marks
unfolding visit_each finish Dict.get sorted
visit entries zero chain name s = err out_of_fuel
visit entries (suc fuel) chain name s =
    if contains name s.visited then ok s else elim (Dict.get entries name) [
      | none ↦ ok s
      | some deps ↦
          if contains name s.in_progress
          then err (cycle (chain ++ name ∷ []))
          else (visit_each (visit entries fuel (chain ++ name ∷ [])) (sorted deps) (enter name s)
              >>= λ t. ok (finish name t))
    ]

-- One visit nests in another only for a new declared name, so one more than their number is enough.
unfoldable pub reject_dependency_cycles : Dict (List String) → Result CycleError Unit
unfolding visit visit_each Dict.keys sorted
reject_dependency_cycles entries =
    let names = Dict.keys entries in
    visit_each (visit entries (suc (length names)) []) (sorted names)
      (record { visited = []; in_progress = [] })
    >>= λ s. ok tt
