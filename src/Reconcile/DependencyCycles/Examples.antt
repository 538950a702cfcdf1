-- ===== src/Reconcile/DependencyCycles/Examples.antt =====
-- Two profiles that need a third, and two that need each other.
use nctl.Prelude.{String, List, [], ◌∷◌, ◌≡◌, refl}
use nctl.Prelude.Dict.{Dict}
use nctl.Prelude.Result.{ok, err}
use nctl.Reconcile.DependencyCycles.{cycle, reject_dependency_cycles}
use nctl.Reconcile.DependencyCycles.Acyclic.{Verdict, reject_dependency_cycles-Verdict}

abbrev layered : Dict (List String)
layered = ("app", "db" ∷ "undeclared" ∷ []) ∷ ("db", []) ∷ ("web", "app" ∷ "db" ∷ []) ∷ []

abbrev mutual_need : Dict (List String)
mutual_need = ("app", "db" ∷ []) ∷ ("db", "app" ∷ []) ∷ []

accepts_layers : reject_dependency_cycles layered ≡ ok tt
unfolding reject_dependency_cycles
accepts_layers = refl

rejects_cycle : reject_dependency_cycles mutual_need ≡ err (cycle ("app" ∷ "db" ∷ "app" ∷ []))
unfolding reject_dependency_cycles
rejects_cycle = refl

reject_dependency_cycles-Verdict_example : Verdict layered (reject_dependency_cycles layered)
reject_dependency_cycles-Verdict_example = reject_dependency_cycles-Verdict layered
