-- ===== src/Production/Reaches.antt =====
-- The search _reaches of src/nctl_core/production/service_dependencies.py, over the providers of a service.
pub mod Sound
mod Complete
pub mod Total
use nctl.Prelude.{
  ℕ, zero, suc, String, Bool, true, false, List, [], ◌∷◌, Option, none, some, contains, length,
  ◌==◌, if◌then◌else◌,
}

-- whether the target was reached, with `seen` as it is then; `none` if the fuel ran out
abbrev pub Found : Type 0
Found = Option (Bool × List String)

-- the two loops over the bindings of a service's placements, with their early return
unfoldable pub try_each : (String → List String → Found) → List String → List String → Found
try_each step [] seen = some (false, seen)
try_each step (y ∷ ys) seen = elim (step y seen) [
  | none ↦ none
  | some (true, later) ↦ some (true, later)
  | some (false, later) ↦ try_each step ys later
]

module _ (providers : String → List String) (target : String) where
  unfoldable pub reaches : ℕ → String → List String → Found
  unfolding try_each
  reaches zero service seen = none
  reaches (suc fuel) service seen =
      if service == target
      then some (true, seen)
      else if contains service seen
      then some (false, seen)
      else try_each (reaches fuel) (providers service) (service ∷ seen)
