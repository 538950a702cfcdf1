-- ===== src/Reconcile/Planner/Lossless.antt =====
-- The first loop of `build_plan` loses no error diff.
use nctl.Prelude.{false, List, ◌≡◌, ◌⊎◌}
use mathlib.Core.List.{Memᴰ}
use mathlib.Core.List.Memᴰ
use nctl.Prelude.Dict.{Dict}
use nctl.Prelude.Sets.{add}
use nctl.Prelude.Result.{Result, ok, err}
use nctl.Drift.Model.{Target, DiffRecord, is_error}
use nctl.Reconcile.Classify.{CodeClassification}
use nctl.Reconcile.Planner.{PlanFailure}
use nctl.Reconcile.Planner.Partition.{Parts, target_key, put_target}
use nctl.Reconcile.Planner.Kept.{Kept}

abbrev Grows : Parts → Parts → Type 0
Grows parts after = (e : DiffRecord) → Kept e parts → Kept e after

-- a step keeps the diff, and what was kept before
abbrev Keeps : DiffRecord → Parts → Result PlanFailure Parts → Type 0
Keeps d parts (ok after) = Kept d after × Grows parts after
Keeps d parts (err e) = Unit

abbrev targeted : DiffRecord → Parts → Target → Result PlanFailure Parts
targeted d parts t = ok (record parts {
  observe_targets = put_target (target_key t) t parts.observe_targets;
  observe_codes = add d.code parts.observe_codes;
})

module _ (table : Dict CodeClassification) where
  abbrev KeepsError : DiffRecord → Parts → Result PlanFailure Parts → Type 0
  KeepsError d parts (ok after) = ((is_error d ≡ false) ⊎ Kept d after) × Grows parts after
  KeepsError d parts (err e) = Unit
