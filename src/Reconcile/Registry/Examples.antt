-- ===== src/Reconcile/Registry/Examples.antt =====
-- The order of three actions, and of a cycle.
use nctl.Prelude.{
  ℕ, String, true, List, [], ◌∷◌, ◌≡◌, ◌==◌, refl, if◌then◌else◌, arith, eq_iff, inl, inr,
}
use mathlib.Core.List.Memᴰ
use nctl.Prelude.Dict
use nctl.Prelude.Order
use nctl.Prelude.Value.{end}
use nctl.Prelude.Result.{ok}
use nctl.Reconcile.Model.{ReconcileAction}
use nctl.Reconcile.Registry.{cycle, topological_order}
use nctl.Reconcile.Registry.Order.{IsTopological, topological_order-IsTopological}
use nctl.Reconcile.Registry.Total.{
  IsRanked, HasDependencies, Explains, topological_order_total, topological_order-Explains,
}

abbrev pub action : String → List String → ReconcileAction
action id dependencies = record {
  id = id;
  reconciler_id = "service_profile";
  action_kind = "playbook";
  targets = [];
  claimed_diff_codes = [];
  reason = "";
  evidence = end;
  dependencies = dependencies;
  mutates = true;
  requires_observation = true;
  parameters = end;
}

abbrev chain : List ReconcileAction
chain = action "a" ("b" ∷ []) ∷ action "b" [] ∷ []

abbrev cycle_plan : List ReconcileAction
cycle_plan = action "a" ("b" ∷ []) ∷ action "b" ("a" ∷ []) ∷ []

topological_order-IsTopological_example : IsTopological chain ("b" ∷ "a" ∷ [])
unfolding topological_order Dict.keys Dict.put Order.sorted Dict.get
topological_order-IsTopological_example =
    topological_order-IsTopological chain ("b" ∷ "a" ∷ []) (refl, (refl, tt)) refl

topological_order-Explains_example : Explains cycle_plan (cycle ("a" ∷ "b" ∷ "a" ∷ []))
unfolding topological_order Dict.keys Dict.put Order.sorted Dict.get
topological_order-Explains_example =
    topological_order-Explains cycle_plan (cycle ("a" ∷ "b" ∷ "a" ∷ [])) refl

abbrev rank : String → ℕ
rank id = if id == "a" then 1 else 0

chain-IsRanked : IsRanked rank chain
chain-IsRanked a m dep d = elim (Memᴰ.cases_cons m) [
  | inl q ↦
      let found = rw q at d in
      let e : dep ≡ "b" = ground (arith, eq_iff dep "b") in rw (q, e) (omega arith)
  | inr later ↦ elim (Memᴰ.cases_cons later) [
    | inl q ↦ absurd (let e = rw q at d in ground arith)
    | inr n ↦ absurd (Memᴰ.not-nil n)
  ]
]

chain-HasDependencies : HasDependencies chain
chain-HasDependencies a m dep d = elim (Memᴰ.cases_cons m) [
  | inl q ↦ let e = rw q at d in ground arith
  | inr later ↦ elim (Memᴰ.cases_cons later) [
    | inl q ↦ absurd (let e = rw q at d in ground arith)
    | inr n ↦ absurd (Memᴰ.not-nil n)
  ]
]

topological_order_total_example : (order : List String) × (topological_order chain ≡ ok order)
topological_order_total_example =
    topological_order_total chain rank chain-IsRanked chain-HasDependencies
