-- ===== src/Reconcile/Planner/Ordered.antt =====
-- The actions of a plan: what was drafted, wired, with every dependency first.
use mathlib.Core.Path.{subst}
use nctl.Prelude.{
  String, true, List, [], ◌∷◌, Option, some, ◌≡◌, inl, inr, refl, sym, ap, ◌∙◌, contains, arith,
  eq_refl, Option-cases,
}
use mathlib.Core.List.{Memᴰ}
use mathlib.Core.List.Memᴰ
use nctl.Prelude.Dict
use nctl.Prelude.Dict.{Dict, is_some}
use nctl.Prelude.Sets.{Distinct}
use nctl.Prelude.Result.{Result, ok, err, Result-cases}
use nctl.Reconcile.Model.{ReconcileAction, ReconcilePlan, PlanScope}
use nctl.Reconcile.Registry.{topological_order, by_id}
use nctl.Reconcile.Registry.Order.{
  ids_of, IsTopological, by_id-mem, contains-by_id, topological_order-IsTopological,
}
use nctl.Reconcile.Reconcilers.{ProfileReconciliation}
use nctl.Reconcile.Planner.{PlanFailure}
use nctl.Reconcile.Planner.Services.{Drafting, wire_profile_dependencies}
use nctl.Reconcile.Planner.Build.{actions_in, finish_plan}

actions_in-ids :
    (index : Dict ReconcileAction) (order : List String)
    → ((id : String) (a : ReconcileAction) → Dict.get index id ≡ some a → a.id ≡ id)
    → ((id : String) → contains id order ≡ true → is_some (Dict.get index id) ≡ true)
    → ids_of (actions_in index order) ≡ order
unfolding actions_in
actions_in-ids index [] named there = refl
actions_in-ids index (id ∷ rest) named there = elim (Option-cases (Dict.get index id)) [
  | inl q ↦ absurd (ground (arith, there id (ground (arith, eq_refl id))))
  | inr (a, q) ↦
      let later = actions_in-ids index rest named (λ x m. there x (ground (arith, m))) in
      rw (q, actions_in) (cc (named id a q, later))
]

actions_in-mem :
    (index : Dict ReconcileAction) (order : List String) (a : ReconcileAction)
    → Memᴰ a (actions_in index order)
    → (id : String) × (Dict.get index id ≡ some a)
unfolding actions_in
actions_in-mem index [] a m = absurd (Memᴰ.not-nil m)
actions_in-mem index (id ∷ rest) a m = elim (Option-cases (Dict.get index id)) [
  | inl q ↦ actions_in-mem index rest a (rw (q, actions_in) at m)
  | inr (b, q) ↦ elim (Memᴰ.cases_cons (rw (q, actions_in) at m)) [
    | inl here ↦ (id, q ∙ ap some (sym here))
    | inr later ↦ actions_in-mem index rest a later
  ]
]

index-named :
    (actions : List ReconcileAction) (id : String) (a : ReconcileAction)
    → Dict.get (by_id actions []) id ≡ some a
    → Memᴰ a actions × (a.id ≡ id)
unfolding Dict.get
index-named actions id a e = elim (by_id-mem actions [] id a e) [
  | inl found ↦ found
  | inr nothing ↦ absurd (ground arith)
]

abbrev wired : Dict ProfileReconciliation → Drafting → List ReconcileAction
wired reconciliation s = wire_profile_dependencies reconciliation s.drafts

abbrev Ordered : List ReconcileAction → Result PlanFailure ReconcilePlan → Type 0
Ordered actions (ok plan) =
    IsTopological actions (ids_of plan.actions)
    × ((a : ReconcileAction) → Memᴰ a plan.actions → Memᴰ a actions)
Ordered actions (err e) = Unit

order-known :
    (actions : List ReconcileAction) (order : List String)
    → IsTopological actions order
    → (id : String) → contains id order ≡ true
    → is_some (Dict.get (by_id actions []) id) ≡ true
unfolding Dict.get
order-known actions order t id m = ground (arith, contains-by_id actions [] id, t.complete id)

actions_in-Ordered :
    (actions : List ReconcileAction) (order : List String)
    → IsTopological actions order
    → IsTopological actions (ids_of (actions_in (by_id actions []) order))
actions_in-Ordered actions order t =
    subst (IsTopological actions)
      (sym (
        actions_in-ids (by_id actions []) order (λ id a e. (index-named actions id a e).1)
          (order-known actions order t)))
      t

finish_plan-Ordered :
    (scope : PlanScope) (fingerprint : String) (generated_at : Option String)
    (reconciliation : Dict ProfileReconciliation) (s : Drafting)
    → Distinct (ids_of (wired reconciliation s))
    → Ordered (wired reconciliation s) (finish_plan scope fingerprint generated_at reconciliation s)
unfolding finish_plan
finish_plan-Ordered scope fingerprint generated_at reconciliation s unique =
    elim (Result-cases (topological_order (wired reconciliation s))) [
      | inl (e, q) ↦ rw (q, Ordered) tt
      | inr (order, q) ↦
          rw (q, Ordered)
            (
              actions_in-Ordered (wired reconciliation s) order
                  (topological_order-IsTopological (wired reconciliation s) order unique q),
              λ a m.
                  let (id, e) = actions_in-mem (by_id (wired reconciliation s) []) order a m in
                  (index-named (wired reconciliation s) id a e).0,
            )
    ]

-- If the ids of the drafted actions are distinct and the plan is finished, then its actions are
-- drafted actions with their wired dependencies, with exactly the ids of all of these, none twice,
-- and every dependency of an action stands before it.
pub finish_plan-IsTopological :
    (scope : PlanScope) (fingerprint : String) (generated_at : Option String)
    (reconciliation : Dict ProfileReconciliation) (s : Drafting) (plan : ReconcilePlan)
    → Distinct (ids_of (wire_profile_dependencies reconciliation s.drafts))
    → finish_plan scope fingerprint generated_at reconciliation s ≡ ok plan
    → IsTopological (wire_profile_dependencies reconciliation s.drafts) (ids_of plan.actions)
      × ((a : ReconcileAction)
          → Memᴰ a plan.actions
          → Memᴰ a (wire_profile_dependencies reconciliation s.drafts))
finish_plan-IsTopological scope fingerprint generated_at reconciliation s plan unique e =
    subst (Ordered (wired reconciliation s)) e
      (finish_plan-Ordered scope fingerprint generated_at reconciliation s unique)
