-- ===== src/Reconcile/Ledger/Ipam/Covered.antt =====
-- A reconcile_ipam action that reports success has covered every endpoint that was pinned for it.
use nctl.Prelude.{
  String, Bool, true, false, not, ◌||◌, List, [], ◌∷◌, some, nonempty, select, length, ◌≡◌, refl,
  sym, ap, ◌∙◌, ◌⊎◌, inl, inr, arith, Bool-cases, Option-cases, ◌==◌, eq_iff, All,
}
use mathlib.Core.Path.{subst}
use mathlib.Core.List.{Memᴰ}
use nctl.Prelude.Dict
use nctl.Prelude.Dict.{Dict, is_some}
use nctl.Prelude.Value.{Value, Fields, get}
use nctl.Prelude.Result.{Result, ok, ◌>>=◌, >>=-eq-ok, ok_inj}
use nctl.Reconcile.Model.{ReconcileAction}
use nctl.Reconcile.Executor.{ActionResult}
use nctl.Reconcile.Ledger.{Raised, execute_action, actuation_result}
use nctl.Reconcile.Ledger.Ipam.{
  JobRunner, IpamReconcileResult, require, ipam, has_text, object_of, items_of, objects, only_text,
  endpoint_of, out_of_scope, checked_plans, miscounted, is_applied, endpoint_id, put_plan,
  plans_by_id, plans_at, expected_plans, ipam_result, ipam_request, eligible_ids, job_summary,
  execute_reconcile_ipam, handle_ipam, ipam_action,
}

require-ok : (b : Bool) (e : Raised) {u : Unit} → require b e ≡ ok u → b ≡ true
require-ok true e h = refl
require-ok false e h = absurd (cc h)

-- the plan names the node, or no node
abbrev pub InScope : String → Fields → Type 0
InScope slug p =
    (e : Fields) × (endpoint_of p ≡ ok e)
    × ((has_text slug (get "desired_node_slug" e) || has_text "" (get "desired_node_slug" e))
        ≡ true)

out_of_scope-InScope :
    (slug : String) (plans out : List Fields)
    → out_of_scope slug plans ≡ ok out
    → nonempty out ≡ false
    → All (InScope slug) plans
unfolding out_of_scope
out_of_scope-InScope slug [] out h n = tt
out_of_scope-InScope slug (p ∷ rest) out h n =
    let (e, f, h') = >>=-eq-ok (endpoint_of p) _ h in
    let (more, g, h'') = >>=-eq-ok (out_of_scope slug rest) _ h' in
    elim (Bool-cases
      (has_text slug (get "desired_node_slug" e) || has_text "" (get "desired_node_slug" e))) [
        | inl m ↦ ((e, f, m), out_of_scope-InScope slug rest more g (ground arith))
        | inr m ↦ absurd (ground arith)
      ]

checked_plans-InScope :
    (slug : String) (summary : Fields) (plans : List Fields)
    → checked_plans slug summary ≡ ok plans
    → All (InScope slug) plans
unfolding checked_plans
checked_plans-InScope slug summary plans h =
    let (schema, h1, k1) =
      >>=-eq-ok
        (require (has_text "nctl.ipam.reconcile.summary.v1" (get "schema_version" summary))
          (ipam "ipam_summary_schema_mismatch"))
        _ h in
    let (scope, h2, k2) = >>=-eq-ok (object_of (get "scope" summary)) _ k1 in
    let (selected, h3, k3) = >>=-eq-ok (items_of (get "selected_desired_node_slugs" scope)) _ k2 in
    let (scoped, h4, k4) =
      >>=-eq-ok (require (only_text slug selected) (ipam "ipam_summary_scope_mismatch")) _ k3 in
    let (rows, h5, k5) = >>=-eq-ok (items_of (get "plans" summary)) _ k4 in
    let (found, h6, k6) = >>=-eq-ok (objects rows) _ k5 in
    let (out, h7, k7) = >>=-eq-ok (out_of_scope slug found) _ k6 in
    let (inside, h8, k8) =
      >>=-eq-ok (require (not (nonempty out)) (ipam "ipam_summary_out_of_scope_rows")) _ k7 in
    let same : found ≡ plans = ok_inj Raised (List Fields) found plans k8 in
    subst (All (InScope slug)) same (
      out_of_scope-InScope slug found out h7 (
        ground (arith, require-ok (not (nonempty out)) (ipam "ipam_summary_out_of_scope_rows") h8)))

module _ (render : Value → String) where
  -- the plan is one of the plans, and is for the endpoint
  abbrev pub IsPlanFor : List Fields → String → Fields → Type 0
  IsPlanFor plans id p = Memᴰ p plans × (endpoint_id render p ≡ some id)

  plans_by_id-IsPlanFor :
      (plans : List Fields) (d : Dict Fields) (id : String) (p : Fields)
      → Dict.get (plans_by_id render plans d) id ≡ some p
      → IsPlanFor plans id p ⊎ (Dict.get d id ≡ some p)
  unfolding plans_by_id
  plans_by_id-IsPlanFor [] d id p h = inr h
  plans_by_id-IsPlanFor (x ∷ rest) d id p h =
      elim (plans_by_id-IsPlanFor rest (put_plan render d x (endpoint_id render x)) id p h) [
        | inl (m, e) ↦ inl (Memᴰ.tail m, e)
        | inr g ↦ elim (Option-cases (endpoint_id render x)) [
          | inl none_ ↦ inr (ground (arith, none_))
          | inr (j, found) ↦
              let g' : Dict.get (Dict.put d j x) id ≡ some p = ground (arith, found) in
              elim (Bool-cases (id == j)) [
                | inl here ↦
                    let same : x ≡ p = ground (arith, Dict.get-put d j id x) in
                    inl (
                      Memᴰ.head (sym same),
                      subst (λ y. endpoint_id render y ≡ some id) same
                          (found ∙ ap some (sym ((eq_iff id j).0 here))),
                    )
                | inr there ↦ inr (ground (arith, Dict.get-put d j id x))
              ]
        ]
      ]

  -- the endpoint has a plan whose action is an applied one
  abbrev pub IsDone : List Fields → String → Type 0
  IsDone plans id = (p : Fields) × IsPlanFor plans id p × (is_applied p ≡ true)

  plans_at-IsDone :
      (plans : List Fields) (ids : List String) (expected : List Fields)
      → plans_at (plans_by_id render plans []) ids ≡ ok expected
      → All (λ p. is_applied p ≡ true) expected
      → All (IsDone plans) ids
  unfolding plans_at
  plans_at-IsDone plans [] expected h k = tt
  plans_at-IsDone plans (id ∷ ids) expected h k =
      let by_id = plans_by_id render plans [] in
      elim (Option-cases (Dict.get by_id id)) [
        | inl q ↦ absurd (ground (arith, q))
        | inr (p, q) ↦
            let chain : (plans_at by_id ids >>= λ more. ok (p ∷ more)) ≡ ok expected =
              ground (arith, q) in
            let (more, g, h') = >>=-eq-ok (plans_at by_id ids) _ chain in
            let same : expected ≡ p ∷ more =
              sym (ok_inj Raised (List Fields) (p ∷ more) expected h') in
            let (applied, rest) = subst (All (λ x. is_applied x ≡ true)) same k in
            (
              (
                p,
                elim (plans_by_id-IsPlanFor plans [] id p q) [
                  | inl found ↦ found
                  | inr empty ↦ absurd (cc empty)
                ],
                applied,
              ),
              plans_at-IsDone plans ids more g rest,
            )
      ]

  -- Every pinned endpoint is done; where none was pinned, there is a plan, and every plan is applied.
  abbrev pub Done : List Fields → List String → Type 0
  Done plans [] = (nonempty plans ≡ true) × All (λ p. is_applied p ≡ true) plans
  Done plans (id ∷ ids) = All (IsDone plans) (id ∷ ids)

  expected_plans-Done :
      (summary : Fields) (plans : List Fields) (ids : List String) (expected : List Fields)
      → expected_plans render summary plans ids ≡ ok expected
      → All (λ p. is_applied p ≡ true) expected
      → Done plans ids
  unfolding expected_plans
  expected_plans-Done summary plans [] expected h k =
      let (u, g, h') =
        >>=-eq-ok (require (nonempty plans) (ipam "ipam_summary_coverage_mismatch")) _ h in
      (
        require-ok (nonempty plans) (ipam "ipam_summary_coverage_mismatch") g,
        subst (All (λ p. is_applied p ≡ true)) (sym (ok_inj Raised (List Fields) plans expected h'))
            k,
      )
  expected_plans-Done summary plans (id ∷ ids) expected h k =
      let by_id = plans_by_id render plans [] in
      let (u, g, h1) =
        >>=-eq-ok
          (require (not (nonempty (select (λ e. not (is_some (Dict.get by_id e))) (id ∷ ids))))
            (ipam "ipam_summary_coverage_mismatch"))
          _ h in
      let (counts, g1, h2) = >>=-eq-ok (object_of (get "summary" summary)) _ h1 in
      let (v, g2, h3) =
        >>=-eq-ok
          (require (not (miscounted (get "endpoints" counts) (length plans)))
            (ipam "ipam_summary_coverage_mismatch"))
          _ h2 in
      plans_at-IsDone plans (id ∷ ids) expected h3 k

none_unresolved :
    (ps : List Fields)
    → nonempty (select (λ p. not (is_applied p)) ps) ≡ false
    → All (λ p. is_applied p ≡ true) ps
none_unresolved [] h = tt
none_unresolved (p ∷ rest) h = elim (Bool-cases (is_applied p)) [
  | inl m ↦ (m, none_unresolved rest (ground (arith, m)))
  | inr m ↦ absurd (ground (arith, m))
]

module _ (runner : JobRunner) (render : Value → String) (a : ReconcileAction) where
  -- what a reported success rests on
  abbrev pub Success : Type 0
  Success =
      (slug : String) × (summary : Fields) × (plans : List Fields) × (eligible : List String)
      × (ipam_request render a ≡ ok slug)
      × (job_summary runner slug ≡ ok summary)
      × (checked_plans slug summary ≡ ok plans)
      × (eligible_ids render a ≡ ok eligible)
      × All (InScope slug) plans
      × Done render plans eligible

  execute_reconcile_ipam-Success :
      (r : IpamReconcileResult)
      → execute_reconcile_ipam runner render a ≡ ok r
      → nonempty r.unresolved_expected_endpoints ≡ false
      → Success
  unfolding execute_reconcile_ipam ipam_result
  execute_reconcile_ipam-Success r h n =
      let (slug, g1, h1) = >>=-eq-ok (ipam_request render a) _ h in
      let (summary, g2, h2) = >>=-eq-ok (job_summary runner slug) _ h1 in
      let (plans, g3, h3) = >>=-eq-ok (checked_plans slug summary) _ h2 in
      let (eligible, g4, h4) = >>=-eq-ok (eligible_ids render a) _ h3 in
      let (expected, g5, h5) = >>=-eq-ok (expected_plans render summary plans eligible) _ h4 in
      let same =
        ok_inj Raised IpamReconcileResult (ipam_result render slug eligible plans expected) r h5 in
      (
        slug,
        summary,
        plans,
        eligible,
        g1,
        g2,
        g3,
        g4,
        checked_plans-InScope slug summary plans g3,
        expected_plans-Done render summary plans eligible expected g5 (
            none_unresolved expected
              (subst (λ x. nonempty x.unresolved_expected_endpoints ≡ false) (sym same) n)),
      )

  dispatched :
      (o : Result Raised ActionResult) (r : ActionResult)
      → execute_action a o ≡ ok r
      → r.success ≡ true
      → o ≡ ok r
  unfolding execute_action
  dispatched o r h s = ground (arith, o)

  -- If the action result of reconcile_ipam says success, the job's summary passed its checks, every row
  -- of it names the action's node or no node, and every endpoint that was pinned when the action was
  -- planned has a row with its id whose action is an applied one or `noop`; where none was pinned, the
  -- summary has a row, and every row is such.
  pub ipam_action-Success :
      (r : ActionResult) → ipam_action runner render a ≡ ok r → r.success ≡ true → Success
  unfolding ipam_action handle_ipam actuation_result
  ipam_action-Success r h s =
      let handled = dispatched (handle_ipam runner render a) r h s in
      let (found, g, h1) = >>=-eq-ok (execute_reconcile_ipam runner render a) _ handled in
      execute_reconcile_ipam-Success found g
        (elim (Bool-cases (nonempty found.unresolved_expected_endpoints)) [
          | inr m ↦ m
          | inl m ↦ absurd (ground (arith, m))
        ])
