-- ===== src/Reconcile/Ledger/ComputeLink/Steps.antt =====
-- What each step of a compute link raises, and what the refetches confirm.
use nctl.Prelude.{
  ℕ, String, Bool, true, false, ◌||◌, Option, none, some, ◌≡◌, refl, inl, inr, Bool-cases,
  Option-cases, ◌==◌, if◌then◌else◌, List, [], ◌∷◌, length, ◌-◌,
}
use mathlib.Core.Path.{subst}
use nctl.Prelude.Value.{Value, Fields}
use nctl.Prelude.Result.{Result, ok, err, Result-cases}
use nctl.Drift.Model.{Target}
use nctl.Sources.{DesiredComputePlatform, DesiredComputeInstance, DesiredSnapshot}
use nctl.Reconcile.Model.{ReconcileAction}
use nctl.Reconcile.Ledger.{Raised, ledger, write_failed, client_failed, crashed, operation_action}
use nctl.Reconcile.Ledger.Refusals.{Missing, Omission, Raises, operation_action-Omission}
use nctl.Reconcile.Ledger.NodeLink.{links_to, node_by_id}
use nctl.Reconcile.Ledger.NodeLink.Requests.{links_to-eq}
use nctl.Reconcile.Ledger.ComputeLink.{
  ComputeLinkResult, ComputeRequest, compute_request, platform_by_id, instance_by_id, find_rows,
  get_compute_rows, links_elsewhere, unlinked, LinkPlan, instance_operations, plan_links, writes,
  link_result, confirm_links, parameter,
}

pub compute_request-Missing :
    (render : Value → String) (a : ReconcileAction) → Raises Missing (compute_request render a)
unfolding compute_request
compute_request-Missing render a =
    elim (Bool-cases (a.reconciler_id == "link_compute_realization")) [
      | inr m ↦ rw (m, Raises) ("wrong_action", refl)
      | inl m ↦ rw m (
          guard
            ((parameter render a "compute_platform_id" == "")
              || ((parameter render a "compute_instance_id" == "")
                  || ((parameter render a "cluster_id" == "")
                      || (parameter render a "virtual_machine_id" == ""))))
            _)
    ]
  where
    guard :
        (b : Bool) (q : ComputeRequest)
        → Raises Missing (if b then err (ledger "missing_compute_link_parameter" false) else ok q)
    guard true q = ("missing_compute_link_parameter", refl)
    guard false q = tt

find_rows-Missing : (d : DesiredSnapshot) (q : ComputeRequest) → Raises Missing (find_rows d q)
unfolding find_rows
find_rows-Missing d q = elim (Option-cases (platform_by_id q.platform_id d.compute_platforms)) [
  | inl m ↦ rw (m, Raises) ("compute_link_fetch_failed", refl)
  | inr (p, m) ↦ elim (Option-cases (instance_by_id q.instance_id d.compute_instances)) [
    | inl n ↦ rw (m, n, Raises) ("compute_link_fetch_failed", refl)
    | inr (i, n) ↦ rw (m, n, Raises) tt
  ]
]

instance_operations-Missing :
    (d : DesiredSnapshot) (q : ComputeRequest) (i : DesiredComputeInstance)
    → Raises Missing (instance_operations d q i)
unfolding instance_operations
instance_operations-Missing d q i = elim (Bool-cases (unlinked i.realized_vm_id)) [
  | inr m ↦ rw (m, Raises) tt
  | inl m ↦ elim (Option-cases (node_by_id i.desired_node_id d.nodes)) [
    | inl n ↦ rw (m, n, Raises) ("compute_link_fetch_failed", refl)
    | inr (x, n) ↦ rw (m, n, Raises) tt
  ]
]

pub plan_links-Missing :
    (d : DesiredSnapshot) (q : ComputeRequest) → Raises Missing (plan_links d q)
unfolding plan_links
plan_links-Missing d q = elim (Result-cases (find_rows d q)) [
  | inl (e, f) ↦ rw (f, Raises) (subst (Raises Missing) f (find_rows-Missing d q))
  | inr ((p, i), f) ↦ elim (Bool-cases (links_elsewhere p.realized_cluster_id q.cluster_id)) [
    | inl m ↦ rw (f, m, Raises) ("platform_link_already_other", refl)
    | inr m ↦ elim (Bool-cases (links_elsewhere i.realized_vm_id q.vm_id)) [
      | inl n ↦ rw (f, m, n, Raises) ("instance_link_already_other", refl)
      | inr n ↦ elim (Result-cases (instance_operations d q i)) [
        | inl (e, o) ↦
            rw (f, m, n, o, Raises) (subst (Raises Missing) o (instance_operations-Missing d q i))
        | inr (more, o) ↦ rw (f, m, n, o, Raises) tt
      ]
    ]
  ]
]

-- both rows of a query's answer link to the pinned objects
abbrev pub IsLinked : ComputeRequest → Option DesiredSnapshot → Type 0
IsLinked q o =
    (p : DesiredComputePlatform) × (i : DesiredComputeInstance) × (get_compute_rows o q ≡ ok (p, i))
    × (p.realized_cluster_id ≡ some q.cluster_id)
    × (i.realized_vm_id ≡ some q.vm_id)

get_compute_rows-Missing :
    (o : Option DesiredSnapshot) (q : ComputeRequest) → Raises Missing (get_compute_rows o q)
unfolding get_compute_rows
get_compute_rows-Missing none q = ("compute_link_fetch_failed", refl)
get_compute_rows-Missing (some d) q = find_rows-Missing d q

-- what the refetches say, for the flag `mutated`
abbrev pub Confirms :
    Bool → ComputeRequest → Option DesiredSnapshot → Result Raised ComputeLinkResult → Type 0
Confirms m q o (ok r) = IsLinked q o
Confirms m q o (err (ledger code b)) = m ≡ b
Confirms m q o (err (write_failed n)) = ⊥
Confirms m q o (err client_failed) = ⊥
Confirms m q o (err crashed) = Unit

link_result-Confirms :
    (m : Bool) (ts : List Target) (q : ComputeRequest) (w : String × String)
    (o : Option DesiredSnapshot)
    → IsLinked q o
    → Confirms m q o (link_result ts q w)
unfolding link_result
link_result-Confirms m [] q w o l = tt
link_result-Confirms m (t ∷ rest) q w o l = l

pub confirm_links-Confirms :
    (m : Bool) (ts : List Target) (q : ComputeRequest) (w : String × String)
    (o : Option DesiredSnapshot)
    → Confirms m q o (confirm_links ts q m w o o)
unfolding confirm_links
confirm_links-Confirms m ts q w o = elim (Result-cases (get_compute_rows o q)) [
  | inl (e, f) ↦
      let (code, missing) = subst (Raises Missing) f (get_compute_rows-Missing o q) in
      rw (f, missing, Confirms) refl
  | inr ((p, i), f) ↦ elim (Bool-cases (links_to p.realized_cluster_id q.cluster_id)) [
    | inr l ↦ rw (f, l, Confirms) refl
    | inl l ↦ elim (Bool-cases (links_to i.realized_vm_id q.vm_id)) [
      | inr k ↦ rw (f, l, f, k, Confirms) refl
      | inl k ↦
          rw (confirm_links, f, l, f, k)
            (link_result-Confirms m ts q w o (
              p,
              i,
              f,
              links_to-eq p.realized_cluster_id q.cluster_id l,
              links_to-eq i.realized_vm_id q.vm_id k,
            ))
    ]
  ]
]

pub writes-Omission :
    (render : Value → String) (plan : LinkPlan) (artifact : Fields)
    → Raises Omission (writes render plan artifact)
unfolding writes
writes-Omission render plan artifact =
    both
      (if unlinked plan.rows.0.realized_cluster_id
        then operation_action render artifact 0
        else ok "already_correct")
      (if unlinked plan.rows.1.realized_vm_id
        then operation_action render artifact (length plan.operations - 1)
        else ok "already_correct")
      (unless_linked (unlinked plan.rows.0.realized_cluster_id) 0)
      (unless_linked (unlinked plan.rows.1.realized_vm_id) (length plan.operations - 1))
  where
    unless_linked :
        (b : Bool) (n : ℕ)
        → Raises Omission (if b then operation_action render artifact n else ok "already_correct")
    unless_linked true n = operation_action-Omission render artifact n
    unless_linked false n = tt

    both :
        (p i : Result Raised String)
        → Raises Omission p
        → Raises Omission i
        → Raises {A = String × String} Omission
            (elim p [ err e ↦ err e | ok x ↦ elim i [ err e ↦ err e | ok y ↦ ok (x, y) ] ])
    both (err e) i h k = h
    both (ok x) (err e) h k = k
    both (ok x) (ok y) h k = tt
