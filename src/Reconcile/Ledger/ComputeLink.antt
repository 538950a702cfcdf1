-- ===== src/Reconcile/Ledger/ComputeLink.antt =====
-- src/nctl_core/reconcile/ledger.py: execute_link_compute_realization. The result's vmid and match
-- basis, which are copied from the parameters, are left out.
mod Steps
pub mod Guarded
pub mod Repeated
use nctl.Prelude.{
  ℕ, zero, suc, ◌-◌, String, Bool, true, false, not, ◌&&◌, ◌||◌, List, [], ◌∷◌, ◌++◌, Option, none,
  some, length, nonempty, ◌==◌, if◌then◌else◌,
}
use nctl.Prelude.Value.{Value, Fields, truthy, get, fields_of}
use nctl.Prelude.Result.{Result, ok, err}
use nctl.Drift.Model.{Target}
use nctl.Sources.{DesiredComputePlatform, DesiredComputeInstance, DesiredSnapshot}
use nctl.Reconcile.Model.{ReconcileAction}
use nctl.Reconcile.Ledger.{
  Raised, ledger, write_failed, client_failed, crashed, Client, text_or_empty, submit_batch, upsert,
  operation_action,
}
use nctl.Reconcile.Ledger.NodeLink.{node_by_id, text_or, links_to}

pub record ComputeLinkResult : Type 0 where
  pub node_slug : String
  pub compute_platform_id : String
  pub cluster_id : String
  pub compute_instance_id : String
  pub virtual_machine_id : String
  pub platform_write : String
  pub instance_write : String

-- the pinned identities of the action
pub record ComputeRequest : Type 0 where
  pub platform_id : String
  pub instance_id : String
  pub cluster_id : String
  pub vm_id : String

-- `str(p.get(k) or "")`
abbrev parameter : (Value → String) → ReconcileAction → String → String
parameter render a k = text_or_empty render (get k a.parameters)

unfoldable pub compute_request : (Value → String) → ReconcileAction → Result Raised ComputeRequest
unfolding text_or_empty get
compute_request render a =
    let platform_id = parameter render a "compute_platform_id" in
    let instance_id = parameter render a "compute_instance_id" in
    let cluster_id = parameter render a "cluster_id" in
    let vm_id = parameter render a "virtual_machine_id" in
    if a.reconciler_id == "link_compute_realization"
    then (if platform_id == "" || (instance_id == "" || (cluster_id == "" || vm_id == ""))
        then err (ledger "missing_compute_link_parameter" false)
        else ok record {
          platform_id = platform_id;
          instance_id = instance_id;
          cluster_id = cluster_id;
          vm_id = vm_id;
        })
    else err (ledger "wrong_action" false)

unfoldable pub platform_by_id : String → List DesiredComputePlatform → Option DesiredComputePlatform
platform_by_id id [] = none
platform_by_id id (p ∷ rest) = if p.id == id then some p else platform_by_id id rest

unfoldable pub instance_by_id : String → List DesiredComputeInstance → Option DesiredComputeInstance
instance_by_id id [] = none
instance_by_id id (i ∷ rest) = if i.id == id then some i else instance_by_id id rest

abbrev pub Rows : Type 0
Rows = DesiredComputePlatform × DesiredComputeInstance

-- the two rows of a snapshot, which the first query and the refetches look for alike
unfoldable pub find_rows : DesiredSnapshot → ComputeRequest → Result Raised Rows
unfolding platform_by_id instance_by_id
find_rows d q = elim (platform_by_id q.platform_id d.compute_platforms) [
  | none ↦ err (ledger "compute_link_fetch_failed" false)
  | some p ↦ elim (instance_by_id q.instance_id d.compute_instances) [
    | none ↦ err (ledger "compute_link_fetch_failed" false)
    | some i ↦ ok (p, i)
  ]
]

-- `_get_compute_rows`, of what the refetch gave
unfoldable pub get_compute_rows : Option DesiredSnapshot → ComputeRequest → Result Raised Rows
unfolding find_rows
get_compute_rows none q = err (ledger "compute_link_fetch_failed" false)
get_compute_rows (some d) q = find_rows d q

-- `link not in (None, id)`
abbrev pub links_elsewhere : Option String → String → Bool
links_elsewhere none id = false
links_elsewhere (some found) id = not (found == id)

abbrev pub unlinked : Option String → Bool
unlinked none = true
unlinked (some found) = false

pub record LinkPlan : Type 0 where
  pub rows : Rows
  pub operations : List Fields

abbrev pub platform_operations : ComputeRequest → DesiredComputePlatform → List Fields
platform_operations q p =
    if unlinked p.realized_cluster_id
    then upsert "desired_compute_platform" "slug" (Value.str p.slug) "realized_cluster" q.cluster_id
      ∷ []
    else []

unfoldable pub instance_operations :
    DesiredSnapshot → ComputeRequest → DesiredComputeInstance → Result Raised (List Fields)
unfolding node_by_id
instance_operations d q i =
    if unlinked i.realized_vm_id
    then elim (node_by_id i.desired_node_id d.nodes) [
      | none ↦ err (ledger "compute_link_fetch_failed" false)
      | some n ↦ ok (
          upsert "desired_compute_instance" "desired_node" (Value.str n.slug) "realized_vm" q.vm_id
          ∷ [])
    ]
    else ok []

unfoldable pub plan_links : DesiredSnapshot → ComputeRequest → Result Raised LinkPlan
unfolding find_rows instance_operations
plan_links d q = elim (find_rows d q) [
  | err e ↦ err e
  | ok (p, i) ↦
      if links_elsewhere p.realized_cluster_id q.cluster_id
      then err (ledger "platform_link_already_other" false)
      else if links_elsewhere i.realized_vm_id q.vm_id
      then err (ledger "instance_link_already_other" false)
      else elim (instance_operations d q i) [
        | err e ↦ err e
        | ok more ↦ ok record { rows = (p, i); operations = platform_operations q p ++ more }
      ]
]

-- `bool(artifact.get("transaction", {}).get("committed"))`
unfoldable pub is_committed : Fields → Bool
unfolding truthy get fields_of
is_committed artifact = truthy (get "committed" (fields_of "transaction" artifact))

-- platform_write and instance_write
unfoldable pub writes : (Value → String) → LinkPlan → Fields → Result Raised (String × String)
unfolding operation_action
writes render plan artifact =
    let platform =
      if unlinked plan.rows.0.realized_cluster_id
      then operation_action render artifact 0
      else ok "already_correct" in
    let instance_ =
      if unlinked plan.rows.1.realized_vm_id
      then operation_action render artifact (length plan.operations - 1)
      else ok "already_correct" in
    elim platform [ err e ↦ err e | ok p ↦ elim instance_ [ err e ↦ err e | ok i ↦ ok (p, i) ] ]

-- `except LedgerActionError`, with the flag `mutated`
abbrev pub marked : Bool → Raised → Raised
marked mutated (ledger code m) = ledger code (m || mutated)
marked mutated e = e

-- the result, for the first target of the action
unfoldable pub link_result :
    List Target → ComputeRequest → String × String → Result Raised ComputeLinkResult
link_result [] q w = err crashed
link_result (target ∷ rest) q w = ok record {
  node_slug = text_or target.slug;
  compute_platform_id = q.platform_id;
  cluster_id = q.cluster_id;
  compute_instance_id = q.instance_id;
  virtual_machine_id = q.vm_id;
  platform_write = w.0;
  instance_write = w.1;
}

-- the two refetches, each of which is a query of its own
unfoldable pub confirm_links :
    List Target
    → ComputeRequest
    → Bool
    → String × String
    → Option DesiredSnapshot
    → Option DesiredSnapshot
    → Result Raised ComputeLinkResult
unfolding get_compute_rows link_result
confirm_links targets q mutated w first second = elim (get_compute_rows first q) [
  | err e ↦ err (marked mutated e)
  | ok (p, old) ↦
      if links_to p.realized_cluster_id q.cluster_id
      then elim (get_compute_rows second q) [
        | err e ↦ err (marked mutated e)
        | ok (again, i) ↦
            if links_to i.realized_vm_id q.vm_id
            then link_result targets q w
            else err (ledger "instance_link_not_confirmed" mutated)
      ]
      else err (ledger "platform_link_not_confirmed" mutated)
]

-- `except DesiredWriteError`
abbrev pub link_refused : Raised → Raised
link_refused (write_failed n) = ledger "compute_link_write_failed" false
link_refused e = e

module _ (client : Client) (render : Value → String) (a : ReconcileAction) where
  unfoldable pub after_batch :
      ComputeRequest → LinkPlan → Fields → client.Server → Result Raised ComputeLinkResult
  unfolding writes is_committed confirm_links
  after_batch q plan artifact t = elim (writes render plan artifact) [
    | err e ↦ err e
    | ok w ↦ confirm_links a.targets q (is_committed artifact) w (client.fetch t) (client.fetch t)
  ]

  unfoldable pub apply_links :
      ComputeRequest → LinkPlan → client.Server → Result Raised ComputeLinkResult × client.Server
  unfolding submit_batch after_batch confirm_links
  apply_links q plan s =
      if nonempty plan.operations
      then (let (written, t) = submit_batch client plan.operations s in
          (
            elim written [
              | err e ↦ err (link_refused e)
              | ok artifact ↦ after_batch q plan artifact t
            ],
            t,
          ))
      else (
        confirm_links a.targets q false ("already_correct", "already_correct") (client.fetch s)
            (client.fetch s),
        s,
      )

  -- what is raised by the first query is an error of the client
  unfoldable pub execute_link_compute_realization :
      client.Server → Result Raised ComputeLinkResult × client.Server
  unfolding compute_request plan_links apply_links
  execute_link_compute_realization s = elim (compute_request render a) [
    | err e ↦ (err e, s)
    | ok q ↦ elim (client.fetch s) [
      | none ↦ (err client_failed, s)
      | some d ↦ elim (plan_links d q) [ err e ↦ (err e, s) | ok plan ↦ apply_links q plan s ]
    ]
  ]
