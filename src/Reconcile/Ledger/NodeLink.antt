-- ===== src/Reconcile/Ledger/NodeLink.antt =====
-- src/nctl_core/reconcile/ledger.py: execute_link_actual_node.
pub mod Requests
pub mod Guarded
use nctl.Prelude.{
  String, Bool, true, false, not, ◌&&◌, ◌||◌, List, [], ◌∷◌, Option, none, some, ◌==◌,
  if◌then◌else◌,
}
use nctl.Prelude.Value.{Value, Fields, field, end, truthy, get}
use nctl.Prelude.Result.{Result, ok, err}
use nctl.Drift.Model.{Target}
use nctl.Sources.{DesiredNode, DesiredSnapshot}
use nctl.Reconcile.Model.{ReconcileAction}
use nctl.Reconcile.Executor.{ActionResult}
use nctl.Reconcile.Ledger.{
  Raised, ledger, write_failed, crashed, Client, text_or_empty, submit_batch, upsert,
  execute_action, actuation_result,
}

pub record LinkActualNodeResult : Type 0 where
  pub node_id : String
  pub node_slug : String
  pub column : String
  pub candidate_id : String
  pub candidate_name : String

-- what the guards before the first query read from the action
pub record LinkRequest : Type 0 where
  pub node_id : String
  pub slug : Option String
  pub column : String
  pub candidate_id : String
  pub candidate_name : String

-- `NODE_LINK_CANDIDATE_FIELD_BY_OBJECT_TYPE.get(object_type)`; a list or an object has no hash
unfoldable pub candidate_field : Value → Result Raised String
candidate_field (Value.str s) =
    if s == "dcim.device"
    then ok "realized_device"
    else err (ledger "unsupported_candidate_type" false)
candidate_field (Value.obj fs) = err crashed
candidate_field (Value.arr vs) = err crashed
candidate_field v = err (ledger "unsupported_candidate_type" false)

-- `parameters.get("candidate") or {}`; what is true and no object has no `get`
unfoldable pub candidate_of : Value → Result Raised Fields
unfolding truthy
candidate_of (Value.obj fs) = ok fs
candidate_of v = if truthy v then err crashed else ok end

abbrev is_set : Option String → Bool
is_set none = false
is_set (some s) = not (s == "")

abbrev pub text_or : Option String → String
text_or none = ""
text_or (some s) = s

module _ (render : Value → String) where
  unfoldable pub candidate_request : Target → String → Fields → Result Raised LinkRequest
  unfolding candidate_field text_or_empty get
  candidate_request target node_id candidate =
      elim (candidate_field (get "object_type" candidate)) [
        | err e ↦ err e
        | ok column ↦
            let id = text_or_empty render (get "id" candidate) in
            if id == ""
            then err (ledger "missing_candidate_id" false)
            else ok record {
              node_id = node_id;
              slug = target.slug;
              column = column;
              candidate_id = id;
              candidate_name = text_or_empty render (get "name" candidate);
            }
      ]

  unfoldable pub target_request : Target → Fields → Result Raised LinkRequest
  unfolding candidate_of candidate_request get
  target_request target parameters =
      if text_or target.id == ""
      then err (ledger "missing_target_id" false)
      else elim (candidate_of (get "candidate" parameters)) [
        | err e ↦ err e
        | ok candidate ↦ candidate_request target (text_or target.id) candidate
      ]

  unfoldable pub link_request : ReconcileAction → Result Raised LinkRequest
  unfolding target_request
  link_request a =
      if a.reconciler_id == "link_actual_node"
      then elim a.targets [ [] ↦ err crashed | target ∷ rest ↦ target_request target a.parameters ]
      else err (ledger "wrong_action" false)

unfoldable pub node_by_id : String → List DesiredNode → Option DesiredNode
node_by_id id [] = none
node_by_id id (n ∷ rest) = if n.id == id then some n else node_by_id id rest

-- `if expected_slug and node.slug != expected_slug`
abbrev mismatch : Option String → DesiredNode → Bool
mismatch none n = false
mismatch (some s) n = not (s == "") && not (n.slug == s)

-- `_get_desired_node_by_id`, of what the fetch gave
unfoldable pub get_desired_node :
    Option DesiredSnapshot → String → Option String → Result Raised DesiredNode
unfolding node_by_id
get_desired_node none id expected = err (ledger "node_fetch_failed" false)
get_desired_node (some snapshot) id expected = elim (node_by_id id snapshot.nodes) [
  | none ↦ err (ledger "node_fetch_failed" false)
  | some n ↦ if mismatch expected n then err (ledger "node_fetch_mismatch" false) else ok n
]

-- the batch that sets the link of the node
abbrev pub link_operations : LinkRequest → List Fields
link_operations q =
    upsert "desired_node" "slug" (elim q.slug [ none ↦ Value.null | some s ↦ Value.str s ]) q.column
      q.candidate_id
    ∷ []

-- `raise LedgerActionError(..., mutated=True) from exc`, for a LedgerActionError
abbrev as_mutated : Raised → Raised
as_mutated (ledger code m) = ledger code true
as_mutated e = e

abbrev pub links_to : Option String → String → Bool
links_to none id = false
links_to (some found) id = found == id

-- the refetch after the write
unfoldable pub confirm_link :
    LinkRequest → Option DesiredSnapshot → Result Raised LinkActualNodeResult
unfolding get_desired_node
confirm_link q snapshot = elim (get_desired_node snapshot q.node_id q.slug) [
  | err e ↦ err (as_mutated e)
  | ok after ↦
      if links_to after.realized_device_id q.candidate_id
      then ok record {
        node_id = q.node_id;
        node_slug = text_or q.slug;
        column = q.column;
        candidate_id = q.candidate_id;
        candidate_name = q.candidate_name;
      }
      else err (ledger "node_link_not_confirmed" true)
]

-- `except DesiredWriteError`
abbrev refused : Raised → Raised
refused (write_failed n) = ledger "node_link_write_failed" false
refused e = e

module _ (client : Client) (render : Value → String) where
  unfoldable pub write_link :
      LinkRequest → client.Server → Result Raised LinkActualNodeResult × client.Server
  unfolding submit_batch confirm_link
  write_link q s =
      let (written, t) = submit_batch client (link_operations q) s in
      (elim written [ err e ↦ err (refused e) | ok artifact ↦ confirm_link q (client.fetch t) ], t)

  unfoldable pub link_fetched :
      LinkRequest → client.Server → Result Raised LinkActualNodeResult × client.Server
  unfolding get_desired_node write_link
  link_fetched q s = elim (get_desired_node (client.fetch s) q.node_id q.slug) [
    | err e ↦ (err e, s)
    | ok before ↦
        if is_set before.realized_device_id
        then (err (ledger "node_already_linked" false), s)
        else write_link q s
  ]

  unfoldable pub execute_link_actual_node :
      ReconcileAction → client.Server → Result Raised LinkActualNodeResult × client.Server
  unfolding link_request link_fetched
  execute_link_actual_node a s = elim (link_request render a) [
    | err e ↦ (err e, s)
    | ok q ↦ link_fetched q s
  ]

  -- actions/ledger_link.py, behind the dispatch
  unfoldable pub node_link_action :
      ReconcileAction → client.Server → Result Raised ActionResult × client.Server
  unfolding execute_link_actual_node execute_action actuation_result
  node_link_action a s =
      let (linked, t) = execute_link_actual_node a s in
      (
        execute_action a (elim linked [ err e ↦ err e | ok r ↦ ok (actuation_result a true none) ]),
        t,
      )
