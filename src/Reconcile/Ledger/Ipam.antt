-- ===== src/Reconcile/Ledger/Ipam.antt =====
-- src/nctl_core/reconcile/ledger.py: execute_reconcile_ipam, and its handler actions/ipam.py. Where the
-- summary has a JSON value of another shape than the artifact's schema, the source fails with an error
-- that no one catches: that is `crashed`. A count that is no integer counts as a wrong one.
pub mod Covered
use nctl.Prelude.{
  ℕ, String, Bool, true, false, not, ◌||◌, ◌&&◌, List, [], ◌∷◌, Option, none, some, length,
  nonempty, select, nat_eq, ◌==◌, if◌then◌else◌,
}
use nctl.Prelude.Dict
use nctl.Prelude.Dict.{Dict, is_some}
use nctl.Prelude.Value.{Value, Fields, Items, end, truthy, lookup, get}
use nctl.Prelude.Result.{Result, ok, err, ◌>>=◌, ◌>>◌}
use nctl.Reconcile.Model.{ReconcileAction}
use nctl.Reconcile.Executor.{ActionResult}
use nctl.Reconcile.Ledger.{
  Raised, ledger, client_failed, crashed, text_or_empty, execute_action, actuation_result,
}

-- the job runner and the file that it leaves, by the slug of the node
pub record JobRunner : Type 0 where
  -- job_runner.run: the path of the artifact, if the job left one; `none` if it raises
  pub run : String → Option (Option String)
  -- path.read_text(); `none` is an OSError
  pub read_text : String → Option String
  -- json.loads; `none` is a JSONDecodeError
  pub loads : String → Option Value

pub record IpamReconcileResult : Type 0 where
  pub desired_node_slug : String
  pub conflicts : List Fields
  pub skipped : List Fields
  pub eligible_endpoint_ids : List String
  pub applied_endpoint_ids : List String
  pub unresolved_expected_endpoints : List Fields

abbrev pub require : Bool → Raised → Result Raised Unit
require true e = ok tt
require false e = err e

abbrev pub ipam : String → Raised
ipam code = ledger code false

-- `str(value)`
abbrev str_of : (Value → String) → Value → String
str_of render (Value.str s) = s
str_of render v = render v

-- `value or []`, for a list
unfoldable pub items_of : Value → Result Raised Items
unfolding truthy
items_of (Value.arr items) = ok items
items_of v = if truthy v then err crashed else ok Items.nil

-- `value or {}`, for an object
unfoldable pub object_of : Value → Result Raised Fields
unfolding truthy
object_of (Value.obj fs) = ok fs
object_of v = if truthy v then err crashed else ok end

abbrev pub has_text : String → Value → Bool
has_text t (Value.str s) = s == t
has_text t v = false

-- whether `selected_slugs - {node_slug}` is empty
abbrev only_text : String → Items → Bool
only_text t Items.nil = true
only_text t (Items.cons v rest) = has_text t v && only_text t rest

abbrev objects : Items → Result Raised (List Fields)
objects Items.nil = ok []
objects (Items.cons (Value.obj fs) rest) = objects rest >>= λ more. ok (fs ∷ more)
objects (Items.cons v rest) = err crashed

abbrev texts_of : (Value → String) → Items → List String
texts_of render Items.nil = []
texts_of render (Items.cons v rest) = str_of render v ∷ texts_of render rest

-- `plan.get("desired_endpoint", {})`, before its `get`
unfoldable pub endpoint_of : Fields → Result Raised Fields
unfolding lookup
endpoint_of plan = elim (lookup "desired_endpoint" plan) [
  | none ↦ ok end
  | some (Value.obj e) ↦ ok e
  | some v ↦ err crashed
]

-- the plans that name another node
unfoldable pub out_of_scope : String → List Fields → Result Raised (List Fields)
unfolding endpoint_of get
out_of_scope slug [] = ok []
out_of_scope slug (p ∷ rest) = endpoint_of p >>= λ e. out_of_scope slug rest >>= λ out.
    let node = get "desired_node_slug" e in
    ok (if has_text slug node || has_text "" node then out else p ∷ out)

-- the guards on the summary, up to its plan rows
unfoldable pub checked_plans : String → Fields → Result Raised (List Fields)
unfolding get object_of items_of out_of_scope
checked_plans slug summary =
    require (has_text "nctl.ipam.reconcile.summary.v1" (get "schema_version" summary))
      (ipam "ipam_summary_schema_mismatch")
    >>= λ schema. object_of (get "scope" summary) >>= λ scope.
        items_of (get "selected_desired_node_slugs" scope) >>= λ selected.
        require (only_text slug selected) (ipam "ipam_summary_scope_mismatch") >>= λ scoped.
        items_of (get "plans" summary) >>= λ rows. objects rows >>= λ plans.
        out_of_scope slug plans >>= λ out.
        require (not (nonempty out)) (ipam "ipam_summary_out_of_scope_rows") >>= λ inside. ok plans

-- `endpoints_count is not None and endpoints_count != len(plans)`
abbrev miscounted : Value → ℕ → Bool
miscounted Value.null n = false
miscounted (Value.int k) n = not (nat_eq k n)
miscounted v n = true

unfoldable pub plan_action : Fields → Value
unfolding get
plan_action = get "action"

-- `plan.get("action") in _IPAM_APPLIED_ACTIONS`
unfoldable pub is_applied : Fields → Bool
unfolding plan_action
is_applied plan =
    has_text "create_ip_address_applied" (plan_action plan)
    || (has_text "link_ip_address_applied" (plan_action plan) || has_text "noop" (plan_action plan))

-- `[plan_by_endpoint_id[eid] for eid in ids]`
unfoldable pub plans_at : Dict Fields → List String → Result Raised (List Fields)
unfolding Dict.get
plans_at d [] = ok []
plans_at d (id ∷ rest) = elim (Dict.get d id) [
  | none ↦ err crashed
  | some plan ↦ plans_at d rest >>= λ plans. ok (plan ∷ plans)
]

module _ (render : Value → String) where
  -- the id of the plan's endpoint, if it has one
  unfoldable pub endpoint_id : Fields → Option String
  unfolding lookup get truthy
  endpoint_id plan = elim (lookup "desired_endpoint" plan) [
    | none ↦ none
    | some (Value.obj e) ↦ if truthy (get "id" e) then some (str_of render (get "id" e)) else none
    | some v ↦ none
  ]

  abbrev pub put_plan : Dict Fields → Fields → Option String → Dict Fields
  put_plan d plan none = d
  put_plan d plan (some id) = Dict.put d id plan

  -- plan_by_endpoint_id: of two plans for one endpoint, the later
  unfoldable pub plans_by_id : List Fields → Dict Fields → Dict Fields
  unfolding endpoint_id Dict.put
  plans_by_id [] d = d
  plans_by_id (p ∷ rest) d = plans_by_id rest (put_plan d p (endpoint_id p))

  -- the guards on coverage, and the expected plans
  unfoldable pub expected_plans : Fields → List Fields → List String → Result Raised (List Fields)
  unfolding get object_of plans_by_id plans_at Dict.get
  expected_plans summary plans [] =
      require (nonempty plans) (ipam "ipam_summary_coverage_mismatch") >>= λ some_plan. ok plans
  expected_plans summary plans (id ∷ ids) =
      let by_id = plans_by_id plans [] in
      require (not (nonempty (select (λ e. not (is_some (Dict.get by_id e))) (id ∷ ids))))
        (ipam "ipam_summary_coverage_mismatch")
      >>= λ covered. object_of (get "summary" summary) >>= λ counts.
          require (not (miscounted (get "endpoints" counts) (length plans)))
            (ipam "ipam_summary_coverage_mismatch")
          >>= λ counted. plans_at by_id (id ∷ ids)

  -- `str(plan["desired_endpoint"].get("id") or "")` of the applied plans, without the empty texts
  unfoldable pub applied_ids : List Fields → List String
  unfolding lookup get is_applied text_or_empty
  applied_ids [] = []
  applied_ids (p ∷ rest) =
      let more = applied_ids rest in
      if is_applied p
      then elim (lookup "desired_endpoint" p) [
        | some (Value.obj e) ↦
            let id = text_or_empty render (get "id" e) in if id == "" then more else id ∷ more
        | _ ↦ more
      ]
      else more

  unfoldable pub ipam_result :
      String → List String → List Fields → List Fields → IpamReconcileResult
  unfolding plan_action is_applied applied_ids
  ipam_result slug eligible plans expected = record {
    desired_node_slug = slug;
    conflicts = select (λ p. has_text "conflict" (plan_action p)) plans;
    skipped = select (λ p. has_text "skip" (plan_action p)) plans;
    eligible_endpoint_ids = eligible;
    applied_endpoint_ids = applied_ids expected;
    unresolved_expected_endpoints = select (λ p. not (is_applied p)) expected;
  }

  unfoldable pub ipam_request : ReconcileAction → Result Raised String
  unfolding get text_or_empty
  ipam_request a =
      let slug = text_or_empty render (get "desired_node_slug" a.parameters) in
      require (a.reconciler_id == "reconcile_ipam") (ipam "wrong_action") >>= λ named.
      require (not (slug == "")) (ipam "missing_node_slug") >>= λ slugged. ok slug

  unfoldable pub eligible_ids : ReconcileAction → Result Raised (List String)
  unfolding get items_of
  eligible_ids a =
      items_of (get "eligible_endpoint_ids" a.evidence) >>= λ ids. ok (texts_of render ids)

-- `_read_json`
unfoldable pub read_json : JobRunner → String → Result Raised Fields
read_json runner path = elim (runner.read_text path) [
  | none ↦ err (ipam "ipam_summary_unreadable")
  | some text ↦ elim (runner.loads text) [
    | some (Value.obj fs) ↦ ok fs
    | _ ↦ err (ipam "ipam_summary_invalid_json")
  ]
]

unfoldable pub job_summary : JobRunner → String → Result Raised Fields
unfolding read_json
job_summary runner slug = elim (runner.run slug) [
  | none ↦ err client_failed
  | some none ↦ err (ipam "ipam_summary_missing")
  | some (some path) ↦ read_json runner path
]

module _ (runner : JobRunner) (render : Value → String) where
  unfoldable pub execute_reconcile_ipam : ReconcileAction → Result Raised IpamReconcileResult
  unfolding ipam_request job_summary checked_plans eligible_ids expected_plans ipam_result
  execute_reconcile_ipam a = ipam_request render a >>= λ slug.
      job_summary runner slug >>= λ summary. checked_plans slug summary >>= λ plans.
      eligible_ids render a >>= λ eligible.
      expected_plans render summary plans eligible >>= λ expected.
      ok (ipam_result render slug eligible plans expected)

  -- actions/ipam.py
  unfoldable pub handle_ipam : ReconcileAction → Result Raised ActionResult
  unfolding execute_reconcile_ipam actuation_result
  handle_ipam a = execute_reconcile_ipam a >>= λ r.
      let success = not (nonempty r.unresolved_expected_endpoints) in
      let result = actuation_result a success (some (nonempty r.applied_endpoint_ids)) in
      ok (if success then result else record result { error = some "reconcile_ipam" })

  -- behind the dispatch
  unfoldable pub ipam_action : ReconcileAction → Result Raised ActionResult
  unfolding handle_ipam execute_action
  ipam_action a = execute_action a (handle_ipam a)
