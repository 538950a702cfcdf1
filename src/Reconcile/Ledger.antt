-- ===== src/Reconcile/Ledger.antt =====
-- src/nctl_core/reconcile/ledger.py, desired_write.py and actions/dispatch.py: what the write actions
-- share, which are the client, the errors and the batch. Messages and details of errors are left out.
pub mod NodeLink
mod Refusals
pub mod ComputeLink
pub mod Ipam
mod Examples
use nctl.Prelude.{
  ℕ, zero, suc, String, Bool, true, false, not, ◌&&◌, List, [], ◌∷◌, Option, none, some, nat_eq,
  ◌==◌, if◌then◌else◌,
}
use nctl.Prelude.Value.{Value, Fields, Items, field, end, truthy, get}
use nctl.Prelude.Result.{Result, ok, err}
use nctl.Sources.{DesiredSnapshot}
use nctl.Reconcile.Model.{ReconcileAction}
use nctl.Reconcile.Executor.{ActionResult}

-- What the ledger actions raise: LedgerActionError with its code and its `mutated` mark,
-- DesiredWriteError with its HTTP status, another NautobotError or NautobotJobError, or an error that
-- no caller expects, like a TypeError.
pub data Raised : Type 0 where
  ledger : String → Bool → Raised
  write_failed : ℕ → Raised
  client_failed crashed : Raised

-- An HTTP answer: its status and its JSON body, if it has one.
pub record Response : Type 0 where
  pub status_code : ℕ
  pub body : Option Value

-- The Nautobot client over the state of its server, which no one else changes during an action.
pub record Client : Type 1 where
  pub Server : Type 0
  -- fetch_desired_snapshot, a GraphQL query; `none` if it raises
  pub fetch : Server → Option DesiredSnapshot
  -- rest_post of a batch of operations; `none` if it raises
  pub rest_post : List Fields → Server → Option Response × Server

-- `str(value or "")`, where `render` is `str` for a value that is not a text
unfoldable pub text_or_empty : (Value → String) → Value → String
unfolding truthy
text_or_empty render (Value.str s) = s
text_or_empty render v = if truthy v then render v else ""

-- the guards of `submit_batch`, on the transaction's status, the transaction and the body
unfoldable pub committed : Fields → Value → Result Raised Fields
committed artifact (Value.str s) = if s == "committed" then ok artifact else err (write_failed 200)
committed artifact v = err (write_failed 200)

unfoldable pub transacted : Fields → Value → Result Raised Fields
unfolding committed get
transacted artifact (Value.obj transaction) = committed artifact (get "status" transaction)
transacted artifact v = err (write_failed 200)

unfoldable pub answered : Option Value → Result Raised Fields
unfolding transacted get
answered (some (Value.obj artifact)) = transacted artifact (get "transaction" artifact)
answered body = err (write_failed 200)

unfoldable pub accept : Response → Result Raised Fields
unfolding answered
accept r = if nat_eq r.status_code 200 then answered r.body else err (write_failed r.status_code)

module _ (client : Client) where
  unfoldable pub submit_batch : List Fields → client.Server → Result Raised Fields × client.Server
  unfolding accept
  submit_batch operations s =
      let (answer, t) = client.rest_post operations s in
      (elim answer [ none ↦ err client_failed | some r ↦ accept r ], t)

-- `{"op": "upsert", "kind": kind, "key": {key: slug}, "values": {column: id}}`
abbrev pub upsert : String → String → Value → String → String → Fields
upsert kind key slug column id = field "op" (Value.str "upsert") (
    field "kind" (Value.str kind) (
      field "key" (Value.obj (field key slug end))
        (field "values" (Value.obj (field column (Value.str id) end)) end)))

-- `operations[index]`, if there is one
unfoldable pub nth : ℕ → Items → Option Value
nth n Items.nil = none
nth zero (Items.cons v vs) = some v
nth (suc n) (Items.cons v vs) = nth n vs

module _ (render : Value → String) where
  unfoldable pub action_of : Option Value → Result Raised String
  unfolding get text_or_empty
  action_of (some (Value.obj o)) = ok (text_or_empty render (get "action" o))
  action_of operation = err (write_failed 200)

  -- A text in place of the list has no object either; of another value that is not false, `len` or the
  -- index is taken to fail.
  unfoldable pub action_in : ℕ → Value → Result Raised String
  unfolding nth action_of
  action_in index (Value.arr items) = action_of (nth index items)
  action_in index (Value.str s) = err (write_failed 200)
  action_in index v = if truthy v then err crashed else err (write_failed 200)

  unfoldable pub operation_action : Fields → ℕ → Result Raised String
  unfolding get action_in
  operation_action artifact index = action_in index (get "operations" artifact)

abbrev raised_mutated : Raised → Bool
raised_mutated (ledger code m) = m
raised_mutated (write_failed n) = false
raised_mutated client_failed = false
raised_mutated crashed = false

abbrev code_of : Raised → String
code_of (ledger code m) = code
code_of (write_failed n) = "action_failed"
code_of client_failed = "action_failed"
code_of crashed = "action_failed"

-- `execute_action`, for a handler that has run: the translation of what it raised. A crash is not
-- caught. The error's text is its code.
unfoldable pub execute_action :
    ReconcileAction → Result Raised ActionResult → Result Raised ActionResult
execute_action a (ok r) = ok r
execute_action a (err crashed) = err crashed
execute_action a (err e) = ok record {
  action_id = a.id;
  reconciler_id = a.reconciler_id;
  action_kind = a.action_kind;
  success = false;
  error = some (code_of e);
  mutated = raised_mutated e;
}

-- `actuation_result`
unfoldable pub actuation_result : ReconcileAction → Bool → Option Bool → ActionResult
actuation_result a success mutated = record {
  action_id = a.id;
  reconciler_id = a.reconciler_id;
  action_kind = a.action_kind;
  success = success;
  error = none;
  mutated = elim mutated [ none ↦ success | some m ↦ m ];
}
