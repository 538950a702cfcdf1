-- ===== src/Reconcile/Model.antt =====
-- src/nctl_core/reconcile/model.py: the plan of a reconcile operation.
use nctl.Prelude.{
  String, Bool, ◌||◌, not, List, Option, none, some, any, nonempty, ◌==◌, if◌then◌else◌,
}
use nctl.Prelude.Value.{Fields}
use nctl.Drift.Model.{Target}

pub data Classification : Type 0 where
  automatic observation manual_review unsupported : Classification

pub data ScopeKind : Type 0 where
  cluster host : ScopeKind

pub record PlanScope : Type 0 where
  pub kind : ScopeKind
  pub host_slug : Option String

pub record ReconcileAction : Type 0 where
  pub id : String
  pub reconciler_id : String
  pub action_kind : String
  pub targets : List Target
  pub claimed_diff_codes : List String
  pub reason : String
  pub evidence : Fields
  pub dependencies : List String
  pub mutates : Bool
  pub requires_observation : Bool
  pub parameters : Fields

-- `ManualReviewRecord` and `UnsupportedRecord` have the same fields.
pub record ReviewRecord : Type 0 where
  pub target : Target
  pub code : String
  pub severity : String
  pub message : String
  pub reason : String
  pub evidence : Fields

pub record ReconcilePlan : Type 0 where
  pub scope : PlanScope
  pub drift_fingerprint : String
  pub drift_generated_at : Option String
  pub actions : List ReconcileAction
  pub manual_review : List ReviewRecord
  pub unsupported : List ReviewRecord

unfoldable pub label : PlanScope → String
label s = elim s.kind [
  | cluster ↦ "cluster"
  | host ↦ elim s.host_slug [ none ↦ "cluster" | some h ↦ if h == "" then "cluster" else h ]
]

abbrev is_global : ReviewRecord → Bool
is_global r = r.target.kind == "global"

unfoldable pub has_blocking_findings : ReconcilePlan → Bool
has_blocking_findings p = nonempty p.manual_review || nonempty p.unsupported

unfoldable pub has_global_blocking_findings : ReconcilePlan → Bool
has_global_blocking_findings p = any is_global p.manual_review || any is_global p.unsupported

unfoldable pub has_local_blocking_findings : ReconcilePlan → Bool
has_local_blocking_findings p =
    any (λ r. not (is_global r)) p.manual_review || any (λ r. not (is_global r)) p.unsupported
