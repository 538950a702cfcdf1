-- ===== src/Reconcile/Executor.antt =====
-- src/nctl_core/reconcile/executor.py: the state of one `nctl reconcile`, and the world that it acts on.
pub mod Round
pub mod Forced
pub mod Apply
pub mod Effects
pub mod Cases
pub mod Turns
pub mod Loop
pub mod Settles
pub mod Trace
mod Examples
use nctl.Prelude.{
  ℕ, suc, ◌+◌, String, Bool, true, false, ◌||◌, List, [], ◌∷◌, ◌++◌, Option, none, some, any,
  contains, select, ◌==◌, if◌then◌else◌,
}
use nctl.Prelude.Result.{Result}
use nctl.Drift.Model.{Target}
use nctl.Reconcile.Model.{ReconcileAction, ReconcilePlan}
use nctl.Reconcile.Hosts.{EnvelopeError, SshPreflightEntry}

-- results.py
pub record ActionResult : Type 0 where
  pub action_id : String
  pub reconciler_id : String
  pub action_kind : String
  pub success : Bool
  pub error : Option String
  pub mutated : Bool

pub record ExecutedAction : Type 0 where
  pub result : ActionResult
  pub terminal_errors : List EnvelopeError

pub record RoundSummary : Type 0 where
  pub round : ℕ
  pub drift_fingerprint : String
  pub actions : List ActionResult
  pub ssh_preflight : List SshPreflightEntry

pub record RoundOutcome : Type 0 where
  pub summary : RoundSummary
  pub terminal_errors : List EnvelopeError
  pub had_side_effects : Bool

-- actions/dispatch.py: the phase of a handler; what has no handler counts as a service action
abbrev pub bootstrap_ids : List String
bootstrap_ids =
    "observe_node" ∷ "link_actual_node" ∷ "link_compute_realization" ∷ "create_compute_instance"
    ∷ "destroy_compute_instance" ∷ "reconcile_ipam" ∷ []

pub data Phase : Type 0 where
  bootstrap service : Phase

unfoldable pub action_phase : String → Phase
action_phase id = if contains id bootstrap_ids then bootstrap else service

abbrev pub is_bootstrap : Phase → Bool
is_bootstrap bootstrap = true
is_bootstrap service = false

abbrev pub is_service : Phase → Bool
is_service bootstrap = false
is_service service = true

unfoldable pub bootstrap_actions : List ReconcileAction → List ReconcileAction
unfolding action_phase
bootstrap_actions = select (λ a. is_bootstrap (action_phase a.reconciler_id))

unfoldable pub service_actions : List ReconcileAction → List ReconcileAction
unfolding action_phase
service_actions = select (λ a. is_service (action_phase a.reconciler_id))

abbrev pub action_had_side_effects : ActionResult → Bool
action_had_side_effects r = r.success || r.mutated

-- What the executor does not decide itself, by the number of the call: each call of one of these is
-- given the next number, so two calls may differ. `Snapshot` is a fetched source snapshot with the
-- drift that was computed from it, `Context` a production render context.
pub record World (Snapshot Context : Type 0) : Type 0 where
  -- fetch_and_compute_drift
  pub fetch : ℕ → Result EnvelopeError Snapshot
  -- _build_plan_or_error, for the scope and the configuration of this operation
  pub build_plan : Snapshot → Result EnvelopeError ReconcilePlan
  -- the desired node of the scope with its slug, for a forced observation
  pub scope_node : Snapshot → Target × String
  -- whether a signal has set the flag
  pub interrupted : ℕ → Bool
  -- the token and the Nautobot client; `none` is a ConfigError
  pub open_client : ℕ → Bool
  -- execute_action: the handler of the action
  pub execute : ℕ → ReconcileAction → ExecutedAction
  -- _regenerate_production_inventory
  pub regenerate : ℕ → ActionResult × Option Context
  -- check_ssh_enrollment, verify_offered_keys, verify_resolved_ssh_targets; `err` is SshStoreReadError
  pub check_enrollment : ℕ → List String → Result String (List SshPreflightEntry)
  pub verify_offered : ℕ → List String → Result String (List SshPreflightEntry)
  pub verify_resolved : ℕ → Context → List String → Result String (List SshPreflightEntry)
