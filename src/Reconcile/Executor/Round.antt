-- ===== src/Reconcile/Executor/Round.antt =====
-- `_execute_round` of executor.py.
use nctl.Prelude.{
  ℕ, suc, String, Bool, true, false, not, ◌&&◌, ◌||◌, List, [], ◌∷◌, ◌++◌, map, Option, none, some,
  nonempty, contains, ◌==◌, if◌then◌else◌,
}
use nctl.Prelude.Order.{sorted}
use nctl.Prelude.Value.{bool, end, field, arr, texts, lookup}
use nctl.Prelude.Result.{Result, ok, err}
use nctl.Reconcile.Model.{ReconcileAction, ReconcilePlan}
use nctl.Reconcile.Hosts.{
  EnvelopeError, error_code, SshPreflightEntry, MissingSshHostSlugs, collect_slugs,
  ssh_required_host_slugs, ssh_scan_errors,
}
use nctl.Reconcile.Executor.{
  ActionResult, ExecutedAction, RoundOutcome, bootstrap_actions, service_actions,
  action_had_side_effects, World,
}

-- `action.parameters.get("forced_refresh")`, as a truth value; only `True` is ever stored.
unfoldable pub forced_refresh : ReconcileAction → Bool
unfolding lookup
forced_refresh a = elim (lookup "forced_refresh" a.parameters) [ some (bool b) ↦ b | _ ↦ false ]

-- The locals of `_execute_round`; `calls` numbers the calls of the world, and `started` is what the
-- operation log has as `action_started`.
pub record State : Type 0 where
  pub calls : ℕ
  pub started : List ReconcileAction
  pub actions : List ActionResult
  pub had_side_effects : Bool
  pub ssh_preflight : List SshPreflightEntry

-- Where a block of the function ends: at its last line, in a `return` with terminal errors, or in a
-- `MissingSshHostSlugsError`, which nothing in the executor catches.
pub data Flow : Type 0 where
  go_on : State → Flow
  stop : List EnvelopeError → State → Flow
  crash : MissingSshHostSlugs → State → Flow

abbrev pub and_then : Flow → (State → Flow) → Flow
and_then (go_on s) f = f s
and_then (stop errors s) f = stop errors s
and_then (crash e s) f = crash e s

-- the state in which a block ends
abbrev pub end_state : Flow → State
end_state (go_on s) = s
end_state (stop errors s) = s
end_state (crash e s) = s

abbrev pub with_hosts :
    Result MissingSshHostSlugs (List String) → State → (List String → Flow) → Flow
with_hosts (ok hosts) s f = f hosts
with_hosts (err e) s f = crash e s

unfoldable pub record_result : ActionResult → State → State
record_result r s = record s {
  actions = s.actions ++ r ∷ [];
  had_side_effects = s.had_side_effects || action_had_side_effects r;
}

abbrev pub start : ReconcileAction → State → State
start a s = record s { calls = suc s.calls; started = s.started ++ a ∷ [] }

abbrev pub tick : State → State
tick s = record s { calls = suc s.calls }

abbrev pub post_observation : List String → ReconcileAction
post_observation hosts = record {
  id = "post_actuation_observation";
  reconciler_id = "observe_node";
  action_kind = "observation";
  targets =
      map (λ slug. record { kind = "node"; slug = some slug; name = some slug; id = none }) hosts;
  claimed_diff_codes = [];
  reason = "Post-actuation observation.";
  evidence = end;
  dependencies = [];
  mutates = true;
  requires_observation = false;
  parameters = field "host_slugs" (arr (texts hosts)) end;
}

abbrev pub initial : ℕ → State
initial calls = record {
  calls = calls;
  started = [];
  actions = [];
  had_side_effects = false;
  ssh_preflight = [];
}

abbrev pub needs_observation : ReconcileAction → Bool
needs_observation a = a.requires_observation && not (a.reconciler_id == "observe_node")

-- the hosts of the actions that want an observation after them
unfoldable pub observed_hosts : ReconcilePlan → Result MissingSshHostSlugs (List String)
unfolding collect_slugs
observed_hosts plan = collect_slugs needs_observation plan.actions []

unfoldable pub service_hosts : ReconcilePlan → Result MissingSshHostSlugs (List String)
unfolding ssh_required_host_slugs
service_hosts plan =
    ssh_required_host_slugs (λ id. contains id ("service_profile" ∷ "dnsmasq_config" ∷ []))
      plan.actions

abbrev pub outcome_of : ℕ → ReconcilePlan → List EnvelopeError → State → RoundOutcome
outcome_of round plan errors s = record {
  summary = record {
    round = round;
    drift_fingerprint = plan.drift_fingerprint;
    actions = s.actions;
    ssh_preflight = s.ssh_preflight;
  };
  terminal_errors = errors;
  had_side_effects = s.had_side_effects;
}

pub data RoundResult : Type 0 where
  returned : RoundOutcome → ℕ → RoundResult
  -- ConfigError or NautobotError from the client, before any action
  client_unavailable : ℕ → RoundResult
  crashed : MissingSshHostSlugs → RoundResult

abbrev pub finish_round : ℕ → ReconcilePlan → Flow → RoundResult
finish_round round plan (go_on s) = returned (outcome_of round plan [] s) s.calls
finish_round round plan (stop errors s) = returned (outcome_of round plan errors s) s.calls
finish_round round plan (crash e s) = crashed e

-- after an action: `return` if it has terminal errors
unfoldable pub check_terminal : ExecutedAction → State → Flow
check_terminal executed s =
    if nonempty executed.terminal_errors then stop executed.terminal_errors s else go_on s

-- a `for` loop over actions that a `return` may leave
unfoldable pub run_each : (ReconcileAction → State → Flow) → List ReconcileAction → State → Flow
run_each step [] s = go_on s
run_each step (a ∷ rest) s = and_then (step a s) (run_each step rest)

module _ {Snapshot Context : Type 0} (world : World Snapshot Context) where
  -- execute_action, the append to `summary.actions` and the side-effect flag
  unfoldable pub run_action : ReconcileAction → State → ExecutedAction × State
  unfolding record_result
  run_action a s =
      let executed = world.execute s.calls a in
      (executed, record_result executed.result (start a s))

  unfoldable pub bootstrap_step : ReconcileAction → State → Flow
  unfolding run_action check_terminal forced_refresh
  bootstrap_step a s =
      if world.interrupted s.calls
      then stop (error_code "interrupted" ∷ []) (tick s)
      else let (executed, s') = run_action a (tick s) in
        if (a.reconciler_id == "observe_node") && (forced_refresh a && not executed.result.success)
        then stop (error_code "observation_failed" ∷ []) s'
        else check_terminal executed s'

  unfoldable pub service_step : ReconcileAction → State → Flow
  unfolding run_action check_terminal
  service_step a s =
      if world.interrupted s.calls
      then stop (error_code "interrupted" ∷ []) (tick s)
      else let (executed, s') = run_action a (tick s) in check_terminal executed s'

  -- the scan of the service hosts over the routes of the regenerated inventory
  unfoldable pub scan_services : Context → List String → State → Flow
  scan_services context hosts s =
      if nonempty hosts
      then elim (world.verify_resolved s.calls context hosts) [
        | err e ↦ stop (error_code "ssh_store_read_failed" ∷ []) (tick s)
        | ok verified ↦
            let s' : State = record (tick s) { ssh_preflight = verified } in
            if nonempty (ssh_scan_errors verified)
            then stop (ssh_scan_errors verified) s'
            else go_on s'
      ]
      else go_on s

  unfoldable pub scan_planned : ReconcilePlan → Context → State → Flow
  unfolding scan_services service_hosts
  scan_planned plan context s =
      with_hosts (service_hosts plan) s λ hosts. scan_services context hosts s

  unfoldable pub run_services : ReconcilePlan → Option Context → State → Flow
  unfolding scan_planned service_step run_each
  run_services plan none s =
      if nonempty (service_actions plan.actions)
      then stop (error_code "production_regeneration_unavailable" ∷ []) s
      else go_on s
  run_services plan (some context) s =
      and_then (scan_planned plan context s) (run_each service_step (service_actions plan.actions))

  unfoldable pub regenerate_step : ReconcilePlan → State → Flow
  unfolding record_result run_services
  regenerate_step plan s =
      let (result, context) = world.regenerate s.calls in
      run_services plan context (record_result result (tick s))

  unfoldable pub observe_hosts : List String → State → Flow
  unfolding run_action check_terminal
  observe_hosts hosts s =
      if nonempty hosts
      then (let (executed, s') = run_action (post_observation hosts) s in
          check_terminal executed s')
      else go_on s

  unfoldable pub observe_after : ReconcilePlan → State → Flow
  unfolding observe_hosts observed_hosts
  observe_after plan s = with_hosts (observed_hosts plan) s λ slugs. observe_hosts (sorted slugs) s

  unfoldable pub round_flow : ReconcilePlan → State → Flow
  unfolding bootstrap_step run_each regenerate_step observe_after
  round_flow plan s =
      and_then
        (and_then (run_each bootstrap_step (bootstrap_actions plan.actions) s)
          (regenerate_step plan))
        (observe_after plan)

  unfoldable pub execute_round : ℕ → ReconcilePlan → ℕ → RoundResult
  unfolding round_flow
  execute_round round plan calls =
      if world.open_client calls
      then finish_round round plan (round_flow plan (initial (suc calls)))
      else client_unavailable (suc calls)
