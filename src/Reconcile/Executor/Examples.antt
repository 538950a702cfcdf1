-- ===== src/Reconcile/Executor/Examples.antt =====
-- Runs of the executor on a small cluster: one link to make, after which the drift is gone.
use nctl.Prelude.{
  arith, ◌++◌, ℕ, String, true, false, List, [], ◌∷◌, none, some, ◌≡◌, refl, any, length, leb,
  if◌then◌else◌,
}
use nctl.Prelude.Dict
use nctl.Prelude.Order
use nctl.Reconcile.Hosts
use nctl.Reconcile.Registry.{get_reconciler}
use nctl.Reconcile.Reconcilers.{registry}
use nctl.Prelude.Value.{end}
use nctl.Prelude.Result.{ok}
use nctl.Reconcile.Model.{ReconcileAction, ReconcilePlan, cluster, has_blocking_findings}
use nctl.Reconcile.Executor.{
  ActionResult, RoundOutcome, World, action_had_side_effects, bootstrap_actions, service_actions,
}
use nctl.Reconcile.Executor.Round.{execute_round}
use nctl.Reconcile.Executor.Round.{initial, end_state, observed_hosts, round_flow}
use nctl.Reconcile.Executor.Trace.{
  Follows, IsCut, observation_after, round_flow-Follows, round_flow-unregenerated,
}
use nctl.Reconcile.Executor.Apply.{Report, Run, converged, turn, run_apply}
use nctl.Reconcile.Executor.Effects.{execute_round-effects}
use nctl.Reconcile.Executor.Settles.{Turned, run_apply-settles}

abbrev link : ReconcileAction
link = record {
  id = "link_actual_node:a";
  reconciler_id = "link_actual_node";
  action_kind = "ledger_patch";
  targets = record { kind = "node"; slug = some "a"; name = none; id = none } ∷ [];
  claimed_diff_codes = "actual_node_not_linked" ∷ [];
  reason = "";
  evidence = end;
  dependencies = [];
  mutates = true;
  requires_observation = false;
  parameters = end;
}

abbrev plan_of : List ReconcileAction → ReconcilePlan
plan_of actions = record {
  scope = record { kind = cluster; host_slug = none };
  drift_fingerprint = if any (λ a. true) actions then "drifting" else "clean";
  drift_generated_at = none;
  actions = actions;
  manual_review = [];
  unsupported = [];
}

abbrev result_of : String → ActionResult
result_of id = record {
  action_id = id;
  reconciler_id = id;
  action_kind = "ledger_patch";
  success = true;
  error = none;
  mutated = true;
}

-- a snapshot is the number of the fetch, and the link is missing until the second one
abbrev small_cluster : World ℕ ℕ
small_cluster = record {
  fetch = λ n. ok n;
  build_plan = λ s. ok (plan_of (if leb s 1 then link ∷ [] else []));
  scope_node = λ s. (record { kind = "node"; slug = some "a"; name = none; id = none }, "a");
  interrupted = λ n. false;
  open_client = λ n. true;
  execute = λ n a. record { result = result_of a.id; terminal_errors = [] };
  regenerate = λ n. (result_of "regenerate", some n);
  check_enrollment = λ n hosts. ok [];
  verify_offered = λ n hosts. ok [];
  verify_resolved = λ n context hosts. ok [];
}

abbrev first_round : RoundOutcome
first_round = record {
  summary = record {
    round = 0;
    drift_fingerprint = "drifting";
    actions = result_of "link_actual_node:a" ∷ result_of "regenerate" ∷ [];
    ssh_preflight = [];
  };
  terminal_errors = [];
  had_side_effects = true;
}

execute_round-effects_example :
    (true ≡ any action_had_side_effects first_round.summary.actions)
    × (first_round.summary.round ≡ 0)
    × (first_round.summary.drift_fingerprint ≡ "drifting")
unfolding execute_round bootstrap_actions service_actions Order.sorted
execute_round-effects_example =
    execute_round-effects small_cluster 0 (plan_of (link ∷ [])) 2 {o = first_round} {calls' = 6}
      refl

abbrev final_report : Report ℕ
final_report = record {
  state = converged;
  errors = [];
  ok = true;
  progress_made = true;
  run = record {
    calls = 8;
    previous_fingerprint = some "drifting";
    final_drift = some 7;
    final_state_unknown = false;
    plan = some (plan_of []);
    rounds = first_round.summary ∷ [];
    manual_review = [];
    unsupported = [];
  };
}

-- after the first turn
abbrev linked_run : Run ℕ
linked_run = record {
  calls = 6;
  previous_fingerprint = some "drifting";
  final_drift = some 1;
  final_state_unknown = false;
  plan = some (plan_of (link ∷ []));
  rounds = first_round.summary ∷ [];
  manual_review = [];
  unsupported = [];
}

first_turn : Turned small_cluster false 1 linked_run
unfolding turn Hosts.ssh_requiring_reconciler_ids Hosts.connects_over_ssh get_reconciler Dict.get
    registry Dict.put execute_round bootstrap_actions service_actions Order.sorted
first_turn = Turned.carried_on Turned.start refl

run_apply-settles_example :
    (report : Report ℕ) × (run_apply small_cluster false 3 ≡ ok report)
    × (report.ok ≡ true)
    × (report.errors ≡ [])
    × (report.state ≡ converged)
    × (report.run.final_drift ≡ some 7)
    × (length report.run.rounds ≡ 1)
unfolding has_blocking_findings
run_apply-settles_example =
    run_apply-settles small_cluster false 1 3 linked_run 7 (plan_of []) first_turn (omega arith)
      refl (refl, refl, refl, refl, refl)

abbrev deploy : ReconcileAction
deploy = record link {
  id = "deploy";
  reconciler_id = "dnsmasq_config";
  action_kind = "dnsmasq_config";
}

abbrev cut_off_cluster : World ℕ ℕ
cut_off_cluster = record small_cluster { regenerate = λ n. (result_of "regenerate", none) }

round_flow-Follows_example :
    Follows
      ((bootstrap_actions (deploy ∷ link ∷ []) ++ service_actions (deploy ∷ link ∷ []))
        ++ observation_after small_cluster (observed_hosts (plan_of (deploy ∷ link ∷ []))))
      (initial 0)
      (round_flow small_cluster (plan_of (deploy ∷ link ∷ [])) (initial 0))
round_flow-Follows_example = round_flow-Follows small_cluster (plan_of (deploy ∷ link ∷ [])) 0

round_flow-unregenerated_example :
    IsCut
      (bootstrap_actions (deploy ∷ link ∷ []))
      (initial 0)
      (end_state (round_flow cut_off_cluster (plan_of (deploy ∷ link ∷ [])) (initial 0)))
unfolding service_actions
round_flow-unregenerated_example =
    round_flow-unregenerated cut_off_cluster (plan_of (deploy ∷ link ∷ [])) 0 (λ n. refl) refl
