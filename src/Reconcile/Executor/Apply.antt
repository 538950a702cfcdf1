-- ===== src/Reconcile/Executor/Apply.antt =====
-- `_run_apply` and `_finish` of executor.py.
use nctl.Prelude.{
  ℕ, zero, suc, String, Bool, true, false, not, ◌&&◌, List, [], ◌∷◌, ◌++◌, map, Option, none, some,
  any, nonempty, contains, select, ◌==◌, nat_eq, if◌then◌else◌,
}
use nctl.Prelude.Order.{sorted}
use nctl.Prelude.Result.{Result, ok, err}
use nctl.Drift.Model.{Target}
use nctl.Reconcile.Model.{
  ReconcilePlan, ReviewRecord, has_blocking_findings, has_global_blocking_findings,
  has_local_blocking_findings,
}
use nctl.Reconcile.Hosts.{
  EnvelopeError, error_code, is_ready, MissingSshHostSlugs, ssh_requiring_reconciler_ids,
  ssh_required_host_slugs, ssh_scan_errors,
}
use nctl.Reconcile.Executor.{
  ActionResult, RoundSummary, RoundOutcome, action_had_side_effects, World,
}
use nctl.Reconcile.Executor.Round.{
  returned, client_unavailable, crashed, forced_refresh, execute_round,
}
use nctl.Reconcile.Executor.Forced.{with_forced_observation}

pub data RunState : Type 0 where
  planned already_converged converged manual_intervention_required non_converged failed : RunState

-- The locals of `_run_apply` and the parts of `ReconcileData` that it fills.
pub record Run (Snapshot : Type 0) : Type 0 where
  pub calls : ℕ
  pub previous_fingerprint : Option String
  pub final_drift : Option Snapshot
  pub final_state_unknown : Bool
  pub plan : Option ReconcilePlan
  pub rounds : List RoundSummary
  pub manual_review : List ReviewRecord
  pub unsupported : List ReviewRecord

-- An iteration goes on to the next one, or ends the loop: with `break`, or with an exception that
-- nothing catches.
pub data Ending (Snapshot : Type 0) : Type 0 where
  break : RunState → List EnvelopeError → Run Snapshot → Ending Snapshot
  crash : MissingSshHostSlugs → Ending Snapshot

pub data Turn (Snapshot : Type 0) : Type 0 where
  again : Run Snapshot → Turn Snapshot
  over : Ending Snapshot → Turn Snapshot

abbrev pub leave :
    {Snapshot : Type 0} → RunState → List EnvelopeError → Run Snapshot → Turn Snapshot
leave state errors r = over (break state errors r)

abbrev abort : {Snapshot : Type 0} → MissingSshHostSlugs → Turn Snapshot
abort e = over (crash e)

pub record Report (Snapshot : Type 0) : Type 0 where
  pub state : RunState
  pub errors : List EnvelopeError
  pub ok : Bool
  pub progress_made : Bool
  pub run : Run Snapshot

-- `_finish`
abbrev pub is_ok : RunState → Bool
is_ok planned = true
is_ok already_converged = true
is_ok converged = true
is_ok manual_intervention_required = false
is_ok non_converged = false
is_ok failed = false

unfoldable pub progress_made : List RoundSummary → Bool
progress_made rounds = any (λ r. any action_had_side_effects r.actions) rounds

abbrev fail : {Snapshot : Type 0} → String → Run Snapshot → Turn Snapshot
fail code r = leave failed (error_code code ∷ []) r

abbrev same_text : Option String → String → Bool
same_text none t = false
same_text (some s) t = t == s

-- the action results of the forced observations that failed
abbrev pub failed_forced : ReconcilePlan → List ActionResult → List ActionResult
failed_forced plan results =
    let forced =
      map (λ a. a.id)
        (select (λ a. (a.reconciler_id == "observe_node") && forced_refresh a) plan.actions) in
    select (λ r. contains r.action_id forced && not r.success) results

-- the exits of an iteration before anything is executed
abbrev pub early_exit : ℕ → Option String → ReconcilePlan → Option (RunState × List EnvelopeError)
early_exit round previous p =
    if not (nonempty p.actions) && not (has_blocking_findings p)
    then some (if nat_eq round 0 then already_converged else converged, [])
    else if has_global_blocking_findings p
    then some (manual_intervention_required, [])
    else if not (nonempty p.actions) && has_local_blocking_findings p
    then some (manual_intervention_required, [])
    else if same_text previous p.drift_fingerprint
    then some (non_converged, error_code "no_progress" ∷ [])
    else none

module _ {Snapshot Context : Type 0} (world : World Snapshot Context) (refresh : Bool) where
  -- after a terminal error: the drift is fetched again if something was done
  unfoldable pub refetch : RoundOutcome → Run Snapshot → Run Snapshot
  refetch o r =
      if o.had_side_effects
      then elim (world.fetch r.calls) [
        | err e ↦ record r { calls = suc r.calls; final_drift = none; final_state_unknown = true }
        | ok s ↦ record r { calls = suc r.calls; final_drift = some s }
      ]
      else r

  unfoldable pub after_round : ℕ → ReconcilePlan → RoundOutcome → Run Snapshot → Turn Snapshot
  unfolding refetch
  after_round round p o r =
      let r' : Run Snapshot = record r { rounds = r.rounds ++ o.summary ∷ [] } in
      if refresh && (nat_eq round 0 && nonempty (failed_forced p o.summary.actions))
      then fail "observation_failed" r'
      else if nonempty o.terminal_errors
      then leave failed o.terminal_errors (refetch o r')
      else again r'

  unfoldable pub execute_turn : ℕ → ReconcilePlan → Run Snapshot → Turn Snapshot
  unfolding after_round
  execute_turn round p r = elim (execute_round world round p r.calls) [
    | client_unavailable calls ↦ fail "reconcile_round_failed" (record r { calls = calls })
    | crashed e ↦ abort e
    | returned o calls ↦ after_round round p o (record r { calls = calls })
  ]

  unfoldable pub scan_turn : ℕ → ReconcilePlan → List String → Run Snapshot → Turn Snapshot
  unfolding execute_turn
  scan_turn round p targets r =
      if nonempty targets
      then elim (world.verify_offered r.calls targets) [
        | err e ↦ fail "ssh_store_read_failed" (record r { calls = suc r.calls })
        | ok verified ↦
            let r' : Run Snapshot = record r { calls = suc r.calls } in
            if nonempty (ssh_scan_errors verified)
            then leave failed (ssh_scan_errors verified) r'
            else execute_turn round p r'
      ]
      else execute_turn round p r

  unfoldable pub enrolled_turn : ℕ → ReconcilePlan → List String → Run Snapshot → Turn Snapshot
  unfolding scan_turn ssh_required_host_slugs
  enrolled_turn round p hosts r = elim (world.check_enrollment r.calls hosts) [
    | err e ↦ fail "ssh_store_read_failed" (record r { calls = suc r.calls })
    | ok entries ↦
        let r' : Run Snapshot = record r { calls = suc r.calls } in
        let unenrolled = select (λ e. not (is_ready e)) entries in
        if nonempty unenrolled
        then leave failed
            (record {
              code = "ssh_host_key_unenrolled";
              hosts = sorted (map (λ e. e.slug) unenrolled);
            }
              ∷ [])
            r'
        else elim (ssh_required_host_slugs (λ id. id == "observe_node") p.actions) [
          | err e ↦ abort e
          | ok targets ↦ scan_turn round p targets r'
        ]
  ]

  -- the SSH gates before a round, and the round
  unfoldable pub gate_turn : ℕ → ReconcilePlan → Run Snapshot → Turn Snapshot
  unfolding enrolled_turn ssh_required_host_slugs
  gate_turn round p r = elim (ssh_required_host_slugs ssh_requiring_reconciler_ids p.actions) [
    | err e ↦ abort e
    | ok hosts ↦ if nonempty hosts then enrolled_turn round p hosts r else execute_turn round p r
  ]

  unfoldable pub decided_turn : ℕ → ReconcilePlan → Run Snapshot → Turn Snapshot
  unfolding gate_turn has_blocking_findings has_global_blocking_findings has_local_blocking_findings
  decided_turn round p r =
      let r' : Run Snapshot = record r {
        plan = some p;
        manual_review = p.manual_review;
        unsupported = p.unsupported;
      } in
      elim (early_exit round r.previous_fingerprint p) [
        | some (state, errors) ↦ leave state errors r'
        | none ↦ gate_turn round p (record r' { previous_fingerprint = some p.drift_fingerprint })
      ]

  unfoldable pub forced_turn : ℕ → Target × String → ReconcilePlan → Run Snapshot → Turn Snapshot
  unfolding decided_turn with_forced_observation
  forced_turn round (node, slug) p r = elim (with_forced_observation node slug p) [
    | err e ↦ fail "forced_observation_scope_violation" (record r { plan = some p })
    | ok q ↦ decided_turn round q r
  ]

  unfoldable pub planned_turn : ℕ → Snapshot → Run Snapshot → Turn Snapshot
  unfolding decided_turn forced_turn
  planned_turn round s r = elim (world.build_plan s) [
    | err e ↦ leave failed (e ∷ []) (record r { plan = none })
    | ok p ↦
        if refresh && nat_eq round 0
        then forced_turn round (world.scope_node s) p r
        else decided_turn round p r
  ]

  -- the body of the `for` loop
  unfoldable pub turn : ℕ → Run Snapshot → Turn Snapshot
  unfolding planned_turn
  turn round r =
      if world.interrupted r.calls
      then fail "interrupted" (record r { calls = suc r.calls })
      else elim (world.fetch (suc r.calls)) [
        | err e ↦ leave failed (e ∷ []) (record r { calls = suc (suc r.calls) })
        | ok s ↦ planned_turn round s (record r { calls = suc (suc r.calls); final_drift = some s })
      ]

  -- the `else` of the loop
  unfoldable pub exhausted : Run Snapshot → Ending Snapshot
  unfolding has_global_blocking_findings has_local_blocking_findings
  exhausted r = elim r.plan [
    | none ↦ break non_converged (error_code "max_rounds_reached" ∷ []) r
    | some p ↦
        if has_local_blocking_findings p && not (has_global_blocking_findings p)
        then break manual_intervention_required [] r
        else break non_converged (error_code "max_rounds_reached" ∷ []) r
  ]

  -- `limit` iterations are left, and `round` is the index of the next one
  unfoldable pub loop : ℕ → ℕ → Run Snapshot → Ending Snapshot
  unfolding turn exhausted
  loop zero round r = exhausted r
  loop (suc limit) round r = elim (turn round r) [
    | again r' ↦ loop limit (suc round) r'
    | over e ↦ e
  ]

  abbrev pub fresh : Run Snapshot
  fresh = record {
    calls = 0;
    previous_fingerprint = none;
    final_drift = none;
    final_state_unknown = false;
    plan = none;
    rounds = [];
    manual_review = [];
    unsupported = [];
  }

  abbrev pub report_of : Ending Snapshot → Result MissingSshHostSlugs (Report Snapshot)
  report_of (break state errors r) = ok (record {
    state = state;
    errors =
        if r.final_state_unknown then errors ++ error_code "final_drift_unknown" ∷ [] else errors;
    ok = is_ok state;
    progress_made = progress_made r.rounds;
    run = r;
  })
  report_of (crash e) = err e

  -- `rounds_limit` is `max_rounds or cfg.reconcile.max_rounds`
  unfoldable pub run_apply : ℕ → Result MissingSshHostSlugs (Report Snapshot)
  unfolding loop progress_made
  run_apply rounds_limit = report_of (loop rounds_limit 0 fresh)
