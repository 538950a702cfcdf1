-- ===== src/Reconcile/Executor/Effects.antt =====
-- What `_execute_round` reports as side effects is what its action results show.
use nctl.Prelude.{
  ℕ, suc, String, Bool, ◌||◌, List, [], ◌∷◌, ◌++◌, Option, none, some, ◌≡◌, refl, any, arith,
  Bool-cases, inl, inr,
}
use nctl.Prelude.Order.{sorted}
use nctl.Prelude.Result.{Result, ok, err}
use nctl.Reconcile.Model.{ReconcileAction, ReconcilePlan}
use nctl.Reconcile.Executor.{
  ActionResult, RoundOutcome, action_had_side_effects, World, bootstrap_actions, service_actions,
}
use nctl.Reconcile.Executor.Round.{
  State, Flow, go_on, stop, crash, and_then, end_state, with_hosts, record_result, run_each,
  bootstrap_step, service_step, scan_services, scan_planned, service_hosts, observed_hosts,
  run_services, regenerate_step, observe_hosts, observe_after, round_flow, initial, tick,
  post_observation, returned, finish_round, execute_round,
}

abbrev IsCounted : State → Type 0
IsCounted s = s.had_side_effects ≡ any action_had_side_effects s.actions

any-append {ℓ} :
    {A : Type ℓ} (p : A → Bool) (xs ys : List A) → any p (xs ++ ys) ≡ (any p xs || any p ys)
any-append p [] ys = refl
any-append p (x ∷ xs) ys = ground (arith, any-append p xs ys)

abbrev Counts : Flow → Type 0
Counts f = IsCounted (end_state f)

and_then-Counts :
    (f : Flow) (g : State → Flow)
    → Counts f
    → ((s : State) → IsCounted s → Counts (g s))
    → Counts (and_then f g)
and_then-Counts (go_on s) g h k = k s h
and_then-Counts (stop errors s) g h k = h
and_then-Counts (crash e s) g h k = h

with_hosts-Counts :
    (r : Result _ (List String)) (s : State) (f : List String → Flow)
    → IsCounted s
    → ((hosts : List String) → Counts (f hosts))
    → Counts (with_hosts r s f)
with_hosts-Counts (ok hosts) s f h k = k hosts
with_hosts-Counts (err e) s f h k = h

record_result-IsCounted :
    (r : ActionResult) (s : State) → IsCounted s → IsCounted (record_result r s)
unfolding record_result
record_result-IsCounted r s h =
    ground (arith, any-append action_had_side_effects s.actions (r ∷ []))

run_each-Counts :
    (step : ReconcileAction → State → Flow) (actions : List ReconcileAction) (s : State)
    → ((a : ReconcileAction) (t : State) → IsCounted t → Counts (step a t))
    → IsCounted s
    → Counts (run_each step actions s)
unfolding run_each
run_each-Counts step [] s k h = h
run_each-Counts step (a ∷ rest) s k h =
    and_then-Counts (step a s) (run_each step rest) (k a s h)
      λ t ht. run_each-Counts step rest t k ht

returned-counted :
    (round : ℕ) (plan : ReconcilePlan) (f : Flow) {o : RoundOutcome} {calls : ℕ}
    → Counts f
    → finish_round round plan f ≡ returned o calls
    → (o.had_side_effects ≡ any action_had_side_effects o.summary.actions)
      × (o.summary.round ≡ round)
      × (o.summary.drift_fingerprint ≡ plan.drift_fingerprint)
returned-counted round plan (go_on s) h e = ground arith
returned-counted round plan (stop errors s) h e = ground arith
returned-counted round plan (crash x s) h e = absurd (ground arith)

module _ {Snapshot Context : Type 0} (world : World Snapshot Context) where
  bootstrap_step-Counts :
      (a : ReconcileAction) (s : State) → IsCounted s → Counts (bootstrap_step world a s)
  unfolding bootstrap_step record_result
  bootstrap_step-Counts a s h = ground (
    arith,
    any-append action_had_side_effects s.actions ((world.execute (suc s.calls) a).result ∷ []),
  )

  service_step-Counts :
      (a : ReconcileAction) (s : State) → IsCounted s → Counts (service_step world a s)
  unfolding service_step record_result
  service_step-Counts a s h = ground (
    arith,
    any-append action_had_side_effects s.actions ((world.execute (suc s.calls) a).result ∷ []),
  )

  scan_services-Counts :
      (context : Context) (hosts : List String) (s : State)
      → IsCounted s
      → Counts (scan_services world context hosts s)
  unfolding scan_services
  scan_services-Counts context hosts s h = ground arith

  observe_hosts-Counts :
      (hosts : List String) (s : State) → IsCounted s → Counts (observe_hosts world hosts s)
  unfolding observe_hosts record_result
  observe_hosts-Counts hosts s h = ground (
    arith,
    any-append action_had_side_effects s.actions
        ((world.execute s.calls (post_observation hosts)).result ∷ []),
  )

  scan_planned-Counts :
      (plan : ReconcilePlan) (context : Context) (s : State)
      → IsCounted s
      → Counts (scan_planned world plan context s)
  unfolding scan_planned
  scan_planned-Counts plan context s h =
      with_hosts-Counts (service_hosts plan) s (λ hosts. scan_services world context hosts s) h
        λ hosts. scan_services-Counts context hosts s h

  run_services-Counts :
      (plan : ReconcilePlan) (context : Option Context) (s : State)
      → IsCounted s
      → Counts (run_services world plan context s)
  unfolding run_services
  run_services-Counts plan none s h = ground arith
  run_services-Counts plan (some context) s h =
      and_then-Counts (scan_planned world plan context s)
        (run_each (service_step world) (service_actions plan.actions))
        (scan_planned-Counts plan context s h)
        λ t ht.
          run_each-Counts (service_step world) (service_actions plan.actions) t service_step-Counts
            ht

  regenerate_step-Counts :
      (plan : ReconcilePlan) (s : State) → IsCounted s → Counts (regenerate_step world plan s)
  unfolding regenerate_step
  regenerate_step-Counts plan s h =
      run_services-Counts plan (world.regenerate s.calls).1
        (record_result (world.regenerate s.calls).0 (tick s))
        (record_result-IsCounted (world.regenerate s.calls).0 (tick s) h)

  observe_after-Counts :
      (plan : ReconcilePlan) (s : State) → IsCounted s → Counts (observe_after world plan s)
  unfolding observe_after
  observe_after-Counts plan s h =
      with_hosts-Counts (observed_hosts plan) s (λ slugs. observe_hosts world (sorted slugs) s) h
        λ slugs. observe_hosts-Counts (sorted slugs) s h

  round_flow-Counts :
      (plan : ReconcilePlan) (s : State) → IsCounted s → Counts (round_flow world plan s)
  unfolding round_flow
  round_flow-Counts plan s h =
      and_then-Counts
        (and_then (run_each (bootstrap_step world) (bootstrap_actions plan.actions) s)
          (regenerate_step world plan))
        (observe_after world plan)
        (and_then-Counts (run_each (bootstrap_step world) (bootstrap_actions plan.actions) s)
          (regenerate_step world plan)
          (run_each-Counts (bootstrap_step world) (bootstrap_actions plan.actions) s
            bootstrap_step-Counts h)
          (regenerate_step-Counts plan))
        (observe_after-Counts plan)

  -- Whatever a round returns, it reports side effects exactly if one of the action results that it
  -- returns succeeded or recorded a mutation, and it reports the round's number and the
  -- fingerprint of the plan that it executed.
  pub execute_round-effects :
      (round : ℕ) (plan : ReconcilePlan) (calls : ℕ) {o : RoundOutcome} {calls' : ℕ}
      → execute_round world round plan calls ≡ returned o calls'
      → (o.had_side_effects ≡ any action_had_side_effects o.summary.actions)
        × (o.summary.round ≡ round)
        × (o.summary.drift_fingerprint ≡ plan.drift_fingerprint)
  unfolding execute_round
  execute_round-effects round plan calls {o} {calls'} e =
      elim (Bool-cases (world.open_client calls)) [
        | inr closed ↦ absurd (ground arith)
        | inl opened ↦
            returned-counted round plan (round_flow world plan (initial (suc calls)))
              (round_flow-Counts plan (initial (suc calls)) refl) (rw opened at e)
      ]
