-- ===== src/Reconcile/Executor/Trace.antt =====
-- The actions that a round starts, against its plan.
use nctl.Prelude.{
  ℕ, suc, String, true, not, ◌&&◌, List, [], ◌∷◌, ◌++◌, append_assoc, append-nil, Option, none,
  some, ◌≡◌, refl, sym, ap, ◌∙◌, nonempty, Bool-cases, inl, inr, if◌then◌else◌, ◌==◌,
}
use nctl.Prelude.Order.{sorted}
use nctl.Prelude.Result.{Result, ok, err, Result-cases}
use nctl.Reconcile.Model.{ReconcileAction, ReconcilePlan}
use nctl.Reconcile.Hosts.{error_code, MissingSshHostSlugs, ssh_scan_errors}
use nctl.Reconcile.Executor.{World, bootstrap_actions, service_actions, ExecutedAction}
use nctl.Reconcile.Executor.Round.{
  State, Flow, end_state, go_on, stop, crash, and_then, with_hosts, record_result, run_each,
  run_action, check_terminal, forced_refresh, bootstrap_step, service_step, scan_services,
  scan_planned, service_hosts, observed_hosts, run_services, regenerate_step, observe_hosts,
  observe_after, round_flow, initial, tick, post_observation,
}

-- the actions are a prefix of the expected ones
abbrev pub IsCut : List ReconcileAction → State → State → Type 0
IsCut expected s t =
    (taken rest : List ReconcileAction) × (expected ≡ taken ++ rest)
    × (t.started ≡ s.started ++ taken)

-- a block starts the expected actions in order: all of them if it goes on, else the first ones
abbrev pub Follows : List ReconcileAction → State → Flow → Type 0
Follows expected s (go_on t) = t.started ≡ s.started ++ expected
Follows expected s (stop errors t) = IsCut expected s t
Follows expected s (crash e t) = IsCut expected s t

IsCut-longer : (xs ys : List ReconcileAction) (s t : State) → IsCut xs s t → IsCut (xs ++ ys) s t
IsCut-longer xs ys s t (taken, rest, split, e) =
    (taken, rest ++ ys, ap (λ zs. zs ++ ys) split ∙ append_assoc taken rest ys, e)

IsCut-later :
    (xs ys : List ReconcileAction) (s t u : State)
    → t.started ≡ s.started ++ xs
    → IsCut ys t u
    → IsCut (xs ++ ys) s u
IsCut-later xs ys s t u first (taken, rest, split, e) = (
  xs ++ taken,
  rest,
  ap (λ zs. xs ++ zs) split ∙ sym (append_assoc xs taken rest),
  e ∙ ap (λ zs. zs ++ taken) first ∙ append_assoc s.started xs taken,
)

Follows-later :
    (xs ys : List ReconcileAction) (s t : State) (f : Flow)
    → t.started ≡ s.started ++ xs
    → Follows ys t f
    → Follows (xs ++ ys) s f
Follows-later xs ys s t (go_on u) first h =
    h ∙ ap (λ zs. zs ++ ys) first ∙ append_assoc s.started xs ys
Follows-later xs ys s t (stop errors u) first h = IsCut-later xs ys s t u first h
Follows-later xs ys s t (crash e u) first h = IsCut-later xs ys s t u first h

and_then-Follows :
    (xs ys : List ReconcileAction) (s : State) (f : Flow) (g : State → Flow)
    → Follows xs s f
    → ((t : State) → Follows ys t (g t))
    → Follows (xs ++ ys) s (and_then f g)
and_then-Follows xs ys s (go_on t) g h k = Follows-later xs ys s t (g t) h (k t)
and_then-Follows xs ys s (stop errors t) g h k = IsCut-longer xs ys s t h
and_then-Follows xs ys s (crash e t) g h k = IsCut-longer xs ys s t h

run_each-Follows :
    (step : ReconcileAction → State → Flow) (actions : List ReconcileAction) (s : State)
    → ((a : ReconcileAction) (t : State) → Follows (a ∷ []) t (step a t))
    → Follows actions s (run_each step actions s)
unfolding run_each
run_each-Follows step [] s k = sym (append-nil s.started)
run_each-Follows step (a ∷ rest) s k =
    and_then-Follows (a ∷ []) rest s (step a s) (run_each step rest) (k a s)
      λ t. run_each-Follows step rest t k

-- nothing more is started
stays : (expected : List ReconcileAction) (s t : State) → t.started ≡ s.started → IsCut expected s t
stays expected s t e = ([], expected, refl, e ∙ sym (append-nil s.started))

checked-Follows :
    (executed : ExecutedAction) (a : ReconcileAction) (s t : State)
    → t.started ≡ s.started ++ a ∷ []
    → Follows (a ∷ []) s (check_terminal executed t)
unfolding check_terminal
checked-Follows executed a s t e = elim (Bool-cases (nonempty executed.terminal_errors)) [
  | inl bad ↦ rw (bad, Follows) (a ∷ [], [], refl, e)
  | inr good ↦ rw (good, Follows) e
]

module _ {Snapshot Context : Type 0} (world : World Snapshot Context) where
  service_step-Follows :
      (a : ReconcileAction) (s : State) → Follows (a ∷ []) s (service_step world a s)
  unfolding service_step run_action record_result
  service_step-Follows a s = elim (Bool-cases (world.interrupted s.calls)) [
    | inl q ↦ rw (q, Follows) (stays (a ∷ []) s (tick s) refl)
    | inr q ↦ rw (q, Follows) (checked-Follows (world.execute (suc s.calls) a) a s _ refl)
  ]

  bootstrap_step-Follows :
      (a : ReconcileAction) (s : State) → Follows (a ∷ []) s (bootstrap_step world a s)
  unfolding bootstrap_step run_action record_result
  bootstrap_step-Follows a s = elim (Bool-cases (world.interrupted s.calls)) [
    | inl q ↦ rw (q, Follows) (stays (a ∷ []) s (tick s) refl)
    | inr q ↦
        elim (Bool-cases (
          (a.reconciler_id == "observe_node")
          && (forced_refresh a && not (world.execute (suc s.calls) a).result.success))) [
            | inl w ↦ rw (q, w, Follows) (a ∷ [], [], refl, refl)
            | inr w ↦
                rw (q, w, Follows) (checked-Follows (world.execute (suc s.calls) a) a s _ refl)
          ]
  ]

  scan_services-Follows :
      (context : Context) (hosts : List String) (s : State)
      → Follows [] s (scan_services world context hosts s)
  unfolding scan_services
  scan_services-Follows context [] s = sym (append-nil s.started)
  scan_services-Follows context (h ∷ hosts) s =
      elim (Result-cases (world.verify_resolved s.calls context (h ∷ hosts))) [
        | inl (e, q) ↦ rw (q, Follows) (stays [] s (tick s) refl)
        | inr (verified, q) ↦ elim (Bool-cases (nonempty (ssh_scan_errors verified))) [
          | inl bad ↦ rw (q, bad, Follows) (stays [] s (tick s) refl)
          | inr good ↦ rw (q, good, Follows) (sym (append-nil s.started))
        ]
      ]

  with_hosts-Follows :
      (r : Result MissingSshHostSlugs (List String)) (expected : List ReconcileAction) (s : State)
      (f : List String → Flow)
      → ((hosts : List String) → r ≡ ok hosts → Follows expected s (f hosts))
      → Follows expected s (with_hosts r s f)
  with_hosts-Follows (ok hosts) expected s f h = h hosts refl
  with_hosts-Follows (err e) expected s f h = stays expected s s refl

  run_services-Follows :
      (plan : ReconcilePlan) (context : Option Context) (s : State)
      → Follows (service_actions plan.actions) s (run_services world plan context s)
  unfolding run_services scan_planned
  run_services-Follows plan (some context) s =
      and_then-Follows [] (service_actions plan.actions) s (scan_planned world plan context s)
        (run_each (service_step world) (service_actions plan.actions))
        (with_hosts-Follows (service_hosts plan) [] s (λ hosts. scan_services world context hosts s)
          λ hosts e. scan_services-Follows context hosts s)
        λ t.
          run_each-Follows (service_step world) (service_actions plan.actions) t
            service_step-Follows
  run_services-Follows plan none s = idle (service_actions plan.actions)
    where
      idle :
          (actions : List ReconcileAction)
          → Follows actions s (
              if nonempty actions
              then stop (error_code "production_regeneration_unavailable" ∷ []) s
              else go_on s)
      idle [] = sym (append-nil s.started)
      idle (a ∷ rest) = stays (a ∷ rest) s s refl

  -- the observation that the plan's actions ask for, if any
  abbrev pub observation_after : Result MissingSshHostSlugs (List String) → List ReconcileAction
  observation_after (err e) = []
  observation_after (ok slugs) =
      if nonempty (sorted slugs) then post_observation (sorted slugs) ∷ [] else []

  observe_hosts-Follows :
      (hosts : List String) (s : State)
      → Follows
          (if nonempty hosts then post_observation hosts ∷ [] else [])
          s
          (observe_hosts world hosts s)
  unfolding observe_hosts run_action record_result
  observe_hosts-Follows [] s = sym (append-nil s.started)
  observe_hosts-Follows (h ∷ hosts) s =
      checked-Follows (world.execute s.calls (post_observation (h ∷ hosts)))
        (post_observation (h ∷ hosts)) s _ refl

  observed-Follows :
      (r : Result MissingSshHostSlugs (List String)) (s : State)
      → Follows
          (observation_after r)
          s
          (with_hosts r s λ slugs. observe_hosts world (sorted slugs) s)
  observed-Follows (err e) s = stays [] s s refl
  observed-Follows (ok slugs) s = observe_hosts-Follows (sorted slugs) s

  regenerate_step-Follows :
      (plan : ReconcilePlan) (s : State)
      → Follows (service_actions plan.actions) s (regenerate_step world plan s)
  unfolding regenerate_step record_result
  regenerate_step-Follows plan s =
      let t = record_result (world.regenerate s.calls).0 (tick s) in
      Follows-later [] (service_actions plan.actions) s t
        (run_services world plan (world.regenerate s.calls).1 t) (sym (append-nil s.started))
        (run_services-Follows plan (world.regenerate s.calls).1 t)

  observe_after-Follows :
      (plan : ReconcilePlan) (s : State)
      → Follows (observation_after (observed_hosts plan)) s (observe_after world plan s)
  unfolding observe_after
  observe_after-Follows plan s = observed-Follows (observed_hosts plan) s

  -- A round starts the bootstrap actions of its plan in their order, then the service actions in theirs,
  -- then the observation that they ask for: all of these if it comes to its end, and the first ones
  -- of them, none out of turn, if it returns early or raises.
  pub round_flow-Follows :
      (plan : ReconcilePlan) (calls : ℕ)
      → Follows
          ((bootstrap_actions plan.actions ++ service_actions plan.actions)
            ++ observation_after (observed_hosts plan))
          (initial calls)
          (round_flow world plan (initial calls))
  unfolding round_flow
  round_flow-Follows plan calls =
      and_then-Follows (bootstrap_actions plan.actions ++ service_actions plan.actions)
        (observation_after (observed_hosts plan)) (initial calls)
        (and_then (run_each (bootstrap_step world) (bootstrap_actions plan.actions) (initial calls))
          (regenerate_step world plan))
        (observe_after world plan)
        (and_then-Follows (bootstrap_actions plan.actions) (service_actions plan.actions)
          (initial calls)
          (run_each (bootstrap_step world) (bootstrap_actions plan.actions) (initial calls))
          (regenerate_step world plan)
          (run_each-Follows (bootstrap_step world) (bootstrap_actions plan.actions) (initial calls)
            bootstrap_step-Follows)
          (regenerate_step-Follows plan))
        (observe_after-Follows plan)

  -- a block that stops before it starts anything
  abbrev Halts : State → Flow → Type 0
  Halts t (go_on u) = ⊥
  Halts t (stop errors u) = u.started ≡ t.started
  Halts t (crash e u) = u.started ≡ t.started

  Halts-end :
      (xs : List ReconcileAction) (s t : State) (f : Flow) (h : State → Flow)
      → t.started ≡ s.started ++ xs
      → Halts t f
      → IsCut xs s (end_state (and_then f h))
  Halts-end xs s t (go_on u) h e x = absurd x
  Halts-end xs s t (stop errors u) h e x = (xs, [], sym (append-nil xs), x ∙ e)
  Halts-end xs s t (crash r u) h e x = (xs, [], sym (append-nil xs), x ∙ e)

  halted :
      (xs : List ReconcileAction) (s : State) (f : Flow) (g h : State → Flow)
      → Follows xs s f
      → ((t : State) → Halts t (g t))
      → IsCut xs s (end_state (and_then (and_then f g) h))
  halted xs s (go_on t) g h e k = Halts-end xs s t (g t) h e (k t)
  halted xs s (stop errors t) g h e k = e
  halted xs s (crash x t) g h e k = e

  regenerate_step-Halts :
      (plan : ReconcilePlan) (t : State)
      → (world.regenerate t.calls).1 ≡ none
      → nonempty (service_actions plan.actions) ≡ true
      → Halts t (regenerate_step world plan t)
  unfolding regenerate_step run_services record_result
  regenerate_step-Halts plan t unavailable some_service = rw (unavailable, some_service, Halts) refl

  -- If the production inventory cannot be regenerated and the plan has a service action, then a round
  -- starts nothing but the first ones of its bootstrap actions: no service action, no observation.
  pub round_flow-unregenerated :
      (plan : ReconcilePlan) (calls : ℕ)
      → ((n : ℕ) → (world.regenerate n).1 ≡ none)
      → nonempty (service_actions plan.actions) ≡ true
      → IsCut
          (bootstrap_actions plan.actions)
          (initial calls)
          (end_state (round_flow world plan (initial calls)))
  unfolding round_flow
  round_flow-unregenerated plan calls unavailable some_service =
      halted (bootstrap_actions plan.actions) (initial calls)
        (run_each (bootstrap_step world) (bootstrap_actions plan.actions) (initial calls))
        (regenerate_step world plan) (observe_after world plan)
        (run_each-Follows (bootstrap_step world) (bootstrap_actions plan.actions) (initial calls)
          bootstrap_step-Follows)
        λ t. regenerate_step-Halts plan t (unavailable t.calls) some_service
