-- ===== src/Reconcile/Executor/Turns.antt =====
-- What one turn of `_run_apply` upholds, and what stands behind each state that a run ends in.
use nctl.Prelude.{
  ℕ, suc, ◌≤◌, String, Bool, true, false, not, ◌&&◌, ◌||◌, List, [], ◌∷◌, ◌++◌, Option, none, some,
  nonempty, length, length-append, ◌≡◌, refl, ◌⊎◌, inl, inr, arith, Bool-cases, Option-cases,
  nat_eq, ◌==◌, select, eq_iff, ◌∙◌,
}
use nctl.Prelude.Result.{ok, Result-cases}
use nctl.Reconcile.Model.{
  ReconcilePlan, has_blocking_findings, has_global_blocking_findings, has_local_blocking_findings,
}
use nctl.Reconcile.Hosts.{
  EnvelopeError, error_code, ssh_scan_errors, is_ready, ssh_required_host_slugs,
  ssh_requiring_reconciler_ids,
}
use nctl.Reconcile.Executor.{RoundOutcome, RoundSummary, World}
use nctl.Reconcile.Executor.Round.{execute_round}
use nctl.Reconcile.Executor.Forced.{with_forced_observation}
use nctl.Reconcile.Executor.Apply.{
  RunState, planned, already_converged, converged, manual_intervention_required, non_converged,
  failed, Run, Ending, break, crash, Turn, again, over, early_exit, refetch, after_round,
  execute_turn, scan_turn, enrolled_turn, gate_turn, decided_turn, forced_turn, planned_turn, turn,
  failed_forced,
}
use nctl.Reconcile.Executor.Cases.{round-cases, with_forced_observation-nonempty}
use nctl.Reconcile.Executor.Effects.{execute_round-effects}

module _ {Snapshot Context : Type 0} (world : World Snapshot Context) where
  -- the last call of the outside world fetched the drift
  abbrev pub IsLastFetch : Run Snapshot → Snapshot → Type 0
  IsLastFetch r s = (c : ℕ) × (r.calls ≡ suc c) × (world.fetch c ≡ ok s) × (r.final_drift ≡ some s)

  -- the drift that was fetched last makes a plan with no action and no finding
  abbrev pub IsSettled : Run Snapshot → Type 0
  IsSettled r =
      (s : Snapshot) × (p : ReconcilePlan) × IsLastFetch r s
      × (r.plan ≡ some p)
      × (world.build_plan s ≡ ok p)
      × (nonempty p.actions ≡ false)
      × (has_blocking_findings p ≡ false)

  -- a plan that is decided on is that of the drift fetched last, or a forced one, which has an action
  abbrev pub Decides : ReconcilePlan → Run Snapshot → Type 0
  Decides p r =
      (s : Snapshot) × IsLastFetch r s × ((world.build_plan s ≡ ok p) ⊎ (nonempty p.actions ≡ true))

  -- the last of the rounds was run for a plan with the fingerprint
  abbrev pub LastRan : Run Snapshot → String → Type 0
  LastRan r fingerprint =
      (earlier : List RoundSummary) × (last : RoundSummary) × (r.rounds ≡ earlier ++ last ∷ [])
      × (last.drift_fingerprint ≡ fingerprint)

  abbrev pub Remembers : Run Snapshot → Option String → Type 0
  Remembers r none = Unit
  Remembers r (some fingerprint) = LastRan r fingerprint

  -- the drift fetched last has the fingerprint that the last round was run for
  abbrev pub IsStuck : Run Snapshot → Type 0
  IsStuck r = (p : ReconcilePlan) × (r.plan ≡ some p) × Decides p r × LastRan r p.drift_fingerprint

  module _ (limit : ℕ) where
    -- a finding of the plan made last needs a person: the plan of the drift fetched last, or, after every
    -- round allowed, that of the last of them
    abbrev pub NeedsPerson : Run Snapshot → Type 0
    NeedsPerson r =
        (p : ReconcilePlan) × (r.plan ≡ some p)
        × ((has_global_blocking_findings p || has_local_blocking_findings p) ≡ true)
        × (Decides p r ⊎ (length r.rounds ≡ limit))

    -- what stands behind each state that a run ends in
    abbrev pub Justified : RunState → List EnvelopeError → Run Snapshot → Type 0
    Justified planned errors r = ⊥
    Justified already_converged errors r =
        (errors ≡ []) × (r.final_state_unknown ≡ false) × (length r.rounds ≡ 0) × IsSettled r
    Justified converged errors r =
        (errors ≡ []) × (r.final_state_unknown ≡ false) × (1 ≤ length r.rounds) × IsSettled r
    Justified manual_intervention_required errors r =
        (errors ≡ []) × (r.final_state_unknown ≡ false) × NeedsPerson r
    Justified non_converged errors r =
        (r.final_state_unknown ≡ false)
        × (((errors ≡ error_code "no_progress" ∷ []) × IsStuck r)
            ⊎ ((errors ≡ error_code "max_rounds_reached" ∷ []) × (length r.rounds ≡ limit)))
    Justified failed errors r = nonempty errors ≡ true

    abbrev pub Concludes : ℕ → Ending Snapshot → Type 0
    Concludes n (break state errors r) = (length r.rounds ≤ n) × Justified state errors r
    Concludes n (crash e) = Unit

  abbrev pub IsFine : ℕ → Run Snapshot → Type 0
  IsFine n r =
      (r.final_state_unknown ≡ false) × (length r.rounds ≡ n) × Remembers r r.previous_fingerprint

  -- the plan is about to be executed
  abbrev IsReady : ℕ → ReconcilePlan → Run Snapshot → Type 0
  IsReady n p r =
      (r.final_state_unknown ≡ false)
      × (length r.rounds ≡ n)
      × (r.previous_fingerprint ≡ some p.drift_fingerprint)

  abbrev pub Upholds : ℕ → ℕ → Turn Snapshot → Type 0
  Upholds limit round (again r) = IsFine (suc round) r
  Upholds limit round (over e) = Concludes limit (suc round) e

  module _ (refresh : Bool) (limit : ℕ) where
    refetch-rounds :
        (o : RoundOutcome) (r : Run Snapshot) → (refetch world refresh o r).rounds ≡ r.rounds
    unfolding refetch
    refetch-rounds o r = ground arith

    after_round-Upholds :
        (round : ℕ) (p : ReconcilePlan) (o : RoundOutcome) (r : Run Snapshot)
        → o.summary.drift_fingerprint ≡ p.drift_fingerprint
        → IsReady round p r
        → Upholds limit round (after_round world refresh round p o r)
    unfolding after_round
    after_round-Upholds round p o r mine (known, count, fingerprint) =
        let r' : Run Snapshot = record r { rounds = r.rounds ++ o.summary ∷ [] } in
        let counted : length r'.rounds ≡ suc round =
          length-append r.rounds (o.summary ∷ []) ∙ omega arith in
        elim (Bool-cases
          (refresh && (nat_eq round 0 && nonempty (failed_forced p o.summary.actions)))) [
            | inl forced ↦ rw (forced, Upholds) (omega arith, refl)
            | inr free ↦ elim (Bool-cases (nonempty o.terminal_errors)) [
              | inl ended ↦ rw (free, ended, Upholds, refetch-rounds o r') (omega arith, ended)
              | inr goes_on ↦
                  rw (free, goes_on, Upholds, fingerprint, Remembers)
                    (known, counted, (r.rounds, o.summary, refl, mine))
            ]
          ]

    execute_turn-Upholds :
        (round : ℕ) (p : ReconcilePlan) (r : Run Snapshot)
        → IsReady round p r
        → Upholds limit round (execute_turn world refresh round p r)
    unfolding execute_turn
    execute_turn-Upholds round p r (known, count, fingerprint) =
        elim (round-cases (execute_round world round p r.calls)) [
          | inl (calls, q) ↦ rw (q, Upholds) (omega arith, refl)
          | inr (inl (e, q)) ↦ rw (q, Upholds) tt
          | inr (inr (o, calls, q)) ↦
              rw (q, Upholds)
                (after_round-Upholds round p o (record r { calls = calls })
                  (execute_round-effects world round p r.calls q).2 (known, count, fingerprint))
        ]

    scan_turn-Upholds :
        (round : ℕ) (p : ReconcilePlan) (targets : List String) (r : Run Snapshot)
        → IsReady round p r
        → Upholds limit round (scan_turn world refresh round p targets r)
    unfolding scan_turn
    scan_turn-Upholds round p [] r h = execute_turn-Upholds round p r h
    scan_turn-Upholds round p (t ∷ targets) r (known, count, fingerprint) =
        elim (Result-cases (world.verify_offered r.calls (t ∷ targets))) [
          | inl (e, q) ↦ rw q (omega arith, refl)
          | inr (verified, q) ↦ elim (Bool-cases (nonempty (ssh_scan_errors verified))) [
            | inl some_error ↦ rw (q, some_error) (omega arith, some_error)
            | inr no_error ↦
                rw (q, no_error)
                  (execute_turn-Upholds round p (record r { calls = suc r.calls })
                    (known, count, fingerprint))
          ]
        ]

    enrolled_turn-Upholds :
        (round : ℕ) (p : ReconcilePlan) (hosts : List String) (r : Run Snapshot)
        → IsReady round p r
        → Upholds limit round (enrolled_turn world refresh round p hosts r)
    unfolding enrolled_turn
    enrolled_turn-Upholds round p hosts r (known, count, fingerprint) =
        elim (Result-cases (world.check_enrollment r.calls hosts)) [
          | inl (e, q) ↦ rw (q, Upholds) (omega arith, refl)
          | inr (entries, q) ↦
              elim (Bool-cases (nonempty (select (λ e. not (is_ready e)) entries))) [
                | inl missing ↦ rw (q, missing, Upholds) (omega arith, refl)
                | inr enrolled ↦
                    elim (Result-cases
                      (ssh_required_host_slugs (λ id. id == "observe_node") p.actions)) [
                        | inl (e, w) ↦ rw (q, enrolled, w, Upholds) tt
                        | inr (targets, w) ↦
                            rw (q, enrolled, w, Upholds)
                              (scan_turn-Upholds round p targets (record r { calls = suc r.calls })
                                (known, count, fingerprint))
                      ]
              ]
        ]

    gate_turn-Upholds :
        (round : ℕ) (p : ReconcilePlan) (r : Run Snapshot)
        → IsReady round p r
        → Upholds limit round (gate_turn world refresh round p r)
    unfolding gate_turn
    gate_turn-Upholds round p r h =
        elim (Result-cases (ssh_required_host_slugs ssh_requiring_reconciler_ids p.actions)) [
          | inl (e, q) ↦ rw (q, Upholds) tt
          | inr ([], q) ↦ rw (q, Upholds) (execute_turn-Upholds round p r h)
          | inr (x ∷ hosts, q) ↦ rw (q, Upholds) (enrolled_turn-Upholds round p (x ∷ hosts) r h)
        ]

    exit-Justified :
        (round : ℕ) (previous : Option String) (p : ReconcilePlan) (r : Run Snapshot)
        (state : RunState) (errors : List EnvelopeError)
        → early_exit round previous p ≡ some (state, errors)
        → r.plan ≡ some p
        → r.final_state_unknown ≡ false
        → length r.rounds ≡ round
        → Remembers r previous
        → Decides p r
        → Justified limit state errors r
    exit-Justified round previous p r planned errors e plan known count ran d =
        absurd (ground arith)
    exit-Justified round previous p r already_converged errors e plan known count ran
          (s, last, made) =
        (
          ground arith,
          known,
          ground arith,
          (s, p, last, plan, ground arith, ground arith, ground arith),
        )
    exit-Justified round previous p r converged errors e plan known count ran (s, last, made) = (
      ground arith,
      known,
      ground arith,
      (s, p, last, plan, ground arith, ground arith, ground arith),
    )
    exit-Justified round previous p r manual_intervention_required errors e plan known count ran d =
        (ground arith, known, (p, plan, ground arith, inl d))
    exit-Justified round none p r non_converged errors e plan known count ran d =
        absurd (ground arith)
    exit-Justified round (some f) p r non_converged errors e plan known count
          (earlier, last, q, mine) d =
        let same : f ≡ p.drift_fingerprint = ground (arith, eq_iff p.drift_fingerprint f) in
        (known, inl (ground arith, (p, plan, d, (earlier, last, q, mine ∙ same))))
    exit-Justified round previous p r failed errors e plan known count ran d = absurd (ground arith)

    decided_turn-Upholds :
        (round : ℕ) (p : ReconcilePlan) (r : Run Snapshot)
        → IsFine round r
        → Decides p r
        → Upholds limit round (decided_turn world refresh round p r)
    unfolding decided_turn
    decided_turn-Upholds round p r (known, count, ran) d =
        elim (Option-cases (early_exit round r.previous_fingerprint p)) [
          | inl go ↦ rw (go, Upholds) (gate_turn-Upholds round p _ (known, count, refl))
          | inr ((state, errors), out) ↦
              rw (out, Upholds)
                (
                  omega arith,
                  exit-Justified round r.previous_fingerprint p _ state errors out refl known count
                      ran d,
                )
        ]

    planned_turn-Upholds :
        (round : ℕ) (s : Snapshot) (r : Run Snapshot)
        → IsFine round r
        → IsLastFetch r s
        → Upholds limit round (planned_turn world refresh round s r)
    unfolding planned_turn forced_turn
    planned_turn-Upholds round s r (known, count, ran) last =
        elim (Result-cases (world.build_plan s)) [
          | inl (e, q) ↦ rw (q, Upholds) (omega arith, refl)
          | inr (p, q) ↦ elim (Bool-cases (refresh && nat_eq round 0)) [
            | inr free ↦
                rw (q, free, Upholds)
                  (decided_turn-Upholds round p r (known, count, ran) (s, last, inl q))
            | inl forces ↦
                let (node, slug) = world.scope_node s in
                elim (Result-cases
                  (with_forced_observation (world.scope_node s).0 (world.scope_node s).1 p)) [
                    | inl (e, w) ↦ rw (q, forces, w, Upholds) (omega arith, refl)
                    | inr (f, w) ↦
                        rw (q, forces, w, Upholds)
                          (decided_turn-Upholds round f r (known, count, ran)
                            (
                              s,
                              last,
                              inr (
                                  with_forced_observation-nonempty (world.scope_node s).0
                                    (world.scope_node s).1 p w),
                            ))
                  ]
          ]
        ]

    pub turn-Upholds :
        (round : ℕ) (r : Run Snapshot)
        → IsFine round r
        → Upholds limit round (turn world refresh round r)
    unfolding turn
    turn-Upholds round r (known, count, ran) = elim (Bool-cases (world.interrupted r.calls)) [
      | inl q ↦ rw (q, Upholds) (omega arith, refl)
      | inr q ↦ elim (Result-cases (world.fetch (suc r.calls))) [
        | inl (e, w) ↦ rw (q, w, Upholds) (omega arith, refl)
        | inr (s, w) ↦
            rw (q, w, Upholds)
              (planned_turn-Upholds round s
                (record r { calls = suc (suc r.calls); final_drift = some s }) (known, count, ran)
                (suc r.calls, refl, w, refl))
      ]
    ]
