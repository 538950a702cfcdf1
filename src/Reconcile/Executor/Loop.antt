-- ===== src/Reconcile/Executor/Loop.antt =====
-- What `_run_apply` reports: the rounds that it ran, and what stands behind the state that it ends in.
use nctl.Prelude.{ℕ, ◌≤◌, Bool, List, [], ◌∷◌, ◌++◌, length, ◌≡◌, ap, arith, if◌then◌else◌}
use mathlib.Core.Path.{subst}
use nctl.Prelude.Result.{ok, err}
use nctl.Reconcile.Hosts.{EnvelopeError, error_code}
use nctl.Reconcile.Executor.{World}
use nctl.Reconcile.Executor.Turns.{Justified, Concludes}
use nctl.Reconcile.Executor.Apply.{
  RunState, planned, already_converged, converged, manual_intervention_required, non_converged,
  failed, Run, Ending, break, crash, Report, report_of,
}

module _ {Snapshot Context : Type 0} (world : World Snapshot Context) (refresh : Bool) where
  abbrev unknown_errors : Run Snapshot → List EnvelopeError → List EnvelopeError
  unknown_errors r errors =
      if r.final_state_unknown then errors ++ error_code "final_drift_unknown" ∷ [] else errors

  Justified-unknown :
      (limit : ℕ) (state : RunState) (errors : List EnvelopeError) (r : Run Snapshot)
      → Justified world limit state errors r
      → Justified world limit state (unknown_errors r errors) r
  Justified-unknown limit planned errors r j = j
  Justified-unknown limit already_converged errors r (no_error, known, none_yet, j) =
      (ground arith, known, none_yet, j)
  Justified-unknown limit converged errors r (no_error, known, some_round, j) =
      (ground arith, known, some_round, j)
  Justified-unknown limit manual_intervention_required errors r (no_error, known, j) =
      (ground arith, known, j)
  Justified-unknown limit non_converged errors r (known, j) = (known, rw known j)
  Justified-unknown limit failed [] r an_error = absurd (ground arith)
  Justified-unknown limit failed (e ∷ errors) r an_error = ground arith

  reported :
      (n : ℕ) (e : Ending Snapshot) {report : Report Snapshot}
      → Concludes world n n e
      → report_of world refresh e ≡ ok report
      → (length report.run.rounds ≤ n) × Justified world n report.state report.errors report.run
  reported n (break state errors r) {report} (le, j) e =
      subst
        (λ (t : Report Snapshot).
          (length t.run.rounds ≤ n) × Justified world n t.state t.errors t.run)
        (ap (λ x. elim x [ ok t ↦ t | err _ ↦ report ]) e)
        (le, Justified-unknown n state errors r j)
  reported n (crash x) c e = absurd (ground arith)
