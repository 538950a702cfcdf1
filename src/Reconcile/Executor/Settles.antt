-- ===== src/Reconcile/Executor/Settles.antt =====
-- A drift that is gone is noticed: `_run_apply` converges at the next turn.
use nctl.Prelude.{
  ℕ, suc, ◌+◌, ◌<◌, ◌-◌, Bool, true, false, ◌&&◌, [], ◌∷◌, ◌++◌, nonempty, ◌≡◌, refl, ap, ◌∙◌,
  arith, nat_eq, if◌then◌else◌, some, length,
}
use mathlib.Core.Path.{subst}
use nctl.Prelude.Result.{ok}
use nctl.Reconcile.Model.{ReconcilePlan, has_blocking_findings}
use nctl.Reconcile.Hosts.{error_code}
use nctl.Reconcile.Executor.{World}
use nctl.Reconcile.Executor.Apply.{
  already_converged, converged, Run, break, again, Report, decided_turn, planned_turn, turn, loop,
  fresh, report_of, run_apply, is_ok, progress_made,
}
use nctl.Reconcile.Executor.Turns.{IsFine, Upholds, turn-Upholds}

module _ {Snapshot Context : Type 0} (world : World Snapshot Context) (refresh : Bool) where
  -- `Turned n r`: n turns were carried on, the last of them to `r`
  pub data Turned : ℕ → Run Snapshot → Type 0 where
    start : Turned 0 (fresh world refresh)
    carried_on :
        {n : ℕ} {r next : Run Snapshot}
        → Turned n r
        → turn world refresh n r ≡ again next
        → Turned (suc n) next

  Turned-IsFine : {n : ℕ} {r : Run Snapshot} → Turned n r → IsFine world n r
  Turned-IsFine start = (refl, refl, tt)
  Turned-IsFine (carried_on {n} {r} t e) =
      subst (Upholds world n n) e (turn-Upholds world refresh n n r (Turned-IsFine t))

  -- the loop, after the turns that were carried on
  loop-Turned :
      {n : ℕ} {r : Run Snapshot}
      → Turned n r
      → (left : ℕ)
      → loop world refresh (n + left) 0 (fresh world refresh) ≡ loop world refresh left n r
  unfolding loop
  loop-Turned start left = ap (λ k. loop world refresh k 0 (fresh world refresh)) (omega arith)
  loop-Turned (carried_on {n} {r} {next} t e) left =
      ap (λ k. loop world refresh k 0 (fresh world refresh)) (omega arith)
      ∙ loop-Turned t (suc left)
      ∙ rw (loop, e) refl

  -- the next fetch is answered, and there is nothing to do about it, nor anything in it for a person
  abbrev pub IsSettledAt : Run Snapshot → Snapshot → ReconcilePlan → Type 0
  IsSettledAt r s p =
      (world.interrupted r.calls ≡ false)
      × (world.fetch (suc r.calls) ≡ ok s)
      × (world.build_plan s ≡ ok p)
      × (nonempty p.actions ≡ false)
      × (has_blocking_findings p ≡ false)

  loop-settled :
      (n left : ℕ) (r : Run Snapshot) (s : Snapshot) (p : ReconcilePlan)
      → (refresh && nat_eq n 0) ≡ false
      → IsSettledAt r s p
      → (last : Run Snapshot) × (loop world refresh (suc left) n r
          ≡ break (if nat_eq n 0 then already_converged else converged) [] last)
        × (last.final_state_unknown ≡ r.final_state_unknown)
        × (last.final_drift ≡ some s)
        × (last.rounds ≡ r.rounds)
  unfolding loop turn planned_turn decided_turn
  loop-settled n left r s p unforced (quiet, fetched, planned, idle, fine) = (
    record r {
      calls = suc (suc r.calls);
      final_drift = some s;
      plan = some p;
      manual_review = p.manual_review;
      unsupported = p.unsupported;
    },
    rw (loop, turn, quiet, fetched, planned_turn, planned, unforced, decided_turn, idle, fine) refl,
    refl,
    refl,
    refl,
  )

  is_ok-converged : (b : Bool) → is_ok (if b then already_converged else converged) ≡ true
  is_ok-converged true = refl
  is_ok-converged false = refl

  -- If n turns were carried on, n is below the limit, the operation is not interrupted, the next fetch
  -- gives a drift whose plan has neither an action nor a finding, and no observation is forced there,
  -- then `_run_apply` reports success: without errors, with that drift as the final one, as
  -- `already_converged` if n is 0 and as `converged` otherwise.
  pub run_apply-settles :
      (n limit : ℕ) (r : Run Snapshot) (s : Snapshot) (p : ReconcilePlan)
      → Turned n r
      → n < limit
      → (refresh && nat_eq n 0) ≡ false
      → IsSettledAt r s p
      → (report : Report Snapshot) × (run_apply world refresh limit ≡ ok report)
        × (report.ok ≡ true)
        × (report.errors ≡ [])
        × (report.state ≡ (if nat_eq n 0 then already_converged else converged))
        × (report.run.final_drift ≡ some s)
        × (length report.run.rounds ≡ n)
  unfolding run_apply
  run_apply-settles n limit r s p t below unforced settled =
      let (known, count, ran) = Turned-IsFine t in
      let (last, ended, unknown, drift, rounds) =
        loop-settled n (limit - suc n) r s p unforced settled in
      let whole : loop world refresh limit 0 (fresh world refresh)
          ≡ break (if nat_eq n 0 then already_converged else converged) [] last =
        ap (λ k. loop world refresh k 0 (fresh world refresh)) (omega (arith, below))
        ∙ loop-Turned t (suc (limit - suc n))
        ∙ ended in
      (
        record {
          state = if nat_eq n 0 then already_converged else converged;
          errors =
              if last.final_state_unknown then [] ++ error_code "final_drift_unknown" ∷ [] else [];
          ok = is_ok (if nat_eq n 0 then already_converged else converged);
          progress_made = progress_made last.rounds;
          run = last;
        },
        ap (report_of world refresh) whole,
        is_ok-converged (nat_eq n 0),
        rw (unknown, known) refl,
        refl,
        drift,
        ap length rounds ∙ count,
      )
