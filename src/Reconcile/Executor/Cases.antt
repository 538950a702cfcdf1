-- ===== src/Reconcile/Executor/Cases.antt =====
-- How a forced observation and a round can end.
use nctl.Prelude.{
  ℕ, String, true, List, [], ◌∷◌, Option, none, some, nonempty, ◌≡◌, refl, ◌⊎◌, inl, inr, arith,
}
use nctl.Prelude.Result.{Result, ok, err}
use nctl.Drift.Model.{Target}
use nctl.Reconcile.Model.{ReconcileAction, ReconcilePlan}
use nctl.Reconcile.Hosts.{MissingSshHostSlugs}
use nctl.Reconcile.Executor.{RoundOutcome}
use nctl.Reconcile.Executor.Round.{RoundResult, returned, client_unavailable, crashed}
use nctl.Reconcile.Executor.Forced.{ScopeViolation, force_first, with_forced_observation}

force_first-nonempty :
    (slug : String) (actions : List ReconcileAction) {forced : List ReconcileAction}
    → force_first slug actions ≡ ok (some forced)
    → nonempty forced ≡ true
unfolding force_first
force_first-nonempty slug [] e = absurd (ground arith)
force_first-nonempty slug (a ∷ rest) e = ground arith

forced-cases :
    (r : Result ScopeViolation (Option (List ReconcileAction)))
    → ((x : ScopeViolation) × (r ≡ err x))
      ⊎ ((r ≡ ok none) ⊎ ((actions : List ReconcileAction) × (r ≡ ok (some actions))))
forced-cases (err x) = inl (x, refl)
forced-cases (ok none) = inr (inl refl)
forced-cases (ok (some actions)) = inr (inr (actions, refl))

pub with_forced_observation-nonempty :
    (node : Target) (slug : String) (plan : ReconcilePlan) {q : ReconcilePlan}
    → with_forced_observation node slug plan ≡ ok q
    → nonempty q.actions ≡ true
unfolding with_forced_observation
with_forced_observation-nonempty node slug plan e =
    elim (forced-cases (force_first slug plan.actions)) [
      | inl (x, q) ↦ absurd (ground arith)
      | inr (inl q) ↦ ground arith
      | inr (inr (actions, q)) ↦ let h = force_first-nonempty slug plan.actions q in ground arith
    ]

pub round-cases :
    (x : RoundResult)
    → ((calls : ℕ) × (x ≡ client_unavailable calls))
      ⊎ (((e : MissingSshHostSlugs) × (x ≡ crashed e))
          ⊎ ((o : RoundOutcome) × (calls : ℕ) × (x ≡ returned o calls)))
round-cases (client_unavailable calls) = inl (calls, refl)
round-cases (crashed e) = inr (inl (e, refl))
round-cases (returned o calls) = inr (inr (o, calls, refl))
