-- ===== src/Reconcile/Ledger/ComputeLink/Guarded.antt =====
-- A compute link returns only when both links are confirmed, and what is raised says what was written.
use nctl.Prelude.{
  ℕ, String, Bool, true, false, some, ◌≡◌, refl, ap, ◌⊎◌, inl, inr, Bool-cases, Option-cases,
  nonempty,
}
use mathlib.Core.Path.{subst}
use nctl.Prelude.Value.{Value, Fields}
use nctl.Prelude.Result.{Result, ok, err, Result-cases}
use nctl.Sources.{DesiredSnapshot}
use nctl.Reconcile.Model.{ReconcileAction}
use nctl.Reconcile.Ledger.{
  Raised, ledger, write_failed, client_failed, crashed, Client, submit_batch,
}
use nctl.Reconcile.Ledger.Refusals.{Missing, Omission, Refusal, Raises, submit_batch-Refusal}
use nctl.Reconcile.Ledger.ComputeLink.{
  ComputeLinkResult, ComputeRequest, compute_request, LinkPlan, plan_links, is_committed, writes,
  confirm_links, link_refused, after_batch, apply_links, execute_link_compute_realization,
}
use nctl.Reconcile.Ledger.ComputeLink.Steps.{
  IsLinked, Confirms, compute_request-Missing, plan_links-Missing, confirm_links-Confirms,
  writes-Omission,
}

module _ (client : Client) (render : Value → String) (a : ReconcileAction) (s : client.Server) where
  -- the plan of the snapshot that the first query gave, which refuses a link to anything else
  abbrev pub Planned : ComputeRequest → LinkPlan → Type 0
  Planned q plan =
      (d : DesiredSnapshot) × (compute_request render a ≡ ok q)
      × (client.fetch s ≡ some d)
      × (plan_links d q ≡ ok plan)

  -- the batch of a plan was submitted, and `written` is what the client said
  abbrev pub Submitted : ComputeRequest → LinkPlan → Result Raised Fields → client.Server → Type 0
  Submitted q plan written t =
      Planned q plan × (submit_batch client plan.operations s ≡ (written, t))

  abbrev pub Accepted : ComputeRequest → LinkPlan → client.Server → Bool → Type 0
  Accepted q plan t b =
      (artifact : Fields) × Submitted q plan (ok artifact) t × (is_committed artifact ≡ b)

  -- what stands behind each outcome of the action
  abbrev pub Guarded : Result Raised ComputeLinkResult → client.Server → Type 0
  Guarded (ok r) t =
      (q : ComputeRequest) × (plan : LinkPlan) × IsLinked q (client.fetch t)
      × (((t ≡ s) × Planned q plan) ⊎ ((b : Bool) × Accepted q plan t b))
  Guarded (err (ledger code true)) t =
      (q : ComputeRequest) × (plan : LinkPlan) × Accepted q plan t true
  Guarded (err (ledger code false)) t =
      (t ≡ s)
      ⊎ ((q : ComputeRequest) × (plan : LinkPlan) × (((n : ℕ) × Submitted q plan
                (err (write_failed n)) t)
            ⊎ Accepted q plan t false))
  Guarded (err (write_failed n)) t =
      (q : ComputeRequest) × (plan : LinkPlan) × (b : Bool) × Accepted q plan t b
  Guarded (err client_failed) t =
      (t ≡ s) ⊎ ((q : ComputeRequest) × (plan : LinkPlan) × Submitted q plan (err client_failed) t)
  Guarded (err crashed) t =
      (t ≡ s) ⊎ ((q : ComputeRequest) × (plan : LinkPlan) × (b : Bool) × Accepted q plan t b)

  abbrev pub IsGuarded : Result Raised ComputeLinkResult × client.Server → Type 0
  IsGuarded (r, t) = Guarded r t

  module _ (q : ComputeRequest) (plan : LinkPlan) where
    settled :
        (r : Result Raised ComputeLinkResult)
        → Planned q plan
        → Confirms false q (client.fetch s) r
        → Guarded r s
    settled (ok r) h c = (q, plan, c, inl (refl, h))
    settled (err (ledger code true)) h c = absurd (cc c)
    settled (err (ledger code false)) h c = inl refl
    settled (err (write_failed n)) h c = absurd c
    settled (err client_failed) h c = inl refl
    settled (err crashed) h c = inl refl

    accepted :
        (b : Bool) (t : client.Server) (r : Result Raised ComputeLinkResult)
        → Accepted q plan t b
        → Confirms b q (client.fetch t) r
        → Guarded r t
    accepted b t (ok r) h c = (q, plan, c, inr (b, h))
    accepted b t (err (ledger code true)) h c = (q, plan, subst (Accepted q plan t) c h)
    accepted b t (err (ledger code false)) h c = inr (q, plan, inr (subst (Accepted q plan t) c h))
    accepted b t (err (write_failed n)) h c = absurd c
    accepted b t (err client_failed) h c = absurd c
    accepted b t (err crashed) h c = inr (q, plan, b, h)

    omitted :
        (b : Bool) (t : client.Server) (e : Raised)
        → Accepted q plan t b
        → Omission e
        → Guarded (err e) t
    omitted b t (ledger code m) h o = absurd o
    omitted b t (write_failed n) h o = (q, plan, b, h)
    omitted b t client_failed h o = absurd o
    omitted b t crashed h o = inr (q, plan, b, h)

    not_written :
        (t : client.Server) (e : Raised)
        → Submitted q plan (err e) t
        → Refusal e
        → Guarded (err (link_refused e)) t
    not_written t (ledger code m) h o = absurd o
    not_written t (write_failed n) h o = inr (q, plan, inl (n, h))
    not_written t client_failed h o = inr (q, plan, h)
    not_written t crashed h o = absurd o

    after_batch-Guarded :
        (artifact : Fields) (t : client.Server)
        → Submitted q plan (ok artifact) t
        → Guarded (after_batch client render a q plan artifact t) t
    unfolding after_batch
    after_batch-Guarded artifact t h = elim (Result-cases (writes render plan artifact)) [
      | inl (e, f) ↦
          rw (after_batch, f)
            (omitted (is_committed artifact) t e (artifact, h, refl)
              (subst (Raises Omission) f (writes-Omission render plan artifact)))
      | inr (w, f) ↦
          rw (after_batch, f)
            (accepted (is_committed artifact) t
              (confirm_links a.targets q (is_committed artifact) w (client.fetch t)
                (client.fetch t))
              (artifact, h, refl)
              (confirm_links-Confirms (is_committed artifact) a.targets q w (client.fetch t)))
    ]

    apply_links-Guarded : Planned q plan → IsGuarded (apply_links client render a q plan s)
    unfolding apply_links
    apply_links-Guarded h =
        let sent = submit_batch client plan.operations s in
        elim (Bool-cases (nonempty plan.operations)) [
          | inr idle ↦
              rw (apply_links, idle)
                (settled
                  (confirm_links a.targets q false ("already_correct", "already_correct")
                    (client.fetch s) (client.fetch s))
                  h
                  (confirm_links-Confirms false a.targets q ("already_correct", "already_correct")
                    (client.fetch s)))
          | inl busy ↦ elim (Result-cases sent.0) [
            | inl (e, f) ↦
                rw (apply_links, busy, f)
                  (not_written sent.1 e (h, ap (λ r. (r, sent.1)) f)
                    (subst (Raises Refusal) f (submit_batch-Refusal client plan.operations s)))
            | inr (artifact, f) ↦
                rw (apply_links, busy, f)
                  (after_batch-Guarded artifact sent.1 (h, ap (λ r. (r, sent.1)) f))
          ]
        ]

  -- Whatever the server does, execute_link_compute_realization returns only if a query after its batch,
  -- or without a batch the query at the start, shows the platform and the instance linked to the pinned
  -- objects, and it submits only what was planned from the first query. A ledger error marked as
  -- mutated comes after a batch that was accepted as committed; one without the mark leaves the server as
  -- it was, or comes after the client refused the batch or its artifact did not say that it was
  -- committed. A DesiredWriteError that gets through comes after a batch that was accepted, committed or
  -- not; a failed client leaves the server as it was or failed in the batch; and after any other exception the
  -- server is as it was or a batch was accepted, committed or not.
  pub execute_link_compute_realization-Guarded :
      IsGuarded (execute_link_compute_realization client render a s)
  unfolding execute_link_compute_realization
  execute_link_compute_realization-Guarded = elim (Result-cases (compute_request render a)) [
    | inl (e, h) ↦
        let (code, missing) = subst (Raises Missing) h (compute_request-Missing render a) in
        rw (execute_link_compute_realization, h, missing, IsGuarded) (inl refl)
    | inr (q, h) ↦ elim (Option-cases (client.fetch s)) [
      | inl f ↦ rw (execute_link_compute_realization, h, f, IsGuarded) (inl refl)
      | inr (d, f) ↦ elim (Result-cases (plan_links d q)) [
        | inl (e, p) ↦
            let (code, missing) = subst (Raises Missing) p (plan_links-Missing d q) in
            rw (execute_link_compute_realization, h, f, p, missing, IsGuarded) (inl refl)
        | inr (plan, p) ↦
            rw (execute_link_compute_realization, h, f, p) (apply_links-Guarded q plan (d, h, f, p))
      ]
    ]
  ]
