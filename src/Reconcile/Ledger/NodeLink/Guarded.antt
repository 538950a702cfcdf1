-- ===== src/Reconcile/Ledger/NodeLink/Guarded.antt =====
-- A node's link is written only where there is none, and what is raised says whether it was written.
use nctl.Prelude.{
  ℕ, String, true, false, none, some, ◌≡◌, refl, ap, ◌⊎◌, inl, inr, arith, Bool-cases,
}
use nctl.Prelude.Value.{Value, Fields}
use mathlib.Core.Path.{subst}
use nctl.Prelude.Result.{Result, ok, err, Result-cases}
use nctl.Sources.{DesiredNode}
use nctl.Reconcile.Model.{ReconcileAction}
use nctl.Reconcile.Executor.{ActionResult, action_had_side_effects}
use nctl.Reconcile.Ledger.{
  Raised, ledger, write_failed, client_failed, crashed, Client, submit_batch, execute_action,
  actuation_result,
}
use nctl.Reconcile.Ledger.Refusals.{Early, Missing, Refusal, Raises, submit_batch-Refusal}
use nctl.Reconcile.Ledger.NodeLink.Requests.{
  get_desired_node-Missing, link_request-Early, links_to-eq,
}
use nctl.Reconcile.Ledger.NodeLink.{
  LinkActualNodeResult, LinkRequest, link_request, is_set, get_desired_node, link_operations,
  links_to, refused, confirm_link, write_link, link_fetched, execute_link_actual_node,
  node_link_action,
}

module _ (client : Client) (render : Value → String) (a : ReconcileAction) (s : client.Server) where
  -- A batch was submitted for a node that the query had shown to have no link, and `written` is what
  -- the client said.
  abbrev pub Submitted : LinkRequest → Result Raised Fields → client.Server → Type 0
  Submitted q written t =
      (before : DesiredNode) × (link_request render a ≡ ok q)
      × (get_desired_node (client.fetch s) q.node_id q.slug ≡ ok before)
      × (is_set before.realized_device_id ≡ false)
      × (submit_batch client (link_operations q) s ≡ (written, t))

  -- what stands behind each outcome of the action
  abbrev pub Guarded : Result Raised LinkActualNodeResult → client.Server → Type 0
  Guarded (ok r) t =
      (q : LinkRequest) × (artifact : Fields) × (after : DesiredNode) × Submitted q (ok artifact) t
      × (get_desired_node (client.fetch t) q.node_id q.slug ≡ ok after)
      × (after.realized_device_id ≡ some q.candidate_id)
      × (r.candidate_id ≡ q.candidate_id)
  Guarded (err (ledger code true)) t =
      (q : LinkRequest) × (artifact : Fields) × Submitted q (ok artifact) t
  Guarded (err (ledger code false)) t =
      (t ≡ s)
      ⊎ ((q : LinkRequest) × (n : ℕ) × (code ≡ "node_link_write_failed")
          × Submitted q (err (write_failed n)) t)
  Guarded (err (write_failed n)) t = ⊥
  Guarded (err client_failed) t = (q : LinkRequest) × Submitted q (err client_failed) t
  Guarded (err crashed) t = t ≡ s

  unchanged : (e : Raised) → Early e → Guarded (err e) s
  unchanged (ledger code true) h = absurd (cc h)
  unchanged (ledger code false) h = inl refl
  unchanged (write_failed n) h = absurd h
  unchanged client_failed h = absurd h
  unchanged crashed h = refl

  not_written :
      (q : LinkRequest) (e : Raised) (t : client.Server)
      → Refusal e
      → Submitted q (err e) t
      → Guarded (err (refused e)) t
  not_written q (ledger code m) t h w = absurd h
  not_written q (write_failed n) t h w = inr (q, n, refl, w)
  not_written q client_failed t h w = (q, w)
  not_written q crashed t h w = absurd h

  confirmed :
      (q : LinkRequest) (artifact : Fields) (t : client.Server)
      → Submitted q (ok artifact) t
      → Guarded (confirm_link q (client.fetch t)) t
  unfolding confirm_link
  confirmed q artifact t w =
      elim (Result-cases (get_desired_node (client.fetch t) q.node_id q.slug)) [
        | inl (e, f) ↦
            let (code, p) =
              subst (Raises Missing) f
                (get_desired_node-Missing (client.fetch t) q.node_id q.slug) in
            rw (f, p, Guarded) (q, artifact, w)
        | inr (after, f) ↦ elim (Bool-cases (links_to after.realized_device_id q.candidate_id)) [
          | inl m ↦
              rw (f, m, Guarded)
                (
                  q,
                  artifact,
                  after,
                  w,
                  f,
                  links_to-eq after.realized_device_id q.candidate_id m,
                  refl,
                )
          | inr m ↦ rw (f, m, Guarded) (q, artifact, w)
        ]
      ]

  written :
      (q : LinkRequest)
      → link_request render a ≡ ok q
      → (before : DesiredNode) → get_desired_node (client.fetch s) q.node_id q.slug ≡ ok before
      → is_set before.realized_device_id ≡ false
      → Guarded (write_link client render q s).0 (write_link client render q s).1
  unfolding write_link
  written q h before f m =
      let sent = submit_batch client (link_operations q) s in
      elim (Result-cases sent.0) [
        | inl (e, p) ↦ rw p (
            not_written q e sent.1
              (subst (Raises Refusal) p (submit_batch-Refusal client (link_operations q) s))
              (before, h, f, m, ap (λ r. (r, sent.1)) p))
        | inr (artifact, p) ↦
            rw p (confirmed q artifact sent.1 (before, h, f, m, ap (λ r. (r, sent.1)) p))
      ]

  abbrev pub IsGuarded : Result Raised LinkActualNodeResult × client.Server → Type 0
  IsGuarded (r, t) = Guarded r t

  -- Whatever the server does, execute_link_actual_node submits its batch only for a node that a query
  -- has just shown without a link. It returns only if the query after the batch shows the node linked to
  -- the candidate; an error marked as mutated comes after an accepted batch, and one without the mark
  -- leaves the server as it was, unless the client refused the batch.
  pub execute_link_actual_node-Guarded : IsGuarded (execute_link_actual_node client render a s)
  unfolding execute_link_actual_node link_fetched
  execute_link_actual_node-Guarded = elim (Result-cases (link_request render a)) [
    | inl (e, h) ↦
        rw (h, execute_link_actual_node)
          (unchanged e (subst (Raises Early) h (link_request-Early render a)))
    | inr (q, h) ↦ elim (Result-cases (get_desired_node (client.fetch s) q.node_id q.slug)) [
      | inl (e, f) ↦
          let (code, p) =
            subst (Raises Missing) f (get_desired_node-Missing (client.fetch s) q.node_id q.slug) in
          rw (h, execute_link_actual_node, link_fetched, f, p, IsGuarded) (inl refl)
      | inr (before, f) ↦ elim (Bool-cases (is_set before.realized_device_id)) [
        | inl m ↦ rw (h, execute_link_actual_node, link_fetched, f, m, IsGuarded) (inl refl)
        | inr m ↦ rw (h, execute_link_actual_node, link_fetched, f, m) (written q h before f m)
      ]
    ]
  ]

  -- what the dispatch reports of an outcome of the action
  reported : Result Raised LinkActualNodeResult → Result Raised ActionResult
  reported o =
      execute_action a (elim o [ err e ↦ err e | ok r ↦ ok (actuation_result a true none) ])

  quiet :
      (o : Result Raised LinkActualNodeResult) (t : client.Server) (r : ActionResult)
      → Guarded o t
      → reported o ≡ ok r
      → action_had_side_effects r ≡ false
      → (t ≡ s) ⊎ ((q : LinkRequest) × (e : Raised) × Submitted q (err e) t)
  unfolding reported execute_action actuation_result
  quiet (ok linked) t r g h n = absurd (ground arith)
  quiet (err (ledger code true)) t r g h n = absurd (ground arith)
  quiet (err (ledger code false)) t r (inl same) h n = inl same
  quiet (err (ledger code false)) t r (inr (q, c, named, w)) h n = inr (q, write_failed c, w)
  quiet (err (write_failed c)) t r g h n = absurd g
  quiet (err client_failed) t r (q, w) h n = inr (q, client_failed, w)
  quiet (err crashed) t r g h n = inl g

  -- If the action result that the dispatch makes of a node link counts as without side effects, the
  -- server is as it was before the action, or the client refused the one batch that was submitted.
  pub node_link_action_quiet :
      (r : ActionResult) (t : client.Server)
      → node_link_action client render a s ≡ (ok r, t)
      → action_had_side_effects r ≡ false
      → (t ≡ s) ⊎ ((q : LinkRequest) × (e : Raised) × Submitted q (err e) t)
  unfolding node_link_action reported
  node_link_action_quiet r t h n =
      let outcome = execute_link_actual_node client render a s in
      let same : outcome.1 ≡ t = ap (λ p. p.1) h in
      subst (λ u. (u ≡ s) ⊎ ((q : LinkRequest) × (e : Raised) × Submitted q (err e) u)) same
        (quiet outcome.0 outcome.1 r execute_link_actual_node-Guarded (ap (λ p. p.0) h) n)
