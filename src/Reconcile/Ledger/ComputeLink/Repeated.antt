-- ===== src/Reconcile/Ledger/ComputeLink/Repeated.antt =====
-- A compute link that was made is not made again.
use nctl.Prelude.{String, false, Option, none, some, ◌≡◌, refl, inl, inr, eq_refl, []}
use mathlib.Core.Path.{subst}
use nctl.Prelude.Value.{Value}
use nctl.Prelude.Result.{ok}
use nctl.Sources.{DesiredComputePlatform, DesiredComputeInstance, DesiredSnapshot}
use nctl.Reconcile.Model.{ReconcileAction}
use nctl.Reconcile.Ledger.{Client}
use nctl.Reconcile.Ledger.ComputeLink.{
  ComputeLinkResult, ComputeRequest, compute_request, find_rows, get_compute_rows,
  instance_operations, plan_links, link_result, confirm_links, apply_links,
  execute_link_compute_realization,
}
use nctl.Reconcile.Ledger.ComputeLink.Steps.{IsLinked}
use nctl.Reconcile.Ledger.ComputeLink.Guarded.{IsGuarded, execute_link_compute_realization-Guarded}

plan_links-idle :
    (d : DesiredSnapshot) (q : ComputeRequest) (p : DesiredComputePlatform)
    (i : DesiredComputeInstance)
    → find_rows d q ≡ ok (p, i)
    → p.realized_cluster_id ≡ some q.cluster_id
    → i.realized_vm_id ≡ some q.vm_id
    → plan_links d q ≡ ok record { rows = (p, i); operations = [] }
unfolding plan_links instance_operations
plan_links-idle d q p i f c v = simp (plan_links, f, c, v, eq_refl, instance_operations)

confirm_links-linked :
    (a : ReconcileAction) (q : ComputeRequest) (w : String × String) (o : Option DesiredSnapshot)
    → IsLinked q o
    → confirm_links a.targets q false w o o ≡ link_result a.targets q w
unfolding confirm_links
confirm_links-linked a q w o (p, i, f, c, v) =
    rw (confirm_links, f, c, eq_refl q.cluster_id, f, v, eq_refl q.vm_id) refl

module _ (client : Client) (render : Value → String) (a : ReconcileAction) where
  linked_again :
      (q : ComputeRequest) (o : Option DesiredSnapshot) (t : client.Server)
      → compute_request render a ≡ ok q
      → client.fetch t ≡ o
      → IsLinked q o
      → execute_link_compute_realization client render a t
        ≡ (link_result a.targets q ("already_correct", "already_correct"), t)
  unfolding execute_link_compute_realization apply_links get_compute_rows
  linked_again q none t h f (p, i, rows, c, v) = absurd (cc rows)
  linked_again q (some d) t h f (p, i, rows, c, v) =
      rw
        (
          execute_link_compute_realization,
          h,
          f,
          plan_links-idle d q p i rows c v,
          apply_links,
          f,
          confirm_links-linked a q ("already_correct", "already_correct") (some d)
              (p, i, rows, c, v),
        )
        refl

  -- If execute_link_compute_realization returned, then the same action on the server that it left
  -- changes nothing there: both links are reported as already correct.
  pub execute_link_compute_realization_again :
      (s t : client.Server) (r : ComputeLinkResult)
      → execute_link_compute_realization client render a s ≡ (ok r, t)
      → (q : ComputeRequest) × (compute_request render a ≡ ok q)
        × (execute_link_compute_realization client render a t
            ≡ (link_result a.targets q ("already_correct", "already_correct"), t))
  execute_link_compute_realization_again s t r e = after (
      subst (IsGuarded client render a s) e
        (execute_link_compute_realization-Guarded client render a s))
    where
      after :
          IsGuarded client render a s (ok r, t)
          → (q : ComputeRequest) × (compute_request render a ≡ ok q)
            × (execute_link_compute_realization client render a t
                ≡ (link_result a.targets q ("already_correct", "already_correct"), t))
      after (q, plan, linked, inl (same, (d, h, f, p))) =
          (q, h, linked_again q (client.fetch t) t h refl linked)
      after (q, plan, linked, inr (b, (artifact, ((d, h, f, p), sent), committed))) =
          (q, h, linked_again q (client.fetch t) t h refl linked)
