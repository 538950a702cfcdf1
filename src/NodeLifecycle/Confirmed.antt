-- ===== src/NodeLifecycle/Confirmed.antt =====
-- What a success of `nctl lifecycle` vouches for, whatever the server does.
use nctl.Prelude.{
  String, true, false, contains, ◌≡◌, refl, sym, ap, Bool-cases, inl, inr, ◌==◌, eq_iff,
}
use nctl.Prelude.Result.{Result, ok, err}
use nctl.Sources.{DesiredNode}
use nctl.NodeLifecycle.{
  Failure, LifecycleData, Client, Answer, accepted, rejected, unreachable, lifecycle_states,
  set_node_lifecycle, resolve_node, write, confirm, compared,
}

module _ {W : Type 0} (client : Client W) (slug requested : String) where
  -- a request for the node, made at `w`, answers with one that has the requested state
  abbrev Shows : W → Type 0
  Shows w = (n : DesiredNode) × ((resolve_node client slug w).0 ≡ ok n) × (n.lifecycle ≡ requested)

  -- the answer, and the state in which it was given
  abbrev pub Vouches : W → Result Failure LifecycleData × W → Type 0
  Vouches w (err e, after) = Unit
  Vouches w (ok d, after) =
      (d.requested_state ≡ requested) × (d.current_state ≡ requested) × elim d.changed [
        | false ↦ Shows w × (after ≡ (resolve_node client slug w).1)
        | true ↦
            (n : DesiredNode) × (written : W) × ((resolve_node client slug w).0 ≡ ok n)
            × ((n.lifecycle == requested) ≡ false)
            × (client.submit_lifecycle n.slug requested (resolve_node client slug w).1
                ≡ (accepted, written))
            × Shows written
            × (after ≡ (resolve_node client slug written).1)
      ]

  -- the write that was made for the node that the first request showed
  abbrev Written : W → DesiredNode → W → Type 0
  Written w n written =
      ((resolve_node client slug w).0 ≡ ok n)
      × ((n.lifecycle == requested) ≡ false)
      × (client.submit_lifecycle n.slug requested (resolve_node client slug w).1
          ≡ (accepted, written))

  compared-Vouches :
      (w written : W) (n : DesiredNode)
      → Written w n written
      → Vouches w (compared client n requested (resolve_node client slug written))
  compared-Vouches w written n (shown, stale, sent) = go (resolve_node client slug written) refl
    where
      go :
          (r : Result Failure DesiredNode × W)
          → resolve_node client slug written ≡ r
          → Vouches w (compared client n requested r)
      go (err e, after) q = tt
      go (ok confirmed, after) q = elim (Bool-cases (confirmed.lifecycle == requested)) [
        | inl same ↦
            let state : confirmed.lifecycle ≡ requested =
              (eq_iff confirmed.lifecycle requested).0 same in
            rw (same, Vouches)
              (
                refl,
                state,
                (
                  n,
                  written,
                  shown,
                  stale,
                  sent,
                  (confirmed, ap (λ t. t.0) q, state),
                  sym (ap (λ t. t.1) q),
                ),
              )
        | inr other ↦ rw (other, Vouches) tt
      ]

  confirm-Vouches :
      (w : W) (n : DesiredNode) (answer : Answer × W)
      → (resolve_node client slug w).0 ≡ ok n
      → (n.lifecycle == requested) ≡ false
      → client.submit_lifecycle n.slug requested (resolve_node client slug w).1 ≡ answer
      → Vouches w (confirm client slug n requested answer)
  confirm-Vouches w n (rejected, after) shown stale sent = tt
  confirm-Vouches w n (unreachable, after) shown stale sent = tt
  confirm-Vouches w n (accepted, after) shown stale sent =
      compared-Vouches w after n (shown, stale, sent)

  write-Vouches :
      (w : W) (r : Result Failure DesiredNode × W)
      → resolve_node client slug w ≡ r
      → Vouches w (write client slug requested r)
  write-Vouches w (err e, after) q = tt
  write-Vouches w (ok n, after) q = elim (Bool-cases (n.lifecycle == requested)) [
    | inl same ↦
        let state : n.lifecycle ≡ requested = (eq_iff n.lifecycle requested).0 same in
        rw (same, Vouches) (refl, state, ((n, ap (λ t. t.0) q, state), sym (ap (λ t. t.1) q)))
    | inr other ↦ rw other (
        confirm-Vouches w n (client.submit_lifecycle n.slug requested after) (ap (λ t. t.0) q) other
          (ap (λ t. client.submit_lifecycle n.slug requested t.1) q))
  ]

  -- Whatever the server does, a success of set_node_lifecycle names the requested state as the current one: if
  -- it reports no change, the first request showed the node with that state and was the only one; if it
  -- reports a change, the first request showed the node in another state, the upsert of that node's
  -- lifecycle was submitted next and accepted, and the last request, made on the state that the write
  -- left, showed the node with the requested state.
  pub set_node_lifecycle-Vouches : (w : W) → Vouches w (set_node_lifecycle client slug requested w)
  unfolding set_node_lifecycle
  set_node_lifecycle-Vouches w = elim (Bool-cases (contains requested lifecycle_states)) [
    | inl known ↦ rw known (write-Vouches w (resolve_node client slug w) refl)
    | inr strange ↦ rw strange tt
  ]
