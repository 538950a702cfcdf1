-- ===== src/NodeLifecycle/Refines.antt =====
-- `nctl lifecycle` against its intent, with a server that keeps what it is given.
use nctl.Prelude.{
  String, Bool, true, false, List, [], ◌∷◌, Option, none, some, contains, ◌≡◌, refl, ap, ◌∙◌, arith,
  Bool-cases, Option-cases, inl, inr, ◌==◌, eq_iff, if◌then◌else◌,
}
use nctl.Prelude.Result.{Result, ok, err}
use nctl.Sources.{DesiredNode}
use nctl.NodeLifecycle.{
  Failure, LifecycleData, Client, accepted, invalid_lifecycle, unknown_node, lifecycle_states,
  first_node, set_node_lifecycle, unchanged, rewritten, resolve_node, found, write, confirm,
  compared,
}

-- the rows with a lifecycle written to the nodes of a slug
abbrev pub with_lifecycle : String → String → List DesiredNode → List DesiredNode
with_lifecycle slug state [] = []
with_lifecycle slug state (n ∷ rest) =
    let later = with_lifecycle slug state rest in
    if n.slug == slug then record n { lifecycle = state } ∷ later else n ∷ later

abbrev pub intended_write :
    String → List DesiredNode → Option DesiredNode → Result Failure LifecycleData × List DesiredNode
intended_write requested rows none = (err unknown_node, rows)
intended_write requested rows (some n) =
    if n.lifecycle == requested
    then (ok (unchanged n requested), rows)
    else (ok (rewritten n requested requested), with_lifecycle n.slug requested rows)

-- what the command is for: the rows afterwards, and the answer
abbrev pub intended :
    String → String → List DesiredNode → Result Failure LifecycleData × List DesiredNode
intended slug requested rows =
    if contains requested lifecycle_states
    then intended_write requested rows (first_node slug rows)
    else (err invalid_lifecycle, rows)

first_node-slug :
    (slug : String) (rows : List DesiredNode) (n : DesiredNode)
    → first_node slug rows ≡ some n
    → n.slug ≡ slug
unfolding first_node
first_node-slug slug [] n h = cc
first_node-slug slug (m ∷ rest) n h =
    ground (arith, eq_iff m.slug slug, first_node-slug slug rest n)

first_of :
    (m n : DesiredNode) (later : Option DesiredNode) (b : Bool)
    → b ≡ true
    → (if b then some m else later) ≡ some n
    → m ≡ n
first_of m n later true t h = cc
first_of m n later false t h = cc

first_node-with_lifecycle :
    (slug state : String) (rows : List DesiredNode) (n : DesiredNode)
    → first_node slug rows ≡ some n
    → first_node slug (with_lifecycle slug state rows) ≡ some (record n { lifecycle = state })
unfolding first_node
first_node-with_lifecycle slug state [] n h = cc
first_node-with_lifecycle slug state (m ∷ rest) n h = elim (Bool-cases (m.slug == slug)) [
  | inl here ↦
      let same : m ≡ n = first_of m n (first_node slug rest) (m.slug == slug) here h in
      rw here (rw here (ap (λ (k : DesiredNode). some (record k { lifecycle = state })) same))
  | inr later ↦
      let before : first_node slug rest ≡ some n = ground arith in
      rw later (rw later (first_node-with_lifecycle slug state rest n before))
]

-- `rows` are the nodes that the server holds; it answers with them, and keeps an upsert.
module _ {W : Type 0} (client : Client W) (rows : W → List DesiredNode)
    (fetches : (w : W) → client.fetch_nodes w ≡ (some (rows w), w))
    (submits : (slug state : String) (w : W)
      → (after : W) × (client.submit_lifecycle slug state w ≡ (accepted, after))
        × (rows after ≡ with_lifecycle slug state (rows w))) where
  -- the outcome, and the rows afterwards, are the intended ones
  abbrev Meets :
      Result Failure LifecycleData × List DesiredNode → Result Failure LifecycleData × W → Type 0
  Meets goal r = (r.0 ≡ goal.0) × (rows r.1 ≡ goal.1)

  resolves :
      (slug : String) (w : W) → resolve_node client slug w ≡ (found (first_node slug (rows w)), w)
  unfolding resolve_node
  resolves slug w = rw (fetches w) refl

  confirms :
      (slug requested : String) (n : DesiredNode) (w : W)
      → first_node slug (rows w) ≡ some n
      → Meets
          (ok (rewritten n requested requested), with_lifecycle n.slug requested (rows w))
          (confirm client slug n requested (client.submit_lifecycle n.slug requested w))
  confirms slug requested n w h =
      let (after, answered, kept) = submits n.slug requested w in
      let here : n.slug ≡ slug = first_node-slug slug (rows w) n h in
      let again : first_node slug (rows after) ≡ some (record n { lifecycle = requested }) =
        ap (first_node slug) (kept ∙ ap (λ s. with_lifecycle s requested (rows w)) here)
        ∙ first_node-with_lifecycle slug requested (rows w) n h in
      rw
        (
          answered,
          confirm,
          resolves slug after,
          again,
          compared,
          (eq_iff requested requested).1 refl,
        )
        (refl, kept)

  writes :
      (slug requested : String) (w : W)
      → Meets
          (intended_write requested (rows w) (first_node slug (rows w)))
          (write client slug requested (resolve_node client slug w))
  writes slug requested w = elim (Option-cases (first_node slug (rows w))) [
    | inl gone ↦ rw (resolves slug w, gone, write, intended_write) (refl, refl)
    | inr (n, there) ↦ elim (Bool-cases (n.lifecycle == requested)) [
      | inl same ↦ rw (resolves slug w, there, write, intended_write, same) (refl, refl)
      | inr other ↦
          rw (resolves slug w, there, write, intended_write, other)
            (confirms slug requested n w there)
    ]
  ]

  -- With a server that answers with the rows it holds and keeps an upsert, set_node_lifecycle has the intended outcome on the
  -- rows of the server: an unknown state or node is refused and nothing is written, a node that has the
  -- state is left alone, and otherwise the nodes of the slug get the state and nothing else changes.
  pub set_node_lifecycle-Meets :
      (slug requested : String) (w : W)
      → ((set_node_lifecycle client slug requested w).0 ≡ (intended slug requested (rows w)).0)
        × (rows (set_node_lifecycle client slug requested w).1
            ≡ (intended slug requested (rows w)).1)
  unfolding set_node_lifecycle
  set_node_lifecycle-Meets slug requested w =
      elim (Bool-cases (contains requested lifecycle_states)) [
        | inl known ↦ rw known (writes slug requested w)
        | inr strange ↦ rw strange (refl, refl)
      ]
