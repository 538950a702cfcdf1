-- ===== src/Reconcile/Ledger/NodeLink/Requests.antt =====
-- What the guards and the query of a node link raise.
use nctl.Prelude.{
  String, Bool, true, false, Option, none, some, ◌≡◌, refl, ap, inl, inr, Bool-cases, Option-cases,
  ◌==◌, eq_iff, if◌then◌else◌, List, [], ◌∷◌,
}
use nctl.Prelude.Value.{Value, Fields, truthy, get, end, obj, arr, str, float, int, neg, bool, null}
use mathlib.Core.Path.{subst}
use nctl.Prelude.Result.{ok, err, Result-cases}
use nctl.Drift.Model.{Target}
use nctl.Sources.{DesiredSnapshot}
use nctl.Reconcile.Model.{ReconcileAction}
use nctl.Reconcile.Ledger.{crashed, text_or_empty}
use nctl.Reconcile.Ledger.Refusals.{Early, Missing, Raises}
use nctl.Reconcile.Ledger.NodeLink.{
  candidate_field, candidate_of, candidate_request, target_request, link_request, mismatch,
  node_by_id, get_desired_node, links_to, text_or,
}

candidate_field-Early : (v : Value) → Raises Early (candidate_field v)
unfolding candidate_field
candidate_field-Early null = refl
candidate_field-Early (obj fs) = tt
candidate_field-Early (arr vs) = tt
candidate_field-Early (str s) = elim (Bool-cases (s == "dcim.device")) [
  | inl q ↦ rw (q, Raises) tt
  | inr q ↦ rw (q, Raises) refl
]
candidate_field-Early (float s) = refl
candidate_field-Early (int n) = refl
candidate_field-Early (neg n) = refl
candidate_field-Early (bool b) = refl

pub get_desired_node-Missing :
    (o : Option DesiredSnapshot) (id : String) (expected : Option String)
    → Raises Missing (get_desired_node o id expected)
unfolding get_desired_node
get_desired_node-Missing none id expected = ("node_fetch_failed", refl)
get_desired_node-Missing (some s) id expected = elim (Option-cases (node_by_id id s.nodes)) [
  | inl q ↦ rw (q, Raises) ("node_fetch_failed", refl)
  | inr (n, q) ↦ elim (Bool-cases (mismatch expected n)) [
    | inl m ↦ rw (q, m, Raises) ("node_fetch_mismatch", refl)
    | inr m ↦ rw (q, m, Raises) tt
  ]
]

crash_or : (b : Bool) → Raises Early (if b then err crashed else ok end)
crash_or true = tt
crash_or false = tt

candidate_of-Early : (v : Value) → Raises Early (candidate_of v)
unfolding candidate_of truthy
candidate_of-Early null = tt
candidate_of-Early (obj fs) = tt
candidate_of-Early (arr vs) = crash_or (truthy (arr vs))
candidate_of-Early (str s) = crash_or (truthy (str s))
candidate_of-Early (float s) = crash_or (truthy (float s))
candidate_of-Early (int n) = crash_or (truthy (int n))
candidate_of-Early (neg n) = tt
candidate_of-Early (bool b) = crash_or b

module _ (render : Value → String) where
  candidate_request-Early :
      (t : Target) (id : String) (c : Fields) → Raises Early (candidate_request render t id c)
  unfolding candidate_request
  candidate_request-Early t id c = elim (Result-cases (candidate_field (get "object_type" c))) [
    | inl (e, q) ↦
        rw (q, Raises) (subst (Raises Early) q (candidate_field-Early (get "object_type" c)))
    | inr (column, q) ↦ elim (Bool-cases (text_or_empty render (get "id" c) == "")) [
      | inl m ↦ rw (q, m, Raises) refl
      | inr m ↦ rw (q, m, Raises) tt
    ]
  ]

  target_request-Early :
      (t : Target) (parameters : Fields) → Raises Early (target_request render t parameters)
  unfolding target_request
  target_request-Early t parameters = elim (Bool-cases (text_or t.id == "")) [
    | inl m ↦ rw (m, Raises) refl
    | inr m ↦ elim (Result-cases (candidate_of (get "candidate" parameters))) [
      | inl (e, q) ↦
          rw (m, q, Raises)
            (subst (Raises Early) q (candidate_of-Early (get "candidate" parameters)))
      | inr (c, q) ↦ rw (m, q) (candidate_request-Early t (text_or t.id) c)
    ]
  ]

  pub link_request-Early : (a : ReconcileAction) → Raises Early (link_request render a)
  unfolding link_request
  link_request-Early a = elim (Bool-cases (a.reconciler_id == "link_actual_node")) [
    | inr m ↦ rw (m, Raises) refl
    | inl m ↦ rw m (on_targets a.targets refl)
  ]
    where
      on_targets :
          (ts : List Target)
          → a.targets ≡ ts
          → Raises Early (elim a.targets [
            | [] ↦ err crashed
            | target ∷ rest ↦ target_request render target a.parameters
          ])
      on_targets [] q = rw (q, Raises) tt
      on_targets (t ∷ rest) q = rw q (target_request-Early t a.parameters)

pub links_to-eq : (found : Option String) (id : String) → links_to found id ≡ true → found ≡ some id
links_to-eq none id h = absurd (cc h)
links_to-eq (some f) id h = ap some ((eq_iff f id).0 h)
