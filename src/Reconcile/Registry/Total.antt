-- ===== src/Reconcile/Registry/Total.antt =====
-- When `topological_order` returns, and what it may raise: the fuel is enough, a key is never missing,
-- and a cycle is reported only for a cyclic plan.
use nctl.Prelude.{
  ℕ, suc, ◌<◌, String, true, false, List, [], ◌∷◌, none, some, ◌≡◌, refl, sym, ◌∙◌, ap, contains,
  arith, ◌==◌, eq_iff, eq_refl, Bool-cases, Option-cases, inl, inr, length,
}
use mathlib.Core.List.{Memᴰ}
use mathlib.Core.List.Memᴰ
use nctl.Prelude.Order.{sorted, contains-sorted}
use nctl.Prelude.Dict
use nctl.Prelude.Dict.{Dict, is_some, contains-keys}
use nctl.Prelude.Result.{Result, ok, err, ◌>>=◌}
use nctl.Reconcile.Model.{ReconcileAction}
use nctl.Reconcile.Registry.{
  PlanError, not_in_plan, cycle, key_error, out_of_fuel, Search, empty_search, visit_each, visit,
  by_id, missing_in, check_dependencies, graph_of, topological_order,
}
use nctl.Reconcile.Registry.Visit.{Graph, deps_of}
use nctl.Reconcile.Registry.Ends.{Ends, Ends-bind, visit_each-Ends, visit-Ends}
use nctl.Reconcile.Registry.Order.{ids_of, index_ids, contains-index_ids, graph_of-known, by_id-mem}

-- `rank` puts every dependency below its action: the plan has no cycle.
abbrev pub IsRanked : (String → ℕ) → List ReconcileAction → Type 0
IsRanked rank actions =
    (a : ReconcileAction)
    → Memᴰ a actions
    → (dep : String) → contains dep a.dependencies ≡ true
    → rank dep < rank a.id

abbrev pub HasDependencies : List ReconcileAction → Type 0
HasDependencies actions =
    (a : ReconcileAction)
    → Memᴰ a actions
    → (dep : String) → contains dep a.dependencies ≡ true
    → contains dep (ids_of actions) ≡ true

-- What each error says of the plan.
abbrev pub Explains : List ReconcileAction → PlanError → Type 0
Explains actions (not_in_plan owner dep) =
    (a : ReconcileAction) × Memᴰ a actions
    × (a.id ≡ owner)
    × (contains dep a.dependencies ≡ true)
    × (contains dep (ids_of actions) ≡ false)
Explains actions (cycle path) = (rank : String → ℕ) → ¬ IsRanked rank actions
Explains actions (key_error id) = ⊥
Explains actions out_of_fuel = ⊥

missing_in-none :
    (ids : List String) (owner : String) (deps : List String) (d : String)
    → missing_in ids owner deps ≡ none
    → contains d deps ≡ true
    → contains d ids ≡ true
unfolding missing_in
missing_in-none ids owner [] d e m = cc
missing_in-none ids owner (x ∷ deps) d e m =
    ground (arith, eq_iff d x, missing_in-none ids owner deps d)

missing_in-some :
    (ids : List String) (owner : String) (deps : List String) (x : PlanError)
    → missing_in ids owner deps ≡ some x
    → (d : String) × (x ≡ not_in_plan owner d) × (contains d deps ≡ true) × (contains d ids ≡ false)
unfolding missing_in
missing_in-some ids owner [] x e = absurd (ground arith)
missing_in-some ids owner (y ∷ deps) x e = elim (Bool-cases (contains y ids)) [
  | inl here ↦
      let (d, same, m, out) = missing_in-some ids owner deps x (ground arith) in
      (d, same, ground arith, out)
  | inr out ↦ (y, ground arith, ground (arith, eq_refl y), out)
]

check_dependencies-none :
    (ids : List String) (actions : List ReconcileAction)
    → check_dependencies ids actions ≡ none
    → (a : ReconcileAction) → Memᴰ a actions
    → (d : String) → contains d a.dependencies ≡ true
    → contains d ids ≡ true
unfolding check_dependencies
check_dependencies-none ids [] e a m d h = elim m [ ]
check_dependencies-none ids (b ∷ rest) e a m d h =
    elim (Option-cases (missing_in ids b.id b.dependencies)) [
      | inr (x, bad) ↦ absurd (ground arith)
      | inl good ↦ elim (Memᴰ.cases_cons m) [
        | inl same ↦
            missing_in-none ids b.id b.dependencies d good
              (ap (λ (x : ReconcileAction). contains d x.dependencies) (sym same) ∙ h)
        | inr later ↦ check_dependencies-none ids rest (ground arith) a later d h
      ]
    ]

check_dependencies-some :
    (ids : List String) (actions : List ReconcileAction) (x : PlanError)
    → check_dependencies ids actions ≡ some x
    → (a : ReconcileAction) × Memᴰ a actions
      × (d : String) × (x ≡ not_in_plan a.id d)
      × (contains d a.dependencies ≡ true)
      × (contains d ids ≡ false)
unfolding check_dependencies
check_dependencies-some ids [] x e = absurd (ground arith)
check_dependencies-some ids (b ∷ rest) x e =
    elim (Option-cases (missing_in ids b.id b.dependencies)) [
      | inr (y, bad) ↦
          let (d, same, m, out) = missing_in-some ids b.id b.dependencies y bad in
          (b, Memᴰ.head refl, d, ground arith, m, out)
      | inl good ↦
          let (a, m, d, same, dep, out) = check_dependencies-some ids rest x (ground arith) in
          (a, Memᴰ.tail m, d, same, dep, out)
    ]

Ends-ok : {A : Type 0} (P : A → Type 0) (r : Result PlanError A) → Ends P ⊥ r → (a : A) × (r ≡ ok a)
Ends-ok P (ok a) h = (a, refl)
Ends-ok P (err (cycle p)) h = absurd h
Ends-ok P (err (not_in_plan o d)) h = absurd h
Ends-ok P (err (key_error i)) h = absurd h
Ends-ok P (err out_of_fuel) h = absurd h

module _ (actions : List ReconcileAction) where
  abbrev graph : Graph
  graph = graph_of (by_id actions [])

  abbrev fuel : ℕ
  fuel = suc (length (index_ids actions))

  -- `topological_order` after the check of the dependencies
  abbrev search_run : Result PlanError (List String)
  search_run =
      visit_each (visit fuel graph []) (sorted (index_ids actions)) empty_search >>= λ (s : Search).
      ok s.ordered

  in_index : (x : String) → contains x (index_ids actions) ≡ true → is_some (graph x) ≡ true
  in_index x m = graph_of-known (by_id actions []) x ∙ sym (contains-keys (by_id actions []) x) ∙ m

  -- The dependencies that the graph has for an id are those of an action with that id.
  graph-action :
      (x d : String)
      → contains d (deps_of (graph x)) ≡ true
      → (a : ReconcileAction) × Memᴰ a actions × (a.id ≡ x) × (contains d a.dependencies ≡ true)
  unfolding graph_of Dict.get
  graph-action x d m = elim (Option-cases (Dict.get (by_id actions []) x)) [
    | inl e ↦ absurd (ground arith)
    | inr (a, e) ↦ elim (by_id-mem actions [] x a e) [
      | inl (here, same) ↦ (a, here, same, ground arith)
      | inr old ↦ absurd (ground arith)
    ]
  ]

  module _ (R : String → List String → Type 0) (Q : Type 0)
      (back : (x : String) (progress : List String) → R x progress → contains x progress ≡ true → Q)
      (next : (x d : String) (progress : List String)
        → R x progress
        → contains d (deps_of (graph x)) ≡ true
        → R d (x ∷ progress))
      (start : (x : String) → R x []) where
    search_run-Ends :
        check_dependencies (index_ids actions) actions ≡ none
        → Ends (λ order. Unit {0}) Q search_run
    search_run-Ends e =
        Ends-bind (λ t. t.in_progress ≡ []) (λ order. Unit {0}) Q _ (λ s. ok s.ordered)
          (visit_each-Ends Q [] (visit fuel graph []) (sorted (index_ids actions))
            (λ d s m same.
              visit-Ends graph (index_ids actions) in_index closed R Q back next fuel [] d s [] same
                (sym (contains-sorted d (index_ids actions)) ∙ m) tt (λ a h. cc) (omega arith)
                (start d))
            empty_search refl)
          (λ t same. tt)
      where
        closed :
            (x d : String)
            → contains x (index_ids actions) ≡ true
            → contains d (deps_of (graph x)) ≡ true
            → contains d (index_ids actions) ≡ true
        closed x d m dep =
            let (a, here, same, h) = graph-action x d dep in
            check_dependencies-none (index_ids actions) actions e a here d h

  ranked_run :
      (rank : String → ℕ)
      → IsRanked rank actions
      → check_dependencies (index_ids actions) actions ≡ none
      → Ends (λ order. Unit {0}) ⊥ search_run
  ranked_run rank ranked =
      search_run-Ends (λ x progress. (y : String) → contains y progress ≡ true → rank x < rank y) ⊥
        (λ x progress r m. omega (arith, r x m))
        (λ x d progress r dep y m.
          let (a, here, same, h) = graph-action x d dep in
          let below : rank d < rank x = rw same at (ranked a here d h) in
          elim (Bool-cases (y == x)) [
            | inl e ↦ rw ((eq_iff y x).0 e) below
            | inr n ↦ omega (arith, r y (ground arith))
          ])
        (λ x y m. cc)

-- If some ranking puts every dependency of an action strictly below it, and every dependency is the id of
-- an action, then `topological_order` returns an order.
pub topological_order_total :
    (actions : List ReconcileAction) (rank : String → ℕ)
    → IsRanked rank actions
    → HasDependencies actions
    → (order : List String) × (topological_order actions ≡ ok order)
unfolding topological_order
topological_order_total actions rank ranked has =
    elim (Option-cases (check_dependencies (index_ids actions) actions)) [
      | inl good ↦ rw good (Ends-ok _ (search_run actions) (ranked_run actions rank ranked good))
      | inr (x, bad) ↦
          let (a, here, d, same, dep, out) =
            check_dependencies-some (index_ids actions) actions x bad in
          absurd (ground (arith, has a here d dep, contains-index_ids actions d))
    ]

-- If `topological_order` raises, then either it names an action of the plan and a dependency of it
-- that no action has as its id, or it reports a cycle and no ranking puts every dependency below its
-- action. It never runs out of fuel and never misses a key.
pub topological_order-Explains :
    (actions : List ReconcileAction) (e : PlanError)
    → topological_order actions ≡ err e
    → Explains actions e
unfolding topological_order
topological_order-Explains actions e h =
    elim (Option-cases (check_dependencies (index_ids actions) actions)) [
      | inl good ↦ explain e good (rw good at h)
      | inr (x, bad) ↦
          let (a, here, d, same, dep, out) =
            check_dependencies-some (index_ids actions) actions x bad in
          let named : not_in_plan a.id d ≡ e = cc (rw bad at h) in
          rw (← named) (a, here, refl, dep, sym (contains-index_ids actions d) ∙ out)
    ]
  where
    unranked :
        check_dependencies (index_ids actions) actions ≡ none
        → Ends (λ order. Unit {0}) (Unit {0}) (search_run actions)
    unranked =
        search_run-Ends actions (λ x progress. Unit {0}) (Unit {0}) (λ x progress r m. tt)
          (λ x d progress r dep. tt) (λ x. tt)

    explain :
        (e : PlanError)
        → check_dependencies (index_ids actions) actions ≡ none
        → search_run actions ≡ err e
        → Explains actions e
    explain (cycle p) good k = λ rank ranked. rw k at (ranked_run actions rank ranked good)
    explain (not_in_plan o d) good k = absurd (rw k at (unranked good))
    explain (key_error i) good k = rw k at (unranked good)
    explain out_of_fuel good k = rw k at (unranked good)
