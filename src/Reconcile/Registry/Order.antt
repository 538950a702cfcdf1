-- ===== src/Reconcile/Registry/Order.antt =====
-- What a result of `topological_order` is: the ids of the plan, each once, behind their dependencies.
use nctl.Prelude.{
  String, true, false, ◌||◌, List, [], ◌∷◌, ◌++◌, map, reverse, Option, none, some, ◌≡◌, refl, sym,
  ◌∙◌, ap, ◌⊎◌, contains, arith, ◌==◌, eq_iff, eq_refl, Bool-cases, inl, inr, length, suc,
  append_assoc,
}
use mathlib.Core.List.{reverse-cons, reverse-append, reverse-reverse, Memᴰ}
use mathlib.Core.List.Memᴰ
use nctl.Prelude.Order.{sorted, contains-sorted}
use nctl.Prelude.Dict
use nctl.Prelude.Dict.{Dict, is_some, get-put, contains-keys}
use nctl.Prelude.Result.{Result, ok}
use nctl.Prelude.Sets.{Distinct, Distinct-reverse, contains-reverse}
use nctl.Reconcile.Model.{ReconcileAction}
use nctl.Reconcile.Registry.{
  Search, dependencies_of, unless, empty_search, visit, by_id, check_dependencies, graph_of,
  topological_order,
}
use nctl.Reconcile.Registry.Visit.{
  Graph, deps_of, Closed, Inv, Step, AllVisited, OnOk, OnOk-bind, visit_each-Step, visit-Step,
}

abbrev pub ids_of : List ReconcileAction → List String
ids_of actions = map (λ a. a.id) actions

pub record IsTopological (actions : List ReconcileAction) (order : List String) : Type 0 where
  pub distinct : Distinct order
  pub complete : (id : String) → contains id order ≡ contains id (ids_of actions)
  pub deps_before :
      (a : ReconcileAction) (before after : List String)
      → Memᴰ a actions
      → order ≡ before ++ a.id ∷ after
      → (dep : String) → contains dep a.dependencies ≡ true
      → contains dep before ≡ true

pub get-by_id_other :
    (actions : List ReconcileAction) (d : Dict ReconcileAction) (k : String)
    → contains k (ids_of actions) ≡ false
    → Dict.get (by_id actions d) k ≡ Dict.get d k
unfolding by_id
get-by_id_other [] d k h = refl
get-by_id_other (a ∷ rest) d k h =
    ground (arith, get-by_id_other rest (Dict.put d a.id a) k, get-put d a.id k a)

-- With distinct ids the index holds every action under its id.
pub get-by_id :
    (actions : List ReconcileAction) (d : Dict ReconcileAction) (a : ReconcileAction)
    → Distinct (ids_of actions)
    → Memᴰ a actions
    → Dict.get (by_id actions d) a.id ≡ some a
unfolding by_id
get-by_id [] d a u m = elim m [ ]
get-by_id (b ∷ rest) d a u m = elim (Memᴰ.cases_cons m) [
  | inl e ↦ rw e (
      get-by_id_other rest (Dict.put d b.id b) b.id u.0
      ∙ ground (arith, get-put d b.id b.id b, eq_refl b.id))
  | inr later ↦ get-by_id rest (Dict.put d b.id b) a u.1 later
]

pub contains-by_id :
    (actions : List ReconcileAction) (d : Dict ReconcileAction) (k : String)
    → is_some (Dict.get (by_id actions d) k)
      ≡ (contains k (ids_of actions) || is_some (Dict.get d k))
unfolding by_id
contains-by_id [] d k = refl
contains-by_id (a ∷ rest) d k =
    ground (arith, contains-by_id rest (Dict.put d a.id a) k, get-put d a.id k a)

-- What the index holds is an action of the plan, under its id.
pub by_id-mem :
    (actions : List ReconcileAction) (d : Dict ReconcileAction) (k : String) (a : ReconcileAction)
    → Dict.get (by_id actions d) k ≡ some a
    → (Memᴰ a actions × (a.id ≡ k)) ⊎ (Dict.get d k ≡ some a)
unfolding by_id
by_id-mem [] d k a e = inr e
by_id-mem (b ∷ rest) d k a e = elim (by_id-mem rest (Dict.put d b.id b) k a e) [
  | inl (m, i) ↦ inl (Memᴰ.tail m, i)
  | inr old ↦ elim (Bool-cases (k == b.id)) [
    | inl same ↦
        let here : some b ≡ some a = ground (arith, get-put d b.id k b) in
        let equal : a ≡ b = cc in
        inl
          (Memᴰ.head equal, ap (λ (x : ReconcileAction). x.id) equal ∙ sym ((eq_iff k b.id).0 same))
    | inr other ↦ inr (ground (arith, get-put d b.id k b))
  ]
]

abbrev pub index_ids : List ReconcileAction → List String
index_ids actions = Dict.keys (by_id actions [])

pub contains-index_ids :
    (actions : List ReconcileAction) (k : String)
    → contains k (index_ids actions) ≡ contains k (ids_of actions)
contains-index_ids actions k =
    contains-keys (by_id actions []) k
    ∙ contains-by_id actions [] k
    ∙ unfold Dict.get in ground arith

module _ (g : Graph) where
  Closed-known :
      (xs : List String) (x : String) → Closed g xs → contains x xs ≡ true → is_some (g x) ≡ true
  Closed-known [] x c m = cc
  Closed-known (y ∷ xs) x c m = elim (Bool-cases (x == y)) [
    | inl e ↦ rw ((eq_iff x y).0 e) c.1
    | inr n ↦ Closed-known xs x c.2 (ground arith)
  ]

  Closed-split :
      (xs ys : List String) (x d : String)
      → Closed g (xs ++ x ∷ ys)
      → contains d (deps_of (g x)) ≡ true
      → contains d ys ≡ true
  Closed-split [] ys x d c m = c.0 d m
  Closed-split (z ∷ xs) ys x d c m = Closed-split xs ys x d c.2 m

  reverse_split :
      (xs before after : List String) (x : String)
      → reverse xs ≡ before ++ x ∷ after
      → xs ≡ reverse after ++ x ∷ reverse before
  reverse_split xs before after x e =
      sym (reverse-reverse xs)
      ∙ ap reverse e
      ∙ reverse-append before (x ∷ after)
      ∙ rw (reverse-cons, append_assoc)

initial : (g : Graph) → Inv g empty_search
initial g = record { mirrored = refl; distinct = tt; closed = tt }

pub graph_of-known :
    (d : Dict ReconcileAction) (k : String) → is_some (graph_of d k) ≡ is_some (Dict.get d k)
unfolding graph_of
graph_of-known d k = ground arith

OnOk-unless {ℓ κ} :
    {E A : Type ℓ} (o : Option E) (P : A → Type κ) (r : Result E A) → OnOk P r → OnOk P (unless o r)
OnOk-unless none P r h = h
OnOk-unless (some e) P r h = tt

module _ (actions : List ReconcileAction) (unique : Distinct (ids_of actions)) where
  abbrev graph : Graph
  graph = graph_of (by_id actions [])

  graph-mem : (a : ReconcileAction) → Memᴰ a actions → graph a.id ≡ some a.dependencies
  unfolding graph_of
  graph-mem a m = ap dependencies_of (get-by_id actions [] a unique m)

  Inv-IsTopological :
      (t : Search)
      → Inv graph t
      → ((id : String)
          → contains id (sorted (index_ids actions)) ≡ true
          → contains id t.visited ≡ true)
      → IsTopological actions t.ordered
  Inv-IsTopological t i seen = record {
    distinct = rw i.mirrored (Distinct-reverse t.visited i.distinct);
    complete = λ id. rw i.mirrored (contains-reverse id t.visited ∙ same_ids id);
    deps_before = λ a before after m e dep d.
        sym (contains-reverse dep before)
        ∙ Closed-split graph (reverse after) (reverse before) a.id dep
            (rw (reverse_split graph t.visited before after a.id (sym i.mirrored ∙ e)) at i.closed)
            (ap (λ o. contains dep (deps_of o)) (graph-mem a m) ∙ d);
  }
    where
      same_ids : (id : String) → contains id t.visited ≡ contains id (ids_of actions)
      same_ids id = ground (
        arith,
        seen id,
        contains-sorted id (index_ids actions),
        contains-index_ids actions id,
        contains-keys (by_id actions []) id,
        graph_of-known (by_id actions []) id,
        Closed-known graph t.visited id i.closed,
      )

  topological_order-OnOk : OnOk (IsTopological actions) (topological_order actions)
  unfolding topological_order
  topological_order-OnOk = OnOk-unless (check_dependencies (index_ids actions) actions) _ _ (
      OnOk-bind (λ t. Step graph empty_search t × AllVisited graph (sorted (index_ids actions)) t) _
        _ (λ (s : Search). ok s.ordered)
        (visit_each-Step graph (visit (suc (length (index_ids actions))) graph [])
          (λ d s j. visit-Step graph (suc (length (index_ids actions))) [] d s j)
          (sorted (index_ids actions)) empty_search (initial graph))
        λ t (step, seen). Inv-IsTopological t step.inv seen)

-- If the ids of the actions are distinct and `topological_order` returns, then its result holds
-- exactly the ids of the actions, none twice, and every dependency of an action stands before it.
pub topological_order-IsTopological :
    (actions : List ReconcileAction) (order : List String)
    → Distinct (ids_of actions)
    → topological_order actions ≡ ok order
    → IsTopological actions order
topological_order-IsTopological actions order unique e =
    rw e at (topological_order-OnOk actions unique)
