-- ===== src/Reconcile/Registry/Visit.antt =====
-- What one run of `visit` in `topological_order` does to the search state, when it returns.
use nctl.Prelude.{
  ℕ, zero, suc, String, true, false, List, [], ◌∷◌, ◌++◌, reverse, Option, none, some, ◌≡◌, refl,
  sym, ◌∙◌, ap, contains, arith, eq_iff, eq_refl, Bool-cases, Option-cases, inl, inr,
}
use mathlib.Core.List.{reverse-cons}
use nctl.Prelude.Order.{sorted, contains-sorted}
use nctl.Prelude.Dict.{is_some}
use nctl.Prelude.Result.{Result, ok, err, ◌>>=◌}
use nctl.Prelude.Sets.{Distinct}
use nctl.Reconcile.Registry.{PlanError, Search, discard, finish, visit_each, visit}

abbrev pub Graph : Type 0
Graph = String → Option (List String)

abbrev pub deps_of : Option (List String) → List String
deps_of none = []
deps_of (some deps) = deps

-- Every id stands after all of its dependencies, the last id first.
abbrev pub Closed : Graph → List String → Type 0
Closed g [] = Unit
Closed g (x ∷ xs) =
    ((d : String) → contains d (deps_of (g x)) ≡ true → contains d xs ≡ true)
    × (is_some (g x) ≡ true)
    × Closed g xs

pub record Inv (g : Graph) (s : Search) : Type 0 where
  pub mirrored : s.ordered ≡ reverse s.visited
  pub distinct : Distinct s.visited
  pub closed : Closed g s.visited

pub record Step (g : Graph) (s s' : Search) : Type 0 where
  pub inv : Inv g s'
  pub grows : (x : String) → contains x s.visited ≡ true → contains x s'.visited ≡ true
  pub same : s'.in_progress ≡ s.in_progress
  -- an id in progress is not finished by a visit below it
  pub apart :
      (x : String) → contains x s.in_progress ≡ true → contains x s'.visited ≡ contains x s.visited

-- A postcondition of the runs that return.
abbrev pub OnOk {ℓ κ} : {E A : Type ℓ} → (A → Type κ) → Result E A → Type κ
OnOk P (ok a) = P a
OnOk P (err e) = Unit

pub OnOk-bind {ℓ κ} :
    {E A B : Type ℓ} (P : A → Type κ) (Q : B → Type κ) (m : Result E A) (f : A → Result E B)
    → OnOk P m
    → ((a : A) → P a → OnOk Q (f a))
    → OnOk Q (m >>= f)
OnOk-bind P Q (ok a) f h k = k a h
OnOk-bind P Q (err e) f h k = tt

pub OnOk-map {ℓ κ} :
    {E A : Type ℓ} (P Q : A → Type κ) (m : Result E A) → OnOk P m → ((a : A) → P a → Q a) → OnOk Q m
OnOk-map P Q (ok a) h k = k a h
OnOk-map P Q (err e) h k = tt

pub discard_absent : (a : String) (xs : List String) → contains a xs ≡ false → discard a xs ≡ xs
unfolding discard
discard_absent a [] h = refl
discard_absent a (x ∷ xs) h = ground (arith, discard_absent a xs)

pub discard-cons : (a : String) (xs : List String) → contains a xs ≡ false → discard a (a ∷ xs) ≡ xs
unfolding discard
discard-cons a xs h = ground (arith, eq_refl a, discard_absent a xs h)

abbrev pub Visited : Graph → Search → String → Search → Type 0
Visited g s id s' = Step g s s' × (contains id s'.visited ≡ true)

Step-refl : (g : Graph) (s : Search) → Inv g s → Step g s s
Step-refl g s i = record { inv = i; grows = λ x h. h; same = refl; apart = λ x h. refl }

Step-trans : (g : Graph) (s t u : Search) → Step g s t → Step g t u → Step g s u
Step-trans g s t u a b = record {
  inv = b.inv;
  grows = λ x h. b.grows x (a.grows x h);
  same = b.same ∙ a.same;
  apart = λ x h. b.apart x (ap (contains x) a.same ∙ h) ∙ a.apart x h;
}

module _ (g : Graph) where
  abbrev pub AllVisited : List String → Search → Type 0
  AllVisited deps s = (d : String) → contains d deps ≡ true → contains d s.visited ≡ true

  pub visit_each-Step :
      (v : String → Search → Result PlanError Search)
      → ((id : String) (s : Search) → Inv g s → OnOk (Visited g s id) (v id s))
      → (deps : List String) (s : Search) → Inv g s
      → OnOk (λ s'. Step g s s' × AllVisited deps s') (visit_each v deps s)
  unfolding visit_each
  visit_each-Step v h [] s i = (Step-refl g s i, λ d m. cc)
  visit_each-Step v h (dep ∷ deps) s i =
      OnOk-bind (Visited g s dep) _ (v dep s) (λ s'. visit_each v deps s') (h dep s i)
        λ t (first, seen).
          OnOk-map (λ u. Step g t u × AllVisited deps u) _ (visit_each v deps t)
            (visit_each-Step v h deps t first.inv)
            λ u (later, all_seen). (
              Step-trans g s t u first later,
              λ d m. ground (arith, all_seen d, later.grows d, eq_iff d dep),
            )

  unfoldable pub enter : String → Search → Search
  enter id s = record s { in_progress = id ∷ s.in_progress }

  -- What `visit` does after the dependencies have been visited.
  finish-Visited :
      (id : String) (deps : List String) (s t : Search)
      → g id ≡ some deps
      → contains id s.visited ≡ false
      → contains id s.in_progress ≡ false
      → Step g (enter id s) t
      → AllVisited (sorted deps) t
      → Visited g s id (finish id t)
  unfolding finish enter
  finish-Visited id deps s t e new free step seen =
      let fresh : contains id t.visited ≡ false =
        step.apart id (ground (arith, eq_refl id)) ∙ new in
      (
        record {
          inv = record {
            mirrored = rw reverse-cons (ap (λ (l : List String). l ++ id ∷ []) step.inv.mirrored);
            distinct = (fresh, step.inv.distinct);
            closed = (
              λ d m. seen d (contains-sorted d deps ∙ ap (λ o. contains d (deps_of o)) (sym e) ∙ m),
              ap is_some e,
              step.inv.closed,
            );
          };
          grows = λ x h. ground (arith, step.grows x);
          same = ap (discard id) step.same ∙ discard-cons id s.in_progress free;
          apart = λ x h. ground (arith, step.apart x, eq_iff x id);
        },
        ground (arith, eq_refl id),
      )

  pub visit-Step :
      (fuel : ℕ) (path : List String) (id : String) (s : Search)
      → Inv g s
      → OnOk (Visited g s id) (visit fuel g path id s)
  unfolding visit enter
  visit-Step zero path id s i = tt
  visit-Step (suc fuel) path id s i = elim (Bool-cases (contains id s.visited)) [
    | inl seen ↦ rw seen (Step-refl g s i, seen)
    | inr new ↦ elim (Bool-cases (contains id s.in_progress)) [
      | inl open_now ↦ rw (new, open_now) tt
      | inr free ↦ elim (Option-cases (g id)) [
        | inl e ↦ rw (new, free, e) tt
        | inr (deps, e) ↦
            rw (new, free, e)
              (OnOk-bind (λ t. Step g (enter id s) t × AllVisited (sorted deps) t) _ _
                (λ t. ok (finish id t))
                (visit_each-Step (visit fuel g (path ++ id ∷ []))
                  (λ d t j. visit-Step fuel (path ++ id ∷ []) d t j) (sorted deps) (enter id s)
                  (record { mirrored = i.mirrored; distinct = i.distinct; closed = i.closed }))
                λ t (step, seen). finish-Visited id deps s t e new free step seen)
      ]
    ]
  ]
