-- ===== src/Reconcile/Registry/Ends.antt =====
-- When a visit of `topological_order` ends, and with which errors, for any relation that holds on its way.
use nctl.Prelude.{
  ℕ, zero, suc, ◌+◌, ◌<◌, String, true, false, List, [], ◌∷◌, ◌++◌, ◌≡◌, sym, ◌∙◌, ap, contains,
  arith, eq_iff, eq_refl, Bool-cases, Option-cases, inl, inr, length,
}
use nctl.Prelude.Order.{sorted, contains-sorted}
use nctl.Prelude.Dict.{is_some}
use nctl.Prelude.Result.{Result, ok, err, ◌>>=◌}
use nctl.Prelude.Sets.{Distinct, Within, length-le_of_Within}
use nctl.Reconcile.Registry.{
  PlanError, not_in_plan, cycle, key_error, out_of_fuel, Search, discard, finish, visit_each, visit,
}
use nctl.Reconcile.Registry.Visit.{Graph, deps_of, discard-cons}

-- A run that returns, or that raises a cycle where `Q` holds; never one of the other errors.
abbrev pub Ends : {A : Type 0} → (A → Type 0) → Type 0 → Result PlanError A → Type 0
Ends P Q (ok a) = P a
Ends P Q (err (cycle p)) = Q
Ends P Q (err e) = ⊥

pub Ends-bind :
    {A B : Type 0} (P : A → Type 0) (P' : B → Type 0) (Q : Type 0) (m : Result PlanError A)
    (f : A → Result PlanError B)
    → Ends P Q m
    → ((a : A) → P a → Ends P' Q (f a))
    → Ends P' Q (m >>= f)
Ends-bind P P' Q (ok a) f h k = k a h
Ends-bind P P' Q (err (cycle p)) f h k = h
Ends-bind P P' Q (err (not_in_plan o d)) f h k = h
Ends-bind P P' Q (err (key_error i)) f h k = h
Ends-bind P P' Q (err out_of_fuel) f h k = h

pub visit_each-Ends :
    (Q : Type 0) (progress : List String) (v : String → Search → Result PlanError Search)
    (deps : List String)
    → ((d : String) (s : Search)
        → contains d deps ≡ true
        → s.in_progress ≡ progress
        → Ends (λ t. t.in_progress ≡ progress) Q (v d s))
    → (s : Search) → s.in_progress ≡ progress
    → Ends (λ t. t.in_progress ≡ progress) Q (visit_each v deps s)
unfolding visit_each
visit_each-Ends Q progress v [] h s e = e
visit_each-Ends Q progress v (dep ∷ deps) h s e =
    Ends-bind (λ t. t.in_progress ≡ progress) (λ t. t.in_progress ≡ progress) Q (v dep s)
      (λ t. visit_each v deps t) (h dep s (ground (arith, eq_refl dep)) e)
      λ t same. visit_each-Ends Q progress v deps (λ d u m. h d u (ground arith)) t same

-- `R id progress`: `id` may be visited while `progress` is open.
module _ (g : Graph) (ids : List String)
    (known : (x : String) → contains x ids ≡ true → is_some (g x) ≡ true)
    (closed : (x d : String)
      → contains x ids ≡ true
      → contains d (deps_of (g x)) ≡ true
      → contains d ids ≡ true)
    (R : String → List String → Type 0) (Q : Type 0)
    (back : (x : String) (progress : List String) → R x progress → contains x progress ≡ true → Q)
    (next : (x d : String) (progress : List String)
      → R x progress
      → contains d (deps_of (g x)) ≡ true
      → R d (x ∷ progress)) where
  pub visit-Ends :
      (fuel : ℕ) (path : List String) (id : String) (s : Search) (progress : List String)
      → s.in_progress ≡ progress
      → contains id ids ≡ true
      → Distinct progress
      → Within progress ids
      → length ids < fuel + length progress
      → R id progress
      → Ends (λ t. t.in_progress ≡ progress) Q (visit fuel g path id s)
  unfolding visit finish
  visit-Ends zero path id s progress same m u w f r =
      absurd (omega (arith, length-le_of_Within progress ids u w))
  visit-Ends (suc fuel) path id s progress same m u w f r =
      elim (Bool-cases (contains id s.visited)) [
        | inl seen ↦ rw seen same
        | inr new ↦ elim (Bool-cases (contains id s.in_progress)) [
          | inl open_now ↦
              rw (new, open_now) (back id progress r (ap (contains id) (sym same) ∙ open_now))
          | inr free ↦ elim (Option-cases (g id)) [
            | inl e ↦ absurd (ground (arith, known id m))
            | inr (deps, e) ↦
                let apart : contains id progress ≡ false = ap (contains id) (sym same) ∙ free in
                rw (new, free, e)
                  (Ends-bind (λ t. t.in_progress ≡ id ∷ progress) _ Q _ (λ t. ok (finish id t))
                    (visit_each-Ends Q (id ∷ progress) (visit fuel g (path ++ id ∷ []))
                      (sorted deps)
                      (λ d t md below.
                        let dep : contains d (deps_of (g id)) ≡ true =
                          ap (λ o. contains d (deps_of o)) e ∙ sym (contains-sorted d deps) ∙ md in
                        visit-Ends fuel (path ++ id ∷ []) d t (id ∷ progress) below
                          (closed id d m dep) (apart, u) (λ a h. ground (arith, w a, eq_iff a id))
                          (omega arith) (next id d progress r dep))
                      (record s { in_progress = id ∷ s.in_progress })
                      (ap (λ (l : List String). id ∷ l) same))
                    λ t below. ap (discard id) below ∙ discard-cons id progress apart)
          ]
        ]
      ]
