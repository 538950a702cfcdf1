-- ===== src/Reconcile/DependencyCycles/Acyclic.antt =====
-- The profiles are rejected exactly if their dependencies have a cycle.
use nctl.Prelude.{
  ℕ, zero, suc, ◌+◌, ◌<◌, String, true, false, List, [], ◌∷◌, ◌++◌, Option, some, ◌≡◌, refl, sym,
  ◌∙◌, ap, contains, arith, ◌==◌, eq_iff, eq_refl, Bool-cases, Option-cases, inl, inr, length,
}
use mathlib.Core.Path.{subst}
use nctl.Prelude.Order.{sorted, contains-sorted}
use nctl.Prelude.Dict
use nctl.Prelude.Dict.{Dict, is_some, contains-keys}
use nctl.Prelude.Result.{Result, ok, err, ◌>>=◌}
use nctl.Prelude.Sets.{Distinct, Within, length-le_of_Within}
use nctl.Reconcile.Registry.{discard}
use nctl.Reconcile.Registry.Visit.{discard-cons}
use nctl.Reconcile.DependencyCycles.Chains.{names, Edge, Chain, one, more, Closed, Closed-acyclic}
use nctl.Reconcile.DependencyCycles.{
  CycleError, cycle, out_of_fuel, Marks, enter, finish, visit_each, visit, reject_dependency_cycles,
}

module _ (entries : Dict (List String)) where
  record Step (s t : Marks) : Type 0 where
    pub closed : Closed entries t.visited
    pub grows : Within s.visited t.visited
    pub same : t.in_progress ≡ s.in_progress
    -- a profile in progress is not finished by a visit below it
    pub apart :
        (x : String) → contains x s.in_progress ≡ true → contains x t.visited ≡ contains x s.visited

  -- A run that returns where `P` holds, or that raises and there is a cycle.
  abbrev Ends : {A : Type 0} → (A → Type 0) → Result CycleError A → Type 0
  Ends P (ok a) = P a
  Ends P (err (cycle path)) =
      (x : String) × (before : List String) × (path ≡ before ++ x ∷ []) × Chain entries x x
  Ends P (err out_of_fuel) = ⊥

  Ends-bind :
      {A B : Type 0} (P : A → Type 0) (Q : B → Type 0) (m : Result CycleError A)
      (f : A → Result CycleError B)
      → Ends P m
      → ((a : A) → P a → Ends Q (f a))
      → Ends Q (m >>= f)
  Ends-bind P Q (ok a) f h k = k a h
  Ends-bind P Q (err (cycle path)) f h k = h
  Ends-bind P Q (err out_of_fuel) f h k = h

  Ends-map :
      {A : Type 0} (P Q : A → Type 0) (m : Result CycleError A)
      → Ends P m
      → ((a : A) → P a → Q a)
      → Ends Q m
  Ends-map P Q (ok a) h k = k a h
  Ends-map P Q (err (cycle path)) h k = h
  Ends-map P Q (err out_of_fuel) h k = h

  abbrev Visits : Marks → String → Marks → Type 0
  Visits s d t = Step s t × (contains d (names entries) ≡ true → contains d t.visited ≡ true)

  abbrev VisitsAll : Marks → List String → Marks → Type 0
  VisitsAll s deps t =
      Step s t
      × ((d : String)
          → contains d deps ≡ true
          → contains d (names entries) ≡ true
          → contains d t.visited ≡ true)

  Step-trans : (a b c : Marks) → Step a b → Step b c → Step a c
  Step-trans a b c p q = record {
    closed = q.closed;
    grows = λ x m. q.grows x (p.grows x m);
    same = q.same ∙ p.same;
    apart = λ x m. q.apart x (ap (contains x) p.same ∙ m) ∙ p.apart x m;
  }

  visit_each-Ends :
      (progress : List String) (v : String → Marks → Result CycleError Marks) (deps : List String)
      → ((d : String) (s : Marks)
          → contains d deps ≡ true
          → Closed entries s.visited
          → s.in_progress ≡ progress
          → Ends (Visits s d) (v d s))
      → (s : Marks) → Closed entries s.visited
      → s.in_progress ≡ progress
      → Ends (VisitsAll s deps) (visit_each v deps s)
  unfolding visit_each
  visit_each-Ends progress v [] h s c e = (
    record { closed = c; grows = λ x m. m; same = refl; apart = λ x m. refl },
    λ d m n. absurd (cc m),
  )
  visit_each-Ends progress v (dep ∷ deps) h s c e =
      Ends-bind (Visits s dep) _ (v dep s) (λ t. visit_each v deps t)
        (h dep s (ground (arith, eq_refl dep)) c e)
        λ t (first, seen).
          Ends-map (VisitsAll t deps) (VisitsAll s (dep ∷ deps)) (visit_each v deps t)
            (visit_each-Ends progress v deps (λ d u m. h d u (ground arith)) t first.closed
              (first.same ∙ e))
            λ u (later, all_seen). (
              Step-trans s t u first later,
              λ d m n. elim (Bool-cases (d == dep)) [
                | inl same ↦
                    later.grows d
                      (rw ((eq_iff d dep).0 same) (seen (rw ((eq_iff d dep).0 same) at n)))
                | inr other ↦ all_seen d (ground arith) n
              ],
            )

  -- what `visit` leaves behind once the dependencies have been visited
  finish-Visits :
      (name : String) (deps : List String) (s t : Marks)
      → Dict.get entries name ≡ some deps
      → contains name s.visited ≡ false
      → contains name s.in_progress ≡ false
      → VisitsAll (enter name s) (sorted deps) t
      → Visits s name (finish name t)
  unfolding finish
  finish-Visits name deps s t e new free (step, seen) = (
    record {
      closed = (
        step.apart name (ground (arith, eq_refl name)) ∙ new,
        λ d (found, e', m, n).
            seen d
              (contains-sorted d deps
                ∙ subst (λ (o : List String). contains d o ≡ true)
                    (some_inj found deps (sym e' ∙ e)) m)
              n,
        step.closed,
      );
      grows = λ x m. ground (arith, step.grows x m);
      same = ap (discard name) step.same ∙ discard-cons name s.in_progress free;
      apart = λ x m. ground (arith, step.apart x, eq_iff x name);
    },
    λ n. ground (arith, eq_refl name),
  )
    where
      some_inj : (a b : List String) → ◌≡◌ {A = Option (List String)} (some a) (some b) → a ≡ b
      some_inj a b h = cc h

  -- the profiles in progress lead to the one that is visited
  abbrev Leads : List String → String → Type 0
  Leads progress name = (y : String) → contains y progress ≡ true → Chain entries y name

  Leads-next :
      (progress : List String) (name d : String)
      → Leads progress name
      → Edge entries name d
      → Leads (name ∷ progress) d
  Leads-next progress name d l e y m = elim (Bool-cases (y == name)) [
    | inl same ↦ subst (λ z. Chain entries z d) (sym ((eq_iff y name).0 same)) (one e)
    | inr other ↦ more (l y (ground arith)) e
  ]

  visit-Ends :
      (fuel : ℕ) (chain : List String) (name : String) (s : Marks) (progress : List String)
      → s.in_progress ≡ progress
      → Closed entries s.visited
      → Distinct progress
      → Within progress (names entries)
      → length (names entries) < fuel + length progress
      → (contains name (names entries) ≡ true → Leads progress name)
      → Ends (Visits s name) (visit entries fuel chain name s)
  unfolding visit
  visit-Ends zero chain name s progress same c u w f l =
      absurd (omega (arith, length-le_of_Within progress (names entries) u w))
  visit-Ends (suc fuel) chain name s progress same c u w f l =
      let stays : Step s s = record {
        closed = c;
        grows = λ x m. m;
        same = refl;
        apart = λ x m. refl;
      } in
      elim (Bool-cases (contains name s.visited)) [
        | inl seen ↦ rw seen (stays, λ n. seen)
        | inr new ↦ elim (Option-cases (Dict.get entries name)) [
          | inl e ↦ rw (new, e) (stays, λ n. absurd (ground (arith, contains-keys entries name)))
          | inr (deps, e) ↦
              let declared : contains name (names entries) ≡ true =
                contains-keys entries name ∙ ap is_some e in
              elim (Bool-cases (contains name s.in_progress)) [
                | inl open_now ↦
                    rw (new, e, open_now)
                      (
                        name,
                        chain,
                        refl,
                        l declared name (ap (contains name) (sym same) ∙ open_now),
                      )
                | inr free ↦
                    let apart : contains name progress ≡ false =
                      ap (contains name) (sym same) ∙ free in
                    rw (new, e, free)
                      (Ends-bind (VisitsAll (enter name s) (sorted deps)) (Visits s name)
                        (visit_each (visit entries fuel (chain ++ name ∷ [])) (sorted deps)
                          (enter name s))
                        (λ t. ok (finish name t))
                        (visit_each-Ends (name ∷ progress) (visit entries fuel (chain ++ name ∷ []))
                          (sorted deps)
                          (λ d t m c' below.
                            visit-Ends fuel (chain ++ name ∷ []) d t (name ∷ progress) below c'
                              (apart, u) (λ a h. ground (arith, w a, eq_iff a name, declared))
                              (omega arith)
                              λ n.
                                Leads-next progress name d (l declared)
                                  (deps, e, sym (contains-sorted d deps) ∙ m, n))
                          (enter name s) c (ap (λ (p : List String). name ∷ p) same))
                        λ t done. finish-Visits name deps s t e new free done)
              ]
        ]
      ]

  -- what the check's outcome says of the profiles
  abbrev pub Verdict : Result CycleError Unit → Type 0
  Verdict (ok u) = (x : String) → Chain entries x x → ⊥
  Verdict (err (cycle path)) =
      (x : String) × (before : List String) × (path ≡ before ++ x ∷ []) × Chain entries x x
  Verdict (err out_of_fuel) = ⊥

  declared_start : (x y : String) → Chain entries x y → contains x (names entries) ≡ true
  declared_start x y (one (deps, e, m, n)) = contains-keys entries x ∙ ap is_some e
  declared_start x z (more {y} l e) = declared_start x y l

  -- The check of the profiles' dependencies ends, and it accepts them exactly if no declared profile
  -- depends on itself through a chain of declared profiles: an accepted set has no such chain, and a
  -- rejected one has, for the last profile that the error names entries.
  pub reject_dependency_cycles-Verdict : Verdict (reject_dependency_cycles entries)
  unfolding reject_dependency_cycles
  reject_dependency_cycles-Verdict =
      let empty : Marks = record { visited = []; in_progress = [] } in
      conclude
        (visit_each (visit entries (suc (length (names entries))) []) (sorted (names entries))
          empty)
        (visit_each-Ends [] (visit entries (suc (length (names entries))) [])
          (sorted (names entries))
          (λ d s m c same.
            visit-Ends (suc (length (names entries))) [] d s [] same c tt (λ a h. absurd (cc h))
              (omega arith) λ n y h. absurd (cc h))
          empty tt refl)
    where
      conclude :
          (r : Result CycleError Marks)
          → Ends (VisitsAll (record { visited = []; in_progress = [] }) (sorted (names entries))) r
          → Verdict (r >>= λ s. ok tt)
      conclude (ok t) (step, seen) = λ x l.
          let n = declared_start x x l in
          Closed-acyclic entries t.visited x step.closed
            (seen x (contains-sorted x (names entries) ∙ n) n) l
      conclude (err (cycle path)) h = h
      conclude (err out_of_fuel) h = h
