-- ===== src/Reconcile/Planner/Observed.antt =====
-- The targets that the first loop of `build_plan` observes.
use mathlib.Core.Path.{subst}
use nctl.Prelude.{
  String, true, false, List, [], ◌∷◌, Option, none, some, ◌==◌, ◌≡◌, ◌⊎◌, inl, inr, refl, sym, ap,
  ◌∙◌, arith, eq_iff, Bool-cases,
}
use mathlib.Core.List.{Memᴰ}
use mathlib.Core.List.Memᴰ
use nctl.Prelude.Value.{Value, Fields, obj, end, lookup, text_field}
use nctl.Prelude.Result.{ok, ok_inj, >>=-eq-ok}
use nctl.Drift.Model.{Target, DiffRecord}
use nctl.Reconcile.Planner.{PlanFailure, expected_fields, object_or_fail}
use nctl.Reconcile.Planner.Partition.{
  TargetKey, same_key, target_key, put_target, node_in, observed_target,
}

-- the node that the expected placement of a diff names
abbrev pub NamesNode : DiffRecord → Target → Type 0
NamesNode d t =
    (expected : Fields) × (slug : String) × (lookup "expected" d.desired ≡ some (obj expected))
    × (text_field "node_slug" expected ≡ some slug)
    × ((slug == "") ≡ false)
    × (t.kind ≡ "node")
    × (t.slug ≡ some slug)

-- what is observed for a diff: its target, or for a service the node that it names
abbrev pub IsObserved : DiffRecord → Target → Type 0
IsObserved d t =
    (((d.target.kind == "service") ≡ false) × (t ≡ d.target))
    ⊎ (((d.target.kind == "service") ≡ true) × NamesNode d t)

-- a target is there under the key
abbrev pub Has : TargetKey → List (TargetKey × Target) → Type 0
Has k targets = (u : Target) × Memᴰ (k, u) targets × (target_key u ≡ k)

-- what is observed for the diff is among the targets, or another one with its key
abbrev pub Observed : DiffRecord → List (TargetKey × Target) → Type 0
Observed d targets = (t : Target) × IsObserved d t × Has (target_key t) targets

same_key-eq : (k j : TargetKey) → same_key k j ≡ true → k ≡ j
same_key-eq (a, b) (c, d) h =
    let p : a ≡ c = ground (arith, eq_iff a c) in
    let q : b ≡ d = ground (arith, eq_iff b d) in ap (λ x. (x, b)) p ∙ ap (λ y. (c, y)) q

Has-tail :
    {k : TargetKey} {e : TargetKey × Target} {rest : List (TargetKey × Target)}
    → Has k rest
    → Has k (e ∷ rest)
Has-tail (u, m, q) = (u, Memᴰ.tail m, q)

pub put_target-new :
    (t : Target) (targets : List (TargetKey × Target))
    → Has (target_key t) (put_target (target_key t) t targets)
unfolding put_target
put_target-new t [] = (t, Memᴰ.head refl, refl)
put_target-new t ((j, u) ∷ rest) = elim (Bool-cases (same_key (target_key t) j)) [
  | inl same ↦ rw same (t, Memᴰ.head (ap (λ k. (k, t)) (same_key-eq (target_key t) j same)), refl)
  | inr other ↦ rw other (Has-tail (put_target-new t rest))
]

pub put_target-old :
    (k : TargetKey) (t : Target) (targets : List (TargetKey × Target))
    → Has k targets
    → Has k (put_target (target_key t) t targets)
unfolding put_target
put_target-old k t [] (v, m, q) = absurd (Memᴰ.not-nil m)
put_target-old k t ((j, u) ∷ rest) (v, m, q) = elim (Memᴰ.cases_cons m) [
  | inl here ↦ elim (Bool-cases (same_key (target_key t) j)) [
    | inl same ↦
        let is : k ≡ j = ap (λ e. e.0) here in
        rw same (t, Memᴰ.head (ap (λ x. (x, t)) is), same_key-eq (target_key t) j same ∙ sym is)
    | inr other ↦ rw other (v, Memᴰ.head here, q)
  ]
  | inr later ↦ elim (Bool-cases (same_key (target_key t) j)) [
    | inl same ↦ rw same (v, Memᴰ.tail later, q)
    | inr other ↦ rw other (Has-tail (put_target-old k t rest (v, later, q)))
  ]
]

module _ (d : DiffRecord) (t : Target) where
  node_in-NamesNode :
      (expected : Fields) (slug : Option String)
      → lookup "expected" d.desired ≡ some (obj expected)
      → text_field "node_slug" expected ≡ slug
      → node_in d.code expected slug ≡ ok t
      → NamesNode d t
  node_in-NamesNode expected none there named e = absurd (ground arith)
  node_in-NamesNode expected (some slug) there named e = elim (Bool-cases (slug == "")) [
    | inl empty ↦ absurd (ground arith)
    | inr full ↦
        let made =
          ok_inj PlanFailure Target
            (record {
              kind = "node";
              slug = some slug;
              name = none;
              id = text_field "node_id" expected;
            })
            t (rw full at e) in
        (
          expected,
          slug,
          there,
          named,
          full,
          sym (ap (λ (x : Target). x.kind) made),
          sym (ap (λ (x : Target). x.slug) made),
        )
  ]

  object-NamesNode :
      (v : Option Value) {expected : Fields}
      → lookup "expected" d.desired ≡ v
      → object_or_fail v ≡ ok expected
      → node_in d.code expected (text_field "node_slug" expected) ≡ ok t
      → NamesNode d t
  unfolding text_field lookup
  object-NamesNode none {expected} there e q =
      let q' =
        subst (λ x. node_in d.code x (text_field "node_slug" x) ≡ ok t)
          (sym (ok_inj PlanFailure Fields end expected e)) q in
      absurd (ground arith)
  object-NamesNode (some (obj fs)) {expected} there e q =
      let same = ok_inj PlanFailure Fields fs expected e in
      node_in-NamesNode expected (text_field "node_slug" expected)
        (there ∙ ap (λ x. some (obj x)) same) refl q
  object-NamesNode (some v) there e q = absurd (ground arith)

  pub observed_target-IsObserved : observed_target d ≡ ok t → IsObserved d t
  unfolding observed_target expected_fields
  observed_target-IsObserved e = elim (Bool-cases (d.target.kind == "service")) [
    | inr other ↦ inl (other, sym (ok_inj PlanFailure Target d.target t (rw other at e)))
    | inl service ↦
        let (expected, read, named) =
          >>=-eq-ok (expected_fields d) (λ x. node_in d.code x (text_field "node_slug" x))
            (rw service at e) in
        inr (service, object-NamesNode (lookup "expected" d.desired) refl read named)
  ]
