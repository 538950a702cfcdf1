-- ===== src/Drift/Comparators/Examples.antt =====
-- Two comparators of one resource type, registered in either order.
use nctl.Prelude.{String, Bool, true, List, [], ◌∷◌, none, some, ◌≡◌, ◌⊎◌, inl, inr, refl, sym, ◌∙◌}
use nctl.Prelude.Order.{lex}
use nctl.Prelude.Sorting.{Ascending}
use nctl.Prelude.Value.{end}
use nctl.Drift.Model.{DiffRecord, error}
use nctl.Drift.Comparators.{Comparator, record_key, record_le, register, run_comparators}
use nctl.Drift.Comparators.Order.{registry_of, registered, AreTold, run_comparators_lem}
use mathlib.Core.Path.{subst}
use mathlib.Core.List.{Memᴰ, Permᴰ}
use mathlib.Core.List.Memᴰ

abbrev diff : String → String → String → DiffRecord
diff slug code message = record {
  target = record { kind = "node"; slug = some slug; name = none; id = none };
  code = code;
  severity = error;
  message = message;
  desired = end;
  actual = end;
  sources = [];
}

abbrev missing : Comparator Bool
missing all = diff "n2" "missing_actual_node" "" ∷ []

abbrev mismatch : Comparator Bool
mismatch all = diff "n1" "mac_mismatch" "" ∷ []

abbrev before : List (String × Comparator Bool)
before = ("node", missing) ∷ ("device", mismatch) ∷ []

abbrev after : List (String × Comparator Bool)
after = ("device", mismatch) ∷ ("node", missing) ∷ []

one_of_two : (a x y : DiffRecord) → Memᴰ a (x ∷ y ∷ []) → (a ≡ x) ⊎ (a ≡ y)
one_of_two a x y m = elim (Memᴰ.cases_cons m) [
  | inl q ↦ inl q
  | inr n ↦ elim (Memᴰ.cases_cons n) [
    | inl q ↦ inr q
    | inr none_left ↦ absurd (Memᴰ.not-nil none_left)
  ]
]

told : AreTold Bool true (registered Bool true before)
unfolding record_key lex
told a b m n le ge =
    let x : DiffRecord = diff "n2" "missing_actual_node" "" in
    let y : DiffRecord = diff "n1" "mac_mismatch" "" in
    elim (one_of_two a x y m) [
      | inl p ↦ elim (one_of_two b x y n) [
        | inl q ↦ p ∙ sym q
        | inr q ↦
            let wrong : record_le x y ≡ true =
              subst (λ t. record_le x t ≡ true) q (subst (λ t. record_le t b ≡ true) p le) in
            cc
      ]
      | inr p ↦ elim (one_of_two b x y n) [
        | inl q ↦
            let wrong : record_le x y ≡ true =
              subst (λ t. record_le x t ≡ true) p (subst (λ t. record_le t a ≡ true) q ge) in
            cc
        | inr q ↦ p ∙ sym q
      ]
    ]

run_comparators_lem_example :
    (run_comparators Bool (registry_of Bool true before []) true
      ≡ run_comparators Bool (registry_of Bool true after []) true)
    × Permᴰ
        (run_comparators Bool (registry_of Bool true before []) true)
        (registered Bool true before)
    × Ascending record_le (run_comparators Bool (registry_of Bool true before []) true)
run_comparators_lem_example = run_comparators_lem Bool true before after told (Permᴰ.swap refl refl)

-- two records that differ in their message alone come in the order of registration
messages : List DiffRecord → List String
messages [] = []
messages (r ∷ rs) = r.message ∷ messages rs

first_says : String → Comparator Bool
first_says message all = diff "n1" "mac_mismatch" message ∷ []

messages-run_comparators :
    (messages (
        run_comparators Bool
          (registry_of Bool true (("node", first_says "a") ∷ ("node", first_says "b") ∷ []) [])
          true)
      ≡ "a" ∷ "b" ∷ [])
    × (messages (
          run_comparators Bool
            (registry_of Bool true (("node", first_says "b") ∷ ("node", first_says "a") ∷ []) [])
            true)
        ≡ "b" ∷ "a" ∷ [])
unfolding messages first_says run_comparators record_key lex register
messages-run_comparators = (refl, refl)
