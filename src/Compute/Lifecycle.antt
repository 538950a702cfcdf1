-- ===== src/Compute/Lifecycle.antt =====
-- src/nctl_core/compute/contract.py: effective lifecycles.
use nctl.Prelude.{
  String, Bool, not, ◌&&◌, ◌||◌, [], ◌∷◌, contains, ◌==◌, if◌then◌else◌, ◌≡◌, arith, refl,
  Bool-cases, inl, inr,
}

unfoldable pub effective_lifecycle : String → String → String
effective_lifecycle node platform =
    let pair = node ∷ platform ∷ [] in
    if contains "retired" pair
    then "retired"
    else if contains "deprecated" pair
    then "deprecated"
    else if contains "planned" pair
    then "planned"
    else if (node == "active") && (platform == "active")
    then "active"
    else "approved"

unfoldable pub is_actionable_lifecycle : String → Bool
is_actionable_lifecycle effective = contains effective ("active" ∷ "approved" ∷ [])

unfoldable pub desired_presence_requires_retired : String → String → Bool
desired_presence_requires_retired presence effective =
    not (presence == "absent") || (effective == "retired")

abbrev pub is_held : String → String → Bool
is_held node platform =
    contains "retired" (node ∷ platform ∷ [])
    || (contains "deprecated" (node ∷ platform ∷ []) || contains "planned" (node ∷ platform ∷ []))

actionable_unless_held :
    (node platform : String)
    → is_actionable_lifecycle (effective_lifecycle node platform) ≡ not (is_held node platform)
unfolding effective_lifecycle is_actionable_lifecycle
actionable_unless_held node platform =
    elim (Bool-cases (contains "retired" (node ∷ platform ∷ []))) [
      | inl r ↦ rw r refl
      | inr r ↦ elim (Bool-cases (contains "deprecated" (node ∷ platform ∷ []))) [
        | inl d ↦ rw (r, d) refl
        | inr d ↦ elim (Bool-cases (contains "planned" (node ∷ platform ∷ []))) [
          | inl p ↦ rw (r, d, p) refl
          | inr p ↦ elim (Bool-cases ((node == "active") && (platform == "active"))) [
            | inl a ↦ rw (r, d, p, a) refl
            | inr a ↦ rw (r, d, p, a) refl
          ]
        ]
      ]
    ]

-- The effective lifecycle does not depend on which of the two lifecycles is the node's, and it is actionable
-- exactly if neither of them is retired, deprecated or planned.
pub effective_lifecycle-is_actionable_lifecycle :
    (node platform : String)
    → (effective_lifecycle node platform ≡ effective_lifecycle platform node)
      × (is_actionable_lifecycle (effective_lifecycle node platform) ≡ not (is_held node platform))
unfolding effective_lifecycle
effective_lifecycle-is_actionable_lifecycle node platform =
    (ground arith, actionable_unless_held node platform)
