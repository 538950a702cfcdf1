-- ===== src/Reconcile/DependencyCycles/Chains.antt =====
-- Chains of dependencies between declared profiles, and the order in which `visit` finishes them.
use nctl.Prelude.{
  String, true, false, List, [], ◌∷◌, some, ◌≡◌, contains, arith, ◌==◌, eq_iff, Bool-cases, inl,
  inr,
}
use mathlib.Core.Path.{subst}
use nctl.Prelude.Dict
use nctl.Prelude.Dict.{Dict, is_some, contains-keys}

module _ (entries : Dict (List String)) where
  abbrev pub names : List String
  names = Dict.keys entries

  -- a declared profile depends on a declared profile
  abbrev pub Edge : String → String → Type 0
  Edge x y =
      (deps : List String) × (Dict.get entries x ≡ some deps)
      × (contains y deps ≡ true)
      × (contains y names ≡ true)

  pub data Chain (x : String) : String → Type 0 where
    one : {y : String} → Edge x y → Chain x y
    more : {y z : String} → Chain x y → Edge y z → Chain x z

  -- Every visited profile stands before the declared ones that it depends on, each once.
  abbrev pub Closed : List String → Type 0
  Closed [] = Unit
  Closed (x ∷ xs) =
      (contains x xs ≡ false) × ((d : String) → Edge x d → contains d xs ≡ true) × Closed xs

  Closed-Edge :
      (vs : List String) (x d : String)
      → Closed vs
      → contains x vs ≡ true
      → Edge x d
      → contains d vs ≡ true
  Closed-Edge [] x d c m e = absurd (cc m)
  Closed-Edge (v ∷ vs) x d (new, here, c) m e = elim (Bool-cases (x == v)) [
    | inl same ↦ ground (arith, here d (subst (λ y. Edge y d) ((eq_iff x v).0 same) e))
    | inr other ↦ ground (arith, Closed-Edge vs x d c (ground arith) e)
  ]

  Closed-Chain :
      (v : String) (vs : List String) (y : String)
      → Closed (v ∷ vs)
      → Chain v y
      → contains y vs ≡ true
  Closed-Chain v vs y (new, here, c) (one e) = here y e
  Closed-Chain v vs z (new, here, c) (more {y} l e) =
      Closed-Edge vs y z c (Closed-Chain v vs y (new, here, c) l) e

  pub Closed-acyclic :
      (vs : List String) (x : String) → Closed vs → contains x vs ≡ true → Chain x x → ⊥
  Closed-acyclic [] x c m l = absurd (cc m)
  Closed-acyclic (v ∷ vs) x (new, here, c) m l = elim (Bool-cases (x == v)) [
    | inl same ↦
        let around : Chain v v = subst (λ y. Chain y y) ((eq_iff x v).0 same) l in
        absurd (ground (arith, Closed-Chain v vs v (new, here, c) around))
    | inr other ↦ Closed-acyclic vs x c (ground arith) l
  ]
