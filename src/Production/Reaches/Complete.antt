-- ===== src/Production/Reaches/Complete.antt =====
-- A search that fails has looked at everything that the service depends on, and every search ends.
use nctl.Prelude.{
  ℕ, zero, suc, String, true, false, List, [], ◌∷◌, some, contains, ◌≡◌, refl, arith, Bool-cases,
  inl, inr, ◌==◌, eq_iff,
}
use nctl.Prelude.Sets.{Within}
use nctl.Production.Reaches.{Found, try_each, reaches}
use nctl.Production.Reaches.Sound.{Leads, Found-cases}

module _ (providers : String → List String) (target : String) where
  -- the services that were searched since `seen` do not include the target, and what they depend on was
  -- searched
  abbrev pub IsSearched : List String → List String → Type 0
  IsSearched seen later =
      Within seen later
      × ((x : String)
          → contains x later ≡ true
          → contains x seen ≡ false
          → ((x == target) ≡ false)
            × ((y : String) → contains y (providers x) ≡ true → contains y later ≡ true))

  IsSearched-trans : (a b c : List String) → IsSearched a b → IsSearched b c → IsSearched a c
  IsSearched-trans a b c (w, n) (w', n') = (
    λ x m. w' x (w x m),
    λ x m k. elim (Bool-cases (contains x b)) [
      | inl mid ↦ ((n x mid k).0, λ y d. w' y ((n x mid k).1 y d))
      | inr late ↦ n' x m late
    ],
  )

  -- the service is among those searched, and is not the target
  abbrev pub Fails : String → List String → List String → Type 0
  Fails y seen later = IsSearched seen later × (contains y later ≡ true)

  try_each-Fails :
      (step : String → List String → Found)
      → ((y : String) (seen later : List String)
          → step y seen ≡ some (false, later)
          → Fails y seen later)
      → (ys seen later : List String) → try_each step ys seen ≡ some (false, later)
      → IsSearched seen later × ((y : String) → contains y ys ≡ true → contains y later ≡ true)
  unfolding try_each
  try_each-Fails step fails [] seen later h =
      let same : seen ≡ later = ground arith in
      rw (← same) ((λ x m. m, λ x m k. absurd (ground arith)), λ y m. absurd (cc m))
  try_each-Fails step fails (y ∷ ys) seen later h = elim (Found-cases (step y seen)) [
    | inl out ↦ absurd (ground arith)
    | inr (inl (s, q)) ↦ absurd (ground arith)
    | inr (inr (s, q)) ↦
        let (searched, all) = try_each-Fails step fails ys s later (ground arith) in
        let (first, m) = fails y seen s q in
        (
          IsSearched-trans seen s later first searched,
          λ z k. elim (Bool-cases (z == y)) [
            | inl here ↦ rw ((eq_iff z y).0 here) (searched.0 y m)
            | inr there ↦ all z (ground arith)
          ],
        )
  ]

  pub reaches-Fails :
      (fuel : ℕ) (service : String) (seen later : List String)
      → reaches providers target fuel service seen ≡ some (false, later)
      → Fails service seen later
  unfolding reaches
  reaches-Fails zero service seen later h = absurd (cc h)
  reaches-Fails (suc fuel) service seen later h = elim (Bool-cases (service == target)) [
    | inl here ↦ absurd (ground arith)
    | inr away ↦ elim (Bool-cases (contains service seen)) [
      | inl old ↦
          let same : seen ≡ later = ground arith in
          rw (← same) ((λ x m. m, λ x m k. absurd (ground arith)), old)
      | inr new ↦
          let (searched, all) =
            try_each-Fails (reaches providers target fuel) (reaches-Fails fuel) (providers service)
              (service ∷ seen) later (ground arith) in
          (
            (
              λ x m. searched.0 x (ground arith),
              λ x m k. elim (Bool-cases (x == service)) [
                | inl self ↦ rw ((eq_iff x service).0 self) (away, all)
                | inr other ↦ searched.1 x m (ground arith)
              ],
            ),
            searched.0 service (ground (arith, eq_iff service service)),
          )
    ]
  ]

  -- what leads to the target was not searched in vain
  pub searched_in_vain :
      (later : List String)
      → IsSearched [] later
      → (x : String) → contains x later ≡ true
      → Leads providers target x
      → ⊥
  searched_in_vain later s x m (Leads.arrived y q) =
      absurd (ground (arith, (s.1 x m refl).0, eq_iff x target))
  searched_in_vain later s x m (Leads.bound y z d l) =
      searched_in_vain later s z ((s.1 x m refl).1 z d) l
