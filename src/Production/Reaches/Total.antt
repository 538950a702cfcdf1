-- ===== src/Production/Reaches/Total.antt =====
-- A search ends, and its answer is whether a chain of bindings leads to the target.
use nctl.Prelude.{
  ℕ, zero, suc, String, Bool, true, false, List, [], ◌∷◌, some, contains, length, ◌+◌, ◌≤◌, ◌<◌,
  ◌≡◌, ◌↔◌, refl, arith, Bool-cases, inl, inr, ◌==◌, eq_iff,
}
use nctl.Prelude.Sets.{Distinct, Within, length-le_of_Within}
use nctl.Production.Reaches.{Found, try_each, reaches}
use nctl.Production.Reaches.Sound.{Leads, reaches-Leads}
use nctl.Production.Reaches.Complete.{reaches-Fails, searched_in_vain}

module _ (universe : List String) where
  -- what a search may have seen: services of the universe, none twice
  abbrev IsSeen : List String → Type 0
  IsSeen seen = Distinct seen × Within seen universe

  abbrev Ends : List String → Found → Type 0
  Ends seen r =
      (b : Bool) × (later : List String) × (r ≡ some (b, later))
      × IsSeen later
      × (length seen ≤ length later)

  try_each-Ends :
      (step : String → List String → Found) (low : ℕ)
      → ((y : String) (seen : List String)
          → contains y universe ≡ true
          → IsSeen seen
          → low ≤ length seen
          → Ends seen (step y seen))
      → (ys seen : List String) → Within ys universe
      → IsSeen seen
      → low ≤ length seen
      → Ends seen (try_each step ys seen)
  unfolding try_each
  try_each-Ends step low ends [] seen w s l = (false, seen, refl, s, omega arith)
  try_each-Ends step low ends (y ∷ ys) seen w s l =
      let (b, later, q, s', l') = ends y seen (w y (ground (arith, eq_iff y y))) s l in
      after b later q s' l'
        (try_each-Ends step low ends ys later (λ z m. w z (ground arith)) s' (omega arith))
    where
      after :
          (b : Bool) (later : List String)
          → step y seen ≡ some (b, later)
          → IsSeen later
          → length seen ≤ length later
          → Ends later (try_each step ys later)
          → Ends seen (try_each step (y ∷ ys) seen)
      after true later q s' l' rest = rw (q, try_each) (true, later, refl, s', l')
      after false later q s' l' (b, last, r, t, m) =
          rw (q, try_each, r) (b, last, refl, t, omega arith)

  module _ (providers : String → List String) (target : String)
      (closed : (x : String) → Within (providers x) universe) where
    reaches-Ends :
        (fuel : ℕ) (service : String) (seen : List String)
        → contains service universe ≡ true
        → IsSeen seen
        → length universe < fuel + length seen
        → Ends seen (reaches providers target fuel service seen)
    unfolding reaches
    reaches-Ends zero service seen m s enough =
        absurd (omega (arith, length-le_of_Within seen universe s.0 s.1))
    reaches-Ends (suc fuel) service seen m s enough = elim (Bool-cases (service == target)) [
      | inl here ↦ rw here (true, seen, refl, s, omega arith)
      | inr away ↦ elim (Bool-cases (contains service seen)) [
        | inl old ↦ rw (away, old) (false, seen, refl, s, omega arith)
        | inr new ↦
            let (b, later, q, s', l) =
              try_each-Ends (reaches providers target fuel) (suc (length seen))
                (λ y deeper n t low. reaches-Ends fuel y deeper n t (omega arith))
                (providers service) (service ∷ seen) (closed service)
                (
                  (new, s.0),
                  λ x n. elim (Bool-cases (x == service)) [
                    | inl self ↦ rw ((eq_iff x service).0 self) m
                    | inr other ↦ s.1 x (ground arith)
                  ],
                )
                (omega arith) in
            rw (away, new) (b, later, q, s', omega arith)
      ]
    ]

    -- With one more unit of fuel than there are services, and none seen yet, the search ends, and it says that the target is
    -- reached exactly if a chain of bindings leads to it.
    pub reaches_iff :
        (service : String)
        → contains service universe ≡ true
        → (b : Bool) × (later : List String) × (reaches providers target
              (suc (length universe))
              service
              []
            ≡ some (b, later))
          × ((b ≡ true) ↔ Leads providers target service)
    reaches_iff service m =
        let (b, later, q, s, l) =
          reaches-Ends (suc (length universe)) service [] m (tt, λ x n. absurd (cc n))
            (omega arith) in
        (b, later, q, answer b later q)
      where
        answer :
            (b : Bool) (later : List String)
            → reaches providers target (suc (length universe)) service [] ≡ some (b, later)
            → (b ≡ true) ↔ Leads providers target service
        answer true later q = (
          λ t. reaches-Leads providers target (suc (length universe)) service [] later q,
          λ l. refl,
        )
        answer false later q =
            let (searched, m') =
              reaches-Fails providers target (suc (length universe)) service [] later q in
            (
              λ f. absurd (cc f),
              λ l. absurd (searched_in_vain providers target later searched service m' l),
            )
