-- ===== src/Production/Reaches/Sound.antt =====
-- A search that succeeds has found a chain of bindings.
use nctl.Prelude.{
  ℕ, zero, suc, String, true, false, List, [], ◌∷◌, none, some, contains, ◌≡◌, ◌⊎◌, refl, arith,
  Bool-cases, inl, inr, ◌==◌, eq_iff,
}
use nctl.Production.Reaches.{Found, try_each, reaches}

-- a chain of bindings from a service to the target
pub data Leads (providers : String → List String) (target : String) : String → Type 0 where
  arrived : (service : String) → service ≡ target → Leads providers target service
  bound :
      (service provider : String)
      → contains provider (providers service) ≡ true
      → Leads providers target provider
      → Leads providers target service

pub Found-cases :
    (r : Found)
    → (r ≡ none)
      ⊎ (((s : List String) × (r ≡ some (true, s))) ⊎ ((s : List String) × (r ≡ some (false, s))))
Found-cases none = inl refl
Found-cases (some (true, s)) = inr (inl (s, refl))
Found-cases (some (false, s)) = inr (inr (s, refl))

module _ (providers : String → List String) (target : String) where
  try_each-Leads :
      (step : String → List String → Found)
      → ((y : String) (seen later : List String)
          → step y seen ≡ some (true, later)
          → Leads providers target y)
      → (ys seen later : List String) → try_each step ys seen ≡ some (true, later)
      → (y : String) × (contains y ys ≡ true) × Leads providers target y
  unfolding try_each
  try_each-Leads step leads [] seen later h = absurd (cc h)
  try_each-Leads step leads (y ∷ ys) seen later h = elim (Found-cases (step y seen)) [
    | inl out ↦ absurd (ground arith)
    | inr (inl (s, q)) ↦ (y, ground (arith, eq_iff y y), leads y seen s q)
    | inr (inr (s, q)) ↦
        let (z, m, l) = try_each-Leads step leads ys s later (ground arith) in (z, ground arith, l)
  ]

  pub reaches-Leads :
      (fuel : ℕ) (service : String) (seen later : List String)
      → reaches providers target fuel service seen ≡ some (true, later)
      → Leads providers target service
  unfolding reaches
  reaches-Leads zero service seen later h = absurd (cc h)
  reaches-Leads (suc fuel) service seen later h = elim (Bool-cases (service == target)) [
    | inl here ↦ Leads.arrived service ((eq_iff service target).0 here)
    | inr away ↦ elim (Bool-cases (contains service seen)) [
      | inl old ↦ absurd (ground arith)
      | inr new ↦
          let (y, m, l) =
            try_each-Leads (reaches providers target fuel) (reaches-Leads fuel) (providers service)
              (service ∷ seen) later (ground arith) in
          Leads.bound service y m l
    ]
  ]
