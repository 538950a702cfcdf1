-- ===== src/Compute/Endpoints/Selected.antt =====
-- When an instance has a primary endpoint, and what the endpoint offers.
use nctl.Prelude.{
  String, Bool, true, false, List, [], ◌∷◌, ◌++◌, Option, none, some, select, any, All, ◌≡◌, ◌⊎◌,
  refl, ap, Bool-cases, inl, inr, if◌then◌else◌,
}
use mathlib.Core.Path.{subst}
use nctl.Compute.Endpoints.{
  DesiredEndpoint, Interface, Gateway, is_candidate, sole, select_compute_primary_endpoint,
}

module _ (ip_interface : String → Option Interface) (ip_address : String → Option Gateway) where
  abbrev fits : DesiredEndpoint → Bool
  fits = is_candidate ip_interface ip_address

  abbrev selects : List DesiredEndpoint → Option DesiredEndpoint × Option String
  selects = select_compute_primary_endpoint ip_interface ip_address

  -- the only one of the endpoints that fits, between others that do not
  abbrev pub IsOnly : DesiredEndpoint → List DesiredEndpoint → Type 0
  IsOnly e es =
      (before after : List DesiredEndpoint) × (es ≡ before ++ e ∷ after)
      × (fits e ≡ true)
      × All (λ f. fits f ≡ false) before
      × All (λ f. fits f ≡ false) after

  select-none : (es : List DesiredEndpoint) → select fits es ≡ [] → All (λ f. fits f ≡ false) es
  select-none [] h = tt
  select-none (e ∷ es) h = elim (Bool-cases (fits e)) [
    | inl good ↦ let h' = rw (good, if◌then◌else◌) at h in absurd (cc h')
    | inr bad ↦ (bad, select-none es (rw (bad, if◌then◌else◌) at h))
  ]

  select-IsOnly :
      (e : DesiredEndpoint) (es : List DesiredEndpoint) → select fits es ≡ e ∷ [] → IsOnly e es
  select-IsOnly e [] h = absurd (cc h)
  select-IsOnly e (f ∷ es) h = elim (Bool-cases (fits f)) [
    | inl good ↦
        let h' = rw (good, if◌then◌else◌) at h in
        let same : f ≡ e = cc h' in
        let rest : select fits es ≡ [] = cc h' in
        (
          [],
          es,
          ap (λ g. g ∷ es) same,
          subst (λ g. fits g ≡ true) same good,
          tt,
          select-none es rest,
        )
    | inr bad ↦
        let (before, after, q, g, l, r) = select-IsOnly e es (rw (bad, if◌then◌else◌) at h) in
        (f ∷ before, after, ap (λ t. f ∷ t) q, g, (bad, l), r)
  ]

  -- one that fits, and a later one that fits too
  abbrev pub AreSeveral : List DesiredEndpoint → Type 0
  AreSeveral es =
      (before after : List DesiredEndpoint) × (e : DesiredEndpoint) × (es ≡ before ++ e ∷ after)
      × (fits e ≡ true)
      × (any fits after ≡ true)

  select-any :
      (e : DesiredEndpoint) (es rest : List DesiredEndpoint)
      → select fits es ≡ e ∷ rest
      → any fits es ≡ true
  select-any e [] rest h = absurd (cc h)
  select-any e (f ∷ es) rest h = elim (Bool-cases (fits f)) [
    | inl good ↦ rw good refl
    | inr bad ↦ rw bad (select-any e es rest (rw (bad, if◌then◌else◌) at h))
  ]

  select-AreSeveral :
      (e f : DesiredEndpoint) (es rest : List DesiredEndpoint)
      → select fits es ≡ e ∷ f ∷ rest
      → AreSeveral es
  select-AreSeveral e f [] rest h = absurd (cc h)
  select-AreSeveral e f (g ∷ es) rest h = elim (Bool-cases (fits g)) [
    | inl good ↦
        let h' = rw (good, if◌then◌else◌) at h in
        let later : select fits es ≡ f ∷ rest = cc h' in
        ([], es, g, refl, good, select-any f es rest later)
    | inr bad ↦
        let (before, after, k, q, fit, more) =
          select-AreSeveral e f es rest (rw (bad, if◌then◌else◌) at h) in
        (g ∷ before, after, k, ap (λ t. g ∷ t) q, fit, more)
  ]

  -- the answer says how many endpoints fit
  abbrev pub IsAnswer : List DesiredEndpoint → Option DesiredEndpoint × Option String → Type 0
  IsAnswer es (some e, code) = (code ≡ none) × IsOnly e es
  IsAnswer es (none, code) =
      ((code ≡ some "compute_primary_endpoint_missing") × All (λ f. fits f ≡ false) es)
      ⊎ ((code ≡ some "compute_primary_endpoint_ambiguous") × AreSeveral es)

  sole-IsAnswer :
      (es l : List DesiredEndpoint)
      → select fits es ≡ l
      → IsAnswer es (sole ip_interface ip_address l)
  sole-IsAnswer es [] h = inl (refl, select-none es h)
  sole-IsAnswer es (e ∷ []) h = (refl, select-IsOnly e es h)
  sole-IsAnswer es (e ∷ f ∷ rest) h = inr (refl, select-AreSeveral e f es rest h)

  -- The selection answers with an endpoint exactly if it is the only one of the node's that fits, with the
  -- code of a missing one if none fits, and with the code of an ambiguous one if several fit.
  pub select_compute_primary_endpoint-IsAnswer :
      (es : List DesiredEndpoint)
      → IsAnswer es (select_compute_primary_endpoint ip_interface ip_address es)
  unfolding select_compute_primary_endpoint
  select_compute_primary_endpoint-IsAnswer es = sole-IsAnswer es (select fits es) refl
