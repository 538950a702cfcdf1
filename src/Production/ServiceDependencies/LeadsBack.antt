-- ===== src/Production/ServiceDependencies/LeadsBack.antt =====
-- The search for a provider cycle, on the active placements.
use nctl.Prelude.{
  String, true, List, [], ◌∷◌, contains, contains-append, ◌≡◌, ◌↔◌, arith, ◌∙◌, Bool-cases, inl,
  inr, refl, sym, ap, ◌==◌, eq_iff,
}
use nctl.Prelude.Dict
use nctl.Production.Reaches.Sound.{Leads, arrived, bound}
use nctl.Production.Reaches.Total.{reaches_iff}
use mathlib.Core.Path.{subst}
use mathlib.Core.List.{Memᴰ}
use mathlib.Core.List.Memᴰ
use nctl.Production.Active.{
  Active, NodeInput, PlacementInput, BindingInput, listed, provider_ids, providers_in, providers_of,
  all_providers, succeeded, leads_back,
}

providers_of-all_providers :
    (active : Active) (x y : String)
    → contains y (providers_of active x) ≡ true
    → contains y (all_providers active) ≡ true
unfolding providers_of Dict.get
providers_of-all_providers [] x y m = cc
providers_of-all_providers ((s, l) ∷ rest) x y m = elim (Bool-cases (x == s)) [
  | inl here ↦
      let there = rw here at m in
      contains-append y (providers_in l) (all_providers rest) ∙ ground arith
  | inr later ↦
      let there = rw later at m in
      contains-append y (providers_in l) (all_providers rest)
      ∙ ground (arith, providers_of-all_providers rest x y)
]

-- _reaches ends, and is true exactly if the providers lead from the provider to the service.
pub leads_back-Leads :
    (active : Active) (provider service : String)
    → (leads_back active provider service ≡ true) ↔ Leads (providers_of active) service provider
unfolding leads_back
leads_back-Leads active provider service =
    let universe : List String = provider ∷ all_providers active in
    let (b, seen, q, iff) =
      reaches_iff universe (providers_of active) service
        (λ x y m. ground (arith, providers_of-all_providers active x y)) provider
        (ground (arith, eq_iff provider provider)) in
    rw (q, succeeded) iff

-- an active placement of the service has a binding to the provider
abbrev pub IsBound : Active → String → String → Type 0
IsBound active service provider =
    (n : NodeInput) × (p : PlacementInput) × (b : BindingInput) × Memᴰ (n, p)
      (listed (Dict.get active service))
    × Memᴰ b p.bindings
    × (b.provider_service_id ≡ provider)

-- a chain of bindings that ends at the target
pub data Chain (active : Active) (target : String) : String → Type 0 where
  there : (service : String) → service ≡ target → Chain active target service
  along :
      (service provider : String)
      → IsBound active service provider
      → Chain active target provider
      → Chain active target service

abbrev BoundIn : List (NodeInput × PlacementInput) → String → Type 0
BoundIn l y =
    (n : NodeInput) × (p : PlacementInput) × (b : BindingInput) × Memᴰ (n, p) l
    × Memᴰ b p.bindings
    × (b.provider_service_id ≡ y)

provider_ids-mem :
    (bs : List BindingInput) (y : String)
    → contains y (provider_ids bs) ≡ true
    → (b : BindingInput) × Memᴰ b bs × (b.provider_service_id ≡ y)
provider_ids-mem [] y h = absurd (cc h)
provider_ids-mem (b ∷ bs) y h = elim (Bool-cases (y == b.provider_service_id)) [
  | inl same ↦ (b, Memᴰ.head refl, sym ((eq_iff y b.provider_service_id).0 same))
  | inr other ↦ let (c, m, q) = provider_ids-mem bs y (rw other at h) in (c, Memᴰ.tail m, q)
]

mem-provider_ids :
    (bs : List BindingInput) (b : BindingInput)
    → Memᴰ b bs
    → contains b.provider_service_id (provider_ids bs) ≡ true
mem-provider_ids [] b m = absurd (Memᴰ.not-nil m)
mem-provider_ids (c ∷ bs) b m = elim (Memᴰ.cases_cons m) [
  | inl here ↦
      let q : b.provider_service_id ≡ c.provider_service_id =
        ap (λ (x : BindingInput). x.provider_service_id) here in
      ground (arith, eq_iff b.provider_service_id c.provider_service_id)
  | inr later ↦ let h = mem-provider_ids bs b later in ground arith
]

providers_in-BoundIn :
    (l : List (NodeInput × PlacementInput)) (y : String)
    → contains y (providers_in l) ≡ true
    → BoundIn l y
providers_in-BoundIn [] y h = absurd (cc h)
providers_in-BoundIn ((n, p) ∷ rest) y h =
    elim (Bool-cases (contains y (provider_ids p.bindings))) [
      | inl here ↦
          let (b, m, q) = provider_ids-mem p.bindings y here in (n, p, b, Memᴰ.head refl, m, q)
      | inr later ↦
          let (m, q, b, k, i, e) =
            providers_in-BoundIn rest y
              (rw (contains-append y (provider_ids p.bindings) (providers_in rest), later) at h) in
          (m, q, b, Memᴰ.tail k, i, e)
    ]

BoundIn-providers_in :
    (l : List (NodeInput × PlacementInput)) (y : String)
    → BoundIn l y
    → contains y (providers_in l) ≡ true
BoundIn-providers_in [] y (n, p, b, k, i, e) = absurd (Memᴰ.not-nil k)
BoundIn-providers_in ((m, q) ∷ rest) y (n, p, b, k, i, e) = elim (Memᴰ.cases_cons k) [
  | inl here ↦
      let j : Memᴰ b q.bindings =
        subst (λ (x : NodeInput × PlacementInput). Memᴰ b x.1.bindings) here i in
      let h : contains y (provider_ids q.bindings) ≡ true =
        subst (λ x. contains x (provider_ids q.bindings) ≡ true) e
          (mem-provider_ids q.bindings b j) in
      contains-append y (provider_ids q.bindings) (providers_in rest) ∙ ground arith
  | inr later ↦
      let h = BoundIn-providers_in rest y (n, p, b, later, i, e) in
      contains-append y (provider_ids q.bindings) (providers_in rest) ∙ ground arith
]

module _ {active : Active} {target : String} where
  Leads-Chain : {s : String} → Leads (providers_of active) target s → Chain active target s
  unfolding providers_of
  Leads-Chain (arrived s q) = there s q
  Leads-Chain (bound s y m l) =
      along s y (providers_in-BoundIn (listed (Dict.get active s)) y m) (Leads-Chain l)

  Chain-Leads : {s : String} → Chain active target s → Leads (providers_of active) target s
  unfolding providers_of
  Chain-Leads (there s q) = arrived s q
  Chain-Leads (along s y h c) =
      bound s y (BoundIn-providers_in (listed (Dict.get active s)) y h) (Chain-Leads c)

-- _reaches, with a new set of seen services, is true exactly if the provider is the service, or a chain
-- leads from the one to the other, in which each service has a placement in the index of the active
-- placements with a binding to the next.
pub leads_back_iff :
    (active : Active) (provider service : String)
    → (leads_back active provider service ≡ true) ↔ Chain active service provider
leads_back_iff active provider service =
    let (to, from) = leads_back-Leads active provider service in
    (λ h. Leads-Chain (to h), λ c. from (Chain-Leads c))
