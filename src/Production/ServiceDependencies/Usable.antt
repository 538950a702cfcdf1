-- ===== src/Production/ServiceDependencies/Usable.antt =====
-- What a resolved binding may rely on.
use nctl.Prelude.{
  ℕ, String, Bool, false, List, [], ◌∷◌, Option, none, some, ◌≤◌, ◌≡◌, ◌⊎◌, refl, sym, arith,
  Bool-cases, inl, inr, ◌==◌, eq_iff,
}
use nctl.Prelude.Dict
use nctl.Prelude.Result.{ok, ok_inj}
use nctl.Production.Active.{
  BindingInput, PlacementInput, EndpointCandidate, NodeInput, Url, Resolution, Active, Endpoints,
  listed, leads_back,
}
use nctl.Production.ServiceDependencies.{
  unless_empty, protocol_text, address, url_with, endpoint_url, resolved, use_url, use_endpoint,
  use_provider, use_candidates, use_variable, resolve_binding,
}
use nctl.Production.ServiceDependencies.LeadsBack.{Chain, leads_back_iff}

module _ (lower : String → String) (ip_interface : String → Option String)
    (ip_version : String → Option ℕ) (binding_variable : String → String → Option String) where
  abbrev url_of : EndpointCandidate → Option Url
  url_of = endpoint_url lower ip_interface ip_version binding_variable

  -- a port of TCP, and a protocol of the web
  abbrev pub IsWebUrl : Url → Type 0
  IsWebUrl u = (1 ≤ u.port) × (u.port ≤ 65535) × ((u.protocol ≡ "http") ⊎ (u.protocol ≡ "https"))

  abbrev with : String → Option String → Option ℕ → Option Url
  with = url_with lower ip_interface ip_version binding_variable

  url_with-IsWebUrl :
      (protocol : String) (host : Option String) (port : Option ℕ) (u : Url)
      → with protocol host port ≡ some u
      → IsWebUrl u
  url_with-IsWebUrl protocol none port u h = absurd (cc h)
  url_with-IsWebUrl protocol (some host) none u h = absurd (cc h)
  url_with-IsWebUrl protocol (some host) (some port) u h =
      let low : 1 ≤ u.port = ground arith in
      let high : u.port ≤ 65535 = ground arith in
      elim (Bool-cases (protocol == "http")) [
        | inl plain ↦ (low, high, inl (ground (arith, eq_iff protocol "http")))
        | inr other ↦ (low, high, inr (ground (arith, eq_iff protocol "https")))
      ]

  url_of-IsWebUrl : (e : EndpointCandidate) (u : Url) → url_of e ≡ some u → IsWebUrl u
  unfolding endpoint_url
  url_of-IsWebUrl e u h =
      url_with-IsWebUrl (protocol_text lower ip_interface ip_version binding_variable e.protocol)
        (address lower ip_interface ip_version binding_variable e) e.port u h

  module _ (placement : PlacementInput) (binding : BindingInput) (active : Active)
      (endpoints : Endpoints) where
    -- the endpoint of the provider's placement, on the provider's node
    abbrev Serves : String → NodeInput → PlacementInput → Resolution → Type 0
    Serves variable node provider r =
        (owner : NodeInput) × (endpoint : EndpointCandidate) × (id : String) × (url : Url)
        × (unless_empty provider.endpoint_id ≡ some id)
        × (Dict.get endpoints id ≡ some (owner, endpoint))
        × (owner.id ≡ node.id)
        × (url_of endpoint ≡ some url)
        × IsWebUrl url
        × (r
            ≡ resolved lower ip_interface ip_version binding_variable variable placement binding
                provider endpoint.id url)

    -- what a resolution stands on
    abbrev pub IsUsable : Resolution → Type 0
    IsUsable r =
        (variable : String) × (node : NodeInput) × (provider : PlacementInput) × (binding_variable
            placement.deployment_profile binding.binding_name
          ≡ some variable)
        × ((binding.provider_service_id == placement.service_id) ≡ false)
        × (listed (Dict.get active binding.provider_service_id) ≡ (node, provider) ∷ [])
        × ((placement.service_id ≡ "")
            ⊎ (Chain active placement.service_id binding.provider_service_id → ⊥))
        × Serves variable node provider r

    use_url-Serves :
        (variable : String) (node owner : NodeInput) (provider : PlacementInput)
        (endpoint : EndpointCandidate) (id : String) (o : Option Url) (r : Resolution)
        → unless_empty provider.endpoint_id ≡ some id
        → Dict.get endpoints id ≡ some (owner, endpoint)
        → owner.id ≡ node.id
        → url_of endpoint ≡ o
        → use_url lower ip_interface ip_version binding_variable variable placement binding provider
            endpoint.id o
          ≡ ok r
        → Serves variable node provider r
    use_url-Serves variable node owner provider endpoint id none r named there here q h =
        absurd (cc h)
    use_url-Serves variable node owner provider endpoint id (some url) r named there here q h = (
      owner,
      endpoint,
      id,
      url,
      named,
      there,
      here,
      q,
      url_of-IsWebUrl endpoint url q,
      sym (ok_inj String Resolution _ r h),
    )

    use_endpoint-Serves :
        (variable : String) (node : NodeInput) (provider : PlacementInput) (id : String)
        (o : Option (NodeInput × EndpointCandidate)) (r : Resolution)
        → unless_empty provider.endpoint_id ≡ some id
        → Dict.get endpoints id ≡ o
        → use_endpoint lower ip_interface ip_version binding_variable variable placement binding
            node provider o
          ≡ ok r
        → Serves variable node provider r
    use_endpoint-Serves variable node provider id none r named there h = absurd (cc h)
    use_endpoint-Serves variable node provider id (some (owner, endpoint)) r named there h =
        elim (Bool-cases (owner.id == node.id)) [
          | inl here ↦
              use_url-Serves variable node owner provider endpoint id (url_of endpoint) r named
                there ((eq_iff owner.id node.id).0 here) refl (rw here at h)
          | inr away ↦ let h' = rw away at h in absurd (cc h')
        ]

    use_provider-Serves :
        (variable : String) (node : NodeInput) (provider : PlacementInput) (o : Option String)
        (r : Resolution)
        → unless_empty provider.endpoint_id ≡ o
        → use_provider lower ip_interface ip_version binding_variable variable placement binding
            endpoints node provider o
          ≡ ok r
        → Serves variable node provider r
    use_provider-Serves variable node provider none r named h = absurd (cc h)
    use_provider-Serves variable node provider (some id) r named h =
        use_endpoint-Serves variable node provider id (Dict.get endpoints id) r named refl h

    use_candidates-IsUsable :
        (variable : String) (l : List (NodeInput × PlacementInput)) (r : Resolution)
        → binding_variable placement.deployment_profile binding.binding_name ≡ some variable
        → (binding.provider_service_id == placement.service_id) ≡ false
        → listed (Dict.get active binding.provider_service_id) ≡ l
        → use_candidates lower ip_interface ip_version binding_variable variable placement binding
            active endpoints l
          ≡ ok r
        → IsUsable r
    use_candidates-IsUsable variable [] r declared other only h = absurd (cc h)
    use_candidates-IsUsable variable (first ∷ second ∷ rest) r declared other only h = absurd (cc h)
    use_candidates-IsUsable variable ((node, provider) ∷ []) r declared other only h =
        let back : Bool = leads_back active binding.provider_service_id placement.service_id in
        let serves =
          λ (g : use_provider lower ip_interface ip_version binding_variable variable placement
                binding endpoints node provider (unless_empty provider.endpoint_id)
              ≡ ok r).
            use_provider-Serves variable node provider (unless_empty provider.endpoint_id) r refl
              g in
        elim (Bool-cases (placement.service_id == "")) [
          | inl nameless ↦ (
            variable,
            node,
            provider,
            declared,
            other,
            only,
            inl ((eq_iff placement.service_id "").0 nameless),
            serves (rw nameless at h),
          )
          | inr named ↦ elim (Bool-cases back) [
            | inl cyclic ↦ let h' = rw (named, cyclic) at h in absurd (cc h')
            | inr free ↦ (
              variable,
              node,
              provider,
              declared,
              other,
              only,
              inr (λ l.
                  let t =
                    (leads_back_iff active binding.provider_service_id placement.service_id).1 l in
                  absurd (cc (t, free))),
              serves (rw (named, free) at h),
            )
          ]
        ]

    use_variable-IsUsable :
        (o : Option String) (r : Resolution)
        → binding_variable placement.deployment_profile binding.binding_name ≡ o
        → use_variable lower ip_interface ip_version binding_variable placement binding active
            endpoints o
          ≡ ok r
        → IsUsable r
    use_variable-IsUsable none r declared h = absurd (cc h)
    use_variable-IsUsable (some variable) r declared h =
        elim (Bool-cases (binding.provider_service_id == placement.service_id)) [
          | inl self ↦ let h' = rw self at h in absurd (cc h')
          | inr other ↦
              use_candidates-IsUsable variable
                (listed (Dict.get active binding.provider_service_id)) r declared other refl
                (rw other at h)
        ]

    -- A binding that resolves is declared by its profile, points at another service with exactly one
    -- active placement, from which no chain of bindings leads back to the consumer's service, and yields
    -- an HTTP or HTTPS URL with a port of TCP, that of the endpoint which the provider's placement names, on the
    -- provider's node.
    pub resolve_binding-IsUsable :
        (r : Resolution)
        → resolve_binding lower ip_interface ip_version binding_variable placement binding active
            endpoints
          ≡ ok r
        → IsUsable r
    unfolding resolve_binding
    resolve_binding-IsUsable r h =
        use_variable-IsUsable (binding_variable placement.deployment_profile binding.binding_name) r
          refl h
