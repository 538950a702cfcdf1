-- ===== src/Drift/Bindings/Precedence.antt =====
-- When a binding counts as converged.
use nctl.Prelude.{
  ℕ, ◌*◌, String, Bool, true, false, not, ◌&&◌, Option, none, some, ◌≤◌, ◌≡◌, ◌↔◌, ◌==◌,
}
use nctl.Drift.Bindings.{
  BindingCheck, BindingEvaluation, Observed, compare_urls, or_empty, is_text, age_seconds,
  no_evidence, evaluate_binding_state,
}

abbrev is_converged : Option BindingEvaluation → Bool
is_converged none = false
is_converged (some e) = e.converged

abbrev same_url : Option String → Option String → Bool
same_url (some a) (some b) = a == b
same_url a b = false

-- no gap means that the binding counts as converged
abbrev Agrees : Option BindingEvaluation → Type 0
Agrees none = Unit
Agrees (some e) = (e.gap_code ≡ none) ↔ (e.converged ≡ true)

module _ (fromisoformat : String → Option ℕ) (normalize : String → Option String)
    (check : BindingCheck) (o : Observed) (now stale_after_hours : ℕ) where
  abbrev evaluated : Option BindingEvaluation
  evaluated = evaluate_binding_state fromisoformat normalize check o now stale_after_hours

  -- fresh evidence that the configuration is there, names the desired endpoint, and reaches it
  abbrev pub IsEvident : Type 0
  IsEvident =
      (status : String) × (age : ℕ) × (o.configuration_status ≡ some status)
      × ((status == "unreadable") ≡ false)
      × ((status == "absent") ≡ false)
      × (age_seconds fromisoformat o.checked_at now ≡ some age)
      × (age ≤ stale_after_hours * 3600)
      × ((url : String) × (normalize (or_empty o.configured_endpoint) ≡ some url)
          × (normalize check.desired_url ≡ some url))
      × (o.reachability_status ≡ some "reachable")

  tests : Bool
  tests =
      not (no_evidence fromisoformat o now stale_after_hours)
      && (not (is_text o.configuration_status "absent")
          && (same_url (normalize (or_empty o.configured_endpoint)) (normalize check.desired_url)
              && is_text o.reachability_status "reachable"))

  abbrev last_step : Option BindingEvaluation
  last_step =
      compare_urls fromisoformat check o (normalize (or_empty o.configured_endpoint))
        (normalize check.desired_url)
