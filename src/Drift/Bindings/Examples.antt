-- ===== src/Drift/Bindings/Examples.antt =====
-- A binding that was checked half an hour ago.
use nctl.Prelude.{ℕ, String, true, Option, none, some, ◌≡◌, refl}
use nctl.Drift.Bindings.{BindingCheck, satisfied, Observed, evaluate_binding_state}

abbrev moment : String → Option ℕ
moment t = some 1800

abbrev check : BindingCheck
check = record { desired_url = "http://db:5432"; provider_converged = true }

abbrev observed : Observed
observed = record {
  configuration_status = some "present";
  configured_endpoint = some "http://db:5432";
  reachability_status = some "reachable";
  checked_at = some "t";
}

abbrev as_it_is : String → Option String
as_it_is s = some s

converged-evaluate_binding_state :
    evaluate_binding_state moment as_it_is check observed 3600 1
    ≡ some (record { state = satisfied; gap_code = none; converged = true })
unfolding evaluate_binding_state
converged-evaluate_binding_state = refl
