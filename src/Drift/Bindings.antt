-- ===== src/Drift/Bindings.antt =====
-- src/nctl_core/drift/binding_evaluation.py: the state of a consumer's binding. The evidence is left out,
-- since it copies the inputs; moments and ages are whole numbers, 3600 to the hour.
mod Precedence
mod Examples
use nctl.Prelude.{
  ℕ, ◌-◌, ◌*◌, String, Bool, true, false, not, ◌||◌, Option, none, some, ltb, ◌==◌, if◌then◌else◌,
}
use nctl.Compute.Text.{strip}
use nctl.Drift.Engine.{replace_z}

pub record BindingCheck : Type 0 where
  pub desired_url : String
  pub provider_converged : Bool

pub data BindingState : Type 0 where
  unknown unbound misbound unreachable satisfied : BindingState

pub record BindingEvaluation : Type 0 where
  pub state : BindingState
  pub gap_code : Option String
  pub converged : Bool

-- what the node reports of the binding
pub record Observed : Type 0 where
  pub configuration_status : Option String
  pub configured_endpoint : Option String
  pub reachability_status : Option String
  pub checked_at : Option String

-- `value or ""`
abbrev pub or_empty : Option String → String
or_empty none = ""
or_empty (some s) = s

-- `status == text`, where the status may be None
abbrev pub is_text : Option String → String → Bool
is_text none t = false
is_text (some s) t = s == t

abbrev is_missing : Option String → Bool
is_missing none = true
is_missing (some s) = false

-- `fromisoformat` reads a moment as UTC, with `none` for a ValueError
module _ (fromisoformat : String → Option ℕ) where
  abbrev age_from : ℕ → Option ℕ → Option ℕ
  age_from now none = none
  age_from now (some t) = some (now - t)

  unfoldable pub age_seconds : Option String → ℕ → Option ℕ
  unfolding strip replace_z
  age_seconds value now =
      let text = replace_z (strip (or_empty value)) in
      if text == "" then none else age_from now (fromisoformat text)

  abbrev pub is_stale : Option ℕ → ℕ → Bool
  is_stale none hours = true
  is_stale (some age) hours = ltb (hours * 3600) age

  abbrev pub no_evidence : Observed → ℕ → ℕ → Bool
  no_evidence o now hours =
      is_missing o.configuration_status
      || (is_text o.configuration_status "unreadable"
          || is_stale (age_seconds o.checked_at now) hours)

  abbrev gap : BindingState → String → BindingEvaluation
  gap state code = record { state = state; gap_code = some code; converged = false }

  -- what the URLs and the reachability say
  unfoldable pub compare : BindingCheck → Observed → Bool → BindingEvaluation
  compare check o same =
      if not same
      then gap misbound "binding_misbound"
      else if not (is_text o.reachability_status "reachable")
      then gap unreachable "binding_unreachable"
      else if not check.provider_converged
      then gap satisfied "binding_provider_not_converged"
      else record { state = satisfied; gap_code = none; converged = true }

  -- `configured != desired`, where the normalization of either may raise
  abbrev pub compare_urls :
      BindingCheck → Observed → Option String → Option String → Option BindingEvaluation
  compare_urls check o none desired = none
  compare_urls check o (some configured) none = none
  compare_urls check o (some configured) (some desired) =
      some (compare check o (configured == desired))

  -- `normalize` is normalize_endpoint_url, with `none` for the ValueError of a bad port or address; the
  -- result is `none` if it gets through
  unfoldable pub evaluate_binding_state :
      (String → Option String) → BindingCheck → Observed → ℕ → ℕ → Option BindingEvaluation
  unfolding age_seconds compare
  evaluate_binding_state normalize check o now stale_after_hours =
      if no_evidence o now stale_after_hours
      then some (gap unknown "binding_unknown")
      else if is_text o.configuration_status "absent"
      then some (gap unbound "binding_unbound")
      else compare_urls check o (normalize (or_empty o.configured_endpoint))
          (normalize check.desired_url)
