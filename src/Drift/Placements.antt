-- ===== src/Drift/Placements.antt =====
-- src/nctl_core/drift/service_placement.py: the gaps of an active placement, by their codes. The report's
-- copies of its inputs are left out; moments and ages are whole numbers, 3600 to the hour.
mod Quiet
mod Examples
use nctl.Prelude.{
  ℕ, String, Bool, true, false, not, ◌&&◌, ◌||◌, List, [], ◌∷◌, ◌++◌, Option, none, some, contains,
  nat_eq, ◌==◌, if◌then◌else◌,
}
use nctl.Prelude.Dict
use nctl.Prelude.Dict.{Dict}
use nctl.Prelude.Value.{
  Value, Fields, Items, null, obj, arr, str, float, int, neg, bool, nil, cons, end, field, lookup,
}
use nctl.Compute.Text.{strip}
use nctl.Drift.Bindings.{is_stale, age_seconds}

pub record ContentSpec : Type 0 where
  pub managed_file_key : String
  pub desired_digest : String
  pub expected_path : String

pub record PlacementRow : Type 0 where
  pub realized_device_id : Option String
  pub management_mode : Option String
  pub desired_run_state : Option String

abbrev pub running_states : List String
running_states = "running" ∷ "active" ∷ []

abbrev pub existence_proof_check_kinds : List String
existence_proof_check_kinds = "file_exists" ∷ "cron_registered" ∷ "nfs_export" ∷ "nfs_mount" ∷ []

-- `value == text`
abbrev pub equals : Option Value → String → Bool
equals (some (str s)) t = s == t
equals v t = false

-- `value in texts`
abbrev pub among : Option Value → List String → Bool
among (some (str s)) ts = contains s ts
among v ts = false

-- a value that is a dict
abbrev pub as_fields : Option Value → Option Fields
as_fields (some (obj fs)) = some fs
as_fields v = none

abbrev pub as_items : Option Value → Items
as_items (some (arr xs)) = xs
as_items v = nil

-- `d.get(k)`, of a dict that may be missing
abbrev pub get_in : String → Option Fields → Option Value
get_in k none = none
get_in k (some fs) = lookup k fs

unfoldable pub observed_service_entry : Fields → String → Option Fields
unfolding lookup
observed_service_entry facts key =
    as_fields (get_in key (as_fields (lookup "observed_services" facts)))

-- the row is of a state proof that did not succeed
abbrev fails_proof : Value → Bool
fails_proof (obj row) =
    among (lookup "kind" row) existence_proof_check_kinds
    && not (equals (lookup "status" row) "present")
fails_proof v = false

unfoldable pub any_fails : Items → Bool
unfolding lookup
any_fails nil = false
any_fails (cons v rest) = fails_proof v || any_fails rest

abbrev pub content_codes : Option Fields → ContentSpec → List String
content_codes none spec = "service_config_observation_missing" ∷ []
content_codes (some r) spec =
    let status = lookup "status" r in
    if among status ("present" ∷ "missing" ∷ "unreadable" ∷ "too_large" ∷ [])
      && not (equals (lookup "path" r) spec.expected_path)
    then "service_config_observation_mismatch" ∷ []
    else if equals status "missing"
    then "service_config_missing" ∷ []
    else if among status ("unreadable" ∷ "too_large" ∷ [])
    then "service_config_unreadable" ∷ []
    else if equals status "present"
    then (if equals (lookup "sha256" r) spec.desired_digest
        then []
        else "service_config_mismatch" ∷ [])
    else "service_config_observation_missing" ∷ []

-- `entry.get("managed_files").get(key)`, where both are dicts
unfoldable pub file_result : Option Fields → String → Option Fields
unfolding lookup
file_result entry key = as_fields (get_in key (as_fields (get_in "managed_files" entry)))

-- _evaluate_content_drift
unfoldable pub evaluate_content_drift : Option Fields → ContentSpec → List String
unfolding file_result lookup
evaluate_content_drift entry spec = content_codes (file_result entry spec.managed_file_key) spec

abbrev or_started : Option String → String
or_started none = "started"
or_started (some s) = s

abbrev pub is_manual : PlacementRow → Bool
is_manual p = elim p.management_mode [ none ↦ false | some m ↦ m == "manual" ]

-- the profile asks for a stopped service
abbrev pub wants_stopped : PlacementRow → Bool
wants_stopped p = (or_started p.desired_run_state == "stopped") && not (is_manual p)

-- `fromisoformat` reads a moment as UTC, with `none` for a ValueError; `lower` is str.lower; and `show` is
-- `str(value or "")` of a value that is no text and not None
module _ (fromisoformat : String → Option ℕ) (lower : String → String) (show : Value → String) where
  -- `str(value or "")`
  abbrev pub text_or_empty : Option Value → String
  text_or_empty none = ""
  text_or_empty (some null) = ""
  text_or_empty (some (str s)) = s
  text_or_empty (some v) = show v

  abbrev pub age_codes : Option ℕ → ℕ → List String
  age_codes none hours = "service_observation_missing" ∷ []
  age_codes (some age) hours =
      if is_stale fromisoformat (some age) hours then "service_observation_stale" ∷ [] else []

  unfoldable pub observation_codes : Fields → ℕ → ℕ → List String
  unfolding lookup age_seconds
  observation_codes facts now hours =
      age_codes
        (age_seconds fromisoformat
          (some (text_or_empty (lookup "service_inventory_updated_at" facts))) now)
        hours

  unfoldable pub os_codes : Fields → List String
  unfolding lookup strip
  os_codes facts =
      if contains (strip (text_or_empty (lookup "observed_system" facts))) ("Linux" ∷ "Darwin" ∷ [])
      then []
      else "service_observation_missing" ∷ []

  abbrev pub state_of : Fields → String
  state_of e = lower (text_or_empty (lookup "state" e))

  abbrev pub failed_existence : Fields → Bool
  failed_existence e = (state_of e == "missing") || any_fails (as_items (lookup "checks" e))

  unfoldable pub state_codes : PlacementRow → Option Fields → List String
  unfolding lookup any_fails
  state_codes p none = if wants_stopped p then [] else "service_missing" ∷ []
  state_codes p (some e) =
      if wants_stopped p
      then (if contains (state_of e) running_states then "service_should_be_stopped" ∷ [] else [])
      else if failed_existence e
      then "service_missing" ∷ []
      else if not (contains (state_of e) running_states)
          && (not (state_of e == "present") && not (is_manual p))
      then "service_not_running" ∷ []
      else []

  abbrev pub content_gaps : PlacementRow → Option Fields → Option ContentSpec → List String
  content_gaps p entry none = []
  content_gaps p entry (some spec) = if is_manual p then [] else evaluate_content_drift entry spec

  abbrev pub device_facts : Dict Fields → Option String → Option Fields
  device_facts devices none = none
  device_facts devices (some id) = if id == "" then none else Dict.get devices id

  abbrev pub gaps_with :
      PlacementRow → String → ℕ → ℕ → Option ContentSpec → Option Fields → List String
  gaps_with p key now hours spec none = "service_observation_missing" ∷ []
  gaps_with p key now hours spec (some facts) =
      observation_codes facts now hours
      ++ (os_codes facts
          ++ (state_codes p (observed_service_entry facts key)
              ++ content_gaps p (observed_service_entry facts key) spec))

  -- the gaps of evaluate_active_placement, for a placement without binding checks
  unfoldable pub evaluate_active_placement :
      PlacementRow → String → Dict Fields → ℕ → ℕ → Option ContentSpec → List String
  unfolding Dict.get observation_codes os_codes state_codes observed_service_entry
      evaluate_content_drift
  evaluate_active_placement p key devices now hours spec =
      gaps_with p key now hours spec (device_facts devices p.realized_device_id)
