-- ===== src/Drift/Placements/Quiet.antt =====
-- What an active placement without a gap stands on.
use nctl.Prelude.{
  ℕ, ◌*◌, String, true, false, ◌||◌, List, [], ◌∷◌, ◌++◌, Option, none, some, contains, ◌≤◌, ◌≡◌,
  ◌⊎◌, refl, arith, Bool-cases, Option-cases, inl, inr, ◌==◌,
}
use nctl.Prelude.Dict.{Dict}
use nctl.Prelude.Value.{Value, Fields, str, lookup}
use nctl.Drift.Bindings.{age_seconds}
use nctl.Drift.Placements.{
  ContentSpec, PlacementRow, running_states, equals, among, observed_service_entry, content_codes,
  file_result, evaluate_content_drift, is_manual, wants_stopped, text_or_empty, age_codes,
  observation_codes, os_codes, state_of, failed_existence, state_codes, content_gaps, device_facts,
  gaps_with, evaluate_active_placement,
}

append_empty : (xs ys : List String) → xs ++ ys ≡ [] → (xs ≡ []) × (ys ≡ [])
append_empty [] ys h = (refl, h)
append_empty (x ∷ xs) ys h = absurd (cc h)

-- the file is there, at the expected path and with the desired content
abbrev pub IsRightFile : ContentSpec → Fields → Type 0
IsRightFile spec r =
    (equals (lookup "status" r) "present" ≡ true)
    × (equals (lookup "path" r) spec.expected_path ≡ true)
    × (equals (lookup "sha256" r) spec.desired_digest ≡ true)

abbrev identified : List String
identified = "present" ∷ "missing" ∷ "unreadable" ∷ "too_large" ∷ []

among-present : (v : Option Value) → equals v "present" ≡ true → among v identified ≡ true
among-present (some (str s)) h = ground arith
among-present v h = absurd (cc h)

content_codes-IsRightFile :
    (spec : ContentSpec) (o : Option Fields)
    → content_codes o spec ≡ []
    → (r : Fields) × (o ≡ some r) × IsRightFile spec r
content_codes-IsRightFile spec none h = absurd (cc h)
content_codes-IsRightFile spec (some r) h =
    elim (Bool-cases (equals (lookup "status" r) "present")) [
      | inl there ↦
          let known : among (lookup "status" r) identified ≡ true =
            among-present (lookup "status" r) there in
          (r, refl, (there, ground arith, ground arith))
      | inr gone ↦ absurd (ground arith)
    ]

module _ (fromisoformat : String → Option ℕ) (lower : String → String) (show : Value → String) where
  abbrev IsFresh : Fields → ℕ → ℕ → Type 0
  IsFresh facts now hours =
      (age : ℕ) × (age_seconds fromisoformat
          (some
            (text_or_empty fromisoformat lower show (lookup "service_inventory_updated_at" facts)))
          now
        ≡ some age)
      × (age ≤ hours * 3600)

  -- the entry of the service is what the profile asks for
  abbrev pub IsRightState : PlacementRow → Option Fields → Type 0
  IsRightState p none = wants_stopped p ≡ true
  IsRightState p (some e) =
      ((wants_stopped p ≡ true)
        × (contains (state_of fromisoformat lower show e) running_states ≡ false))
      ⊎ ((wants_stopped p ≡ false)
          × (failed_existence fromisoformat lower show e ≡ false)
          × ((contains (state_of fromisoformat lower show e) running_states
                || ((state_of fromisoformat lower show e == "present") || is_manual p))
              ≡ true))

  state_codes-IsRightState :
      (p : PlacementRow) (entry : Option Fields)
      → state_codes fromisoformat lower show p entry ≡ []
      → IsRightState p entry
  unfolding state_codes
  state_codes-IsRightState p none h = ground arith
  state_codes-IsRightState p (some e) h = elim (Bool-cases (wants_stopped p)) [
    | inl stopped ↦ inl (stopped, ground arith)
    | inr started ↦ inr (started, ground arith, ground arith)
  ]

  observation_codes-IsFresh :
      (facts : Fields) (now hours : ℕ)
      → observation_codes fromisoformat lower show facts now hours ≡ []
      → IsFresh facts now hours
  unfolding observation_codes
  observation_codes-IsFresh facts now hours h =
      elim (Option-cases (
        age_seconds fromisoformat
          (some
            (text_or_empty fromisoformat lower show (lookup "service_inventory_updated_at" facts)))
          now)) [
            | inl undated ↦ let h' = rw (undated, age_codes) at h in absurd (cc h')
            | inr (age, q) ↦ let h' = rw (q, age_codes) at h in (age, q, ground arith)
          ]

  -- the managed file of a service that has one, unless the placement is manual
  abbrev pub IsRightContent : PlacementRow → Option Fields → Option ContentSpec → Type 0
  IsRightContent p entry none = Unit
  IsRightContent p entry (some spec) =
      (is_manual p ≡ true)
      ⊎ ((r : Fields) × (file_result entry spec.managed_file_key ≡ some r) × IsRightFile spec r)

  content_gaps-IsRightContent :
      (p : PlacementRow) (entry : Option Fields) (spec : Option ContentSpec)
      → content_gaps fromisoformat lower show p entry spec ≡ []
      → IsRightContent p entry spec
  unfolding evaluate_content_drift
  content_gaps-IsRightContent p entry none h = tt
  content_gaps-IsRightContent p entry (some spec) h = elim (Bool-cases (is_manual p)) [
    | inl manual ↦ inl manual
    | inr managed ↦
        inr (
          content_codes-IsRightFile spec (file_result entry spec.managed_file_key)
            (rw managed at h))
  ]

  -- fresh facts of the device, on a known system, with the state and the content that are wanted
  abbrev pub IsQuiet : PlacementRow → String → Dict Fields → ℕ → ℕ → Option ContentSpec → Type 0
  IsQuiet p key devices now hours spec =
      (facts : Fields) × (device_facts fromisoformat lower show devices p.realized_device_id
        ≡ some facts)
      × IsFresh facts now hours
      × (os_codes fromisoformat lower show facts ≡ [])
      × IsRightState p (observed_service_entry facts key)
      × IsRightContent p (observed_service_entry facts key) spec

  gaps_with-IsQuiet :
      (p : PlacementRow) (key : String) (devices : Dict Fields) (now hours : ℕ)
      (spec : Option ContentSpec) (o : Option Fields)
      → device_facts fromisoformat lower show devices p.realized_device_id ≡ o
      → gaps_with fromisoformat lower show p key now hours spec o ≡ []
      → IsQuiet p key devices now hours spec
  gaps_with-IsQuiet p key devices now hours spec none q h = absurd (cc h)
  gaps_with-IsQuiet p key devices now hours spec (some facts) q h =
      let entry = observed_service_entry facts key in
      let content = content_gaps fromisoformat lower show p entry spec in
      let states = state_codes fromisoformat lower show p entry in
      let oses = os_codes fromisoformat lower show facts in
      let (fresh, rest) =
        append_empty (observation_codes fromisoformat lower show facts now hours)
          (oses ++ (states ++ content)) h in
      let (known, rest') = append_empty oses (states ++ content) rest in
      let (state, right) = append_empty states content rest' in
      (
        facts,
        q,
        observation_codes-IsFresh facts now hours fresh,
        known,
        state_codes-IsRightState p entry state,
        content_gaps-IsRightContent p entry spec right,
      )

  -- An active placement without a gap stands on facts of its device that are fresh and of a known system,
  -- in which a service that should be stopped is not reported or not in a running state, and any other
  -- service is reported without a failed proof and is running or present or, if the placement is manual, in any state;
  -- and its managed file, unless the placement is manual, is there at the expected path with the desired
  -- content.
  pub evaluate_active_placement-IsQuiet :
      (p : PlacementRow) (key : String) (devices : Dict Fields) (now hours : ℕ)
      (spec : Option ContentSpec)
      → evaluate_active_placement fromisoformat lower show p key devices now hours spec ≡ []
      → IsQuiet p key devices now hours spec
  unfolding evaluate_active_placement
  evaluate_active_placement-IsQuiet p key devices now hours spec h =
      gaps_with-IsQuiet p key devices now hours spec
        (device_facts fromisoformat lower show devices p.realized_device_id) refl h
