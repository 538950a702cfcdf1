-- ===== src/Drift/Placements/Examples.antt =====
-- A DNS server with its records, observed half an hour ago.
use nctl.Prelude.{ℕ, String, [], ◌∷◌, Option, none, some, ◌≡◌, refl}
use nctl.Prelude.Dict.{Dict}
use nctl.Prelude.Value.{Value, Fields, str, obj, field, end}
use nctl.Drift.Placements.{ContentSpec, PlacementRow, evaluate_active_placement}
use nctl.Drift.Placements.Quiet.{IsQuiet, evaluate_active_placement-IsQuiet}

abbrev moment : String → Option ℕ
moment t = some 1800

abbrev no_text : Value → String
no_text v = ""

abbrev placement : PlacementRow
placement = record {
  realized_device_id = some "d1";
  management_mode = none;
  desired_run_state = none;
}

abbrev records : ContentSpec
records = record {
  managed_file_key = "records";
  desired_digest = "abc";
  expected_path = "/etc/dnsmasq.d/records";
}

abbrev file : Fields
file =
    field "status" (str "present")
      (field "path" (str "/etc/dnsmasq.d/records") (field "sha256" (str "abc") end))

abbrev entry : Fields
entry =
    field "state" (str "running") (field "managed_files" (obj (field "records" (obj file) end)) end)

abbrev facts : Fields
facts = field "service_inventory_updated_at" (str "t") (
    field "observed_system" (str "Linux")
      (field "observed_services" (obj (field "dnsmasq" (obj entry) end)) end))

abbrev devices : Dict Fields
devices = ("d1", facts) ∷ []

evaluate_active_placement-IsQuiet_example :
    IsQuiet moment (λ s. s) no_text placement "dnsmasq" devices 3600 1 (some records)
unfolding evaluate_active_placement
evaluate_active_placement-IsQuiet_example =
    evaluate_active_placement-IsQuiet moment (λ s. s) no_text placement "dnsmasq" devices 3600 1
      (some records) refl

-- two hours later the observation is stale
evaluate_active_placement_stale :
    evaluate_active_placement moment
      (λ s. s)
      no_text
      placement
      "dnsmasq"
      devices
      10800
      1
      (some records)
    ≡ "service_observation_stale" ∷ []
unfolding evaluate_active_placement
evaluate_active_placement_stale = refl
