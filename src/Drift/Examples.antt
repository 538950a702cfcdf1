-- ===== src/Drift/Examples.antt =====
-- A target whose last actuation explains its drift.
use nctl.Prelude.{String, Bool, true, false, List, [], ◌∷◌, Option, none, some, ◌==◌, if◌then◌else◌}
use nctl.Prelude.Value.{Value, bool, str, arr, obj, end, field, nil, cons}
use nctl.Drift.Model.{DiffRecord, error}
use nctl.Drift.Operations.{Moment, aware, LogFile, readable, unreadable}

abbrev moment : String → Option Moment
moment t = if t == "t1" then some (aware 1) else if t == "t2" then some (aware 2) else none

abbrev missing : DiffRecord
missing = record {
  target = record { kind = "service"; slug = some "dns"; name = none; id = none };
  code = "service_missing";
  severity = error;
  message = "";
  desired = end;
  actual = end;
  sources = [];
}

abbrev actuation : String → Bool → Value
actuation ts success = obj (
    field "event" (str "actuation_completed") (
      field "ts" (str ts) (
        field "data"
          (obj (
            field "target_slugs" (arr (cons (str "dns") nil)) (
              field "success" (bool success) (
                field "requires_observation" (bool true)
                  (field "claimed_diff_codes" (arr (cons (str "service_missing") nil)) end)))))
          end)))

-- a failure, a line that is no JSON, and a later success
abbrev log : List LogFile
log =
    readable (some (actuation "t1" false) ∷ none ∷ some (actuation "t2" true) ∷ [])
    ∷ unreadable
    ∷ []
