-- ===== src/Drift/Status.antt =====
-- src/nctl_core/drift/status.py: the status of a target; `NO_DATA_GAP_CODES` is evaluation.py's.
use nctl.Prelude.{
  String, Bool, true, not, ◌&&◌, List, [], ◌∷◌, Option, none, some, contains, any, all, select,
  nonempty, ◌==◌, if◌then◌else◌,
}
use nctl.Prelude.Result.{Result, ok, ◌>>=◌}
use nctl.Drift.Model.{DiffRecord, is_error, Status, converged, drifting, converging, unknown}
use nctl.Drift.Operations.{
  LogError, LogFile, Moment, after, ConvergentActuation, latest_convergent_actuation_for_target,
}

abbrev pub no_data_gap_codes : List String
no_data_gap_codes =
    "missing_actual_node" ∷ "missing_service_lifecycle" ∷ "service_observation_missing"
    ∷ "service_observation_stale" ∷ []

abbrev pub unknown_codes : List String
unknown_codes =
    "no_realized_device" ∷ "no_realized_object" ∷ "realized_device_missing"
    ∷ "unsupported_actual_type" ∷ "missing_actual_data" ∷ "stale_actual_data"
    ∷ "invalid_actual_timestamp" ∷ "nautobot_fetch_failed" ∷ "dump_parse_error"
    ∷ "compute_platform_missing" ∷ "compute_platform_observation_stale"
    ∷ "compute_realized_instance_missing" ∷ no_data_gap_codes

abbrev pub error_records : List DiffRecord → List DiffRecord
error_records = select is_error

abbrev pub is_unknown : DiffRecord → Bool
is_unknown d = contains d.code unknown_codes

-- `observed_at is None or actuation.ts > observed_at`
abbrev pub is_newer : ConvergentActuation → Option Moment → Result LogError Bool
is_newer a none = ok true
is_newer a (some t) = after a.ts t

abbrev pub is_claimed : ConvergentActuation → DiffRecord → Bool
is_claimed a d = contains d.code a.claimed_diff_codes

unfoldable pub actuated :
    List DiffRecord → Option Moment → Option ConvergentActuation → Result LogError Status
actuated errors observed_at none = ok drifting
actuated errors observed_at (some a) = is_newer a observed_at >>= λ newer.
    ok (if newer && all (is_claimed a) errors then converging else drifting)

-- `events_dir`: `none` if there is none, otherwise the files in it
unfoldable pub derive_status :
    (String → Option Moment)
    → List DiffRecord
    → Option String
    → Option Moment
    → Option (Option (List LogFile))
    → Result LogError Status
unfolding latest_convergent_actuation_for_target actuated
derive_status fromisoformat records slug observed_at events_dir =
    if not (nonempty (error_records records))
    then ok converged
    else if any is_unknown (error_records records)
    then ok unknown
    else elim slug [
      | none ↦ ok drifting
      | some s ↦ if s == "" then ok drifting else elim events_dir [
        | none ↦ ok drifting
        | some files ↦ latest_convergent_actuation_for_target fromisoformat files s >>= λ a.
            actuated (error_records records) observed_at a
      ]
    ]
