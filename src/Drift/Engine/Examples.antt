-- ===== src/Drift/Engine/Examples.antt =====
-- A drift report of a node that drifts, a service that nobody flagged, and a device of no node.
use nctl.Prelude.{String, List, [], ◌∷◌, Option, none, some}
use nctl.Prelude.Value.{Value, str, obj, field, end}
use nctl.Drift.Operations.{Moment, aware, LogFile, readable, unreadable}
use nctl.Sources.{DesiredSnapshot}
use nctl.Drift.Model.{DiffRecord, Severity, error, warning}
use nctl.Drift.Engine.{ActualDevice}

abbrev moment : String → Option Moment
moment t = some (aware 1)

abbrev snapshot : DesiredSnapshot
snapshot = record {
  nodes =
      record {
        id = "1";
        slug = "n1";
        name = "n1";
        lifecycle = "active";
        realized_device_id = some "d1";
      }
      ∷ [];
  services = record { id = "2"; slug = "dns"; name = "dns" } ∷ [];
  placements = [];
  compute_platforms = [];
  compute_instances = [];
  workspaces = [];
  agents = [];
}

abbrev devices : List ActualDevice
devices = record { id = "d1"; collected_at = some "t1"; service_inventory_updated_at = none } ∷ []

abbrev diff : String → Option String → String → Severity → DiffRecord
diff kind id code severity = record {
  target = record { kind = kind; slug = none; name = some "x"; id = id };
  code = code;
  severity = severity;
  message = "";
  desired = end;
  actual = end;
  sources = [];
}

abbrev records : List DiffRecord
records =
    diff "node" (some "1") "mac_mismatch" error
    ∷ diff "device" none "ingest_lag" warning
    ∷ diff "node" (some "1") "hostname_mismatch" error
    ∷ []

abbrev entry : Value
entry = obj (field "event" (str "reconcile_started") (field "ts" (str "t0") end))

abbrev log : List LogFile
log = readable (none ∷ some entry ∷ []) ∷ unreadable ∷ []
