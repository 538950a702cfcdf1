-- ===== src/Reconcile/Fingerprint/Examples.antt =====
-- Two rounds with the same errors in another order.
use nctl.Prelude.{String, List, [], ◌∷◌, none, some, ◌≡◌, ◌↔◌, refl}
use nctl.Prelude.Order.{lex}
use nctl.Prelude.Value.{end}
use nctl.Drift.Model.{DiffRecord, Severity, error, warning}
use nctl.Reconcile.Fingerprint.{Row, rows, compute_drift_fingerprint}
use nctl.Reconcile.Fingerprint.SameErrors.{compute_drift_fingerprint_iff}
use mathlib.Core.List.{Permᴰ}

abbrev diff : String → String → Severity → DiffRecord
diff slug code severity = record {
  target = record { kind = "node"; slug = some slug; name = none; id = some slug };
  code = code;
  severity = severity;
  message = "";
  desired = end;
  actual = end;
  sources = [];
}

abbrev codes_of : List Row → String
codes_of [] = ""
codes_of (r ∷ rs) = r.code

abbrev before : List DiffRecord
before =
    diff "n2" "missing_actual_node" error
    ∷ diff "n1" "ingest_lag" warning
    ∷ diff "n1" "mac_mismatch" error
    ∷ []

abbrev after : List DiffRecord
after = diff "n1" "mac_mismatch" error ∷ diff "n2" "missing_actual_node" error ∷ []

compute_drift_fingerprint_iff_example :
    (compute_drift_fingerprint codes_of before ≡ compute_drift_fingerprint codes_of after)
    ↔ Permᴰ (rows before) (rows after)
unfolding compute_drift_fingerprint lex
compute_drift_fingerprint_iff_example =
    compute_drift_fingerprint_iff codes_of before after
      ((refl, refl, refl), ((refl, refl, refl), tt)) (λ same. refl)
