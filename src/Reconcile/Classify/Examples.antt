-- ===== src/Reconcile/Classify/Examples.antt =====
-- Codes as they are classified.
use nctl.Prelude.{true, false, ◌||◌, ◌↔◌, ◌≡◌, ◌==◌, refl, contains}
use nctl.Prelude.Result.{ok, err}
use nctl.Prelude.Dict
use nctl.Reconcile.Model.{automatic}
use nctl.Reconcile.Classify.{by, classify, unclassified}
use nctl.Reconcile.Classify.Complete.{
  profiled, entry_of, codes_of, is_planned, reviewed_codes, classify-group, classify-HasReconciler,
  classify-refuses,
}

classify-group_example : classify "binding_unbound" "service" ≡ ok (entry_of profiled)
unfolding codes_of
classify-group_example = classify-group profiled "binding_unbound" "service" refl refl

classify-HasReconciler_example : is_planned (by automatic "service_profile") ≡ true
unfolding classify Dict.put
classify-HasReconciler_example =
    classify-HasReconciler "binding_unbound" "service" {c = by automatic "service_profile"} refl

classify-refuses_example :
    (classify "new_code" "node" ≡ err (unclassified "new_code"))
    ↔ (("node" == "global" || contains "new_code" reviewed_codes) ≡ false)
classify-refuses_example = classify-refuses "new_code" "node"
