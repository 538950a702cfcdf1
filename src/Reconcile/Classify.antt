-- ===== src/Reconcile/Classify.antt =====
-- src/nctl_core/reconcile/classify.py: what a diff code calls for.
pub mod Codes
pub mod Complete
mod Examples
use nctl.Prelude.{
  String, Bool, true, false, not, List, [], ◌∷◌, Option, none, some, ◌==◌, if◌then◌else◌,
}
use nctl.Prelude.Dict
use nctl.Prelude.Dict.{Dict, is_some}
use nctl.Prelude.Result.{Result, ok, err}
use nctl.Reconcile.Model.{Classification, automatic, observation, manual_review, unsupported}
use nctl.Reconcile.Classify.Codes.{
  observation_codes, link_actual_node_codes, reconcile_ipam_codes, service_profile_codes,
  manual_review_codes, unsupported_codes, production_blocking_node_codes,
}

pub record CodeClassification : Type 0 where
  pub classification : Classification
  pub reconciler_id : Option String

pub data UnclassifiedDiffCode : Type 0 where
  unclassified : String → UnclassifiedDiffCode

abbrev pub by : Classification → String → CodeClassification
by c id = record { classification = c; reconciler_id = some id }

abbrev pub alone : Classification → CodeClassification
alone c = record { classification = c; reconciler_id = none }

-- `_TABLE.update({code: c for code in codes})`
unfoldable pub update_all :
    List String → CodeClassification → Dict CodeClassification → Dict CodeClassification
unfolding Dict.put
update_all [] c table = table
update_all (code ∷ codes) c table = update_all codes c (Dict.put table code c)

-- `_TABLE.setdefault(code, c)` for each code
unfoldable pub default_all :
    List String → CodeClassification → Dict CodeClassification → Dict CodeClassification
unfolding Dict.get Dict.put
default_all [] c table = table
default_all (code ∷ codes) c table =
    default_all codes c (if is_some (Dict.get table code) then table else Dict.put table code c)

-- the statements of the module, in order, on a table
unfoldable pub code_classification : Dict CodeClassification
unfolding update_all default_all
code_classification =
    let t1 = update_all observation_codes (by observation "observe_node") [] in
    let t2 =
      update_all ("compute_instance_not_linked" ∷ []) (by automatic "link_compute_realization")
        t1 in
    let t3 =
      update_all ("compute_instance_missing" ∷ []) (by automatic "create_compute_instance") t2 in
    let t4 =
      update_all ("compute_instance_destroy_required" ∷ [])
        (by automatic "destroy_compute_instance") t3 in
    let t5 = update_all ("compute_presence_lifecycle_conflict" ∷ []) (alone manual_review) t4 in
    let t6 = update_all link_actual_node_codes (by automatic "link_actual_node") t5 in
    let t7 = update_all reconcile_ipam_codes (by automatic "reconcile_ipam") t6 in
    let t8 = update_all service_profile_codes (by automatic "service_profile") t7 in
    let t9 = update_all manual_review_codes (alone manual_review) t8 in
    let t10 = update_all unsupported_codes (alone unsupported) t9 in
    default_all production_blocking_node_codes (alone manual_review) t10

unfoldable pub classify_in :
    Dict CodeClassification → String → String → Result UnclassifiedDiffCode CodeClassification
unfolding Dict.get
classify_in table code target_kind =
    if target_kind == "global"
    then ok (alone manual_review)
    else elim (Dict.get table code) [ some c ↦ ok c | none ↦ err (unclassified code) ]

unfoldable pub classify : String → String → Result UnclassifiedDiffCode CodeClassification
unfolding classify_in code_classification
classify code target_kind = classify_in code_classification code target_kind
