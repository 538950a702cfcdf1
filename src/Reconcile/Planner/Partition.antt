-- ===== src/Reconcile/Planner/Partition.antt =====
-- The first loop of `build_plan`: what each selected diff calls for.
use nctl.Prelude.{
  String, Bool, not, ◌&&◌, List, [], ◌∷◌, ◌++◌, Option, none, some, ◌==◌, if◌then◌else◌,
}
use nctl.Prelude.Dict
use nctl.Prelude.Dict.{Dict, is_some}
use nctl.Prelude.Sets.{add}
use nctl.Prelude.Value.{Fields, end, field, obj, text_field}
use nctl.Prelude.Result.{Result, ok, err, ◌>>=◌}
use nctl.Drift.Model.{Target, DiffRecord, Severity, error, warning, info, is_error}
use nctl.Reconcile.Model.{automatic, observation, manual_review, unsupported, ReviewRecord}
use nctl.Reconcile.Classify.{CodeClassification, unclassified, classify_in}
use nctl.Reconcile.Reconcilers.{Fallback}
use nctl.Reconcile.Planner.{
  PlanFailure, unclassified_code, planner_defect, or_empty, expected_fields,
}

abbrev pub TargetKey : Type 0
TargetKey = String × String

-- a or b
abbrev pub or_else : Option String → Option String → Option String
or_else none b = b
or_else (some s) b = if s == "" then b else some s

unfoldable pub target_key : Target → TargetKey
target_key t = (t.kind, or_empty (or_else t.slug (or_else t.name t.id)))

abbrev pub same_key : TargetKey → TargetKey → Bool
same_key (a, b) (c, d) = (a == c) && (b == d)

-- an entry of `automatic_groups[reconciler_id]`
pub record Group : Type 0 where
  pub key : TargetKey
  pub target : Target
  pub codes : List String
  pub diffs : List DiffRecord

abbrev pub severity_value : Severity → String
severity_value error = "error"
severity_value warning = "warning"
severity_value info = "info"

abbrev pub evidence_or : Fields → DiffRecord → Fields
evidence_or end d = field "desired" (obj d.desired) (field "actual" (obj d.actual) end)
evidence_or (field k v fs) d = field k v fs

-- `_manual_record` and `_unsupported_record`
unfoldable pub review_record : DiffRecord → String → Fields → ReviewRecord
review_record d reason evidence = record {
  target = d.target;
  code = d.code;
  severity = severity_value d.severity;
  message = d.message;
  reason = reason;
  evidence = evidence_or evidence d;
}

-- the locals that the loop fills
pub record Parts : Type 0 where
  pub manual_review : List ReviewRecord
  pub unsupported : List ReviewRecord
  pub observe_targets : List (TargetKey × Target)
  pub observe_codes : List String
  pub automatic_groups : Dict (List Group)

unfoldable pub put_target :
    TargetKey → Target → List (TargetKey × Target) → List (TargetKey × Target)
put_target k t [] = (k, t) ∷ []
put_target k t ((j, u) ∷ rest) =
    let later = put_target k t rest in if same_key k j then (j, t) ∷ rest else (j, u) ∷ later

unfoldable pub add_to_group : DiffRecord → TargetKey → List Group → List Group
add_to_group d k [] =
    record { key = k; target = d.target; codes = d.code ∷ []; diffs = d ∷ [] } ∷ []
add_to_group d k (g ∷ rest) =
    let later = add_to_group d k rest in
    if same_key k g.key
    then record g { codes = g.codes ++ d.code ∷ []; diffs = g.diffs ++ d ∷ [] } ∷ rest
    else g ∷ later

abbrev pub groups_of : Option (List Group) → List Group
groups_of none = []
groups_of (some gs) = gs

unfoldable pub group_diff : DiffRecord → String → Dict (List Group) → Dict (List Group)
unfolding Dict.put Dict.get add_to_group target_key
group_diff d reconciler_id groups =
    Dict.put groups reconciler_id
      (add_to_group d (target_key d.target) (groups_of (Dict.get groups reconciler_id)))

-- the node that an `expected` names
abbrev pub node_in : String → Fields → Option String → Result PlanFailure Target
node_in code expected none = err (planner_defect code)
node_in code expected (some slug) =
    if slug == ""
    then err (planner_defect code)
    else ok (record {
      kind = "node";
      slug = some slug;
      name = none;
      id = text_field "node_id" expected;
    })

-- the node that an observation is made on; a service diff names it in its expected placement
unfoldable pub observed_target : DiffRecord → Result PlanFailure Target
unfolding expected_fields text_field
observed_target d =
    if d.target.kind == "service"
    then (expected_fields d >>= λ expected.
        node_in d.code expected (text_field "node_slug" expected))
    else ok d.target

unfoldable pub place : DiffRecord → CodeClassification → Parts → Result PlanFailure Parts
unfolding observed_target put_target add group_diff review_record target_key
place d c parts = elim c.classification [
  | observation ↦ observed_target d >>= λ t. ok (record parts {
    observe_targets = put_target (target_key t) t parts.observe_targets;
    observe_codes = add d.code parts.observe_codes;
  })
  | manual_review ↦ ok (record parts {
    manual_review =
        parts.manual_review
        ++ review_record d "not automatable: ambiguity, conflict, or destructive change" end ∷ [];
  })
  | automatic ↦ ok (record parts {
    automatic_groups = group_diff d (or_empty c.reconciler_id) parts.automatic_groups;
  })
  | unsupported ↦ ok (record parts {
    unsupported =
        parts.unsupported ++ review_record d "no reconciler is registered for this code" end ∷ [];
  })
]

module _ (table : Dict CodeClassification) where
  -- a diagnostic that is not an error and has no reviewed code
  unfoldable pub is_skipped : DiffRecord → Bool
  unfolding Dict.get
  is_skipped d =
      not (is_error d) && (not (d.target.kind == "global") && not (is_some (Dict.get table d.code)))

  unfoldable pub partition_diff : DiffRecord → Parts → Result PlanFailure Parts
  unfolding is_skipped classify_in place
  partition_diff d parts =
      if is_skipped d then ok parts else elim (classify_in table d.code d.target.kind) [
        | ok c ↦ place d c parts
        | err (unclassified code) ↦ err (unclassified_code code)
      ]

  unfoldable pub partition_diffs : List DiffRecord → Parts → Result PlanFailure Parts
  unfolding partition_diff
  partition_diffs [] parts = ok parts
  partition_diffs (d ∷ rest) parts = partition_diff d parts >>= partition_diffs rest

abbrev pub empty_parts : Parts
empty_parts = record {
  manual_review = [];
  unsupported = [];
  observe_targets = [];
  observe_codes = [];
  automatic_groups = [];
}

-- `_apply_fallback`
unfoldable pub apply_fallback :
    Fallback
    → List DiffRecord
    → List ReviewRecord × List ReviewRecord
    → List ReviewRecord × List ReviewRecord
unfolding review_record
apply_fallback f [] found = found
apply_fallback f (d ∷ rest) (manual, refused) = apply_fallback f rest (elim f.classification [
  | unsupported ↦ (manual, refused ++ review_record d f.reason f.evidence ∷ [])
  | _ ↦ (manual ++ review_record d f.reason f.evidence ∷ [], refused)
])
