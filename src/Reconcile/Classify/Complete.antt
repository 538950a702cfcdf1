-- ===== src/Reconcile/Classify/Complete.antt =====
-- The classification table holds each reviewed code once, with its own set's classification.
use nctl.Prelude.{
  String, Bool, true, false, not, ◌&&◌, ◌||◌, List, [], ◌∷◌, ◌++◌, Option, none, some, ◌==◌, ◌≡◌,
  ◌↔◌, inl, inr, refl, contains, all, sym, arith, eq_iff, Bool-cases,
}
use nctl.Prelude.Dict
use nctl.Prelude.Dict.{Dict, is_some}
use nctl.Prelude.Result.{ok, err}
use nctl.Reconcile.Model.{Classification, automatic, observation, manual_review, unsupported}
use nctl.Reconcile.Reconcilers.{registry}
use nctl.Reconcile.Classify.{
  CodeClassification, unclassified, by, alone, code_classification, classify_in, classify,
}
use nctl.Reconcile.Classify.Codes.{
  observation_codes, link_actual_node_codes, reconcile_ipam_codes, service_profile_codes,
  manual_review_codes, unsupported_codes, production_blocking_node_codes,
}

-- the reviewed sets that the table is filled from, and what each stands for
pub data CodeGroup : Type 0 where
  observed linked_guest created_guest destroyed_guest conflicting_presence : CodeGroup
  linked_node addressed profiled reviewed no_reconciler : CodeGroup

unfoldable pub codes_of : CodeGroup → List String
codes_of observed = observation_codes
codes_of linked_guest = "compute_instance_not_linked" ∷ []
codes_of created_guest = "compute_instance_missing" ∷ []
codes_of destroyed_guest = "compute_instance_destroy_required" ∷ []
codes_of conflicting_presence = "compute_presence_lifecycle_conflict" ∷ []
codes_of linked_node = link_actual_node_codes
codes_of addressed = reconcile_ipam_codes
codes_of profiled = service_profile_codes
codes_of reviewed = manual_review_codes
codes_of no_reconciler = unsupported_codes

unfoldable pub entry_of : CodeGroup → CodeClassification
entry_of observed = by observation "observe_node"
entry_of linked_guest = by automatic "link_compute_realization"
entry_of created_guest = by automatic "create_compute_instance"
entry_of destroyed_guest = by automatic "destroy_compute_instance"
entry_of conflicting_presence = alone manual_review
entry_of linked_node = by automatic "link_actual_node"
entry_of addressed = by automatic "reconcile_ipam"
entry_of profiled = by automatic "service_profile"
entry_of reviewed = alone manual_review
entry_of no_reconciler = alone unsupported

same_class : Classification → Classification → Bool
same_class automatic automatic = true
same_class observation observation = true
same_class manual_review manual_review = true
same_class unsupported unsupported = true
same_class _ _ = false

same_id : Option String → Option String → Bool
same_id none none = true
same_id (some a) (some b) = a == b
same_id _ _ = false

holds : CodeClassification → Option CodeClassification → Bool
unfolding same_class same_id
holds c none = false
holds c (some d) =
    same_class c.classification d.classification && same_id c.reconciler_id d.reconciler_id

same_class-eq : (c d : Classification) → same_class c d ≡ true → c ≡ d
unfolding same_class
same_class-eq c d h = ground arith

same_id-eq : (a b : Option String) → same_id a b ≡ true → a ≡ b
unfolding same_id
same_id-eq none none h = refl
same_id-eq (some a) (some b) h = ground (arith, eq_iff a b)
same_id-eq none (some b) h = absurd (ground arith)
same_id-eq (some a) none h = absurd (ground arith)

holds-eq : (c : CodeClassification) (o : Option CodeClassification) → holds c o ≡ true → o ≡ some c
unfolding holds
holds-eq c none h = absurd (ground arith)
holds-eq c (some d) h =
    let e1 = same_class-eq c.classification d.classification (ground arith) in
    let e2 = same_id-eq c.reconciler_id d.reconciler_id (ground arith) in ground arith

all-contains :
    (p : String → Bool) (xs : List String) (a : String)
    → all p xs ≡ true
    → contains a xs ≡ true
    → p a ≡ true
all-contains p [] a h k = absurd (ground arith)
all-contains p (x ∷ xs) a h k = elim (Bool-cases (a == x)) [
  | inl same ↦ (let e : a ≡ x = ground (arith, eq_iff a x) in rw e (ground arith))
  | inr other ↦ all-contains p xs a (ground arith) (ground arith)
]

group-holds :
    (g : CodeGroup)
    → all (λ k. holds (entry_of g) (Dict.get code_classification k)) (codes_of g) ≡ true
unfolding holds code_classification Dict.get Dict.put codes_of entry_of
group-holds observed = refl
group-holds linked_guest = refl
group-holds created_guest = refl
group-holds destroyed_guest = refl
group-holds conflicting_presence = refl
group-holds linked_node = refl
group-holds addressed = refl
group-holds profiled = refl
group-holds reviewed = refl
group-holds no_reconciler = refl

group-get :
    (g : CodeGroup) (code : String)
    → contains code (codes_of g) ≡ true
    → Dict.get code_classification code ≡ some (entry_of g)
group-get g code h = holds-eq (entry_of g) (Dict.get code_classification code) (
    all-contains (λ k. holds (entry_of g) (Dict.get code_classification k)) (codes_of g) code
      (group-holds g) h)

local-get :
    (d : Dict CodeClassification) (code target_kind : String) {c : CodeClassification}
    → Dict.get d code ≡ some c
    → (target_kind == "global") ≡ false
    → classify_in d code target_kind ≡ ok c
unfolding classify_in
local-get d code target_kind h local = rw (local, h) refl

-- Off a global target, every code of a reviewed set is classified as that set says, so that no later
-- statement of the table overrides an earlier one, with no code in two sets that disagree.
pub classify-group :
    (g : CodeGroup) (code target_kind : String)
    → contains code (codes_of g) ≡ true
    → (target_kind == "global") ≡ false
    → classify code target_kind ≡ ok (entry_of g)
unfolding classify
classify-group g code target_kind h local =
    local-get code_classification code target_kind (group-get g code h) local

unfoldable values : Dict CodeClassification → List CodeClassification
values [] = []
values ((k, v) ∷ d) = v ∷ values d

get-all :
    (p : CodeClassification → Bool) (d : Dict CodeClassification) (k : String)
    {v : CodeClassification}
    → all p (values d) ≡ true
    → Dict.get d k ≡ some v
    → p v ≡ true
unfolding values Dict.get
get-all p [] k h e = absurd (ground arith)
get-all p ((j, w) ∷ d) k {v} h e = elim (Bool-cases (k == j)) [
  | inl same ↦ let q : w ≡ v = ground arith in rw (sym q) (ground arith)
  | inr other ↦ get-all p d k (ground arith) (rw other at e)
]

abbrev pub names_reconciler : Option String → Bool
names_reconciler none = false
names_reconciler (some id) = is_some (Dict.get registry id)

unfoldable pub is_planned : CodeClassification → Bool
is_planned c = elim c.classification [
  | automatic ↦ names_reconciler c.reconciler_id
  | observation ↦ names_reconciler c.reconciler_id
  | _ ↦ not (is_some c.reconciler_id)
]

table-planned : all is_planned (values code_classification) ≡ true
unfolding values code_classification Dict.get Dict.put is_planned registry
table-planned = refl

classified-planned :
    (d : Dict CodeClassification) (code target_kind : String) {c : CodeClassification}
    → all is_planned (values d) ≡ true
    → classify_in d code target_kind ≡ ok c
    → is_planned c ≡ true
unfolding classify_in is_planned
classified-planned d code target_kind {c} h e = elim (Bool-cases (target_kind == "global")) [
  | inl global ↦ let q : alone manual_review ≡ c = ground arith in rw (sym q) refl
  | inr local ↦ get-all is_planned d code h (ground arith)
]

-- Whatever the code and the target are, a classification that asks for an action or an observation
-- names a reconciler that the registry has, and one that leaves the diff to a person names none.
pub classify-HasReconciler :
    (code target_kind : String) {c : CodeClassification}
    → classify code target_kind ≡ ok c
    → is_planned c ≡ true
unfolding classify
classify-HasReconciler code target_kind e =
    classified-planned code_classification code target_kind table-planned e

-- the codes of every set
unfoldable pub reviewed_codes : List String
reviewed_codes =
    codes_of observed
    ++ codes_of linked_guest
    ++ codes_of created_guest
    ++ codes_of destroyed_guest
    ++ codes_of conflicting_presence
    ++ codes_of linked_node
    ++ codes_of addressed
    ++ codes_of profiled
    ++ codes_of reviewed
    ++ codes_of no_reconciler
    ++ production_blocking_node_codes

keys-reviewed : all (λ k. contains k reviewed_codes) (Dict.keys code_classification) ≡ true
unfolding code_classification reviewed_codes codes_of Dict.keys Dict.get Dict.put
keys-reviewed = refl

reviewed-keys : all (λ k. contains k (Dict.keys code_classification)) reviewed_codes ≡ true
unfolding code_classification reviewed_codes codes_of Dict.keys Dict.get Dict.put
reviewed-keys = refl

all-contains-false :
    (p : String → Bool) (xs : List String) (a : String)
    → all p xs ≡ true
    → p a ≡ false
    → contains a xs ≡ false
all-contains-false p xs a h k = elim (Bool-cases (contains a xs)) [
  | inl inside ↦ absurd (let q : p a ≡ true = all-contains p xs a h inside in ground arith)
  | inr outside ↦ outside
]

reviewed-is_some :
    (code : String) → contains code reviewed_codes ≡ is_some (Dict.get code_classification code)
reviewed-is_some code = elim (Bool-cases (contains code reviewed_codes)) [
  | inl inside ↦
      rw (inside, sym (Dict.contains-keys code_classification code))
        (sym (
          all-contains (λ k. contains k (Dict.keys code_classification)) reviewed_codes code
            reviewed-keys inside))
  | inr outside ↦
      rw (outside, sym (Dict.contains-keys code_classification code))
        (sym (
          all-contains-false (λ k. contains k reviewed_codes) (Dict.keys code_classification) code
            keys-reviewed outside))
]

refused_iff :
    (d : Dict CodeClassification) (code target_kind : String) (known : Bool)
    → known ≡ is_some (Dict.get d code)
    → (classify_in d code target_kind ≡ err (unclassified code))
      ↔ ((target_kind == "global" || known) ≡ false)
unfolding classify_in
refused_iff d code target_kind known e = ground arith

-- `classify` raises for exactly the codes that are in no reviewed set, nor in the production codes,
-- on a target that is not global.
pub classify-refuses :
    (code target_kind : String)
    → (classify code target_kind ≡ err (unclassified code))
      ↔ ((target_kind == "global" || contains code reviewed_codes) ≡ false)
unfolding classify
classify-refuses code target_kind =
    refused_iff code_classification code target_kind (contains code reviewed_codes)
      (reviewed-is_some code)
