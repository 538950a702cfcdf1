-- ===== src/Drift/Comparators.antt =====
-- src/nctl_core/drift/registry.py: the registered comparators, and the order of what they report.
mod Order
mod Examples
use nctl.Prelude.{
  ℕ, String, Bool, List, [], ◌∷◌, ◌++◌, Option, none, some, leb, ◌==◌, if◌then◌else◌,
}
use nctl.Prelude.Dict
use nctl.Prelude.Dict.{Dict}
use nctl.Prelude.Order.{codes, lex, sort, sorted}
use nctl.Prelude.Sorting.{by_key}
use nctl.Drift.Model.{DiffRecord}

-- `text or ""`
abbrev pub or_empty : Option String → String
or_empty none = ""
or_empty (some s) = s

unfoldable pub record_key : DiffRecord → List (List ℕ)
record_key r =
    codes r.target.kind
    ∷ codes (or_empty r.target.slug)
    ∷ codes (or_empty r.target.name)
    ∷ codes (or_empty r.target.id)
    ∷ codes r.code
    ∷ []

abbrev pub record_le : DiffRecord → DiffRecord → Bool
record_le = by_key (lex (lex leb)) record_key

-- `S` is the snapshot with the context
module _ (S : Type 0) where
  abbrev pub Comparator : Type 0
  Comparator = S → List DiffRecord

  abbrev pub comparators_of : Option (List Comparator) → List Comparator
  comparators_of none = []
  comparators_of (some cs) = cs

  -- `_REGISTRY.setdefault(resource_type, []).append(func)`
  unfoldable pub register : String → Comparator → Dict (List Comparator) → Dict (List Comparator)
  unfolding Dict.get Dict.put
  register resource_type func registry =
      Dict.put registry resource_type
        (comparators_of (Dict.get registry resource_type) ++ func ∷ [])

  unfoldable pub registered_resource_types : Dict (List Comparator) → List String
  unfolding Dict.keys sorted
  registered_resource_types registry = sorted (Dict.keys registry)

  unfoldable pub run_each : List Comparator → S → List DiffRecord
  run_each [] s = []
  run_each (c ∷ cs) s = c s ++ run_each cs s

  unfoldable pub run_types : Dict (List Comparator) → List String → S → List DiffRecord
  unfolding run_each Dict.get
  run_types registry [] s = []
  run_types registry (t ∷ ts) s =
      run_each (comparators_of (Dict.get registry t)) s ++ run_types registry ts s

  unfoldable pub run_comparators : Dict (List Comparator) → S → List DiffRecord
  unfolding run_types registered_resource_types sort record_key
  run_comparators registry s =
      sort record_le (run_types registry (registered_resource_types registry) s)
