-- ===== src/Drift/Model.antt =====
-- src/nctl_core/drift/model.py
use nctl.Prelude.{String, Bool, true, false, List, Option}
use nctl.Prelude.Value.{Fields}

pub data Severity : Type 0 where
  error warning info : Severity

pub data Status : Type 0 where
  converged drifting converging unknown : Status

pub record Target : Type 0 where
  pub kind : String
  pub slug : Option String
  pub name : Option String
  pub id : Option String

pub record DiffRecord : Type 0 where
  pub target : Target
  pub code : String
  pub severity : Severity
  pub message : String
  pub desired : Fields
  pub actual : Fields
  pub sources : List String

-- `record.severity == Severity.ERROR`
abbrev pub is_error : DiffRecord → Bool
is_error d = elim d.severity [ error ↦ true | _ ↦ false ]
