-- ===== src/Reconcile/Fingerprint.antt =====
-- src/nctl_core/reconcile/fingerprint.py: a digest of the error diffs that remain.
mod SameErrors
mod Examples
use nctl.Prelude.{ℕ, String, Bool, List, [], ◌∷◌, Option, none, some, map, select, leb}
use nctl.Prelude.Order.{codes, lex, sort}
use nctl.Prelude.Sorting.{by_key}
use nctl.Drift.Model.{DiffRecord, is_error}

pub record Row : Type 0 where
  pub kind : String
  pub slug : Option String
  pub name : Option String
  pub id : Option String
  pub code : String

abbrev row_of : DiffRecord → Row
row_of d = record {
  kind = d.target.kind;
  slug = d.target.slug;
  name = d.target.name;
  id = d.target.id;
  code = d.code;
}

unfoldable rows : List DiffRecord → List Row
rows diffs = map row_of (select is_error diffs)

-- `text or ""`
abbrev or_empty : Option String → String
or_empty none = ""
or_empty (some s) = s

-- a tuple of texts, each by its code points
unfoldable row_key : Row → List (List ℕ)
row_key r =
    codes r.kind
    ∷ codes (or_empty r.slug)
    ∷ codes (or_empty r.name)
    ∷ codes (or_empty r.id)
    ∷ codes r.code
    ∷ []

abbrev row_le : Row → Row → Bool
row_le = by_key (lex (lex leb)) row_key

-- `digest` is canonical_json_digest, which json.dumps and hashlib compute
unfoldable compute_drift_fingerprint : (List Row → String) → List DiffRecord → String
unfolding rows row_key sort
compute_drift_fingerprint digest diffs = digest (sort row_le (rows diffs))
