-- ===== src/Reconcile/Fingerprint/SameErrors.antt =====
-- The fingerprint tells sets of error diffs apart, and not the order in which they come.
use nctl.Prelude.{
  String, Bool, true, not, List, Option, none, some, All, ◌≡◌, ◌↔◌, refl, sym, ap, arith, ◌==◌,
  eq_iff,
}
use nctl.Prelude.Order.{codes_inj, sort}
use nctl.Prelude.Sorting.{
  by_key-IsPreorder, lex-IsPreorder, lex-IsAntisymmetric, leb-IsPreorder, leb-IsAntisymmetric,
  IsPreorder, sort-Permᴰ, sort-eq_of_Permᴰ,
}
use nctl.Drift.Model.{DiffRecord}
use nctl.Reconcile.Fingerprint.{Row, rows, or_empty, row_key, row_le, compute_drift_fingerprint}
use mathlib.Core.Path.{subst}
use mathlib.Core.List.{Permᴰ}
use mathlib.Core.List.Permᴰ

abbrev is_named : Option String → Bool
is_named none = true
is_named (some s) = not (s == "")

-- no part of the target is an empty text, which the order does not tell from a missing one
abbrev pub IsNamed : Row → Type 0
IsNamed r = (is_named r.slug ≡ true) × (is_named r.name ≡ true) × (is_named r.id ≡ true)

or_empty_inj :
    (a b : Option String) → is_named a ≡ true → is_named b ≡ true → or_empty a ≡ or_empty b → a ≡ b
or_empty_inj none none h k e = refl
or_empty_inj none (some s) h k e = absurd (ground (arith, eq_iff s ""))
or_empty_inj (some s) none h k e = absurd (ground (arith, eq_iff s ""))
or_empty_inj (some s) (some t) h k e = ap some e

row_key_inj : (a b : Row) → IsNamed a → IsNamed b → row_key a ≡ row_key b → a ≡ b
unfolding row_key
row_key_inj a b h k e =
    let kind : a.kind ≡ b.kind = codes_inj a.kind b.kind (cc) in
    let slug : a.slug ≡ b.slug =
      or_empty_inj a.slug b.slug h.0 k.0 (codes_inj (or_empty a.slug) (or_empty b.slug) (cc)) in
    let name : a.name ≡ b.name =
      or_empty_inj a.name b.name h.1 k.1 (codes_inj (or_empty a.name) (or_empty b.name) (cc)) in
    let id : a.id ≡ b.id =
      or_empty_inj a.id b.id h.2 k.2 (codes_inj (or_empty a.id) (or_empty b.id) (cc)) in
    let code : a.code ≡ b.code = codes_inj a.code b.code (cc) in
    λ i. record { kind = kind i; slug = slug i; name = name i; id = id i; code = code i }

row_le-IsPreorder : IsPreorder row_le
row_le-IsPreorder = by_key-IsPreorder row_key (lex-IsPreorder (lex-IsPreorder leb-IsPreorder))

row_le_antisym : (a b : Row) → IsNamed a → IsNamed b → row_le a b ≡ true → row_le b a ≡ true → a ≡ b
row_le_antisym a b h k le ge = row_key_inj a b h k (
    lex-IsAntisymmetric (lex-IsPreorder leb-IsPreorder)
      (lex-IsAntisymmetric leb-IsPreorder leb-IsAntisymmetric) (row_key a) (row_key b) le ge)

abbrev pub sorted_rows : List DiffRecord → List Row
sorted_rows diffs = sort row_le (rows diffs)

-- Two lists of diffs have the same fingerprint exactly if the rows of their errors are the same up to
-- order, provided that no target of an error of the first list has an empty text for its slug, name or id and that
-- the digest does not take two different lists of rows, those of the two sorted lists, to one value.
pub compute_drift_fingerprint_iff :
    (digest : List Row → String) (before after : List DiffRecord)
    → All IsNamed (rows before)
    → (digest (sorted_rows before) ≡ digest (sorted_rows after)
        → sorted_rows before ≡ sorted_rows after)
    → (compute_drift_fingerprint digest before ≡ compute_drift_fingerprint digest after)
      ↔ Permᴰ (rows before) (rows after)
unfolding compute_drift_fingerprint
compute_drift_fingerprint_iff digest before after named no_collision = (
  λ same. Permᴰ.trans (Permᴰ.symm (sort-Permᴰ row_le (rows before))) (
      subst (λ l. Permᴰ l (rows after)) (sym (no_collision same)) (sort-Permᴰ row_le (rows after))),
  λ p. ap digest (sort-eq_of_Permᴰ row_le row_le-IsPreorder row_le_antisym p named),
)
