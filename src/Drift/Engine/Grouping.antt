-- ===== src/Drift/Engine/Grouping.antt =====
-- The entries of _group_by_target: every record in the entry of its target, one entry for each key.
use nctl.Prelude.{
  Bool, true, false, ◌||◌, List, [], ◌∷◌, ◌++◌, All, any, ◌≡◌, refl, sym, ◌∙◌, arith, Bool-cases,
  inl, inr, eq_iff, append_assoc, append-nil,
}
use nctl.Prelude.Sorting.{All-append}
use nctl.Drift.Model.{Target, DiffRecord}
use nctl.Drift.Engine.{Entry, target_name, same_key, seed, add_record, seed_all, add_all}
use mathlib.Core.Path.{subst}
use mathlib.Core.List.{Permᴰ}
use mathlib.Core.List.Permᴰ

-- `==` of two keys is an equivalence
pub same_key_refl : (t : Target) → same_key t t ≡ true
unfolding same_key
same_key_refl t = ground (arith, eq_iff t.kind t.kind, eq_iff (target_name t) (target_name t))

pub same_key_sym : (t u : Target) → same_key t u ≡ same_key u t
unfolding same_key
same_key_sym t u = ground (
  arith,
  eq_iff t.kind u.kind,
  eq_iff u.kind t.kind,
  eq_iff (target_name t) (target_name u),
  eq_iff (target_name u) (target_name t),
)

same_key_trans : (t u v : Target) → same_key t u ≡ true → same_key t v ≡ same_key u v
unfolding same_key
same_key_trans t u v h =
    ground (arith, eq_iff t.kind u.kind, eq_iff (target_name t) (target_name u))

same_key_right : (u t v : Target) → same_key t v ≡ true → same_key u t ≡ same_key u v
same_key_right u t v h = same_key_sym u t ∙ (same_key_trans t v u h ∙ same_key_sym v u)

abbrev pub has_target : Target → List Entry → Bool
has_target t = any (λ e. same_key t e.target)

abbrev pub all_diffs : List Entry → List DiffRecord
all_diffs [] = []
all_diffs (e ∷ es) = e.diffs ++ all_diffs es

-- the records of an entry have its key
abbrev pub IsOwn : Entry → Type 0
IsOwn e = All (λ (d : DiffRecord). same_key d.target e.target ≡ true) e.diffs

-- no two entries have one key
abbrev pub Separate : List Entry → Type 0
Separate [] = Unit
Separate (e ∷ es) = (has_target e.target es ≡ false) × Separate es

abbrev pub IsGrouped : List DiffRecord → List Entry → Type 0
IsGrouped records es = Permᴰ (all_diffs es) records × All IsOwn es × Separate es

has_target-seed :
    (t u : Target) (es : List Entry) → has_target u (seed t es) ≡ (same_key u t || has_target u es)
unfolding seed
has_target-seed t u [] = ground arith
has_target-seed t u (e ∷ es) = ground (
  arith,
  has_target-seed t u es,
  same_key_sym t u,
  same_key_trans t e.target u,
  same_key_sym e.target u,
  same_key_sym u t,
)

has_target-add_record :
    (r : DiffRecord) (u : Target) (es : List Entry)
    → has_target u (add_record r es) ≡ (same_key u r.target || has_target u es)
unfolding add_record
has_target-add_record r u [] = ground arith
has_target-add_record r u (e ∷ es) = elim (Bool-cases (same_key r.target e.target)) [
  | inl same ↦ rw (same, same_key_right u r.target e.target same) (ground arith)
  | inr other ↦ rw (other, has_target-add_record r u es) (ground arith)
]

has_target-same_key :
    (t v : Target) (es : List Entry) → same_key t v ≡ true → has_target t es ≡ has_target v es
has_target-same_key t v [] h = refl
has_target-same_key t v (e ∷ es) h =
    rw (same_key_trans t v e.target h, has_target-same_key t v es h) refl

all_diffs-add_record :
    (r : DiffRecord) (es : List Entry) → Permᴰ (all_diffs (add_record r es)) (r ∷ all_diffs es)
unfolding add_record
all_diffs-add_record r [] = Permᴰ.refl (r ∷ [])
all_diffs-add_record r (e ∷ es) = elim (Bool-cases (same_key r.target e.target)) [
  | inl same ↦
      rw (same, append_assoc e.diffs (r ∷ []) (all_diffs es))
        (Permᴰ.middle r e.diffs (all_diffs es))
  | inr other ↦ rw other (
      Permᴰ.trans (Permᴰ.append_left e.diffs (all_diffs-add_record r es))
        (Permᴰ.middle r e.diffs (all_diffs es)))
]

add_record-IsOwn : (r : DiffRecord) (es : List Entry) → All IsOwn es → All IsOwn (add_record r es)
unfolding add_record
add_record-IsOwn r [] o = ((same_key_refl r.target, tt), tt)
add_record-IsOwn r (e ∷ es) o = elim (Bool-cases (same_key r.target e.target)) [
  | inl same ↦
      rw same
        (All-append (λ d. same_key d.target e.target ≡ true) e.diffs (r ∷ []) o.0 (same, tt), o.1)
  | inr other ↦ rw other (o.0, add_record-IsOwn r es o.1)
]

add_record-Separate : (r : DiffRecord) (es : List Entry) → Separate es → Separate (add_record r es)
unfolding add_record
add_record-Separate r [] s = (refl, tt)
add_record-Separate r (e ∷ es) s = elim (Bool-cases (same_key r.target e.target)) [
  | inl same ↦ rw same s
  | inr other ↦
      rw (other, Separate)
        (
          has_target-add_record r e.target es ∙ (rw (same_key_sym e.target r.target, other) s.0),
          add_record-Separate r es s.1,
        )
]

-- Adding records keeps them all, each in the one entry of its key.
pub add_all-IsGrouped :
    (records before : List DiffRecord) (es : List Entry)
    → IsGrouped before es
    → IsGrouped (before ++ records) (add_all records es)
unfolding add_all
add_all-IsGrouped [] before es g = rw (append-nil before) g
add_all-IsGrouped (r ∷ records) before es (p, o, s) = rw (← append_assoc before (r ∷ []) records) (
    add_all-IsGrouped records (before ++ r ∷ []) (add_record r es) (
      Permᴰ.trans (all_diffs-add_record r es) (
          Permᴰ.trans (Permᴰ.cons refl p) (
            Permᴰ.symm (
              Permᴰ.trans (Permᴰ.middle r before []) (Permᴰ.cons refl (Permᴰ.append-nil before))))),
      add_record-IsOwn r es o,
      add_record-Separate r es s,
    ))

abbrev pub IsBlank : Entry → Type 0
IsBlank e = e.diffs ≡ []

seed-IsBlank : (t : Target) (es : List Entry) → All IsBlank es → All IsBlank (seed t es)
unfolding seed
seed-IsBlank t [] b = (refl, tt)
seed-IsBlank t (e ∷ es) b = elim (Bool-cases (same_key t e.target)) [
  | inl same ↦ rw same (refl, b.1)
  | inr other ↦ rw other (b.0, seed-IsBlank t es b.1)
]

seed-Separate : (t : Target) (es : List Entry) → Separate es → Separate (seed t es)
unfolding seed
seed-Separate t [] s = (refl, tt)
seed-Separate t (e ∷ es) s = elim (Bool-cases (same_key t e.target)) [
  | inl same ↦ rw same (has_target-same_key t e.target es same ∙ s.0, s.1)
  | inr other ↦
      rw (other, Separate)
        (
          has_target-seed t e.target es ∙ (rw (same_key_sym e.target t, other) s.0),
          seed-Separate t es s.1,
        )
]

pub seed_all-IsSeeded :
    (ts : List Target) (es : List Entry)
    → All IsBlank es
    → Separate es
    → All IsBlank (seed_all ts es) × Separate (seed_all ts es)
unfolding seed_all
seed_all-IsSeeded [] es b s = (b, s)
seed_all-IsSeeded (t ∷ ts) es b s =
    seed_all-IsSeeded ts (seed t es) (seed-IsBlank t es b) (seed-Separate t es s)

has_target-seed_all :
    (u : Target) (ts : List Target) (es : List Entry)
    → has_target u es ≡ true
    → has_target u (seed_all ts es) ≡ true
unfolding seed_all
has_target-seed_all u [] es h = h
has_target-seed_all u (t ∷ ts) es h =
    has_target-seed_all u ts (seed t es) (ground (arith, has_target-seed t u es))

pub seed_all-has_target :
    (ts : List Target) (es : List Entry) → All (λ t. has_target t (seed_all ts es) ≡ true) ts
unfolding seed_all
seed_all-has_target [] es = tt
seed_all-has_target (t ∷ ts) es = (
  has_target-seed_all t ts (seed t es) (ground (arith, has_target-seed t t es, same_key_refl t)),
  seed_all-has_target ts (seed t es),
)

pub has_target-add_all :
    (u : Target) (records : List DiffRecord) (es : List Entry)
    → has_target u es ≡ true
    → has_target u (add_all records es) ≡ true
unfolding add_all
has_target-add_all u [] es h = h
has_target-add_all u (r ∷ records) es h =
    has_target-add_all u records (add_record r es) (ground (arith, has_target-add_record r u es))

pub blank-IsGrouped : (es : List Entry) → All IsBlank es → Separate es → IsGrouped [] es
blank-IsGrouped [] b s = (Permᴰ.nil, tt, tt)
blank-IsGrouped (e ∷ es) b s =
    let (p, o, rest) = blank-IsGrouped es b.1 s.1 in
    (
      subst (λ l. Permᴰ (l ++ all_diffs es) []) (sym b.0) p,
      (subst (All (λ (d : DiffRecord). same_key d.target e.target ≡ true)) (sym b.0) tt, o),
      s,
    )
