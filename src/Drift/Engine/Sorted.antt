-- ===== src/Drift/Engine/Sorted.antt =====
-- The entries of _group_by_target once they are sorted.
use nctl.Prelude.{
  true, false, ◌||◌, List, [], ◌∷◌, ◌++◌, All, ◌≡◌, refl, ◌∙◌, arith, Bool-cases, inl, inr,
  append_assoc,
}
use nctl.Prelude.Order.{insert_sorted, sort}
use nctl.Prelude.Sorting.{All-sort, All-map_lem, sort-Permᴰ}
use nctl.Sources.{DesiredSnapshot}
use nctl.Drift.Model.{Target, DiffRecord}
use nctl.Drift.Engine.{Entry, same_key, seed_all, add_all, seeded_targets, entry_le, grouped}
use nctl.Drift.Engine.Grouping.{
  has_target, all_diffs, IsOwn, Separate, same_key_sym, add_all-IsGrouped, blank-IsGrouped,
  seed_all-IsSeeded, seed_all-has_target, has_target-add_all,
}
use mathlib.Core.Path.{subst}
use mathlib.Core.List.{Permᴰ}
use mathlib.Core.List.Permᴰ

has_target-insert_sorted :
    (t : Target) (e : Entry) (es : List Entry)
    → has_target t (insert_sorted entry_le e es) ≡ (same_key t e.target || has_target t es)
unfolding insert_sorted
has_target-insert_sorted t e [] = refl
has_target-insert_sorted t e (f ∷ es) = ground (arith, has_target-insert_sorted t e es)

has_target-sort : (t : Target) (es : List Entry) → has_target t (sort entry_le es) ≡ has_target t es
unfolding sort
has_target-sort t [] = refl
has_target-sort t (e ∷ es) =
    ground (arith, has_target-insert_sorted t e (sort entry_le es), has_target-sort t es)

insert_sorted-Separate :
    (e : Entry) (es : List Entry)
    → has_target e.target es ≡ false
    → Separate es
    → Separate (insert_sorted entry_le e es)
unfolding insert_sorted
insert_sorted-Separate e [] h s = (refl, tt)
insert_sorted-Separate e (f ∷ es) h s = elim (Bool-cases (entry_le e f)) [
  | inl first ↦ rw (first, Separate) (h, s)
  | inr after ↦
      rw (after, Separate)
        (
          has_target-insert_sorted f.target e es ∙ ground (arith, same_key_sym f.target e.target),
          insert_sorted-Separate e es (ground arith) s.1,
        )
]

sort-Separate : (es : List Entry) → Separate es → Separate (sort entry_le es)
unfolding sort
sort-Separate [] s = tt
sort-Separate (e ∷ es) s =
    insert_sorted-Separate e (sort entry_le es) (has_target-sort e.target es ∙ s.0)
      (sort-Separate es s.1)

Permᴰ-all_diffs : {es fs : List Entry} → Permᴰ es fs → Permᴰ (all_diffs es) (all_diffs fs)
Permᴰ-all_diffs Permᴰ.nil = Permᴰ.nil
Permᴰ-all_diffs (Permᴰ.cons {a} {l₁} {l₂} q p) =
    subst (λ (e : Entry). Permᴰ (a.diffs ++ all_diffs l₁) (e.diffs ++ all_diffs l₂)) q
      (Permᴰ.append_left a.diffs (Permᴰ-all_diffs p))
Permᴰ-all_diffs (Permᴰ.swap {a} {b} {b'} {l} q r) =
    subst
      (λ (f : Entry).
        Permᴰ (a.diffs ++ (b.diffs ++ all_diffs l)) (f.diffs ++ (b'.diffs ++ all_diffs l)))
      r
      (subst
        (λ (e : Entry).
          Permᴰ (a.diffs ++ (b.diffs ++ all_diffs l)) (b.diffs ++ (e.diffs ++ all_diffs l)))
        q
        (rw
          (
            ← append_assoc a.diffs b.diffs (all_diffs l),
            ← append_assoc b.diffs a.diffs (all_diffs l),
          )
          (Permᴰ.append_right (all_diffs l) (Permᴰ.append_comm a.diffs b.diffs))))
Permᴰ-all_diffs (Permᴰ.trans p q) = Permᴰ.trans (Permᴰ-all_diffs p) (Permᴰ-all_diffs q)

abbrev pub HoldsAll : List DiffRecord → List Target → List Entry → Type 0
HoldsAll records seeds es =
    All (λ t. has_target t es ≡ true) seeds
    × Permᴰ (all_diffs es) records
    × All IsOwn es
    × Separate es

pub grouped-HoldsAll :
    (records : List DiffRecord) (d : DesiredSnapshot)
    → HoldsAll records (seeded_targets d) (grouped records d)
unfolding grouped
grouped-HoldsAll records d =
    let seeds = seed_all (seeded_targets d) [] in
    let es = add_all records seeds in
    let (blank, apart) = seed_all-IsSeeded (seeded_targets d) [] tt tt in
    let (p, own, separate) =
      add_all-IsGrouped records [] seeds (blank-IsGrouped seeds blank apart) in
    (
      All-map_lem (λ t h. has_target-sort t es ∙ has_target-add_all t records seeds h)
          (seeded_targets d) (seed_all-has_target (seeded_targets d) []),
      Permᴰ.trans (Permᴰ-all_diffs (sort-Permᴰ entry_le es)) p,
      All-sort entry_le IsOwn es own,
      sort-Separate es separate,
    )
