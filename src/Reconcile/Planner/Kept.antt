-- ===== src/Reconcile/Planner/Kept.antt =====
-- Where the first loop of `build_plan` keeps a diff: as a review record or in a group.
use mathlib.Core.Path.{subst}
use nctl.Prelude.{
  eq_refl, String, true, List, [], ◌∷◌, ◌++◌, ◌==◌, ◌≡◌, ◌⊎◌, inl, inr, refl, contains, arith,
  eq_iff, Bool-cases,
}
use mathlib.Core.List.{Memᴰ}
use mathlib.Core.List.Memᴰ
use nctl.Prelude.Dict
use nctl.Prelude.Dict.{Dict}
use nctl.Drift.Model.{DiffRecord}
use nctl.Prelude.Value.{end}
use nctl.Reconcile.Model.{ReviewRecord}
use nctl.Reconcile.Planner.Observed.{Observed}
use nctl.Reconcile.Planner.Partition.{
  Parts, Group, TargetKey, same_key, target_key, review_record, add_to_group, groups_of, group_diff,
}

-- the record names the target and the code of the diff
abbrev pub IsAbout : DiffRecord → ReviewRecord → Type 0
IsAbout d r = (r.target ≡ d.target) × (r.code ≡ d.code)

abbrev pub Reviewed : DiffRecord → List ReviewRecord → Type 0
Reviewed d records = (r : ReviewRecord) × Memᴰ r records × IsAbout d r

abbrev pub Grouped : DiffRecord → Dict (List Group) → Type 0
Grouped d groups =
    (id : String) × (g : Group) × Memᴰ g (groups_of (Dict.get groups id)) × Memᴰ d g.diffs

-- where the parts of a plan keep a diff
abbrev pub Kept : DiffRecord → Parts → Type 0
Kept d parts =
    ((contains d.code parts.observe_codes ≡ true) × Observed d parts.observe_targets)
    ⊎ (Reviewed d parts.manual_review
        ⊎ (Reviewed d parts.unsupported ⊎ Grouped d parts.automatic_groups))

-- a group list that holds the diff
abbrev Holds : DiffRecord → List Group → Type 0
Holds d groups = (g : Group) × Memᴰ g groups × Memᴰ d g.diffs

Holds-tail : {d : DiffRecord} {g : Group} {rest : List Group} → Holds d rest → Holds d (g ∷ rest)
Holds-tail (h, m, k) = (h, Memᴰ.tail m, k)

add_to_group-new :
    (d : DiffRecord) (k : TargetKey) (groups : List Group) → Holds d (add_to_group d k groups)
unfolding add_to_group
add_to_group-new d k [] = (_, Memᴰ.head refl, Memᴰ.head refl)
add_to_group-new d k (g ∷ rest) = elim (Bool-cases (same_key k g.key)) [
  | inl same ↦ rw same (_, Memᴰ.head refl, Memᴰ.append_right g.diffs (Memᴰ.head refl))
  | inr other ↦ rw other (Holds-tail (add_to_group-new d k rest))
]

add_to_group-old :
    (d e : DiffRecord) (k : TargetKey) (groups : List Group)
    → Holds e groups
    → Holds e (add_to_group d k groups)
unfolding add_to_group
add_to_group-old d e k [] (h, m, n) = absurd (Memᴰ.not-nil m)
add_to_group-old d e k (g ∷ rest) (h, m, n) = elim (Memᴰ.cases_cons m) [
  | inl here ↦ elim (Bool-cases (same_key k g.key)) [
    | inl same ↦ rw same (
      _,
      Memᴰ.head refl,
      Memᴰ.append_left (d ∷ []) (subst (λ (x : Group). Memᴰ e x.diffs) here n),
    )
    | inr other ↦ rw other (h, Memᴰ.head here, n)
  ]
  | inr later ↦ elim (Bool-cases (same_key k g.key)) [
    | inl same ↦ rw same (h, Memᴰ.tail later, n)
    | inr other ↦ rw other (Holds-tail (add_to_group-old d e k rest (h, later, n)))
  ]
]

pub group_diff-new :
    (d : DiffRecord) (id : String) (groups : Dict (List Group)) → Grouped d (group_diff d id groups)
unfolding group_diff
group_diff-new d id groups =
    let (g, m, n) = add_to_group-new d (target_key d.target) (groups_of (Dict.get groups id)) in
    (
      id,
      g,
      rw
          (
            Dict.get-put groups id id
                (add_to_group d (target_key d.target) (groups_of (Dict.get groups id))),
            eq_refl id,
          )
          m,
      n,
    )

pub group_diff-old :
    (d e : DiffRecord) (id : String) (groups : Dict (List Group))
    → Grouped e groups
    → Grouped e (group_diff d id groups)
unfolding group_diff
group_diff-old d e id groups (j, g, m, n) = elim (Bool-cases (j == id)) [
  | inl same ↦
      let q : j ≡ id = ground (arith, eq_iff j id) in
      let (h, m', n') =
        add_to_group-old d e (target_key d.target) (groups_of (Dict.get groups id))
          (g, rw q at m, n) in
      (
        j,
        h,
        rw
            (
              Dict.get-put groups id j
                  (add_to_group d (target_key d.target) (groups_of (Dict.get groups id))),
              same,
            )
            m',
        n',
      )
  | inr other ↦ (
    j,
    g,
    rw
        (
          Dict.get-put groups id j
              (add_to_group d (target_key d.target) (groups_of (Dict.get groups id))),
          other,
        )
        m,
    n,
  )
]

pub Reviewed-add :
    (d : DiffRecord) (records : List ReviewRecord) (r : ReviewRecord)
    → Reviewed d records
    → Reviewed d (records ++ r ∷ [])
Reviewed-add d records r (x, m, about) = (x, Memᴰ.append_left (r ∷ []) m, about)

pub Reviewed-new :
    (d : DiffRecord) (records : List ReviewRecord) (r : ReviewRecord)
    → IsAbout d r
    → Reviewed d (records ++ r ∷ [])
Reviewed-new d records r about = (r, Memᴰ.append_right records (Memᴰ.head refl), about)

pub review_record-IsAbout :
    (d : DiffRecord) (reason : String) → IsAbout d (review_record d reason end)
unfolding review_record
review_record-IsAbout d reason = (refl, refl)
