-- ===== src/Drift/Engine/Report.antt =====
-- What `nctl drift` reports of the records of the comparators.
use nctl.Prelude.{
  ℕ, suc, String, Bool, true, false, List, [], ◌∷◌, ◌++◌, Option, All, any, length, ◌+◌, ◌≡◌, refl,
  sym, ap, ◌∙◌, arith,
}
use nctl.Prelude.Order.{sort}
use nctl.Prelude.Sorting.{
  Ascending, sort-Ascending, sort-Permᴰ, All-sort, All-map_lem, by_key-IsPreorder, lex-IsPreorder,
  leb-IsPreorder,
}
use nctl.Prelude.Result.{ok, ◌>>=◌, >>=-eq-ok, ok_inj}
use nctl.Sources.{DesiredSnapshot}
use nctl.Drift.Model.{Target, DiffRecord, Status, converged, drifting, converging, unknown}
use nctl.Drift.Operations.{LogError, LogFile, Moment}
use nctl.Drift.Status.{derive_status}
use nctl.Drift.Engine.{
  ActualDevice, Entry, TargetStatus, Summary, DriftResult, same_key, seeded_targets, code_le,
  grouped, devices_by_id, observed_at_for, statuses, bump, summarize, compute_drift,
}
use nctl.Drift.Engine.Grouping.{has_target, all_diffs, IsOwn, Separate}
use nctl.Drift.Engine.Sorted.{grouped-HoldsAll}
use nctl.Prelude.Dict.{Dict}
use mathlib.Core.Path.{subst}
use mathlib.Core.List.{Permᴰ}
use mathlib.Core.List.Permᴰ

abbrev pub reports : Target → List TargetStatus → Bool
reports t = any (λ s. same_key t s.target)

abbrev pub reported : List TargetStatus → List DiffRecord
reported [] = []
reported (s ∷ ss) = s.diffs ++ reported ss

-- the records of a target have its key, and come in the order of their codes
abbrev pub IsOrderedOwn : TargetStatus → Type 0
IsOrderedOwn s =
    All (λ (d : DiffRecord). same_key d.target s.target ≡ true) s.diffs × Ascending code_le s.diffs

abbrev pub Apart : List TargetStatus → Type 0
Apart [] = Unit
Apart (s ∷ ss) = (reports s.target ss ≡ false) × Apart ss

abbrev pub counted : Summary → ℕ
counted s = s.converged + s.drifting + s.converging + s.unknown

-- each target with a status from its own records
abbrev Agrees : List Entry → List TargetStatus → Type 0
Agrees [] [] = Unit
Agrees [] (s ∷ ss) = ⊥
Agrees (e ∷ es) [] = ⊥
Agrees (e ∷ es) (s ∷ ss) = (s.target ≡ e.target) × (s.diffs ≡ sort code_le e.diffs) × Agrees es ss

statuses-Agrees :
    (fromisoformat : String → Option Moment) (events_dir : Option (Option (List LogFile)))
    (d : DesiredSnapshot) (devices : Dict ActualDevice) (es : List Entry) (out : List TargetStatus)
    → statuses fromisoformat events_dir d devices es ≡ ok out
    → Agrees es out
unfolding statuses
statuses-Agrees fromisoformat events_dir d devices [] out h =
    subst (Agrees []) (ok_inj LogError (List TargetStatus) [] out h) tt
statuses-Agrees fromisoformat events_dir d devices (e ∷ es) out h =
    let diffs : List DiffRecord = sort code_le e.diffs in
    let (observed_at, o, u) =
      >>=-eq-ok (observed_at_for fromisoformat e.target d devices)
        (λ observed_at.
          derive_status fromisoformat diffs e.target.slug observed_at events_dir >>= λ status.
          statuses fromisoformat events_dir d devices es >>= λ later.
          ok (record { target = e.target; status = status; diffs = diffs } ∷ later))
        h in
    let (status, p, q) =
      >>=-eq-ok (derive_status fromisoformat diffs e.target.slug observed_at events_dir)
        (λ status. statuses fromisoformat events_dir d devices es >>= λ later.
          ok (record { target = e.target; status = status; diffs = diffs } ∷ later))
        u in
    let (later, r, t) =
      >>=-eq-ok (statuses fromisoformat events_dir d devices es)
        (λ later. ok (record { target = e.target; status = status; diffs = diffs } ∷ later)) q in
    subst (Agrees (e ∷ es)) (ok_inj LogError (List TargetStatus) _ out t)
      (refl, refl, statuses-Agrees fromisoformat events_dir d devices es later r)

reports-has_target :
    (t : Target) (es : List Entry) (ss : List TargetStatus)
    → Agrees es ss
    → reports t ss ≡ has_target t es
reports-has_target t [] [] a = refl
reports-has_target t [] (s ∷ ss) a = absurd a
reports-has_target t (e ∷ es) [] a = absurd a
reports-has_target t (e ∷ es) (s ∷ ss) a = rw (a.0, reports-has_target t es ss a.2) refl

reported-Permᴰ :
    (es : List Entry) (ss : List TargetStatus) → Agrees es ss → Permᴰ (reported ss) (all_diffs es)
reported-Permᴰ [] [] a = Permᴰ.nil
reported-Permᴰ [] (s ∷ ss) a = absurd a
reported-Permᴰ (e ∷ es) [] a = absurd a
reported-Permᴰ (e ∷ es) (s ∷ ss) a =
    subst (λ l. Permᴰ (l ++ reported ss) (e.diffs ++ all_diffs es)) (sym a.1)
      (Permᴰ.trans (Permᴰ.append_right (reported ss) (sort-Permᴰ code_le e.diffs))
        (Permᴰ.append_left e.diffs (reported-Permᴰ es ss a.2)))

IsOrderedOwn-of :
    (es : List Entry) (ss : List TargetStatus) → Agrees es ss → All IsOwn es → All IsOrderedOwn ss
IsOrderedOwn-of [] [] a o = tt
IsOrderedOwn-of [] (s ∷ ss) a o = absurd a
IsOrderedOwn-of (e ∷ es) [] a o = absurd a
IsOrderedOwn-of (e ∷ es) (s ∷ ss) a o = (
  subst
      (λ (t : Target).
        All (λ (d : DiffRecord). same_key d.target t ≡ true) s.diffs × Ascending code_le s.diffs)
      (sym a.0)
      (subst
        (λ l. All (λ (d : DiffRecord). same_key d.target e.target ≡ true) l × Ascending code_le l)
        (sym a.1)
        (
          All-sort code_le (λ d. same_key d.target e.target ≡ true) e.diffs o.0,
          sort-Ascending code_le (by_key-IsPreorder _ (lex-IsPreorder leb-IsPreorder)) e.diffs,
        )),
  IsOrderedOwn-of es ss a.2 o.1,
)

Apart-of : (es : List Entry) (ss : List TargetStatus) → Agrees es ss → Separate es → Apart ss
Apart-of [] [] a h = tt
Apart-of [] (s ∷ ss) a h = absurd a
Apart-of (e ∷ es) [] a h = absurd a
Apart-of (e ∷ es) (s ∷ ss) a h = (
  reports-has_target s.target es ss a.2
      ∙ subst (λ (t : Target). has_target t es ≡ false) (sym a.0) h.0,
  Apart-of es ss a.2 h.1,
)

counted-bump : (status : Status) (s : Summary) → counted (bump status s) ≡ suc (counted s)
counted-bump converged s = omega arith
counted-bump drifting s = omega arith
counted-bump converging s = omega arith
counted-bump unknown s = omega arith

counted-summarize : (ts : List TargetStatus) → counted (summarize ts) ≡ length ts
unfolding summarize
counted-summarize [] = refl
counted-summarize (t ∷ ts) = counted-bump t.status (summarize ts) ∙ ap suc (counted-summarize ts)

-- each seeded target is reported, the records are distributed over targets of their keys, no key has two
-- targets, and the counts are of the targets
abbrev pub IsFaithful : List Target → List DiffRecord → DriftResult → Type 0
IsFaithful seeds records r =
    All (λ t. reports t r.targets ≡ true) seeds
    × Permᴰ (reported r.targets) records
    × All IsOrderedOwn r.targets
    × Apart r.targets
    × (counted r.summary ≡ length r.targets)

-- A drift report names every node, service, workspace, agent, platform and instance of the desired
-- snapshot, flagged or not; it holds every record of the comparators exactly once, under the one target
-- with the key of the record's target, in the order of the codes; and its summary counts its targets.
pub compute_drift-IsFaithful :
    (fromisoformat : String → Option Moment) (events_dir : Option (Option (List LogFile)))
    (d : DesiredSnapshot) (devices : List ActualDevice) (records : List DiffRecord)
    (out : DriftResult)
    → compute_drift fromisoformat events_dir d devices records ≡ ok out
    → IsFaithful (seeded_targets d) records out
unfolding compute_drift
compute_drift-IsFaithful fromisoformat events_dir d devices records out h =
    let es : List Entry = grouped records d in
    let (ss, p, q) =
      >>=-eq-ok (statuses fromisoformat events_dir d (devices_by_id devices []) es)
        (λ targets. ok (record { summary = summarize targets; targets = targets })) h in
    let a : Agrees es ss =
      statuses-Agrees fromisoformat events_dir d (devices_by_id devices []) es ss p in
    let (seeded, perm, own, apart) = grouped-HoldsAll records d in
    subst (IsFaithful (seeded_targets d) records) (ok_inj LogError DriftResult _ out q) (
      All-map_lem (λ t g. reports-has_target t es ss a ∙ g) (seeded_targets d) seeded,
      Permᴰ.trans (reported-Permᴰ es ss a) perm,
      IsOrderedOwn-of es ss a own,
      Apart-of es ss a apart,
      counted-summarize ss,
    )
