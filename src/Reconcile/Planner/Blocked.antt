-- ===== src/Reconcile/Planner/Blocked.antt =====
-- No service action is planned on a blocked host, or outside the scope.
use mathlib.Core.Path.{subst}
use nctl.Prelude.{
  String, Bool, true, not, ◌&&◌, List, [], ◌∷◌, ◌++◌, map, some, ◌≡◌, ◌⊎◌, inl, inr, refl, sym, ◌∙◌,
  contains, select, nonempty, arith, eq_iff, Option-cases, Bool-cases,
}
use nctl.Prelude.Order.{sorted, contains-sorted}
use mathlib.Core.List.{Memᴰ}
use mathlib.Core.List.Memᴰ
use nctl.Prelude.Dict
use nctl.Prelude.Dict.{Dict}
use nctl.Prelude.Value.{items_texts-texts, lookup, text_list}
use nctl.Drift.Model.{Target, DiffRecord}
use nctl.Sources.{DesiredSnapshot}
use nctl.Reconcile.Model.{ReconcileAction, PlanScope, ScopeKind, cluster, host}
use nctl.Reconcile.Reconcilers.{
  Fallback, Outcome, planned, declined, ProfileReconciliation, playbook_action, dnsmasq_action,
  plan_service_profile,
}
use nctl.Reconcile.Planner.{is_text}
use nctl.Reconcile.Planner.Partition.{Group}
use nctl.Prelude.Result.{ok, ok_inj, >>=-eq-ok}
use nctl.Reconcile.Planner.{PlanFailure}
use nctl.Reconcile.Planner.Services.{
  Draft, Drafting, Inputs, inputs, no_inputs, fall_back, concerning, actionable_hosts,
  draft_profile, plan_profile, plan_group, plan_profiles, plan_services, host_slugs,
  service_profile_inputs,
}

contains-select :
    (p : String → Bool) (xs : List String) (h : String)
    → contains h (select p xs) ≡ true
    → (p h ≡ true) × (contains h xs ≡ true)
contains-select p [] h k = absurd (ground arith)
contains-select p (x ∷ xs) h k = ground (arith, eq_iff h x, contains-select p xs h)

-- an action is planned on exactly the hosts
abbrev ActsOn : List String → Outcome → Type 0
ActsOn hosts (planned a) = host_slugs a ≡ sorted hosts
ActsOn hosts (declined f) = Unit

plan_service_profile-ActsOn :
    (target : Target) (claimed : List String) (profile : String) (hosts : List String)
    (reconciliation : Dict ProfileReconciliation)
    → ActsOn hosts (plan_service_profile target claimed profile hosts reconciliation)
unfolding plan_service_profile host_slugs text_list lookup
plan_service_profile-ActsOn target claimed profile hosts reconciliation =
    elim (Option-cases (Dict.get reconciliation profile)) [
      | inl q ↦ rw (q, ActsOn) tt
      | inr (entry, q) ↦ elim (Bool-cases entry.observe_only) [
        | inl w ↦ rw (q, w, ActsOn) tt
        | inr w ↦ elim (Option-cases entry.action) [
          | inl z ↦ rw (q, w, z, ActsOn) tt
          | inr (dnsmasq_action, z) ↦ rw (q, w, z, ActsOn) (items_texts-texts (sorted hosts))
          | inr (playbook_action p by_os, z) ↦
              rw (q, w, z, ActsOn) (items_texts-texts (sorted hosts))
        ]
      ]
    ]

module _ (scope : PlanScope) (blocked : List String) where
  -- whether an action may touch a host
  abbrev pub may_touch : String → Bool
  may_touch h =
      not (contains h blocked)
      && elim scope.kind [ cluster ↦ true | host ↦ is_text scope.host_slug h ]

  abbrev pub IsConfined : ReconcileAction → Type 0
  IsConfined a = (h : String) → contains h (host_slugs a) ≡ true → may_touch h ≡ true

  kinds : (k : ScopeKind) → (k ≡ cluster) ⊎ (k ≡ host)
  kinds cluster = inl refl
  kinds host = inr refl

  actionable_hosts-may_touch :
      (hosts : List String) (h : String)
      → contains h (actionable_hosts scope blocked hosts) ≡ true
      → may_touch h ≡ true
  unfolding actionable_hosts
  actionable_hosts-may_touch hosts h k = elim (kinds scope.kind) [
    | inl q ↦
        let (free, m) = contains-select (λ h. not (contains h blocked)) hosts h (rw q at k) in
        rw (q, free) refl
    | inr q ↦
        let (free, m) =
          contains-select (λ h. not (contains h blocked))
            (select (λ h. is_text scope.host_slug h) hosts) h (rw q at k) in
        let (mine, n) = contains-select (λ h. is_text scope.host_slug h) hosts h m in
        rw (q, free, mine) refl
  ]

  abbrev Adds : Drafting → Drafting → Type 0
  Adds s t = (d : Draft) → Memᴰ d t.drafts → Memᴰ d s.drafts ⊎ IsConfined d.action

  fall_back-Adds :
      (f : Fallback) (diffs : List DiffRecord) (s : Drafting) → Adds s (fall_back f diffs s)
  unfolding fall_back
  fall_back-Adds f diffs s d m = inl m

  host_slugs-IsConfined :
      (hosts : List String) (a : ReconcileAction)
      → host_slugs a ≡ sorted (actionable_hosts scope blocked hosts)
      → IsConfined a
  host_slugs-IsConfined hosts a e h k =
      actionable_hosts-may_touch hosts h
        (sym (contains-sorted h (actionable_hosts scope blocked hosts)) ∙ (rw e at k))

  module _ (reconciliation : Dict ProfileReconciliation) where
    -- what the inner loop does with what was planned for a profile
    abbrev outcome_added : List DiffRecord → String → Drafting → Outcome → Drafting
    outcome_added diffs profile s (declined f) = fall_back f diffs s
    outcome_added diffs profile s (planned a) = record s {
      drafts = s.drafts ++ record { action = a; profile = some profile } ∷ [];
    }

    outcome-Adds :
        (diffs : List DiffRecord) (profile : String) (hosts : List String) (s : Drafting)
        (o : Outcome)
        → ActsOn (actionable_hosts scope blocked hosts) o
        → Adds s (outcome_added diffs profile s o)
    outcome-Adds diffs profile hosts s (declined f) on d m = fall_back-Adds f diffs s d m
    outcome-Adds diffs profile hosts s (planned a) on d m = elim (Memᴰ.append_cases s.drafts m) [
      | inl old ↦ inl old
      | inr new ↦ elim (Memᴰ.cases_cons new) [
        | inl same ↦ inr (
            subst (λ (x : Draft). IsConfined x.action) (sym same)
              (host_slugs-IsConfined hosts a on))
        | inr none_left ↦ absurd (Memᴰ.not-nil none_left)
      ]
    ]

    draft_profile-Adds :
        (g : Group) (profile : String) (hosts : List String) (s : Drafting)
        (diffs : List DiffRecord)
        → Adds s (draft_profile scope blocked reconciliation g profile hosts s diffs)
    unfolding draft_profile
    draft_profile-Adds g profile hosts s diffs d m =
        elim (Bool-cases (nonempty diffs && nonempty (actionable_hosts scope blocked hosts))) [
          | inr idle ↦ inl (rw idle at m)
          | inl busy ↦
              let o =
                plan_service_profile g.target (map (λ d. d.code) diffs) profile
                  (actionable_hosts scope blocked hosts) reconciliation in
              outcome-Adds diffs profile hosts s o
                (plan_service_profile-ActsOn g.target _ profile
                  (actionable_hosts scope blocked hosts) reconciliation)
                d (rw busy at m)
        ]

    plan_profile-Adds :
        (g : Group) (profile : String) (hosts : List String) (s : Drafting) {t : Drafting}
        → plan_profile scope blocked reconciliation g profile hosts s ≡ ok t
        → Adds s t
    unfolding plan_profile
    plan_profile-Adds g profile hosts s {t} e =
        let (diffs, read, drafted) =
          >>=-eq-ok (concerning profile g.diffs)
            (λ diffs. ok (draft_profile scope blocked reconciliation g profile hosts s diffs)) e in
        subst (Adds s) (ok_inj PlanFailure Drafting _ t drafted)
          (draft_profile-Adds g profile hosts s diffs)

    Adds-step : (s t u : Drafting) → Adds s t → Adds t u → Adds s u
    Adds-step s t u first later d m = elim (later d m) [ inl old ↦ first d old | inr new ↦ inr new ]

    plan_profiles-Adds :
        (g : Group) (profiles : List (String × List String)) (s : Drafting) {u : Drafting}
        → plan_profiles scope blocked reconciliation g profiles s ≡ ok u
        → Adds s u
    unfolding plan_profiles
    plan_profiles-Adds g [] s {u} e =
        subst (Adds s) (ok_inj PlanFailure Drafting s u e) (λ d m. inl m)
    plan_profiles-Adds g ((profile, hosts) ∷ rest) s {u} e =
        let (t, first, later) =
          >>=-eq-ok (plan_profile scope blocked reconciliation g profile hosts s)
            (plan_profiles scope blocked reconciliation g rest) e in
        Adds-step s t u (plan_profile-Adds g profile hosts s first)
          (plan_profiles-Adds g rest t later)

    plan_group-Adds :
        (g : Group) (s : Drafting) (i : Inputs) {u : Drafting}
        → plan_group scope blocked reconciliation g s i ≡ ok u
        → Adds s u
    plan_group-Adds g s (no_inputs f) {u} e =
        subst (Adds s) (ok_inj PlanFailure Drafting (fall_back f g.diffs s) u e)
          (fall_back-Adds f g.diffs s)
    plan_group-Adds g s (inputs profiles) e = plan_profiles-Adds g profiles s e

    -- If the loop over the service groups ends, then every draft that stands after it was there before
    -- it, or its action touches only hosts outside the blocked slugs and, in a host scope, only the host
    -- of the scope.
    pub plan_services-Adds :
        (snapshot : DesiredSnapshot) (groups : List Group) (s : Drafting) (d : Draft)
        {after : Drafting}
        → plan_services scope blocked reconciliation snapshot groups s ≡ ok after
        → Memᴰ d after.drafts
        → Memᴰ d s.drafts ⊎ IsConfined d.action
    unfolding plan_services
    plan_services-Adds snapshot [] s d {after} e =
        subst (Adds s) (ok_inj PlanFailure Drafting s after e) (λ x m. inl m) d
    plan_services-Adds snapshot (g ∷ rest) s d {after} e =
        let (t, first, later) =
          >>=-eq-ok
            (plan_group scope blocked reconciliation g s (service_profile_inputs g.target snapshot))
            (plan_services scope blocked reconciliation snapshot rest) e in
        Adds-step s t after (plan_group-Adds g s (service_profile_inputs g.target snapshot) first)
          (λ x m. plan_services-Adds snapshot rest t x later m) d
