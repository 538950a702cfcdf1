-- ===== src/Reconcile/Hosts/Observed.antt =====
-- The hosts of a planned observation, as the SSH gate reads them.
use nctl.Prelude.{
  String, true, List, [], ◌∷◌, ◌≡◌, refl, ◌∙◌, nonempty, contains, if◌then◌else◌, arith, eq_refl,
}
use nctl.Prelude.Order.{sorted, contains-sorted}
use nctl.Prelude.Sets.{set_of, contains-set_of}
use nctl.Prelude.Value.{items_texts-texts, text_list, lookup}
use nctl.Prelude.Dict
use nctl.Prelude.Result.{ok, err}
use nctl.Drift.Model.{Target}
use nctl.Reconcile.Reconcilers.{plan_observe_node, target_slugs, registry}
use nctl.Reconcile.Registry.{get_reconciler}
use nctl.Reconcile.Hosts.{missing_ssh_host_slugs, action_host_slugs, connects_over_ssh}

-- `sorted` and `set` keep an empty list empty, and only that
nonempty-contains :
    (xs ys : List String)
    → ((a : String) → contains a xs ≡ contains a ys)
    → nonempty xs ≡ nonempty ys
nonempty-contains [] [] h = refl
nonempty-contains [] (y ∷ ys) h = absurd (ground (arith, h y, eq_refl y))
nonempty-contains (x ∷ xs) [] h = absurd (ground (arith, h x, eq_refl x))
nonempty-contains (x ∷ xs) (y ∷ ys) h = refl

observe-ssh : connects_over_ssh "observe_node" ≡ true
unfolding connects_over_ssh get_reconciler registry Dict.get Dict.put
observe-ssh = refl

-- The SSH gate accepts a planned observation if one of its targets has a slug, and raises
-- `MissingSshHostSlugsError` for it if none has.
pub action_host_slugs-plan_observe_node :
    (id reason : String) (targets : List Target) (claimed : List String)
    → action_host_slugs (plan_observe_node id reason targets claimed) ≡ (
        if nonempty (target_slugs targets)
        then ok (set_of (sorted (set_of (target_slugs targets))))
        else err (missing_ssh_host_slugs id))
unfolding action_host_slugs plan_observe_node text_list lookup
action_host_slugs-plan_observe_node id reason targets claimed =
    let hosts = sorted (set_of (target_slugs targets)) in
    let same = items_texts-texts hosts in
    let size = nonempty-contains hosts (target_slugs targets) (λ a.
      contains-sorted a (set_of (target_slugs targets))
      ∙ contains-set_of a (target_slugs targets)) in
    rw (same, size, observe-ssh) refl
