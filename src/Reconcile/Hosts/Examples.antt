-- ===== src/Reconcile/Hosts/Examples.antt =====
-- An observation of a device that is no node: nothing to connect to.
use nctl.Prelude.{[], ◌∷◌, none, some, ◌≡◌}
use nctl.Prelude.Result.{err}
use nctl.Drift.Model.{Target}
use nctl.Reconcile.Reconcilers.{plan_observe_node, target_slugs}
use nctl.Reconcile.Hosts.{missing_ssh_host_slugs, action_host_slugs}
use nctl.Reconcile.Hosts.Observed.{action_host_slugs-plan_observe_node}

abbrev device : Target
device = record { kind = "device"; slug = none; name = some "printer"; id = some "d1" }

action_host_slugs-plan_observe_node_example :
    action_host_slugs (plan_observe_node "observe_node" "" (device ∷ []) ("ingest_lag" ∷ []))
    ≡ err (missing_ssh_host_slugs "observe_node")
unfolding target_slugs
action_host_slugs-plan_observe_node_example =
    action_host_slugs-plan_observe_node "observe_node" "" (device ∷ []) ("ingest_lag" ∷ [])
