-- ===== src/Reconcile/Ledger/Examples.antt =====
-- The write actions on a small server, which stores what it is sent, or answers without saying so.
use nctl.Prelude.{String, Bool, true, false, [], ◌∷◌, none, some, ◌≡◌, refl, ◌⊎◌, if◌then◌else◌}
use nctl.Prelude.Value.{Value, Fields, Items, field, end}
use nctl.Prelude.Result.{ok, err}
use nctl.Drift.Model.{Target}
use nctl.Sources.{DesiredSnapshot}
use nctl.Reconcile.Model.{ReconcileAction}
use nctl.Reconcile.Executor.{ActionResult}
use nctl.Reconcile.Ledger.{Raised, write_failed, Response, Client}
use nctl.Reconcile.Ledger.NodeLink.{LinkRequest, execute_link_actual_node, node_link_action}
use nctl.Reconcile.Ledger.NodeLink.Guarded as NodeGuarded
use nctl.Reconcile.Ledger.ComputeLink.{
  ComputeLinkResult, ComputeRequest, compute_request, link_result, execute_link_compute_realization,
}
use nctl.Reconcile.Ledger.ComputeLink.Guarded as ComputeGuarded
use nctl.Reconcile.Ledger.ComputeLink.Repeated.{execute_link_compute_realization_again}
use nctl.Reconcile.Ledger.Ipam.{JobRunner, ipam_action}
use nctl.Reconcile.Ledger.Ipam.Covered.{Success, ipam_action-Success}

abbrev target : Target
target = record { kind = "node"; slug = some "n"; name = none; id = some "node-1" }

abbrev action : String → Fields → Fields → ReconcileAction
action id evidence parameters = record {
  id = id;
  reconciler_id = id;
  action_kind = "ledger";
  targets = target ∷ [];
  claimed_diff_codes = [];
  reason = "";
  evidence = evidence;
  dependencies = [];
  mutates = true;
  requires_observation = false;
  parameters = parameters;
}

abbrev text : String → String → Fields → Fields
text k v = field k (Value.str v)

abbrev snapshot : Bool → DesiredSnapshot
snapshot linked =
    let link = λ (id : String). if linked then some id else none in
    record {
      nodes =
          record {
            id = "node-1";
            slug = "n";
            name = "n";
            lifecycle = "active";
            realized_device_id = link "device-1";
          }
          ∷ [];
      services = [];
      placements = [];
      compute_platforms =
          record {
            id = "platform-1";
            slug = "p";
            name = "p";
            lifecycle = "active";
            control_node_id = "node-1";
            realized_cluster_id = link "cluster-1";
          }
          ∷ [];
      compute_instances =
          record {
            id = "instance-1";
            desired_node_id = "node-1";
            platform_id = "platform-1";
            realized_vm_id = link "vm-1";
          }
          ∷ [];
      workspaces = [];
      agents = [];
    }

abbrev answer : Items → Response
answer operations =
    let transaction = text "status" "committed" (field "committed" (Value.bool true) end) in
    record {
      status_code = 200;
      body = some (
          Value.obj (
            field "transaction" (Value.obj transaction)
              (field "operations" (Value.arr operations) end)));
    }

abbrev updated : Value
updated = Value.obj (text "action" "update" end)

-- whether the links are set; a batch sets them all
abbrev server : Items → Client
server operations = record {
  Server = Bool;
  fetch = λ linked. some (snapshot linked);
  rest_post = λ batch linked. (some (answer operations), true);
}

abbrev honest : Client
honest = server (Items.cons updated (Items.cons updated Items.nil))

abbrev silent : Client
silent = server Items.nil

abbrev render : Value → String
render v = "?"

abbrev node_link : ReconcileAction
node_link = action "link_actual_node" end (
    field "candidate" (Value.obj (text "object_type" "dcim.device" (text "id" "device-1" end))) end)

abbrev compute_link : ReconcileAction
compute_link = action "link_compute_realization" end (
    text "compute_platform_id" "platform-1" (
      text "compute_instance_id" "instance-1"
        (text "cluster_id" "cluster-1" (text "virtual_machine_id" "vm-1" end))))

execute_link_actual_node-Guarded_example :
    NodeGuarded.IsGuarded honest render node_link false
      (execute_link_actual_node honest render node_link false)
execute_link_actual_node-Guarded_example =
    NodeGuarded.execute_link_actual_node-Guarded honest render node_link false

abbrev refusal : ActionResult
refusal = record {
  action_id = "link_actual_node";
  reconciler_id = "link_actual_node";
  action_kind = "ledger";
  success = false;
  error = some "node_already_linked";
  mutated = false;
}

refuses_linked : node_link_action honest render node_link true ≡ (ok refusal, true)
unfolding node_link_action
refuses_linked = refl

node_link_action_quiet_example :
    (true ≡ true)
    ⊎ ((q : LinkRequest) × (e : Raised) × NodeGuarded.Submitted honest render node_link true q
          (err e)
          true)
node_link_action_quiet_example =
    NodeGuarded.node_link_action_quiet honest render node_link true refusal true refuses_linked refl

execute_link_compute_realization-Guarded_example :
    ComputeGuarded.IsGuarded honest render compute_link false
      (execute_link_compute_realization honest render compute_link false)
execute_link_compute_realization-Guarded_example =
    ComputeGuarded.execute_link_compute_realization-Guarded honest render compute_link false

abbrev linked : String → ComputeLinkResult
linked write = record {
  node_slug = "n";
  compute_platform_id = "platform-1";
  cluster_id = "cluster-1";
  compute_instance_id = "instance-1";
  virtual_machine_id = "vm-1";
  platform_write = write;
  instance_write = write;
}

links_both :
    execute_link_compute_realization honest render compute_link false ≡ (ok (linked "update"), true)
unfolding execute_link_compute_realization
links_both = refl

execute_link_compute_realization_again_example :
    (q : ComputeRequest) × (compute_request render compute_link ≡ ok q)
    × (execute_link_compute_realization honest render compute_link true
        ≡ (link_result compute_link.targets q ("already_correct", "already_correct"), true))
execute_link_compute_realization_again_example =
    execute_link_compute_realization_again honest render compute_link false true (linked "update")
      links_both

-- a committed batch whose artifact has no operation results: the error has no mark
loses_the_mark :
    execute_link_compute_realization silent render compute_link false
    ≡ (err (write_failed 200), true)
unfolding execute_link_compute_realization
loses_the_mark = refl

abbrev endpoint : String → Value
endpoint act = Value.obj (
    text "action" act (
      field "desired_endpoint" (Value.obj (text "id" "e-1" (text "desired_node_slug" "n" end)))
        end))

abbrev summary : Value
summary = Value.obj (
    text "schema_version" "nctl.ipam.reconcile.summary.v1"
      (field "plans" (Value.arr (Items.cons (endpoint "noop") Items.nil)) end))

abbrev runner : JobRunner
runner = record {
  run = λ slug. some (some "summary.json");
  read_text = λ path. some "{}";
  loads = λ t. some summary;
}

abbrev reconcile_ipam : ReconcileAction
reconcile_ipam =
    action "reconcile_ipam"
      (field "eligible_endpoint_ids" (Value.arr (Items.cons (Value.str "e-1") Items.nil)) end)
      (text "desired_node_slug" "n" end)

abbrev reconciled : ActionResult
reconciled = record {
  action_id = "reconcile_ipam";
  reconciler_id = "reconcile_ipam";
  action_kind = "ledger";
  success = true;
  error = none;
  mutated = true;
}

reconciles : ipam_action runner render reconcile_ipam ≡ ok reconciled
unfolding ipam_action
reconciles = refl

ipam_action-Success_example : Success runner render reconcile_ipam
ipam_action-Success_example =
    ipam_action-Success runner render reconcile_ipam reconciled reconciles refl
