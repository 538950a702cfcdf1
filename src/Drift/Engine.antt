-- ===== src/Drift/Engine.antt =====
-- src/nctl_core/drift/engine.py: the diffs of each target, and its status.
mod Grouping
mod Sorted
mod Report
mod Readable
mod Timed
mod Total
mod Examples
use nctl.Prelude.{
  ℕ, zero, suc, String, Bool, true, false, not, ◌&&◌, List, [], ◌∷◌, ◌++◌, Option, none, some, map,
  ltb, leb, ◌==◌, if◌then◌else◌,
}
use nctl.Prelude.Dict
use nctl.Prelude.Dict.{Dict}
use nctl.Prelude.Order.{codes, lex, sort}
use nctl.Prelude.Sorting.{by_key}
use nctl.Prelude.Result.{Result, ok, err, ◌>>=◌}
use nctl.Sources.{
  DesiredNode, DesiredServicePlacement, DesiredComputeInstance, DesiredSnapshot, nodes_by_id,
}
use nctl.Drift.Model.{Target, DiffRecord, Status, converged, drifting, converging, unknown}
use nctl.Drift.Operations.{LogError, LogFile, Moment, after}
use nctl.Drift.Status.{derive_status}
use Prim.Native.Char.{code}
use Prim.Native.String as Text

-- the facts that `actual_facts()` reads of a device
pub record ActualDevice : Type 0 where
  pub id : String
  pub collected_at : Option String
  pub service_inventory_updated_at : Option String

-- a key of the two dicts of _group_by_target with what they hold there: the key is the target's
pub record Entry : Type 0 where
  pub target : Target
  pub diffs : List DiffRecord

pub record TargetStatus : Type 0 where
  pub target : Target
  pub status : Status
  pub diffs : List DiffRecord

pub record Summary : Type 0 where
  pub converged : ℕ
  pub drifting : ℕ
  pub converging : ℕ
  pub unknown : ℕ

pub record DriftResult : Type 0 where
  pub summary : Summary
  pub targets : List TargetStatus

-- `text or rest`
abbrev pub or_else : Option String → String → String
or_else none rest = rest
or_else (some s) rest = if s == "" then rest else s

unfoldable pub target_name : Target → String
target_name t = or_else t.id (or_else t.slug (or_else t.name ""))

-- `_target_key(t) == _target_key(u)`
unfoldable pub same_key : Target → Target → Bool
unfolding target_name
same_key t u = (t.kind == u.kind) && (target_name t == target_name u)

-- `grouped[key] = []` and `target_by_key[key] = target`
unfoldable pub seed : Target → List Entry → List Entry
unfolding same_key
seed t [] = record { target = t; diffs = [] } ∷ []
seed t (e ∷ es) =
    let rest = seed t es in
    if same_key t e.target then record { target = t; diffs = [] } ∷ es else e ∷ rest

-- `setdefault`, and `grouped[key].append(record)`
unfoldable pub add_record : DiffRecord → List Entry → List Entry
unfolding same_key
add_record r [] = record { target = r.target; diffs = r ∷ [] } ∷ []
add_record r (e ∷ es) =
    let rest = add_record r es in
    if same_key r.target e.target then record e { diffs = e.diffs ++ r ∷ [] } ∷ es else e ∷ rest

abbrev pub target_of : String → String → String → String → Target
target_of kind id slug name = record {
  kind = kind;
  slug = some slug;
  name = some name;
  id = some id;
}

-- the target of an instance, with the slug and the name of its node
abbrev pub instance_target : Dict DesiredNode → DesiredComputeInstance → Target
instance_target nodes i = elim (Dict.get nodes i.desired_node_id) [
  | none ↦ record { kind = "compute_instance"; slug = none; name = none; id = some i.id }
  | some n ↦ target_of "compute_instance" i.id n.slug n.name
]

-- the targets that are seeded, in the order of the loops
unfoldable pub seeded_targets : DesiredSnapshot → List Target
unfolding Dict.get nodes_by_id
seeded_targets d =
    map (λ n. target_of "node" n.id n.slug n.name) d.nodes
    ++ (map (λ s. target_of "service" s.id s.slug s.name) d.services
        ++ (map (λ w. target_of "workspace" w.id w.slug w.name) d.workspaces
            ++ (map (λ a. target_of "agent" a.id a.slug a.name) d.agents
                ++ (map (λ p. target_of "compute_platform" p.id p.slug p.name) d.compute_platforms
                    ++ map (instance_target (nodes_by_id d.nodes [])) d.compute_instances))))

unfoldable pub seed_all : List Target → List Entry → List Entry
unfolding seed
seed_all [] es = es
seed_all (t ∷ ts) es = seed_all ts (seed t es)

unfoldable pub add_all : List DiffRecord → List Entry → List Entry
unfolding add_record
add_all [] es = es
add_all (r ∷ rs) es = add_all rs (add_record r es)

unfoldable pub entry_key : Entry → List (List ℕ)
unfolding target_name
entry_key e = codes e.target.kind ∷ codes (target_name e.target) ∷ []

abbrev pub entry_le : Entry → Entry → Bool
entry_le = by_key (lex (lex leb)) entry_key

abbrev pub code_le : DiffRecord → DiffRecord → Bool
code_le = by_key (lex leb) (λ r. codes r.code)

unfoldable pub grouped : List DiffRecord → DesiredSnapshot → List Entry
unfolding seed_all add_all seeded_targets sort entry_key
grouped records d = sort entry_le (add_all records (seed_all (seeded_targets d) []))

-- `value.replace("Z", "+00:00")`
unfoldable pub replace_z : String → String
replace_z Text.[] = ""
replace_z (Text.◌∷◌ c s) =
    let rest = replace_z s in
    if Text.◌∷◌ c Text.[] == "Z" then Text.◌++◌ "+00:00" rest else Text.◌∷◌ c rest

-- a step of `max(timestamps)`
abbrev pub keep_latest : Option Moment → Option Moment → Result LogError (Option Moment)
keep_latest none latest = ok latest
keep_latest (some t) none = ok (some t)
keep_latest (some t) (some u) = after t u >>= λ newer. ok (if newer then some t else some u)

unfoldable pub devices_by_id : List ActualDevice → Dict ActualDevice → Dict ActualDevice
unfolding Dict.put
devices_by_id [] d = d
devices_by_id (a ∷ rest) d = devices_by_id rest (Dict.put d a.id a)

-- `devices_by_id.get(node.realized_device_id) if node and node.realized_device_id else None`
unfoldable pub device_of : Dict ActualDevice → Option DesiredNode → Option ActualDevice
unfolding Dict.get
device_of devices none = none
device_of devices (some n) = elim n.realized_device_id [
  | none ↦ none
  | some id ↦ if id == "" then none else Dict.get devices id
]

-- the first node of an id
unfoldable pub find_node : Option String → List DesiredNode → Option DesiredNode
find_node id [] = none
find_node none (n ∷ rest) = none
find_node (some id) (n ∷ rest) =
    let later = find_node (some id) rest in if n.id == id then some n else later

abbrev pub has_id : Option String → String → Bool
has_id none s = false
has_id (some id) s = s == id

abbrev pub bump : Status → Summary → Summary
bump converged s = record s { converged = suc s.converged }
bump drifting s = record s { drifting = suc s.drifting }
bump converging s = record s { converging = suc s.converging }
bump unknown s = record s { unknown = suc s.unknown }

unfoldable pub summarize : List TargetStatus → Summary
summarize [] = record { converged = 0; drifting = 0; converging = 0; unknown = 0 }
summarize (t ∷ ts) = bump t.status (summarize ts)

-- `fromisoformat` is `datetime.fromisoformat`, with `none` for a ValueError
module _ (fromisoformat : String → Option Moment) where
  unfoldable pub parse_timestamp : Option String → Option Moment
  unfolding replace_z
  parse_timestamp none = none
  parse_timestamp (some value) = if value == "" then none else fromisoformat (replace_z value)

  abbrev pub inventory_time : Option ActualDevice → Option Moment
  inventory_time none = none
  inventory_time (some d) = parse_timestamp d.service_inventory_updated_at

  abbrev pub collection_time : Option ActualDevice → Option Moment
  collection_time none = none
  collection_time (some d) = parse_timestamp d.collected_at

  -- the latest inventory of the devices that a service is placed on, after the one so far
  unfoldable pub latest_inventory :
      Option String
      → Dict DesiredNode
      → Dict ActualDevice
      → List DesiredServicePlacement
      → Option Moment
      → Result LogError (Option Moment)
  unfolding Dict.get device_of parse_timestamp
  latest_inventory id nodes devices [] latest = ok latest
  latest_inventory id nodes devices (p ∷ ps) latest =
      let more = latest_inventory id nodes devices ps in
      if has_id id p.service_id && (p.desired_state == "active")
      then keep_latest (inventory_time (device_of devices (Dict.get nodes p.node_id))) latest
        >>= more
      else more latest

  unfoldable pub observed_at_for :
      Target → DesiredSnapshot → Dict ActualDevice → Result LogError (Option Moment)
  unfolding latest_inventory nodes_by_id find_node device_of parse_timestamp
  observed_at_for t d devices =
      if t.kind == "service"
      then latest_inventory t.id (nodes_by_id d.nodes []) devices d.placements none
      else if not (t.kind == "node")
      then ok none
      else ok (collection_time (device_of devices (find_node t.id d.nodes)))

  module _ (events_dir : Option (Option (List LogFile))) (d : DesiredSnapshot)
      (devices : Dict ActualDevice) where
    -- the last loop of _group_by_target
    unfoldable pub statuses : List Entry → Result LogError (List TargetStatus)
    unfolding sort observed_at_for derive_status
    statuses [] = ok []
    statuses (e ∷ es) =
        let diffs = sort code_le e.diffs in
        let rest = statuses es in
        observed_at_for e.target d devices >>= λ observed_at.
        derive_status fromisoformat diffs e.target.slug observed_at events_dir >>= λ status.
        rest >>= λ later. ok (record { target = e.target; status = status; diffs = diffs } ∷ later)

  -- `records` is what the comparators report
  unfoldable pub compute_drift :
      Option (Option (List LogFile))
      → DesiredSnapshot
      → List ActualDevice
      → List DiffRecord
      → Result LogError DriftResult
  unfolding statuses grouped devices_by_id summarize
  compute_drift events_dir d devices records =
      statuses events_dir d (devices_by_id devices []) (grouped records d) >>= λ targets.
      ok (record { summary = summarize targets; targets = targets })
