-- ===== src/NodeLifecycle.antt =====
-- src/nctl_core/lifecycle.py: `nctl lifecycle NODE STATE`. A LifecycleError is its code; a client's answers
-- depend on the state of the world, which it passes on.
mod Confirmed
mod Refines
mod Examples
use nctl.Prelude.{
  String, Bool, true, false, List, [], ◌∷◌, Option, none, some, contains, ◌==◌, if◌then◌else◌,
}
use nctl.Prelude.Result.{Result, ok, err}
use nctl.Sources.{DesiredNode}

abbrev pub lifecycle_states : List String
lifecycle_states = "planned" ∷ "approved" ∷ "active" ∷ "deprecated" ∷ "retired" ∷ []

-- what set_node_lifecycle raises: a NautobotError of the client, or one of the LifecycleErrors
pub data Failure : Type 0 where
  nautobot_error : Failure
  invalid_lifecycle unknown_node lifecycle_update_rejected : Failure
  lifecycle_confirmation_mismatch : Failure

pub record LifecycleData : Type 0 where
  pub node_id : String
  pub node_slug : String
  pub previous_state : String
  pub requested_state : String
  pub current_state : String
  pub changed : Bool

pub record Envelope : Type 0 where
  pub payload : LifecycleData
  pub errors : List String

-- the client's two requests: the nodes of fetch_desired_snapshot, `none` for a NautobotError; and
-- submit_batch of one upsert of a node's lifecycle
pub data Answer : Type 0 where
  accepted rejected unreachable : Answer

pub record Client (W : Type 0) : Type 0 where
  pub fetch_nodes : W → Option (List DesiredNode) × W
  pub submit_lifecycle : String → String → W → Answer × W

-- the first node with the slug
unfoldable pub first_node : String → List DesiredNode → Option DesiredNode
first_node slug [] = none
first_node slug (n ∷ rest) =
    let later = first_node slug rest in if n.slug == slug then some n else later

abbrev pub found : Option DesiredNode → Result Failure DesiredNode
found none = err unknown_node
found (some n) = ok n

abbrev pub resolved : String → Option (List DesiredNode) → Result Failure DesiredNode
resolved slug none = err nautobot_error
resolved slug (some nodes) = found (first_node slug nodes)

abbrev pub unchanged : DesiredNode → String → LifecycleData
unchanged n requested = record {
  node_id = n.id;
  node_slug = n.slug;
  previous_state = n.lifecycle;
  requested_state = requested;
  current_state = n.lifecycle;
  changed = false;
}

abbrev pub rewritten : DesiredNode → String → String → LifecycleData
rewritten n requested current = record {
  node_id = n.id;
  node_slug = n.slug;
  previous_state = n.lifecycle;
  requested_state = requested;
  current_state = current;
  changed = true;
}

module _ {W : Type 0} (client : Client W) where
  unfoldable pub resolve_node : String → W → Result Failure DesiredNode × W
  unfolding first_node
  resolve_node slug w = let (nodes, after) = client.fetch_nodes w in (resolved slug nodes, after)

  abbrev pub compared :
      DesiredNode → String → Result Failure DesiredNode × W → Result Failure LifecycleData × W
  compared n requested (err e, w) = (err e, w)
  compared n requested (ok confirmed, w) =
      if confirmed.lifecycle == requested
      then (ok (rewritten n requested confirmed.lifecycle), w)
      else (err lifecycle_confirmation_mismatch, w)

  abbrev pub confirm : String → DesiredNode → String → Answer × W → Result Failure LifecycleData × W
  confirm slug n requested (rejected, w) = (err lifecycle_update_rejected, w)
  confirm slug n requested (unreachable, w) = (err nautobot_error, w)
  confirm slug n requested (accepted, w) = compared n requested (resolve_node slug w)

  abbrev pub write :
      String → String → Result Failure DesiredNode × W → Result Failure LifecycleData × W
  write slug requested (err e, w) = (err e, w)
  write slug requested (ok n, w) =
      if n.lifecycle == requested
      then (ok (unchanged n requested), w)
      else confirm slug n requested (client.submit_lifecycle n.slug requested w)

  unfoldable pub set_node_lifecycle : String → String → W → Result Failure LifecycleData × W
  unfolding resolve_node
  set_node_lifecycle slug requested w =
      if contains requested lifecycle_states
      then write slug requested (resolve_node slug w)
      else (err invalid_lifecycle, w)

abbrev code_of : Failure → String
code_of nautobot_error = "nautobot_connection_error"
code_of invalid_lifecycle = "invalid_lifecycle"
code_of unknown_node = "unknown_node"
code_of lifecycle_update_rejected = "lifecycle_update_rejected"
code_of lifecycle_confirmation_mismatch = "lifecycle_confirmation_mismatch"

abbrev empty_data : String → String → LifecycleData
empty_data slug requested = record {
  node_id = "";
  node_slug = slug;
  previous_state = "";
  requested_state = requested;
  current_state = "";
  changed = false;
}

abbrev pub envelope_of : String → String → Result Failure LifecycleData → Envelope
envelope_of slug requested (ok d) = record { payload = d; errors = [] }
envelope_of slug requested (err e) = record {
  payload = empty_data slug requested;
  errors = code_of e ∷ [];
}

-- `connect` makes a client of the token, which is `none` for a ConfigError
unfoldable pub build_lifecycle :
    {W : Type 0} → (String → Client W) → Option String → String → String → W → Envelope × W
unfolding set_node_lifecycle
build_lifecycle connect none slug requested w =
    (record { payload = empty_data slug requested; errors = "nautobot_token_error" ∷ [] }, w)
build_lifecycle connect (some token) slug requested w =
    let (outcome, after) = set_node_lifecycle (connect token) slug requested w in
    (envelope_of slug requested outcome, after)
