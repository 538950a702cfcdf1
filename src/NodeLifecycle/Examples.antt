-- ===== src/NodeLifecycle/Examples.antt =====
-- A server with two nodes.
use nctl.Prelude.{String, List, [], ◌∷◌, none, some, ◌≡◌, refl}
use nctl.Sources.{DesiredNode}
use nctl.NodeLifecycle.{Client, accepted, build_lifecycle, set_node_lifecycle}
use nctl.NodeLifecycle.Confirmed.{Vouches, set_node_lifecycle-Vouches}
use nctl.NodeLifecycle.Refines.{with_lifecycle, intended, set_node_lifecycle-Meets}

abbrev node : String → String → DesiredNode
node slug lifecycle = record {
  id = slug;
  slug = slug;
  name = slug;
  lifecycle = lifecycle;
  realized_device_id = none;
}

abbrev server : Client (List DesiredNode)
server = record {
  fetch_nodes = λ w. (some w, w);
  submit_lifecycle = λ slug state w. (accepted, with_lifecycle slug state w);
}

abbrev nodes : List DesiredNode
nodes = node "n1" "planned" ∷ node "n2" "active" ∷ []

set_node_lifecycle-Meets_example :
    ((set_node_lifecycle server "n1" "approved" nodes).0 ≡ (intended "n1" "approved" nodes).0)
    × ((set_node_lifecycle server "n1" "approved" nodes).1 ≡ (intended "n1" "approved" nodes).1)
set_node_lifecycle-Meets_example =
    set_node_lifecycle-Meets server (λ w. w) (λ w. refl)
      (λ slug state w. (with_lifecycle slug state w, refl, refl)) "n1" "approved" nodes

set_node_lifecycle-Vouches_example :
    Vouches server "n1" "approved" nodes (set_node_lifecycle server "n1" "approved" nodes)
set_node_lifecycle-Vouches_example = set_node_lifecycle-Vouches server "n1" "approved" nodes

-- the write, through the envelope
lifecycle-build_lifecycle :
    (build_lifecycle (λ token. server) (some "t") "n1" "approved" nodes).1
    ≡ node "n1" "approved" ∷ node "n2" "active" ∷ []
unfolding build_lifecycle
lifecycle-build_lifecycle = refl
