-- ===== src/Routing/Nodes.antt =====
-- `NodeStore` of crates/dynet-runtime/src/stores.rs.
use dynet.Base.{Bool, true, ◌&&◌, List, [], map, Option, none, some, find, if◌then◌else◌}
use dynet.Base.Order.{nat_ord, list_ord, eqb}
use dynet.Base.OrdMap.{OrdMap, get, insert, collect, values}
use dynet.Base.Text.{Text}
use dynet.Routing.Types.{NodeId, ForwardNode, IpFamily, ipv4, ipv6, default_node_id}
use dynet.Base.Opt.{is_some_and, or_else, map_option}

pub record NodeStore : Type 0 where
  pub default_node : Option NodeId
  pub nodes : OrdMap NodeId ForwardNode

pub single_node : ForwardNode → NodeStore
single_node node = record { default_node = some node.id; nodes = insert node.id node [] }

unfoldable pub from_nodes : List ForwardNode → NodeStore
from_nodes nodes = record {
  default_node =
      map_option (λ node. node.id)
        (or_else (find (λ node. eqb node.id default_node_id && node.enabled) nodes)
          (find (λ node. node.enabled) nodes));
  nodes = collect (map (λ node. (node.id, node)) nodes);
}

pub default_node_of : NodeStore → Option NodeId
default_node_of store = elim store.default_node [
  | none ↦ none
  | some id ↦ elim (get id store.nodes) [
    | none ↦ none
    | some node ↦ if node.enabled then some id else none
  ]
]

pub is_enabled : NodeStore → NodeId → Bool
is_enabled store id = is_some_and (λ node. node.enabled) (get id store.nodes)

abbrev pub carries : IpFamily → ForwardNode → Bool
carries ipv4 node = true
carries ipv6 node = node.supports_ipv6

-- The node is known, enabled and carries the address family.
unfoldable pub is_eligible : NodeStore → NodeId → IpFamily → Bool
is_eligible store id family =
    is_some_and (λ node. node.enabled && carries family node) (get id store.nodes)

unfoldable pub enabled_node_id : NodeStore → Text → Option NodeId
enabled_node_id store id = elim (get id store.nodes) [
  | none ↦ none
  | some node ↦ if node.enabled then some node.id else none
]

pub node_snapshot : NodeStore → List ForwardNode
node_snapshot store = values store.nodes

unfoldable pub fingerprints_by_id : NodeStore → OrdMap Text Text
fingerprints_by_id store = collect (map (λ node. (node.id, node.fingerprint)) (values store.nodes))
