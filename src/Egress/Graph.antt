-- ===== src/Egress/Graph.antt =====
-- egress/graph.rs and egress.rs: which medium carries a decision out, and over which. The sockets
-- behind a medium are not modelled: a route is what the handlers hand the flow to.
pub mod Carried
use dynet.Base.{
  ◌≡◌, ◌↔◌, refl, inl, inr, Bool, true, false, List, [], ◌∷◌, Option, none, some, length, ◌==◌,
  ◌!=◌, ◌&&◌, Option-cases, subst, sym, if◌then◌else◌, arith,
}
use dynet.Base.Order.{nat_ord, list_ord}
use dynet.Base.OrdMap.{get}
use dynet.Base.Outcome.{Outcome, ok, err, ok_or, ◌>>=◌}
use dynet.Routing.Types.{
  NodeId, SelectionDecision, SelectionTraceHop, SelectionTerminal, direct_outlet, node,
}
use dynet.Egress.{
  EgressMedium, direct_egress, shadowsocks_egress, trojan_egress, vless_egress, vmess_egress,
  GraphEgress, EgressError, chained_tcp, chained_udp, no_execution_egress, one_dialer_hop,
  no_tcp_dialer, no_dialer_underlay, ShadowsocksConfig, TrojanConfig, VlessConfig, VmessConfig,
}

abbrev pub first : {A : Type 0} → List A → Option A
first [] = none
first (x ∷ xs) = some x

abbrev pub last : {A : Type 0} → List A → Option A
last [] = none
last (x ∷ []) = some x
last (x ∷ y ∷ xs) = last (y ∷ xs)

unfoldable pub egress_for_node : GraphEgress → NodeId → Outcome EgressError EgressMedium
egress_for_node graph id = ok_or (no_execution_egress id) (get id graph)

unfoldable pub final_egress_for_decision :
    GraphEgress → SelectionDecision → Outcome EgressError EgressMedium
final_egress_for_decision graph decision = ok_or chained_tcp (last decision.trace) >>= λ hop.
    ok_or (no_execution_egress hop.node_id) (get hop.node_id graph)

-- Every medium dials.
abbrev pub tcp_dialer : EgressMedium → Option EgressMedium
tcp_dialer medium = some medium

unfoldable pub tcp_dialer_for_head :
    GraphEgress → SelectionDecision → Outcome EgressError EgressMedium
unfolding egress_for_node
tcp_dialer_for_head graph decision =
    if length decision.trace != 2
    then err (one_dialer_hop (length decision.trace))
    else ok_or chained_tcp (first decision.trace) >>= λ head.
        egress_for_node graph head.node_id >>= λ medium.
        ok_or (no_tcp_dialer head.node_id) (tcp_dialer medium)

-- `terminal.kind() == "direct"`
abbrev pub is_direct : SelectionTerminal → Bool
is_direct direct_outlet = true
is_direct (node id) = false

-- A medium by itself, or one that is reached through another.
pub data EgressRoute : Type 0 where
  alone : EgressMedium → EgressRoute
  through : EgressMedium → EgressMedium → EgressRoute

unfoldable pub handle_tcp : GraphEgress → SelectionDecision → Outcome EgressError EgressRoute
handle_tcp graph decision = final_egress_for_decision graph decision >>= λ egress.
    if length decision.trace == 1 && is_direct decision.terminal
    then ok (alone egress)
    else if is_direct decision.terminal
    then (tcp_dialer_for_head graph decision >>= λ dialer. ok (through dialer egress))
    else err chained_tcp

-- `EgressMedium::handle_udp_with_dialer`
unfoldable pub handle_udp_with_dialer :
    EgressMedium → EgressMedium → Outcome EgressError EgressRoute
handle_udp_with_dialer direct_egress dialer = err (no_dialer_underlay direct_egress)
handle_udp_with_dialer (shadowsocks_egress c) dialer =
    err (no_dialer_underlay (shadowsocks_egress c))
handle_udp_with_dialer medium dialer = ok (through dialer medium)

-- What two media make of a UDP association.
unfoldable pub chain_udp : EgressMedium → EgressMedium → Outcome EgressError EgressRoute
unfolding handle_udp_with_dialer
chain_udp (shadowsocks_egress c) (shadowsocks_egress d) =
    ok (through (shadowsocks_egress c) (shadowsocks_egress d))
chain_udp head tail = elim (tcp_dialer head) [
  | some dialer ↦ handle_udp_with_dialer tail dialer
  | none ↦ err chained_udp
]

unfoldable pub handle_udp : GraphEgress → SelectionDecision → Outcome EgressError EgressRoute
handle_udp graph decision =
    if length decision.trace == 1 && is_direct decision.terminal
    then (final_egress_for_decision graph decision >>= λ egress. ok (alone egress))
    else if length decision.trace == 2 && is_direct decision.terminal
    then (ok_or chained_udp (first decision.trace) >>= λ head.
        ok_or chained_udp (last decision.trace) >>= λ tail.
        egress_for_node graph head.node_id >>= λ underlay.
        egress_for_node graph tail.node_id >>= λ final. chain_udp underlay final)
    else err chained_udp
