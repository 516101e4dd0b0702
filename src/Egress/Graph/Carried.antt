-- ===== src/Egress/Graph/Carried.antt =====
-- egress/graph.rs: the decisions that are carried out.
use dynet.Base.{◌≡◌, ◌↔◌, refl, inl, inr, List, [], ◌∷◌, some, Option-cases, subst, sym, arith}
use dynet.Base.Order.{nat_ord, list_ord}
use dynet.Base.OrdMap.{get}
use dynet.Base.Outcome.{ok}
use dynet.Routing.Types.{
  SelectionDecision, SelectionTraceHop, SelectionTerminal, direct_outlet, node,
}
use dynet.Egress.{
  EgressMedium, shadowsocks_egress, trojan_egress, vless_egress, vmess_egress, GraphEgress,
  ShadowsocksConfig, TrojanConfig, VlessConfig, VmessConfig,
}
use dynet.Egress.Graph.{
  egress_for_node, final_egress_for_decision, tcp_dialer_for_head, EgressRoute, alone, through,
  handle_tcp, handle_udp_with_dialer, chain_udp, handle_udp,
}

-- Whether a medium takes UDP through another one: shadowsocks through itself only.
pub data TakesUdp : EgressMedium → EgressMedium → Type 0 where
  shadowsocks_in_shadowsocks :
      (c d : ShadowsocksConfig) → TakesUdp (shadowsocks_egress c) (shadowsocks_egress d)
  trojan_in : (m : EgressMedium) {c : TrojanConfig} → TakesUdp m (trojan_egress c)
  vless_in : (m : EgressMedium) {c : VlessConfig} → TakesUdp m (vless_egress c)
  vmess_in : (m : EgressMedium) {c : VmessConfig} → TakesUdp m (vmess_egress c)

-- How the nodes of a trace carry a flow, with a condition on two of them.
pub data Carried (graph : GraphEgress) (Fits : EgressMedium → EgressMedium → Type 0)
    : List SelectionTraceHop → EgressRoute → Type 0 where
  by_one :
      {hop : SelectionTraceHop} {m : EgressMedium}
      → get hop.node_id graph ≡ some m
      → Carried graph Fits (hop ∷ []) (alone m)
  by_two :
      {head final : SelectionTraceHop} {d m : EgressMedium}
      → get head.node_id graph ≡ some d
      → get final.node_id graph ≡ some m
      → Fits d m
      → Carried graph Fits (head ∷ final ∷ []) (through d m)

abbrev pub AnyTwo : EgressMedium → EgressMedium → Type 0
AnyTwo d m = Unit {0}

chain_udp-ok :
    (d m : EgressMedium) (route : EgressRoute)
    → chain_udp d m ≡ ok route
    → TakesUdp d m × (through d m ≡ route)
unfolding chain_udp handle_udp_with_dialer
chain_udp-ok (shadowsocks_egress c) (shadowsocks_egress e) route h =
    (shadowsocks_in_shadowsocks c e, ground arith)
chain_udp-ok d (trojan_egress c) route h = (trojan_in d, ground arith)
chain_udp-ok d (vless_egress c) route h = (vless_in d, ground arith)
chain_udp-ok d (vmess_egress c) route h = (vmess_in d, ground arith)
chain_udp-ok d m route h = ground arith

TakesUdp-chain_udp : {d m : EgressMedium} → TakesUdp d m → chain_udp d m ≡ ok (through d m)
unfolding chain_udp handle_udp_with_dialer
TakesUdp-chain_udp (shadowsocks_in_shadowsocks c e) = refl
TakesUdp-chain_udp {d} (trojan_in m) = ground arith
TakesUdp-chain_udp {d} (vless_in m) = ground arith
TakesUdp-chain_udp {d} (vmess_in m) = ground arith

module _ (graph : GraphEgress) (d : SelectionDecision) where
  abbrev with_trace : List SelectionTraceHop → SelectionTerminal → SelectionDecision
  with_trace trace end = record d { trace = trace; terminal = end }

  tcp-Carried :
      (trace : List SelectionTraceHop) (end : SelectionTerminal) (route : EgressRoute)
      → handle_tcp graph (with_trace trace end) ≡ ok route
      → (end ≡ direct_outlet) × Carried graph AnyTwo trace route
  unfolding handle_tcp final_egress_for_decision tcp_dialer_for_head egress_for_node
  tcp-Carried [] end route h = ground arith
  tcp-Carried (a ∷ []) direct_outlet route h = elim (Option-cases (get a.node_id graph)) [
    | inl e ↦ ground (arith, e)
    | inr (m, e) ↦
        let same : alone m ≡ route = ground (arith, e) in
        (refl, subst (Carried graph AnyTwo (a ∷ [])) same (by_one e))
  ]
  tcp-Carried (a ∷ []) (node id) route h = elim (Option-cases (get a.node_id graph)) [
    | inl e ↦ ground (arith, e)
    | inr (m, e) ↦ ground (arith, e)
  ]
  tcp-Carried (a ∷ b ∷ []) direct_outlet route h = elim (Option-cases (get a.node_id graph)) [
    | inl e ↦ ground (arith, e)
    | inr (m, e) ↦ elim (Option-cases (get b.node_id graph)) [
      | inl f ↦ ground (arith, f)
      | inr (n, f) ↦
          let same : through m n ≡ route = ground (arith, e, f) in
          (refl, subst (Carried graph AnyTwo (a ∷ b ∷ [])) same (by_two e f tt))
    ]
  ]
  tcp-Carried (a ∷ b ∷ []) (node id) route h = ground arith
  tcp-Carried (a ∷ b ∷ c ∷ r) direct_outlet route h = ground arith
  tcp-Carried (a ∷ b ∷ c ∷ r) (node id) route h = ground arith

  Carried-tcp :
      {trace : List SelectionTraceHop} {route : EgressRoute}
      → Carried graph AnyTwo trace route
      → handle_tcp graph (with_trace trace direct_outlet) ≡ ok route
  unfolding handle_tcp final_egress_for_decision tcp_dialer_for_head egress_for_node
  Carried-tcp (by_one e) = ground (arith, e)
  Carried-tcp (by_two e f u) = ground (arith, e, f)

  udp-Carried :
      (trace : List SelectionTraceHop) (end : SelectionTerminal) (route : EgressRoute)
      → handle_udp graph (with_trace trace end) ≡ ok route
      → (end ≡ direct_outlet) × Carried graph TakesUdp trace route
  unfolding handle_udp final_egress_for_decision egress_for_node
  udp-Carried [] end route h = ground arith
  udp-Carried (a ∷ []) direct_outlet route h = elim (Option-cases (get a.node_id graph)) [
    | inl e ↦ ground (arith, e)
    | inr (m, e) ↦
        let same : alone m ≡ route = ground (arith, e) in
        (refl, subst (Carried graph TakesUdp (a ∷ [])) same (by_one e))
  ]
  udp-Carried (a ∷ []) (node id) route h = ground arith
  udp-Carried (a ∷ b ∷ []) direct_outlet route h = elim (Option-cases (get a.node_id graph)) [
    | inl e ↦ ground (arith, e)
    | inr (m, e) ↦ elim (Option-cases (get b.node_id graph)) [
      | inl f ↦ ground (arith, e, f)
      | inr (n, f) ↦
          let (fits, same) = chain_udp-ok m n route (ground (arith, e, f)) in
          (refl, subst (Carried graph TakesUdp (a ∷ b ∷ [])) same (by_two e f fits))
    ]
  ]
  udp-Carried (a ∷ b ∷ []) (node id) route h = ground arith
  udp-Carried (a ∷ b ∷ c ∷ r) direct_outlet route h = ground arith
  udp-Carried (a ∷ b ∷ c ∷ r) (node id) route h = ground arith

  Carried-udp :
      {trace : List SelectionTraceHop} {route : EgressRoute}
      → Carried graph TakesUdp trace route
      → handle_udp graph (with_trace trace direct_outlet) ≡ ok route
  unfolding handle_udp final_egress_for_decision egress_for_node
  Carried-udp (by_one e) = ground (arith, e)
  Carried-udp (by_two e f u) = ground (arith, e, f, TakesUdp-chain_udp u)

  -- A TCP flow is carried out along a route exactly if the decision ends at the direct outlet and its
  -- trace has one node of the graph, which carries the flow alone, or two, of which the first carries
  -- the second. A longer trace is refused.
  pub handle_tcp_iff :
      (route : EgressRoute)
      → (handle_tcp graph d ≡ ok route)
        ↔ ((d.terminal ≡ direct_outlet) × Carried graph AnyTwo d.trace route)
  handle_tcp_iff route = (
    tcp-Carried d.trace d.terminal route,
    λ (e, c).
        subst (λ end. handle_tcp graph (with_trace d.trace end) ≡ ok route) (sym e) (Carried-tcp c),
  )

  -- A UDP association is carried out along a route exactly if the decision ends at the direct outlet
  -- and its trace has one node of the graph, or two of which the second takes UDP through the first:
  -- shadowsocks through shadowsocks only, trojan, vless and vmess through any.
  pub handle_udp_iff :
      (route : EgressRoute)
      → (handle_udp graph d ≡ ok route)
        ↔ ((d.terminal ≡ direct_outlet) × Carried graph TakesUdp d.trace route)
  handle_udp_iff route = (
    udp-Carried d.trace d.terminal route,
    λ (e, c).
        subst (λ end. handle_udp graph (with_trace d.trace end) ≡ ok route) (sym e) (Carried-udp c),
  )
