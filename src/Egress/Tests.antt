-- ===== src/Egress/Tests.antt =====
-- The egress graphs on small configurations, and the theorems at them.
use dynet.Base.{
  ◌≤◌, length, ℕ, ◌≡◌, ◌↔◌, refl, false, List, [], ◌∷◌, none, some, Any, drop, arith, map,
}
use dynet.Base.Order.{nat_ord, list_ord}
use dynet.Base.OrdMap.{OrdMap, get, insert, remove}
use dynet.Base.Outcome.{ok, err}
use dynet.Base.Text.{text}
use dynet.Routing.Types.{
  NodeId, SelectionDecision, SelectionTraceHop, direct_outlet, direct_audit_outlet, single_node,
  single_first_enabled, ipv4,
}
use dynet.Egress.{
  Protocols, EgressNodeConfig, direct, trojan, vmess, TrojanConfig, trojan_egress, direct_egress,
  GraphEgress, ReloadableEgress, graph_from, add_nodes, medium_from, install, uninstall, retain,
  graph_for,
}
use dynet.Egress.Generations.{Installs, created, installed, withdrawn, Installs-graph_for}
use dynet.Egress.Graph.{
  through, handle_tcp, handle_udp, final_egress_for_decision, tcp_dialer_for_head, egress_for_node,
}
use dynet.Egress.Graph.Carried.{Carried, AnyTwo, TakesUdp, handle_tcp_iff, handle_udp_iff}

abbrev protocols : Protocols
protocols = record {
  shadowsocks_refuses = λ c. none;
  vless_refuses = λ c. none;
  vmess_refuses = λ c. some (text "invalid uuid");
}

abbrev remote : TrojanConfig
remote = record {
  server = text "t";
  port = 443;
  password = text "p";
  sni = none;
  skip_cert_verify = false;
}

abbrev nodes : OrdMap NodeId EgressNodeConfig
nodes = (text "a", direct) ∷ (text "b", trojan remote) ∷ []

abbrev graph : GraphEgress
graph = (text "a", direct_egress) ∷ (text "b", trojan_egress remote) ∷ []

nodes_graph : graph_from protocols nodes ≡ ok graph
unfolding graph_from add_nodes medium_from insert
nodes_graph = refl

uuid_refused :
    graph_from protocols
      ((text "v", vmess (record { server = text "v"; port = 1; uuid = text "x" })) ∷ [])
    ≡ err (text "invalid uuid")
unfolding graph_from add_nodes medium_from insert
uuid_refused = refl

abbrev hop : NodeId → SelectionTraceHop
hop id = record {
  group_id = text "g";
  node_id = id;
  next = direct_audit_outlet;
  scheduler = single_first_enabled;
  candidate_count = 1;
}

abbrev decision : List SelectionTraceHop → SelectionDecision
decision trace = record {
  decision_id = 1;
  config_generation = 1;
  group_id = text "g";
  matched_rule_id = none;
  node_id = text "a";
  next = direct_audit_outlet;
  trace = trace;
  terminal = direct_outlet;
  reason = single_node;
  scheduler = single_first_enabled;
  candidate_count = 1;
  ip_family = ipv4;
  ipv6_policy_source = none;
}

abbrev chain : SelectionDecision
chain = decision (hop (text "a") ∷ hop (text "b") ∷ [])

chained : handle_tcp graph chain ≡ ok (through direct_egress (trojan_egress remote))
unfolding handle_tcp final_egress_for_decision tcp_dialer_for_head egress_for_node get
chained = refl

handle_tcp_iff_example :
    (handle_tcp graph chain ≡ ok (through direct_egress (trojan_egress remote))) ↔ (
      (◌≡◌ direct_outlet direct_outlet)
      × Carried graph AnyTwo chain.trace (through direct_egress (trojan_egress remote)))
handle_tcp_iff_example = handle_tcp_iff graph chain (through direct_egress (trojan_egress remote))

handle_udp_iff_example :
    (handle_udp graph chain ≡ ok (through direct_egress (trojan_egress remote))) ↔ (
      (◌≡◌ direct_outlet direct_outlet)
      × Carried graph TakesUdp chain.trace (through direct_egress (trojan_egress remote)))
handle_udp_iff_example = handle_udp_iff graph chain (through direct_egress (trojan_egress remote))

abbrev numbered : List ℕ → ReloadableEgress
numbered gs = map {B = ℕ × GraphEgress} (λ g. (g, [])) gs

nine :
    Installs protocols
      (numbered (1 ∷ 2 ∷ 3 ∷ 4 ∷ 5 ∷ 6 ∷ 7 ∷ 8 ∷ 9 ∷ []))
      1
      (numbered (2 ∷ 3 ∷ 4 ∷ 5 ∷ 6 ∷ 7 ∷ 8 ∷ 9 ∷ []))
unfolding graph_from add_nodes install retain insert remove
nine =
    installed 9 [] []
      (installed 8 [] []
        (installed 7 [] []
          (installed 6 [] []
            (installed 5 [] []
              (installed 4 [] []
                (installed 3 [] []
                  (installed 2 [] [] (created 1 [] [] refl) (ground arith) refl refl) (ground arith)
                  refl refl)
                (ground arith) refl refl)
              (ground arith) refl refl)
            (ground arith) refl refl)
          (ground arith) refl refl)
        (ground arith) refl refl)
      (ground arith) refl refl

-- The ninth is withdrawn, and the first is dropped for it all the same.
abbrev withdrawn_last : ReloadableEgress
withdrawn_last = uninstall (numbered (2 ∷ 3 ∷ 4 ∷ 5 ∷ 6 ∷ 7 ∷ 8 ∷ 9 ∷ [])) 9

Installs-graph_for_example :
    (withdrawn_last ≡ drop 1 (numbered (1 ∷ 2 ∷ 3 ∷ 4 ∷ 5 ∷ 6 ∷ 7 ∷ 8 ∷ [])))
    × (length withdrawn_last ≤ 8)
    × ((g : ℕ) (graph : GraphEgress)
        → Any (λ e. e ≡ (g, graph)) (drop 1 (numbered (1 ∷ 2 ∷ 3 ∷ 4 ∷ 5 ∷ 6 ∷ 7 ∷ 8 ∷ [])))
        → graph_for withdrawn_last g ≡ ok graph)
Installs-graph_for_example =
    Installs-graph_for {all = numbered (1 ∷ 2 ∷ 3 ∷ 4 ∷ 5 ∷ 6 ∷ 7 ∷ 8 ∷ [])}
      (withdrawn 9 [] nine (ground arith))
