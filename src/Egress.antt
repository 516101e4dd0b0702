-- ===== src/Egress.antt =====
-- crates/dynet-ingress/src/lib.rs, egress.rs, egress/graph.rs and egress/reloadable.rs: the nodes that
-- carry a flow out, the graph of one generation, and the generations that are retained. What the
-- protocols of shadowsocks, vless and vmess make of their keys is a parameter.
pub mod Generations
pub mod Graph
pub mod Newest
pub mod Tests
use dynet.Base.{
  ℕ, zero, suc, ◌+◌, Bool, true, false, List, [], ◌∷◌, Option, none, some, length, ltb,
  if◌then◌else◌,
}
use dynet.Base.Order.{nat_ord, list_ord}
use dynet.Base.OrdMap.{OrdMap, get, insert, remove}
use dynet.Base.Outcome.{Outcome, ok, err, ok_or, ◌>>=◌}
use dynet.Base.Text.{Text, text}
use dynet.Routing.Types.{NodeId}

pub data ShadowsocksMethod : Type 0 where
  aes_256_gcm blake3_aes_128_gcm_2022 : ShadowsocksMethod

pub record ShadowsocksConfig : Type 0 where
  pub server : Text
  pub port : ℕ
  pub method : ShadowsocksMethod
  pub password : Text

pub record TrojanConfig : Type 0 where
  pub server : Text
  pub port : ℕ
  pub password : Text
  pub sni : Option Text
  pub skip_cert_verify : Bool

pub record VmessConfig : Type 0 where
  pub server : Text
  pub port : ℕ
  pub uuid : Text

pub record VlessConfig : Type 0 where
  pub server : Text
  pub port : ℕ
  pub uuid : Text
  pub server_name : Text
  pub public_key : Text
  pub short_id : Text

pub data EgressNodeConfig : Type 0 where
  direct : EgressNodeConfig
  shadowsocks : ShadowsocksConfig → EgressNodeConfig
  trojan : TrojanConfig → EgressNodeConfig
  vless : VlessConfig → EgressNodeConfig
  vmess : VmessConfig → EgressNodeConfig

-- A medium is its protocol with the settings it was made from and what the protocol made of them.
pub data EgressMedium : Type 0 where
  direct_egress : EgressMedium
  shadowsocks_egress : ShadowsocksConfig → EgressMedium
  trojan_egress : TrojanConfig → EgressMedium
  vless_egress : VlessConfig → EgressMedium
  vmess_egress : VmessConfig → EgressMedium

-- Whether a protocol refuses the settings of a node, and the error then.
pub record Protocols : Type 0 where
  pub shadowsocks_refuses : ShadowsocksConfig → Option Text
  pub vless_refuses : VlessConfig → Option Text
  pub vmess_refuses : VmessConfig → Option Text

abbrev unless : Option Text → EgressMedium → Outcome Text EgressMedium
unless none medium = ok medium
unless (some e) medium = err e

-- `EgressMedium::try_from`
unfoldable pub medium_from : Protocols → EgressNodeConfig → Outcome Text EgressMedium
medium_from p direct = ok direct_egress
medium_from p (shadowsocks c) = unless (p.shadowsocks_refuses c) (shadowsocks_egress c)
medium_from p (trojan c) = ok (trojan_egress c)
medium_from p (vless c) = unless (p.vless_refuses c) (vless_egress c)
medium_from p (vmess c) = unless (p.vmess_refuses c) (vmess_egress c)

abbrev pub GraphEgress : Type 0
GraphEgress = OrdMap NodeId EgressMedium

-- The loop of `GraphEgress::try_from` over the configurations that are left.
unfoldable pub add_nodes :
    Protocols → OrdMap NodeId EgressNodeConfig → GraphEgress → Outcome Text GraphEgress
add_nodes p [] nodes = ok nodes
add_nodes p ((id, config) ∷ configs) nodes =
    medium_from p config >>= λ medium. add_nodes p configs (insert id medium nodes)

unfoldable pub graph_from : Protocols → OrdMap NodeId EgressNodeConfig → Outcome Text GraphEgress
graph_from p configs = add_nodes p configs []

abbrev pub retained_generations : ℕ
retained_generations = 8

abbrev pub ReloadableEgress : Type 0
ReloadableEgress = OrdMap ℕ GraphEgress

-- The loop that drops the oldest generation while there are too many: one of them each time round.
unfoldable pub retain : ℕ → ReloadableEgress → ReloadableEgress
retain zero generations = generations
retain (suc fuel) [] = []
retain (suc fuel) ((oldest, graph) ∷ later) = elim (ltb retained_generations (length later + 1)) [
  | true ↦ retain fuel (remove oldest ((oldest, graph) ∷ later))
  | false ↦ (oldest, graph) ∷ later
]

unfoldable pub install :
    Protocols
    → ReloadableEgress
    → ℕ
    → OrdMap NodeId EgressNodeConfig
    → Outcome Text ReloadableEgress
install p egress generation configs = graph_from p configs >>= λ graph.
    ok (retain (length egress + 1) (insert generation graph egress))

-- `ReloadableEgress::remove`
unfoldable pub uninstall : ReloadableEgress → ℕ → ReloadableEgress
uninstall egress generation = remove generation egress

pub data EgressError : Type 0 where
  generation_dropped : ℕ → EgressError
  chained_tcp chained_udp : EgressError
  no_execution_egress : NodeId → EgressError
  one_dialer_hop : ℕ → EgressError
  no_tcp_dialer : NodeId → EgressError
  no_dialer_underlay : EgressMedium → EgressError

unfoldable pub graph_for : ReloadableEgress → ℕ → Outcome EgressError GraphEgress
graph_for egress generation = ok_or (generation_dropped generation) (get generation egress)
