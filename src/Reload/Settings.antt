-- ===== src/Reload/Settings.antt =====
-- crates/dynet-state/src/lib.rs and its children, crates/dynet-ingress/src/lib.rs and
-- crates/dynet-runtime/src/persistence.rs: the configuration of a process. Durations are in
-- milliseconds and a path is its text. A derived `PartialEq` decides equality, `Discrete`.
use dynet.Base.{ℕ, Bool, List, Option}
use native.Mathlib.Decide.{ℕ_discrete}
use dynet.Base.Net.{IpAddr, SocketAddr}
use dynet.Base.OrdMap.{OrdMap}
use dynet.Base.Text.{Text}
use dynet.Routing.Types.{NodeId}
use dynet.Runtime.{RuntimeSeed}
use dynet.Egress.{EgressNodeConfig}

pub record ControlConfig : Type 0 where
  pub bind : SocketAddr

pub record DnsRelayConfig : Type 0 where
  pub bind : SocketAddr
  pub max_sessions : ℕ

pub record TcpRelayConfig : Type 0 where
  pub bind : SocketAddr
  pub upstream : SocketAddr
  pub max_sessions : ℕ

pub record UdpRelayConfig : Type 0 where
  pub bind : SocketAddr
  pub upstream : SocketAddr
  pub idle_timeout : ℕ
  pub max_sessions : ℕ

pub record Socks5IngressConfig : Type 0 where
  pub bind : SocketAddr
  pub udp_advertise_ip : Option IpAddr
  pub idle_timeout : ℕ
  pub max_sessions : ℕ

pub record IngressConfig : Type 0 where
  pub dns : DnsRelayConfig
  pub tcp : TcpRelayConfig
  pub udp : UdpRelayConfig
  pub socks5 : Socks5IngressConfig

pub record TunCaptureConfig : Type 0 where
  pub enabled : Bool
  pub interface : Text
  pub tcp_idle_timeout : ℕ
  pub udp_idle_timeout : ℕ
  pub udp_response_timeout : ℕ

pub record RouterIngressConfig : Type 0 where
  pub interface : Option Text
  pub ipv4_sources : List Text
  pub ipv6_sources : List Text

pub record CaptureConfig : Type 0 where
  pub tun : TunCaptureConfig
  pub router_ingress : RouterIngressConfig

pub record Ipv6Config : Type 0 where
  pub enabled : Bool

pub record DnsMappingConfig : Type 0 where
  pub interface : Option Text
  pub source_port : ℕ

pub record PersistencePolicy : Type 0 where
  pub retention : ℕ
  pub max_bytes : ℕ

pub record ForwardingConfig : Type 0 where
  pub seed : RuntimeSeed
  pub execution_nodes : OrdMap NodeId EgressNodeConfig

pub data ServiceManager : Type 0 where
  auto systemd procd : ServiceManager

pub record ServiceConfig : Type 0 where
  pub manager : ServiceManager
  pub user : Text
  pub runtime_database : Text
  pub environment_file : Option Text

pub record Config : Type 0 where
  pub control : ControlConfig
  pub ingress : IngressConfig
  pub capture : CaptureConfig
  pub ipv6 : Ipv6Config
  pub dns_mapping : DnsMappingConfig
  pub persistence : PersistencePolicy
  pub forwarding : ForwardingConfig
  pub service : ServiceConfig

unfoldable pub addr_eq : Discrete SocketAddr
addr_eq = hlevel ℕ_discrete

unfoldable pub ip_eq : Discrete (Option IpAddr)
ip_eq = hlevel ℕ_discrete

unfoldable pub bool_eq : Discrete Bool
bool_eq = hlevel

unfoldable pub text_eq : Discrete Text
text_eq = hlevel ℕ_discrete

unfoldable pub router_eq : Discrete RouterIngressConfig
router_eq = hlevel ℕ_discrete

unfoldable pub mapping_eq : Discrete DnsMappingConfig
mapping_eq = hlevel ℕ_discrete

unfoldable pub policy_eq : Discrete PersistencePolicy
policy_eq = hlevel ℕ_discrete

unfoldable pub service_eq : Discrete ServiceConfig
service_eq = hlevel ℕ_discrete

unfoldable pub forwarding_eq : Discrete ForwardingConfig
forwarding_eq = hlevel ℕ_discrete
