-- ===== src/Packet.antt =====
-- crates/dynet-capture/src/packet.rs and flow.rs: IP packets parsed into captured flows. Indexing
-- and slicing keep their bounds checks, so a panic of the parser would be a value here.
pub mod Bounds
pub mod Encode
pub mod Tests
use dynet.Base.{
  ℕ, ◌+◌, ◌*◌, ◌/◌, ◌%◌, ◌||◌, ◌!=◌, List, [], ◌∷◌, length, get_elem?, Option, none, some, ltb,
  ◌==◌, if◌then◌else◌,
}
use dynet.Base.Outcome.{Outcome, ok, err, panic, ok_or, index, slice, ◌>>=◌}
use dynet.Base.Net.{Bytes, IpAddr, v4, v6, SocketAddr, be16}

pub data CapturedTransport : Type 0 where
  dns_udp dns_tcp tcp udp : CapturedTransport

pub data TargetCaptureSource : Type 0 where
  packet_destination observed_dns : TargetCaptureSource

pub record CapturedTarget : Type 0 where
  pub address : SocketAddr
  pub domain : Option Bytes
  pub source : TargetCaptureSource

pub record CapturedFlow : Type 0 where
  pub flow_id : ℕ
  pub peer : Option IpAddr
  pub target : CapturedTarget
  pub transport : CapturedTransport

pub record PacketFlow : Type 0 where
  pub source : SocketAddr
  pub destination : SocketAddr
  pub transport : CapturedTransport

pub data PacketParseError : Type 0 where
  too_short : PacketParseError
  unsupported_version : ℕ → PacketParseError
  invalid_header_length : PacketParseError
  truncated_packet : PacketParseError
  unsupported_protocol : ℕ → PacketParseError
  missing_transport_header : PacketParseError

abbrev pub ipv4_min_header_len : ℕ
ipv4_min_header_len = 20

abbrev pub ipv6_header_len : ℕ
ipv6_header_len = 40

abbrev pub tcp_protocol : ℕ
tcp_protocol = 6

abbrev pub udp_protocol : ℕ
udp_protocol = 17

abbrev pub dns_port : ℕ
dns_port = 53

abbrev pub Parsed : Type 0 → Type 0
Parsed A = Outcome PacketParseError A

pub packet_destination_target : SocketAddr → CapturedTarget
packet_destination_target address = record {
  address = address;
  domain = none;
  source = packet_destination;
}

pub observed_dns_target : SocketAddr → Bytes → CapturedTarget
observed_dns_target address domain = record {
  address = address;
  domain = some domain;
  source = observed_dns;
}

pub into_captured_flow : PacketFlow → ℕ → CapturedFlow
into_captured_flow flow flow_id = record {
  flow_id = flow_id;
  peer = some flow.source.ip;
  target = packet_destination_target flow.destination;
  transport = flow.transport;
}

pub classify_tcp : ℕ → ℕ → CapturedTransport
classify_tcp source_port destination_port =
    if source_port == dns_port || destination_port == dns_port then dns_tcp else tcp

pub classify_udp : ℕ → ℕ → CapturedTransport
classify_udp source_port destination_port =
    if source_port == dns_port || destination_port == dns_port then dns_udp else udp

pub parse_ports : Bytes → Parsed (ℕ × ℕ)
parse_ports packet = if ltb (length packet) 4 then err missing_transport_header else do
  a ← index packet 0
  b ← index packet 1
  c ← index packet 2
  d ← index packet 3
  ok (be16 a b, be16 c d)

-- The match on the protocol that both versions end in.
pub parse_transport : ℕ → IpAddr → IpAddr → Bytes → Parsed PacketFlow
parse_transport protocol source destination transport =
    if protocol == tcp_protocol
    then (do
      ports ← parse_ports transport
      ok (record {
        source = record { ip = source; port = ports.0 };
        destination = record { ip = destination; port = ports.1 };
        transport = classify_tcp ports.0 ports.1;
      }))
    else if protocol == udp_protocol
    then (do
      ports ← parse_ports transport
      ok (record {
        source = record { ip = source; port = ports.0 };
        destination = record { ip = destination; port = ports.1 };
        transport = classify_udp ports.0 ports.1;
      }))
    else err (unsupported_protocol protocol)

pub parse_ipv4_packet : Bytes → Parsed PacketFlow
parse_ipv4_packet packet = if ltb (length packet) ipv4_min_header_len then err too_short else do
  first ← index packet 0
  let version = first / 16
  if version != 4 then err (unsupported_version version) else do
    let ihl = first % 16 * 4
    if ltb ihl ipv4_min_header_len
        then err invalid_header_length
        else if ltb (length packet) ihl
        then err truncated_packet
        else do
          high ← index packet 2
          low ← index packet 3
          let total_len = be16 high low
          if ltb total_len ihl || ltb (length packet) total_len then err truncated_packet else do
            protocol ← index packet 9
            s0 ← index packet 12
            s1 ← index packet 13
            s2 ← index packet 14
            s3 ← index packet 15
            d0 ← index packet 16
            d1 ← index packet 17
            d2 ← index packet 18
            d3 ← index packet 19
            transport ← slice packet ihl total_len
            parse_transport protocol (v4 (s0 ∷ s1 ∷ s2 ∷ s3 ∷ [])) (v4 (d0 ∷ d1 ∷ d2 ∷ d3 ∷ []))
                transport

pub parse_ipv6_packet : Bytes → Parsed PacketFlow
parse_ipv6_packet packet = if ltb (length packet) ipv6_header_len then err too_short else do
  first ← index packet 0
  let version = first / 16
  if version != 6 then err (unsupported_version version) else do
    high ← index packet 4
    low ← index packet 5
    let payload_len = be16 high low
    let total_len = ipv6_header_len + payload_len
    if ltb (length packet) total_len then err truncated_packet else do
      protocol ← index packet 6
      source ← slice packet 8 24
      destination ← slice packet 24 40
      transport ← slice packet ipv6_header_len total_len
      parse_transport protocol (v6 source) (v6 destination) transport

pub parse_ip_packet : Bytes → Parsed PacketFlow
parse_ip_packet packet = do
  first ← ok_or too_short (get_elem? packet 0)
  let version = first / 16
  if version == 4
      then parse_ipv4_packet packet
      else if version == 6
      then parse_ipv6_packet packet
      else err (unsupported_version version)
