-- ===== src/Packet/Encode.antt =====
-- The wire formats that packet.rs reads, written out from the layout of the headers (RFC 791 and
-- RFC 8200), and what the parser makes of them.
use dynet.Base.{
  ℕ, ◌+◌, ◌*◌, ◌/◌, ◌%◌, ◌<◌, ◌≡◌, ◌≢◌, ◌⊎◌, refl, [], ◌∷◌, ◌++◌, length, arith, length-append, ◌∙◌,
}
use mathlib.Core.List.{append_assoc}
use dynet.Base.Outcome.{ok, index, slice, slice-append}
use dynet.Base.Net.{Bytes, IpAddr, v4, v6, be16, be16_bytes}
use dynet.Packet.{
  CapturedTransport, dns_udp, dns_tcp, tcp, udp, PacketFlow, PacketParseError, parse_ports,
  parse_transport, parse_ipv4_packet, parse_ipv6_packet, parse_ip_packet, classify_tcp,
  classify_udp,
}

-- A transport header begins with the two ports.
abbrev pub segment : ℕ → ℕ → Bytes → Bytes
segment source destination rest = be16_bytes source ++ (be16_bytes destination ++ rest)

-- What a transport protocol number and the two ports say of a flow: port 53 on either side is DNS.
pub data Carries (protocol source destination : ℕ) : CapturedTransport → Type 0 where
  tcp_dns :
      protocol ≡ 6
      → (source ≡ 53) ⊎ (destination ≡ 53)
      → Carries protocol source destination dns_tcp
  tcp_other :
      protocol ≡ 6 → source ≢ 53 → destination ≢ 53 → Carries protocol source destination tcp
  udp_dns :
      protocol ≡ 17
      → (source ≡ 53) ⊎ (destination ≡ 53)
      → Carries protocol source destination dns_udp
  udp_other :
      protocol ≡ 17 → source ≢ 53 → destination ≢ 53 → Carries protocol source destination udp

parse_ports-segment :
    (source destination : ℕ) (rest : Bytes)
    → source < 65536
    → destination < 65536
    → parse_ports (segment source destination rest) ≡ ok (source, destination)
unfolding parse_ports index
parse_ports-segment source destination rest h k = ground arith

abbrev pub flow : IpAddr → IpAddr → ℕ → ℕ → CapturedTransport → PacketFlow
flow s d source destination t = record {
  source = record { ip = s; port = source };
  destination = record { ip = d; port = destination };
  transport = t;
}

parse_transport-segment :
    {protocol source destination : ℕ} (s d : IpAddr) (rest : Bytes) {t : CapturedTransport}
    → Carries protocol source destination t
    → source < 65536
    → destination < 65536
    → parse_transport protocol s d (segment source destination rest)
      ≡ ok (flow s d source destination t)
unfolding parse_transport classify_tcp classify_udp
parse_transport-segment {source} {destination} s d rest (tcp_dns p e) h k =
    ground (arith, parse_ports-segment source destination rest h k)
parse_transport-segment {source} {destination} s d rest (tcp_other p a b) h k =
    ground (arith, parse_ports-segment source destination rest h k)
parse_transport-segment {source} {destination} s d rest (udp_dns p e) h k =
    ground (arith, parse_ports-segment source destination rest h k)
parse_transport-segment {source} {destination} s d rest (udp_other p a b) h k =
    ground (arith, parse_ports-segment source destination rest h k)

pub record Ipv4Fields : Type 0 where
  pub tos : ℕ
  pub id_high : ℕ
  pub id_low : ℕ
  pub flags : ℕ
  pub fragment : ℕ
  pub ttl : ℕ
  pub sum_high : ℕ
  pub sum_low : ℕ

-- A header with `words` words of options, a payload and what the link layer has padded it with.
abbrev pub ipv4_fixed : Ipv4Fields → ℕ → ℕ → ℕ → ℕ → ℕ → ℕ → ℕ → ℕ → ℕ → ℕ → ℕ → Bytes
ipv4_fixed f words protocol total s0 s1 s2 s3 d0 d1 d2 d3 =
    (0x45 + words)
    ∷ f.tos
    ∷ total / 256 % 256
    ∷ total % 256
    ∷ f.id_high
    ∷ f.id_low
    ∷ f.flags
    ∷ f.fragment
    ∷ f.ttl
    ∷ protocol
    ∷ f.sum_high
    ∷ f.sum_low
    ∷ s0
    ∷ s1
    ∷ s2
    ∷ s3
    ∷ d0
    ∷ d1
    ∷ d2
    ∷ d3
    ∷ []

module _ (f : Ipv4Fields) (words protocol : ℕ) (s0 s1 s2 s3 d0 d1 d2 d3 : ℕ)
    (options payload padding : Bytes) where
  abbrev pub ipv4_total : ℕ
  ipv4_total = 20 + length options + length payload

  pub ipv4_packet : Bytes
  ipv4_packet =
      ipv4_fixed f words protocol ipv4_total s0 s1 s2 s3 d0 d1 d2 d3
      ++ options
      ++ (payload ++ padding)

  ipv4-slice :
      words < 11
      → length options ≡ 4 * words
      → ipv4_total < 65536
      → slice {E = PacketParseError} ipv4_packet
          ((0x45 + words) % 16 * 4)
          (be16 (ipv4_total / 256 % 256) (ipv4_total % 256))
        ≡ ok payload
  unfolding ipv4_packet
  ipv4-slice w o t =
      slice-append (ipv4_fixed f words protocol ipv4_total s0 s1 s2 s3 d0 d1 d2 d3 ++ options)
        payload padding _ _ (omega arith) (omega arith)

  ipv4-length : length ipv4_packet ≡ ipv4_total + length padding
  unfolding ipv4_packet
  ipv4-length =
      omega (arith, length-append options (payload ++ padding), length-append payload padding)

  parse_ipv4_packet-ipv4_packet :
      words < 11
      → length options ≡ 4 * words
      → ipv4_total < 65536
      → parse_ip_packet ipv4_packet
        ≡ parse_transport protocol
            (v4 (s0 ∷ s1 ∷ s2 ∷ s3 ∷ []))
            (v4 (d0 ∷ d1 ∷ d2 ∷ d3 ∷ []))
            payload
  unfolding parse_ip_packet parse_ipv4_packet ipv4_packet index
  parse_ipv4_packet-ipv4_packet w o t = ground (arith, ipv4-slice w o t, ipv4-length)

-- An IPv4 packet laid out as RFC 791 says, with up to ten words of options, is parsed to its
-- addresses, its two ports and the transport that the protocol number and the ports stand for;
-- bytes behind the total length are ignored.
pub parse-ipv4_packet :
    (f : Ipv4Fields) (words : ℕ) {protocol source destination : ℕ} {t : CapturedTransport}
    (s0 s1 s2 s3 d0 d1 d2 d3 : ℕ) (options rest padding : Bytes)
    → words < 11
    → length options ≡ 4 * words
    → 24 + length options + length rest < 65536
    → source < 65536
    → destination < 65536
    → Carries protocol source destination t
    → parse_ip_packet (
        ipv4_packet f words protocol s0 s1 s2 s3 d0 d1 d2 d3 options
          (segment source destination rest)
          padding)
      ≡ ok (flow (v4 (s0 ∷ s1 ∷ s2 ∷ s3 ∷ [])) (v4 (d0 ∷ d1 ∷ d2 ∷ d3 ∷ [])) source destination t)
parse-ipv4_packet f words {protocol} s0 s1 s2 s3 d0 d1 d2 d3 options rest padding w o l h k c =
    parse_ipv4_packet-ipv4_packet f words protocol s0 s1 s2 s3 d0 d1 d2 d3 options _ padding w o
      (omega arith)
    ∙ parse_transport-segment _ _ rest c h k

-- The upper four bits of the traffic class share the first byte with the version; its lower four
-- share the second with the upper four of the flow label.
pub record Ipv6Fields : Type 0 where
  pub class_high : ℕ
  pub class_low : ℕ
  pub label_high : ℕ
  pub label_low : ℕ
  pub hops : ℕ

abbrev pub ipv6_fixed : Ipv6Fields → ℕ → ℕ → Bytes
ipv6_fixed f protocol len =
    (0x60 + f.class_high)
    ∷ f.class_low
    ∷ f.label_high
    ∷ f.label_low
    ∷ len / 256 % 256
    ∷ len % 256
    ∷ protocol
    ∷ f.hops
    ∷ []

module _ (f : Ipv6Fields) (protocol : ℕ) (source destination payload padding : Bytes) where
  pub ipv6_packet : Bytes
  ipv6_packet =
      ipv6_fixed f protocol (length payload) ++ source ++ (destination ++ (payload ++ padding))

  module _ (nibble : f.class_high < 16) (s16 : length source ≡ 16) (d16 : length destination ≡ 16)
      (l : length payload < 65536) where
    ipv6-length : length ipv6_packet ≡ 40 + length payload + length padding
    unfolding ipv6_packet
    ipv6-length = omega (
      arith,
      length-append source (destination ++ (payload ++ padding)),
      length-append destination (payload ++ padding),
      length-append payload padding,
    )

    ipv6-source : slice {E = PacketParseError} ipv6_packet 8 24 ≡ ok source
    unfolding ipv6_packet
    ipv6-source =
        slice-append (ipv6_fixed f protocol (length payload)) source
          (destination ++ (payload ++ padding)) 8 24 refl (omega arith)

    ipv6-destination : slice {E = PacketParseError} ipv6_packet 24 40 ≡ ok destination
    unfolding ipv6_packet
    ipv6-destination =
        slice-append (ipv6_fixed f protocol (length payload) ++ source) destination
          (payload ++ padding) 24 40 (omega arith) (omega arith)

    ipv6-transport :
        slice {E = PacketParseError} ipv6_packet 40
          (40 + be16 (length payload / 256 % 256) (length payload % 256))
        ≡ ok payload
    unfolding ipv6_packet
    ipv6-transport = rw (← append_assoc source destination (payload ++ padding)) (
        slice-append (ipv6_fixed f protocol (length payload) ++ (source ++ destination)) payload
          padding 40 _ (omega (arith, length-append source destination))
          (omega (arith, length-append source destination)))

    parse_ip_packet-ipv6_packet :
        parse_ip_packet ipv6_packet ≡ parse_transport protocol (v6 source) (v6 destination) payload
    unfolding parse_ip_packet parse_ipv6_packet ipv6_packet index
    parse_ip_packet-ipv6_packet =
        ground (arith, ipv6-length, ipv6-source, ipv6-destination, ipv6-transport)

-- An IPv6 packet laid out as RFC 8200 says, of any traffic class and flow label and with no extension
-- header, is parsed to its addresses,
-- its two ports and the transport that the next header and the ports stand for; bytes behind the
-- payload length are ignored.
pub parse-ipv6_packet :
    (f : Ipv6Fields) {protocol source destination : ℕ} {t : CapturedTransport}
    (s d rest padding : Bytes)
    → f.class_high < 16
    → length s ≡ 16
    → length d ≡ 16
    → 4 + length rest < 65536
    → source < 65536
    → destination < 65536
    → Carries protocol source destination t
    → parse_ip_packet (ipv6_packet f protocol s d (segment source destination rest) padding)
      ≡ ok (flow (v6 s) (v6 d) source destination t)
parse-ipv6_packet f {protocol} {source} {destination} s d rest padding nibble s16 d16 l h k c =
    parse_ip_packet-ipv6_packet f protocol s d (segment source destination rest) padding nibble s16
      d16 (omega arith)
    ∙ parse_transport-segment _ _ rest c h k
