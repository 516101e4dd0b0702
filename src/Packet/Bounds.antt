-- ===== src/Packet/Bounds.antt =====
-- The parser of packet.rs reads inside the packet.
use dynet.Base.{
  ℕ, ◌+◌, ◌-◌, ◌*◌, ◌%◌, ◌≤◌, ◌<◌, ◌≡◌, ◌≢◌, [], ◌∷◌, length, arith, take, drop, ltb→ge, ltb,
  Bool-cases, inl, inr,
}
use dynet.Base.Outcome.{ok, panic, index, index-lt, slice, slice-le}
use dynet.Base.Net.{Bytes, IpAddr, v4, v6, be16}
use dynet.Packet.{
  PacketParseError, parse_ports, parse_transport, parse_ipv4_packet, parse_ipv6_packet,
  parse_ip_packet,
}

module _ (packet : Bytes) where
  byte : (i : ℕ) → i < length packet → (b : ℕ) × (index {E = PacketParseError} packet i ≡ ok b)
  byte i h = index-lt packet i h

  bytes :
      (from to : ℕ)
      → from ≤ to
      → to ≤ length packet
      → (r : Bytes) × (slice {E = PacketParseError} packet from to ≡ ok r)
  bytes from to h k = (take (to - from) (drop from packet), slice-le packet from to h k)

parse_ports-ne-panic : (packet : Bytes) → parse_ports packet ≢ panic
unfolding parse_ports
parse_ports-ne-panic packet h =
    ground (arith, byte packet 0, byte packet 1, byte packet 2, byte packet 3)

parse_transport-ne-panic :
    (protocol : ℕ) (source destination : IpAddr) (transport : Bytes)
    → parse_transport protocol source destination transport ≢ panic
unfolding parse_transport
parse_transport-ne-panic protocol source destination transport h =
    ground (arith, parse_ports-ne-panic transport)

ipv4_long-ne-panic : (packet : Bytes) → 20 ≤ length packet → parse_ipv4_packet packet ≢ panic
unfolding parse_ipv4_packet
ipv4_long-ne-panic packet long h =
    let (b0, e0) = byte packet 0 (omega arith) in
    let (b2, e2) = byte packet 2 (omega arith) in
    let (b3, e3) = byte packet 3 (omega arith) in
    let (b9, e9) = byte packet 9 (omega arith) in
    let (b12, e12) = byte packet 12 (omega arith) in
    let (b13, e13) = byte packet 13 (omega arith) in
    let (b14, e14) = byte packet 14 (omega arith) in
    let (b15, e15) = byte packet 15 (omega arith) in
    let (b16, e16) = byte packet 16 (omega arith) in
    let (b17, e17) = byte packet 17 (omega arith) in
    let (b18, e18) = byte packet 18 (omega arith) in
    let (b19, e19) = byte packet 19 (omega arith) in
    let ihl = b0 % 16 * 4 in
    let total_len = be16 b2 b3 in
    ground (
      arith,
      slice-le {E = PacketParseError} packet ihl total_len,
      parse_transport-ne-panic b9 (v4 (b12 ∷ b13 ∷ b14 ∷ b15 ∷ []))
          (v4 (b16 ∷ b17 ∷ b18 ∷ b19 ∷ [])) (take (total_len - ihl) (drop ihl packet)),
    )

parse_ipv4_packet-ne-panic : (packet : Bytes) → parse_ipv4_packet packet ≢ panic
unfolding parse_ipv4_packet
parse_ipv4_packet-ne-panic packet h = elim (Bool-cases (ltb (length packet) 20)) [
  | inl short ↦ ground arith
  | inr long ↦ ipv4_long-ne-panic packet (ltb→ge _ _ long) h
]

ipv6_long-ne-panic : (packet : Bytes) → 40 ≤ length packet → parse_ipv6_packet packet ≢ panic
unfolding parse_ipv6_packet
ipv6_long-ne-panic packet long h =
    let (b0, e0) = byte packet 0 (omega arith) in
    let (b4, e4) = byte packet 4 (omega arith) in
    let (b5, e5) = byte packet 5 (omega arith) in
    let (b6, e6) = byte packet 6 (omega arith) in
    let total_len = 40 + be16 b4 b5 in
    ground (
      arith,
      slice-le {E = PacketParseError} packet 8 24,
      slice-le {E = PacketParseError} packet 24 40,
      slice-le {E = PacketParseError} packet 40 total_len,
      parse_transport-ne-panic b6 (v6 (take 16 (drop 8 packet))) (v6 (take 16 (drop 24 packet)))
          (take (total_len - 40) (drop 40 packet)),
    )

parse_ipv6_packet-ne-panic : (packet : Bytes) → parse_ipv6_packet packet ≢ panic
unfolding parse_ipv6_packet
parse_ipv6_packet-ne-panic packet h = elim (Bool-cases (ltb (length packet) 40)) [
  | inl short ↦ ground arith
  | inr long ↦ ipv6_long-ne-panic packet (ltb→ge _ _ long) h
]

-- Parsing never panics, whatever bytes it is given: each index and each slice that is taken lies
-- in the packet.
pub parse_ip_packet-ne-panic : (packet : Bytes) → parse_ip_packet packet ≢ panic
unfolding parse_ip_packet
parse_ip_packet-ne-panic [] h = cc
parse_ip_packet-ne-panic (b ∷ packet) h =
    ground (arith, parse_ipv4_packet-ne-panic (b ∷ packet), parse_ipv6_packet-ne-panic (b ∷ packet))
