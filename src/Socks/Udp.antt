-- ===== src/Socks/Udp.antt =====
-- protocol.rs and egress/udp_downstream.rs: what is wrapped for a SOCKS client is what it would be
-- parsed to, and no datagram makes the parser panic.
use dynet.Base.{
  ℕ, ◌+◌, ◌/◌, ◌%◌, ◌≤◌, ◌<◌, ◌≡◌, refl, true, [], ◌∷◌, ◌++◌, length, length-append, arith, sym,
  subst,
}
use mathlib.Core.List.{append_assoc}
use dynet.Base.Net.{Bytes, IpAddr, v4, v6, SocketAddr, be16_bytes, be16-be16_bytes}
use dynet.Base.Outcome.{ok, index, slice, slice-append}
use dynet.Base.Text.{Text, is_utf8}
use dynet.Socks.{
  SocksError, SocksDestination, socket, domain, slice_from, address_bytes, parse_udp_ipv4,
  parse_udp_ipv6, parse_udp_name, parse_udp_domain, parse_udp_destination, parse_udp_body,
  parse_udp_packet, socks5_udp_packet,
}
use dynet.Socks.Wire.{
  IsAddress, IsDestination, destination_bytes, slice_from-append, index-append, four,
}

-- A datagram: three zero bytes, the destination and the payload.
abbrev pub udp_bytes : SocksDestination → Bytes → Bytes
udp_bytes destination payload = 0 ∷ 0 ∷ 0 ∷ destination_bytes destination ++ payload

-- A destination ends where its bytes end.
module _ (payload : Bytes) (port : ℕ) (small : port < 65536) where
  ipv4-bytes :
      (a b c d : ℕ)
      → parse_udp_ipv4
          (udp_bytes (socket (record { ip = v4 (a ∷ b ∷ c ∷ d ∷ []); port = port })) payload)
          4
        ≡ ok (socket (record { ip = v4 (a ∷ b ∷ c ∷ d ∷ []); port = port }), 10)
  unfolding parse_udp_ipv4 index
  ipv4-bytes a b c d = ground (arith, be16-be16_bytes port small)

  ipv6-bytes :
      (octets : Bytes)
      → length octets ≡ 16
      → parse_udp_ipv6 (udp_bytes (socket (record { ip = v6 octets; port = port })) payload) 4
        ≡ ok (socket (record { ip = v6 octets; port = port }), 22)
  unfolding parse_udp_ipv6
  ipv6-bytes octets h =
      let rest : Bytes = be16_bytes port ++ payload in
      let front : Bytes = 0 ∷ 0 ∷ 0 ∷ 4 ∷ octets in
      let packet : Bytes = front ++ rest in
      let address : slice {E = SocksError} packet 4 20 ≡ ok octets =
        slice-append (0 ∷ 0 ∷ 0 ∷ 4 ∷ []) octets rest 4 20 refl (omega (arith, h)) in
      let hi : index {E = SocksError} packet 20 ≡ ok (port / 256 % 256) =
        index-append front rest 0 20 (omega (arith, h)) refl in
      let lo : index {E = SocksError} packet 21 ≡ ok (port % 256) =
        index-append front rest 1 21 (omega (arith, h)) refl in
      rw (append_assoc octets (be16_bytes port) payload)
        (ground (arith, address, hi, lo, h, length-append octets rest, be16-be16_bytes port small))

  name-bytes :
      (name : Text)
      → is_utf8 name ≡ true
      → parse_udp_domain (udp_bytes (domain name port) payload) 4
        ≡ ok (domain name port, 7 + length name)
  unfolding parse_udp_domain parse_udp_name
  name-bytes name h =
      let rest : Bytes = be16_bytes port ++ payload in
      let front : Bytes = 0 ∷ 0 ∷ 0 ∷ 3 ∷ length name ∷ name in
      let packet : Bytes = front ++ rest in
      let label : slice {E = SocksError} packet 5 (5 + length name) ≡ ok name =
        slice-append (0 ∷ 0 ∷ 0 ∷ 3 ∷ length name ∷ []) name rest 5 (5 + length name) refl
          (omega arith) in
      let hi : index {E = SocksError} packet (5 + length name) ≡ ok (port / 256 % 256) =
        index-append front rest 0 (5 + length name) (omega arith) refl in
      let lo : index {E = SocksError} packet (5 + length name + 1) ≡ ok (port % 256) =
        index-append front rest 1 (5 + length name + 1) (omega arith) refl in
      rw (append_assoc name (be16_bytes port) payload)
        (ground (arith, label, hi, lo, h, length-append name rest, be16-be16_bytes port small))

module _ (payload : Bytes) where
  address-bytes :
      (ip : IpAddr) (port : ℕ)
      → IsAddress (record { ip = ip; port = port })
      → parse_udp_destination (udp_bytes (socket (record { ip = ip; port = port })) payload) 3
        ≡ ok (
          socket (record { ip = ip; port = port }),
          3 + length (destination_bytes (socket (record { ip = ip; port = port }))),
        )
  unfolding parse_udp_destination
  address-bytes (v4 octets) port (size, small) =
      let (a, b, c, d, e) = four octets size in
      subst
        (λ o.
          parse_udp_destination (udp_bytes (socket (record { ip = v4 o; port = port })) payload) 3
          ≡ ok (
            socket (record { ip = v4 o; port = port }),
            3 + length (destination_bytes (socket (record { ip = v4 o; port = port }))),
          ))
        (sym e) (ground (arith, ipv4-bytes payload port small a b c d))
  address-bytes (v6 octets) port (size, small) = ground (
    arith,
    ipv6-bytes payload port small octets size,
    length-append octets (be16_bytes port),
    size,
  )

  destination-bytes :
      (d : SocksDestination)
      → IsDestination d
      → parse_udp_destination (udp_bytes d payload) 3 ≡ ok (d, 3 + length (destination_bytes d))
  unfolding parse_udp_destination
  destination-bytes (socket address) h = address-bytes address.ip address.port h
  destination-bytes (domain name port) (short, valid, small) =
      ground (arith, name-bytes payload port small name valid, length-append name (be16_bytes port))

  starts : (d : SocksDestination) → 4 ≤ length (udp_bytes d payload)
  starts (socket address) = go address.ip
    where
      go :
          (ip : IpAddr)
          → 4 ≤ length (udp_bytes (socket (record { ip = ip; port = address.port })) payload)
      go (v4 octets) = omega arith
      go (v6 octets) = omega arith
  starts (domain name port) = omega arith

  -- An RFC 1928 datagram of any destination is parsed to that destination and its payload.
  pub parse_udp_packet-udp_bytes :
      (d : SocksDestination)
      → IsDestination d
      → parse_udp_packet (udp_bytes d payload) ≡ ok (record { destination = d; payload = payload })
  unfolding parse_udp_packet parse_udp_body index
  parse_udp_packet-udp_bytes d h =
      let rest : slice_from (udp_bytes d payload) (3 + length (destination_bytes d)) ≡ ok payload =
        slice_from-append (0 ∷ 0 ∷ 0 ∷ destination_bytes d) payload
          (3 + length (destination_bytes d)) (omega arith) in
      ground (arith, starts d, destination-bytes d h, rest)

  wrapped :
      (target : SocketAddr) → socks5_udp_packet target payload ≡ udp_bytes (socket target) payload
  unfolding socks5_udp_packet address_bytes
  wrapped target = go target.ip target.port
    where
      go :
          (ip : IpAddr) (port : ℕ)
          → socks5_udp_packet (record { ip = ip; port = port }) payload
            ≡ udp_bytes (socket (record { ip = ip; port = port })) payload
      go (v4 octets) port = refl
      go (v6 octets) port = refl

  -- What is sent to a SOCKS client as a datagram from an address is parsed back to that address and
  -- the payload, and is what RFC 1928 says it is.
  pub parse_udp_packet-socks5_udp_packet :
      (target : SocketAddr)
      → IsAddress target
      → (parse_udp_packet (socks5_udp_packet target payload)
          ≡ ok (record { destination = socket target; payload = payload }))
        × (socks5_udp_packet target payload ≡ udp_bytes (socket target) payload)
  parse_udp_packet-socks5_udp_packet target h =
      (rw (wrapped target) (parse_udp_packet-udp_bytes (socket target) h), wrapped target)
