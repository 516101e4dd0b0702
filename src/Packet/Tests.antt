-- ===== src/Packet/Tests.antt =====
-- packet.rs at concrete packets: the tests of the repository, and instances of the theorems.
use dynet.Base.{◌≡◌, ◌≢◌, refl, inr, [], ◌∷◌, arith, replicate}
use dynet.Base.Outcome.{ok, err, panic}
use dynet.Base.Net.{v4, v6}
use dynet.Packet.{parse_ip_packet, parse_ipv4_packet, too_short, unsupported_version, tcp, dns_udp}
use dynet.Packet.Bounds.{parse_ip_packet-ne-panic}
use dynet.Packet.Encode.{
  Ipv4Fields, Ipv6Fields, ipv4_packet, ipv6_packet, segment, flow, tcp_other, udp_dns,
  parse-ipv4_packet, parse-ipv6_packet,
}

abbrev fields : Ipv4Fields
fields = record {
  tos = 0;
  id_high = 0;
  id_low = 0;
  flags = 0;
  fragment = 0;
  ttl = 64;
  sum_high = 0;
  sum_low = 0;
}

abbrev fields6 : Ipv6Fields
fields6 = record { class_high = 11; class_low = 8; label_high = 0; label_low = 0; hops = 64 }

empty : parse_ip_packet [] ≡ err too_short
unfolding parse_ip_packet
empty = refl

short : parse_ip_packet (0x45 ∷ []) ≡ err too_short
unfolding parse_ip_packet parse_ipv4_packet
short = refl

version_five : parse_ip_packet (0x55 ∷ []) ≡ err (unsupported_version 5)
unfolding parse_ip_packet
version_five = refl

parse_ip_packet-ne-panic_example : parse_ip_packet (0x4f ∷ replicate 30 255) ≢ panic
parse_ip_packet-ne-panic_example = parse_ip_packet-ne-panic (0x4f ∷ replicate 30 255)

parse-ipv4_packet_example :
    parse_ip_packet (
      ipv4_packet fields 1 6 10 0 0 1 93 184 216 34
        (1 ∷ 1 ∷ 1 ∷ 1 ∷ [])
        (segment 40000 443 (7 ∷ []))
        (0 ∷ 0 ∷ []))
    ≡ ok (flow (v4 (10 ∷ 0 ∷ 0 ∷ 1 ∷ [])) (v4 (93 ∷ 184 ∷ 216 ∷ 34 ∷ [])) 40000 443 tcp)
parse-ipv4_packet_example =
    parse-ipv4_packet fields 1 10 0 0 1 93 184 216 34 (1 ∷ 1 ∷ 1 ∷ 1 ∷ []) (7 ∷ []) (0 ∷ 0 ∷ [])
      (omega arith) refl (omega arith) (omega arith) (omega arith)
      (tcp_other refl (omega arith) (omega arith))

parse-ipv6_packet_example :
    parse_ip_packet
      (ipv6_packet fields6 17 (replicate 16 1) (replicate 16 2) (segment 5353 53 (7 ∷ [])) [])
    ≡ ok (flow (v6 (replicate 16 1)) (v6 (replicate 16 2)) 5353 53 dns_udp)
parse-ipv6_packet_example =
    parse-ipv6_packet fields6 (replicate 16 1) (replicate 16 2) (7 ∷ []) [] (omega arith) refl refl
      (omega arith) (omega arith) (omega arith) (udp_dns refl (inr refl))
