-- ===== src/Socks.antt =====
-- crates/dynet-ingress/src/socks/protocol.rs and socks.rs, and socks5_udp_packet of
-- egress/udp_downstream.rs: the messages of SOCKS5 (RFC 1928). A message of an error keeps its text
-- and what is printed behind it.
pub mod Wire
pub mod Stream
pub mod Request
pub mod Udp
pub mod Exact
pub mod Session
pub mod Tests
use dynet.Base.{
  ℕ, ◌+◌, ◌-◌, ◌≡◌, refl, Bool, true, false, List, [], ◌∷◌, ◌++◌, Option, none, some, length,
  get_elem?, take, drop, ltb, ◌==◌, ◌!=◌, ◌||◌, if◌then◌else◌,
}
use dynet.Base.Net.{Bytes, IpAddr, v4, v6, SocketAddr, be16, be16_bytes}
use dynet.Base.Outcome.{Outcome, ok, err, panic, index, slice, ◌>>=◌}
use dynet.Base.Text.{Text, text, is_utf8}

abbrev pub socks_version : ℕ
socks_version = 5

abbrev pub socks_no_auth : ℕ
socks_no_auth = 0

abbrev pub socks_no_acceptable_methods : ℕ
socks_no_acceptable_methods = 0xff

abbrev pub socks_atyp_ipv4 : ℕ
socks_atyp_ipv4 = 1

abbrev pub socks_atyp_domain : ℕ
socks_atyp_domain = 3

abbrev pub socks_atyp_ipv6 : ℕ
socks_atyp_ipv6 = 4

abbrev pub socks_cmd_connect : ℕ
socks_cmd_connect = 1

abbrev pub socks_cmd_bind : ℕ
socks_cmd_bind = 2

abbrev pub socks_cmd_udp_associate : ℕ
socks_cmd_udp_associate = 3

abbrev pub socks_reply_succeeded : ℕ
socks_reply_succeeded = 0

abbrev pub socks_reply_command_not_supported : ℕ
socks_reply_command_not_supported = 7

-- A text by itself, with an error of the connection behind it, or with the bytes that are no UTF-8.
pub data SocksMessage : Type 0 where
  plain : Text → SocksMessage
  with_error : Text → Text → SocksMessage
  not_utf8 : Text → Bytes → SocksMessage

pub record SocksError : Type 0 where
  pub stage : Text
  pub message : SocksMessage

abbrev pub socks_error : Text → Text → SocksError
socks_error stage message = record { stage = stage; message = plain message }

abbrev pub with_source : Text → Text → Text → SocksError
with_source stage message error = record { stage = stage; message = with_error message error }

pub data SocksDestination : Type 0 where
  socket : SocketAddr → SocksDestination
  domain : Text → ℕ → SocksDestination

pub record SocksRequest : Type 0 where
  pub command : ℕ
  pub destination : SocksDestination

pub record SocksUdpPacket : Type 0 where
  pub destination : SocksDestination
  pub payload : Bytes

abbrev pub udp_read : Text
udp_read = text "socks-udp-read"

unfoldable pub parse_udp_ipv4 : Bytes → ℕ → Outcome SocksError (SocksDestination × ℕ)
parse_udp_ipv4 packet cursor = elim (ltb (length packet) (cursor + 6)) [
  | true ↦ err (socks_error udp_read (text "SOCKS5 UDP IPv4 target is truncated"))
  | false ↦ index packet cursor >>= λ a. index packet (cursor + 1) >>= λ b.
      index packet (cursor + 2) >>= λ c. index packet (cursor + 3) >>= λ d.
      index packet (cursor + 4) >>= λ hi. index packet (cursor + 5) >>= λ lo.
      ok (socket (record { ip = v4 (a ∷ b ∷ c ∷ d ∷ []); port = be16 hi lo }), cursor + 6)
]

unfoldable pub parse_udp_ipv6 : Bytes → ℕ → Outcome SocksError (SocksDestination × ℕ)
parse_udp_ipv6 packet cursor = elim (ltb (length packet) (cursor + 18)) [
  | true ↦ err (socks_error udp_read (text "SOCKS5 UDP IPv6 target is truncated"))
  | false ↦ slice packet cursor (cursor + 16) >>= λ address. index packet (cursor + 16) >>= λ hi.
      index packet (cursor + 17) >>= λ lo.
      ok (socket (record { ip = v6 address; port = be16 hi lo }), cursor + 18)
]

-- `parse_udp_domain` behind the length.
unfoldable pub parse_udp_name : Bytes → ℕ → ℕ → Outcome SocksError (SocksDestination × ℕ)
parse_udp_name packet domain_start domain_end = elim (ltb (length packet) (domain_end + 2)) [
  | true ↦ err (socks_error udp_read (text "SOCKS5 UDP domain target is truncated"))
  | false ↦ slice packet domain_start domain_end >>= λ bytes. elim (is_utf8 bytes) [
    | false ↦ err (record {
      stage = udp_read;
      message = not_utf8 (text "SOCKS5 UDP domain is not UTF-8") bytes;
    })
    | true ↦ index packet domain_end >>= λ hi.
        index packet (domain_end + 1) >>= λ lo. ok (domain bytes (be16 hi lo), domain_end + 2)
  ]
]

unfoldable pub parse_udp_domain : Bytes → ℕ → Outcome SocksError (SocksDestination × ℕ)
unfolding parse_udp_name
parse_udp_domain packet cursor = elim (get_elem? packet cursor) [
  | none ↦ err (socks_error udp_read (text "SOCKS5 UDP domain length is missing"))
  | some size ↦ parse_udp_name packet (cursor + 1) (cursor + 1 + size)
]

unfoldable pub parse_udp_destination : Bytes → ℕ → Outcome SocksError (SocksDestination × ℕ)
unfolding parse_udp_ipv4 parse_udp_ipv6 parse_udp_domain
parse_udp_destination packet offset = elim (get_elem? packet offset) [
  | none ↦ err (socks_error udp_read (text "SOCKS5 UDP address type is missing"))
  | some atyp ↦
      if atyp == socks_atyp_ipv4
      then parse_udp_ipv4 packet (offset + 1)
      else if atyp == socks_atyp_ipv6
      then parse_udp_ipv6 packet (offset + 1)
      else if atyp == socks_atyp_domain
      then parse_udp_domain packet (offset + 1)
      else err (socks_error udp_read (text "unsupported SOCKS5 UDP address type"))
]

-- `packet[from..]`
abbrev pub slice_from : Bytes → ℕ → Outcome SocksError Bytes
slice_from packet from = slice packet from (length packet)

-- `parse_udp_packet` behind its four checks.
unfoldable pub parse_udp_body : Bytes → Outcome SocksError SocksUdpPacket
unfolding parse_udp_destination
parse_udp_body packet = parse_udp_destination packet 3 >>= λ (destination, offset).
    slice_from packet offset >>= λ payload.
    ok (record { destination = destination; payload = payload })

unfoldable pub parse_udp_packet : Bytes → Outcome SocksError SocksUdpPacket
unfolding parse_udp_body
parse_udp_packet packet = elim (ltb (length packet) 4) [
  | true ↦ err (socks_error udp_read (text "SOCKS5 UDP packet is too short"))
  | false ↦ index packet 0 >>= λ first. index packet 1 >>= λ second. index packet 2 >>= λ fragment.
      if first != 0 || second != 0
      then err (socks_error udp_read (text "SOCKS5 UDP reserved bytes must be zero"))
      else if fragment != 0
      then err (socks_error udp_read (text "SOCKS5 UDP fragmentation is not supported"))
      else parse_udp_body packet
]

-- The address type, the octets and the port of an address.
unfoldable pub address_bytes : SocketAddr → Bytes
address_bytes address = elim address.ip [
  | v4 octets ↦ socks_atyp_ipv4 ∷ octets ++ be16_bytes address.port
  | v6 octets ↦ socks_atyp_ipv6 ∷ octets ++ be16_bytes address.port
]

unfoldable pub socks5_udp_packet : SocketAddr → Bytes → Bytes
unfolding address_bytes
socks5_udp_packet target payload = 0 ∷ 0 ∷ 0 ∷ address_bytes target ++ payload
