-- ===== src/Socks/Request.antt =====
-- protocol.rs: a client that speaks RFC 1928 is understood.
use dynet.Base.{
  ℕ, ◌<◌, ◌≡◌, refl, true, [], ◌∷◌, ◌++◌, length, drop-append, take-append, length-append, arith,
  ap, ◌∙◌, leb,
}
use mathlib.Core.List.{append_assoc}
use dynet.Base.Net.{Bytes, IpAddr, v4, v6, be16_bytes, be16-be16_bytes}
use dynet.Base.Outcome.{ok}
use dynet.Base.Text.{Text, text, is_utf8}
use dynet.Socks.{SocksDestination, socket, domain}
use dynet.Socks.Wire.{IsAddress, IsDestination, destination_bytes}
use dynet.Socks.Stream.{
  TcpStream, read_exact, read_port, read_ipv4_destination, read_ipv6_destination,
  read_domain_destination, read_destination, read_request, request,
}

pub read_exact-append :
    (n : ℕ) (stage message : Text) (s : TcpStream) (xs ys : Bytes)
    → s.input ≡ xs ++ ys
    → length xs ≡ n
    → read_exact n stage message s ≡ (ok xs, record s { input = ys })
unfolding read_exact
read_exact-append n stage message s xs ys e h =
    let long : leb n (length (xs ++ ys)) ≡ true = ground (arith, length-append xs ys) in
    rw (read_exact, e, long, ← h, e, take-append xs ys, drop-append xs ys) refl

read_port-bytes :
    (s : TcpStream) (port : ℕ) (rest : Bytes)
    → s.input ≡ be16_bytes port ++ rest
    → port < 65536
    → read_port s ≡ (ok port, record s { input = rest })
unfolding read_port
read_port-bytes s port rest e h =
    rw
      (
        read_exact-append 2 request (text "failed reading target port") s (be16_bytes port) rest e
            refl,
        be16-be16_bytes port h,
      )
      refl

module _ (s : TcpStream) (rest : Bytes) where
  ipv4_destination-bytes :
      (octets : Bytes) (port : ℕ)
      → s.input ≡ octets ++ (be16_bytes port ++ rest)
      → length octets ≡ 4
      → port < 65536
      → read_ipv4_destination s
        ≡ (ok (socket (record { ip = v4 octets; port = port })), record s { input = rest })
  unfolding read_ipv4_destination
  ipv4_destination-bytes octets port e size small =
      let after : TcpStream = record s { input = be16_bytes port ++ rest } in
      rw
        (
          read_exact-append 4 request (text "failed reading IPv4 target") s octets _ e size,
          read_port-bytes after port rest refl small,
        )
        refl

  ipv6_destination-bytes :
      (octets : Bytes) (port : ℕ)
      → s.input ≡ octets ++ (be16_bytes port ++ rest)
      → length octets ≡ 16
      → port < 65536
      → read_ipv6_destination s
        ≡ (ok (socket (record { ip = v6 octets; port = port })), record s { input = rest })
  unfolding read_ipv6_destination
  ipv6_destination-bytes octets port e size small =
      let after : TcpStream = record s { input = be16_bytes port ++ rest } in
      rw
        (
          read_exact-append 16 request (text "failed reading IPv6 target") s octets _ e size,
          read_port-bytes after port rest refl small,
        )
        refl

  domain_destination-bytes :
      (name : Text) (port : ℕ)
      → s.input ≡ length name ∷ name ++ (be16_bytes port ++ rest)
      → is_utf8 name ≡ true
      → port < 65536
      → read_domain_destination s ≡ (ok (domain name port), record s { input = rest })
  unfolding read_domain_destination
  domain_destination-bytes name port e valid small =
      let named : TcpStream = record s { input = name ++ (be16_bytes port ++ rest) } in
      let after : TcpStream = record s { input = be16_bytes port ++ rest } in
      rw
        (
          read_exact-append 1 request (text "failed reading domain length") s (length name ∷ []) _ e
              refl,
          read_exact-append (length name) request (text "failed reading domain target") named name _
              refl refl,
          valid,
          read_port-bytes after port rest refl small,
        )
        refl

module _ (s : TcpStream) (rest : Bytes) where
  -- A request: the version, the command, a zero byte and the destination.
  abbrev pub Asks : ℕ → SocksDestination → Type 0
  Asks command d = s.input ≡ 5 ∷ command ∷ 0 ∷ destination_bytes d ++ rest

  abbrev pub Understood : ℕ → SocksDestination → Type 0
  Understood command d =
      read_request s
      ≡ (ok (record { command = command; destination = d }), record s { input = rest })

  abbrev header_error : Text
  header_error = text "failed reading request header"

  address_request-bytes :
      (ip : IpAddr) (port command : ℕ)
      → IsAddress (record { ip = ip; port = port })
      → Asks command (socket (record { ip = ip; port = port }))
      → Understood command (socket (record { ip = ip; port = port }))
  unfolding read_request read_destination
  address_request-bytes (v4 octets) port command (size, small) e =
      let body : Bytes = octets ++ (be16_bytes port ++ rest) in
      let headed : TcpStream = record s { input = body } in
      let asked : s.input ≡ (5 ∷ command ∷ 0 ∷ 1 ∷ []) ++ body =
        e ∙ ap (λ l. 5 ∷ command ∷ 0 ∷ 1 ∷ l) (append_assoc octets (be16_bytes port) rest) in
      rw
        (
          read_exact-append 4 request header_error s (5 ∷ command ∷ 0 ∷ 1 ∷ []) body asked refl,
          ipv4_destination-bytes headed rest octets port refl size small,
        )
        refl
  address_request-bytes (v6 octets) port command (size, small) e =
      let body : Bytes = octets ++ (be16_bytes port ++ rest) in
      let headed : TcpStream = record s { input = body } in
      let asked : s.input ≡ (5 ∷ command ∷ 0 ∷ 4 ∷ []) ++ body =
        e ∙ ap (λ l. 5 ∷ command ∷ 0 ∷ 4 ∷ l) (append_assoc octets (be16_bytes port) rest) in
      rw
        (
          read_exact-append 4 request header_error s (5 ∷ command ∷ 0 ∷ 4 ∷ []) body asked refl,
          ipv6_destination-bytes headed rest octets port refl size small,
        )
        refl

  -- A request of RFC 1928 is read as its command and its destination, and what follows it is left to
  -- be read.
  pub read_request-bytes :
      (command : ℕ) (d : SocksDestination) → IsDestination d → Asks command d → Understood command d
  unfolding read_request read_destination
  read_request-bytes command (socket address) h e =
      address_request-bytes address.ip address.port command h e
  read_request-bytes command (domain name port) (short, valid, small) e =
      let body : Bytes = length name ∷ name ++ (be16_bytes port ++ rest) in
      let headed : TcpStream = record s { input = body } in
      let asked : s.input ≡ (5 ∷ command ∷ 0 ∷ 3 ∷ []) ++ body =
        e
        ∙ ap (λ l. 5 ∷ command ∷ 0 ∷ 3 ∷ length name ∷ l)
            (append_assoc name (be16_bytes port) rest) in
      rw
        (
          read_exact-append 4 request header_error s (5 ∷ command ∷ 0 ∷ 3 ∷ []) body asked refl,
          domain_destination-bytes headed rest name port refl valid small,
        )
        refl
