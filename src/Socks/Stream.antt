-- ===== src/Socks/Stream.antt =====
-- protocol.rs on a connection: the greeting, a request and a reply.
use dynet.Base.{
  ℕ, true, false, [], ◌∷◌, ◌++◌, Option, none, some, length, any, take, drop, leb, ◌==◌, ◌!=◌,
  if◌then◌else◌,
}
use dynet.Base.Net.{Bytes, v4, v6, SocketAddr, be16}
use dynet.Base.Outcome.{Outcome, ok, err, panic}
use dynet.Base.Text.{Text, text, is_utf8}
use dynet.Socks.{
  socks_version, socks_no_auth, socks_no_acceptable_methods, socks_atyp_ipv4, socks_atyp_domain,
  socks_atyp_ipv6, socks_cmd_connect, socks_cmd_bind, socks_cmd_udp_associate,
  socks_reply_command_not_supported, SocksError, not_utf8, socks_error, with_source,
  SocksDestination, socket, domain, SocksRequest, address_bytes,
}

-- A client's connection: what it still sends before its end or a failure, what it was sent, how a
-- read past the end fails, and how a write fails, if it does.
pub record TcpStream : Type 0 where
  pub input : Bytes
  pub output : Bytes
  pub read_error : Text
  pub write_error : Option Text

-- What an operation on a connection gives and how it leaves it.
abbrev pub Step : Type 0 → Type 0
Step A = TcpStream → Outcome SocksError A × TcpStream

abbrev pub continue :
    {A B : Type 0}
    → (A → Step B)
    → Outcome SocksError A × TcpStream
    → Outcome SocksError B × TcpStream
continue f (ok a, s) = f a s
continue f (err e, s) = (err e, s)
continue f (panic, s) = (panic, s)

infixl 5 ◌>>=◌
abbrev pub ◌>>=◌ : {A B : Type 0} → Step A → (A → Step B) → Step B
m >>= f = λ s. continue f (m s)

abbrev pub pure : {A : Type 0} → A → Step A
pure a = λ s. (ok a, s)

abbrev pub fail : {A : Type 0} → SocksError → Step A
fail e = λ s. (err e, s)

-- `client.read_exact(…)` of a buffer of so many bytes, with the error that the caller makes of a
-- failure: by then the bytes that were there have been read.
unfoldable pub read_exact : ℕ → Text → Text → Step Bytes
read_exact n stage message s = elim (leb n (length s.input)) [
  | true ↦ (ok (take n s.input), record s { input = drop n s.input })
  | false ↦ (err (with_source stage message s.read_error), record s { input = [] })
]

-- `client.write_all(…)`
unfoldable pub write_all : Bytes → Text → Text → Step (Unit {0})
write_all bytes stage message s = elim s.write_error [
  | none ↦ (ok tt, record s { output = s.output ++ bytes })
  | some error ↦ (err (with_source stage message error), s)
]

abbrev pub handshake : Text
handshake = text "socks-handshake"

abbrev pub request : Text
request = text "socks-request"

abbrev chosen_method : Bytes → ℕ
chosen_method methods =
    if any (λ m. m == socks_no_auth) methods then socks_no_auth else socks_no_acceptable_methods

unfoldable pub select_method : ℕ → Step (Unit {0})
select_method method = do
  done ← write_all (socks_version ∷ method ∷ []) handshake (text "failed writing method selection")
  if method == socks_no_acceptable_methods
      then fail (socks_error handshake (text "SOCKS5 no-auth method is not offered"))
      else pure tt

unfoldable pub negotiate_no_auth : Step (Unit {0})
unfolding select_method
negotiate_no_auth = read_exact 2 handshake (text "failed reading greeting") >>= λ header.
    elim header [
      | version ∷ count ∷ [] ↦
          if version != socks_version
          then fail (socks_error handshake (text "unsupported SOCKS version"))
          else (read_exact count handshake (text "failed reading methods") >>= λ methods.
              select_method (chosen_method methods))
      | _ ↦ λ s. (panic, s)
    ]

unfoldable pub read_port : Step ℕ
read_port = read_exact 2 request (text "failed reading target port") >>= λ port. elim port [
  | hi ∷ lo ∷ [] ↦ pure (be16 hi lo)
  | _ ↦ λ s. (panic, s)
]

unfoldable pub read_ipv4_destination : Step SocksDestination
unfolding read_port
read_ipv4_destination = read_exact 4 request (text "failed reading IPv4 target") >>= λ address.
    read_port >>= λ port. pure (socket (record { ip = v4 address; port = port }))

unfoldable pub read_ipv6_destination : Step SocksDestination
unfolding read_port
read_ipv6_destination = read_exact 16 request (text "failed reading IPv6 target") >>= λ address.
    read_port >>= λ port. pure (socket (record { ip = v6 address; port = port }))

unfoldable pub read_domain_destination : Step SocksDestination
unfolding read_port
read_domain_destination = read_exact 1 request (text "failed reading domain length") >>= λ size.
    elim size [
      | length ∷ [] ↦
          (read_exact length request (text "failed reading domain target") >>= λ name.
          if is_utf8 name
          then (read_port >>= λ port. pure (domain name port))
          else fail (record {
            stage = request;
            message = not_utf8 (text "domain target is not UTF-8") name;
          }))
      | _ ↦ λ s. (panic, s)
    ]

unfoldable pub read_destination : ℕ → Step SocksDestination
unfolding read_ipv4_destination read_ipv6_destination read_domain_destination
read_destination atyp =
    if atyp == socks_atyp_ipv4
    then read_ipv4_destination
    else if atyp == socks_atyp_ipv6
    then read_ipv6_destination
    else if atyp == socks_atyp_domain
    then read_domain_destination
    else fail (socks_error request (text "unsupported SOCKS5 address type"))

unfoldable pub read_request : Step SocksRequest
unfolding read_destination
read_request = read_exact 4 request (text "failed reading request header") >>= λ header.
    elim header [
      | version ∷ command ∷ reserved ∷ atyp ∷ [] ↦
          if version != socks_version
          then fail (socks_error request (text "unsupported SOCKS version"))
          else if reserved != 0
          then fail (socks_error request (text "SOCKS5 reserved byte must be zero"))
          else (read_destination atyp >>= λ destination.
              pure (record { command = command; destination = destination }))
      | _ ↦ λ s. (panic, s)
    ]

unfoldable pub write_reply : ℕ → SocketAddr → Step (Unit {0})
write_reply reply bind =
    write_all (socks_version ∷ reply ∷ 0 ∷ address_bytes bind) (text "socks-reply")
      (text "failed writing SOCKS5 reply")

abbrev unspecified : SocketAddr
unspecified = record { ip = v4 (0 ∷ 0 ∷ 0 ∷ 0 ∷ []); port = 0 }

-- Which handler a request goes to.
pub data SocksHandler : Type 0 where
  handle_connect : SocksRequest → SocksHandler
  handle_udp_associate : SocksHandler

-- `handle_client` up to its two handlers.
unfoldable pub dispatch : SocksRequest → Step SocksHandler
dispatch r =
    if r.command == socks_cmd_connect
    then pure (handle_connect r)
    else if r.command == socks_cmd_udp_associate
    then pure handle_udp_associate
    else if r.command == socks_cmd_bind
    then refuse (text "SOCKS5 BIND is not supported")
    else refuse (text "SOCKS5 command is not supported")
  where
    refuse : Text → Step SocksHandler
    refuse message = write_reply socks_reply_command_not_supported unspecified >>= λ done.
        fail (socks_error request message)

unfoldable pub handle_client : Step SocksHandler
handle_client = negotiate_no_auth >>= λ done. read_request >>= λ r. dispatch r
