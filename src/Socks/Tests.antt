-- ===== src/Socks/Tests.antt =====
-- SOCKS5 at concrete messages, and the theorems at them.
use dynet.Base.{◌≡◌, refl, true, [], ◌∷◌, ◌++◌, none, arith}
use dynet.Base.Net.{SocketAddr, v4}
use dynet.Base.Outcome.{ok, err, index}
use dynet.Base.Text.{text, is_utf8}
use dynet.Socks.{
  socket, domain, SocksDestination, parse_udp_packet, socks5_udp_packet, address_bytes, socks_error,
  udp_read,
}
use dynet.Socks.Stream.{TcpStream, handle_client}
use dynet.Socks.Udp.{udp_bytes, parse_udp_packet-udp_bytes, parse_udp_packet-socks5_udp_packet}
use dynet.Socks.Exact.{Verdict, parse_udp_packet-Verdict}
use dynet.Socks.Session.{greeting_bytes, request_bytes, answer, unread, handle_client-answer}

abbrev target : SocketAddr
target = record { ip = v4 (127 ∷ 0 ∷ 0 ∷ 1 ∷ []); port = 443 }

abbrev site : SocksDestination
site = domain (text "example.com") 443

wrapped : socks5_udp_packet target (9 ∷ []) ≡ 0 ∷ 0 ∷ 0 ∷ 1 ∷ 127 ∷ 0 ∷ 0 ∷ 1 ∷ 1 ∷ 187 ∷ 9 ∷ []
unfolding socks5_udp_packet address_bytes
wrapped = refl

fragment :
    parse_udp_packet (0 ∷ 0 ∷ 1 ∷ 1 ∷ [])
    ≡ err (socks_error udp_read (text "SOCKS5 UDP fragmentation is not supported"))
unfolding parse_udp_packet index
fragment = refl

parse_udp_packet-socks5_udp_packet_example :
    (parse_udp_packet (socks5_udp_packet target (9 ∷ []))
      ≡ ok (record { destination = socket target; payload = 9 ∷ [] }))
    × (socks5_udp_packet target (9 ∷ []) ≡ udp_bytes (socket target) (9 ∷ []))
parse_udp_packet-socks5_udp_packet_example =
    parse_udp_packet-socks5_udp_packet (9 ∷ []) target (refl, omega arith)

example_valid : is_utf8 (text "example.com") ≡ true
unfolding is_utf8
example_valid = refl

parse_udp_packet-udp_bytes_example :
    parse_udp_packet (udp_bytes site (9 ∷ []))
    ≡ ok (record { destination = site; payload = 9 ∷ [] })
parse_udp_packet-udp_bytes_example =
    parse_udp_packet-udp_bytes (9 ∷ []) site (omega arith, example_valid, omega arith)

parse_udp_packet-Verdict_example : Verdict (0 ∷ 0 ∷ 0 ∷ 3 ∷ 2 ∷ 97 ∷ 98 ∷ 0 ∷ 53 ∷ 9 ∷ [])
parse_udp_packet-Verdict_example =
    parse_udp_packet-Verdict (0 ∷ 0 ∷ 0 ∷ 3 ∷ 2 ∷ 97 ∷ 98 ∷ 0 ∷ 53 ∷ 9 ∷ []) (ground arith)

-- A client that offers no authentication and a password, and asks for a connection.
abbrev client : TcpStream
client = record {
  input = greeting_bytes (2 ∷ 0 ∷ []) ++ (request_bytes 1 site ++ (22 ∷ []));
  output = [];
  read_error = text "early eof";
  write_error = none;
}

handle_client-answer_example : handle_client client ≡ (
  (answer (2 ∷ 0 ∷ []) 1 site).0,
  record client {
    input = unread (2 ∷ 0 ∷ []) (request_bytes 1 site) (22 ∷ []);
    output = client.output ++ (answer (2 ∷ 0 ∷ []) 1 site).1;
  },
)
handle_client-answer_example =
    handle_client-answer client (22 ∷ []) (2 ∷ 0 ∷ []) 1 site refl
      (omega arith, example_valid, omega arith) refl
