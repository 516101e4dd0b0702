-- ===== src/Socks/Exact.antt =====
-- protocol.rs: the datagrams that are accepted are those of RFC 1928, and no datagram makes the
-- parser panic.
use dynet.Base.{
  ℕ, zero, suc, ◌+◌, ◌/◌, ◌%◌, ◌≤◌, ◌<◌, ◌≡◌, refl, ◌⊎◌, inl, inr, [], ◌∷◌, ◌++◌, length, arith, ap,
  ◌∙◌, sym, ltb, ltb→lt, ltb→ge, subst, Bool-cases, ◌==◌, ==_iff,
}
use mathlib.Core.List.{append_assoc}
use dynet.Base.Net.{Bytes, AreBytes, v4, v6, be16, be16_bytes}
use dynet.Base.Outcome.{ok, err, index, slice, slice-append}
use dynet.Base.Text.{text, is_utf8}
use dynet.Socks.{
  socks_error, udp_read, not_utf8, SocksError, SocksDestination, socket, domain, parse_udp_ipv4,
  parse_udp_ipv6, parse_udp_name, parse_udp_domain, parse_udp_destination, parse_udp_body,
  parse_udp_packet,
}
use dynet.Socks.Wire.{IsDestination}
use dynet.Socks.Udp.{udp_bytes, parse_udp_packet-udp_bytes}

-- A list that is long enough is a front part, two elements and the rest.
module _ (rest : Bytes) (n : ℕ) where
  pub record Parts : Type 0 where
    pub front : Bytes
    pub hi : ℕ
    pub lo : ℕ
    pub back : Bytes
    pub split : rest ≡ front ++ (hi ∷ lo ∷ back)
    pub size : length front ≡ n
    pub high : hi < 256
    pub low : lo < 256

parts : (rest : Bytes) (n : ℕ) → AreBytes rest → n + 2 ≤ length rest → Parts rest n
parts (hi ∷ lo ∷ back) zero b h = record {
  front = [];
  hi = hi;
  lo = lo;
  back = back;
  split = refl;
  size = refl;
  high = b.0;
  low = b.1.0;
}
parts [] zero b h = absurd (omega arith)
parts (x ∷ []) zero b h = absurd (omega arith)
parts [] (suc n) b h = absurd (omega arith)
parts (x ∷ rest) (suc n) b h =
    let p = parts rest n b.1 (omega arith) in
    record {
      front = x ∷ p.front;
      hi = p.hi;
      lo = p.lo;
      back = p.back;
      split = ap (λ l. x ∷ l) p.split;
      size = ap (λ k. suc k) p.size;
      high = p.high;
      low = p.low;
    }

-- Two bytes are those of their number.
port_bytes : (hi lo : ℕ) → hi < 256 → lo < 256 → be16_bytes (be16 hi lo) ≡ hi ∷ lo ∷ []
port_bytes hi lo h l =
    let e : be16 hi lo / 256 % 256 ≡ hi = omega arith in
    let f : be16 hi lo % 256 ≡ lo = omega arith in rw (e, f) refl

module _ {rest : Bytes} {n : ℕ} (p : Parts rest n) where
  joined : rest ≡ p.front ++ be16_bytes (be16 p.hi p.lo) ++ p.back
  joined =
      p.split
      ∙ rw (port_bytes p.hi p.lo p.high p.low)
          (sym (append_assoc p.front (p.hi ∷ p.lo ∷ []) p.back))

  small : be16 p.hi p.lo < 65536
  small = omega (arith, p.high, p.low)

-- What becomes of a datagram.
abbrev pub Verdict : Bytes → Type 0
Verdict packet =
    ((d : SocksDestination) × (payload : Bytes) × IsDestination d
      × (packet ≡ udp_bytes d payload)
      × (parse_udp_packet packet ≡ ok (record { destination = d; payload = payload })))
    ⊎ ((e : SocksError) × (parse_udp_packet packet ≡ err e))

accepted :
    (packet : Bytes) (d : SocksDestination) (payload : Bytes)
    → IsDestination d
    → packet ≡ udp_bytes d payload
    → Verdict packet
accepted packet d payload h e =
    inl (d, payload, h, e, rw e (parse_udp_packet-udp_bytes payload d h))

refused :
    (rest : Bytes) (t : ℕ) {e : SocksError}
    → parse_udp_destination (0 ∷ 0 ∷ 0 ∷ t ∷ rest) 3 ≡ err e
    → Verdict (0 ∷ 0 ∷ 0 ∷ t ∷ rest)
unfolding parse_udp_packet parse_udp_body index
refused rest t {e} h = inr (e, ground (arith, h))

ipv4-Verdict : (rest : Bytes) → AreBytes rest → Verdict (0 ∷ 0 ∷ 0 ∷ 1 ∷ rest)
unfolding parse_udp_destination parse_udp_ipv4
ipv4-Verdict rest b = elim (Bool-cases (ltb (length rest) 6)) [
  | inl t ↦
      refused rest 1 {e = socks_error udp_read (text "SOCKS5 UDP IPv4 target is truncated")}
        (ground (arith, ltb→lt (length rest) 6 t))
  | inr f ↦
      let p = parts rest 4 b (ltb→ge (length rest) 6 f) in
      accepted _ (socket (record { ip = v4 p.front; port = be16 p.hi p.lo })) p.back
        (p.size, small p) (ap (λ r. 0 ∷ 0 ∷ 0 ∷ 1 ∷ r) (joined p))
]

ipv6-Verdict : (rest : Bytes) → AreBytes rest → Verdict (0 ∷ 0 ∷ 0 ∷ 4 ∷ rest)
unfolding parse_udp_destination parse_udp_ipv6
ipv6-Verdict rest b = elim (Bool-cases (ltb (length rest) 18)) [
  | inl t ↦
      refused rest 4 {e = socks_error udp_read (text "SOCKS5 UDP IPv6 target is truncated")}
        (ground (arith, ltb→lt (length rest) 18 t))
  | inr f ↦
      let p = parts rest 16 b (ltb→ge (length rest) 18 f) in
      accepted _ (socket (record { ip = v6 p.front; port = be16 p.hi p.lo })) p.back
        (p.size, small p) (ap (λ r. 0 ∷ 0 ∷ 0 ∷ 4 ∷ r) (joined p))
]

name-Verdict : (n : ℕ) (rest : Bytes) → n < 256 → AreBytes rest → Verdict (0 ∷ 0 ∷ 0 ∷ 3 ∷ n ∷ rest)
unfolding parse_udp_destination parse_udp_domain parse_udp_name
name-Verdict n rest short b = elim (Bool-cases (ltb (length rest) (n + 2))) [
  | inl t ↦
      refused (n ∷ rest) 3 {e = socks_error udp_read (text "SOCKS5 UDP domain target is truncated")}
        (ground (arith, ltb→lt (length rest) (n + 2) t))
  | inr f ↦
      let p = parts rest n b (ltb→ge (length rest) (n + 2) f) in
      elim (Bool-cases (is_utf8 p.front)) [
        | inl valid ↦
            accepted _ (domain p.front (be16 p.hi p.lo)) p.back
              (omega (arith, short, p.size), valid, small p)
              (rw p.size (ap (λ r. 0 ∷ 0 ∷ 0 ∷ 3 ∷ n ∷ r) (joined p)))
        | inr invalid ↦
            let label : slice {E = SocksError} (0 ∷ 0 ∷ 0 ∷ 3 ∷ n ∷ rest) 5 (5 + n) ≡ ok p.front =
              subst (λ r. slice {E = SocksError} (0 ∷ 0 ∷ 0 ∷ 3 ∷ n ∷ r) 5 (5 + n) ≡ ok p.front)
                (sym p.split)
                (slice-append (0 ∷ 0 ∷ 0 ∷ 3 ∷ n ∷ []) p.front (p.hi ∷ p.lo ∷ p.back) 5 (5 + n) refl
                  (omega (arith, p.size))) in
            refused (n ∷ rest) 3
              {e = record {
                stage = udp_read;
                message = not_utf8 (text "SOCKS5 UDP domain is not UTF-8") p.front;
              }}
              (ground (arith, f, label, invalid))
      ]
]

domain-Verdict : (rest : Bytes) → AreBytes rest → Verdict (0 ∷ 0 ∷ 0 ∷ 3 ∷ rest)
unfolding parse_udp_destination parse_udp_domain
domain-Verdict [] b =
    refused [] 3 {e = socks_error udp_read (text "SOCKS5 UDP domain length is missing")}
      (ground arith)
domain-Verdict (n ∷ rest) b = name-Verdict n rest b.0 b.1

typed-Verdict : (t : ℕ) (rest : Bytes) → AreBytes rest → Verdict (0 ∷ 0 ∷ 0 ∷ t ∷ rest)
unfolding parse_udp_destination
typed-Verdict t rest b = elim (Bool-cases (t == 1)) [
  | inl e ↦ rw ((==_iff t 1).0 e) (ipv4-Verdict rest b)
  | inr not_ipv4 ↦ elim (Bool-cases (t == 4)) [
    | inl e ↦ rw ((==_iff t 4).0 e) (ipv6-Verdict rest b)
    | inr not_ipv6 ↦ elim (Bool-cases (t == 3)) [
      | inl e ↦ rw ((==_iff t 3).0 e) (domain-Verdict rest b)
      | inr not_domain ↦
          refused rest t {e = socks_error udp_read (text "unsupported SOCKS5 UDP address type")}
            (ground (arith, not_ipv4, not_ipv6, not_domain))
    ]
  ]
]

abbrev too_short : SocksError
too_short = socks_error udp_read (text "SOCKS5 UDP packet is too short")

abbrev reserved : SocksError
reserved = socks_error udp_read (text "SOCKS5 UDP reserved bytes must be zero")

abbrev fragmented : SocksError
fragmented = socks_error udp_read (text "SOCKS5 UDP fragmentation is not supported")

-- Every datagram is accepted or refused with an error, the parser does not panic; an accepted one is
-- the RFC 1928 datagram of the destination and the payload that it is parsed to.
pub parse_udp_packet-Verdict : (packet : Bytes) → AreBytes packet → Verdict packet
unfolding parse_udp_packet index
parse_udp_packet-Verdict (zero ∷ zero ∷ zero ∷ t ∷ rest) b = typed-Verdict t rest b.1.1.1.1
parse_udp_packet-Verdict (zero ∷ zero ∷ suc c ∷ t ∷ rest) b = inr (fragmented, ground arith)
parse_udp_packet-Verdict (zero ∷ suc s ∷ c ∷ t ∷ rest) b = inr (reserved, ground arith)
parse_udp_packet-Verdict (suc r ∷ s ∷ c ∷ t ∷ rest) b = inr (reserved, ground arith)
parse_udp_packet-Verdict [] b = inr (too_short, ground arith)
parse_udp_packet-Verdict (r ∷ []) b = inr (too_short, ground arith)
parse_udp_packet-Verdict (r ∷ s ∷ []) b = inr (too_short, ground arith)
parse_udp_packet-Verdict (r ∷ s ∷ c ∷ []) b = inr (too_short, ground arith)
