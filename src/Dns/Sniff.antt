-- ===== src/Dns/Sniff.antt =====
-- `sniff_dns_query` and `sniff_dns_response` of crates/dynet-runtime/src/dns.rs.
use dynet.Base.{
  ℕ, zero, suc, ◌+◌, List, [], ◌∷◌, ◌++◌, Option, none, some, length, ◌==◌, if◌then◌else◌,
}
use dynet.Base.Net.{Bytes, IpAddr, v4, v6}
use dynet.Base.Opt.{◌>>=◌}
use dynet.Base.Parse.{show_unsigned}
use dynet.Base.Text.{Text, text}
use dynet.Dns.{get_range, u16_at, read_name}

pub record DnsQueryInfo : Type 0 where
  pub transaction_id : ℕ
  pub query_name : Text
  pub query_type : Text

pub record DnsResponseInfo : Type 0 where
  pub transaction_id : ℕ
  pub query_name : Option Text
  pub query_type : Option Text
  pub answer_ips : List IpAddr

unfoldable pub qtype_label : ℕ → Text
qtype_label qtype =
    if qtype == 1
    then text "A"
    else if qtype == 28
    then text "AAAA"
    else if qtype == 5
    then text "CNAME"
    else if qtype == 65
    then text "HTTPS"
    else show_unsigned qtype

unfoldable pub sniff_dns_query : Bytes → Option DnsQueryInfo
sniff_dns_query packet = do
  transaction_id ← u16_at packet 0
  qdcount ← u16_at packet 4
  if qdcount == 0 then none else (do
    (query_name, offset) ← read_name packet 12
    qtype ← u16_at packet offset
    some (record {
      transaction_id = transaction_id;
      query_name = query_name;
      query_type = qtype_label qtype;
    }))

-- The name and the type of a question, and where the next one starts.
unfoldable pub read_question : Bytes → ℕ → Option (Text × Text × ℕ)
read_question packet offset = do
  (name, next) ← read_name packet offset
  qtype ← u16_at packet next
  some (name, qtype_label qtype, next + 4)

-- The questions that are left; the first one read, if any, is kept.
unfoldable pub read_questions :
    ℕ → Bytes → ℕ → Option (Text × Text) → Option (Option (Text × Text) × ℕ)
read_questions zero packet offset first = some (first, offset)
read_questions (suc left) packet offset first = elim (read_question packet offset) [
  | none ↦ none
  | some (name, qtype, next) ↦
      read_questions left packet next
        (elim first [ none ↦ some (name, qtype) | some kept ↦ some kept ])
]

answer_ip : ℕ → Bytes → List IpAddr
answer_ip answer_type bytes =
    if answer_type == 1
    then (if length bytes == 4 then v4 bytes ∷ [] else [])
    else if answer_type == 28
    then (if length bytes == 16 then v6 bytes ∷ [] else [])
    else []

-- The addresses of one answer, and where the next one starts.
unfoldable pub read_answer : Bytes → ℕ → Option (List IpAddr × ℕ)
unfolding answer_ip
read_answer packet offset = do
  (name, next) ← read_name packet offset
  answer_type ← u16_at packet next
  data_len ← u16_at packet (next + 8)
  bytes ← get_range packet (next + 10) data_len
  some (answer_ip answer_type bytes, next + 10 + data_len)

unfoldable pub read_answers : ℕ → Bytes → ℕ → List IpAddr → Option (List IpAddr)
read_answers zero packet offset ips = some ips
read_answers (suc left) packet offset ips = elim (read_answer packet offset) [
  | none ↦ none
  | some (more, next) ↦ read_answers left packet next (ips ++ more)
]

abbrev name_of : Option (Text × Text) → Option Text
name_of none = none
name_of (some (name, qtype)) = some name

abbrev type_of : Option (Text × Text) → Option Text
type_of none = none
type_of (some (name, qtype)) = some qtype

unfoldable pub sniff_dns_response : Bytes → Option DnsResponseInfo
sniff_dns_response packet = do
  transaction_id ← u16_at packet 0
  qdcount ← u16_at packet 4
  ancount ← u16_at packet 6
  (first, offset) ← read_questions qdcount packet 12 none
  answer_ips ← read_answers ancount packet offset []
  some (record {
    transaction_id = transaction_id;
    query_name = name_of first;
    query_type = type_of first;
    answer_ips = answer_ips;
  })
