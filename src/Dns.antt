-- ===== src/Dns.antt =====
-- crates/dynet-runtime/src/dns.rs: names in DNS messages, the end of the questions, and the filter
-- that empties a refused AAAA response. Offsets do not overflow: they stay near the packet.
pub mod Names
pub mod Filter
pub mod Sniff
pub mod Tests
use dynet.Base.{
  ℕ, zero, suc, ◌+◌, ◌*◌, ◌%◌, ◌≡◌, refl, Bool, true, false, List, [], ◌∷◌, ◌++◌, Option, none,
  some, length, get_elem?, take, drop, replicate, ltb, leb, ◌==◌, if◌then◌else◌,
}
use dynet.Base.Net.{Bytes, be16}
use dynet.Base.Opt.{get_or}
use dynet.Base.Outcome.{Outcome, ok, err, panic}
use dynet.Base.Text.{Text, text, to_ascii_lowercase, is_utf8}

-- `packet.get(start..end)`, for a start before the end.
unfoldable pub get_range : Bytes → ℕ → ℕ → Option Bytes
get_range packet start size =
    if leb (start + size) (length packet) then some (take size (drop start packet)) else none

unfoldable pub u16_at : Bytes → ℕ → Option ℕ
unfolding get_range
u16_at packet offset = elim (get_range packet offset 2) [
  | some (high ∷ low ∷ []) ↦ some (be16 high low)
  | _ ↦ none
]

join_dots : List Text → Text
join_dots [] = []
join_dots (label ∷ []) = label
join_dots (label ∷ other ∷ labels) = label ++ b'.' ∷ join_dots (other ∷ labels)

-- The loop of `read_name`; the outer `none` means that the fuel ran out.
unfoldable pub walk_name : ℕ → Bytes → ℕ → Option ℕ → ℕ → List Text → Option (Option (Text × ℕ))
unfolding join_dots
walk_name zero packet cursor next_offset jumps labels = none
walk_name (suc fuel) packet cursor next_offset jumps labels = elim (get_elem? packet cursor) [
  | none ↦ some none
  | some size ↦ elim (leb 192 size) [
    | true ↦ elim (get_elem? packet (cursor + 1)) [
      | none ↦ some none
      | some low ↦ elim (ltb 8 (jumps + 1)) [
        | true ↦ some none
        | false ↦
            walk_name fuel packet (be16 (size % 64) low) (some (get_or next_offset (cursor + 2)))
              (jumps + 1) labels
      ]
    ]
    | false ↦ elim (size == 0) [
      | true ↦ some (some (join_dots labels, get_or next_offset (cursor + 1)))
      | false ↦ elim (get_range packet (cursor + 1) size) [
        | none ↦ some none
        | some label ↦ elim (is_utf8 label) [
          | true ↦
              walk_name fuel packet (cursor + 1 + size) next_offset jumps
                (labels ++ (to_ascii_lowercase label ∷ []))
          | false ↦ some none
        ]
      ]
    ]
  ]
]

-- At most eight jumps, and each stretch between them passes the packet once at most.
abbrev pub name_fuel : Bytes → ℕ
name_fuel packet = 9 * (length packet + 1)

unfoldable pub read_name : Bytes → ℕ → Option (Text × ℕ)
read_name packet offset = elim (walk_name (name_fuel packet) packet offset none 0 []) [
  | none ↦ none
  | some name ↦ name
]

-- The loop of `dns_question_end` over the questions that are left.
unfoldable pub skip_questions : ℕ → Bytes → ℕ → Option ℕ
skip_questions zero packet offset = some offset
skip_questions (suc left) packet offset = elim (read_name packet offset) [
  | none ↦ none
  | some (name, next) ↦ elim (leb (next + 4) (length packet)) [
    | true ↦ skip_questions left packet (next + 4)
    | false ↦ none
  ]
]

unfoldable pub dns_question_end : Bytes → Option ℕ
dns_question_end packet = elim (u16_at packet 4) [
  | none ↦ none
  | some qdcount ↦ skip_questions qdcount packet 12
]

pub data DnsResolveError : Type 0 where
  malformed_aaaa : DnsResolveError

-- What `apply_ipv6_dns_filter` makes of the bytes of a response.
unfoldable pub filter_response : Bytes → Outcome DnsResolveError Bytes
filter_response response = elim (dns_question_end response) [
  | none ↦ err malformed_aaaa
  | some question_end ↦
      if ltb (length response) 12
      then panic
      else ok (take question_end (take 6 response ++ replicate 6 0 ++ drop 12 response))
]
