-- ===== src/Dns/Tests.antt =====
-- The DNS messages of dns.rs on concrete bytes, and the theorems at them.
use dynet.Base.{ℕ, ◌≡◌, ◌<◌, ◌↔◌, refl, [], ◌∷◌, ◌++◌, Option, none, some, length, replicate}
use dynet.Base.Net.{Bytes}
use dynet.Base.Outcome.{panic}
use dynet.Base.Text.{Text, text, to_ascii_lowercase, is_utf8}
use dynet.Dns.{
  get_range, u16_at, walk_name, name_fuel, read_name, dns_question_end, filter_response,
  skip_questions,
}
use dynet.Dns.Sniff.{sniff_dns_response, read_questions, read_answers, sniff_dns_query, qtype_label}
use dynet.Dns.Names.{EndsWithin, read_name-EndsWithin}
use dynet.Dns.Filter.{filter_response-panic_iff}

-- A header with one question, and the question for Ab.c.
abbrev question : Bytes
question =
    0 ∷ 7 ∷ 1 ∷ 0 ∷ 0 ∷ 1 ∷ 0 ∷ 0 ∷ 0 ∷ 0 ∷ 0 ∷ 0 ∷ 2 ∷ b'A' ∷ b'b' ∷ 1 ∷ b'c' ∷ 0 ∷ 0 ∷ 28 ∷ 0 ∷ 1
    ∷ []

name : read_name question 12 ≡ some (text "ab.c", 18)
unfolding read_name walk_name get_range is_utf8 to_ascii_lowercase
name = refl

question_end : dns_question_end question ≡ some 22
unfolding dns_question_end u16_at skip_questions read_name walk_name get_range is_utf8
    to_ascii_lowercase
question_end = refl

abbrev cyclic : Bytes
cyclic = replicate 12 0 ++ 0xc0 ∷ 12 ∷ []

read_name-EndsWithin_example :
    (r : Option (Text × ℕ)) × (walk_name (name_fuel cyclic) cyclic 12 none 0 [] ≡ some r)
    × (read_name cyclic 12 ≡ r)
    × EndsWithin (length cyclic) r
read_name-EndsWithin_example = read_name-EndsWithin cyclic 12

-- Eight bytes without questions and answers: a response that is shorter than its header.
abbrev short : Bytes
short = 0 ∷ 7 ∷ 1 ∷ 0 ∷ 0 ∷ 0 ∷ 0 ∷ 0 ∷ []

short_panics : filter_response short ≡ panic
unfolding filter_response dns_question_end u16_at get_range skip_questions
short_panics = refl

filter_response-panic_iff_example :
    (filter_response short ≡ panic) ↔ ((length short < 12) × (u16_at short 4 ≡ some 0))
filter_response-panic_iff_example = filter_response-panic_iff short

-- It passes for a response all the same.
short_response :
    sniff_dns_response short
    ≡ some (record { transaction_id = 7; query_name = none; query_type = none; answer_ips = [] })
unfolding sniff_dns_response read_questions read_answers u16_at get_range
short_response = refl

query :
    sniff_dns_query question
    ≡ some (record { transaction_id = 7; query_name = text "ab.c"; query_type = text "AAAA" })
unfolding sniff_dns_query read_name walk_name u16_at get_range is_utf8 to_ascii_lowercase
    qtype_label
query = refl
