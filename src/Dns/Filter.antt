-- ===== src/Dns/Filter.antt =====
-- `apply_ipv6_dns_filter` of dns.rs: what is left of a response, and when it panics.
use dynet.Base.{
  ℕ, zero, suc, ◌+◌, ◌≤◌, ◌<◌, ◌≡◌, ◌≢◌, ◌↔◌, refl, ◌⊎◌, inl, inr, List, [], Option, none, some,
  length, ltb, leb, ltb→ge, ltb→lt, leb→le, Bool-cases, Option-cases, arith, sym, ◌∙◌, subst,
}
use dynet.Base.Net.{Bytes}
use dynet.Base.Outcome.{panic}
use dynet.Dns.{
  u16_at, skip_questions, dns_question_end, filter_response, read_name, walk_name, name_fuel,
}
use dynet.Dns.Names.{get_elem?-some_lt, read_name-EndsWithin}
use dynet.Base.{ap, get_elem?}
use dynet.Base.Text.{Text}

u16_at-some_le :
    (packet : Bytes) (offset : ℕ) {n : ℕ}
    → u16_at packet offset ≡ some n
    → offset + 2 ≤ length packet
unfolding u16_at
u16_at-some_le packet offset h = elim (Bool-cases (leb (offset + 2) (length packet))) [
  | inl e ↦ leb→le (offset + 2) (length packet) e
  | inr e ↦ absurd (ground (arith, h, e))
]

walk_name-some_lt :
    (fuel : ℕ) (packet : Bytes) (cursor : ℕ) (next : Option ℕ) (jumps : ℕ) (labels : List Text)
    {r : Text × ℕ}
    → walk_name fuel packet cursor next jumps labels ≡ some (some r)
    → cursor < length packet
unfolding walk_name
walk_name-some_lt zero packet cursor next jumps labels h = cc
walk_name-some_lt (suc fuel) packet cursor next jumps labels h =
    elim (Option-cases (get_elem? packet cursor)) [
      | inl e ↦ absurd (ground (arith, h, e))
      | inr (size, e) ↦ get_elem?-some_lt packet cursor e
    ]

read_name-some_lt :
    (packet : Bytes) (offset : ℕ) {r : Text × ℕ}
    → read_name packet offset ≡ some r
    → offset < length packet
read_name-some_lt packet offset {r} h =
    let (found, walked, read, within) = read_name-EndsWithin packet offset in
    walk_name-some_lt (name_fuel packet) packet offset none 0 [] (walked ∙ ap some (sym read ∙ h))

-- A question that is there reaches beyond the header.
skip_questions-some :
    (left : ℕ) (packet : Bytes) (offset : ℕ) {end : ℕ}
    → skip_questions left packet offset ≡ some end
    → ((left ≡ 0) × (end ≡ offset)) ⊎ (offset < length packet)
unfolding skip_questions
skip_questions-some zero packet offset h = inl (refl, ground (arith, h))
skip_questions-some (suc left) packet offset h = elim (Option-cases (read_name packet offset)) [
  | inl e ↦ absurd (ground (arith, h, e))
  | inr (r, e) ↦ inr (read_name-some_lt packet offset e)
]

no_questions : (response : Bytes) → skip_questions 0 response 12 ≢ none
unfolding skip_questions
no_questions response h = cc

no_count :
    (qdcount : ℕ) (response : Bytes) {end : ℕ}
    → skip_questions qdcount response 12 ≡ some end
    → length response < 12
    → qdcount ≡ 0
no_count qdcount response s short = elim (skip_questions-some qdcount response 12 s) [
  | inl (z, _) ↦ z
  | inr long ↦ absurd (omega (arith, short, long))
]

-- Filtering a response panics exactly if it is shorter than its header and has a question count,
-- which is zero.
pub filter_response-panic_iff :
    (response : Bytes)
    → (filter_response response ≡ panic) ↔ ((length response < 12) × (u16_at response 4 ≡ some 0))
unfolding filter_response dns_question_end
filter_response-panic_iff response = elim (Option-cases (u16_at response 4)) [
  | inl e ↦ (λ h. absurd (ground (arith, h, e)), λ (short, q). cc (e, q))
  | inr (qdcount, e) ↦ elim (Option-cases (skip_questions qdcount response 12)) [
    | inl s ↦ (
      λ h. absurd (ground (arith, e, s, h)),
      λ (short, q).
          let zero_count : qdcount ≡ 0 = cc (e, q) in
          let skipped : skip_questions 0 response 12 ≡ none =
            subst (λ n. skip_questions n response 12 ≡ none) zero_count s in
          absurd (no_questions response skipped),
    )
    | inr (end, s) ↦ elim (Bool-cases (ltb (length response) 12)) [
      | inl short ↦ (
        λ _. (
          ltb→lt (length response) 12 short,
          e ∙ ap some (no_count qdcount response s (ltb→lt (length response) 12 short)),
        ),
        λ _. ground (arith, e, s, short),
      )
      | inr long ↦ (
        λ h. absurd (ground (arith, e, s, long, h)),
        λ (short, _). absurd (omega (arith, short, ltb→ge (length response) 12 long)),
      )
    ]
  ]
]
