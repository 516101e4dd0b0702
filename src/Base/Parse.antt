-- ===== src/Base/Parse.antt =====
-- `FromStr` of the standard library for the numbers and addresses that the program parses: a reader
-- takes a text and gives a value with what is left of it.
use Prim.Native.Nat.{ℕ, zero, suc, ◌+◌, ◌-◌, ◌*◌, ◌/◌, ◌%◌}
use mathlib.Core.Path.{◌≡◌, refl}
use mathlib.Core.Bool.{Bool, true, false, not, ◌&&◌, ◌||◌}
use mathlib.Core.Option.{Option, none, some}
use mathlib.Core.List.{List, [], ◌∷◌, ◌++◌}
use dynet.Base.Tests.{ltb, leb, ◌==◌, if◌then◌else◌}
use dynet.Base.Lists.{length, replicate}
use dynet.Base.Net.{Bytes, IpAddr, v4, v6, be16_bytes}
use dynet.Base.Text.{Text, text}

abbrev Reader : Type 0 → Type 0
Reader A = Text → Option (A × Text)

infixl 5 ◌>>=◌
abbrev ◌>>=◌ : {A B : Type 0} → Option A → (A → Option B) → Option B
none >>= f = none
some a >>= f = f a

-- `char::to_digit`
to_digit : ℕ → ℕ → Option ℕ
to_digit radix c =
    let value =
      if leb b'0' c && leb c b'9'
      then c - b'0'
      else if leb b'a' c && leb c b'z'
      then c - b'a' + 10
      else if leb b'A' c && leb c b'Z'
      then c - b'A' + 10
      else 255 in
    if ltb value radix then some value else none

-- The digits of `Parser::read_number`: at most `digits` of them, below `bound`.
read_digits : ℕ → ℕ → ℕ → ℕ → ℕ → Text → Option (ℕ × ℕ × Text)
read_digits radix digits bound value count [] = some (value, count, [])
read_digits radix digits bound value count (c ∷ t) = elim (to_digit radix c) [
  | none ↦ some (value, count, c ∷ t)
  | some d ↦
      if ltb (value * radix + d) bound && leb (count + 1) digits
      then read_digits radix digits bound (value * radix + d) (count + 1) t
      else none
]

starts_with_zero : Text → Bool
starts_with_zero [] = false
starts_with_zero (c ∷ t) = c == b'0'

read_number : ℕ → ℕ → ℕ → Bool → Reader ℕ
read_number radix digits bound allow_zero_prefix t = do
  (value, count, rest) ← read_digits radix digits bound 0 0 t
  if count == 0 || (not allow_zero_prefix && starts_with_zero t && ltb 1 count)
      then none
      else some (value, rest)

read_given_char : ℕ → Text → Option Text
read_given_char c [] = none
read_given_char c (d ∷ t) = if c == d then some t else none

-- `Parser::read_separator`
read_separator : {A : Type 0} → ℕ → ℕ → Reader A → Reader A
read_separator sep zero inner t = inner t
read_separator sep (suc index) inner t = do rest ← read_given_char sep t; inner rest

read_octet : ℕ → Reader ℕ
read_octet index = read_separator b'.' index (read_number 10 3 256 false)

read_ipv4_addr : Reader Bytes
read_ipv4_addr t = do
  (a, t1) ← read_octet 0 t
  (b, t2) ← read_octet 1 t1
  (c, t3) ← read_octet 2 t2
  (d, t4) ← read_octet 3 t3
  some (a ∷ b ∷ c ∷ d ∷ [], t4)

-- `read_groups` with `left` groups to go, of which the one at hand has the given index.
read_groups : ℕ → ℕ → Text → List ℕ × Bool × Text
read_groups zero index t = ([], false, t)
read_groups (suc left) index t =
    let four : Option (Bytes × Text) =
      if ltb 0 left then read_separator b':' index read_ipv4_addr t else none in
    elim four [
      | some (octets, rest) ↦ (pairs octets, true, rest)
      | none ↦ elim (read_separator b':' index (read_number 16 4 65536 true) t) [
        | none ↦ ([], false, t)
        | some (group, rest) ↦
            let (groups, ipv4, end) = read_groups left (suc index) rest in
            (group ∷ groups, ipv4, end)
      ]
    ]
  where
    pairs : Bytes → List ℕ
    pairs (a ∷ b ∷ c ∷ d ∷ r) = (a * 256 + b) ∷ (c * 256 + d) ∷ []
    pairs other = []

group_octets : List ℕ → Bytes
group_octets [] = []
group_octets (g ∷ gs) = be16_bytes g ++ group_octets gs

read_ipv6_addr : Reader Bytes
read_ipv6_addr t =
    let (head, head_ipv4, rest) = read_groups 8 0 t in
    if length head == 8 then some (group_octets head, rest) else if head_ipv4 then none else do
      after ← read_given_char b':' rest
      start ← read_given_char b':' after
      let (tail, tail_ipv4, end) = read_groups (8 - (length head + 1)) 0 start
      some (group_octets (head ++ (replicate (8 - length head - length tail) 0 ++ tail)), end)

at_end : {A : Type 0} → Option (A × Text) → Option A
at_end none = none
at_end (some (a, [])) = some a
at_end (some (a, c ∷ t)) = none

-- `str::parse::<IpAddr>`
unfoldable pub parse_ip : Text → Option IpAddr
unfolding to_digit read_digits starts_with_zero read_number read_given_char read_separator
    read_octet read_ipv4_addr read_groups group_octets read_ipv6_addr at_end
parse_ip t = elim (read_ipv4_addr t) [
  | some (octets, rest) ↦ at_end (some (v4 octets, rest))
  | none ↦ at_end (read_ipv6_addr t >>= λ (octets, rest). some (v6 octets, rest))
]

-- `str::parse` into an unsigned integer below `bound`.
decimal : ℕ → ℕ → Text → Option ℕ
decimal bound value [] = some value
decimal bound value (c ∷ t) = elim (to_digit 10 c) [
  | none ↦ none
  | some d ↦ if ltb (value * 10 + d) bound then decimal bound (value * 10 + d) t else none
]

unfoldable pub parse_unsigned : ℕ → Text → Option ℕ
unfolding to_digit decimal
parse_unsigned bound [] = none
parse_unsigned bound (c ∷ []) = decimal bound 0 (c ∷ [])
parse_unsigned bound (c ∷ d ∷ t) =
    if c == b'+' then decimal bound 0 (d ∷ t) else decimal bound 0 (c ∷ d ∷ t)

-- `str::split_once` at an ASCII byte.
unfoldable pub split_once : ℕ → Text → Option (Text × Text)
split_once sep [] = none
split_once sep (c ∷ t) =
    let rest = split_once sep t in
    if c == sep then some ([], t) else rest >>= λ (a, b). some (c ∷ a, b)

loopback : parse_ip (text "127.0.0.1") ≡ some (v4 (127 ∷ 0 ∷ 0 ∷ 1 ∷ []))
unfolding parse_ip
loopback = refl

padded : parse_ip (text "127.0.0.01") ≡ none
unfolding parse_ip
padded = refl

doc_prefix :
    parse_ip (text "2001:db8::1") ≡ some (v6 (0x20 ∷ 1 ∷ 0xd ∷ 0xb8 ∷ replicate 11 0 ++ 1 ∷ []))
unfolding parse_ip
doc_prefix = refl

mapped :
    parse_ip (text "::ffff:10.0.0.1")
    ≡ some (v6 (replicate 10 0 ++ (255 ∷ 255 ∷ 10 ∷ 0 ∷ 0 ∷ 1 ∷ [])))
unfolding parse_ip
mapped = refl

number : parse_unsigned 256 (text "+32") ≡ some 32
unfolding parse_unsigned
number = refl

-- `to_string` of an unsigned integer: its decimal digits. A number below 10 ^ fuel is written whole.
show_from : ℕ → ℕ → Text
show_from zero n = []
show_from (suc fuel) n =
    let front = show_from fuel (n / 10) in
    if ltb n 10 then (n + b'0') ∷ [] else front ++ ((n % 10 + b'0') ∷ [])

unfoldable pub show_unsigned : ℕ → Text
unfolding show_from
show_unsigned n = show_from 40 n

shown : show_unsigned 18446744073709551615 ≡ text "18446744073709551615"
unfolding show_unsigned
shown = refl
