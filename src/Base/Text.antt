-- ===== src/Base/Text.antt =====
-- `str` and `String` as their UTF-8 bytes: comparison goes by bytes, as in Rust.
use Prim.Native.Char.{code}
use Prim.Native.String.{String}
use Prim.Native.Nat.{ℕ, zero, suc, ◌+◌, ◌-◌, ◌<◌}
use mathlib.Core.Path.{◌≡◌, refl}
use mathlib.Core.Bool.{Bool, true, false, ◌&&◌}
use mathlib.Core.Option.{Option, none, some}
use mathlib.Core.List.{List, [], ◌∷◌, map}
use native.Mathlib.Omega.{arith}
use dynet.Base.Tests.{ltb, leb, ◌==◌, if◌then◌else◌}
use dynet.Base.Lists.{All, length, drop}
use dynet.Base.Order.{nat_ord, list_ord, eqb}

abbrev pub Text : Type 0
Text = List ℕ

-- The bytes of an ASCII literal.
abbrev pub text : String → Text
text String.[] = []
text (String.◌∷◌ c s) = code c ∷ text s

-- `to_ascii_lowercase`
unfoldable pub lower : ℕ → ℕ
lower c = if leb b'A' c && leb c b'Z' then c + 32 else c

unfoldable pub to_ascii_lowercase : Text → Text
unfolding lower
to_ascii_lowercase t = map lower t

unfoldable pub eq_ignore_ascii_case : Text → Text → Bool
unfolding to_ascii_lowercase
eq_ignore_ascii_case a b = eqb (to_ascii_lowercase a) (to_ascii_lowercase b)

unfoldable pub ends_with : Text → Text → Bool
ends_with s suffix =
    leb (length suffix) (length s) && eqb (drop (length s - length suffix) s) suffix

-- `str::from_utf8`: how many continuation bytes a lead byte wants, and the range of the first.
utf8_lead : ℕ → Option (ℕ × ℕ × ℕ)
utf8_lead b =
    if ltb b 0x80
    then some (0, 0x80, 0xbf)
    else if ltb b 0xc2
    then none
    else if ltb b 0xe0
    then some (1, 0x80, 0xbf)
    else if b == 0xe0
    then some (2, 0xa0, 0xbf)
    else if b == 0xed
    then some (2, 0x80, 0x9f)
    else if ltb b 0xf0
    then some (2, 0x80, 0xbf)
    else if b == 0xf0
    then some (3, 0x90, 0xbf)
    else if ltb b 0xf4
    then some (3, 0x80, 0xbf)
    else if b == 0xf4
    then some (3, 0x80, 0x8f)
    else none

utf8_from : ℕ → ℕ → ℕ → List ℕ → Bool
utf8_from zero lo hi [] = true
utf8_from zero lo hi (b ∷ r) = elim (utf8_lead b) [
  | none ↦ false
  | some (n, lo', hi') ↦ utf8_from n lo' hi' r
]
utf8_from (suc n) lo hi [] = false
utf8_from (suc n) lo hi (b ∷ r) = let rest = utf8_from n 0x80 0xbf r in leb lo b && leb b hi && rest

unfoldable pub is_utf8 : List ℕ → Bool
unfolding utf8_lead utf8_from
is_utf8 bytes = utf8_from 0 0x80 0xbf bytes

-- ASCII bytes are UTF-8.
pub IsAscii-is_utf8 : (t : List ℕ) → All (λ b. b < 128) t → is_utf8 t ≡ true
unfolding is_utf8
IsAscii-is_utf8 t h = go t h
  where
    go : (t : List ℕ) → All (λ b. b < 128) t → utf8_from 0 0x80 0xbf t ≡ true
    go [] h = refl
    go (b ∷ r) h = ground (arith, go r h.1)

pub lower_idem : (c : ℕ) → lower (lower c) ≡ lower c
unfolding lower
lower_idem c = ground arith

pub to_ascii_lowercase_idem :
    (t : Text) → to_ascii_lowercase (to_ascii_lowercase t) ≡ to_ascii_lowercase t
unfolding to_ascii_lowercase
to_ascii_lowercase_idem [] = refl
to_ascii_lowercase_idem (c ∷ t) = cc (lower_idem c, to_ascii_lowercase_idem t)

check_utf8 : is_utf8 (0xe2 ∷ 0x82 ∷ 0xac ∷ 0x41 ∷ []) ≡ true
unfolding is_utf8
check_utf8 = refl
