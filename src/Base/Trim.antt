-- ===== src/Base/Trim.antt =====
-- `str::trim` and `str::split`, on the UTF-8 bytes of a text.
use Prim.Native.Nat.{ℕ}
use mathlib.Core.Path.{◌≡◌, refl}
use mathlib.Core.Bool.{Bool, true, false, ◌&&◌, ◌||◌}
use mathlib.Core.List.{List, [], ◌∷◌, ◌++◌, reverse}
use dynet.Base.Tests.{leb, ◌==◌, if◌then◌else◌}
use dynet.Base.Text.{Text, text}

-- The characters with the property White_Space, of one, two and three bytes.
white1 : ℕ → Bool
white1 a = leb 9 a && leb a 13 || a == b' '

white2 : ℕ → ℕ → Bool
white2 a b = a == 0xc2 && (b == 0x85 || b == 0xa0)

white3 : ℕ → ℕ → ℕ → Bool
white3 a b c =
    a == 0xe1 && b == 0x9a && c == 0x80
    || a == 0xe2 && b == 0x80 && (leb 0x80 c && leb c 0x8a || c == 0xa8 || c == 0xa9 || c == 0xaf)
    || a == 0xe2 && b == 0x81 && c == 0x9f
    || a == 0xe3 && b == 0x80 && c == 0x80

-- What is left when the white space at the front is gone; `w2` and `w3` say which two and which
-- three bytes are a white space.
module _ (w2 : ℕ → ℕ → Bool) (w3 : ℕ → ℕ → ℕ → Bool) where
  strip : Text → Text
  strip [] = []
  strip (a ∷ []) = if white1 a then [] else a ∷ []
  strip (a ∷ b ∷ []) = elim (white1 a) [
    | true ↦ strip (b ∷ [])
    | false ↦ if w2 a b then [] else a ∷ b ∷ []
  ]
  strip (a ∷ b ∷ c ∷ t) = elim (white1 a) [
    | true ↦ strip (b ∷ c ∷ t)
    | false ↦ elim (w2 a b) [
      | true ↦ strip (c ∷ t)
      | false ↦ elim (w3 a b c) [ true ↦ strip t | false ↦ a ∷ b ∷ c ∷ t ]
    ]
  ]

unfoldable pub trim : Text → Text
unfolding white1 white2 white3 strip
trim t =
    reverse (strip (λ a b. white2 b a) (λ a b c. white3 c b a) (reverse (strip white2 white3 t)))

-- `split` at an ASCII byte: at least one part, and one more for each separator.
unfoldable pub split_on : ℕ → Text → List Text
split_on sep [] = [] ∷ []
split_on sep (c ∷ t) = before c (c == sep) (split_on sep t)
  where
    before : ℕ → Bool → List Text → List Text
    before c true parts = [] ∷ parts
    before c false [] = []
    before c false (part ∷ parts) = (c ∷ part) ∷ parts

trimmed : trim (text "  a b" ++ 0xc2 ∷ 0xa0 ∷ 9 ∷ []) ≡ text "a b"
unfolding trim
trimmed = refl

parts : split_on b',' (text "a,,b") ≡ text "a" ∷ [] ∷ text "b" ∷ []
unfolding split_on
parts = refl
