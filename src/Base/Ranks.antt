-- ===== src/Base/Ranks.antt =====
-- Orders in their own terms, apart from the comparisons that the code makes: of texts by their bytes,
-- of signed integers, and of two's complement residues.
use Prim.Native.Nat.{ℕ, ◌+◌, ◌-◌, ◌%◌, ◌<◌, Ordering, lt, eq, gt}
use mathlib.Core.Path.{◌≡◌, refl, ap}
use mathlib.Core.Logic.{◌⊎◌, inl, inr}
use mathlib.Core.Bool.{true}
use mathlib.Core.List.{List, [], ◌∷◌}
use native.Mathlib.Omega.{arith}
use dynet.Base.Tests.{ltb, ltb→lt, ltb→ge, if◌then◌else◌, Bool-cases}
use dynet.Base.Int.{ℤ, pos, negsuc, int_ord}
use dynet.Base.Order.{Ord, nat_ord, list_ord, cmp, then_with, is_le}

-- A text is no later than another: it is a prefix of it, or has the lesser byte where they differ.
abbrev pub AtMost : List ℕ → List ℕ → Type 0
AtMost [] t = Unit {0}
AtMost (c ∷ s) [] = ⊥
AtMost (c ∷ s) (d ∷ t) = (c < d) ⊎ ((c ≡ d) × AtMost s t)

-- A signed integer is less than another.
abbrev pub Less : ℤ → ℤ → Type 0
Less (pos a) (pos b) = a < b
Less (pos a) (negsuc b) = ⊥
Less (negsuc a) (pos b) = Unit {0}
Less (negsuc a) (negsuc b) = b < a

-- The signed integer that a residue modulo 2 ^ 64 stands for.
abbrev pub signed : ℕ → ℤ
signed n =
    if ltb (n % 18446744073709551616) 9223372036854775808
    then pos (n % 18446744073709551616)
    else negsuc (18446744073709551615 - n % 18446744073709551616)

-- What two comparisons, one after the other, say.
pub then_with-le {ℓ} :
    {A : Type ℓ} ⦃o : Ord A⦄ (a b : A) (r : Ordering)
    → is_le (then_with (cmp a b) r) ≡ true
    → (cmp a b ≡ lt) ⊎ ((a ≡ b) × (is_le r ≡ true))
then_with-le ⦃o⦄ a b r h = go (cmp a b) refl
  where
    go : (q : Ordering) → cmp a b ≡ q → (cmp a b ≡ lt) ⊎ ((a ≡ b) × (is_le r ≡ true))
    go lt e = inl e
    go eq e = inr (o.cmp-eq a b e, (rw e at h))
    go gt e = cc (h, ap (λ q. is_le (then_with q r)) e)

pub compare-lt : (a b : ℕ) → cmp a b ≡ lt → a < b
compare-lt a b h = ground arith

pub cmp-Less : (a b : ℤ) → cmp a b ≡ lt → Less a b
cmp-Less (pos a) (pos b) h = compare-lt a b h
cmp-Less (pos a) (negsuc b) h = cc
cmp-Less (negsuc a) (pos b) h = tt
cmp-Less (negsuc a) (negsuc b) h = compare-lt b a h

pub cmp-AtMost : (a b : List ℕ) → is_le (cmp a b) ≡ true → AtMost a b
cmp-AtMost [] b h = tt
cmp-AtMost (c ∷ s) [] h = cc
cmp-AtMost (c ∷ s) (d ∷ t) h = elim (then_with-le c d (cmp s t) h) [
  | inl l ↦ inl (compare-lt c d l)
  | inr (e, r) ↦ inr (e, cmp-AtMost s t r)
]

pub biased-Less :
    (a b : ℕ)
    → (a + 9223372036854775808) % 18446744073709551616
      < (b + 9223372036854775808) % 18446744073709551616
    → Less (signed a) (signed b)
biased-Less a b h = elim (Bool-cases (ltb (a % 18446744073709551616) 9223372036854775808)) [
  | inl e ↦ elim (Bool-cases (ltb (b % 18446744073709551616) 9223372036854775808)) [
    | inl f ↦ rw (e, f) (omega (arith, h, ltb→lt _ _ e, ltb→lt _ _ f))
    | inr f ↦ absurd (omega (arith, h, ltb→lt _ _ e, ltb→ge _ _ f))
  ]
  | inr e ↦ elim (Bool-cases (ltb (b % 18446744073709551616) 9223372036854775808)) [
    | inl f ↦ rw (e, f) tt
    | inr f ↦ rw (e, f) (omega (arith, h, ltb→ge _ _ e, ltb→ge _ _ f))
  ]
]

pub biased-signed :
    (a b : ℕ)
    → (a + 9223372036854775808) % 18446744073709551616
      ≡ (b + 9223372036854775808) % 18446744073709551616
    → signed a ≡ signed b
biased-signed a b h =
    let same : a % 18446744073709551616 ≡ b % 18446744073709551616 = omega (arith, h) in
    rw same refl
