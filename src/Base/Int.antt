-- ===== src/Base/Int.antt =====
-- Signed integers over the native numbers, with their order. `negsuc n` is -(n + 1).
use Prim.Native.Nat.{ℕ, compare, Ordering, lt, eq, gt}
use mathlib.Core.Path.{◌≡◌}
use native.Mathlib.Omega.{arith}
use dynet.Base.Order.{Ord, reverse}

pub data ℤ : Type 0 where
  pos : ℕ → ℤ
  negsuc : ℕ → ℤ

abbrev pub compare_int : ℤ → ℤ → Ordering
compare_int (pos a) (pos b) = compare a b
compare_int (pos a) (negsuc b) = gt
compare_int (negsuc a) (pos b) = lt
compare_int (negsuc a) (negsuc b) = compare b a

pub compare_int_refl : (a : ℤ) → compare_int a a ≡ eq
compare_int_refl a = ground arith

pub compare_int-eq : (a b : ℤ) → compare_int a b ≡ eq → a ≡ b
compare_int-eq a b h = ground arith

pub compare_int_swap : (a b : ℤ) → compare_int b a ≡ reverse (compare_int a b)
compare_int_swap a b = ground arith

pub compare_int_trans :
    (a b c : ℤ) → compare_int a b ≡ lt → compare_int b c ≡ lt → compare_int a c ≡ lt
compare_int_trans a b c h k = ground arith

instance abbrev pub int_ord : Ord ℤ
int_ord = record {
  cmp = compare_int;
  cmp_refl = compare_int_refl;
  cmp-eq = compare_int-eq;
  cmp_swap = compare_int_swap;
  cmp_trans = compare_int_trans;
}
