-- ===== src/Base/Outcome.antt =====
-- What a call gives in Rust: a value, an error that it returns, or a panic. Slices are indexed
-- with the bounds checks that the language makes.
use Prim.Native.Nat.{ℕ, ◌+◌, ◌-◌, ◌≤◌, ◌<◌}
use mathlib.Core.Path.{◌≡◌, refl, ap, ◌∙◌}
use mathlib.Core.Bool.{◌||◌}
use mathlib.Core.List.{List, ◌++◌}
use mathlib.Core.Option.{Option, none, some}
use native.Mathlib.Omega.{arith}
use dynet.Base.Tests.{ltb, ge→ltb, if◌then◌else◌}
use dynet.Base.Lists.{
  length, get_elem?, take, drop, get_elem?-lt, length-append, drop-append, take-append,
}

pub data Outcome {ℓ κ} (E : Type ℓ) (A : Type κ) : Type (ℓ ⊔ κ) where
  ok : A → Outcome E A
  err : E → Outcome E A
  panic : Outcome E A

infixl 5 ◌>>=◌ ◌>>◌
abbrev pub ◌>>=◌ {ℓ κ ι} :
    {E : Type ℓ} {A : Type κ} {B : Type ι} → Outcome E A → (A → Outcome E B) → Outcome E B
ok a >>= f = f a
err e >>= f = err e
panic >>= f = panic

abbrev pub ◌>>◌ {ℓ κ ι} :
    {E : Type ℓ} {A : Type κ} {B : Type ι} → Outcome E A → Outcome E B → Outcome E B
m >> k = m >>= λ _. k

cancel : (a b : ℕ) → a + b - a ≡ b
cancel a b = omega arith

module _ {ℓ κ} {E : Type ℓ} {A : Type κ} where
  -- `option.ok_or(error)?`
  abbrev pub ok_or : E → Option A → Outcome E A
  ok_or e (some a) = ok a
  ok_or e none = err e

  -- `option.expect(…)`
  abbrev pub expect : Option A → Outcome E A
  expect (some a) = ok a
  expect none = panic

  -- `values[i]`
  unfoldable pub index : List A → ℕ → Outcome E A
  index xs i = expect (get_elem? xs i)

  -- `values[from..to]`
  unfoldable pub slice : List A → ℕ → ℕ → Outcome E (List A)
  slice xs from to =
      if ltb to from || ltb (length xs) to then panic else ok (take (to - from) (drop from xs))

  pub index-lt : (xs : List A) (i : ℕ) → i < length xs → (a : A) × (index xs i ≡ ok a)
  unfolding index
  index-lt xs i h = let (a, e) = get_elem?-lt xs i h in (a, ap expect e)

  pub slice-le :
      (xs : List A) (from to : ℕ)
      → from ≤ to
      → to ≤ length xs
      → slice xs from to ≡ ok (take (to - from) (drop from xs))
  unfolding slice
  slice-le xs from to h k = rw (ge→ltb to from h, ge→ltb (length xs) to k) refl

  -- The middle of three parts.
  pub slice-append :
      (xs ys zs : List A) (from to : ℕ)
      → from ≡ length xs
      → to ≡ length xs + length ys
      → slice (xs ++ (ys ++ zs)) from to ≡ ok ys
  slice-append xs ys zs from to h k =
      rw (h, k)
        (slice-le (xs ++ (ys ++ zs)) (length xs) (length xs + length ys) (omega arith)
            (omega (arith, length-append xs (ys ++ zs), length-append ys zs))
          ∙ ap ok (rw (drop-append xs (ys ++ zs)) middle))
    where
      middle : take (length xs + length ys - length xs) (ys ++ zs) ≡ ys
      middle = rw (cancel (length xs) (length ys)) (take-append ys zs)
