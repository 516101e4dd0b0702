-- ===== src/Base/Order.antt =====
-- `Ord`: three-way comparison with its laws, its instances on numbers, pairs and lists, and
-- `sort_by`, a stable sort.
use Prim.Native.Nat.{ℕ, compare, Ordering, lt, eq, gt}
use mathlib.Core.Path.{◌≡◌, refl, sym, ap}
use mathlib.Core.Logic.{◌⊎◌, inl, inr}
use mathlib.Core.Bool.{Bool, true, false}
use mathlib.Core.List.{List, [], ◌∷◌}
use native.Mathlib.Omega.{arith}

abbrev pub reverse : Ordering → Ordering
reverse lt = gt
reverse eq = eq
reverse gt = lt

-- `a.cmp(b).then_with(|| …)`
abbrev pub then_with : Ordering → Ordering → Ordering
then_with lt o = lt
then_with eq o = o
then_with gt o = gt

abbrev pub is_eq : Ordering → Bool
is_eq eq = true
is_eq _ = false

abbrev pub is_le : Ordering → Bool
is_le gt = false
is_le _ = true

pub record Ord {ℓ} (A : Type ℓ) : Type ℓ where
  pub cmp : A → A → Ordering
  pub cmp_refl : (a : A) → cmp a a ≡ eq
  pub cmp-eq : (a b : A) → cmp a b ≡ eq → a ≡ b
  pub cmp_swap : (a b : A) → cmp b a ≡ reverse (cmp a b)
  pub cmp_trans : (a b c : A) → cmp a b ≡ lt → cmp b c ≡ lt → cmp a c ≡ lt

abbrev pub cmp {ℓ} : {A : Type ℓ} ⦃o : Ord A⦄ → A → A → Ordering
cmp ⦃o⦄ = o.cmp

pub compare_refl : (a : ℕ) → compare a a ≡ eq
compare_refl a = ground arith

pub compare-eq : (a b : ℕ) → compare a b ≡ eq → a ≡ b
compare-eq a b h = ground arith

pub compare_swap : (a b : ℕ) → compare b a ≡ reverse (compare a b)
compare_swap a b = ground arith

pub compare_trans : (a b c : ℕ) → compare a b ≡ lt → compare b c ≡ lt → compare a c ≡ lt
compare_trans a b c h k = ground arith

instance abbrev pub nat_ord : Ord ℕ
nat_ord = record {
  cmp = compare;
  cmp_refl = compare_refl;
  cmp-eq = compare-eq;
  cmp_swap = compare_swap;
  cmp_trans = compare_trans;
}

-- `≤`, as a test on the comparison.
module _ {ℓ} {A : Type ℓ} ⦃o : Ord A⦄ where
  pub is_le-cases : (a b : A) → is_le (cmp a b) ≡ true → (cmp a b ≡ lt) ⊎ (a ≡ b)
  is_le-cases a b h = go (cmp a b) refl
    where
      go : (r : Ordering) → cmp a b ≡ r → (cmp a b ≡ lt) ⊎ (a ≡ b)
      go lt e = inl e
      go eq e = inr (o.cmp-eq a b e)
      go gt e = cc (h, ap is_le e)

  pub is_le_refl : (a : A) → is_le (cmp a a) ≡ true
  is_le_refl a = rw (o.cmp_refl a) refl

  pub is_le_total : (a b : A) → is_le (cmp a b) ≡ false → is_le (cmp b a) ≡ true
  is_le_total a b h = rw (o.cmp_swap a b) (go (cmp a b) refl)
    where
      go : (r : Ordering) → cmp a b ≡ r → is_le (reverse r) ≡ true
      go lt e = cc (h, ap is_le e)
      go eq e = refl
      go gt e = refl

  pub is_le_trans :
      (a b c : A) → is_le (cmp a b) ≡ true → is_le (cmp b c) ≡ true → is_le (cmp a c) ≡ true
  is_le_trans a b c h k = elim (is_le-cases a b h) [
    | inl l ↦ elim (is_le-cases b c k) [
      | inl m ↦ rw (o.cmp_trans a b c l m) refl
      | inr e ↦ rw (← e) h
    ]
    | inr e ↦ rw e k
  ]

-- A comparison followed by another is transitive if both are.
module _ {ℓ} {A : Type ℓ} ⦃o : Ord A⦄ where
  then_with_cases :
      (a b : A) (p : Ordering) → then_with (cmp a b) p ≡ lt → (cmp a b ≡ lt) ⊎ ((a ≡ b) × (p ≡ lt))
  then_with_cases a b p h = go (cmp a b) refl
    where
      go : (r : Ordering) → cmp a b ≡ r → (cmp a b ≡ lt) ⊎ ((a ≡ b) × (p ≡ lt))
      go lt e = inl e
      go eq e = inr (o.cmp-eq a b e, (rw e at h))
      go gt e = cc (h, ap (λ r. then_with r p) e)

  then_with_trans :
      (a b c : A) (p q r : Ordering)
      → then_with (cmp a b) p ≡ lt
      → then_with (cmp b c) q ≡ lt
      → (p ≡ lt → q ≡ lt → r ≡ lt)
      → then_with (cmp a c) r ≡ lt
  then_with_trans a b c p q r h k t = elim (then_with_cases a b p h) [
    | inl l ↦ elim (then_with_cases b c q k) [
      | inl m ↦ rw (o.cmp_trans a b c l m) refl
      | inr (e, _) ↦ rw (← e) (rw l refl)
    ]
    | inr (e, pl) ↦ elim (then_with_cases b c q k) [
      | inl m ↦ rw e (rw m refl)
      | inr (e', ql) ↦ rw (e, e') (rw (o.cmp_refl c) (t pl ql))
    ]
  ]

module _ {ℓ} {A : Type ℓ} ⦃o : Ord A⦄ where
  abbrev pub lex : List A → List A → Ordering
  lex [] [] = eq
  lex [] (y ∷ ys) = lt
  lex (x ∷ xs) [] = gt
  lex (x ∷ xs) (y ∷ ys) = then_with (cmp x y) (lex xs ys)

  pub lex_refl : (xs : List A) → lex xs xs ≡ eq
  lex_refl [] = refl
  lex_refl (x ∷ xs) = rw (o.cmp_refl x) (lex_refl xs)

  pub lex-eq : (xs ys : List A) → lex xs ys ≡ eq → xs ≡ ys
  lex-eq [] [] h = refl
  lex-eq [] (y ∷ ys) h = cc
  lex-eq (x ∷ xs) [] h = cc
  lex-eq (x ∷ xs) (y ∷ ys) h = ground (arith, o.cmp-eq x y, lex-eq xs ys)

  pub lex_swap : (xs ys : List A) → lex ys xs ≡ reverse (lex xs ys)
  lex_swap [] [] = refl
  lex_swap [] (y ∷ ys) = refl
  lex_swap (x ∷ xs) [] = refl
  lex_swap (x ∷ xs) (y ∷ ys) = ground (arith, o.cmp_swap x y, lex_swap xs ys)

  pub lex_trans : (xs ys zs : List A) → lex xs ys ≡ lt → lex ys zs ≡ lt → lex xs zs ≡ lt
  lex_trans [] [] zs h k = cc
  lex_trans [] (y ∷ ys) [] h k = cc
  lex_trans [] (y ∷ ys) (z ∷ zs) h k = refl
  lex_trans (x ∷ xs) [] zs h k = cc
  lex_trans (x ∷ xs) (y ∷ ys) [] h k = cc
  lex_trans (x ∷ xs) (y ∷ ys) (z ∷ zs) h k = then_with_trans x y z _ _ _ h k (lex_trans xs ys zs)

instance abbrev pub list_ord {ℓ} : {A : Type ℓ} ⦃o : Ord A⦄ → Ord (List A)
list_ord = record {
  cmp = lex;
  cmp_refl = lex_refl;
  cmp-eq = lex-eq;
  cmp_swap = lex_swap;
  cmp_trans = lex_trans;
}

-- `==` of a type with an order.
abbrev pub eqb {ℓ} : {A : Type ℓ} ⦃o : Ord A⦄ → A → A → Bool
eqb a b = is_eq (cmp a b)

module _ {ℓ} {A : Type ℓ} ⦃o : Ord A⦄ where
  pub eqb_refl : (a : A) → eqb a a ≡ true
  eqb_refl a = rw (o.cmp_refl a) refl

  pub eqb-eq : (a b : A) → eqb a b ≡ true → a ≡ b
  eqb-eq a b h = go (cmp a b) refl
    where
      go : (r : Ordering) → cmp a b ≡ r → a ≡ b
      go lt e = cc (h, ap is_eq e)
      go eq e = o.cmp-eq a b e
      go gt e = cc (h, ap is_eq e)

-- Tuples compare from the left.
module _ {ℓ κ} {A : Type ℓ} {B : Type κ} ⦃o : Ord A⦄ ⦃q : Ord B⦄ where
  abbrev pub pair_cmp : A × B → A × B → Ordering
  pair_cmp (a, b) (c, d) = then_with (cmp a c) (cmp b d)

  pub pair_cmp_refl : (a : A × B) → pair_cmp a a ≡ eq
  pair_cmp_refl (a, b) = rw (o.cmp_refl a) (q.cmp_refl b)

  pub pair_cmp-eq : (a b : A × B) → pair_cmp a b ≡ eq → a ≡ b
  pair_cmp-eq (a, b) (c, d) h = ground (arith, o.cmp-eq a c, q.cmp-eq b d)

  pub pair_cmp_swap : (a b : A × B) → pair_cmp b a ≡ reverse (pair_cmp a b)
  pair_cmp_swap (a, b) (c, d) = ground (arith, o.cmp_swap a c, q.cmp_swap b d)

  pub pair_cmp_trans : (a b c : A × B) → pair_cmp a b ≡ lt → pair_cmp b c ≡ lt → pair_cmp a c ≡ lt
  pair_cmp_trans (a, b) (c, d) (e, f) h k = then_with_trans a c e _ _ _ h k (q.cmp_trans b d f)

instance abbrev pub pair_ord {ℓ κ} : {A : Type ℓ} {B : Type κ} ⦃o : Ord A⦄ ⦃q : Ord B⦄ → Ord (A × B)
pair_ord = record {
  cmp = pair_cmp;
  cmp_refl = pair_cmp_refl;
  cmp-eq = pair_cmp-eq;
  cmp_swap = pair_cmp_swap;
  cmp_trans = pair_cmp_trans;
}

-- The opposite order, for a comparison of `right` with `left`.
abbrev pub reversed {ℓ} : {A : Type ℓ} → Ord A → Ord A
reversed o = record {
  cmp = λ a b. o.cmp b a;
  cmp_refl = o.cmp_refl;
  cmp-eq = λ a b h. sym (o.cmp-eq b a h);
  cmp_swap = λ a b. o.cmp_swap b a;
  cmp_trans = λ a b c h k. o.cmp_trans c b a k h;
}
