-- ===== src/Base/Extremes.antt =====
-- `Iterator::min_by` and `max_by`, and what they choose.
use Prim.Native.Nat.{Ordering}
use mathlib.Core.Path.{◌≡◌, refl, sym, subst}
use mathlib.Core.Logic.{inl, inr}
use mathlib.Core.Bool.{Bool, true}
use mathlib.Core.Option.{Option, none, some}
use mathlib.Core.List.{List, [], ◌∷◌}
use dynet.Base.Tests.{if◌then◌else◌, Bool-cases}
use dynet.Base.Lists.{All, Any}
use dynet.Base.Order.{Ord, is_le, is_le_refl, is_le_trans, is_le_total}
use dynet.Base.Sort.{by_key}

-- `Iterator::min_by` keeps the first of equal elements, `max_by` the last.
module _ {ℓ} {A : Type ℓ} (c : A → A → Ordering) where
  min_from : A → List A → A
  min_from x [] = x
  min_from x (y ∷ ys) = min_from (if is_le (c x y) then x else y) ys

  max_from : A → List A → A
  max_from x [] = x
  max_from x (y ∷ ys) = max_from (if is_le (c x y) then y else x) ys

  unfoldable pub min_by : List A → Option A
  unfolding min_from
  min_by [] = none
  min_by (x ∷ xs) = some (min_from x xs)

  unfoldable pub max_by : List A → Option A
  unfolding max_from
  max_by [] = none
  max_by (x ∷ xs) = some (max_from x xs)

-- There is a choice unless there are no elements.
module _ {ℓ} {A : Type ℓ} (c : A → A → Ordering) where
  pub min_by-none : (xs : List A) → min_by c xs ≡ none → xs ≡ []
  unfolding min_by
  min_by-none [] h = refl
  min_by-none (x ∷ xs) h = cc

  pub max_by-none : (xs : List A) → max_by c xs ≡ none → xs ≡ []
  unfolding max_by
  max_by-none [] h = refl
  max_by-none (x ∷ xs) h = cc

-- The choice is one of the elements.
module _ {A : Type 0} (c : A → A → Ordering) where
  min_from-Any : (x : A) (xs : List A) → Any (λ y. y ≡ min_from c x xs) (x ∷ xs)
  unfolding min_from
  min_from-Any x [] = inl refl
  min_from-Any x (y ∷ ys) = elim (Bool-cases (is_le (c x y))) [
    | inl e ↦ along e (weaken (min_from-Any x ys))
    | inr e ↦ along e (inr (min_from-Any y ys))
  ]
    where
      along :
          {b : Bool}
          → is_le (c x y) ≡ b
          → Any (λ z. z ≡ min_from c (if b then x else y) ys) (x ∷ y ∷ ys)
          → Any (λ z. z ≡ min_from c x (y ∷ ys)) (x ∷ y ∷ ys)
      along e = subst (λ b. Any (λ z. z ≡ min_from c (if b then x else y) ys) (x ∷ y ∷ ys)) (sym e)

      weaken : {m : A} → Any (λ z. z ≡ m) (x ∷ ys) → Any (λ z. z ≡ m) (x ∷ y ∷ ys)
      weaken (inl h) = inl h
      weaken (inr h) = inr (inr h)

  pub min_by-Any : (xs : List A) {m : A} → min_by c xs ≡ some m → Any (λ y. y ≡ m) xs
  unfolding min_by
  min_by-Any [] h = cc
  min_by-Any (x ∷ xs) {m} h =
      let same : min_from c x xs ≡ m = cc h in
      subst (λ t. Any (λ y. y ≡ t) (x ∷ xs)) same (min_from-Any x xs)

  max_from-Any : (x : A) (xs : List A) → Any (λ y. y ≡ max_from c x xs) (x ∷ xs)
  unfolding max_from
  max_from-Any x [] = inl refl
  max_from-Any x (y ∷ ys) = elim (Bool-cases (is_le (c x y))) [
    | inl e ↦ along e (inr (max_from-Any y ys))
    | inr e ↦ along e (weaken (max_from-Any x ys))
  ]
    where
      along :
          {b : Bool}
          → is_le (c x y) ≡ b
          → Any (λ z. z ≡ max_from c (if b then y else x) ys) (x ∷ y ∷ ys)
          → Any (λ z. z ≡ max_from c x (y ∷ ys)) (x ∷ y ∷ ys)
      along e = subst (λ b. Any (λ z. z ≡ max_from c (if b then y else x) ys) (x ∷ y ∷ ys)) (sym e)

      weaken : {m : A} → Any (λ z. z ≡ m) (x ∷ ys) → Any (λ z. z ≡ m) (x ∷ y ∷ ys)
      weaken (inl h) = inl h
      weaken (inr h) = inr (inr h)

  pub max_by-Any : (xs : List A) {m : A} → max_by c xs ≡ some m → Any (λ y. y ≡ m) xs
  unfolding max_by
  max_by-Any [] h = cc
  max_by-Any (x ∷ xs) {m} h =
      let same : max_from c x xs ≡ m = cc h in
      subst (λ t. Any (λ y. y ≡ t) (x ∷ xs)) same (max_from-Any x xs)

-- It is least, or greatest, where the comparison is that of a key.
module _ {ℓ κ} {A : Type ℓ} {K : Type κ} ⦃o : Ord K⦄ (key : A → K) where
  min_from_least :
      (x : A) (xs : List A)
      → All (λ y. is_le (by_key key (min_from (by_key key) x xs) y) ≡ true) (x ∷ xs)
  unfolding min_from
  min_from_least x [] = (is_le_refl (key x), tt)
  min_from_least x (y ∷ ys) = elim (Bool-cases (is_le (by_key key x y))) [
    | inl e ↦
        let ih = min_from_least x ys in
        along e
          (ih.0, (is_le_trans (key (min_from (by_key key) x ys)) (key x) (key y) ih.0 e, ih.1))
    | inr e ↦
        let ih = min_from_least y ys in
        along e (
          is_le_trans (key (min_from (by_key key) y ys)) (key y) (key x) ih.0
              (is_le_total (key x) (key y) e),
          ih,
        )
  ]
    where
      Least : A → Type 0
      Least m = All (λ z. is_le (by_key key m z) ≡ true) (x ∷ y ∷ ys)

      along :
          {b : Bool}
          → is_le (by_key key x y) ≡ b
          → Least (min_from (by_key key) (if b then x else y) ys)
          → Least (min_from (by_key key) x (y ∷ ys))
      along e = subst (λ b. Least (min_from (by_key key) (if b then x else y) ys)) (sym e)

  pub min_by_least :
      (xs : List A) {m : A}
      → min_by (by_key key) xs ≡ some m
      → All (λ y. is_le (by_key key m y) ≡ true) xs
  unfolding min_by
  min_by_least [] h = cc
  min_by_least (x ∷ xs) {m} h =
      let same : min_from (by_key key) x xs ≡ m = cc h in
      subst (λ t. All (λ y. is_le (by_key key t y) ≡ true) (x ∷ xs)) same (min_from_least x xs)

  max_from_greatest :
      (x : A) (xs : List A)
      → All (λ y. is_le (by_key key y (max_from (by_key key) x xs)) ≡ true) (x ∷ xs)
  unfolding max_from
  max_from_greatest x [] = (is_le_refl (key x), tt)
  max_from_greatest x (y ∷ ys) = elim (Bool-cases (is_le (by_key key x y))) [
    | inl e ↦
        let ih = max_from_greatest y ys in
        along e (is_le_trans (key x) (key y) (key (max_from (by_key key) y ys)) e ih.0, ih)
    | inr e ↦
        let ih = max_from_greatest x ys in
        along e (
          ih.0,
          (
            is_le_trans (key y) (key x) (key (max_from (by_key key) x ys))
                (is_le_total (key x) (key y) e) ih.0,
            ih.1,
          ),
        )
  ]
    where
      Greatest : A → Type 0
      Greatest m = All (λ z. is_le (by_key key z m) ≡ true) (x ∷ y ∷ ys)

      along :
          {b : Bool}
          → is_le (by_key key x y) ≡ b
          → Greatest (max_from (by_key key) (if b then y else x) ys)
          → Greatest (max_from (by_key key) x (y ∷ ys))
      along e = subst (λ b. Greatest (max_from (by_key key) (if b then y else x) ys)) (sym e)

  pub max_by_greatest :
      (xs : List A) {m : A}
      → max_by (by_key key) xs ≡ some m
      → All (λ y. is_le (by_key key y m) ≡ true) xs
  unfolding max_by
  max_by_greatest [] h = cc
  max_by_greatest (x ∷ xs) {m} h =
      let same : max_from (by_key key) x xs ≡ m = cc h in
      subst (λ t. All (λ y. is_le (by_key key y t) ≡ true) (x ∷ xs)) same (max_from_greatest x xs)
