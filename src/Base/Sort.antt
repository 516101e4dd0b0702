-- ===== src/Base/Sort.antt =====
-- `slice::sort_by`: a stable sort by a comparison, and `Iterator::find` over what it returns.
use mathlib.Core.Path.{◌≡◌, subst}
use mathlib.Core.Logic.{inl, inr}
use mathlib.Core.Bool.{Bool, true, false}
use mathlib.Core.Option.{none, some}
use mathlib.Core.List.{List, [], ◌∷◌, Perm}
use mathlib.Core.List.Perm
use Prim.Native.Nat.{Ordering}
use dynet.Base.Tests.{if◌then◌else◌, Bool-cases}
use dynet.Base.Lists.{All, All-map, find}
use dynet.Base.Order.{Ord, cmp, is_le, is_le_trans, is_le_total}

module _ {ℓ} {A : Type ℓ} where
  abbrev insert_by : (A → A → Ordering) → A → List A → List A
  insert_by c x [] = x ∷ []
  insert_by c x (y ∷ ys) = if is_le (c x y) then x ∷ y ∷ ys else y ∷ insert_by c x ys

  unfoldable pub sort_by : (A → A → Ordering) → List A → List A
  sort_by c [] = []
  sort_by c (x ∷ xs) = insert_by c x (sort_by c xs)

  abbrev pub IsSorted : (A → A → Ordering) → List A → Type 0
  IsSorted c [] = Unit {0}
  IsSorted c (x ∷ xs) = All (λ y. is_le (c x y) ≡ true) xs × IsSorted c xs

module _ {ℓ} {A : Type ℓ} (c : A → A → Ordering) where
  insert_by-perm : (x : A) (xs : List A) → Perm (insert_by c x xs) (x ∷ xs)
  insert_by-perm x [] = Perm.refl (x ∷ [])
  insert_by-perm x (y ∷ ys) = elim (Bool-cases (is_le (c x y))) [
    | inl e ↦ rw e (Perm.refl (x ∷ y ∷ ys))
    | inr e ↦ rw e (Perm.trans (Perm.cons y (insert_by-perm x ys)) (Perm.swap x y ys))
  ]

  pub sort_by-perm : (xs : List A) → Perm (sort_by c xs) xs
  unfolding sort_by
  sort_by-perm [] = Perm.refl []
  sort_by-perm (x ∷ xs) =
      Perm.trans (insert_by-perm x (sort_by c xs)) (Perm.cons x (sort_by-perm xs))

-- A property of every element is one of every element of the sorted list, and the other way round.
module _ {ℓ} {A : Type ℓ} (c : A → A → Ordering) (P : A → Type 0) where
  insert_by-All : (x : A) (xs : List A) → P x → All P xs → All P (insert_by c x xs)
  insert_by-All x [] p ps = (p, tt)
  insert_by-All x (y ∷ ys) p ps = elim (Bool-cases (is_le (c x y))) [
    | inl e ↦ rw e (p, ps)
    | inr e ↦ rw e (ps.0, insert_by-All x ys p ps.1)
  ]

  All-insert_by : (x : A) (xs : List A) → All P (insert_by c x xs) → All P (x ∷ xs)
  All-insert_by x [] ps = ps
  All-insert_by x (y ∷ ys) ps = elim (Bool-cases (is_le (c x y))) [
    | inl e ↦ (rw e at ps)
    | inr e ↦
        let qs : All P (y ∷ insert_by c x ys) = (rw e at ps) in
        let rest = All-insert_by x ys qs.1 in (rest.0, (qs.0, rest.1))
  ]

  pub sort_by-All : (xs : List A) → All P xs → All P (sort_by c xs)
  unfolding sort_by
  sort_by-All [] ps = tt
  sort_by-All (x ∷ xs) ps = insert_by-All x (sort_by c xs) ps.0 (sort_by-All xs ps.1)

  pub All-sort_by : (xs : List A) → All P (sort_by c xs) → All P xs
  unfolding sort_by
  All-sort_by [] ps = tt
  All-sort_by (x ∷ xs) ps =
      let qs = All-insert_by x (sort_by c xs) ps in (qs.0, All-sort_by xs qs.1)

-- Where the comparison is that of a key, the result is in order.
module _ {ℓ κ} {A : Type ℓ} {K : Type κ} ⦃o : Ord K⦄ (key : A → K) where
  abbrev pub by_key : A → A → Ordering
  by_key a b = cmp (key a) (key b)

  All-le :
      (a b : A) (xs : List A)
      → is_le (by_key a b) ≡ true
      → All (λ y. is_le (by_key b y) ≡ true) xs
      → All (λ y. is_le (by_key a y) ≡ true) xs
  All-le a b [] h ps = tt
  All-le a b (x ∷ xs) h ps = (is_le_trans (key a) (key b) (key x) h ps.0, All-le a b xs h ps.1)

  insert_by-IsSorted :
      (x : A) (xs : List A) → IsSorted by_key xs → IsSorted by_key (insert_by by_key x xs)
  insert_by-IsSorted x [] s = (tt, tt)
  insert_by-IsSorted x (y ∷ ys) s = elim (Bool-cases (is_le (by_key x y))) [
    | inl e ↦ rw e ((e, All-le x y ys e s.0), s)
    | inr e ↦ rw e (
      insert_by-All by_key _ x ys (is_le_total (key x) (key y) e) s.0,
      insert_by-IsSorted x ys s.1,
    )
  ]

  pub sort_by-IsSorted : (xs : List A) → IsSorted by_key (sort_by by_key xs)
  unfolding sort_by
  sort_by-IsSorted [] = tt
  sort_by-IsSorted (x ∷ xs) = insert_by-IsSorted x (sort_by by_key xs) (sort_by-IsSorted xs)

-- The first element that passes is the least of those that pass.
module _ {ℓ} {A : Type ℓ} (c : A → A → Ordering) (p : A → Bool) where
  pub find-some_least :
      (xs : List A) (x : A)
      → ((a : A) → is_le (c a a) ≡ true)
      → IsSorted c xs
      → find p xs ≡ some x
      → (p x ≡ true) × All (λ y. p y ≡ true → is_le (c x y) ≡ true) xs
  find-some_least [] x r s h = cc
  find-some_least (y ∷ ys) x r s h = elim (Bool-cases (p y)) [
    | inl e ↦
        let same : y ≡ x = cc (rw e at h) in
        subst (λ t. (p t ≡ true) × All (λ z. p z ≡ true → is_le (c t z) ≡ true) (y ∷ ys)) same
          (e, ((λ _. r y), All-map (λ z l _. l) ys s.0))
    | inr e ↦
        let (hit, least) = find-some_least ys x r s.1 (rw e at h) in
        (hit, ((λ t. cc (e, t)), least))
  ]

  pub find-none : (xs : List A) → find p xs ≡ none → All (λ y. p y ≡ false) xs
  find-none [] h = tt
  find-none (y ∷ ys) h = elim (Bool-cases (p y)) [
    | inl e ↦ cc (h, e)
    | inr e ↦ (e, find-none ys (rw e at h))
  ]
