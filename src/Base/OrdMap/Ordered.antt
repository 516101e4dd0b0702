-- ===== src/Base/OrdMap/Ordered.antt =====
-- The keys of a `BTreeMap` rise, and what follows for its size and for removal.
use mathlib.Core.Path.{◌≡◌, refl, ap, sym, subst, ◌∙◌}
use mathlib.Core.Bool.{false}
use mathlib.Core.Logic.{inl, inr}
use mathlib.Core.Option.{none, some}
use mathlib.Core.List.{[], ◌∷◌}
use Prim.Native.Nat.{suc, ◌+◌, ◌≤◌, Ordering, lt, eq, gt}
use native.Mathlib.Omega.{arith}
use dynet.Base.Tests.{if◌then◌else◌, Bool-cases}
use dynet.Base.Lists.{All, All-map, All-Any, Any, length}
use dynet.Base.Order.{Ord, cmp, is_eq, eqb-eq}
use dynet.Base.OrdMap.{OrdMap, get, insert, remove}

gt-lt {ℓ} : {K : Type ℓ} ⦃o : Ord K⦄ (j k : K) → cmp j k ≡ gt → cmp k j ≡ lt
gt-lt ⦃o⦄ j k h = rw (o.cmp_swap j k, h) refl

module _ {ℓ κ} {K : Type ℓ} {V : Type κ} ⦃o : Ord K⦄ where
  abbrev pub Above : K → OrdMap K V → Type 0
  Above k m = All (λ e. cmp k e.0 ≡ lt) m

  abbrev pub IsOrdered : OrdMap K V → Type 0
  IsOrdered [] = Unit {0}
  IsOrdered ((k, v) ∷ m) = Above k m × IsOrdered m

  Above-trans : (j k : K) (m : OrdMap K V) → cmp j k ≡ lt → Above k m → Above j m
  Above-trans j k m h a = All-map (λ e b. o.cmp_trans j k e.0 h b) m a

  insert-Above :
      (j k : K) (v : V) (m : OrdMap K V) → cmp j k ≡ lt → Above j m → Above j (insert k v m)
  unfolding insert
  insert-Above j k v [] h a = (h, tt)
  insert-Above j k v ((i, w) ∷ m) h a = go (cmp k i) (insert-Above j k v m h a.1) refl
    where
      go : (r : Ordering) → Above j (insert k v m) → cmp k i ≡ r → Above j (insert k v ((i, w) ∷ m))
      go lt ih e = rw (e, insert) (h, a)
      go eq ih e = rw (e, insert) (h, a.1)
      go gt ih e = rw (e, insert) (a.0, ih)

  pub insert-IsOrdered : (k : K) (v : V) (m : OrdMap K V) → IsOrdered m → IsOrdered (insert k v m)
  unfolding insert
  insert-IsOrdered k v [] s = (tt, tt)
  insert-IsOrdered k v ((i, w) ∷ m) s = go (cmp k i) (insert-IsOrdered k v m s.1) refl
    where
      go :
          (r : Ordering)
          → IsOrdered (insert k v m)
          → cmp k i ≡ r
          → IsOrdered (insert k v ((i, w) ∷ m))
      go lt ih e = rw (e, insert) ((e, Above-trans k i m e s.0), s)
      go eq ih e = rw (e, insert) (subst (λ t. Above t m) (sym (o.cmp-eq k i e)) s.0, s.1)
      go gt ih e = rw (e, insert) (insert-Above i k v m (gt-lt k i e) s.0, ih)

  remove-Above : (j k : K) (m : OrdMap K V) → Above j m → Above j (remove k m)
  unfolding remove
  remove-Above j k [] a = tt
  remove-Above j k ((i, w) ∷ m) a = elim (Bool-cases (is_eq (cmp k i))) [
    | inl e ↦ rw e a.1
    | inr e ↦ rw e (a.0, remove-Above j k m a.1)
  ]

  pub remove-IsOrdered : (k : K) (m : OrdMap K V) → IsOrdered m → IsOrdered (remove k m)
  unfolding remove
  remove-IsOrdered k [] s = tt
  remove-IsOrdered k ((i, w) ∷ m) s = elim (Bool-cases (is_eq (cmp k i))) [
    | inl e ↦ rw e s.1
    | inr e ↦ rw e (remove-Above i k m s.0, remove-IsOrdered k m s.1)
  ]

  -- A key below all others is not there.
  get-Above : (k : K) (m : OrdMap K V) → Above k m → get k m ≡ none
  unfolding get
  get-Above k [] a = refl
  get-Above k ((i, w) ∷ m) a = rw a.0 (get-Above k m a.1)

  pub length-insert-le : (k : K) (v : V) (m : OrdMap K V) → length (insert k v m) ≤ length m + 1
  unfolding insert
  length-insert-le k v [] = omega arith
  length-insert-le k v ((i, w) ∷ m) = go (cmp k i) (length-insert-le k v m) refl
    where
      go :
          (r : Ordering)
          → length (insert k v m) ≤ length m + 1
          → cmp k i ≡ r
          → length (insert k v ((i, w) ∷ m)) ≤ suc (length m) + 1
      go lt ih e = rw (e, insert) (omega arith)
      go eq ih e = rw (e, insert) (omega arith)
      go gt ih e = rw (e, insert) (omega arith)

  -- An entry that is there is replaced.
  pub length-insert-some :
      (k : K) (v : V) (m : OrdMap K V) {w : V}
      → IsOrdered m
      → get k m ≡ some w
      → length (insert k v m) ≡ length m
  unfolding insert get
  length-insert-some k v [] s h = cc
  length-insert-some k v ((i, u) ∷ m) {w} s h =
      go (cmp k i) refl (λ e. length-insert-some k v m s.1 e)
    where
      go :
          (r : Ordering)
          → cmp k i ≡ r
          → (get k m ≡ some w → length (insert k v m) ≡ length m)
          → length (insert k v ((i, u) ∷ m)) ≡ suc (length m)
      go lt e ih = cc (rw e at h, get-Above k m (Above-trans k i m e s.0))
      go eq e ih = rw (e, insert) refl
      go gt e ih = rw (e, insert) (ap suc (ih (rw e at h)))

  pub length-remove :
      (k : K) (m : OrdMap K V) {w : V} → get k m ≡ some w → length (remove k m) + 1 ≡ length m
  unfolding remove get
  length-remove k [] h = cc
  length-remove k ((i, u) ∷ m) h = elim (Bool-cases (is_eq (cmp k i))) [
    | inl e ↦ rw e (omega arith)
    | inr e ↦ rw e (omega (arith, length-remove k m (rw e at h)))
  ]

  pub get-remove :
      (k j : K) (m : OrdMap K V)
      → IsOrdered m
      → get j (remove k m) ≡ (if is_eq (cmp j k) then none else get j m)
  unfolding remove get
  get-remove k j [] s = ground arith
  get-remove k j ((i, u) ∷ m) s = elim (Bool-cases (is_eq (cmp k i))) [
    | inl e ↦ elim (Bool-cases (is_eq (cmp j k))) [
      | inl f ↦
          rw (e, f) (get-Above j m (subst (λ t. Above t m) (sym (eqb-eq j k f ∙ eqb-eq k i e)) s.0))
      | inr f ↦ rw (e, f, subst (λ t. is_eq (cmp j t) ≡ false) (eqb-eq k i e) f) refl
    ]
    | inr e ↦ elim (Bool-cases (is_eq (cmp j k))) [
      | inl f ↦ ground (arith, get-remove k j m s.1, eqb-eq j k f)
      | inr f ↦ ground (arith, get-remove k j m s.1)
    ]
  ]

-- An entry of the map is what its key gives.
module _ {K V : Type 0} ⦃o : Ord K⦄ where
  pub get-Any :
      (k : K) (v : V) (m : OrdMap K V) → IsOrdered m → Any (λ e. e ≡ (k, v)) m → get k m ≡ some v
  unfolding get
  get-Any k v [] s h = absurd h
  get-Any k v ((j, w) ∷ m) s (inl e) =
      let same : j ≡ k = ap (λ t. t.0) e in rw (sym same) (rw (o.cmp_refl j) (ap (λ t. some t.1) e))
  get-Any k v ((j, w) ∷ m) s (inr h) =
      let above : cmp j k ≡ lt = All-Any (λ e. cmp j e.0 ≡ lt) m s.0 h in
      let below : is_eq (cmp k j) ≡ false = rw (o.cmp_swap j k, above) refl in
      rw below (get-Any k v m s.1 h)
