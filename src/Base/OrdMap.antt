-- ===== src/Base/OrdMap.antt =====
-- `BTreeMap`: an association list whose keys rise. Iteration goes by key, as in the library.
pub mod Ordered
pub mod Fresh
use mathlib.Core.Path.{◌≡◌, refl}
use mathlib.Core.Option.{Option, none, some}
use mathlib.Core.List.{List, [], ◌∷◌, map, foldl}
use Prim.Native.Nat.{Ordering, lt, eq, gt}
use native.Mathlib.Omega.{arith}
use dynet.Base.Tests.{if◌then◌else◌}
use dynet.Base.Order.{Ord, cmp, is_eq}

abbrev pub OrdMap {ℓ κ} : Type ℓ → Type κ → Type (ℓ ⊔ κ)
OrdMap K V = List (K × V)

module _ {ℓ κ} {K : Type ℓ} {V : Type κ} ⦃o : Ord K⦄ where
  unfoldable pub get : K → OrdMap K V → Option V
  get k [] = none
  get k ((j, v) ∷ m) = if is_eq (cmp k j) then some v else get k m

  unfoldable pub insert : K → V → OrdMap K V → OrdMap K V
  insert k v [] = (k, v) ∷ []
  insert k v ((j, w) ∷ m) = elim (cmp k j) [
    | lt ↦ (k, v) ∷ (j, w) ∷ m
    | eq ↦ (k, v) ∷ m
    | gt ↦ (j, w) ∷ insert k v m
  ]

  unfoldable pub remove : K → OrdMap K V → OrdMap K V
  remove k [] = []
  remove k ((j, w) ∷ m) = if is_eq (cmp k j) then m else (j, w) ∷ remove k m

  -- `iter.collect()`: a later entry replaces an earlier one with its key.
  unfoldable pub collect : List (K × V) → OrdMap K V
  unfolding insert
  collect kvs = foldl (λ m (k, v). insert k v m) [] kvs

abbrev pub values {ℓ κ} : {K : Type ℓ} {V : Type κ} → OrdMap K V → List V
values m = map (λ e. e.1) m

module _ {ℓ κ} {K : Type ℓ} {V : Type κ} ⦃o : Ord K⦄ where
  pub get-insert :
      (k j : K) (v : V) (m : OrdMap K V)
      → get j (insert k v m) ≡ (if is_eq (cmp j k) then some v else get j m)
  unfolding get insert
  get-insert k j v [] = refl
  get-insert k j v ((i, w) ∷ m) = go (cmp k i) refl (get-insert k j v m)
    where
      go :
          (r : Ordering)
          → cmp k i ≡ r
          → get j (insert k v m) ≡ (if is_eq (cmp j k) then some v else get j m)
          → get j (insert k v ((i, w) ∷ m))
            ≡ (if is_eq (cmp j k) then some v else get j ((i, w) ∷ m))
      go lt e ih = rw (e, insert) refl
      go eq e ih = rw (e, insert) (ground (arith, o.cmp-eq k i, e))
      go gt e ih =
          rw (e, insert)
            (ground (arith, ih, e, o.cmp-eq j k, o.cmp-eq j i, o.cmp_refl k, o.cmp_refl j))
