-- ===== src/Base/OrdMap/Fresh.antt =====
-- Sets of texts, as maps to nothing: what a set does not have.
use mathlib.Core.Path.{◌≡◌, ap}
use mathlib.Core.Logic.{◌≢◌, inl, inr}
use mathlib.Core.Option.{none}
use mathlib.Core.List.{List}
use native.Mathlib.Omega.{arith}
use dynet.Base.Tests.{Bool-cases}
use dynet.Base.Lists.{All}
use dynet.Base.Order.{nat_ord, list_ord, eqb, eqb_refl, cmp, is_eq}
use dynet.Base.OrdMap.{OrdMap, get, insert, get-insert}
use dynet.Base.Text.{Text}

abbrev pub Fresh : OrdMap Text (Unit {0}) → List Text → Type 0
Fresh names ids = All (λ id. get id names ≡ none) ids

-- What is fresh for more names is fresh for fewer, and is none of those that were added.
pub get-insert-none :
    (id j : Text) (names : OrdMap Text (Unit {0}))
    → get j (insert id tt names) ≡ none
    → (j ≢ id) × (get j names ≡ none)
get-insert-none id j names h = elim (Bool-cases (is_eq (cmp j id))) [
  | inl e ↦ ground (arith, get-insert id j tt names, e, h)
  | inr e ↦ (
    λ same. cc (e, ap (λ x. eqb x id) same, eqb_refl id),
    ground (arith, get-insert id j tt names, e, h),
  )
]
