-- ===== src/Seed/Tables.antt =====
-- stores.rs: the tables that are made from a seed find what the seed lists, as its names are not
-- shared.
use dynet.Base.{
  Distinct, ◌≡◌, ◌≢◌, refl, inl, inr, true, List, [], ◌∷◌, map, Option, none, some, find, any, All,
  Bool-cases, arith, ap, sym, ◌∙◌, subst,
}
use mathlib.Core.List.{foldl}
use dynet.Base.Opt.{or_else}
use dynet.Base.Order.{nat_ord, list_ord, eqb, eqb_refl, eqb-eq}
use dynet.Base.OrdMap.{OrdMap, get, insert, collect, get-insert}
use dynet.Base.Text.{Text}
use dynet.Routing.Types.{ForwardNode, ForwardGroup, GroupMember}
use dynet.Routing.Groups.{from_parts}
use dynet.Routing.Nodes.{from_nodes}
use dynet.Seed.{find_group, find_node}

module _ {A : Type 0} (id : A → Text) where
  abbrev keyed : List A → List (Text × A)
  keyed xs = map {B = Text × A} (λ x. (id x, x)) xs

  abbrev found : List A → Text → Option A
  found xs k = find (λ x. eqb (id x) k) xs

  abbrev add : OrdMap Text A → Text × A → OrdMap Text A
  add m e = insert e.0 e.1 m

  eqb_sym : (a b : Text) → eqb a b ≡ eqb b a
  eqb_sym a b = elim (Bool-cases (eqb a b)) [
    | inl e ↦ rw (eqb-eq a b e) refl
    | inr e ↦ elim (Bool-cases (eqb b a)) [
      | inl f ↦ cc (eqb_refl a, f, ap (λ x. eqb a x) (eqb-eq b a f))
      | inr f ↦ e ∙ sym f
    ]
  ]

  found-none : (k : Text) (xs : List A) → All (λ j. j ≢ k) (map id xs) → found xs k ≡ none
  found-none k [] d = refl
  found-none k (x ∷ xs) d = elim (Bool-cases (eqb (id x) k)) [
    | inl e ↦ absurd (d.0 (eqb-eq (id x) k e))
    | inr e ↦ rw e (found-none k xs d.1)
  ]

  get-foldl :
      (k : Text) (xs : List A) (m : OrdMap Text A)
      → Distinct (map id xs)
      → get k (foldl add m (keyed xs)) ≡ or_else (found xs k) (get k m)
  get-foldl k [] m d = refl
  get-foldl k (x ∷ xs) m d = elim (Bool-cases (eqb (id x) k)) [
    | inl e ↦
        let same : id x ≡ k = eqb-eq (id x) k e in
        let missing : found xs k ≡ none =
          found-none k xs (subst (λ j. All (λ y. y ≢ j) (map id xs)) same d.0) in
        rw
          (
            get-foldl k xs (insert (id x) x m) d.1,
            missing,
            get-insert (id x) k x m,
            eqb_sym k (id x),
            e,
          )
          refl
    | inr e ↦
        rw (get-foldl k xs (insert (id x) x m) d.1, get-insert (id x) k x m, eqb_sym k (id x), e)
          refl
  ]

  or_else-none : (o : Option A) → or_else o none ≡ o
  or_else-none none = refl
  or_else-none (some a) = refl

  pub get-collect :
      (k : Text) (xs : List A) → Distinct (map id xs) → get k (collect (keyed xs)) ≡ found xs k
  unfolding collect get
  get-collect k xs d = get-foldl k xs [] d ∙ or_else-none (found xs k)

  pub any-found : (k : Text) (xs : List A) → any (λ x. eqb (id x) k) xs ≡ true → found xs k ≢ none
  any-found k [] h = cc
  any-found k (x ∷ xs) h = ground (arith, any-found k xs)

module _ (wanted : Text) (nodes : List ForwardNode) (groups : List ForwardGroup)
    (members : List GroupMember) where
  pub get-from_parts :
      (k : Text)
      → Distinct (map (λ group. group.id) groups)
      → get k (from_parts wanted groups members).groups ≡ find_group groups k
  unfolding from_parts
  get-from_parts k d = get-collect (λ group. group.id) k groups d

  pub get-from_nodes :
      (k : Text)
      → Distinct (map (λ node. node.id) nodes)
      → get k (from_nodes nodes).nodes ≡ find_node nodes k
  unfolding from_nodes
  get-from_nodes k d = get-collect (λ node. node.id) k nodes d
