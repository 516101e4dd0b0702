-- ===== src/Routing/Groups/Members.antt =====
-- `GroupStore::from_parts` of stores.rs: each member that is given is listed under its group.
use dynet.Base.{
  ◌≡◌, inl, inr, List, [], ◌∷◌, ◌++◌, Option, none, some, All, map, Bool-cases, subst, sym, ap,
}
use mathlib.Core.List.{foldl}
use dynet.Base.Order.{nat_ord, list_ord, eqb, eqb_refl, eqb-eq}
use dynet.Base.OrdMap.{OrdMap, get, get-insert}
use dynet.Base.Sort.{sort_by, All-sort_by}
use dynet.Routing.Types.{GroupId, ForwardGroup, GroupMember}
use dynet.Routing.Groups.{member_order, push_member, or_empty, from_parts}

-- A property of the members that are listed, where some are.
abbrev pub Held : (GroupMember → Type 0) → Option (List GroupMember) → Type 0
Held P none = Unit
Held P (some members) = All P members

module _ (P : GroupMember → Type 0) (id : GroupId) where
  all_last : (ms : List GroupMember) (m : GroupMember) → All P (ms ++ (m ∷ [])) → All P ms × P m
  all_last [] m all = (tt, all.0)
  all_last (x ∷ ms) m all = let (rest, last) = all_last ms m all.1 in ((all.0, rest), last)

  or_empty-Held : (found : Option (List GroupMember)) → All P (or_empty found) → Held P found
  or_empty-Held none all = tt
  or_empty-Held (some ms) all = all

  push_member-Held :
      (by_group : OrdMap GroupId (List GroupMember)) (m : GroupMember)
      → Held P (get id (push_member by_group m))
      → Held P (get id by_group) × (m.group_id ≡ id → P m)
  unfolding push_member
  push_member-Held by_group m held = elim (Bool-cases (eqb id m.group_id)) [
    | inl e ↦
        let (before, last) = all_last (or_empty (get m.group_id by_group)) m (
          rw (get-insert m.group_id id (or_empty (get m.group_id by_group) ++ (m ∷ [])) by_group, e)
            at held) in
        (
          subst (λ j. Held P (get j by_group)) (sym (eqb-eq id m.group_id e))
              (or_empty-Held (get m.group_id by_group) before),
          λ same. last,
        )
    | inr e ↦ (
      (rw (get-insert m.group_id id (or_empty (get m.group_id by_group) ++ (m ∷ [])) by_group, e) at
          held),
      λ same. absurd (cc (e, eqb_refl id, ap (λ j. eqb id j) same)),
    )
  ]

  foldl-Held :
      (by_group : OrdMap GroupId (List GroupMember)) (ms : List GroupMember)
      → Held P (get id (foldl push_member by_group ms))
      → Held P (get id by_group) × All (λ m. m.group_id ≡ id → P m) ms
  foldl-Held by_group [] held = (held, tt)
  foldl-Held by_group (m ∷ ms) held =
      let (pushed, rest) = foldl-Held (push_member by_group m) ms held in
      let (before, this) = push_member-Held by_group m pushed in (before, (this, rest))

  sorted-Held :
      (by_group : OrdMap GroupId (List GroupMember))
      → Held P (get id (map (λ (k, ms). (k, sort_by member_order ms)) by_group))
      → Held P (get id by_group)
  unfolding get
  sorted-Held [] held = held
  sorted-Held ((k, ms) ∷ by_group) held = elim (Bool-cases (eqb id k)) [
    | inl e ↦ rw e (All-sort_by member_order P ms (rw e at held))
    | inr e ↦ rw e (sorted-Held by_group (rw e at held))
  ]

  -- What holds of the members that are listed for a group holds of all that were given for it; if
  -- none is listed, anything does.
  pub from_parts-Held :
      (wanted : GroupId) (groups : List ForwardGroup) (members : List GroupMember)
      → Held P (get id (from_parts wanted groups members).members)
      → All (λ m. m.group_id ≡ id → P m) members
  unfolding from_parts
  from_parts-Held wanted groups members held =
      (foldl-Held [] members (sorted-Held (foldl push_member [] members) held)).1
