-- ===== src/Routing/Groups/Exhausted.antt =====
-- `select_graph_with` of stores.rs: what an error says of the group that it names.
use dynet.Base.{
  ℕ, zero, suc, ◌+◌, ◌≡◌, refl, inl, inr, true, false, ◌&&◌, List, [], ◌∷◌, ◌++◌, ◌==◌, Option,
  none, some, length, All, Bool-cases, Option-cases, arith, subst,
}
use dynet.Base.Order.{nat_ord, list_ord}
use dynet.Base.OrdMap.{OrdMap, get, insert}
use dynet.Base.Outcome.{err}
use dynet.Routing.Types.{
  GroupId, ForwardGroup, GroupMember, IpFamily, NodeId, GroupCandidateSet, SelectionTraceHop,
  direct_outlet, node,
}
use dynet.Routing.Nodes.{NodeStore, is_eligible, enabled_node_id}
use dynet.Routing.Groups.{
  GroupStore, GroupError, missing, disabled, no_enabled_node, no_capable_node, next_cycle,
  select_group_hop, eligible_members, walk, select_graph_with,
}
use dynet.Routing.Groups.Hop.{hop-cases, hop-eligible}
use dynet.Routing.Groups.Walk.{finish-ok, NextRef-cases}

-- No member is both enabled and eligible for the family.
abbrev pub NoneFit : NodeStore → IpFamily → List GroupMember → Type 0
NoneFit nodes family = All (λ m. m.enabled ≡ true → is_eligible nodes m.node_id family ≡ false)

module _ (store : GroupStore) (nodes : NodeStore) (family : IpFamily) where
  -- Where an error says that a group has no node: the group is known and enabled, and has no members
  -- at all, or none of them is enabled and fit for the family.
  abbrev pub Exhausted : GroupError → Type 0
  Exhausted (no_enabled_node id) =
      (group : ForwardGroup) × (get id store.groups ≡ some group)
      × (group.enabled ≡ true)
      × (get id store.members ≡ none)
  Exhausted (no_capable_node id wanted) =
      (wanted ≡ family)
      × ((group : ForwardGroup) × (get id store.groups ≡ some group)
          × (group.enabled ≡ true)
          × ((members : List GroupMember) × (get id store.members ≡ some members)
              × NoneFit nodes family members))
  Exhausted (missing id) = Unit {0}
  Exhausted (disabled id) = Unit {0}
  Exhausted (next_cycle id) = Unit {0}

  eligible_members-NoneFit :
      (members : List GroupMember)
      → (length (eligible_members nodes family members) == 0) ≡ true
      → NoneFit nodes family members
  eligible_members-NoneFit [] h = tt
  eligible_members-NoneFit (m ∷ ms) h =
      elim (Bool-cases (m.enabled && is_eligible nodes m.node_id family)) [
        | inl e ↦ absurd (ground (arith, e, h))
        | inr e ↦ ((λ on. rw on at e), eligible_members-NoneFit ms (rw e at h))
      ]

  module _ (select_node : GroupCandidateSet → Option NodeId) where
    hop-Exhausted :
        (at : GroupId) {e : GroupError}
        → select_group_hop store at nodes family select_node ≡ err e
        → Exhausted e
    unfolding select_group_hop
    hop-Exhausted at {e} h = elim (Option-cases (get at store.groups)) [
      | inl unknown ↦
          let same : missing at ≡ e = ground (arith, unknown, h) in subst Exhausted same tt
      | inr (group, known) ↦ elim (Bool-cases group.enabled) [
        | inr off ↦
            let same : disabled at ≡ e = ground (arith, known, off, h) in subst Exhausted same tt
        | inl on ↦ elim (Option-cases (get at store.members)) [
          | inl unlisted ↦
              let same : no_enabled_node at ≡ e = ground (arith, known, on, unlisted, h) in
              subst Exhausted same (group, known, on, unlisted)
          | inr (members, listed) ↦
              elim (Bool-cases (length (eligible_members nodes family members) == 0)) [
                | inl empty ↦
                    let same : no_capable_node at family ≡ e =
                      ground (arith, known, on, listed, empty, h) in
                    subst Exhausted same (
                      refl,
                      (group, known, on, (members, listed, eligible_members-NoneFit members empty)),
                    )
                | inr some_left ↦
                    let (hop, eq) =
                      hop-eligible store nodes family select_node at known on listed some_left in
                    cc (eq, h)
              ]
        ]
      ]
    ]

    walk-Exhausted :
        (fuel : ℕ) (at : GroupId) (seen : OrdMap GroupId (Unit {0}))
        (trace : List SelectionTraceHop) {e : GroupError}
        → walk store nodes family select_node fuel at seen trace ≡ some (err e)
        → Exhausted e
    unfolding walk
    walk-Exhausted zero at seen trace h = cc h
    walk-Exhausted (suc fuel) at seen trace {e} h = elim (Option-cases (get at seen)) [
      | inr (_, met) ↦
          let same : next_cycle at ≡ e = ground (arith, met, h) in subst Exhausted same tt
      | inl new ↦ elim (hop-cases store nodes family select_node at) [
        | inr (x, failed) ↦
            let same : x ≡ e = ground (arith, new, failed, h) in
            hop-Exhausted at
              (subst (λ y. select_group_hop store at nodes family select_node ≡ err y) same failed)
        | inl (hop, eq, is_hop) ↦ elim (NextRef-cases hop.next) [
          | inl out ↦
              let (s, f, t, k) = finish-ok store nodes family direct_outlet trace hop in
              cc (rw (walk, new, eq, out, f) at h)
          | inr (name, link) ↦ elim (Option-cases (enabled_node_id nodes name)) [
            | inr (id, there) ↦
                let (s, f, t, k) = finish-ok store nodes family (node id) trace hop in
                cc (rw (walk, new, eq, link, there, f) at h)
            | inl unknown ↦
                walk-Exhausted fuel name (insert at tt seen) (trace ++ (hop ∷ []))
                  (rw (walk, new, eq, link, unknown) at h)
          ]
        ]
      ]
    ]

    -- What the error of a walk says of the group that it names.
    pub select_graph_with-Exhausted :
        (at : GroupId) {e : GroupError}
        → select_graph_with store nodes family select_node at ≡ some (err e)
        → Exhausted e
    unfolding select_graph_with
    select_graph_with-Exhausted at h = walk-Exhausted (length store.groups + 2) at [] [] h
