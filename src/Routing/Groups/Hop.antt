-- ===== src/Routing/Groups/Hop.antt =====
-- `select_group_hop` of stores.rs: a hop is an eligible member of a known, enabled group, or an
-- error; there is no panic.
use dynet.Base.{
  ◌≡◌, ◌≢◌, refl, ◌⊎◌, inl, inr, true, false, ◌&&◌, List, [], ◌∷◌, ◌==◌, Option, none, some, length,
  any, Any, map, arith, Bool-cases, Option-cases, subst,
}
use dynet.Base.Order.{nat_ord, list_ord, eqb, eqb-eq}
use dynet.Base.OrdMap.{get}
use dynet.Base.Outcome.{Outcome, ok, err, index, ◌>>=◌}
use dynet.Routing.Types.{
  NodeId, GroupId, ForwardGroup, GroupMember, IpFamily, GroupCandidateSet, SelectionTraceHop,
}
use dynet.Routing.Nodes.{NodeStore, is_eligible}
use dynet.Routing.Groups.{
  GroupStore, GroupError, missing, disabled, no_enabled_node, no_capable_node, select_group_hop,
  eligible_members, candidate_of, accepted, unwrap_or_else,
}

-- A group's members that are enabled and eligible, one of which has the given node.
abbrev pub Offers : NodeStore → IpFamily → NodeId → List GroupMember → Type 0
Offers nodes family id = Any (λ member.
    (member.enabled ≡ true)
    × (is_eligible nodes member.node_id family ≡ true)
    × (member.node_id ≡ id))

-- A hop at a group: the group is known and enabled, the node is an eligible enabled member of it.
pub record IsHop (store : GroupStore) (nodes : NodeStore) (family : IpFamily) (at : GroupId)
    (hop : SelectionTraceHop) : Type 0 where
  pub group : ForwardGroup
  pub members : List GroupMember
  pub known : get at store.groups ≡ some group
  pub enabled : group.enabled ≡ true
  pub listed : get at store.members ≡ some members
  pub named_so : hop.group_id ≡ group.id
  pub onward : hop.next ≡ group.next
  pub offered : Offers nodes family hop.node_id members
  pub counted : hop.candidate_count ≡ length (eligible_members nodes family members)

module _ (nodes : NodeStore) (family : IpFamily) where
  keep-Offers :
      (id : NodeId) (members : List GroupMember)
      → Any (λ member. member.node_id ≡ id) (eligible_members nodes family members)
      → Offers nodes family id members
  keep-Offers id [] h = absurd h
  keep-Offers id (m ∷ ms) h = elim (Bool-cases (m.enabled && is_eligible nodes m.node_id family)) [
    | inl e ↦ ground (arith, keep-Offers id ms, e)
    | inr e ↦ inr (keep-Offers id ms (rw e at h))
  ]

any-Any :
    (id : NodeId) (members : List GroupMember)
    → any (λ member. eqb member.node_id id) members ≡ true
    → Any (λ member. member.node_id ≡ id) members
any-Any id [] h = cc
any-Any id (m ∷ ms) h = elim (Bool-cases (eqb m.node_id id)) [
  | inl e ↦ inl (eqb-eq m.node_id id e)
  | inr e ↦ inr (any-Any id ms (rw e at h))
]

-- The node that a hop takes, from the candidates.
choose : (candidates : List GroupMember) (proposal : Option NodeId) → Outcome GroupError NodeId
choose candidates proposal =
    unwrap_or_else (accepted candidates proposal) (index candidates 0 >>= λ first. ok first.node_id)

choose-Any :
    (candidates : List GroupMember) (proposal : Option NodeId)
    → length candidates ≢ 0
    → (id : NodeId) × (choose candidates proposal ≡ ok id)
      × Any (λ member. member.node_id ≡ id) candidates
unfolding choose index
choose-Any [] proposal h = absurd (h refl)
choose-Any (m ∷ ms) none h = (m.node_id, refl, inl refl)
choose-Any (m ∷ ms) (some id) h =
    elim (Bool-cases (any (λ member. eqb member.node_id id) (m ∷ ms))) [
      | inl e ↦ (id, rw e refl, any-Any id (m ∷ ms) e)
      | inr e ↦ (m.node_id, rw e refl, inl refl)
    ]

module _ (store : GroupStore) (nodes : NodeStore) (family : IpFamily)
    (select_node : GroupCandidateSet → Option NodeId) (id : GroupId) where
  abbrev Hop : Type 0
  Hop =
      (hop : SelectionTraceHop) × (select_group_hop store id nodes family select_node ≡ ok hop)
      × IsHop store nodes family id hop

  abbrev Fails : Type 0
  Fails = (e : GroupError) × (select_group_hop store id nodes family select_node ≡ err e)

  chosen :
      (group : ForwardGroup) (members : List GroupMember)
      → get id store.groups ≡ some group
      → group.enabled ≡ true
      → get id store.members ≡ some members
      → Hop ⊎ Fails
  unfolding select_group_hop choose
  chosen group members known on listed = elim (Bool-cases (length candidates == 0)) [
    | inl e ↦ inr (no_capable_node id family, rw (known, on, listed, e) refl)
    | inr e ↦
        let (picked, eq, any) = choose-Any candidates proposal (λ z. ground arith) in
        inl (
          record {
            group_id = group.id;
            node_id = picked;
            next = group.next;
            scheduler = group.scheduler;
            candidate_count = length candidates;
          },
          rw (known, on, listed, e, eq) refl,
          record {
            group = group;
            members = members;
            known = known;
            enabled = on;
            listed = listed;
            named_so = refl;
            onward = refl;
            offered = keep-Offers nodes family picked members any;
            counted = refl;
          },
        )
  ]
    where
      candidates : List GroupMember
      candidates = eligible_members nodes family members

      proposal : Option NodeId
      proposal = select_node (record {
        group_id = group.id;
        scheduler = group.scheduler;
        thresholds = group.thresholds;
        candidates = map candidate_of candidates;
      })

  pub hop-cases : Hop ⊎ Fails
  unfolding select_group_hop
  hop-cases = elim (Option-cases (get id store.groups)) [
    | inl e ↦ inr (missing id, rw e refl)
    | inr (group, known) ↦ elim (Bool-cases group.enabled) [
      | inr e ↦ inr (disabled id, rw (known, e) refl)
      | inl on ↦ elim (Option-cases (get id store.members)) [
        | inl e ↦ inr (no_enabled_node id, rw (known, on, e) refl)
        | inr (members, listed) ↦ chosen group members known on listed
      ]
    ]
  ]

-- A known, enabled group with an eligible member gives a hop.
pub hop-eligible :
    (store : GroupStore) (nodes : NodeStore) (family : IpFamily)
    (select_node : GroupCandidateSet → Option NodeId) (id : GroupId) {group : ForwardGroup}
    {members : List GroupMember}
    → get id store.groups ≡ some group
    → group.enabled ≡ true
    → get id store.members ≡ some members
    → (length (eligible_members nodes family members) == 0) ≡ false
    → (hop : SelectionTraceHop) × (select_group_hop store id nodes family select_node ≡ ok hop)
unfolding select_group_hop choose
hop-eligible store nodes family select_node id {group} {members} known on listed some_left =
    let candidates = eligible_members nodes family members in
    let proposal : Option NodeId = select_node (record {
      group_id = group.id;
      scheduler = group.scheduler;
      thresholds = group.thresholds;
      candidates = map candidate_of candidates;
    }) in
    let (picked, eq, any) = choose-Any candidates proposal (λ z. ground arith) in
    (
      record {
        group_id = group.id;
        node_id = picked;
        next = group.next;
        scheduler = group.scheduler;
        candidate_count = length candidates;
      },
      rw (known, on, listed, some_left, eq) refl,
    )

-- The errors that say that a group has no node to offer.
abbrev pub OutOfNodes : GroupError → Type 0
OutOfNodes (no_enabled_node id) = Unit
OutOfNodes (no_capable_node id family) = Unit
OutOfNodes _ = ⊥

-- A known, enabled group fails only if it has no node to offer.
pub hop-OutOfNodes :
    (store : GroupStore) (nodes : NodeStore) (family : IpFamily)
    (select_node : GroupCandidateSet → Option NodeId) (id : GroupId) {group : ForwardGroup}
    {e : GroupError}
    → get id store.groups ≡ some group
    → group.enabled ≡ true
    → select_group_hop store id nodes family select_node ≡ err e
    → OutOfNodes e
unfolding select_group_hop
hop-OutOfNodes store nodes family select_node id {group} {e} known on h =
    elim (Option-cases (get id store.members)) [
      | inl none_listed ↦
          let same : no_enabled_node id ≡ e = ground (arith, known, on, none_listed, h) in
          subst OutOfNodes same tt
      | inr (members, listed) ↦
          elim (Bool-cases (length (eligible_members nodes family members) == 0)) [
            | inl empty ↦
                let same : no_capable_node id family ≡ e =
                  ground (arith, known, on, listed, empty, h) in
                subst OutOfNodes same tt
            | inr some_left ↦
                let (hop, eq) =
                  hop-eligible store nodes family select_node id known on listed some_left in
                cc (eq, h)
          ]
    ]
