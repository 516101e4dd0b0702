-- ===== src/Routing/Groups/Candidates.antt =====
-- A hop of the walk and the candidates that `GroupStore::enabled_candidates` lists for its group, in
-- stores.rs, are computed apart and agree.
use dynet.Base.{
  ◌≡◌, inl, inr, ◌&&◌, List, [], ◌∷◌, Option, length, Any, map, arith, Bool-cases, length-map,
  subst,
}
use dynet.Base.Order.{nat_ord, list_ord}
use dynet.Base.Outcome.{ok}
use dynet.Routing.Types.{
  NodeId, GroupId, GroupMember, IpFamily, GroupCandidateSet, SelectionTraceHop,
  MatrixCandidateInput,
}
use dynet.Routing.Nodes.{NodeStore, is_eligible}
use dynet.Routing.Groups.{
  GroupStore, select_group_hop, eligible_members, candidate_of, enabled_candidates,
}
use dynet.Routing.Groups.Hop.{IsHop, Offers, hop-cases}

module _ (nodes : NodeStore) (family : IpFamily) where
  Offers-candidates :
      (id : NodeId) (members : List GroupMember)
      → Offers nodes family id members
      → Any (λ c. c.node_id ≡ id) (map candidate_of (eligible_members nodes family members))
  Offers-candidates id [] h = absurd h
  Offers-candidates id (m ∷ ms) (inl (e, f, g)) = rw (e, f) (inl g)
  Offers-candidates id (m ∷ ms) (inr h) =
      elim (Bool-cases (m.enabled && is_eligible nodes m.node_id family)) [
        | inl e ↦ rw e (inr (Offers-candidates id ms h))
        | inr e ↦ rw e (Offers-candidates id ms h)
      ]

module _ (store : GroupStore) (nodes : NodeStore) (family : IpFamily)
    (select_node : GroupCandidateSet → Option NodeId) (id : GroupId) where
  IsHop-candidates :
      {hop : SelectionTraceHop}
      → IsHop store nodes family id hop
      → (candidates : List MatrixCandidateInput) × (enabled_candidates store id nodes family
          ≡ ok candidates)
        × (length candidates ≡ hop.candidate_count)
        × Any (λ c. c.node_id ≡ hop.node_id) candidates
  unfolding enabled_candidates
  IsHop-candidates {hop} is_hop = (
    map candidate_of (eligible_members nodes family is_hop.members),
    ground (arith, is_hop.known, is_hop.enabled, is_hop.listed),
    omega (
      arith,
      length-map (eligible_members nodes family is_hop.members) candidate_of,
      is_hop.counted,
    ),
    Offers-candidates nodes family hop.node_id is_hop.members is_hop.offered,
  )

  -- Whatever a scheduler proposes, the node that a hop takes is one of the candidates that
  -- `enabled_candidates` lists for the group, and the hop counts exactly those.
  pub hop-candidates :
      {hop : SelectionTraceHop}
      → select_group_hop store id nodes family select_node ≡ ok hop
      → (candidates : List MatrixCandidateInput) × (enabled_candidates store id nodes family
          ≡ ok candidates)
        × (length candidates ≡ hop.candidate_count)
        × Any (λ c. c.node_id ≡ hop.node_id) candidates
  hop-candidates {hop} h = elim (hop-cases store nodes family select_node id) [
    | inr (e, eq) ↦ cc (h, eq)
    | inl (hop', eq, is_hop) ↦
        let same : hop' ≡ hop = cc (h, eq) in
        subst
          (λ t.
            (candidates : List MatrixCandidateInput) × (enabled_candidates store id nodes family
              ≡ ok candidates)
            × (length candidates ≡ t.candidate_count)
            × Any (λ c. c.node_id ≡ t.node_id) candidates)
          same (IsHop-candidates is_hop)
  ]
