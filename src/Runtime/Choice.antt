-- ===== src/Runtime/Choice.antt =====
-- `RuntimeState::select` of lib.rs: what a decision is, and that there is one or an error.
use dynet.Base.{
  ℕ, ◌≡◌, refl, ◌⊎◌, inl, inr, Bool, true, false, List, [], Option, none, some, get_elem?,
  Option-cases, arith, sym, subst,
}
use dynet.Base.Opt.{or_else}
use dynet.Base.Outcome.{Outcome, ok, err, panic}
use dynet.Base.Words.{add_u64}
use dynet.Routing.Types.{
  GroupId, IpFamily, ipv4, ipv6, Ipv6RulePolicy, deny, allow, inherit, Ipv6PolicySource, global,
  rule, from_address, SelectionContext, SelectionDecision, SelectionTraceHop, SelectionTerminal,
  RouteMatch, GroupSelection, MatrixCandidateInput,
}
use dynet.Routing.Matching.{match_group}
use dynet.Routing.Groups.{GroupError, select_graph_with, enabled_candidates}
use dynet.Routing.Groups.Walk.{Route, select_graph_with-Route, Sound, to_outlet, to_node, onward}
use dynet.Runtime.{
  RuntimeState, SelectionError, selection_error, no_default_group, ipv6_disabled, ipv6_denied,
  ipv6_policy, walked, plan, select, scheduler_of, decision_of, state_after,
  record_shadow_selection,
}

module _ (state : RuntimeState) (context : SelectionContext) where
  abbrev match_of : RouteMatch
  match_of = match_group state.routing.routes context.target

  abbrev family_of : IpFamily
  family_of = from_address context.target.address.ip

  -- What `plan` answers for a flow that is let through.
  record IsPlan (group_id : GroupId) (selection : GroupSelection) (source : Option Ipv6PolicySource)
      : Type 0 where
    pub group :
        or_else
          (match_group state.routing.routes context.target).group_id
          state.routing.groups.default_group
        ≡ some group_id
    pub allowed :
        ipv6_policy
          (from_address context.target.address.ip)
          state.routing.ipv6_enabled
          (match_group state.routing.routes context.target)
        ≡ ok source
    pub route :
        Route state.routing.groups state.routing.nodes
          (from_address context.target.address.ip)
          group_id
          selection.trace
          selection.terminal

  policy-cases :
      (family : IpFamily) (on : Bool) (match : RouteMatch)
      → ((s : Option Ipv6PolicySource) × (ipv6_policy family on match ≡ ok s))
        ⊎ ((e : SelectionError) × (ipv6_policy family on match ≡ err e))
  unfolding ipv6_policy
  policy-cases ipv4 on match = inl (none, refl)
  policy-cases ipv6 false match = inr (ipv6_disabled, refl)
  policy-cases ipv6 true match = at match.ipv6_policy refl
    where
      at :
          (p : Ipv6RulePolicy)
          → match.ipv6_policy ≡ p
          → ((s : Option Ipv6PolicySource) × (ipv6_policy ipv6 true match ≡ ok s))
            ⊎ ((e : SelectionError) × (ipv6_policy ipv6 true match ≡ err e))
      at deny e = inr (ipv6_denied match.rule_id, rw e refl)
      at allow e = inl (some rule, rw e refl)
      at inherit e = inl (some global, rw e refl)

  Plans : Type 0
  Plans =
      ((group_id : GroupId) × (selection : GroupSelection) × (source : Option Ipv6PolicySource)
        × (plan state context ≡ ok (group_id, selection, source))
        × IsPlan group_id selection source)
      ⊎ ((e : SelectionError) × (plan state context ≡ err e))

  walk-plan :
      (source : Option Ipv6PolicySource) (group_id : GroupId)
      → ipv6_policy
          (from_address context.target.address.ip)
          state.routing.ipv6_enabled
          (match_group state.routing.routes context.target)
        ≡ ok source
      → or_else
          (match_group state.routing.routes context.target).group_id
          state.routing.groups.default_group
        ≡ some group_id
      → (r : Outcome GroupError GroupSelection)
      → select_graph_with state.routing.groups state.routing.nodes
          (from_address context.target.address.ip)
          (scheduler_of state context)
          group_id
        ≡ some r
      → Sound state.routing.groups state.routing.nodes
          (from_address context.target.address.ip)
          group_id
          []
          r
      → Plans
  unfolding Plans plan walked
  walk-plan source group_id a g (ok selection) e (hops, t, route) = inl (
    group_id,
    selection,
    source,
    ground (arith, a, g, e),
    record {
      group = g;
      allowed = a;
      route =
          subst
            (λ h.
              Route state.routing.groups state.routing.nodes family_of group_id h
                selection.terminal)
            (sym t) route;
    },
  )
  walk-plan source group_id a g (err x) e sound = inr (selection_error x, ground (arith, a, g, e))
  walk-plan source group_id a g panic e sound = absurd sound

  plan-cases : Plans
  unfolding Plans plan
  plan-cases = elim (policy-cases family_of state.routing.ipv6_enabled match_of) [
    | inr (x, a) ↦ inr (x, ground (arith, a))
    | inl (source, a) ↦
        elim (Option-cases (or_else match_of.group_id state.routing.groups.default_group)) [
          | inl g ↦ inr (no_default_group, ground (arith, a, g))
          | inr (group_id, g) ↦
              let (r, e, sound) =
                select_graph_with-Route state.routing.groups state.routing.nodes family_of
                  (scheduler_of state context) group_id in
              walk-plan source group_id a g r e sound
        ]
  ]

  -- A decision for the flow, and the state that is left behind it.
  pub record IsDecision (after : RuntimeState) (d : SelectionDecision) : Type 0 where
    pub group :
        or_else
          (match_group state.routing.routes context.target).group_id
          state.routing.groups.default_group
        ≡ some d.group_id
    pub matched : d.matched_rule_id ≡ (match_group state.routing.routes context.target).rule_id
    pub allowed :
        ipv6_policy
          (from_address context.target.address.ip)
          state.routing.ipv6_enabled
          (match_group state.routing.routes context.target)
        ≡ ok d.ipv6_policy_source
    pub route :
        Route state.routing.groups state.routing.nodes
          (from_address context.target.address.ip)
          d.group_id
          d.trace
          d.terminal
    pub first :
        (hop : SelectionTraceHop) × (get_elem? d.trace 0 ≡ some hop)
        × (d.node_id ≡ hop.node_id)
        × (d.next ≡ hop.next)
    pub generation : d.config_generation ≡ state.routing.generation
    pub id : d.decision_id ≡ add_u64 state.next_decision_id 1
    pub counted : after.next_decision_id ≡ d.decision_id
    pub same_routing : after.routing ≡ state.routing
    pub same_sessions : after.traffic_sessions ≡ state.traffic_sessions
    pub same_events : after.events ≡ state.events
    pub same_names : after.dns_map ≡ state.dns_map

  first-Route :
      {at : GroupId} {hops : List SelectionTraceHop} {end : SelectionTerminal}
      → Route state.routing.groups state.routing.nodes
          (from_address context.target.address.ip)
          at
          hops
          end
      → (hop : SelectionTraceHop) × (get_elem? hops 0 ≡ some hop)
  first-Route (to_outlet {hop} h n) = (hop, refl)
  first-Route (to_node {hop} h n k) = (hop, refl)
  first-Route (onward {hop} h n k r) = (hop, refl)

  -- The shadow store is the only part of the state that a listing of candidates may change.
  shadow_same :
      (s : RuntimeState) (now : ℕ) (g : GroupId) (d : SelectionDecision)
      (listed : Outcome GroupError (List MatrixCandidateInput))
      → ((record_shadow_selection s now context g d listed).routing ≡ s.routing)
        × ((record_shadow_selection s now context g d listed).next_decision_id ≡ s.next_decision_id)
        × ((record_shadow_selection s now context g d listed).traffic_sessions ≡ s.traffic_sessions)
        × ((record_shadow_selection s now context g d listed).events ≡ s.events)
        × ((record_shadow_selection s now context g d listed).dns_map ≡ s.dns_map)
  unfolding record_shadow_selection
  shadow_same s now g d (ok candidates) = (refl, refl, refl, refl, refl)
  shadow_same s now g d (err e) = (refl, refl, refl, refl, refl)
  shadow_same s now g d panic = (refl, refl, refl, refl, refl)

  pub select-IsDecision :
      (now : ℕ)
      → ((after : RuntimeState) × (d : SelectionDecision) × (select state now context
            ≡ ok (after, d))
          × IsDecision after d)
        ⊎ ((e : SelectionError) × (select state now context ≡ err e))
  unfolding select Plans
  select-IsDecision now = elim plan-cases [
    | inr (e, p) ↦ inr (e, rw p refl)
    | inl (g, selection, source, p, is_plan) ↦
        let (hop, h) = first-Route is_plan.route in
        let d = decision_of state context g selection source hop in
        let (r, n, t, v, m) =
          shadow_same (record state { next_decision_id = d.decision_id }) now g d
            (enabled_candidates state.routing.groups g state.routing.nodes family_of) in
        inl (
          state_after state now context g d,
          d,
          rw (p, h) refl,
          record {
            group = is_plan.group;
            matched = refl;
            allowed = is_plan.allowed;
            route = is_plan.route;
            first = (hop, h, refl, refl);
            generation = refl;
            id = refl;
            counted = n;
            same_routing = r;
            same_sessions = t;
            same_events = v;
            same_names = m;
          },
        )
  ]
