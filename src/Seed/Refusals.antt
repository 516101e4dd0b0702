-- ===== src/Seed/Refusals.antt =====
-- stores.rs and lib.rs on the tables of a seed that the database took: the errors of a walk, in the
-- seed's own terms.
use dynet.Base.{
  ◌≡◌, ◌≢◌, refl, inl, inr, true, false, List, Option, some, All, Bool-cases, sym, ◌∙◌, subst, ap,
}
use dynet.Base.Order.{nat_ord, list_ord}
use dynet.Base.OrdMap.{get}
use dynet.Base.Outcome.{Outcome, ok, err, panic}
use dynet.Base.Text.{Text}
use dynet.Routing.Types.{
  GroupId, GroupMember, ForwardNode, ForwardGroup, IpFamily, ipv6, deny, from_address,
  SelectionContext, GroupCandidateSet, NodeId, GroupSelection,
}
use dynet.Routing.Nodes.{from_nodes, is_eligible}
use dynet.Routing.Groups.Hop.{OutOfNodes}
use dynet.Routing.Groups.Members.{Held, from_parts-Held}
use dynet.Routing.Groups.{
  GroupStore, GroupError, missing, disabled, no_enabled_node, no_capable_node, next_cycle,
  from_parts, select_graph_with,
}
use dynet.Routing.Groups.Clear.{Answers, select_graph_with-disabled}
use dynet.Routing.Matching.{match_group, from_rules}
use dynet.Runtime.{
  RuntimeSeed, SelectionError, selection_error, no_default_group, ipv6_disabled, ipv6_denied,
}
use dynet.Routing.Groups.Exhausted.{Exhausted, select_graph_with-Exhausted}
use dynet.Seed.{find_group, validate_seed}
use dynet.Seed.Sound.{validate_seed-IsSeed}
use dynet.Seed.Tables.{get-from_parts}
use dynet.Seed.Routes.{IsNamed, validate_seed-Answers}

-- A member that is switched off, or whose node does not serve the family.
abbrev pub Unfit : List ForwardNode → IpFamily → GroupMember → Type 0
Unfit nodes family m = m.enabled ≡ true → is_eligible (from_nodes nodes) m.node_id family ≡ false

-- The errors that a flow may meet on the tables of a valid seed: its IPv6 is off, or denied by the
-- rule that it matches; the group that the error names is one of the seed's and switched off; or it
-- is one and enabled, and is given no member, or none that is enabled and whose node serves the
-- flow's family.
abbrev pub Refusal : RuntimeSeed → SelectionContext → SelectionError → Type 0
Refusal seed context (selection_error (disabled id)) =
    (group : ForwardGroup) × (find_group seed.groups id ≡ some group) × (group.enabled ≡ false)
Refusal seed context (selection_error (no_enabled_node id)) =
    (group : ForwardGroup) × (find_group seed.groups id ≡ some group)
    × (group.enabled ≡ true)
    × All (λ m. m.group_id ≢ id) seed.group_members
Refusal seed context (selection_error (no_capable_node id family)) =
    (family ≡ from_address context.target.address.ip)
    × ((group : ForwardGroup) × (find_group seed.groups id ≡ some group)
        × (group.enabled ≡ true)
        × All (λ m. m.group_id ≡ id → Unfit seed.nodes family m) seed.group_members)
Refusal seed context (selection_error (missing id)) = ⊥
Refusal seed context (selection_error (next_cycle id)) = ⊥
Refusal seed context no_default_group = ⊥
Refusal seed context ipv6_disabled =
    (from_address context.target.address.ip ≡ ipv6) × (seed.ipv6_enabled ≡ false)
Refusal seed context (ipv6_denied id) =
    (from_address context.target.address.ip ≡ ipv6)
    × ((match_group (from_rules seed.route_rules) context.target).ipv6_policy ≡ deny)

-- The tables of a seed's groups.
abbrev pub tables : RuntimeSeed → GroupStore
tables seed = from_parts seed.default_group_id seed.groups seed.group_members

module _ (seed : RuntimeSeed) (valid : validate_seed seed ≡ ok tt)
    (links : All IsNamed seed.groups) where
  pub known :
      (id : Text) {g : ForwardGroup}
      → find_group seed.groups id ≡ some g
      → get id (tables seed).groups ≡ some g
  known id e =
      get-from_parts seed.default_group_id seed.nodes seed.groups seed.group_members id
        (validate_seed-IsSeed seed valid).distinct_groups
      ∙ e

  listed :
      (id : Text) {g : ForwardGroup}
      → get id (tables seed).groups ≡ some g
      → find_group seed.groups id ≡ some g
  listed id e =
      sym (
        get-from_parts seed.default_group_id seed.nodes seed.groups seed.group_members id
          (validate_seed-IsSeed seed valid).distinct_groups)
      ∙ e

  -- What a walk may answer.
  abbrev pub Walks : SelectionContext → Outcome GroupError GroupSelection → Type 0
  Walks context (ok selection) = Unit {0}
  Walks context (err e) = Refusal seed context (selection_error e)
  Walks context panic = ⊥

  -- What the tables say of a group that has no node, the seed says as well.
  Exhausted-Walks :
      (context : SelectionContext) (e : GroupError)
      → OutOfNodes e
      → Exhausted (tables seed) (from_nodes seed.nodes) (from_address context.target.address.ip) e
      → Refusal seed context (selection_error e)
  Exhausted-Walks context (no_enabled_node id) out (group, there, on, unlisted) = (
    group,
    listed id there,
    on,
    from_parts-Held (λ m. ⊥) id seed.default_group_id seed.groups seed.group_members
        (subst (Held (λ m. ⊥)) (sym unlisted) tt),
  )
  Exhausted-Walks context (no_capable_node id family) out
        (same, (group, there, on, (members, held, none_fit))) =
      (
        same,
        (
          group,
          listed id there,
          on,
          from_parts-Held (Unfit seed.nodes family) id seed.default_group_id seed.groups
              seed.group_members
              (subst (Held (Unfit seed.nodes family)) (sym held)
                (subst (λ f. All (Unfit seed.nodes f) members) (sym same) none_fit)),
        ),
      )
  Exhausted-Walks context (missing id) out why = absurd out
  Exhausted-Walks context (disabled id) out why = absurd out
  Exhausted-Walks context (next_cycle id) out why = absurd out

  Answers-Walks :
      (context : SelectionContext) (r : Outcome GroupError GroupSelection)
      → Answers (some r)
      → ((e : GroupError)
          → r ≡ err e
          → Exhausted
              (tables seed)
              (from_nodes seed.nodes)
              (from_address context.target.address.ip)
              e)
      → Walks context r
  Answers-Walks context (ok selection) a why = tt
  Answers-Walks context (err e) a why = Exhausted-Walks context e a (why e refl)
  Answers-Walks context panic a why = a

  -- From a group of the seed.
  pub walk-Walks :
      (context : SelectionContext) (select_node : GroupCandidateSet → Option NodeId) (id : GroupId)
      → (group : ForwardGroup) × (find_group seed.groups id ≡ some group)
      → (r : Outcome GroupError GroupSelection) × (select_graph_with
            (tables seed)
            (from_nodes seed.nodes)
            (from_address context.target.address.ip)
            select_node
            id
          ≡ some r)
        × Walks context r
  walk-Walks context select_node id (group, there) = elim (Bool-cases group.enabled) [
    | inr off ↦ (
      err (disabled id),
      select_graph_with-disabled (tables seed) (from_nodes seed.nodes)
          (from_address context.target.address.ip) select_node id (known id there) off,
      (group, there, off),
    )
    | inl on ↦
        let (r, e, sound, answers) =
          validate_seed-Answers seed (from_address context.target.address.ip) select_node id group
            valid links there on in
        (
          r,
          e,
          Answers-Walks context r answers λ x is.
              select_graph_with-Exhausted (tables seed) (from_nodes seed.nodes)
                (from_address context.target.address.ip) select_node id (e ∙ ap some is),
        )
  ]
