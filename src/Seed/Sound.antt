-- ===== src/Seed/Sound.antt =====
-- validation.rs: what a seed is like that the database takes.
use dynet.Base.{
  Distinct, ◌≡◌, ◌≢◌, ◌⊎◌, inl, inr, true, false, not, ◌&&◌, ◌!=◌, List, [], map, none, some, any,
  All, All-map, Bool-cases, Option-cases, arith, ap,
}
use dynet.Base.Order.{nat_ord, list_ord, eqb, eqb-eq}
use dynet.Base.OrdMap.{get}
use dynet.Base.Outcome.{ok}
use dynet.Base.Text.{Text, text}
use dynet.Routing.Types.{ForwardNode, ForwardGroup, GroupMember, RouteRule, next_label}
use dynet.Runtime.{RuntimeSeed}
use dynet.Seed.{
  Names, each, require, find_group, find_node, add_forwarding_names, add_ids, reserved_node,
  reserved_group, duplicate_rule, duplicate_upstream, no_nodes, no_enabled_upstream, zero_timeout,
  validate_unique_rule_ids, validate_unique_dns_ids, validate_unique_ids,
  validate_group_next_reference, validate_group_next_cycle, validate_group_next_refs,
  validate_member, validate_rule, validate_references, validate_dns_upstream, validate_default,
  validate_seed, no_node,
}
use dynet.Seed.Names.{bind-ok, each-ok, require-ok, IsAdded, add_ids-ok, add_forwarding_names-ok}
use dynet.Seed.Chains.{Ends, validate_group_next_cycle-Ends}

-- A group's link is the outlet, or names an enabled node, or names no node but an enabled group.
abbrev pub Linked : List ForwardNode → List ForwardGroup → ForwardGroup → Type 0
Linked nodes groups group =
    (next_label group.next ≡ text "direct")
    ⊎ (((node : ForwardNode) × (find_node nodes (next_label group.next) ≡ some node)
          × (node.enabled ≡ true))
        ⊎ ((other : ForwardGroup) × (find_node nodes (next_label group.next) ≡ none)
            × (find_group groups (next_label group.next) ≡ some other)
            × (other.enabled ≡ true)))

-- Some group, some node has the name.
abbrev pub GroupNamed : List ForwardGroup → Text → Type 0
GroupNamed groups id = any (λ group. eqb group.id id) groups ≡ true

abbrev pub NodeNamed : List ForwardNode → Text → Type 0
NodeNamed nodes id = any (λ node. eqb node.id id) nodes ≡ true

abbrev pub Unreserved : List Text → Type 0
Unreserved ids = All (λ id. eqb id (text "direct") ≡ false) ids

-- What the tables of a runtime rely on: names are not shared and not the outlet's, every reference
-- names something, links lead out.
pub record IsSeed (seed : RuntimeSeed) : Type 0 where
  pub distinct_nodes : Distinct (map (λ node. node.id) seed.nodes)
  pub distinct_groups : Distinct (map (λ group. group.id) seed.groups)
  pub apart :
      All
        (λ g. All (λ n. n ≢ g) (map (λ node. node.id) seed.nodes))
        (map (λ group. group.id) seed.groups)
  pub unreserved_nodes : Unreserved (map (λ node. node.id) seed.nodes)
  pub unreserved_groups : Unreserved (map (λ group. group.id) seed.groups)
  pub distinct_rules : Distinct (map (λ rule. rule.id) seed.route_rules)
  pub distinct_upstreams : Distinct (map (λ upstream. upstream.id) seed.dns_upstreams)
  pub some_node : no_node seed.nodes ≡ false
  pub default_group :
      (group : ForwardGroup) × (find_group seed.groups seed.default_group_id ≡ some group)
      × (group.enabled ≡ true)
  pub default_member :
      any (λ member. eqb member.group_id seed.default_group_id && member.enabled) seed.group_members
      ≡ true
  pub members :
      All
        (λ m. GroupNamed seed.groups m.group_id × NodeNamed seed.nodes m.node_id)
        seed.group_members
  pub rules : All (λ r. GroupNamed seed.groups r.group_id) seed.route_rules
  pub links : All (Linked seed.nodes seed.groups) seed.groups
  pub ends : All (λ g. Ends seed.nodes seed.groups g.id) seed.groups
  pub some_upstream : any (λ upstream. upstream.enabled) seed.dns_upstreams ≡ true
  pub positive : seed.dns_policy.timeout ≢ 0

-- A name that one set has and another list is fresh for is not in the list.
held-apart :
    (names : Names) (g : Text) (ids : List Text)
    → get g names ≡ none
    → All (λ id. get id names ≡ some tt) ids
    → All (λ id. id ≢ g) ids
held-apart names g ids h held =
    All-map (λ id e same. cc (h, e, ap (λ x. get x names) same)) ids held

default-ok :
    (seed : RuntimeSeed)
    → validate_default seed ≡ ok tt
    → ((group : ForwardGroup) × (find_group seed.groups seed.default_group_id ≡ some group)
        × (group.enabled ≡ true))
      × (any
            (λ member. eqb member.group_id seed.default_group_id && member.enabled)
            seed.group_members
          ≡ true)
unfolding validate_default
default-ok seed h = elim (Option-cases (find_group seed.groups seed.default_group_id)) [
  | inl e ↦ cc (rw (validate_default, e) at h)
  | inr (group, e) ↦ elim (Bool-cases group.enabled) [
    | inr off ↦ cc (rw (validate_default, e, off) at h)
    | inl on ↦
        elim (Bool-cases (
          any (λ member. eqb member.group_id seed.default_group_id && member.enabled)
            seed.group_members)) [
              | inl m ↦ ((group, e, on), m)
              | inr m ↦ cc (rw (validate_default, e, on, m) at h)
            ]
  ]
]

module _ (nodes : List ForwardNode) (groups : List ForwardGroup) where
  member-ok :
      (m : GroupMember)
      → validate_member nodes groups m ≡ ok tt
      → GroupNamed groups m.group_id × NodeNamed nodes m.node_id
  unfolding validate_member
  member-ok m h = ground (arith, h)

  rule-ok : (r : RouteRule) → validate_rule groups r ≡ ok tt → GroupNamed groups r.group_id
  unfolding validate_rule
  rule-ok r h = ground (arith, h)

  reference-ok :
      (g : ForwardGroup)
      → validate_group_next_reference nodes groups g ≡ ok tt
      → Linked nodes groups g
  unfolding validate_group_next_reference
  reference-ok g h = elim (Bool-cases (eqb (next_label g.next) (text "direct"))) [
    | inl d ↦ inl (eqb-eq (next_label g.next) (text "direct") d)
    | inr d ↦ elim (Option-cases (find_node nodes (next_label g.next))) [
      | inr (n, e) ↦
          inr (inl (n, e, require-ok n.enabled _ (rw (validate_group_next_reference, d, e) at h)))
      | inl e ↦ elim (Option-cases (find_group groups (next_label g.next))) [
        | inr (other, f) ↦ inr (
            inr (
              other,
              e,
              f,
              require-ok other.enabled _ (rw (validate_group_next_reference, d, e, f) at h),
            ))
        | inl f ↦ cc (rw (validate_group_next_reference, d, e, f) at h)
      ]
    ]
  ]

-- The names that the four loops pass.
record IsUnique (seed : RuntimeSeed) : Type 0 where
  names : Names
  all_names : Names
  rule_names : Names
  upstream_names : Names
  nodes : IsAdded (map (λ node. node.id) seed.nodes) [] names
  free_nodes : Unreserved (map (λ node. node.id) seed.nodes)
  groups : IsAdded (map (λ group. group.id) seed.groups) names all_names
  free_groups : Unreserved (map (λ group. group.id) seed.groups)
  rules : IsAdded (map (λ rule. rule.id) seed.route_rules) [] rule_names
  upstreams : IsAdded (map (λ upstream. upstream.id) seed.dns_upstreams) [] upstream_names

IsUnique-ok :
    (seed : RuntimeSeed)
    → validate_unique_ids seed.nodes seed.groups seed.route_rules seed.dns_upstreams ≡ ok tt
    → IsUnique seed
unfolding validate_unique_ids validate_unique_rule_ids validate_unique_dns_ids
IsUnique-ok seed h =
    let (names, e, h1) =
      bind-ok (add_forwarding_names reserved_node (map (λ node. node.id) seed.nodes) []) _ h in
    let (all, f, h2) =
      bind-ok (add_forwarding_names reserved_group (map (λ group. group.id) seed.groups) names) _
        h1 in
    let (done, r, h3) = bind-ok (validate_unique_rule_ids seed.route_rules) _ h2 in
    let (rule_names, rules, h4) =
      bind-ok (add_ids duplicate_rule (map (λ rule. rule.id) seed.route_rules) []) _ r in
    let (upstream_names, upstreams, h5) =
      bind-ok (add_ids duplicate_upstream (map (λ upstream. upstream.id) seed.dns_upstreams) []) _
        h3 in
    let (nodes, free_nodes) = add_forwarding_names-ok reserved_node _ [] names e in
    let (groups, free_groups) = add_forwarding_names-ok reserved_group _ names all f in
    record {
      names = names;
      all_names = all;
      rule_names = rule_names;
      upstream_names = upstream_names;
      nodes = nodes;
      free_nodes = free_nodes;
      groups = groups;
      free_groups = free_groups;
      rules = add_ids-ok duplicate_rule _ [] rule_names rules;
      upstreams = add_ids-ok duplicate_upstream _ [] upstream_names upstreams;
    }

-- A seed that is accepted has names that are not shared, each of its references names something, its
-- default group can be used, and from every group the links lead out and pass no group twice.
pub validate_seed-IsSeed : (seed : RuntimeSeed) → validate_seed seed ≡ ok tt → IsSeed seed
unfolding validate_seed validate_references validate_group_next_refs
validate_seed-IsSeed seed h =
    let nodes = seed.nodes in
    let groups = seed.groups in
    let (a, unique, h1) =
      bind-ok (validate_unique_ids nodes groups seed.route_rules seed.dns_upstreams) _ h in
    let (b, some_node, h2) = bind-ok (require (not (no_node nodes)) no_nodes) _ h1 in
    let (c, default, h3) = bind-ok (validate_default seed) _ h2 in
    let (d, references, h4) =
      bind-ok (validate_references nodes groups seed.group_members seed.route_rules) _ h3 in
    let (e, enabled, h5) =
      bind-ok (require (any (λ upstream. upstream.enabled) seed.dns_upstreams) no_enabled_upstream)
        _ h4 in
    let (f, upstreams, h6) = bind-ok (each validate_dns_upstream seed.dns_upstreams) _ h5 in
    let (i, members, r1) =
      bind-ok (each (validate_member nodes groups) seed.group_members) _ references in
    let (j, rules, r2) = bind-ok (each (validate_rule groups) seed.route_rules) _ r1 in
    let (k, next, chains) =
      bind-ok (each (validate_group_next_reference nodes groups) groups) _ r2 in
    let u = IsUnique-ok seed unique in
    let (default_group, default_member) = default-ok seed default in
    record {
      distinct_nodes = u.nodes.distinct;
      distinct_groups = u.groups.distinct;
      apart = All-map (λ g n. held-apart u.names g _ n u.nodes.held) _ u.groups.fresh;
      unreserved_nodes = u.free_nodes;
      unreserved_groups = u.free_groups;
      distinct_rules = u.rules.distinct;
      distinct_upstreams = u.upstreams.distinct;
      some_node = ground (arith, require-ok (not (no_node nodes)) no_nodes some_node);
      default_group = default_group;
      default_member = default_member;
      members =
          All-map (λ m e. member-ok nodes groups m e) seed.group_members
            (each-ok (validate_member nodes groups) seed.group_members members);
      rules =
          All-map (λ r e. rule-ok nodes groups r e) seed.route_rules
            (each-ok (validate_rule groups) seed.route_rules rules);
      links =
          All-map (λ g e. reference-ok nodes groups g e) groups
            (each-ok (validate_group_next_reference nodes groups) groups next);
      ends =
          All-map (λ g e. (validate_group_next_cycle-Ends nodes groups g.id).1 e) groups
            (each-ok (λ g. validate_group_next_cycle nodes groups g.id) groups chains);
      some_upstream =
          require-ok (any (λ upstream. upstream.enabled) seed.dns_upstreams) no_enabled_upstream
            enabled;
      positive = ground (arith, require-ok (seed.dns_policy.timeout != 0) zero_timeout h6);
    }
