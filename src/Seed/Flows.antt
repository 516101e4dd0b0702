-- ===== src/Seed/Flows.antt =====
-- lib.rs on the tables of a seed that the database took: which errors `select` answers.
use dynet.Base.{
  ℕ, ◌≡◌, ◌≢◌, refl, ◌⊎◌, inl, inr, Bool, true, false, List, [], ◌∷◌, keep, find, Option, none,
  some, All, get_elem?, Bool-cases, Option-cases, arith, sym, ◌∙◌, subst,
}
use dynet.Base.Opt.{or_else}
use dynet.Base.Order.{nat_ord, list_ord}
use dynet.Base.Outcome.{Outcome, ok, err, panic}
use dynet.Base.Text.{Text}
use dynet.Routing.Types.{
  GroupId, ForwardGroup, RouteRule, IpFamily, ipv4, ipv6, Ipv6RulePolicy, deny, allow, inherit,
  Ipv6PolicySource, RouteMatch, from_address, TargetContext, SelectionContext, GroupSelection,
}
use dynet.Routing.Nodes.{from_nodes}
use dynet.Routing.Groups.{GroupError, select_graph_with}
use dynet.Routing.Groups.Clear.{from_parts-default_group}
use dynet.Routing.Matching.{match_group, route_match, from_rules, rule_order, matches}
use dynet.Base.Sort.{sort_by, sort_by-All}
use dynet.Runtime.{
  RuntimeState, RuntimeSeed, routing_from_seed, SelectionError, selection_error, ipv6_disabled,
  ipv6_denied, ipv6_policy, walked, plan, select, scheduler_of,
}
use dynet.Seed.{find_group, validate_seed}
use dynet.Seed.Sound.{GroupNamed, validate_seed-IsSeed}
use dynet.Seed.Tables.{any-found}
use dynet.Seed.Routes.{IsNamed, find-All}
use dynet.Seed.Refusals.{Refusal, tables, known, Walks, walk-Walks}

policy-refusal :
    (family : IpFamily) (on : Bool) (match : RouteMatch) {e : SelectionError}
    → ipv6_policy family on match ≡ err e
    → ((family ≡ ipv6) × (on ≡ false) × (e ≡ ipv6_disabled))
      ⊎ ((family ≡ ipv6) × (match.ipv6_policy ≡ deny) × (e ≡ ipv6_denied match.rule_id))
unfolding ipv6_policy
policy-refusal ipv4 on match h = cc
policy-refusal ipv6 false match h = inl (refl, refl, cc h)
policy-refusal ipv6 true match {e} h = at match.ipv6_policy refl
  where
    at :
        (p : Ipv6RulePolicy)
        → match.ipv6_policy ≡ p
        → ((ipv6 ≡ ipv6) × (true ≡ false) × (e ≡ ipv6_disabled))
          ⊎ ((ipv6 ≡ ipv6) × (match.ipv6_policy ≡ deny) × (e ≡ ipv6_denied match.rule_id))
    at deny p = inr (refl, p, ground (arith, h, p))
    at allow p = absurd (ground (arith, h, p))
    at inherit p = absurd (ground (arith, h, p))

keep-All : {A : Type 0} (P : A → Type 0) (q : A → Bool) (xs : List A) → All P xs → All P (keep q xs)
keep-All P q [] all = tt
keep-All P q (x ∷ xs) all = elim (Bool-cases (q x)) [
  | inl e ↦ rw e (all.0, keep-All P q xs all.1)
  | inr e ↦ rw e (keep-All P q xs all.1)
]

-- A group that a rule names is named by one of the rules that were given.
match_group-All :
    (P : GroupId → Type 0) (rules : List RouteRule) (target : TargetContext) {id : GroupId}
    → All (λ r. P r.group_id) rules
    → (match_group (from_rules rules) target).group_id ≡ some id
    → P id
unfolding match_group route_match from_rules
match_group-All P rules target all h =
    let kept : All (λ r. P r.group_id) (keep (λ rule. rule.enabled) (sort_by rule_order rules)) =
      keep-All (λ r. P r.group_id) (λ rule. rule.enabled) (sort_by rule_order rules)
        (sort_by-All rule_order (λ r. P r.group_id) rules all) in
    elim (Option-cases (
      find (λ rule. matches rule.matcher target)
        (keep (λ rule. rule.enabled) (sort_by rule_order rules)))) [
          | inl e ↦ cc (rw e at h)
          | inr (rule, e) ↦
              let same : rule.group_id ≡ _ = some_injective (rw e at h) in
              subst P same
                (find-All (λ r. P r.group_id) (λ rule. matches rule.matcher target) _ e kept).0
        ]
  where
    some_injective : {a b : GroupId} → some a ≡ some b → a ≡ b
    some_injective h = cc h

module _ (seed : RuntimeSeed) (valid : validate_seed seed ≡ ok tt)
    (links : All IsNamed seed.groups) where
  -- A group that some flow starts at: it is one of the seed's.
  Known : Text → Type 0
  Known id = (group : ForwardGroup) × (find_group seed.groups id ≡ some group)

  Known-named : (id : Text) → GroupNamed seed.groups id → Known id
  unfolding Known
  Known-named id named = elim (Option-cases (find_group seed.groups id)) [
    | inl e ↦ absurd (any-found (λ group. group.id) id seed.groups named e)
    | inr (group, e) ↦ (group, e)
  ]

  start :
      (target : TargetContext) (id : GroupId)
      → or_else
          (match_group (from_rules seed.route_rules) target).group_id
          (tables seed).default_group
        ≡ some id
      → Known id
  unfolding Known
  start target id h =
      let is_seed = validate_seed-IsSeed seed valid in
      let (group, there, on) = is_seed.default_group in
      elim (Option-cases (match_group (from_rules seed.route_rules) target).group_id) [
        | inl e ↦
            let default =
              from_parts-default_group seed.default_group_id seed.groups seed.group_members
                (known seed valid links seed.default_group_id there) on in
            let same : seed.default_group_id ≡ id = cc (rw (e, default) at h) in
            (group, subst (λ i. find_group seed.groups i ≡ some group) same there)
        | inr (named, e) ↦
            let same : named ≡ id = cc (rw e at h) in
            subst Known same (
              Known-named named
                (match_group-All (GroupNamed seed.groups) seed.route_rules target is_seed.rules e))
      ]

  -- Some group is there to start at.
  some_start :
      (target : TargetContext)
      → or_else
          (match_group (from_rules seed.route_rules) target).group_id
          (tables seed).default_group
        ≢ none
  some_start target h =
      let (group, there, on) = (validate_seed-IsSeed seed valid).default_group in
      let default =
        from_parts-default_group seed.default_group_id seed.groups seed.group_members
          (known seed valid links seed.default_group_id there) on in
      elim (Option-cases (match_group (from_rules seed.route_rules) target).group_id) [
        | inl e ↦ cc (rw (e, default) at h)
        | inr (named, e) ↦ cc (rw e at h)
      ]

  module _ (s : RuntimeState) (generation now : ℕ) (context : SelectionContext) where
    -- A state with the tables of the seed, under some generation.
    abbrev on_seed : RuntimeState
    on_seed = record s { routing = routing_from_seed generation seed }

    Policy : Outcome SelectionError (Option Ipv6PolicySource)
    Policy =
        ipv6_policy (from_address context.target.address.ip) seed.ipv6_enabled
          (match_group (from_rules seed.route_rules) context.target)

    -- The errors of `select` there.
    pub seed-Refusal :
        {e : SelectionError} → select on_seed now context ≡ err e → Refusal seed context e
    unfolding select plan walked routing_from_seed Policy Known
    seed-Refusal {e} h = by_policy Policy refl
      where
        refused : (x : SelectionError) → plan on_seed context ≡ err x → x ≡ e
        refused x p =
            let answer : select on_seed now context ≡ err x = rw (select, p) refl in cc (h, answer)

        by_walk :
            (source : Option Ipv6PolicySource) (id : GroupId)
            (r : Outcome GroupError GroupSelection)
            → Policy ≡ ok source
            → or_else
                (match_group (from_rules seed.route_rules) context.target).group_id
                (tables seed).default_group
              ≡ some id
            → select_graph_with
                (tables seed)
                (from_nodes seed.nodes)
                (from_address context.target.address.ip)
                (scheduler_of on_seed context)
                id
              ≡ some r
            → Walks seed valid links context r
            → Refusal seed context e
        by_walk source id (ok selection) p g w walks =
            let planned : plan on_seed context ≡ ok (id, selection, source) =
              ground (arith, p, g, w) in
            elim (Option-cases (get_elem? selection.trace 0)) [
              | inl t ↦ cc (rw (select, planned, t) at h)
              | inr (hop, t) ↦ cc (rw (select, planned, t) at h)
            ]
        by_walk source id (err x) p g w walks =
            subst (Refusal seed context) (refused (selection_error x) (ground (arith, p, g, w)))
              walks
        by_walk source id panic p g w walks = absurd walks

        by_policy :
            (o : Outcome SelectionError (Option Ipv6PolicySource))
            → Policy ≡ o
            → Refusal seed context e
        by_policy (err x) p =
            let same : x ≡ e = refused x (rw (plan, p) refl) in
            elim (policy-refusal (from_address context.target.address.ip) seed.ipv6_enabled
              (match_group (from_rules seed.route_rules) context.target) p) [
                | inl (f, off, is) ↦ subst (Refusal seed context) (sym is ∙ same) (f, off)
                | inr (f, denied, is) ↦ subst (Refusal seed context) (sym is ∙ same) (f, denied)
              ]
        by_policy panic p =
            let answer : select on_seed now context ≡ panic = rw (select, plan, p) refl in
            cc (h, answer)
        by_policy (ok source) p =
            elim (Option-cases (
              or_else (match_group (from_rules seed.route_rules) context.target).group_id
                (tables seed).default_group)) [
                  | inl none_there ↦ absurd (some_start context.target none_there)
                  | inr (id, g) ↦
                      let (r, w, walks) =
                        walk-Walks seed valid links context (scheduler_of on_seed context) id
                          (start context.target id g) in
                      by_walk source id r p g w walks
                ]
