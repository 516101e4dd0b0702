-- ===== src/Routing/Groups/Clear.antt =====
-- `select_graph_with` of stores.rs where the links of the groups are in order: the walk fails only
-- for want of a node.
use dynet.Base.{
  false, ℕ, zero, suc, ◌+◌, ◌≡◌, ◌≢◌, refl, ◌⊎◌, inl, inr, true, List, [], ◌∷◌, ◌++◌, Option, none,
  some, length, All, Distinct, Bool-cases, arith, ap, sym, ◌∙◌, subst,
}
use dynet.Base.Order.{nat_ord, list_ord, eqb, eqb-eq}
use dynet.Base.OrdMap.{OrdMap, get, insert, get-insert}
use dynet.Base.Outcome.{Outcome, ok, err, panic}
use dynet.Base.Text.{Text}
use dynet.Routing.Types.{
  NodeId, GroupId, ForwardGroup, GroupMember, IpFamily, direct_audit_outlet, named, NextRef,
  GroupCandidateSet, SelectionTraceHop, direct_outlet, node, GroupSelection,
}
use dynet.Routing.Nodes.{NodeStore, enabled_node_id}
use dynet.Routing.Groups.{
  disabled, from_parts, choose_default, GroupStore, GroupError, select_group_hop, walk,
  select_graph_with,
}
use dynet.Routing.Groups.Hop.{OutOfNodes, hop-OutOfNodes, hop-cases}
use dynet.Routing.Groups.Walk.{finish-ok}

-- No answer of the walk, or a selection, or the error that a group has no node to offer.
abbrev pub Answers : Option (Outcome GroupError GroupSelection) → Type 0
Answers none = Unit
Answers (some (ok selection)) = Unit
Answers (some (err e)) = OutOfNodes e
Answers (some panic) = ⊥

still_new :
    (at : GroupId) (seen : OrdMap GroupId (Unit {0})) (names : List GroupId)
    → All (λ name. name ≢ at) names
    → All (λ name. get name seen ≡ none) names
    → All (λ name. get name (insert at tt seen) ≡ none) names
still_new at seen [] d new = tt
still_new at seen (name ∷ names) d new = elim (Bool-cases (eqb name at)) [
  | inl e ↦ absurd (d.0 (eqb-eq name at e))
  | inr e ↦ (rw (get-insert at name tt seen, e) new.0, still_new at seen names d.1 new.1)
]

all_new : (names : List GroupId) → All (λ name. get {V = Unit {0}} name [] ≡ none) names
unfolding get
all_new [] = tt
all_new (name ∷ names) = (refl, all_new names)

module _ (store : GroupStore) (nodes : NodeStore) where
  -- A link that leads out: to the outlet, or to an enabled node.
  abbrev pub LeadsOut : NextRef → Type 0
  LeadsOut next =
      (next ≡ direct_audit_outlet)
      ⊎ ((name : Text) × (next ≡ named name)
          × ((id : NodeId) × (enabled_node_id nodes name ≡ some id)))

  -- The links lead from a group by these groups, all known and enabled, to an outlet.
  pub data Clear : GroupId → List GroupId → Type 0 where
    last :
        {at : GroupId} {group : ForwardGroup}
        → get at store.groups ≡ some group
        → group.enabled ≡ true
        → LeadsOut group.next
        → Clear at (at ∷ [])
    onward :
        {at name : GroupId} {group : ForwardGroup} {names : List GroupId}
        → get at store.groups ≡ some group
        → group.enabled ≡ true
        → group.next ≡ named name
        → enabled_node_id nodes name ≡ none
        → Clear name names
        → Clear at (at ∷ names)

  module _ (family : IpFamily) (select_node : GroupCandidateSet → Option NodeId) where
    -- Of a hop and of an error at a known, enabled group.
    hop_or_error :
        (at : GroupId) {group : ForwardGroup}
        → get at store.groups ≡ some group
        → group.enabled ≡ true
        → ((hop : SelectionTraceHop) × (select_group_hop store at nodes family select_node ≡ ok hop)
            × (hop.next ≡ group.next))
          ⊎ ((e : GroupError) × (select_group_hop store at nodes family select_node ≡ err e)
              × OutOfNodes e)
    hop_or_error at {group} known on = elim (hop-cases store nodes family select_node at) [
      | inl (hop, e, is_hop) ↦
          let same : is_hop.group ≡ group = ground (arith, is_hop.known, known) in
          inl (hop, e, is_hop.onward ∙ ap (λ g. g.next) same)
      | inr (x, e) ↦ inr (x, e, hop-OutOfNodes store nodes family select_node at known on e)
    ]

    walk-Answers :
        (fuel : ℕ) {at : GroupId} {names : List GroupId} (seen : OrdMap GroupId (Unit {0}))
        (trace : List SelectionTraceHop)
        → Clear at names
        → Distinct names
        → All (λ name. get name seen ≡ none) names
        → Answers (walk store nodes family select_node fuel at seen trace)
    unfolding walk
    walk-Answers zero seen trace clear distinct new = tt
    walk-Answers (suc fuel) {at} seen trace (last known on out) distinct new =
        elim (hop_or_error at known on) [
          | inr (x, e, o) ↦
              let eq : walk store nodes family select_node (suc fuel) at seen trace ≡ some (err x) =
                ground (arith, new.0, e) in
              subst Answers (sym eq) o
          | inl (hop, e, n) ↦ elim out [
            | inl d ↦
                let (s, f, t, k) = finish-ok store nodes family direct_outlet trace hop in
                let eq : walk store nodes family select_node (suc fuel) at seen trace
                    ≡ some (ok s) =
                  ground (arith, new.0, e, n ∙ d, f) in
                subst Answers (sym eq) tt
            | inr (name, l, (id, k)) ↦
                let (s, f, t, z) = finish-ok store nodes family (node id) trace hop in
                let eq : walk store nodes family select_node (suc fuel) at seen trace
                    ≡ some (ok s) =
                  ground (arith, new.0, e, n ∙ l, k, f) in
                subst Answers (sym eq) tt
          ]
        ]
    walk-Answers (suc fuel) {at} seen trace (onward {name} {names} known on link unknown clear)
          distinct new =
        elim (hop_or_error at known on) [
          | inr (x, e, o) ↦
              let eq : walk store nodes family select_node (suc fuel) at seen trace ≡ some (err x) =
                ground (arith, new.0, e) in
              subst Answers (sym eq) o
          | inl (hop, e, n) ↦
              let eq : walk store nodes family select_node (suc fuel) at seen trace
                  ≡ walk store nodes family select_node fuel name (insert at tt seen)
                      (trace ++ hop ∷ []) =
                ground (arith, new.0, e, n ∙ link, unknown) in
              subst Answers (sym eq) (
                walk-Answers fuel (insert at tt seen) (trace ++ hop ∷ []) clear distinct.1
                  (still_new at seen names distinct.0 new.1))
        ]

    -- From such a group the walk fails only for want of a node.
    pub select_graph_with-Answers :
        {at : GroupId} {names : List GroupId}
        → Clear at names
        → Distinct names
        → Answers (select_graph_with store nodes family select_node at)
    unfolding select_graph_with get
    select_graph_with-Answers {names} clear distinct =
        walk-Answers (length store.groups + 2) [] [] clear distinct (all_new names)

    hop-disabled :
        (at : GroupId) {group : ForwardGroup}
        → get at store.groups ≡ some group
        → group.enabled ≡ false
        → select_group_hop store at nodes family select_node ≡ err (disabled at)
    unfolding select_group_hop
    hop-disabled at known off = rw (known, off) refl

    walk-disabled :
        (fuel : ℕ) (at : GroupId) {group : ForwardGroup}
        → get at store.groups ≡ some group
        → group.enabled ≡ false
        → walk store nodes family select_node (suc fuel) at [] [] ≡ some (err (disabled at))
    unfolding walk get
    walk-disabled fuel at known off =
        let hop : select_group_hop store at nodes family select_node ≡ err (disabled at) =
          hop-disabled at known off in
        rw (walk, hop) refl

    -- From a group that is switched off the walk fails at once.
    pub select_graph_with-disabled :
        (at : GroupId) {group : ForwardGroup}
        → get at store.groups ≡ some group
        → group.enabled ≡ false
        → select_graph_with store nodes family select_node at ≡ some (err (disabled at))
    unfolding select_graph_with
    select_graph_with-disabled at known off =
        let more : length store.groups + 2 ≡ suc (length store.groups + 1) = omega arith in
        ap (λ n. walk store nodes family select_node n at [] []) more
        ∙ walk-disabled (length store.groups + 1) at known off

-- The group that is asked for is the default one if it is known and enabled.
pub from_parts-default_group :
    (wanted : GroupId) (groups : List ForwardGroup) (members : List GroupMember)
    {group : ForwardGroup}
    → get wanted (from_parts wanted groups members).groups ≡ some group
    → group.enabled ≡ true
    → (from_parts wanted groups members).default_group ≡ some wanted
unfolding from_parts choose_default
from_parts-default_group wanted groups members h on = rw (h, on) refl
