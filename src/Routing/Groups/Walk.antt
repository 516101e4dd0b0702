-- ===== src/Routing/Groups/Walk.antt =====
-- The loop of `GroupStore::select_graph_with` in stores.rs ends, never panics, and gives a route
-- along the groups' `next` links.
use dynet.Base.{
  ℕ, zero, suc, ◌+◌, ◌≤◌, ◌<◌, ◌≡◌, refl, ◌⊎◌, inl, inr, Bool, true, false, List, [], ◌∷◌, ◌++◌,
  Option, none, some, length, keep, Any, arith, Bool-cases, Option-cases, ◌∙◌, length-keep-lt,
}
use mathlib.Core.List.{append_assoc}
use dynet.Base.Order.{nat_ord, list_ord, eqb, eqb_refl, eqb-eq}
use dynet.Base.OrdMap.{OrdMap, get, insert, get-insert}
use dynet.Base.Outcome.{Outcome, ok, err, panic}
use dynet.Base.Text.{Text}
use dynet.Routing.Types.{
  NodeId, GroupId, ForwardGroup, IpFamily, direct_audit_outlet, named, NextRef, GroupCandidateSet,
  SelectionTraceHop, SelectionTerminal, direct_outlet, node, GroupSelection,
}
use dynet.Routing.Nodes.{NodeStore, enabled_node_id}
use dynet.Routing.Groups.{
  GroupStore, GroupError, next_cycle, select_group_hop, walk, finish, select_graph_with,
}
use dynet.Routing.Groups.Hop.{IsHop, hop-cases}

abbrev fresh : OrdMap GroupId (Unit {0}) → GroupId × ForwardGroup → Bool
fresh seen e = elim (get e.0 seen) [ none ↦ true | some _ ↦ false ]

-- The groups that the walk has not entered.
unseen : OrdMap GroupId ForwardGroup → OrdMap GroupId (Unit {0}) → ℕ
unseen groups seen = length (keep (fresh seen) groups)

entered :
    (id : GroupId) (seen : OrdMap GroupId (Unit {0})) (k : GroupId) (g : ForwardGroup)
    → id ≡ k
    → get id seen ≡ none
    → (fresh seen (k, g) ≡ true) × (fresh (insert id tt seen) (k, g) ≡ false)
entered id seen k g same n = ground (arith, get-insert id id tt seen, eqb_refl id)

get-fresh :
    (id : GroupId) (seen : OrdMap GroupId (Unit {0})) (groups : OrdMap GroupId ForwardGroup)
    {group : ForwardGroup}
    → get id groups ≡ some group
    → get id seen ≡ none
    → Any (λ e. (fresh seen e ≡ true) × (fresh (insert id tt seen) e ≡ false)) groups
unfolding get
get-fresh id seen [] h n = cc
get-fresh id seen ((k, g) ∷ groups) h n = elim (Bool-cases (eqb id k)) [
  | inl e ↦ inl (entered id seen k g (eqb-eq id k e) n)
  | inr e ↦ inr (get-fresh id seen groups (rw e at h) n)
]

fresh_weaker :
    (id : GroupId) (seen : OrdMap GroupId (Unit {0})) (e : GroupId × ForwardGroup)
    → fresh (insert id tt seen) e ≡ true
    → fresh seen e ≡ true
fresh_weaker id seen (k, g) h = elim (Bool-cases (eqb k id)) [
  | inl e ↦ ground (arith, get-insert id k tt seen, e)
  | inr e ↦ ground (arith, get-insert id k tt seen, e)
]

unseen-insert :
    (id : GroupId) (seen : OrdMap GroupId (Unit {0})) (groups : OrdMap GroupId ForwardGroup)
    {group : ForwardGroup}
    → get id groups ≡ some group
    → get id seen ≡ none
    → unseen groups (insert id tt seen) < unseen groups seen
unfolding unseen
unseen-insert id seen groups h n =
    length-keep-lt (fresh seen) (fresh (insert id tt seen)) (fresh_weaker id seen) groups
      (get-fresh id seen groups h n)

pub NextRef-cases :
    (next : NextRef) → (next ≡ direct_audit_outlet) ⊎ ((name : Text) × (next ≡ named name))
NextRef-cases direct_audit_outlet = inl refl
NextRef-cases (named name) = inr (name, refl)

-- A route from a group: each hop is one at its group, a hop's link names the next group (and no
-- enabled node), and the last link is the direct outlet or names an enabled node.
pub data Route (store : GroupStore) (nodes : NodeStore) (family : IpFamily)
    : GroupId → List SelectionTraceHop → SelectionTerminal → Type 0 where
  to_outlet :
      {at : GroupId} {hop : SelectionTraceHop}
      → IsHop store nodes family at hop
      → hop.next ≡ direct_audit_outlet
      → Route store nodes family at (hop ∷ []) direct_outlet
  to_node :
      {at : GroupId} {hop : SelectionTraceHop} {name : Text} {id : NodeId}
      → IsHop store nodes family at hop
      → hop.next ≡ named name
      → enabled_node_id nodes name ≡ some id
      → Route store nodes family at (hop ∷ []) (node id)
  onward :
      {at name : GroupId} {hop : SelectionTraceHop} {hops : List SelectionTraceHop}
      {end : SelectionTerminal}
      → IsHop store nodes family at hop
      → hop.next ≡ named name
      → enabled_node_id nodes name ≡ none
      → Route store nodes family name hops end
      → Route store nodes family at (hop ∷ hops) end

module _ (store : GroupStore) (nodes : NodeStore) (family : IpFamily) where
  -- What a walk from a group, with these hops behind it, may answer.
  abbrev pub Sound : GroupId → List SelectionTraceHop → Outcome GroupError GroupSelection → Type 0
  Sound at trace (ok selection) =
      (hops : List SelectionTraceHop) × (selection.trace ≡ trace ++ hops)
      × Route store nodes family at hops selection.terminal
  Sound at trace (err e) = Unit {0}
  Sound at trace panic = ⊥

  pub finish-ok :
      (terminal : SelectionTerminal) (trace : List SelectionTraceHop) (hop : SelectionTraceHop)
      → (s : GroupSelection) × (finish terminal (trace ++ (hop ∷ [])) ≡ ok s)
        × (s.trace ≡ trace ++ (hop ∷ []))
        × (s.terminal ≡ terminal)
  unfolding finish
  finish-ok terminal [] hop = (_, refl, refl, refl)
  finish-ok terminal (first ∷ trace) hop = (_, refl, refl, refl)

  module _ (select_node : GroupCandidateSet → Option NodeId) where
    abbrev Ends : ℕ → GroupId → OrdMap GroupId (Unit {0}) → List SelectionTraceHop → Type 0
    Ends fuel at seen trace =
        (r : Outcome GroupError GroupSelection) × (walk store nodes family select_node fuel at seen
            trace
          ≡ some r)
        × Sound at trace r

    -- What the loop does behind a hop, given how it goes on from the next group.
    next_link :
        (fuel : ℕ) (at : GroupId) (seen : OrdMap GroupId (Unit {0}))
        (trace : List SelectionTraceHop) (hop : SelectionTraceHop)
        → get at seen ≡ none
        → select_group_hop store at nodes family select_node ≡ ok hop
        → IsHop store nodes family at hop
        → ((name : Text) → Ends fuel name (insert at tt seen) (trace ++ (hop ∷ [])))
        → (hop.next ≡ direct_audit_outlet) ⊎ ((name : Text) × (hop.next ≡ named name))
        → Ends (suc fuel) at seen trace
    unfolding walk
    next_link fuel at seen trace hop new eq is_hop rest (inl out) =
        let (s, e, t, k) = finish-ok direct_outlet trace hop in
        (ok s, ground (arith, new, eq, out, e), (hop ∷ [], t, rw k (to_outlet is_hop out)))
    next_link fuel at seen trace hop new eq is_hop rest (inr (name, link)) =
        elim (Option-cases (enabled_node_id nodes name)) [
          | inr (id, known) ↦
              let (s, e, t, k) = finish-ok (node id) trace hop in
              (
                ok s,
                ground (arith, new, eq, link, known, e),
                (hop ∷ [], t, rw k (to_node is_hop link known)),
              )
          | inl unknown ↦
              let (r, e, sound) = rest name in
              (
                r,
                ground (arith, new, eq, link, unknown, e),
                behind name is_hop link unknown r sound,
              )
        ]
      where
        behind :
            (name : Text)
            → IsHop store nodes family at hop
            → hop.next ≡ named name
            → enabled_node_id nodes name ≡ none
            → (r : Outcome GroupError GroupSelection) → Sound name (trace ++ (hop ∷ [])) r
            → Sound at trace r
        behind name is_hop link unknown (ok selection) (hops, t, route) =
            (hop ∷ hops, t ∙ append_assoc trace (hop ∷ []) hops, onward is_hop link unknown route)
        behind name is_hop link unknown (err e) sound = tt
        behind name is_hop link unknown panic sound = sound

    walk-Ends :
        (fuel : ℕ) (at : GroupId) (seen : OrdMap GroupId (Unit {0}))
        (trace : List SelectionTraceHop)
        → unseen store.groups seen < fuel
        → Ends fuel at seen trace
    unfolding walk
    walk-Ends zero at seen trace h = absurd (omega arith)
    walk-Ends (suc fuel) at seen trace h = elim (Option-cases (get at seen)) [
      | inr (_, e) ↦ (err (next_cycle at), ground (arith, e), tt)
      | inl new ↦ elim (hop-cases store nodes family select_node at) [
        | inr (e, eq) ↦ (err e, ground (arith, new, eq), tt)
        | inl (hop, eq, is_hop) ↦
            next_link fuel at seen trace hop new eq is_hop
              (λ name.
                walk-Ends fuel name (insert at tt seen) (trace ++ (hop ∷ []))
                  (omega (arith, unseen-insert at seen store.groups is_hop.known new)))
              (NextRef-cases hop.next)
      ]
    ]

    length-unseen : (groups : OrdMap GroupId ForwardGroup) → unseen groups [] ≤ length groups
    unfolding unseen get
    length-unseen [] = omega arith
    length-unseen (e ∷ groups) = omega (arith, length-unseen groups)

    -- Whatever the tables hold, cyclic links included, the walk from a group ends without a panic,
    -- with an error or with a selection whose trace is a route from that group to its terminal.
    pub select_graph_with-Route :
        (id : GroupId)
        → (r : Outcome GroupError GroupSelection) × (select_graph_with store nodes family
              select_node id
            ≡ some r)
          × Sound id [] r
    unfolding select_graph_with
    select_graph_with-Route id =
        walk-Ends (length store.groups + 2) id [] [] (omega (arith, length-unseen store.groups))
