-- ===== src/Seed/Routes.antt =====
-- stores.rs on the tables of a seed that the database took: a walk from a group has no dead end.
use dynet.Base.{
  ◌≡◌, refl, inl, inr, Bool, true, false, List, [], ◌∷◌, Option, none, some, find, any, subst, All,
  Bool-cases, arith, ap, ◌∙◌,
}
use dynet.Base.Order.{nat_ord, list_ord, eqb, eqb_refl, eqb-eq}
use dynet.Base.OrdMap.{get}
use dynet.Base.Text.{Text, text}
use dynet.Routing.Types.{
  NodeId, ForwardNode, ForwardGroup, IpFamily, NextRef, GroupSelection, direct_audit_outlet, named,
  next_named, next_label, GroupCandidateSet,
}
use dynet.Routing.Nodes.{NodeStore, from_nodes, enabled_node_id}
use dynet.Routing.Groups.{GroupStore, GroupError, from_parts, select_graph_with}
use dynet.Routing.Groups.Walk.{Sound, select_graph_with-Route}
use dynet.Base.Outcome.{Outcome, ok}
use dynet.Routing.Groups.Clear.{Clear, LeadsOut, last, onward, Answers, select_graph_with-Answers}
use dynet.Runtime.{RuntimeSeed}
use dynet.Seed.{find_group, find_node, validate_seed}
use dynet.Seed.Chains.{Ends, Leads, no_group, to_outlet, to_node, onwards}
use dynet.Seed.Sound.{IsSeed, Linked, validate_seed-IsSeed}
use dynet.Seed.Tables.{get-from_parts, get-from_nodes, any-found}

-- A link as `NextRef::named` makes it.
abbrev pub IsNamed : ForwardGroup → Type 0
IsNamed group = group.next ≡ next_named (next_label group.next)

pub find-All :
    {A : Type 0} (P : A → Type 0) (p : A → Bool) (xs : List A) {x : A}
    → find p xs ≡ some x
    → All P xs
    → P x × (p x ≡ true)
find-All P p [] h all = cc
find-All P p (y ∷ ys) {x} h all = elim (Bool-cases (p y)) [
  | inl e ↦
      let same : y ≡ x = ground (arith, h, e) in
      (subst P same all.0, subst (λ z. p z ≡ true) same e)
  | inr e ↦ find-All P p ys (rw e at h) all.1
]

find-any : {A : Type 0} (p : A → Bool) (xs : List A) {x : A} → find p xs ≡ some x → any p xs ≡ true
find-any p [] h = cc
find-any p (y ∷ ys) h = elim (Bool-cases (p y)) [
  | inl e ↦ rw e refl
  | inr e ↦ rw e (find-any p ys (rw e at h))
]

named_direct :
    (next : NextRef)
    → next ≡ next_named (next_label next)
    → next_label next ≡ text "direct"
    → next ≡ direct_audit_outlet
unfolding next_named
named_direct next h e = h ∙ ap next_named e

named_other :
    (next : NextRef)
    → next ≡ next_named (next_label next)
    → eqb (next_label next) (text "direct") ≡ false
    → next ≡ named (next_label next)
unfolding next_named
named_other next h e = ground (arith, h, e)

module _ (seed : RuntimeSeed) (is_seed : IsSeed seed) (links : All IsNamed seed.groups) where
  store : GroupStore
  store = from_parts seed.default_group_id seed.groups seed.group_members

  nodes : NodeStore
  nodes = from_nodes seed.nodes

  known :
      (id : Text) {g : ForwardGroup}
      → find_group seed.groups id ≡ some g
      → get id store.groups ≡ some g
  unfolding store
  known id e =
      get-from_parts seed.default_group_id seed.nodes seed.groups seed.group_members id
        is_seed.distinct_groups
      ∙ e

  node_at :
      (id : Text) {n : ForwardNode}
      → find_node seed.nodes id ≡ some n
      → n.enabled ≡ true
      → enabled_node_id nodes id ≡ some n.id
  unfolding nodes enabled_node_id
  node_at id e on =
      rw
        (
          enabled_node_id,
          get-from_nodes seed.default_group_id seed.nodes seed.groups seed.group_members id
              is_seed.distinct_nodes,
          e,
          on,
        )
        refl

  no_node_at : (id : Text) → find_node seed.nodes id ≡ none → enabled_node_id nodes id ≡ none
  unfolding nodes enabled_node_id
  no_node_at id e =
      rw
        (
          enabled_node_id,
          get-from_nodes seed.default_group_id seed.nodes seed.groups seed.group_members id
              is_seed.distinct_nodes,
          e,
        )
        refl

  -- What the seed says of a group's link.
  record AtGroup (g : ForwardGroup) : Type 0 where
    linked : Linked seed.nodes seed.groups g
    made : IsNamed g

  at_group : (id : Text) {g : ForwardGroup} → find_group seed.groups id ≡ some g → AtGroup g
  at_group id e = record {
    linked = (find-All (Linked seed.nodes seed.groups) _ seed.groups e is_seed.links).0;
    made = (find-All IsNamed _ seed.groups e links).0;
  }

  leads_out :
      (g : ForwardGroup)
      → AtGroup g
      → any (λ node. eqb node.id (next_label g.next)) seed.nodes ≡ true
      → LeadsOut store nodes g.next
  leads_out g at n = elim (Bool-cases (eqb (next_label g.next) (text "direct"))) [
    | inl d ↦ inl (named_direct g.next at.made (eqb-eq (next_label g.next) (text "direct") d))
    | inr d ↦ elim at.linked [
      | inl e ↦ inl (named_direct g.next at.made e)
      | inr (inl (node, e, on)) ↦
          inr (next_label g.next, named_other g.next at.made d, (node.id, node_at _ e on))
      | inr (inr (other, e, f, on)) ↦
          absurd (any-found (λ node. node.id) (next_label g.next) seed.nodes n e)
    ]
  ]

  -- Where the link is to a group, that group is enabled.
  leads_on :
      (g : ForwardGroup)
      → AtGroup g
      → eqb (next_label g.next) (text "direct") ≡ false
      → any (λ node. eqb node.id (next_label g.next)) seed.nodes ≡ false
      → (other : ForwardGroup) × (find_node seed.nodes (next_label g.next) ≡ none)
        × (find_group seed.groups (next_label g.next) ≡ some other)
        × (other.enabled ≡ true)
  leads_on g at d n = elim at.linked [
    | inl e ↦ cc (eqb_refl (next_label g.next), d, ap (λ x. eqb (next_label g.next) x) e)
    | inr (inl (node, e, on)) ↦
        let yes = find-any (λ node. eqb node.id (next_label g.next)) seed.nodes e in cc (yes, n)
    | inr (inr r) ↦ r
  ]

  Leads-Clear :
      {id : Text} {names : List Text} {g : ForwardGroup}
      → Leads seed.nodes seed.groups id names
      → find_group seed.groups id ≡ some g
      → g.enabled ≡ true
      → Clear store nodes id names
  Leads-Clear (no_group f) e on = cc
  Leads-Clear {id} (to_outlet {g = h} f d) e on = last (known id f) (ground (arith, e, f, on)) (
      inl (named_direct h.next (at_group id f).made (eqb-eq (next_label h.next) (text "direct") d)))
  Leads-Clear {id} (to_node {g = h} f n) e on =
      last (known id f) (ground (arith, e, f, on)) (leads_out h (at_group id f) n)
  Leads-Clear {id} (onwards {g = h} f d n leads) e on =
      let at = at_group id f in
      let (other, no_node, next, enabled) = leads_on h at d n in
      onward (known id f) (ground (arith, e, f, on)) (named_other h.next at.made d)
        (no_node_at (next_label h.next) no_node) (Leads-Clear leads next enabled)

  IsSeed-Answers :
      (family : IpFamily) (select_node : GroupCandidateSet → Option NodeId) (id : Text)
      {g : ForwardGroup}
      → find_group seed.groups id ≡ some g
      → g.enabled ≡ true
      → Answers (
          select_graph_with
            (from_parts seed.default_group_id seed.groups seed.group_members)
            (from_nodes seed.nodes)
            family
            select_node
            id)
  unfolding store nodes
  IsSeed-Answers family select_node id e on =
      let same =
        (find-All (λ g. Ends seed.nodes seed.groups g.id) (λ group. eqb group.id id) seed.groups e
          is_seed.ends) in
      let (names, leads, distinct) =
        subst (Ends seed.nodes seed.groups) (eqb-eq _ id same.1) same.0 in
      select_graph_with-Answers store nodes family select_node (Leads-Clear leads e on) distinct

-- Once a seed is accepted whose links are made by `NextRef::named`, a walk over its tables from a
-- group that is known and enabled has no dead end: it gives a route from the group to an outlet, or
-- the error that a group on the way has no enabled node of the address family, and no other.
pub validate_seed-Answers :
    (seed : RuntimeSeed) (family : IpFamily) (select_node : GroupCandidateSet → Option NodeId)
    (id : Text) (g : ForwardGroup)
    → validate_seed seed ≡ ok tt
    → All IsNamed seed.groups
    → find_group seed.groups id ≡ some g
    → g.enabled ≡ true
    → (r : Outcome GroupError GroupSelection) × (select_graph_with
          (from_parts seed.default_group_id seed.groups seed.group_members)
          (from_nodes seed.nodes)
          family
          select_node
          id
        ≡ some r)
      × Sound
          (from_parts seed.default_group_id seed.groups seed.group_members)
          (from_nodes seed.nodes)
          family
          id
          []
          r
      × Answers (some r)
validate_seed-Answers seed family select_node id g valid links e on =
    let (r, eq, sound) =
      select_graph_with-Route (from_parts seed.default_group_id seed.groups seed.group_members)
        (from_nodes seed.nodes) family select_node id in
    (
      r,
      eq,
      sound,
      subst Answers eq
          (IsSeed-Answers seed (validate_seed-IsSeed seed valid) links family select_node id e on),
    )
