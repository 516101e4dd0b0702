-- ===== src/Routing/Groups.antt =====
-- `GroupStore` of crates/dynet-runtime/src/stores.rs, and the walk along the groups' `next` links
-- that gives a flow its hops and its outlet.
pub mod Hop
pub mod Candidates
pub mod Walk
pub mod Exhausted
pub mod Members
pub mod Clear
use Prim.Native.Nat.{Ordering}
use mathlib.Core.List.{foldl, flat_map}
use dynet.Base.{
  ℕ, zero, suc, ◌+◌, ◌≡◌, refl, Bool, true, false, ◌&&◌, List, [], ◌∷◌, ◌++◌, map, Option, none,
  some, find, keep, any, length, get_elem?, ◌==◌, if◌then◌else◌,
}
use dynet.Base.Order.{nat_ord, list_ord, cmp, eqb, then_with}
use dynet.Base.OrdMap.{OrdMap, get, insert, collect, values}
use dynet.Base.Outcome.{Outcome, ok, err, panic, ok_or, expect, index, ◌>>=◌}
use dynet.Base.Sort.{sort_by}
use dynet.Base.Text.{Text}
use dynet.Routing.Types.{
  NodeId, GroupId, ForwardGroup, GroupMember, IpFamily, NextRef, direct_audit_outlet, named,
  MatrixCandidateInput, GroupCandidateSet, SelectionTraceHop, SelectionTerminal, direct_outlet,
  node, GroupSelection,
}
use dynet.Routing.Nodes.{NodeStore, is_eligible, enabled_node_id}
use dynet.Base.Opt.{is_some_and, or_else, map_option}

pub record GroupStore : Type 0 where
  pub default_group : Option GroupId
  pub groups : OrdMap GroupId ForwardGroup
  pub members : OrdMap GroupId (List GroupMember)

-- The messages of the errors, as data.
pub data GroupError : Type 0 where
  next_cycle : GroupId → GroupError
  missing : GroupId → GroupError
  disabled : GroupId → GroupError
  no_enabled_node : GroupId → GroupError
  no_capable_node : GroupId → IpFamily → GroupError

abbrev pub member_order : GroupMember → GroupMember → Ordering
member_order left right =
    then_with (cmp left.priority right.priority) (cmp left.node_id right.node_id)

abbrev or_empty {ℓ} : {A : Type ℓ} → Option (List A) → List A
or_empty none = []
or_empty (some xs) = xs

-- `entry(group_id).or_default().push(member)`
push_member : OrdMap GroupId (List GroupMember) → GroupMember → OrdMap GroupId (List GroupMember)
push_member by_group member =
    insert member.group_id (or_empty (get member.group_id by_group) ++ (member ∷ [])) by_group

-- The group that is asked for if it is enabled, or the first one that is.
choose_default : GroupId → OrdMap GroupId ForwardGroup → Option GroupId
choose_default wanted by_id =
    or_else (if is_some_and (λ group. group.enabled) (get wanted by_id) then some wanted else none)
      (map_option (λ group. group.id) (find (λ group. group.enabled) (values by_id)))

unfoldable pub from_parts : GroupId → List ForwardGroup → List GroupMember → GroupStore
unfolding push_member choose_default
from_parts default_group groups members =
    let by_id = collect (map (λ group. (group.id, group)) groups) in
    record {
      default_group = choose_default default_group by_id;
      groups = by_id;
      members = map (λ (id, ms). (id, sort_by member_order ms)) (foldl push_member [] members);
    }

pub group_snapshot : GroupStore → List ForwardGroup
group_snapshot store = values store.groups

pub member_snapshot : GroupStore → List GroupMember
member_snapshot store = flat_map (λ ms. ms) (values store.members)

abbrev pub candidate_of : GroupMember → MatrixCandidateInput
candidate_of member = record { node_id = member.node_id; priority = member.priority }

abbrev pub eligible_members : NodeStore → IpFamily → List GroupMember → List GroupMember
eligible_members nodes family =
    keep (λ member. member.enabled && is_eligible nodes member.node_id family)

unfoldable pub enabled_candidates :
    GroupStore → GroupId → NodeStore → IpFamily → Outcome GroupError (List MatrixCandidateInput)
enabled_candidates store id nodes family = do
  group ← ok_or (missing id) (get id store.groups)
  if group.enabled
      then (do
        members ← ok_or (no_enabled_node id) (get id store.members)
        ok (map candidate_of (eligible_members nodes family members)))
      else err (disabled id)

-- A scheduler's proposal is taken if it is a candidate.
abbrev pub accepted : List GroupMember → Option NodeId → Option NodeId
accepted candidates none = none
accepted candidates (some id) =
    if any (λ member. eqb member.node_id id) candidates then some id else none

abbrev pub unwrap_or_else {ℓ} : {E A : Type ℓ} → Option A → Outcome E A → Outcome E A
unwrap_or_else (some a) other = ok a
unwrap_or_else none other = other

unfoldable pub select_group_hop :
    GroupStore
    → GroupId
    → NodeStore
    → IpFamily
    → (GroupCandidateSet → Option NodeId)
    → Outcome GroupError SelectionTraceHop
select_group_hop store id nodes family select_node = do
  group ← ok_or (missing id) (get id store.groups)
  if group.enabled
      then (do
        members ← ok_or (no_enabled_node id) (get id store.members)
        let candidates = eligible_members nodes family members
        if length candidates == 0 then err (no_capable_node id family) else (do
          let proposal = select_node (record {
            group_id = group.id;
            scheduler = group.scheduler;
            thresholds = group.thresholds;
            candidates = map candidate_of candidates;
          })
          selected ←
              unwrap_or_else (accepted candidates proposal)
                (index candidates 0 >>= λ first. ok first.node_id)
          ok (record {
            group_id = group.id;
            node_id = selected;
            next = group.next;
            scheduler = group.scheduler;
            candidate_count = length candidates;
          })))
      else err (disabled id)

pub finish : SelectionTerminal → List SelectionTraceHop → Outcome GroupError GroupSelection
finish terminal trace = do
  first ← expect (get_elem? trace 0)
  ok (record {
    trace = trace;
    terminal = terminal;
    scheduler = first.scheduler;
    candidate_count = first.candidate_count;
  })

module _ (store : GroupStore) (nodes : NodeStore) (family : IpFamily)
    (select_node : GroupCandidateSet → Option NodeId) where
  -- The loop of `select_graph_with`; `none` means that the fuel ran out.
  pub walk :
      ℕ
      → GroupId
      → OrdMap GroupId (Unit {0})
      → List SelectionTraceHop
      → Option (Outcome GroupError GroupSelection)
  walk zero current seen trace = none
  walk (suc fuel) current seen trace = elim (get current seen) [
    | some _ ↦ some (err (next_cycle current))
    | none ↦ elim (select_group_hop store current nodes family select_node) [
      | err e ↦ some (err e)
      | panic ↦ some panic
      | ok hop ↦ elim hop.next [
        | direct_audit_outlet ↦ some (finish direct_outlet (trace ++ (hop ∷ [])))
        | named name ↦ elim (enabled_node_id nodes name) [
          | some id ↦ some (finish (node id) (trace ++ (hop ∷ [])))
          | none ↦ walk fuel name (insert current tt seen) (trace ++ (hop ∷ []))
        ]
      ]
    ]
  ]

  -- No group is entered twice, so one round for each group, and one that fails, are enough.
  unfoldable pub select_graph_with : GroupId → Option (Outcome GroupError GroupSelection)
  unfolding walk finish
  select_graph_with id = walk (length store.groups + 2) id [] []
