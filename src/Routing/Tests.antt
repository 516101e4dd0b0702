-- ===== src/Routing/Tests.antt =====
-- The stores of stores.rs on concrete rules and groups, and the theorems at them.
use dynet.Base.{ℕ, ◌≡◌, refl, ◌⊎◌, true, false, List, [], ◌∷◌, length, Option, none, some, All, Any}
use dynet.Base.Int.{ℤ, pos, negsuc}
use dynet.Base.Net.{v4}
use dynet.Base.Order.{nat_ord, list_ord}
use dynet.Base.OrdMap.{get, collect}
use dynet.Base.Outcome.{Outcome, ok, err, index}
use dynet.Base.Sort.{sort_by}
use dynet.Base.Text.{Text, text, eq_ignore_ascii_case, ends_with}
use dynet.Base.Parse.{split_once, parse_ip, parse_unsigned}
use dynet.Routing.Cidr.{ip_matches_cidr}
use dynet.Routing.Types.{
  NodeId, RouteRule, RouteMatcher, domain_suffix, ip_cidr, TargetContext, inherit, GroupMember,
  ForwardGroup, ForwardNode, single_first_enabled, default_thresholds, NextRef, direct_audit_outlet,
  named, ipv4, ipv6, GroupSelection, SelectionTraceHop, GroupCandidateSet, MatrixCandidateInput,
  direct_outlet, external_context,
}
use dynet.Routing.Matching.{from_rules, match_group, route_match, applies, matches}
use dynet.Routing.Matching.Best.{IsBest, match_group-IsBest}
use dynet.Routing.Nodes.{NodeStore, from_nodes, enabled_node_id, is_eligible}
use dynet.Routing.Groups.{
  GroupStore, GroupError, next_cycle, no_capable_node, from_parts, select_group_hop,
  enabled_candidates, select_graph_with,
}
use dynet.Routing.Groups.Walk.{Sound, select_graph_with-Route}
use dynet.Routing.Groups.Candidates.{hop-candidates}

abbrev rule : Text → ℤ → RouteMatcher → RouteRule
rule id priority matcher = record {
  id = id;
  priority = priority;
  enabled = true;
  matcher = matcher;
  group_id = id;
  ipv6_policy = inherit;
}

abbrev rules : List RouteRule
rules =
    rule (text "any") (negsuc 4) (ip_cidr (text "0.0.0.0/0"))
    ∷ rule (text "net") (pos 10) (domain_suffix (text "Example.org"))
    ∷ rule (text "lan") (pos 3) (ip_cidr (text "10.0.0.0/8"))
    ∷ []

abbrev target : Option Text → TargetContext
target domain = record {
  address = record { ip = v4 (10 ∷ 0 ∷ 0 ∷ 9 ∷ []); port = 443 };
  domain = domain;
  source = external_context;
}

by_domain :
    match_group (from_rules rules) (target (some (text "www.EXAMPLE.org")))
    ≡ record { group_id = some (text "net"); rule_id = some (text "net"); ipv6_policy = inherit }
unfolding match_group from_rules matches eq_ignore_ascii_case ends_with
by_domain = refl

by_network :
    match_group (from_rules rules) (target none)
    ≡ record { group_id = some (text "lan"); rule_id = some (text "lan"); ipv6_policy = inherit }
unfolding match_group from_rules matches ip_matches_cidr split_once parse_ip parse_unsigned
by_network = refl

match_group-IsBest_example :
    ((r : RouteRule) × IsBest rules (target none) r
      × (match_group (from_rules rules) (target none) ≡ route_match (some r)))
    ⊎ (All (λ r. applies (target none) r ≡ false) rules
        × (match_group (from_rules rules) (target none) ≡ route_match none))
match_group-IsBest_example = match_group-IsBest rules (target none)

abbrev group : Text → NextRef → ForwardGroup
group id next = record {
  id = id;
  enabled = true;
  scheduler = single_first_enabled;
  thresholds = default_thresholds;
  next = next;
}

abbrev member : Text → Text → ℕ → GroupMember
member group_id node_id priority = record {
  group_id = group_id;
  node_id = node_id;
  enabled = true;
  priority = priority;
}

abbrev groups : GroupStore
groups =
    from_parts (text "default")
      (group (text "default") (named (text "exit"))
        ∷ group (text "exit") direct_audit_outlet
        ∷ group (text "loop") (named (text "loop"))
        ∷ [])
      (member (text "default") (text "b") 1
        ∷ member (text "default") (text "a") 1
        ∷ member (text "exit") (text "c") 0
        ∷ member (text "loop") (text "c") 0
        ∷ [])

abbrev nodes : NodeStore
nodes = from_nodes (forward (text "a") ∷ forward (text "b") ∷ forward (text "c") ∷ [])
  where
    forward : Text → ForwardNode
    forward id = record {
      id = id;
      tag = id;
      enabled = true;
      fingerprint = id;
      supports_ipv6 = false;
    }

abbrev no_scheduler : GroupCandidateSet → Option NodeId
no_scheduler set = none

abbrev hop : Text → Text → NextRef → ℕ → SelectionTraceHop
hop group_id node_id next count = record {
  group_id = group_id;
  node_id = node_id;
  next = next;
  scheduler = single_first_enabled;
  candidate_count = count;
}

-- `default` is left through its first node, and `exit` leads out.
two_hops :
    select_graph_with groups nodes ipv4 no_scheduler (text "default")
    ≡ some (
        ok (record {
          trace =
              hop (text "default") (text "a") (named (text "exit")) 2
              ∷ hop (text "exit") (text "c") direct_audit_outlet 1
              ∷ [];
          terminal = direct_outlet;
          scheduler = single_first_enabled;
          candidate_count = 2;
        }))
unfolding select_graph_with from_parts collect get select_group_hop sort_by is_eligible from_nodes
    index enabled_node_id
two_hops = refl

cycle :
    select_graph_with groups nodes ipv4 no_scheduler (text "loop")
    ≡ some (err (next_cycle (text "loop")))
unfolding select_graph_with from_parts collect get select_group_hop sort_by is_eligible from_nodes
    index enabled_node_id
cycle = refl

no_ipv6 :
    select_graph_with groups nodes ipv6 no_scheduler (text "exit")
    ≡ some (err (no_capable_node (text "exit") ipv6))
unfolding select_graph_with from_parts collect get select_group_hop sort_by is_eligible from_nodes
    index enabled_node_id
no_ipv6 = refl

select_graph_with-Route_example :
    (r : Outcome GroupError GroupSelection) × (select_graph_with groups nodes ipv4 no_scheduler
        (text "default")
      ≡ some r)
    × Sound groups nodes ipv4 (text "default") [] r
select_graph_with-Route_example =
    select_graph_with-Route groups nodes ipv4 no_scheduler (text "default")

hop_default :
    select_group_hop groups (text "default") nodes ipv4 no_scheduler
    ≡ ok (hop (text "default") (text "a") (named (text "exit")) 2)
unfolding select_group_hop get from_parts collect sort_by is_eligible from_nodes index
hop_default = refl

hop-candidates_example :
    (candidates : List MatrixCandidateInput) × (enabled_candidates groups
        (text "default")
        nodes
        ipv4
      ≡ ok candidates)
    × (length candidates ≡ 2)
    × Any (λ c. c.node_id ≡ text "a") candidates
hop-candidates_example = hop-candidates groups nodes ipv4 no_scheduler (text "default") hop_default
