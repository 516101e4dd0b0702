-- ===== src/Seed/Tests.antt =====
-- A small seed and two groups that lead to each other, and the theorems at them.
use dynet.Base.{◌≢◌, Option, ◌≡◌, refl, true, false, List, [], ◌∷◌, none, some}
use dynet.Base.OrdMap.{insert, get}
use dynet.Base.Net.{v4}
use dynet.Base.Outcome.{Outcome, ok, err, panic}
use dynet.Base.Text.{Text, text}
use dynet.Routing.Types.{
  ForwardNode, ForwardGroup, direct_audit_outlet, named, next_named, ipv4, GroupCandidateSet,
  NodeId, next_label, NextRef, GroupSelection, default_thresholds, single_first_enabled,
}
use dynet.Routing.Dns.{udp, parallel}
use dynet.Runtime.{RuntimeSeed}
use dynet.Routing.Groups.{GroupError, from_parts, select_graph_with}
use dynet.Routing.Groups.Walk.{Sound}
use dynet.Routing.Groups.Clear.{Answers}
use dynet.Routing.Nodes.{from_nodes}
use dynet.Seed.{
  invalid_bootstrap, next_cycle, add_name, add_forwarding_names, add_ids, validate_unique_rule_ids,
  validate_unique_dns_ids, validate_unique_ids, validate_group_next_reference, follow,
  validate_group_next_cycle, validate_group_next_refs, validate_member, validate_rule,
  validate_references, validate_dns_upstream, validate_default, validate_seed,
}
use dynet.Seed.Chains.{Ends, validate_group_next_cycle-Ends}
use dynet.Seed.Sound.{IsSeed, validate_seed-IsSeed}
use dynet.Seed.Routes.{validate_seed-Answers}

abbrev node : Text → ForwardNode
node id = record {
  id = id;
  tag = id;
  enabled = true;
  fingerprint = text "f";
  supports_ipv6 = false;
}

abbrev group : Text → NextRef → ForwardGroup
group id next = record {
  id = id;
  enabled = true;
  scheduler = single_first_enabled;
  thresholds = default_thresholds;
  next = next;
}

-- A seed whose default group leads to the group "exit", which leads out.
abbrev seed : NextRef → RuntimeSeed
seed exit = record {
  ipv6_enabled = false;
  nodes = node (text "a") ∷ [];
  default_group_id = text "default";
  groups = group (text "default") (named (text "exit")) ∷ group (text "exit") exit ∷ [];
  group_members =
      record { group_id = text "default"; node_id = text "a"; enabled = true; priority = 0 }
      ∷ record { group_id = text "exit"; node_id = text "a"; enabled = true; priority = 0 }
      ∷ [];
  route_rules = [];
  dns_upstreams =
      record {
        id = text "u";
        address = record { ip = v4 (1 ∷ 1 ∷ 1 ∷ 1 ∷ []); port = 53 };
        transport = udp;
        enabled = true;
        priority = 0;
      }
      ∷ [];
  dns_policy = record { timeout = 1500; strategy = parallel };
}

seed_accepted : validate_seed (seed direct_audit_outlet) ≡ ok tt
unfolding validate_seed validate_unique_ids add_forwarding_names add_name get insert
    validate_unique_rule_ids validate_unique_dns_ids add_ids validate_default validate_references
    validate_member validate_rule validate_group_next_refs validate_group_next_reference
    validate_group_next_cycle follow validate_dns_upstream next_label
seed_accepted = refl

cycle_refused :
    validate_seed (seed (named (text "default")))
    ≡ err (invalid_bootstrap (next_cycle (text "default")))
unfolding validate_seed validate_unique_ids add_forwarding_names add_name get insert
    validate_unique_rule_ids validate_unique_dns_ids add_ids validate_default validate_references
    validate_member validate_rule validate_group_next_refs validate_group_next_reference
    validate_group_next_cycle follow validate_dns_upstream next_label
cycle_refused = refl

validate_seed-IsSeed_example : IsSeed (seed direct_audit_outlet)
validate_seed-IsSeed_example = validate_seed-IsSeed (seed direct_audit_outlet) seed_accepted

abbrev links : List ForwardGroup
links = (seed (named (text "default"))).groups

validate_group_next_cycle-Ends_example :
    (validate_group_next_cycle [] links (text "exit") ≢ panic)
    × (validate_group_next_cycle [] links (text "exit") ≡ ok tt → Ends [] links (text "exit"))
validate_group_next_cycle-Ends_example = validate_group_next_cycle-Ends [] links (text "exit")

abbrev first_candidate : GroupCandidateSet → Option NodeId
first_candidate candidates = none

validate_seed-Answers_example :
    (r : Outcome GroupError GroupSelection) × (select_graph_with
        (from_parts
          (text "default")
          (seed direct_audit_outlet).groups
          (seed direct_audit_outlet).group_members)
        (from_nodes (node (text "a") ∷ []))
        ipv4
        first_candidate
        (text "default")
      ≡ some r)
    × Sound
        (from_parts
          (text "default")
          (seed direct_audit_outlet).groups
          (seed direct_audit_outlet).group_members)
        (from_nodes (node (text "a") ∷ []))
        ipv4
        (text "default")
        []
        r
    × Answers (some r)
unfolding next_named next_label
validate_seed-Answers_example =
    validate_seed-Answers (seed direct_audit_outlet) ipv4 first_candidate (text "default")
      (group (text "default") (named (text "exit"))) seed_accepted (refl, (refl, tt)) refl refl
