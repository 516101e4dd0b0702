-- ===== src/Runtime.antt =====
-- crates/dynet-runtime/src/lib.rs and model/matrix_service.rs: the runtime's state, the choice of a
-- route for a flow, and the exchange of the routing tables. Persistence is left out: the state is
-- one without an observation sink, as `from_seed` makes it. `now` is `unix_ms()`.
pub mod Choice
pub mod Reload
pub mod Audit
pub mod Tests
use dynet.Base.{
  ℕ, ◌+◌, ◌≡◌, ◌≢◌, refl, Bool, true, false, List, [], ◌∷◌, Option, none, some, ◌==◌, if◌then◌else◌,
}
use dynet.Base.Net.{IpAddr, v6, SocketAddr}
use dynet.Base.Lists.{replicate, get_elem?}
use dynet.Base.Opt.{or_else}
use dynet.Base.OrdMap.{OrdMap}
use dynet.Base.Outcome.{Outcome, ok, err, panic, ok_or, expect, ◌>>=◌}
use dynet.Base.Text.{Text, text, to_ascii_lowercase}
use dynet.Base.Words.{add_u64}
use dynet.Routing.Types.{
  NodeId, GroupId, RuleId, ForwardNode, ForwardGroup, GroupMember, RouteRule, Ipv6RulePolicy,
  inherit, allow, deny, IpFamily, ipv4, ipv6, Ipv6PolicySource, global, rule, from_address,
  TargetContext, external_target, SelectionContext, SelectionDecision, SelectionTraceHop,
  single_node, RouteMatch, GroupSelection, GroupCandidateSet, MatrixCandidateInput,
}
use dynet.Routing.Dns.{DnsUpstream, DnsUpstreamStore, DnsRacePolicy, ObservedDnsMap, from_upstreams}
use dynet.Routing.Matching.{RouteRuleStore, from_rules, match_group}
use dynet.Routing.Nodes.{NodeStore, from_nodes, fingerprints_by_id}
use dynet.Routing.Groups.{GroupStore, GroupError, from_parts, select_graph_with, enabled_candidates}
use dynet.Observe.Event.{EventStore, IngressEvent, IngressEventKind, with_watermarks, record_event}
use dynet.Observe.Store.{Sessions, observe, session_snapshot}
use dynet.Observe.Stats.{
  MatrixNodeStats, MatrixTargetNodeStats, node_stats_from_sessions, target_stats_from_sessions,
}
use dynet.Observe.Active.{select_active_candidate}
use dynet.Observe.Shadow.{MatrixShadowDecision, record_shadow, score_candidates}

pub record RuntimeSeed : Type 0 where
  pub ipv6_enabled : Bool
  pub nodes : List ForwardNode
  pub default_group_id : GroupId
  pub groups : List ForwardGroup
  pub group_members : List GroupMember
  pub route_rules : List RouteRule
  pub dns_upstreams : List DnsUpstream
  pub dns_policy : DnsRacePolicy

pub record RuntimeRouting : Type 0 where
  pub generation : ℕ
  pub ipv6_enabled : Bool
  pub nodes : NodeStore
  pub groups : GroupStore
  pub routes : RouteRuleStore
  pub dns_upstreams : DnsUpstreamStore
  pub dns_policy : DnsRacePolicy

unfoldable pub routing_from_seed : ℕ → RuntimeSeed → RuntimeRouting
routing_from_seed generation seed = record {
  generation = generation;
  ipv6_enabled = seed.ipv6_enabled;
  nodes = from_nodes seed.nodes;
  groups = from_parts seed.default_group_id seed.groups seed.group_members;
  routes = from_rules seed.route_rules;
  dns_upstreams = from_upstreams seed.dns_upstreams;
  dns_policy = seed.dns_policy;
}

-- `RuntimeInner` with the two stores of its matrix service.
pub record RuntimeState : Type 0 where
  pub events : EventStore
  pub routing : RuntimeRouting
  pub dns_map : ObservedDnsMap
  pub traffic_sessions : Sessions
  pub shadow_decisions : List MatrixShadowDecision
  pub next_decision_id : ℕ

unfoldable pub from_seed : RuntimeSeed → RuntimeState
from_seed seed = record {
  events = with_watermarks 0 0;
  routing = routing_from_seed 1 seed;
  dns_map = [];
  traffic_sessions = [];
  shadow_decisions = [];
  next_decision_id = 0;
}

-- `EventStore::record` with its hand-over to the matrix service.
unfoldable pub record_ingress_event :
    RuntimeState → ℕ → IngressEventKind → OrdMap Text Text → RuntimeState
record_ingress_event state now kind fields =
    let (events, event) = record_event state.events now kind fields in
    record state { events = events; traffic_sessions = observe state.traffic_sessions event }

pub data SelectionError : Type 0 where
  selection_error : GroupError → SelectionError
  no_default_group : SelectionError
  ipv6_disabled : SelectionError
  ipv6_denied : Option RuleId → SelectionError

-- `SelectionError::code`
pub error_code : SelectionError → Text
error_code (selection_error e) = text "selection-error"
error_code no_default_group = text "selection-error"
error_code ipv6_disabled = text "ipv6-disabled"
error_code (ipv6_denied id) = text "ipv6-policy-deny"

pub matched_rule_id : SelectionError → Option RuleId
matched_rule_id (ipv6_denied id) = id
matched_rule_id _ = none

-- The policy for a target of a family: refused, or let through and on whose account.
unfoldable pub ipv6_policy :
    IpFamily → Bool → RouteMatch → Outcome SelectionError (Option Ipv6PolicySource)
ipv6_policy ipv4 enabled match = ok none
ipv6_policy ipv6 false match = err ipv6_disabled
ipv6_policy ipv6 true match = elim match.ipv6_policy [
  | deny ↦ err (ipv6_denied match.rule_id)
  | allow ↦ ok (some rule)
  | inherit ↦ ok (some global)
]

abbrev map_err : Outcome GroupError GroupSelection → Outcome SelectionError GroupSelection
map_err (ok selection) = ok selection
map_err (err e) = err (selection_error e)
map_err panic = panic

-- A walk that is out of fuel counts as a panic.
unfoldable pub walked :
    Option (Outcome GroupError GroupSelection) → Outcome SelectionError GroupSelection
walked none = panic
walked (some r) = map_err r

unfoldable pub node_stats : RuntimeState → List MatrixNodeStats
node_stats state =
    node_stats_from_sessions (session_snapshot state.traffic_sessions)
      (fingerprints_by_id state.routing.nodes)

unfoldable pub target_node_stats : RuntimeState → List MatrixTargetNodeStats
target_node_stats state =
    target_stats_from_sessions (session_snapshot state.traffic_sessions)
      (fingerprints_by_id state.routing.nodes)

abbrev pub scheduler_of : RuntimeState → SelectionContext → GroupCandidateSet → Option NodeId
scheduler_of state context set =
    select_active_candidate context set.group_id set.thresholds (node_stats state)
      (target_node_stats state) set.candidates

-- What `select` computes before it takes a decision id.
unfoldable pub plan :
    RuntimeState
    → SelectionContext
    → Outcome SelectionError (GroupId × GroupSelection × Option Ipv6PolicySource)
plan state context = do
  let match = match_group state.routing.routes context.target
  let family = from_address context.target.address.ip
  source ← ipv6_policy family state.routing.ipv6_enabled match
  group_id ← ok_or no_default_group (or_else match.group_id state.routing.groups.default_group)
  selection ← walked (
      select_graph_with state.routing.groups state.routing.nodes family (scheduler_of state context)
        group_id)
  ok (group_id, selection, source)

-- `record_shadow_selection`, if the group's candidates can be listed.
unfoldable pub record_shadow_selection :
    RuntimeState
    → ℕ
    → SelectionContext
    → GroupId
    → SelectionDecision
    → Outcome GroupError (List MatrixCandidateInput)
    → RuntimeState
record_shadow_selection state now context group_id decision (ok candidates) = record state {
  shadow_decisions = record_shadow state.shadow_decisions (
      score_candidates now context group_id decision candidates (node_stats state)
        (target_node_stats state));
}
record_shadow_selection state now context group_id decision _ = state

abbrev pub decision_of :
    RuntimeState
    → SelectionContext
    → GroupId
    → GroupSelection
    → Option Ipv6PolicySource
    → SelectionTraceHop
    → SelectionDecision
decision_of state context group_id selection source first = record {
  decision_id = add_u64 state.next_decision_id 1;
  config_generation = state.routing.generation;
  group_id = group_id;
  matched_rule_id = (match_group state.routing.routes context.target).rule_id;
  node_id = first.node_id;
  next = first.next;
  trace = selection.trace;
  terminal = selection.terminal;
  reason = single_node;
  scheduler = selection.scheduler;
  candidate_count = selection.candidate_count;
  ip_family = from_address context.target.address.ip;
  ipv6_policy_source = source;
}

abbrev pub state_after :
    RuntimeState → ℕ → SelectionContext → GroupId → SelectionDecision → RuntimeState
state_after state now context group_id decision =
    record_shadow_selection (record state { next_decision_id = decision.decision_id }) now context
      group_id decision
      (enabled_candidates state.routing.groups group_id state.routing.nodes
        (from_address context.target.address.ip))

abbrev pub decide :
    RuntimeState
    → ℕ
    → SelectionContext
    → GroupId × GroupSelection × Option Ipv6PolicySource
    → Outcome SelectionError (RuntimeState × SelectionDecision)
decide state now context (group_id, selection, source) = do
  first ← expect (get_elem? selection.trace 0)
  let decision = decision_of state context group_id selection source first
  ok (state_after state now context group_id decision, decision)

-- `select`: the new state and the decision, or an error that leaves the state as it was.
unfoldable pub select :
    RuntimeState → ℕ → SelectionContext → Outcome SelectionError (RuntimeState × SelectionDecision)
select state now context = plan state context >>= decide state now context

-- `dns_ipv6_deny_rule`
unfoldable pub dns_ipv6_deny_rule : RuntimeState → Text → Option RuleId
dns_ipv6_deny_rule state domain =
    let target =
      external_target (record { ip = v6 (replicate 16 0); port = 53 })
        (some (to_ascii_lowercase domain)) in
    let match = match_group state.routing.routes target in
    if state.routing.ipv6_enabled then denied match.ipv6_policy match.rule_id else none
  where
    denied : Ipv6RulePolicy → Option RuleId → Option RuleId
    denied deny id = id
    denied _ id = none

pub record RuntimeReconfigure : Type 0 where
  pub previous_generation : ℕ
  pub routing : RuntimeRouting

unfoldable pub prepare_reconfigure : RuntimeState → RuntimeSeed → RuntimeReconfigure
prepare_reconfigure state seed = record {
  previous_generation = state.routing.generation;
  routing = routing_from_seed (add_u64 state.routing.generation 1) seed;
}

-- The error of `commit_reconfigure` names the two generations.
pub data GenerationError : Type 0 where
  generation_changed : ℕ → ℕ → GenerationError

unfoldable pub commit_reconfigure :
    RuntimeState → RuntimeReconfigure → Outcome GenerationError (RuntimeState × ℕ)
commit_reconfigure state prepared =
    if state.routing.generation == prepared.previous_generation
    then ok (record state { routing = prepared.routing }, prepared.routing.generation)
    else err (generation_changed prepared.previous_generation state.routing.generation)
