-- ===== src/Routing/Types.antt =====
-- The data of crates/dynet-runtime/src/model.rs and its children, and the types of stores.rs. An id
-- is its text.
use dynet.Base.{ℕ, Bool, List, Option, none, some, if◌then◌else◌}
use dynet.Base.Int.{ℤ}
use dynet.Base.Net.{IpAddr, v4, v6, SocketAddr}
use dynet.Base.Order.{nat_ord, list_ord, eqb}
use dynet.Base.Text.{Text, text}

abbrev pub NodeId : Type 0
NodeId = Text

abbrev pub GroupId : Type 0
GroupId = Text

abbrev pub RuleId : Type 0
RuleId = Text

abbrev pub default_node_id : NodeId
default_node_id = text "default-node"

abbrev pub default_group_id : GroupId
default_group_id = text "default"

pub record ForwardNode : Type 0 where
  pub id : NodeId
  pub tag : Text
  pub enabled : Bool
  pub fingerprint : Text
  pub supports_ipv6 : Bool

pub data SchedulerPolicy : Type 0 where
  single_first_enabled : SchedulerPolicy

pub record GroupThresholds : Type 0 where
  pub min_success_rate_ppm : ℕ
  pub min_samples : ℕ
  pub max_active_sessions : Option ℕ

abbrev pub default_thresholds : GroupThresholds
default_thresholds = record {
  min_success_rate_ppm = 980000;
  min_samples = 1;
  max_active_sessions = none;
}

pub data NextRef : Type 0 where
  direct_audit_outlet : NextRef
  named : Text → NextRef

-- `NextRef::named`: the reserved word leads out.
unfoldable pub next_named : Text → NextRef
next_named value = if eqb value (text "direct") then direct_audit_outlet else named value

unfoldable pub next_label : NextRef → Text
next_label direct_audit_outlet = text "direct"
next_label (named value) = value

pub record ForwardGroup : Type 0 where
  pub id : GroupId
  pub enabled : Bool
  pub scheduler : SchedulerPolicy
  pub thresholds : GroupThresholds
  pub next : NextRef

pub record GroupMember : Type 0 where
  pub group_id : GroupId
  pub node_id : NodeId
  pub enabled : Bool
  pub priority : ℕ

pub data Ipv6RulePolicy : Type 0 where
  inherit allow deny : Ipv6RulePolicy

pub data IpFamily : Type 0 where
  ipv4 ipv6 : IpFamily

pub data Ipv6PolicySource : Type 0 where
  global rule : Ipv6PolicySource

unfoldable pub from_address : IpAddr → IpFamily
from_address (v4 octets) = ipv4
from_address (v6 octets) = ipv6

pub data RouteMatcher : Type 0 where
  domain_exact : Text → RouteMatcher
  domain_suffix : Text → RouteMatcher
  ip_exact : IpAddr → RouteMatcher
  ip_cidr : Text → RouteMatcher

pub record RouteRule : Type 0 where
  pub id : RuleId
  pub priority : ℤ
  pub enabled : Bool
  pub matcher : RouteMatcher
  pub group_id : GroupId
  pub ipv6_policy : Ipv6RulePolicy

pub data TargetSource : Type 0 where
  fixed_upstream observed_dns external_context : TargetSource

pub record TargetContext : Type 0 where
  pub address : SocketAddr
  pub domain : Option Text
  pub source : TargetSource

-- The constructors of target_context.rs.
pub fixed_upstream_target : SocketAddr → TargetContext
fixed_upstream_target address = record { address = address; domain = none; source = fixed_upstream }

unfoldable pub external_target : SocketAddr → Option Text → TargetContext
external_target address domain = record {
  address = address;
  domain = domain;
  source = external_context;
}

pub dns_target : SocketAddr → Text → TargetContext
dns_target address domain = record {
  address = address;
  domain = some domain;
  source = observed_dns;
}

pub data InboundKind : Type 0 where
  tcp udp : InboundKind

pub record SelectionContext : Type 0 where
  pub session_id : ℕ
  pub inbound : InboundKind
  pub target : TargetContext

pub record RouteMatch : Type 0 where
  pub group_id : Option GroupId
  pub rule_id : Option RuleId
  pub ipv6_policy : Ipv6RulePolicy

pub record MatrixCandidateInput : Type 0 where
  pub node_id : NodeId
  pub priority : ℕ

pub record GroupCandidateSet : Type 0 where
  pub group_id : GroupId
  pub scheduler : SchedulerPolicy
  pub thresholds : GroupThresholds
  pub candidates : List MatrixCandidateInput

pub record SelectionTraceHop : Type 0 where
  pub group_id : GroupId
  pub node_id : NodeId
  pub next : NextRef
  pub scheduler : SchedulerPolicy
  pub candidate_count : ℕ

pub data SelectionTerminal : Type 0 where
  direct_outlet : SelectionTerminal
  node : NodeId → SelectionTerminal

pub data SelectionReason : Type 0 where
  single_node : SelectionReason

pub record GroupSelection : Type 0 where
  pub trace : List SelectionTraceHop
  pub terminal : SelectionTerminal
  pub scheduler : SchedulerPolicy
  pub candidate_count : ℕ

pub record SelectionDecision : Type 0 where
  pub decision_id : ℕ
  pub config_generation : ℕ
  pub group_id : GroupId
  pub matched_rule_id : Option RuleId
  pub node_id : NodeId
  pub next : NextRef
  pub trace : List SelectionTraceHop
  pub terminal : SelectionTerminal
  pub reason : SelectionReason
  pub scheduler : SchedulerPolicy
  pub candidate_count : ℕ
  pub ip_family : IpFamily
  pub ipv6_policy_source : Option Ipv6PolicySource
