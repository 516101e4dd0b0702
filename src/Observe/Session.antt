-- ===== src/Observe/Session.antt =====
-- crates/dynet-runtime/src/traffic_session.rs: a session is built up from the events that name it.
pub use dynet.Observe.Records.{TrafficSession, TrafficSessionUpdate}
use dynet.Base.{ℕ, ◌-◌, Bool, true, false, ◌&&◌, ◌∷◌, ◌++◌, Option, none, some, if◌then◌else◌}
use dynet.Base.Order.{nat_ord, list_ord, eqb}
use dynet.Base.OrdMap.{get}
use dynet.Base.Parse.{parse_unsigned, show_unsigned}
use dynet.Base.Text.{Text, text}
use dynet.Base.Words.{u64_mod, add_u64}
use dynet.Base.Opt.{get_or, or_else, and_then, is_none, ◌>>=◌}
use dynet.Observe.Event.{
  IngressEvent, IngressEventKind, dns_query, dns_response, dns_error, tcp_close, tcp_error,
  udp_session_start, udp_session_close, udp_error,
}

-- `TrafficSession::new`
unfoldable pub new_session : TrafficSessionUpdate → TrafficSession
new_session update = record {
  session_key = update.session_key;
  session_id = update.session_id;
  decision_id = update.decision_id;
  config_generation = update.config_generation;
  inbound = update.inbound;
  node_protocol = none;
  peer = none;
  target = none;
  target_ip = none;
  target_port = none;
  target_domain = none;
  target_source = none;
  upstream = none;
  selection_groups = none;
  selection_nodes = none;
  selection_trace = none;
  started_at_unix_ms = update.observed_at_unix_ms;
  closed_at_unix_ms = none;
  duration_ms = none;
  close_reason = none;
  error_stage = none;
  error_code = none;
  error_class = none;
  error_side = none;
  error_phase = none;
  error_protocol_phase = none;
  error_score_impact = none;
  error = none;
  client_to_upstream_bytes = 0;
  upstream_to_client_bytes = 0;
  client_to_upstream_datagrams = 0;
  upstream_to_client_datagrams = 0;
  first_upstream_at_unix_ms = none;
  first_downstream_at_unix_ms = none;
  first_response_latency_ms = none;
  last_observed_at_unix_ms = update.observed_at_unix_ms;
}

-- `set_if_some(&mut old, value)`
unfoldable pub set_if_some : Option Text → Option Text → Option Text
set_if_some old value = or_else value old

-- A datagram that was seen counts, adds its bytes, and is the first one if none was before.
unfoldable pub counted : ℕ → Option ℕ → ℕ
counted count none = count
counted count (some bytes) = add_u64 count 1

unfoldable pub sized : ℕ → Option ℕ → ℕ
sized total none = total
sized total (some bytes) = add_u64 total bytes

unfoldable pub first_at : Option ℕ → Option ℕ → ℕ → Option ℕ
first_at at none now = at
first_at at (some bytes) now = or_else at (some now)

unfoldable pub latency : Option ℕ → Option ℕ → ℕ → Option ℕ
latency (some ms) first started = some ms
latency none none started = none
latency none (some first) started = some (first - started)

-- `TrafficSession::apply_update`. The counters are u64 and wrap around.
unfoldable pub update_session : TrafficSession → TrafficSessionUpdate → TrafficSession
unfolding set_if_some counted sized first_at latency
update_session s u =
    let first_downstream =
      first_at s.first_downstream_at_unix_ms u.upstream_to_client_datagram u.observed_at_unix_ms in
    record {
      session_key = s.session_key;
      session_id = s.session_id;
      decision_id = or_else s.decision_id u.decision_id;
      config_generation = or_else s.config_generation u.config_generation;
      inbound = s.inbound;
      node_protocol = set_if_some s.node_protocol u.node_protocol;
      peer = set_if_some s.peer u.peer;
      target = set_if_some s.target u.target;
      target_ip = set_if_some s.target_ip u.target_ip;
      target_port = or_else s.target_port u.target_port;
      target_domain = set_if_some s.target_domain u.target_domain;
      target_source = set_if_some s.target_source u.target_source;
      upstream = set_if_some s.upstream u.upstream;
      selection_groups = set_if_some s.selection_groups u.selection_groups;
      selection_nodes = set_if_some s.selection_nodes u.selection_nodes;
      selection_trace = set_if_some s.selection_trace u.selection_trace;
      started_at_unix_ms = s.started_at_unix_ms;
      closed_at_unix_ms =
          if u.closes_session then some u.observed_at_unix_ms else s.closed_at_unix_ms;
      duration_ms =
          if u.closes_session
          then some (u.observed_at_unix_ms - s.started_at_unix_ms)
          else s.duration_ms;
      close_reason = set_if_some s.close_reason u.close_reason;
      error_stage = set_if_some s.error_stage u.error_stage;
      error_code = set_if_some s.error_code u.error_code;
      error_class = set_if_some s.error_class u.error_class;
      error_side = set_if_some s.error_side u.error_side;
      error_phase = set_if_some s.error_phase u.error_phase;
      error_protocol_phase = set_if_some s.error_protocol_phase u.error_protocol_phase;
      error_score_impact = set_if_some s.error_score_impact u.error_score_impact;
      error = set_if_some s.error u.error;
      client_to_upstream_bytes =
          sized (get_or u.client_to_upstream_bytes s.client_to_upstream_bytes)
            u.client_to_upstream_datagram;
      upstream_to_client_bytes =
          sized (get_or u.upstream_to_client_bytes s.upstream_to_client_bytes)
            u.upstream_to_client_datagram;
      client_to_upstream_datagrams =
          counted s.client_to_upstream_datagrams u.client_to_upstream_datagram;
      upstream_to_client_datagrams =
          counted s.upstream_to_client_datagrams u.upstream_to_client_datagram;
      first_upstream_at_unix_ms =
          first_at s.first_upstream_at_unix_ms u.client_to_upstream_datagram u.observed_at_unix_ms;
      first_downstream_at_unix_ms = first_downstream;
      first_response_latency_ms =
          latency s.first_response_latency_ms first_downstream s.started_at_unix_ms;
      last_observed_at_unix_ms = u.observed_at_unix_ms;
    }

abbrev parse_u64 : Text → Option ℕ
parse_u64 value = parse_unsigned u64_mod value

concerns_session : IngressEventKind → Bool
concerns_session dns_query = false
concerns_session dns_response = false
concerns_session dns_error = false
concerns_session _ = true

closes : IngressEventKind → Bool
closes tcp_close = true
closes tcp_error = true
closes udp_session_close = true
closes udp_error = true
closes _ = false

abbrev starts_udp : IngressEventKind → Bool
starts_udp udp_session_start = true
starts_udp _ = false

-- `format!("{}:{}:{}", inbound, session_id, decision_id or "none")`
session_key_of : Text → ℕ → Option ℕ → Text
session_key_of inbound session_id decision_id =
    inbound ++ b':' ∷ (show_unsigned session_id ++ b':' ∷ decision decision_id)
  where
    decision : Option ℕ → Text
    decision none = text "none"
    decision (some id) = show_unsigned id

with_direction : Text → Option Text → Option ℕ → Option ℕ
with_direction wanted none bytes = none
with_direction wanted (some direction) bytes = if eqb direction wanted then bytes else none

update_of : IngressEvent → ℕ → Option ℕ → TrafficSessionUpdate
update_of event session_id decision_id =
    let inbound = get_or (get (text "inbound") event.fields) (text "unknown") in
    let direction = get (text "direction") event.fields in
    let datagram_bytes = and_then (get (text "bytes") event.fields) parse_u64 in
    record {
      session_key = session_key_of inbound session_id decision_id;
      session_id = session_id;
      decision_id = decision_id;
      config_generation = and_then (get (text "configGeneration") event.fields) parse_u64;
      inbound = inbound;
      observed_at_unix_ms = event.observed_at_unix_ms;
      node_protocol = get (text "nodeProtocol") event.fields;
      peer = get (text "peer") event.fields;
      target = get (text "target") event.fields;
      target_ip = get (text "targetIp") event.fields;
      target_port = and_then (get (text "targetPort") event.fields) (parse_unsigned 65536);
      target_domain = get (text "targetDomain") event.fields;
      target_source = get (text "targetSource") event.fields;
      upstream = get (text "upstream") event.fields;
      selection_groups = get (text "selectionGroups") event.fields;
      selection_nodes = get (text "selectionNodes") event.fields;
      selection_trace = get (text "selectionTrace") event.fields;
      close_reason = get (text "closeReason") event.fields;
      error_stage = get (text "errorStage") event.fields;
      error_code = get (text "errorCode") event.fields;
      error_class = get (text "errorClass") event.fields;
      error_side = get (text "errorSide") event.fields;
      error_phase = get (text "errorPhase") event.fields;
      error_protocol_phase = get (text "errorProtocolPhase") event.fields;
      error_score_impact = get (text "errorScoreImpact") event.fields;
      error = get (text "error") event.fields;
      client_to_upstream_bytes =
          and_then (get (text "clientToUpstreamBytes") event.fields) parse_u64;
      upstream_to_client_bytes =
          and_then (get (text "upstreamToClientBytes") event.fields) parse_u64;
      client_to_upstream_datagram =
          with_direction (text "client-to-upstream") direction datagram_bytes;
      upstream_to_client_datagram =
          with_direction (text "upstream-to-client") direction datagram_bytes;
      closes_session = closes event.kind;
    }

-- `session_update_from_event`
unfoldable pub session_update_from_event : IngressEvent → Option TrafficSessionUpdate
unfolding concerns_session closes session_key_of with_direction update_of
session_update_from_event event =
    if concerns_session event.kind
    then (do
      session_text ← get (text "sessionId") event.fields
      session_id ← parse_u64 session_text
      let decision_id = and_then (get (text "decisionId") event.fields) parse_u64
      if starts_udp event.kind && is_none decision_id
          then none
          else some (update_of event session_id decision_id))
    else none
