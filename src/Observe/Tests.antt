-- ===== src/Observe/Tests.antt =====
-- The store of traffic_session.rs on concrete events, and the theorems at them.
use mathlib.Core.List.{foldl}
use dynet.Base.{ℕ, ◌≡◌, refl, List, [], ◌∷◌, map, Option, none, some, ◌≢◌, ◌⊎◌, true, false, Bool}
use dynet.Base.Order.{nat_ord, list_ord}
use dynet.Base.OrdMap.{get, collect}
use dynet.Base.Parse.{parse_unsigned, show_unsigned}
use dynet.Base.Text.{Text, text}
use dynet.Observe.Event.{IngressEvent, IngressEventKind, udp_session_start, udp_datagram, dns_query}
use dynet.Observe.Session.{
  TrafficSession, TrafficSessionUpdate, new_session, update_session, session_update_from_event,
}
use dynet.Observe.Store.{Sessions, apply_update, observe, from_sessions, entry_or_new, make_room}
use dynet.Observe.Store.Bounded.{IsStore, apply_update-IsStore}
use dynet.Observe.Store.History.{history-IsStore, empty-IsStore}
use dynet.Observe.Store.Eviction.{apply_update-get, IsEvicted}
use dynet.Base.{◌+◌, ◌*◌, All, arith}
use dynet.Base.Net.{v4}
use dynet.Base.OrdMap.{insert}
use dynet.Base.Trim.{trim, split_on}
use dynet.Base.Words.{add_u64}
use dynet.Routing.Types.{
  NodeId, SelectionContext, external_context, tcp, default_thresholds, MatrixCandidateInput,
}
use dynet.Observe.Stats.{
  MatrixNodeStats, node_stats_from_sessions, target_stats_from_sessions, tally, tally_all,
  node_keys, selection_pairs, split_list, rate_ppm, record_session, finish,
}
use dynet.Observe.Stats.Tallies.{total_keys}
use dynet.Observe.Stats.Rates.{IsNodeRow, IsTargetRow, stats-IsSound}
use dynet.Base.Extremes.{max_by}
use dynet.Base.Show.{show_ip}
use dynet.Base.Text.{to_ascii_lowercase}
use dynet.Base.Words.{saturating_mul}
use dynet.Observe.Stats.{
  target_keys, target_scope, finish_target, effective_rate_ppm, effective_error_millis,
  node_fingerprint, millis_to_count,
}
use dynet.Observe.Active.{
  scored, score_of, matching_target_stats, matching_node_stats, context_scope, cooled, penalty,
  weighted_success_rate_ppm, biased, active_score, active_rollout_group, select_active_candidate,
}
use dynet.Observe.Active.Best.{IsChosen, select_active_candidate-IsChosen}
use dynet.Observe.Active.Bounds.{aggregate_cost, target_cost, base_score, active_score-exact}
use dynet.Routing.Types.{
  SelectionDecision, direct_audit_outlet, direct_outlet, single_node, single_first_enabled, ipv4,
}
use dynet.Observe.Shadow.{score_candidates}
use dynet.Observe.Shadow.Ranking.{IsRanked, score_candidates-IsRanked}
use dynet.Observe.Timing.{IsTimed, IsKept, updates-IsTimed}

abbrev event : ℕ → IngressEventKind → List (Text × Text) → IngressEvent
event now kind fields = record {
  id = now;
  observed_at_unix_ms = now;
  kind = kind;
  fields = collect fields;
}

abbrev fields : List (Text × Text)
fields =
    (text "sessionId", text "7") ∷ (text "decisionId", text "3") ∷ (text "inbound", text "udp") ∷ []

abbrev datagram : Text → Text → List (Text × Text)
datagram direction bytes = (text "direction", direction) ∷ (text "bytes", bytes) ∷ fields

abbrev history : List IngressEvent
history =
    event 100 udp_session_start fields
    ∷ event 105 udp_datagram (datagram (text "client-to-upstream") (text "60"))
    ∷ event 130 udp_datagram (datagram (text "upstream-to-client") (text "512"))
    ∷ event 140 udp_datagram (datagram (text "upstream-to-client") (text "512"))
    ∷ event 150 dns_query fields
    ∷ []

one_session : map (λ e. e.0) (foldl observe [] history) ≡ text "udp:7:3" ∷ []
unfolding observe session_update_from_event apply_update get collect parse_unsigned make_room
    show_unsigned
one_session = refl

latency_kept : map (λ e. e.1.first_response_latency_ms) (foldl observe [] history) ≡ some 30 ∷ []
unfolding observe session_update_from_event apply_update update_session new_session get collect
    parse_unsigned make_room show_unsigned
latency_kept = refl

without_decision :
    session_update_from_event (event 1 udp_session_start ((text "sessionId", text "7") ∷ [])) ≡ none
unfolding session_update_from_event get collect parse_unsigned
without_decision = refl

abbrev update : Text → ℕ → Option ℕ → Option ℕ → Bool → TrafficSessionUpdate
update key now up down closing = record {
  session_key = key;
  session_id = 7;
  decision_id = none;
  config_generation = none;
  inbound = text "udp";
  observed_at_unix_ms = now;
  node_protocol = none;
  peer = none;
  target = none;
  target_ip = none;
  target_port = none;
  target_domain = none;
  target_source = none;
  upstream = none;
  selection_groups = none;
  selection_nodes = none;
  selection_trace = none;
  close_reason = none;
  error_stage = none;
  error_code = none;
  error_class = none;
  error_side = none;
  error_phase = none;
  error_protocol_phase = none;
  error_score_impact = none;
  error = none;
  client_to_upstream_bytes = none;
  upstream_to_client_bytes = none;
  client_to_upstream_datagram = up;
  upstream_to_client_datagram = down;
  closes_session = closing;
}

history-IsStore_example : IsStore (
    foldl observe
      (from_sessions (new_session (update (text "udp:1:1") 1 none none false) ∷ []))
      history)
history-IsStore_example =
    history-IsStore (new_session (update (text "udp:1:1") 1 none none false) ∷ []) history

abbrev one : TrafficSessionUpdate
one = update (text "udp:1:1") 1 (some 10) none false

abbrev two : TrafficSessionUpdate
two = update (text "udp:2:1") 2 none (some 10) true

abbrev stored : Sessions
stored = apply_update [] one

apply_update-get_example :
    (get two.session_key (apply_update stored two)
      ≡ some (update_session (entry_or_new stored two) two))
    × ((j : Text)
        → j ≢ two.session_key
        → (get j (apply_update stored two) ≡ get j stored)
          ⊎ (IsEvicted stored two.session_key j × (get j (apply_update stored two) ≡ none)))
apply_update-get_example = apply_update-get stored two (apply_update-IsStore [] one empty-IsStore)

updates-IsTimed_example :
    IsTimed (foldl update_session (foldl update_session (new_session one) (one ∷ [])) (two ∷ []))
    × IsKept
        (new_session one)
        (foldl update_session (foldl update_session (new_session one) (one ∷ [])) (two ∷ []))
    × IsKept
        (foldl update_session (new_session one) (one ∷ []))
        (foldl update_session (foldl update_session (new_session one) (one ∷ [])) (two ∷ []))
updates-IsTimed_example = updates-IsTimed one (one ∷ []) (two ∷ [])

abbrev failed_once : TrafficSession
failed_once = record (new_session one) {
  selection_groups = some (text "Tunnel, exit");
  selection_nodes = some (text "a, b");
  error = some (text "reset");
  target_domain = some (text " A.example ");
}

abbrev context : SelectionContext
context = record {
  session_id = 1;
  inbound = tcp;
  target = record {
    address = record { ip = v4 (1 ∷ 1 ∷ 1 ∷ 1 ∷ []); port = 443 };
    domain = some (text "a.Example");
    source = external_context;
  };
}

two_hops_counted :
    map {B = Text × (Text × ℕ)}
      (λ s. (s.group_id, (s.node_id, s.error_rate_ppm)))
      (node_stats_from_sessions (failed_once ∷ []) [])
    ≡ (text "Tunnel", (text "a", 1000000)) ∷ (text "exit", (text "b", 1000000)) ∷ []
unfolding node_stats_from_sessions tally_all tally node_keys selection_pairs split_list split_on
    trim rate_ppm record_session finish new_session get insert add_u64
two_hops_counted = refl

few_keys : total_keys node_keys (failed_once ∷ []) ≡ 2
unfolding total_keys node_keys selection_pairs split_list split_on trim new_session
few_keys = refl

stats-IsSound_example :
    All IsNodeRow (node_stats_from_sessions (failed_once ∷ []) [])
    × All IsTargetRow (target_stats_from_sessions (failed_once ∷ []) [])
stats-IsSound_example = stats-IsSound (failed_once ∷ []) [] (omega (arith, few_keys))

abbrev inputs : List MatrixCandidateInput
inputs =
    record { node_id = text "a"; priority = 1 } ∷ record { node_id = text "b"; priority = 2 } ∷ []

-- The node that failed is passed over for one without history, of a lower priority.
passed_over :
    select_active_candidate context
      (text "Tunnel")
      default_thresholds
      (node_stats_from_sessions (failed_once ∷ []) [])
      (target_stats_from_sessions (failed_once ∷ []) [])
      inputs
    ≡ some (text "b")
unfolding select_active_candidate max_by scored score_of biased active_score matching_target_stats
    matching_node_stats context_scope target_stats_from_sessions node_stats_from_sessions tally_all
    tally target_keys node_keys target_scope trim selection_pairs split_list split_on insert get
    finish finish_target show_unsigned show_ip to_ascii_lowercase add_u64 saturating_mul cooled
    penalty weighted_success_rate_ppm effective_rate_ppm rate_ppm record_session
    effective_error_millis new_session node_fingerprint millis_to_count
passed_over = refl

select_active_candidate-IsChosen_example :
    ((select_active_candidate context (text "Tunnel") default_thresholds [] [] inputs ≡ none)
      × ((active_rollout_group (text "Tunnel") ≡ false) ⊎ (inputs ≡ [])))
    ⊎ ((best : NodeId × ℕ) × IsChosen context (text "Tunnel") default_thresholds [] [] inputs best
        × (active_rollout_group (text "Tunnel") ≡ true)
        × (select_active_candidate context (text "Tunnel") default_thresholds [] [] inputs
            ≡ some best.0))
select_active_candidate-IsChosen_example =
    select_active_candidate-IsChosen context (text "Tunnel") default_thresholds [] [] inputs

abbrev row : MatrixNodeStats
row = record {
  group_id = text "Tunnel";
  node_id = text "a";
  node_fingerprint = text "f";
  session_count = 10;
  success_count = 7;
  error_count = 1;
  effective_error_count = 1;
  effective_error_millis = 750;
  active_session_count = 2;
  error_rate_ppm = 100000;
  effective_error_rate_ppm = 75000;
  avg_first_response_latency_ms = some 120;
  client_to_upstream_bytes = 0;
  upstream_to_client_bytes = 0;
  client_to_upstream_datagrams = 0;
  upstream_to_client_datagrams = 0;
  last_observed_at_unix_ms = 5;
}

active_score-exact_example :
    biased (active_score 2 1 default_thresholds none (some row))
      + (2 * 1000000000
          + 1
          + aggregate_cost default_thresholds (some row)
          + target_cost default_thresholds none)
    ≡ 9223372036854775808 + base_score none (some row)
active_score-exact_example =
    active_score-exact 2 1 default_thresholds none (some row) (omega arith) (omega arith) tt
      (record { rate_le = omega arith; active_le = omega arith; sessions_lt = omega arith })

abbrev decision : SelectionDecision
decision = record {
  decision_id = 4;
  config_generation = 1;
  group_id = text "Tunnel";
  matched_rule_id = none;
  node_id = text "a";
  next = direct_audit_outlet;
  trace = [];
  terminal = direct_outlet;
  reason = single_node;
  scheduler = single_first_enabled;
  candidate_count = 2;
  ip_family = ipv4;
  ipv6_policy_source = none;
}

score_candidates-IsRanked_example :
    IsRanked inputs
      (text "a")
      (score_candidates 9 context (text "Tunnel") decision inputs (row ∷ []) [])
score_candidates-IsRanked_example =
    score_candidates-IsRanked 9 context (text "Tunnel") decision inputs (row ∷ []) []
