-- ===== src/Observe/Records.antt =====
-- The records of crates/dynet-runtime/src/traffic_session.rs: a session, and what an event says of it.
use dynet.Base.{ℕ, Bool, Option}
use dynet.Base.Text.{Text}

pub record TrafficSession : Type 0 where
  pub session_key : Text
  pub session_id : ℕ
  pub decision_id : Option ℕ
  pub config_generation : Option ℕ
  pub inbound : Text
  pub node_protocol : Option Text
  pub peer : Option Text
  pub target : Option Text
  pub target_ip : Option Text
  pub target_port : Option ℕ
  pub target_domain : Option Text
  pub target_source : Option Text
  pub upstream : Option Text
  pub selection_groups : Option Text
  pub selection_nodes : Option Text
  pub selection_trace : Option Text
  pub started_at_unix_ms : ℕ
  pub closed_at_unix_ms : Option ℕ
  pub duration_ms : Option ℕ
  pub close_reason : Option Text
  pub error_stage : Option Text
  pub error_code : Option Text
  pub error_class : Option Text
  pub error_side : Option Text
  pub error_phase : Option Text
  pub error_protocol_phase : Option Text
  pub error_score_impact : Option Text
  pub error : Option Text
  pub client_to_upstream_bytes : ℕ
  pub upstream_to_client_bytes : ℕ
  pub client_to_upstream_datagrams : ℕ
  pub upstream_to_client_datagrams : ℕ
  pub first_upstream_at_unix_ms : Option ℕ
  pub first_downstream_at_unix_ms : Option ℕ
  pub first_response_latency_ms : Option ℕ
  pub last_observed_at_unix_ms : ℕ

pub record TrafficSessionUpdate : Type 0 where
  pub session_key : Text
  pub session_id : ℕ
  pub decision_id : Option ℕ
  pub config_generation : Option ℕ
  pub inbound : Text
  pub observed_at_unix_ms : ℕ
  pub node_protocol : Option Text
  pub peer : Option Text
  pub target : Option Text
  pub target_ip : Option Text
  pub target_port : Option ℕ
  pub target_domain : Option Text
  pub target_source : Option Text
  pub upstream : Option Text
  pub selection_groups : Option Text
  pub selection_nodes : Option Text
  pub selection_trace : Option Text
  pub close_reason : Option Text
  pub error_stage : Option Text
  pub error_code : Option Text
  pub error_class : Option Text
  pub error_side : Option Text
  pub error_phase : Option Text
  pub error_protocol_phase : Option Text
  pub error_score_impact : Option Text
  pub error : Option Text
  pub client_to_upstream_bytes : Option ℕ
  pub upstream_to_client_bytes : Option ℕ
  pub client_to_upstream_datagram : Option ℕ
  pub upstream_to_client_datagram : Option ℕ
  pub closes_session : Bool
