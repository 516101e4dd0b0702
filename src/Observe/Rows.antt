-- ===== src/Observe/Rows.antt =====
-- The rows of crates/dynet-runtime/src/model/matrix_stats.rs, and what they are counted up in.
use dynet.Base.{ℕ, Option}
use dynet.Base.Text.{Text}

pub record MatrixNodeStats : Type 0 where
  pub group_id : Text
  pub node_id : Text
  pub node_fingerprint : Text
  pub session_count : ℕ
  pub success_count : ℕ
  pub error_count : ℕ
  pub effective_error_count : ℕ
  pub effective_error_millis : ℕ
  pub active_session_count : ℕ
  pub error_rate_ppm : ℕ
  pub effective_error_rate_ppm : ℕ
  pub avg_first_response_latency_ms : Option ℕ
  pub client_to_upstream_bytes : ℕ
  pub upstream_to_client_bytes : ℕ
  pub client_to_upstream_datagrams : ℕ
  pub upstream_to_client_datagrams : ℕ
  pub last_observed_at_unix_ms : ℕ

-- `MatrixTargetNodeStats`: the same columns behind a target.
pub record MatrixTargetNodeStats : Type 0 where
  pub group_id : Text
  pub node_id : Text
  pub node_fingerprint : Text
  pub target_scope : Text
  pub target_value : Text
  pub session_count : ℕ
  pub success_count : ℕ
  pub error_count : ℕ
  pub effective_error_count : ℕ
  pub effective_error_millis : ℕ
  pub active_session_count : ℕ
  pub error_rate_ppm : ℕ
  pub effective_error_rate_ppm : ℕ
  pub avg_first_response_latency_ms : Option ℕ
  pub client_to_upstream_bytes : ℕ
  pub upstream_to_client_bytes : ℕ
  pub client_to_upstream_datagrams : ℕ
  pub upstream_to_client_datagrams : ℕ
  pub last_observed_at_unix_ms : ℕ

pub record MatrixNodeStatsAccumulator : Type 0 where
  pub session_count : ℕ
  pub success_count : ℕ
  pub error_count : ℕ
  pub effective_error_millis : ℕ
  pub active_session_count : ℕ
  pub first_response_latency_total_ms : ℕ
  pub first_response_latency_count : ℕ
  pub client_to_upstream_bytes : ℕ
  pub upstream_to_client_bytes : ℕ
  pub client_to_upstream_datagrams : ℕ
  pub upstream_to_client_datagrams : ℕ
  pub last_observed_at_unix_ms : ℕ

abbrev pub empty_stats : MatrixNodeStatsAccumulator
empty_stats = record {
  session_count = 0;
  success_count = 0;
  error_count = 0;
  effective_error_millis = 0;
  active_session_count = 0;
  first_response_latency_total_ms = 0;
  first_response_latency_count = 0;
  client_to_upstream_bytes = 0;
  upstream_to_client_bytes = 0;
  client_to_upstream_datagrams = 0;
  upstream_to_client_datagrams = 0;
  last_observed_at_unix_ms = 0;
}
