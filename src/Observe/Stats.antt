-- ===== src/Observe/Stats.antt =====
-- crates/dynet-runtime/src/model/matrix_stats.rs: the sessions summed up by group and node, and by
-- target.
pub mod Tallies
pub mod Rates
pub use dynet.Observe.Rows.{
  MatrixNodeStats, MatrixTargetNodeStats, MatrixNodeStatsAccumulator, empty_stats,
}
use dynet.Base.{
  ℕ, ◌+◌, ◌-◌, ◌*◌, ◌/◌, ◌≡◌, refl, min, max, Bool, true, false, ◌&&◌, List, [], ◌∷◌, ◌++◌, map,
  length, Option, none, some, ltb, ◌==◌, if◌then◌else◌, keep,
}
use dynet.Base.Order.{Ord, nat_ord, list_ord, pair_ord, eqb}
use dynet.Base.OrdMap.{OrdMap, get, insert}
use dynet.Base.Opt.{get_or, is_none, map_option, and_then, ◌>>=◌}
use dynet.Base.Text.{Text, text, to_ascii_lowercase}
use dynet.Base.Trim.{trim, split_on}
use dynet.Base.Words.{add_u64, add_u128}
use dynet.Observe.Session.{TrafficSession}

-- How much of an error a session counts for, in thousandths.
unfoldable pub effective_error_millis : TrafficSession → ℕ
effective_error_millis session = elim session.error_class [
  | none ↦ 1000
  | some class ↦
      if eqb class (text "client-aborted")
      then 0
      else if eqb class (text "response-interrupted") && ltb 0 session.upstream_to_client_bytes
      then 250
      else if eqb class (text "no-response-before-first-byte")
      then 750
      else if eqb class (text "response-interrupted")
      then 750
      else 1000
]

abbrev if_some {ℓ κ} : {A : Type ℓ} {B : Type κ} → Option A → B → B → B
if_some none there missing = missing
if_some (some a) there missing = there

-- How a session ended: with an error, without one, or not yet.
pub data Standing : Type 0 where
  failed succeeded active : Standing

abbrev pub standing : TrafficSession → Standing
standing session = if_some session.error failed (if_some session.closed_at_unix_ms succeeded active)

abbrev pub bump : Bool → ℕ → ℕ
bump true n = add_u64 n 1
bump false n = n

abbrev pub is_failed : Standing → Bool
is_failed failed = true
is_failed _ = false

abbrev pub is_succeeded : Standing → Bool
is_succeeded succeeded = true
is_succeeded _ = false

abbrev pub is_active : Standing → Bool
is_active active = true
is_active _ = false

abbrev pub add_error : Standing → ℕ → ℕ → ℕ
add_error failed millis total = add_u64 total millis
add_error _ millis total = total

abbrev add_latency : Option ℕ → ℕ → ℕ
add_latency none total = total
add_latency (some ms) total = add_u128 total ms

-- `MatrixNodeStatsAccumulator::record`
unfoldable pub record_session :
    MatrixNodeStatsAccumulator → TrafficSession → MatrixNodeStatsAccumulator
record_session a s = record {
  session_count = add_u64 a.session_count 1;
  success_count = bump (is_succeeded (standing s)) a.success_count;
  error_count = bump (is_failed (standing s)) a.error_count;
  effective_error_millis =
      add_error (standing s) (effective_error_millis s) a.effective_error_millis;
  active_session_count = bump (is_active (standing s)) a.active_session_count;
  first_response_latency_total_ms =
      add_latency s.first_response_latency_ms a.first_response_latency_total_ms;
  first_response_latency_count =
      if_some s.first_response_latency_ms (add_u64 a.first_response_latency_count 1)
        a.first_response_latency_count;
  client_to_upstream_bytes = add_u64 a.client_to_upstream_bytes s.client_to_upstream_bytes;
  upstream_to_client_bytes = add_u64 a.upstream_to_client_bytes s.upstream_to_client_bytes;
  client_to_upstream_datagrams =
      add_u64 a.client_to_upstream_datagrams s.client_to_upstream_datagrams;
  upstream_to_client_datagrams =
      add_u64 a.upstream_to_client_datagrams s.upstream_to_client_datagrams;
  last_observed_at_unix_ms = max a.last_observed_at_unix_ms s.last_observed_at_unix_ms;
}

abbrev pub u32_max : ℕ
u32_max = 4294967295

unfoldable pub millis_to_count : ℕ → ℕ
millis_to_count value = (value + 999) / 1000

unfoldable pub rate_ppm : ℕ → ℕ → ℕ
rate_ppm numerator denominator =
    if denominator == 0 then 0 else min (numerator * 1000000 / denominator) u32_max

unfoldable pub effective_rate_ppm : ℕ → ℕ → ℕ
effective_rate_ppm error_millis sessions =
    if sessions == 0 then 0 else min (error_millis * 1000 / sessions) u32_max

abbrev average : ℕ → ℕ → Option ℕ
average total count = if ltb 0 count then some (total / count) else none

-- `MatrixNodeStatsAccumulator::finish`
unfoldable pub finish : MatrixNodeStatsAccumulator → Text → Text → Text → MatrixNodeStats
finish a group_id node_id node_fingerprint = record {
  group_id = group_id;
  node_id = node_id;
  node_fingerprint = node_fingerprint;
  session_count = a.session_count;
  success_count = a.success_count;
  error_count = a.error_count;
  effective_error_count = millis_to_count a.effective_error_millis;
  effective_error_millis = a.effective_error_millis;
  active_session_count = a.active_session_count;
  error_rate_ppm = rate_ppm a.error_count a.session_count;
  effective_error_rate_ppm = effective_rate_ppm a.effective_error_millis a.session_count;
  avg_first_response_latency_ms =
      average a.first_response_latency_total_ms a.first_response_latency_count;
  client_to_upstream_bytes = a.client_to_upstream_bytes;
  upstream_to_client_bytes = a.upstream_to_client_bytes;
  client_to_upstream_datagrams = a.client_to_upstream_datagrams;
  upstream_to_client_datagrams = a.upstream_to_client_datagrams;
  last_observed_at_unix_ms = a.last_observed_at_unix_ms;
}

-- `MatrixNodeStatsAccumulator::finish_target`
unfoldable pub finish_target :
    MatrixNodeStatsAccumulator → Text → Text → Text → Text → Text → MatrixTargetNodeStats
finish_target a group_id node_id node_fingerprint target_scope target_value = record {
  group_id = group_id;
  node_id = node_id;
  node_fingerprint = node_fingerprint;
  target_scope = target_scope;
  target_value = target_value;
  session_count = a.session_count;
  success_count = a.success_count;
  error_count = a.error_count;
  effective_error_count = millis_to_count a.effective_error_millis;
  effective_error_millis = a.effective_error_millis;
  active_session_count = a.active_session_count;
  error_rate_ppm = rate_ppm a.error_count a.session_count;
  effective_error_rate_ppm = effective_rate_ppm a.effective_error_millis a.session_count;
  avg_first_response_latency_ms =
      average a.first_response_latency_total_ms a.first_response_latency_count;
  client_to_upstream_bytes = a.client_to_upstream_bytes;
  upstream_to_client_bytes = a.upstream_to_client_bytes;
  client_to_upstream_datagrams = a.client_to_upstream_datagrams;
  upstream_to_client_datagrams = a.upstream_to_client_datagrams;
  last_observed_at_unix_ms = a.last_observed_at_unix_ms;
}

abbrev pub is_empty {ℓ} : {A : Type ℓ} → List A → Bool
is_empty [] = true
is_empty (_ ∷ _) = false

unfoldable pub split_list : Text → List Text
split_list value =
    keep (λ part. if is_empty part then false else true) (map trim (split_on b',' value))

abbrev zip : List Text → List Text → List (Text × Text)
zip [] ys = []
zip (x ∷ xs) [] = []
zip (x ∷ xs) (y ∷ ys) = (x, y) ∷ zip xs ys

-- The hops of a session's selection, as pairs of a group and a node.
unfoldable pub selection_pairs : TrafficSession → Option (List (Text × Text))
selection_pairs session = do
  groups_text ← session.selection_groups
  let groups = split_list groups_text
  nodes_text ← session.selection_nodes
  let nodes = split_list nodes_text
  if is_empty groups
      then none
      else if length groups == length nodes
      then some (zip groups nodes)
      else none

abbrev non_empty : Option Text → Option Text
non_empty value = value >>= λ t. if is_empty (trim t) then none else some (trim t)

-- The target of a session: its domain, or else its address.
unfoldable pub target_scope : TrafficSession → Option (Text × Text)
target_scope session = elim (non_empty session.target_domain) [
  | some domain ↦ some (text "domain", to_ascii_lowercase domain)
  | none ↦ map_option (λ ip. (text "ip", ip)) (non_empty session.target_ip)
]

unfoldable pub node_fingerprint : Text → OrdMap Text Text → Text
node_fingerprint node_id fingerprints_by_node =
    get_or (get node_id fingerprints_by_node >>= λ f. if is_empty f then none else some f)
      (text "node-id:" ++ node_id)

module _ {K : Type 0} ⦃o : Ord K⦄ where
  -- `entry(key).or_default().record(session)` for each key of a session.
  unfoldable pub tally :
      OrdMap K MatrixNodeStatsAccumulator
      → List K
      → TrafficSession
      → OrdMap K MatrixNodeStatsAccumulator
  tally stats [] session = stats
  tally stats (key ∷ keys) session =
      tally (insert key (record_session (get_or (get key stats) empty_stats) session) stats) keys
        session

  -- The loop over the sessions; `keys` are those that a session counts for.
  unfoldable pub tally_all :
      (TrafficSession → List K)
      → OrdMap K MatrixNodeStatsAccumulator
      → List TrafficSession
      → OrdMap K MatrixNodeStatsAccumulator
  tally_all keys stats [] = stats
  tally_all keys stats (session ∷ sessions) =
      tally_all keys (tally stats (keys session) session) sessions

abbrev pub NodeKey : Type 0
NodeKey = Text × Text

abbrev pub TargetKey : Type 0
TargetKey = Text × (Text × (Text × Text))

abbrev pub text_ord : Ord Text
text_ord = list_ord

abbrev pub target_ord : Ord TargetKey
target_ord =
    pair_ord ⦃o = text_ord⦄
      ⦃q = pair_ord ⦃o = text_ord⦄ ⦃q = pair_ord ⦃o = text_ord⦄ ⦃q = text_ord⦄⦄⦄

unfoldable pub node_keys : TrafficSession → List NodeKey
node_keys session = get_or (selection_pairs session) []

unfoldable pub target_keys : TrafficSession → List TargetKey
target_keys session =
    get_or
      (do
        (scope, value) ← target_scope session
        pairs ← selection_pairs session
        some (map (λ (group_id, node_id). (group_id, (node_id, (scope, value)))) pairs))
      []

unfoldable pub node_stats_from_sessions :
    List TrafficSession → OrdMap Text Text → List MatrixNodeStats
node_stats_from_sessions sessions fingerprints_by_node =
    map
      (λ ((group_id, node_id), a).
        finish a group_id node_id (node_fingerprint node_id fingerprints_by_node))
      (tally_all node_keys [] sessions)

unfoldable pub target_stats_from_sessions :
    List TrafficSession → OrdMap Text Text → List MatrixTargetNodeStats
target_stats_from_sessions sessions fingerprints_by_node =
    map
      (λ ((group_id, (node_id, (scope, value))), a).
        finish_target a group_id node_id (node_fingerprint node_id fingerprints_by_node) scope
          value)
      (tally_all ⦃o = target_ord⦄ target_keys [] sessions)
