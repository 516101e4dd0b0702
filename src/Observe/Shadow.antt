-- ===== src/Observe/Shadow.antt =====
-- crates/dynet-runtime/src/model/matrix_shadow.rs: a second opinion on each selection, kept beside it.

pub mod Ranking
use Prim.Native.Nat.{Ordering}
use mathlib.Core.List.{foldl}
use dynet.Base.{
  ℕ, ◌+◌, ◌-◌, min, Bool, true, false, ◌&&◌, List, [], ◌∷◌, ◌++◌, map, Option, none, some, keep,
  length, drop, if◌then◌else◌,
}
use dynet.Base.Order.{nat_ord, list_ord, cmp, eqb, then_with}
use dynet.Base.OrdMap.{OrdMap, get, collect}
use dynet.Base.Opt.{get_or, is_some_and}
use dynet.Base.Parse.{show_unsigned}
use dynet.Base.Sort.{sort_by}
use dynet.Base.Text.{Text, text}
use dynet.Base.Words.{add_u64}
use dynet.Routing.Types.{
  NodeId, GroupId, MatrixCandidateInput, SelectionContext, SelectionDecision, InboundKind, tcp, udp,
}
use dynet.Observe.Event.{push_bounded}
use dynet.Observe.Stats.{MatrixNodeStats, MatrixTargetNodeStats}
use dynet.Observe.Active.{sub_i64, mul_i64, biased, to_i64, context_scope}

abbrev pub matrix_shadow_limit : ℕ
matrix_shadow_limit = 1024

pub record MatrixShadowCandidate : Type 0 where
  pub node_id : Text
  pub priority : ℕ
  pub score : ℕ
  pub reason : Text
  pub selected_by_actual : Bool
  pub selected_by_shadow : Bool

pub record MatrixShadowDecision : Type 0 where
  pub decision_id : ℕ
  pub session_id : ℕ
  pub observed_at_unix_ms : ℕ
  pub inbound : Text
  pub group_id : Text
  pub actual_node_id : Text
  pub shadow_top_node_id : Option Text
  pub shadow_differs_from_actual : Bool
  pub shadow_reason : Text
  pub candidates : List MatrixShadowCandidate

-- `MatrixShadowStore::record`: a ring of the last 1024 decisions.
unfoldable pub record_shadow :
    List MatrixShadowDecision → MatrixShadowDecision → List MatrixShadowDecision
record_shadow decisions decision = push_bounded matrix_shadow_limit decisions decision

unfoldable pub from_decisions : List MatrixShadowDecision → List MatrixShadowDecision
from_decisions decisions =
    foldl (push_bounded matrix_shadow_limit) []
      (drop (length decisions - matrix_shadow_limit) decisions)

abbrev pub stats_by_node : GroupId → List MatrixNodeStats → OrdMap Text MatrixNodeStats
stats_by_node group_id node_stats =
    collect (map (λ s. (s.node_id, s)) (keep (λ s. eqb s.group_id group_id) node_stats))

abbrev pub target_stats_by_node :
    SelectionContext → GroupId → List MatrixTargetNodeStats → OrdMap Text MatrixTargetNodeStats
target_stats_by_node context group_id target_node_stats = collect (
    map (λ s. (s.node_id, s))
      (keep
        (λ s.
          eqb s.group_id group_id
          && eqb s.target_scope (context_scope context).0
          && eqb s.target_value (context_scope context).1)
        target_node_stats))

-- The four terms that a row takes from a score.
weigh : ℕ → ℕ → Option ℕ → ℕ → ℕ → ℕ
weigh score effective_error_rate_ppm latency active_session_count session_count =
    sub_i64
      (sub_i64
        (sub_i64 (sub_i64 score (mul_i64 effective_error_rate_ppm 100))
          (mul_i64 (to_i64 (min (get_or latency 0) 100000)) 1000))
        (mul_i64 (to_i64 active_session_count) 10000))
      (mul_i64 (to_i64 session_count) 10)

balanced : ℕ → Option MatrixNodeStats → Option MatrixTargetNodeStats → ℕ
balanced priority_penalty none none = sub_i64 4000000000000 priority_penalty
balanced priority_penalty stats (some t) =
    weigh (sub_i64 1000000000000 priority_penalty) t.effective_error_rate_ppm
      t.avg_first_response_latency_ms t.active_session_count t.session_count
balanced priority_penalty (some s) none =
    weigh (sub_i64 1000000000000 priority_penalty) s.effective_error_rate_ppm
      s.avg_first_response_latency_ms s.active_session_count s.session_count

unfoldable pub stats_balanced_score :
    ℕ → ℕ → Option MatrixNodeStats → Option MatrixTargetNodeStats → ℕ
unfolding weigh balanced sub_i64 mul_i64 add_u64
stats_balanced_score priority rank stats target_stats =
    balanced (add_u64 (mul_i64 priority 1000000000) (to_i64 rank)) stats target_stats

latency_text : Option ℕ → Text
latency_text none = text "none"
latency_text (some latency) = show_unsigned latency

counts_text : ℕ → ℕ → ℕ → ℕ → Option ℕ → Text
counts_text sessions errors effective active latency =
    text "sessions="
    ++ show_unsigned sessions
    ++ text ",errors="
    ++ show_unsigned errors
    ++ text ",effectiveErrors="
    ++ show_unsigned effective
    ++ text ",active="
    ++ show_unsigned active
    ++ text ",latencyMs="
    ++ latency_text latency

unfoldable pub stats_balanced_reason : Option MatrixNodeStats → Option MatrixTargetNodeStats → Text
unfolding latency_text counts_text
stats_balanced_reason stats (some t) =
    text "stats-balanced-shadow:target="
    ++ t.target_scope
    ++ text ":"
    ++ t.target_value
    ++ text ","
    ++ counts_text t.session_count t.error_count t.effective_error_count t.active_session_count
        t.avg_first_response_latency_ms
stats_balanced_reason none none = text "stats-balanced-shadow:no-history"
stats_balanced_reason (some s) none =
    text "stats-balanced-shadow:"
    ++ counts_text s.session_count s.error_count s.effective_error_count s.active_session_count
        s.avg_first_response_latency_ms

-- Higher scores first, and of equal ones the lesser id.
abbrev pub shadow_order : MatrixShadowCandidate → MatrixShadowCandidate → Ordering
shadow_order left right =
    then_with (cmp (biased right.score) (biased left.score)) (cmp left.node_id right.node_id)

abbrev pub mark_first : List MatrixShadowCandidate → List MatrixShadowCandidate
mark_first [] = []
mark_first (first ∷ others) = record first { selected_by_shadow = true } ∷ others

abbrev pub top_of : List MatrixShadowCandidate → Option Text
top_of [] = none
top_of (first ∷ others) = some first.node_id

abbrev inbound_label : InboundKind → Text
inbound_label tcp = text "tcp"
inbound_label udp = text "udp"

module _ (context : SelectionContext) (group_id : GroupId) (actual_node_id : NodeId)
    (node_stats : List MatrixNodeStats) (target_node_stats : List MatrixTargetNodeStats) where
  unfoldable pub shadow_candidate : ℕ → MatrixCandidateInput → MatrixShadowCandidate
  shadow_candidate rank candidate =
      let stats = get candidate.node_id (stats_by_node group_id node_stats) in
      let target_stats =
        get candidate.node_id (target_stats_by_node context group_id target_node_stats) in
      record {
        node_id = candidate.node_id;
        priority = candidate.priority;
        score = stats_balanced_score candidate.priority rank stats target_stats;
        reason = stats_balanced_reason stats target_stats;
        selected_by_actual = eqb candidate.node_id actual_node_id;
        selected_by_shadow = false;
      }

  -- `enumerate().map(…)` from a rank on.
  unfoldable pub shadow_candidates : ℕ → List MatrixCandidateInput → List MatrixShadowCandidate
  shadow_candidates rank [] = []
  shadow_candidates rank (candidate ∷ candidates) =
      shadow_candidate rank candidate ∷ shadow_candidates (rank + 1) candidates

unfoldable pub score_candidates :
    ℕ
    → SelectionContext
    → GroupId
    → SelectionDecision
    → List MatrixCandidateInput
    → List MatrixNodeStats
    → List MatrixTargetNodeStats
    → MatrixShadowDecision
score_candidates now context group_id actual candidates node_stats target_node_stats =
    let sorted = sort_by shadow_order (
      shadow_candidates context group_id actual.node_id node_stats target_node_stats 0
        candidates) in
    record {
      decision_id = actual.decision_id;
      session_id = context.session_id;
      observed_at_unix_ms = now;
      inbound = inbound_label context.inbound;
      group_id = group_id;
      actual_node_id = actual.node_id;
      shadow_top_node_id = top_of sorted;
      shadow_differs_from_actual =
          is_some_and (λ node_id. if eqb node_id actual.node_id then false else true)
            (top_of sorted);
      shadow_reason = text "stats-balanced-shadow";
      candidates = mark_first sorted;
    }
