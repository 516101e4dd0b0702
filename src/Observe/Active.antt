-- ===== src/Observe/Active.antt =====
-- crates/dynet-runtime/src/model/matrix_active.rs: the scheduler that scores a group's candidates by
-- what was observed of them.

pub mod Best
pub mod Bounds
use Prim.Native.Nat.{Ordering}
use dynet.Base.{
  ℕ, zero, suc, ◌+◌, ◌-◌, ◌*◌, ◌/◌, ◌%◌, ◌^◌, ◌≡◌, refl, min, Bool, true, false, ◌&&◌, ◌||◌, List,
  [], ◌∷◌, map, Option, none, some, find, ltb, leb, ◌==◌, if◌then◌else◌,
}
use dynet.Base.Order.{nat_ord, list_ord, cmp, eqb, then_with}
use dynet.Base.Opt.{get_or, is_none, is_some_and, map_option}
use dynet.Base.Extremes.{max_by}
use dynet.Base.Show.{show_ip}
use dynet.Base.Text.{Text, text, to_ascii_lowercase}
use dynet.Base.Trim.{trim}
use dynet.Base.Words.{add_u64, saturating_mul, u64_mod}
use dynet.Routing.Types.{NodeId, GroupId, GroupThresholds, MatrixCandidateInput, SelectionContext}
use dynet.Observe.Stats.{MatrixNodeStats, MatrixTargetNodeStats, u32_max, is_empty}

-- An i64 is its residue modulo 2 ^ 64; sums, differences and products wrap around.
abbrev pub i64_max : ℕ
i64_max = 9223372036854775807

unfoldable pub sub_i64 : ℕ → ℕ → ℕ
sub_i64 a b = (a + (u64_mod - b % u64_mod)) % u64_mod

unfoldable pub mul_i64 : ℕ → ℕ → ℕ
mul_i64 a b = a * b % u64_mod

-- Residues in the order of the numbers they stand for: `biased` adds 2 ^ 63.
unfoldable pub biased : ℕ → ℕ
biased a = (a + 9223372036854775808) % u64_mod

-- `i64::try_from(value).unwrap_or(i64::MAX)`
abbrev pub to_i64 : ℕ → ℕ
to_i64 value = min value i64_max

abbrev pub active_rollout_group : GroupId → Bool
active_rollout_group id = eqb id (text "GitHub") || eqb id (text "Common") || eqb id (text "Tunnel")

abbrev pub latency_penalty : Option ℕ → ℕ
latency_penalty value = to_i64 (min (get_or value 0) 100000)

-- `aggregate_penalty` and `target_penalty`, which weigh the same four columns.
unfoldable pub penalty : ℕ → Option ℕ → ℕ → ℕ → ℕ
unfolding mul_i64 add_u64
penalty effective_error_rate_ppm latency active_session_count session_count =
    add_u64
      (add_u64
        (add_u64 (mul_i64 effective_error_rate_ppm 100) (mul_i64 (latency_penalty latency) 1000))
        (mul_i64 (to_i64 active_session_count) 10000))
      (mul_i64 (to_i64 session_count) 10)

abbrev pub aggregate_penalty : MatrixNodeStats → ℕ
aggregate_penalty s =
    penalty s.effective_error_rate_ppm s.avg_first_response_latency_ms s.active_session_count
      s.session_count

abbrev pub target_penalty : MatrixTargetNodeStats → ℕ
target_penalty s =
    penalty s.effective_error_rate_ppm s.avg_first_response_latency_ms s.active_session_count
      s.session_count

unfoldable pub weighted_success_rate_ppm : ℕ → ℕ → ℕ
weighted_success_rate_ppm success completed_millis =
    if completed_millis == 0 then 0 else min (success * 1000000000 / completed_millis) u32_max

abbrev pub capped_node : MatrixNodeStats → GroupThresholds → Bool
capped_node stats thresholds =
    is_some_and (λ limit. leb limit stats.active_session_count) thresholds.max_active_sessions

-- `cooled_node` and `cooled_target`, on the two columns that they read.
unfoldable pub cooled : ℕ → ℕ → GroupThresholds → Bool
cooled success_count effective_error_millis thresholds =
    let completed_millis = add_u64 (saturating_mul success_count 1000) effective_error_millis in
    leb (saturating_mul thresholds.min_samples 1000) completed_millis
    && ltb (weighted_success_rate_ppm success_count completed_millis)
        thresholds.min_success_rate_ppm

abbrev pub cooled_node : MatrixNodeStats → GroupThresholds → Bool
cooled_node stats thresholds = cooled stats.success_count stats.effective_error_millis thresholds

abbrev pub cooled_target : MatrixTargetNodeStats → GroupThresholds → Bool
cooled_target stats thresholds = cooled stats.success_count stats.effective_error_millis thresholds

-- What a base score leaves when the priority and the rank are taken from it.
abbrev pub ranked : ℕ → ℕ → ℕ → ℕ
ranked base priority rank = sub_i64 (sub_i64 base (mul_i64 priority 1000000000)) (to_i64 rank)

abbrev pub minus_if : Bool → ℕ → ℕ → ℕ
minus_if true amount score = sub_i64 score amount
minus_if false amount score = score

abbrev pub aggregate_score : ℕ → GroupThresholds → Option MatrixNodeStats → ℕ
aggregate_score score thresholds none = score
aggregate_score score thresholds (some stats) =
    minus_if (cooled_node stats thresholds) 2000000000000 (
      sub_i64 (minus_if (capped_node stats thresholds) 3000000000000 score)
        (aggregate_penalty stats))

abbrev pub target_score : ℕ → GroupThresholds → Option MatrixTargetNodeStats → ℕ
target_score score thresholds none = score
target_score score thresholds (some stats) =
    minus_if (cooled_target stats thresholds) 2000000000000 (sub_i64 score (target_penalty stats))

unfoldable pub active_score :
    ℕ → ℕ → GroupThresholds → Option MatrixTargetNodeStats → Option MatrixNodeStats → ℕ
unfolding sub_i64 mul_i64
active_score priority rank thresholds target aggregate =
    if is_none target && is_none aggregate
    then ranked 4000000000000 priority rank
    else target_score (aggregate_score (ranked 1000000000000 priority rank) thresholds aggregate)
        thresholds target

-- `target_scope` of the context: the domain if it has one that is not blank, or the address.
unfoldable pub context_scope : SelectionContext → Text × Text
context_scope context =
    let address : Text × Text = (text "ip", show_ip context.target.address.ip) in
    elim context.target.domain [
      | none ↦ address
      | some domain ↦
          if is_empty (trim domain)
          then address
          else (text "domain", to_ascii_lowercase (trim domain))
    ]

unfoldable pub matching_target_stats :
    SelectionContext → GroupId → NodeId → List MatrixTargetNodeStats → Option MatrixTargetNodeStats
matching_target_stats context group_id node_id stats =
    find
      (λ s.
        eqb s.group_id group_id
        && eqb s.node_id node_id
        && eqb s.target_scope (context_scope context).0
        && eqb s.target_value (context_scope context).1)
      stats

unfoldable pub matching_node_stats :
    GroupId → NodeId → List MatrixNodeStats → Option MatrixNodeStats
matching_node_stats group_id node_id stats =
    find (λ s. eqb s.group_id group_id && eqb s.node_id node_id) stats

-- Higher scores are greater, and of equal ones the lesser id.
abbrev pub score_order : NodeId × ℕ → NodeId × ℕ → Ordering
score_order left right = then_with (cmp (biased left.1) (biased right.1)) (cmp right.0 left.0)

module _ (context : SelectionContext) (group_id : GroupId) (thresholds : GroupThresholds)
    (node_stats : List MatrixNodeStats) (target_stats : List MatrixTargetNodeStats) where
  unfoldable pub score_of : ℕ → MatrixCandidateInput → NodeId × ℕ
  score_of rank candidate = (
    candidate.node_id,
    active_score candidate.priority rank thresholds
        (matching_target_stats context group_id candidate.node_id target_stats)
        (matching_node_stats group_id candidate.node_id node_stats),
  )

  -- `enumerate().map(…)` from a rank on.
  unfoldable pub scored : ℕ → List MatrixCandidateInput → List (NodeId × ℕ)
  scored rank [] = []
  scored rank (candidate ∷ candidates) = score_of rank candidate ∷ scored (rank + 1) candidates

  unfoldable pub select_active_candidate : List MatrixCandidateInput → Option NodeId
  select_active_candidate candidates =
      if active_rollout_group group_id
      then map_option (λ best. best.0) (max_by score_order (scored 0 candidates))
      else none
