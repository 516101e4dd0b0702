-- ===== src/Observe/Active/Bounds.antt =====
-- The scores of matrix_active.rs do not wrap around.
use dynet.Base.{
  ℕ, ◌+◌, ◌*◌, ◌≤◌, ◌<◌, ◌≡◌, min, Bool, true, false, Option, none, some, arith, ◌^◌, sym, subst,
}
use dynet.Base.Opt.{get_or}
use dynet.Base.Words.{add_u64, u64_mod}
use dynet.Routing.Types.{GroupThresholds}
use dynet.Observe.Stats.{MatrixNodeStats, MatrixTargetNodeStats, u32_max}
use dynet.Observe.Active.{
  sub_i64, mul_i64, biased, penalty, capped_node, cooled_node, cooled_target, ranked, active_score,
  minus_if, aggregate_score, target_score,
}

-- Columns of the sizes that rows have: a rate, and counts below 2 ^ 40.
pub record IsSized (rate active sessions : ℕ) : Type 0 where
  pub rate_le : rate ≤ 1000000
  pub active_le : active ≤ sessions
  pub sessions_lt : sessions < 1099511627776

-- The penalty of a row, added up without bounds.
abbrev plain_penalty : ℕ → Option ℕ → ℕ → ℕ → ℕ
plain_penalty rate latency active sessions =
    rate * 100 + min (get_or latency 0) 100000 * 1000 + active * 10000 + sessions * 10

penalty_plain :
    (rate : ℕ) (latency : Option ℕ) (active sessions : ℕ)
    → IsSized rate active sessions
    → penalty rate latency active sessions ≡ plain_penalty rate latency active sessions
unfolding penalty add_u64 mul_i64
penalty_plain rate latency active sessions s = omega (arith, s.rate_le, s.active_le, s.sessions_lt)

plain_penalty_lt :
    (rate : ℕ) (latency : Option ℕ) (active sessions : ℕ)
    → IsSized rate active sessions
    → plain_penalty rate latency active sessions < 2 ^ 54
plain_penalty_lt rate latency active sessions s =
    omega (arith, s.rate_le, s.active_le, s.sessions_lt)

-- A score stands this far below a base.
IsBelow : ℕ → ℕ → ℕ → Type 0
IsBelow base amount score = (score < u64_mod) × (biased score + amount ≡ 9223372036854775808 + base)

sub_i64-IsBelow :
    (base amount score less : ℕ)
    → amount + less ≤ 9223372036854775808 + base
    → base < 9223372036854775808
    → IsBelow base amount score
    → IsBelow base (amount + less) (sub_i64 score less)
unfolding sub_i64 biased IsBelow
sub_i64-IsBelow base amount score less h k (b, e) = (omega arith, omega (arith, h, k, b, e))

abbrev cost : Bool → ℕ → ℕ
cost true amount = amount
cost false amount = 0

minus_if-IsBelow :
    (b : Bool) (base amount score less : ℕ)
    → amount + less ≤ 9223372036854775808
    → base < 9223372036854775808
    → IsBelow base amount score
    → IsBelow base (amount + cost b less) (minus_if b less score)
minus_if-IsBelow true base amount score less h k below =
    sub_i64-IsBelow base amount score less (omega (arith, h)) k below
minus_if-IsBelow false base amount score less h k below =
    subst (λ t. IsBelow base t score) (omega arith) below

-- What a row takes from the score: the cap, the penalty, the cooling.
abbrev pub aggregate_cost : GroupThresholds → Option MatrixNodeStats → ℕ
aggregate_cost thresholds none = 0
aggregate_cost thresholds (some s) =
    cost (capped_node s thresholds) 3000000000000
    + plain_penalty s.effective_error_rate_ppm s.avg_first_response_latency_ms
        s.active_session_count s.session_count
    + cost (cooled_node s thresholds) 2000000000000

abbrev pub target_cost : GroupThresholds → Option MatrixTargetNodeStats → ℕ
target_cost thresholds none = 0
target_cost thresholds (some s) =
    plain_penalty s.effective_error_rate_ppm s.avg_first_response_latency_ms s.active_session_count
      s.session_count
    + cost (cooled_target s thresholds) 2000000000000

abbrev pub SizedNode : Option MatrixNodeStats → Type 0
SizedNode none = Unit {0}
SizedNode (some s) = IsSized s.effective_error_rate_ppm s.active_session_count s.session_count

abbrev pub SizedTarget : Option MatrixTargetNodeStats → Type 0
SizedTarget none = Unit {0}
SizedTarget (some s) = IsSized s.effective_error_rate_ppm s.active_session_count s.session_count

cost_le : (b : Bool) (amount : ℕ) → cost b amount ≤ amount
cost_le true amount = omega arith
cost_le false amount = omega arith

module _ (thresholds : GroupThresholds) (base amount score : ℕ) (few : amount ≤ 5000000000000000000)
    (low : base < 9223372036854775808) (below : IsBelow base amount score) where
  aggregate-IsBelow :
      (aggregate : Option MatrixNodeStats)
      → SizedNode aggregate
      → IsBelow base
          (amount + aggregate_cost thresholds aggregate)
          (aggregate_score score thresholds aggregate)
  aggregate-IsBelow none z = subst (λ t. IsBelow base t score) (omega arith) below
  aggregate-IsBelow (some s) z =
      let p =
        plain_penalty s.effective_error_rate_ppm s.avg_first_response_latency_ms
          s.active_session_count s.session_count in
      let small =
        plain_penalty_lt s.effective_error_rate_ppm s.avg_first_response_latency_ms
          s.active_session_count s.session_count z in
      let cap = cost (capped_node s thresholds) 3000000000000 in
      let cap_le = cost_le (capped_node s thresholds) 3000000000000 in
      let capped =
        minus_if-IsBelow (capped_node s thresholds) base amount score 3000000000000
          (omega (arith, few)) low below in
      let weighed =
        sub_i64-IsBelow base (amount + cap) _ p (omega (arith, few, small, cap_le)) low capped in
      let exact =
        subst
          (λ t.
            IsBelow base (amount + cap + p)
              (sub_i64 (minus_if (capped_node s thresholds) 3000000000000 score) t))
          (sym (
            penalty_plain s.effective_error_rate_ppm s.avg_first_response_latency_ms
              s.active_session_count s.session_count z))
          weighed in
      subst (λ t. IsBelow base t (aggregate_score score thresholds (some s))) (omega arith)
        (minus_if-IsBelow (cooled_node s thresholds) base (amount + cap + p) _ 2000000000000
          (omega (arith, few, small, cap_le)) low exact)

  target-IsBelow :
      (target : Option MatrixTargetNodeStats)
      → SizedTarget target
      → IsBelow base (amount + target_cost thresholds target) (target_score score thresholds target)
  target-IsBelow none z = subst (λ t. IsBelow base t score) (omega arith) below
  target-IsBelow (some s) z =
      let p =
        plain_penalty s.effective_error_rate_ppm s.avg_first_response_latency_ms
          s.active_session_count s.session_count in
      let small =
        plain_penalty_lt s.effective_error_rate_ppm s.avg_first_response_latency_ms
          s.active_session_count s.session_count z in
      let weighed = sub_i64-IsBelow base amount score p (omega (arith, few, small)) low below in
      let exact =
        subst (λ t. IsBelow base (amount + p) (sub_i64 score t))
          (sym (
            penalty_plain s.effective_error_rate_ppm s.avg_first_response_latency_ms
              s.active_session_count s.session_count z))
          weighed in
      subst (λ t. IsBelow base t (target_score score thresholds (some s))) (omega arith)
        (minus_if-IsBelow (cooled_target s thresholds) base (amount + p) _ 2000000000000
          (omega (arith, few, small)) low exact)

-- The score of a candidate without any history starts higher.
abbrev pub base_score : Option MatrixTargetNodeStats → Option MatrixNodeStats → ℕ
base_score none none = 4000000000000
base_score _ _ = 1000000000000

ranked-IsBelow :
    (base priority rank : ℕ)
    → base < 9223372036854775808
    → priority ≤ u32_max
    → rank ≤ u32_max
    → IsBelow base (priority * 1000000000 + rank) (ranked base priority rank)
unfolding sub_i64 mul_i64 biased IsBelow
ranked-IsBelow base priority rank h p r = (omega arith, omega (arith, h, p, r))

aggregate_cost_lt :
    (thresholds : GroupThresholds) (aggregate : Option MatrixNodeStats)
    → SizedNode aggregate
    → aggregate_cost thresholds aggregate < 2 ^ 55
aggregate_cost_lt thresholds none z = omega arith
aggregate_cost_lt thresholds (some s) z = omega (
  arith,
  cost_le (capped_node s thresholds) 3000000000000,
  cost_le (cooled_node s thresholds) 2000000000000,
  plain_penalty_lt s.effective_error_rate_ppm s.avg_first_response_latency_ms s.active_session_count
      s.session_count z,
)

-- If the priority and the rank fit into 32 bits, and the rows have rates of at most a million and
-- fewer than 2 ^ 40 sessions, then no i64 wraps around on the way to a score: counted from the least
-- i64, the score with everything that was taken off it is the base score, where the priority, the
-- rank, and the caps, penalties and coolings of the two rows are taken off.
pub active_score-exact :
    (priority rank : ℕ) (thresholds : GroupThresholds) (target : Option MatrixTargetNodeStats)
    (aggregate : Option MatrixNodeStats)
    → priority ≤ u32_max
    → rank ≤ u32_max
    → SizedTarget target
    → SizedNode aggregate
    → biased (active_score priority rank thresholds target aggregate)
        + (priority * 1000000000
            + rank
            + aggregate_cost thresholds aggregate
            + target_cost thresholds target)
      ≡ 9223372036854775808 + base_score target aggregate
unfolding active_score IsBelow
active_score-exact priority rank thresholds none none p r tz az =
    omega (arith, (ranked-IsBelow 4000000000000 priority rank (omega arith) p r).1)
active_score-exact priority rank thresholds none (some a) p r tz az = omega (
  arith,
  (aggregate-IsBelow thresholds 1000000000000 (priority * 1000000000 + rank)
      (ranked 1000000000000 priority rank) (omega (arith, p, r)) (omega arith)
      (ranked-IsBelow 1000000000000 priority rank (omega arith) p r) (some a) az).1,
)
active_score-exact priority rank thresholds (some t) aggregate p r tz az =
    let first =
      aggregate-IsBelow thresholds 1000000000000 (priority * 1000000000 + rank)
        (ranked 1000000000000 priority rank) (omega (arith, p, r)) (omega arith)
        (ranked-IsBelow 1000000000000 priority rank (omega arith) p r) aggregate az in
    (target-IsBelow thresholds 1000000000000
      (priority * 1000000000 + rank + aggregate_cost thresholds aggregate)
      (aggregate_score (ranked 1000000000000 priority rank) thresholds aggregate)
      (omega (arith, p, r, aggregate_cost_lt thresholds aggregate az)) (omega arith) first (some t)
      tz).1
