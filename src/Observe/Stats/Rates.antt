-- ===== src/Observe/Stats/Rates.antt =====
-- The rows of matrix_stats.rs.
use native.Mathlib.Nat.{div-le_of_le-mul}
use dynet.Base.{
  ℕ, ◌+◌, ◌*◌, ◌≤◌, ◌<◌, ◌≡◌, inl, inr, List, [], ◌∷◌, ◌==◌, All, Bool-cases, Option-cases, length,
  length-map, arith, map, sym, ◌∙◌,
}
use dynet.Base.Order.{nat_ord, list_ord, pair_ord}
use dynet.Base.OrdMap.{OrdMap}
use dynet.Base.Text.{Text}
use dynet.Observe.Session.{TrafficSession}
use dynet.Observe.Stats.{
  MatrixNodeStats, MatrixTargetNodeStats, MatrixNodeStatsAccumulator, millis_to_count, rate_ppm,
  effective_rate_ppm, finish, finish_target, tally_all, node_keys, target_keys, target_ord,
  target_scope, selection_pairs, TargetKey, node_stats_from_sessions, target_stats_from_sessions,
}
use dynet.Observe.Stats.Tallies.{record_limit, IsRow, tally_all-Rows, total_keys}

-- What the counts of a row have to do with each other.
pub record IsSound (sessions success error effective active rate effective_rate : ℕ) : Type 0 where
  pub non_empty : 0 < sessions
  pub parted : success + error + active ≡ sessions
  pub lighter : effective ≤ error
  pub rate_le : rate ≤ 1000000
  pub effective_rate_le : effective_rate ≤ 1000000

rate_ppm_le : (n d : ℕ) → n ≤ d → rate_ppm n d ≤ 1000000
unfolding rate_ppm
rate_ppm_le n d h = elim (Bool-cases (d == 0)) [
  | inl e ↦ rw e (omega arith)
  | inr e ↦
      rw e (omega (arith, div-le_of_le-mul d {m = n * 1000000} {n = 1000000} (omega (arith, h))))
]

effective_rate_ppm_le : (n d : ℕ) → n ≤ 1000 * d → effective_rate_ppm n d ≤ 1000000
unfolding effective_rate_ppm
effective_rate_ppm_le n d h = elim (Bool-cases (d == 0)) [
  | inl e ↦ rw e (omega arith)
  | inr e ↦ rw e (omega (arith, div-le_of_le-mul d {m = n * 1000} {n = 1000000} (omega (arith, h))))
]

IsRow-IsSound :
    (most : ℕ) (a : MatrixNodeStatsAccumulator)
    → IsRow most a
    → IsSound a.session_count a.success_count a.error_count
        (millis_to_count a.effective_error_millis)
        a.active_session_count
        (rate_ppm a.error_count a.session_count)
        (effective_rate_ppm a.effective_error_millis a.session_count)
unfolding millis_to_count
IsRow-IsSound most a r =
    let t = r.tallied in
    record {
      non_empty = omega (arith, t.counted, r.some_record);
      parted = t.parted ∙ sym t.counted;
      lighter = omega (arith, t.weighed);
      rate_le = rate_ppm_le a.error_count a.session_count (omega (arith, t.counted, t.parted));
      effective_rate_le =
          effective_rate_ppm_le a.effective_error_millis a.session_count
            (omega (arith, t.counted, t.parted, t.weighed));
    }

abbrev pub IsNodeRow : MatrixNodeStats → Type 0
IsNodeRow s =
    IsSound s.session_count s.success_count s.error_count s.effective_error_count
      s.active_session_count s.error_rate_ppm s.effective_error_rate_ppm

abbrev pub IsTargetRow : MatrixTargetNodeStats → Type 0
IsTargetRow s =
    IsSound s.session_count s.success_count s.error_count s.effective_error_count
      s.active_session_count s.error_rate_ppm s.effective_error_rate_ppm

All-map_image :
    {A B : Type 0} (P : A → Type 0) (Q : B → Type 0) (f : A → B)
    → ((a : A) → P a → Q (f a))
    → (xs : List A) → All P xs
    → All Q (map f xs)
All-map_image P Q f step [] h = tt
All-map_image P Q f step (x ∷ xs) h = (step x h.0, All-map_image P Q f step xs h.1)

target_keys-length :
    (session : TrafficSession) → length (target_keys session) ≤ length (node_keys session)
unfolding target_keys node_keys
target_keys-length session = elim (Option-cases (target_scope session)) [
  | inl e ↦ rw e (omega arith)
  | inr (scope, e) ↦ elim (Option-cases (selection_pairs session)) [
    | inl f ↦ rw (e, f) (omega arith)
    | inr (pairs, f) ↦
        rw (e, f)
          (omega (
            arith,
            length-map {B = TargetKey} pairs
                (λ (group_id, node_id). (group_id, (node_id, (scope.0, scope.1)))),
          ))
  ]
]

target_total_le :
    (sessions : List TrafficSession)
    → total_keys target_keys sessions ≤ total_keys node_keys sessions
unfolding total_keys
target_total_le [] = omega arith
target_total_le (session ∷ sessions) =
    omega (arith, target_keys-length session, target_total_le sessions)

-- If the hops of the sessions' selections are fewer than 2 ^ 53 all together, then in every row of
-- the statistics by node and of those by target some session counts, the sessions are those that
-- succeeded, failed or are active, the weighted errors are no more than the errors, and both rates
-- are at most a million parts per million.
pub stats-IsSound :
    (sessions : List TrafficSession) (fingerprints : OrdMap Text Text)
    → total_keys node_keys sessions < record_limit
    → All IsNodeRow (node_stats_from_sessions sessions fingerprints)
      × All IsTargetRow (target_stats_from_sessions sessions fingerprints)
unfolding node_stats_from_sessions target_stats_from_sessions finish finish_target
stats-IsSound sessions fingerprints h =
    let nodes = total_keys node_keys sessions in
    let targets = total_keys target_keys sessions in
    (
      All-map_image (λ e. IsRow (0 + nodes) e.1) IsNodeRow _
          (λ (k, a) r. IsRow-IsSound (0 + nodes) a r) (tally_all node_keys [] sessions)
          (tally_all-Rows node_keys sessions 0 [] (omega (arith, h)) tt),
      All-map_image (λ e. IsRow (0 + targets) e.1) IsTargetRow _
          (λ (k, a) r. IsRow-IsSound (0 + targets) a r)
          (tally_all ⦃o = target_ord⦄ target_keys [] sessions)
          (tally_all-Rows ⦃o = target_ord⦄ target_keys sessions 0 []
            (omega (arith, h, target_total_le sessions)) tt),
    )
