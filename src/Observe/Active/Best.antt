-- ===== src/Observe/Active/Best.antt =====
-- `select_active_candidate` of matrix_active.rs chooses a candidate with the highest score.
use dynet.Base.{
  ℕ, ◌+◌, ◌≡◌, refl, ◌⊎◌, inl, inr, true, false, List, [], ◌∷◌, none, some, All, All-map, Any,
  Bool-cases, Option-cases, ap,
}
use dynet.Base.Order.{nat_ord, list_ord, pair_ord, reversed, cmp, is_le}
use dynet.Base.Extremes.{max_by, max_by-Any, max_by-none, max_by_greatest}
use dynet.Base.Ranks.{
  Less, AtMost, signed, then_with-le, compare-lt, cmp-AtMost, biased-Less, biased-signed,
}
use dynet.Base.Text.{Text}
use dynet.Routing.Types.{NodeId, GroupId, GroupThresholds, MatrixCandidateInput, SelectionContext}
use dynet.Observe.Stats.{MatrixNodeStats, MatrixTargetNodeStats}
use dynet.Observe.Active.{
  biased, active_rollout_group, score_order, score_of, scored, select_active_candidate,
}

-- A scored candidate has the higher score, as a signed number, or the same and no later id.
abbrev pub Precedes : NodeId × ℕ → NodeId × ℕ → Type 0
Precedes best e =
    Less (signed e.1) (signed best.1) ⊎ ((signed e.1 ≡ signed best.1) × AtMost best.0 e.0)

score_order-Precedes : (best e : NodeId × ℕ) → is_le (score_order e best) ≡ true → Precedes best e
unfolding biased
score_order-Precedes best e h =
    elim (then_with-le (biased e.1) (biased best.1) (cmp best.0 e.0) h) [
      | inl l ↦ inl (biased-Less e.1 best.1 (compare-lt _ _ l))
      | inr (same, r) ↦ inr (biased-signed e.1 best.1 same, cmp-AtMost best.0 e.0 r)
    ]

module _ (context : SelectionContext) (group_id : GroupId) (thresholds : GroupThresholds)
    (node_stats : List MatrixNodeStats) (target_stats : List MatrixTargetNodeStats) where
  abbrev all_scored : List MatrixCandidateInput → List (NodeId × ℕ)
  all_scored candidates = scored context group_id thresholds node_stats target_stats 0 candidates

  scored-Any :
      (best : NodeId × ℕ) (rank : ℕ) (candidates : List MatrixCandidateInput)
      → Any
          (λ e. e ≡ best)
          (scored context group_id thresholds node_stats target_stats rank candidates)
      → Any (λ c. c.node_id ≡ best.0) candidates
  unfolding scored score_of
  scored-Any best rank [] h = absurd h
  scored-Any best rank (c ∷ cs) (inl e) = inl (ap (λ t. t.0) e)
  scored-Any best rank (c ∷ cs) (inr h) = inr (scored-Any best (rank + 1) cs h)

  -- A scored candidate that precedes every other.
  pub record IsChosen (candidates : List MatrixCandidateInput) (best : NodeId × ℕ) : Type 0 where
    pub listed :
        Any
          (λ e. e ≡ best)
          (scored context group_id thresholds node_stats target_stats 0 candidates)
    pub highest :
        All
          (λ e. Precedes best e)
          (scored context group_id thresholds node_stats target_stats 0 candidates)
    pub candidate : Any (λ c. c.node_id ≡ best.0) candidates

  scored-nil : (cs : List MatrixCandidateInput) → all_scored cs ≡ [] → cs ≡ []
  unfolding scored
  scored-nil [] h = refl
  scored-nil (c ∷ cs) h = cc

  abbrev key : NodeId × ℕ → ℕ × Text
  key e = (biased e.1, e.0)

  -- The scheduler proposes nothing for a group that is not rolled out or has no candidates, and
  -- else one of the candidates, namely one whose score, as a signed number, is the highest (no later
  -- id, byte by byte, among equals).
  pub select_active_candidate-IsChosen :
      (candidates : List MatrixCandidateInput)
      → ((select_active_candidate context group_id thresholds node_stats target_stats candidates
            ≡ none)
          × ((active_rollout_group group_id ≡ false) ⊎ (candidates ≡ [])))
        ⊎ ((best : NodeId × ℕ) × IsChosen candidates best
            × (active_rollout_group group_id ≡ true)
            × (select_active_candidate context group_id thresholds node_stats target_stats
                  candidates
                ≡ some best.0))
  unfolding select_active_candidate
  select_active_candidate-IsChosen candidates = elim (Bool-cases (active_rollout_group group_id)) [
    | inr off ↦ inl (rw off refl, inl off)
    | inl on ↦ elim (Option-cases (max_by score_order (all_scored candidates))) [
      | inl e ↦ inl (
        rw (on, e) refl,
        inr (scored-nil candidates (max_by-none score_order (all_scored candidates) e)),
      )
      | inr (best, e) ↦
          let listed = max_by-Any score_order (all_scored candidates) e in
          inr (
            best,
            record {
              listed = listed;
              highest =
                  All-map (λ other le. score_order-Precedes best other le) (all_scored candidates)
                    (max_by_greatest ⦃o = pair_ord ⦃q = reversed list_ord⦄⦄ key
                      (all_scored candidates) e);
              candidate = scored-Any best 0 candidates listed;
            },
            on,
            rw (on, e) refl,
          )
    ]
  ]
