-- ===== src/Observe/Shadow/Ranking.antt =====
-- What `score_candidates` of matrix_shadow.rs lists.
use mathlib.Core.List.{Perm}
use mathlib.Core.List.Perm
use dynet.Base.{
  ℕ, ◌+◌, ◌≡◌, ◌≢◌, ◌↔◌, refl, inl, inr, true, false, List, [], ◌∷◌, map, Option, none, some,
  if◌then◌else◌, ◌⊎◌, All, All-map, Bool-cases, arith, sym, ap, ◌∙◌, subst,
}
use dynet.Base.Order.{nat_ord, list_ord, pair_ord, reversed, cmp, is_le, eqb, eqb_refl, eqb-eq}
use dynet.Base.Opt.{is_some_and}
use dynet.Base.Ranks.{
  Less, AtMost, signed, then_with-le, compare-lt, cmp-AtMost, biased-Less, biased-signed,
}
use dynet.Base.Sort.{sort_by, sort_by-perm, sort_by-All, sort_by-IsSorted, IsSorted}
use dynet.Base.Text.{Text}
use dynet.Routing.Types.{NodeId, GroupId, MatrixCandidateInput, SelectionContext, SelectionDecision}
use dynet.Observe.Stats.{MatrixNodeStats, MatrixTargetNodeStats}
use dynet.Observe.Active.{biased}
use dynet.Observe.Shadow.{
  MatrixShadowCandidate, MatrixShadowDecision, shadow_order, mark_first, top_of, shadow_candidate,
  shadow_candidates, score_candidates,
}

abbrev node_ids : List MatrixShadowCandidate → List Text
node_ids cs = map (λ c. c.node_id) cs

-- The first candidate is the shadow's, the others are not.
abbrev pub IsMarked : List MatrixShadowCandidate → Type 0
IsMarked [] = Unit {0}
IsMarked (c ∷ cs) = (c.selected_by_shadow ≡ true) × All (λ o. o.selected_by_shadow ≡ false) cs

-- A candidate has the higher score, as a signed number, or the same and no later id.
abbrev pub Precedes : MatrixShadowCandidate → MatrixShadowCandidate → Type 0
Precedes c o =
    Less (signed o.score) (signed c.score)
    ⊎ ((signed o.score ≡ signed c.score) × AtMost c.node_id o.node_id)

-- Each candidate precedes those behind it.
abbrev pub Falls : List MatrixShadowCandidate → Type 0
Falls [] = Unit {0}
Falls (c ∷ cs) = All (Precedes c) cs × Falls cs

shadow_order-Precedes :
    (c o : MatrixShadowCandidate) → is_le (shadow_order c o) ≡ true → Precedes c o
unfolding biased
shadow_order-Precedes c o h =
    elim (then_with-le (biased o.score) (biased c.score) (cmp c.node_id o.node_id) h) [
      | inl l ↦ inl (biased-Less o.score c.score (compare-lt _ _ l))
      | inr (e, r) ↦ inr (biased-signed o.score c.score e, cmp-AtMost c.node_id o.node_id r)
    ]

IsSorted-Falls : (cs : List MatrixShadowCandidate) → IsSorted shadow_order cs → Falls cs
IsSorted-Falls [] s = tt
IsSorted-Falls (c ∷ cs) s =
    (All-map (λ o le. shadow_order-Precedes c o le) cs s.0, IsSorted-Falls cs s.1)

pub record IsRanked (candidates : List MatrixCandidateInput) (actual : NodeId)
    (d : MatrixShadowDecision) : Type 0 where
  pub complete : Perm (map (λ c. c.node_id) d.candidates) (map (λ c. c.node_id) candidates)
  pub ordered : Falls d.candidates
  pub top : d.shadow_top_node_id ≡ top_of d.candidates
  pub marked : IsMarked d.candidates
  pub actual_marked : All (λ c. c.selected_by_actual ≡ eqb c.node_id actual) d.candidates
  pub differs :
      (d.shadow_differs_from_actual ≡ true)
      ↔ ((id : Text) × (d.shadow_top_node_id ≡ some id) × (id ≢ actual))

mark_first-ids : (cs : List MatrixShadowCandidate) → node_ids (mark_first cs) ≡ node_ids cs
mark_first-ids [] = refl
mark_first-ids (c ∷ cs) = refl

mark_first-top : (cs : List MatrixShadowCandidate) → top_of cs ≡ top_of (mark_first cs)
mark_first-top [] = refl
mark_first-top (c ∷ cs) = refl

mark_first-Falls : (cs : List MatrixShadowCandidate) → Falls cs → Falls (mark_first cs)
mark_first-Falls [] s = tt
mark_first-Falls (c ∷ cs) s = s

mark_first-IsMarked :
    (cs : List MatrixShadowCandidate)
    → All (λ o. o.selected_by_shadow ≡ false) cs
    → IsMarked (mark_first cs)
mark_first-IsMarked [] s = tt
mark_first-IsMarked (c ∷ cs) s = (refl, s.1)

mark_first-actual :
    (actual : Text) (cs : List MatrixShadowCandidate)
    → All (λ c. c.selected_by_actual ≡ eqb c.node_id actual) cs
    → All (λ c. c.selected_by_actual ≡ eqb c.node_id actual) (mark_first cs)
mark_first-actual actual [] s = tt
mark_first-actual actual (c ∷ cs) s = s

differs_iff :
    (top : Option Text) (actual : Text)
    → (is_some_and (λ id. if eqb id actual then false else true) top ≡ true)
      ↔ ((id : Text) × (top ≡ some id) × (id ≢ actual))
differs_iff none actual = (λ h. absurd (cc h), λ (id, e, ne). absurd (cc e))
differs_iff (some id) actual = (
  λ h. (id, refl, λ e. absurd (ground (arith, h, eqb_refl actual, e))),
  λ (other, e, ne). elim (Bool-cases (eqb id actual)) [
    | inl f ↦ absurd (ne (sym (some_injective e) ∙ eqb-eq id actual f))
    | inr f ↦ rw f refl
  ],
)
  where
    some_injective : {a b : Text} → some a ≡ some b → a ≡ b
    some_injective h = cc h

module _ (context : SelectionContext) (group_id : GroupId) (actual : NodeId)
    (node_stats : List MatrixNodeStats) (target_stats : List MatrixTargetNodeStats) where
  shadow_candidates-ids :
      (rank : ℕ) (cs : List MatrixCandidateInput)
      → node_ids (shadow_candidates context group_id actual node_stats target_stats rank cs)
        ≡ map (λ c. c.node_id) cs
  unfolding shadow_candidates shadow_candidate
  shadow_candidates-ids rank [] = refl
  shadow_candidates-ids rank (c ∷ cs) =
      ap (λ t. c.node_id ∷ t) (shadow_candidates-ids (rank + 1) cs)

  shadow_candidates-unmarked :
      (rank : ℕ) (cs : List MatrixCandidateInput)
      → All
          (λ o. o.selected_by_shadow ≡ false)
          (shadow_candidates context group_id actual node_stats target_stats rank cs)
  unfolding shadow_candidates shadow_candidate
  shadow_candidates-unmarked rank [] = tt
  shadow_candidates-unmarked rank (c ∷ cs) = (refl, shadow_candidates-unmarked (rank + 1) cs)

  shadow_candidates-actual :
      (rank : ℕ) (cs : List MatrixCandidateInput)
      → All
          (λ o. o.selected_by_actual ≡ eqb o.node_id actual)
          (shadow_candidates context group_id actual node_stats target_stats rank cs)
  unfolding shadow_candidates shadow_candidate
  shadow_candidates-actual rank [] = tt
  shadow_candidates-actual rank (c ∷ cs) = (refl, shadow_candidates-actual (rank + 1) cs)

abbrev rank_key : MatrixShadowCandidate → ℕ × Text
rank_key c = (biased c.score, c.node_id)

pub score_candidates-IsRanked :
    (now : ℕ) (context : SelectionContext) (group_id : GroupId) (actual : SelectionDecision)
    (candidates : List MatrixCandidateInput) (node_stats : List MatrixNodeStats)
    (target_stats : List MatrixTargetNodeStats)
    → IsRanked candidates actual.node_id
        (score_candidates now context group_id actual candidates node_stats target_stats)
unfolding score_candidates
score_candidates-IsRanked now context group_id actual candidates node_stats target_stats =
    let listed =
      shadow_candidates context group_id actual.node_id node_stats target_stats 0 candidates in
    let sorted = sort_by shadow_order listed in
    record {
      complete =
          subst (λ t. Perm t (map (λ c. c.node_id) candidates)) (sym (mark_first-ids sorted))
            (subst (λ t. Perm (node_ids sorted) t)
              (shadow_candidates-ids context group_id actual.node_id node_stats target_stats 0
                candidates)
              (Perm.map (λ c. c.node_id) (sort_by-perm shadow_order listed)));
      ordered = mark_first-Falls sorted (
          IsSorted-Falls sorted
            (sort_by-IsSorted ⦃o = pair_ord ⦃o = reversed nat_ord⦄⦄ rank_key listed));
      top = mark_first-top sorted;
      marked = mark_first-IsMarked sorted (
          sort_by-All shadow_order (λ o. o.selected_by_shadow ≡ false) listed
            (shadow_candidates-unmarked context group_id actual.node_id node_stats target_stats 0
              candidates));
      actual_marked = mark_first-actual actual.node_id sorted (
          sort_by-All shadow_order (λ c. c.selected_by_actual ≡ eqb c.node_id actual.node_id) listed
            (shadow_candidates-actual context group_id actual.node_id node_stats target_stats 0
              candidates));
      differs = differs_iff (top_of sorted) actual.node_id;
    }
