-- ===== src/Routing/Matching/Best.antt =====
-- `RouteRuleStore::match_group` chooses the best rule that applies.
use mathlib.Core.List.{Mem, mem-cons_self, mem-cons_of_mem}
use mathlib.Core.List.Perm
use dynet.Base.{
  ◌≡◌, refl, ◌⊎◌, inl, inr, Bool, true, false, ◌&&◌, List, [], ◌∷◌, none, some, find, keep,
  if◌then◌else◌, All, All-map, Bool-cases, Option-cases, ap, sym, ◌∙◌, subst,
}
use dynet.Base.Int.{ℤ, int_ord}
use dynet.Base.Order.{nat_ord, list_ord, pair_ord, reversed, cmp, is_le, is_le_refl}
use dynet.Base.Ranks.{Less, AtMost, then_with-le, cmp-Less, cmp-AtMost}
use dynet.Base.Sort.{
  sort_by-perm, sort_by-IsSorted, All-sort_by, find-some_least, find-none, IsSorted, sort_by,
}
use dynet.Base.Text.{Text}
use dynet.Routing.Types.{RouteRule, TargetContext}
use dynet.Routing.Matching.{from_rules, rule_order, applies, matches, match_group, route_match}

find-keep {ℓ} :
    {A : Type ℓ} (p q : A → Bool) (xs : List A) → find p (keep q xs) ≡ find (λ x. q x && p x) xs
find-keep p q [] = refl
find-keep p q (x ∷ xs) = elim (Bool-cases (q x)) [
  | inl e ↦ rw e (ap (λ r. if p x then some x else r) (find-keep p q xs))
  | inr e ↦ rw e (find-keep p q xs)
]

find-Mem {ℓ} : {A : Type ℓ} (p : A → Bool) (xs : List A) {x : A} → find p xs ≡ some x → Mem x xs
find-Mem p [] h = cc
find-Mem p (y ∷ ys) {x} h = elim (Bool-cases (p y)) [
  | inl e ↦ let same : y ≡ x = cc (rw e at h) in subst (λ t. Mem t (y ∷ ys)) same mem-cons_self
  | inr e ↦ mem-cons_of_mem y (find-Mem p ys (rw e at h))
]

abbrev rank : RouteRule → ℤ × Text
rank r = (r.priority, r.id)

sorted : (rules : List RouteRule) → IsSorted rule_order (sort_by rule_order rules)
sorted rules = sort_by-IsSorted ⦃o = pair_ord ⦃o = reversed int_ord⦄⦄ rank rules

reflexive : (rule : RouteRule) → is_le (rule_order rule rule) ≡ true
reflexive rule = is_le_refl ⦃o = pair_ord ⦃o = reversed int_ord⦄⦄ (rank rule)

-- A rule has the higher priority, or the same and no later id.
abbrev pub Precedes : RouteRule → RouteRule → Type 0
Precedes rule other =
    Less other.priority rule.priority ⊎ ((rule.priority ≡ other.priority) × AtMost rule.id other.id)

rule_order-Precedes :
    (rule other : RouteRule) → is_le (rule_order rule other) ≡ true → Precedes rule other
rule_order-Precedes rule other h =
    elim (then_with-le other.priority rule.priority (cmp rule.id other.id) h) [
      | inl l ↦ inl (cmp-Less other.priority rule.priority l)
      | inr (e, r) ↦ inr (sym e, cmp-AtMost rule.id other.id r)
    ]

-- What `match_group` finds in the rules that it was given, in any order: the rule that applies and
-- precedes every other that applies.
pub record IsBest (rules : List RouteRule) (target : TargetContext) (rule : RouteRule)
    : Type 0 where
  pub listed : Mem rule rules
  pub hit : applies target rule ≡ true
  pub least : All (λ other. applies target other ≡ true → Precedes rule other) rules

found :
    (rules : List RouteRule) (target : TargetContext)
    → find
        (λ rule. matches rule.matcher target)
        (keep (λ rule. rule.enabled) (sort_by rule_order rules))
      ≡ find (applies target) (sort_by rule_order rules)
found rules target =
    find-keep (λ rule. matches rule.matcher target) (λ rule. rule.enabled)
      (sort_by rule_order rules)

-- Matching a target against the rules, given in any order, either answers with the rule that is
-- enabled, matches, and has the highest priority among those (no later id, byte by byte, among
-- equals), or answers that there is none, and then no enabled rule matches.
pub match_group-IsBest :
    (rules : List RouteRule) (target : TargetContext)
    → ((rule : RouteRule) × IsBest rules target rule
        × (match_group (from_rules rules) target ≡ route_match (some rule)))
      ⊎ (All (λ rule. applies target rule ≡ false) rules
          × (match_group (from_rules rules) target ≡ route_match none))
unfolding match_group from_rules
match_group-IsBest rules target =
    elim (Option-cases (find (applies target) (sort_by rule_order rules))) [
      | inl e ↦ inr (
        All-sort_by rule_order _ rules (find-none rule_order (applies target) _ e),
        ap route_match (found rules target ∙ e),
      )
      | inr (rule, e) ↦
          let (hit, least) =
            find-some_least rule_order (applies target) (sort_by rule_order rules) rule reflexive
              (sorted rules) e in
          inl (
            rule,
            record {
              listed =
                  (Perm.mem_iff (sort_by-perm rule_order rules)).0 (find-Mem (applies target) _ e);
              hit = hit;
              least =
                  All-map (λ other le hit. rule_order-Precedes rule other (le hit)) rules
                    (All-sort_by rule_order _ rules least);
            },
            ap route_match (found rules target ∙ e),
          )
    ]
