-- ===== src/Seed/Chains.antt =====
-- validation.rs: the walk along the groups' `next` links ends, and where it finds no cycle there is
-- none.
use dynet.Base.{
  ℕ, Distinct, zero, suc, ◌+◌, ◌≤◌, ◌<◌, ◌≡◌, ◌≢◌, refl, inl, inr, Bool, true, false, List, [], ◌∷◌,
  none, some, length, keep, any, find, Any, Bool-cases, Option-cases, arith, ap, ◌∙◌,
  length-keep-lt, All-map,
}
use dynet.Base.Order.{nat_ord, list_ord, eqb, eqb-eq}
use dynet.Base.OrdMap.{get, insert, get-insert}
use dynet.Base.Outcome.{ok, err, panic}
use dynet.Base.Text.{Text, text}
use dynet.Routing.Types.{ForwardNode, ForwardGroup, next_label}
use dynet.Base.OrdMap.Fresh.{Fresh, get-insert-none}
use dynet.Seed.{
  invalid_bootstrap, next_cycle, Checked, Names, find_group, follow, ended,
  validate_group_next_cycle,
}

module _ (nodes : List ForwardNode) (groups : List ForwardGroup) where
  -- The links from a name lead out by these names.
  pub data Leads : Text → List Text → Type 0 where
    no_group : {id : Text} → find_group groups id ≡ none → Leads id (id ∷ [])
    to_outlet :
        {id : Text} {g : ForwardGroup}
        → find_group groups id ≡ some g
        → eqb (next_label g.next) (text "direct") ≡ true
        → Leads id (id ∷ [])
    to_node :
        {id : Text} {g : ForwardGroup}
        → find_group groups id ≡ some g
        → any (λ node. eqb node.id (next_label g.next)) nodes ≡ true
        → Leads id (id ∷ [])
    onwards :
        {id : Text} {g : ForwardGroup} {names : List Text}
        → find_group groups id ≡ some g
        → eqb (next_label g.next) (text "direct") ≡ false
        → any (λ node. eqb node.id (next_label g.next)) nodes ≡ false
        → Leads (next_label g.next) names
        → Leads id (id ∷ names)

  -- The links lead out, and pass no name twice.
  abbrev pub Ends : Text → Type 0
  Ends id = (names : List Text) × Leads id names × Distinct names

  follow-Leads :
      (fuel : ℕ) (current : Text) (seen : Names)
      → follow fuel nodes groups current seen ≡ some (ok tt)
      → (names : List Text) × Leads current names × Distinct names × Fresh seen names
  unfolding follow
  follow-Leads zero current seen h = cc
  follow-Leads (suc fuel) current seen h = elim (Option-cases (get current seen)) [
    | inr (u, e) ↦ cc (rw (follow, e) at h)
    | inl e ↦ elim (Option-cases (find_group groups current)) [
      | inl f ↦ (current ∷ [], no_group f, (tt, tt), (e, tt))
      | inr (g, f) ↦ elim (Bool-cases (eqb (next_label g.next) (text "direct"))) [
        | inl d ↦ (current ∷ [], to_outlet f d, (tt, tt), (e, tt))
        | inr d ↦ elim (Bool-cases (any (λ node. eqb node.id (next_label g.next)) nodes)) [
          | inl n ↦ (current ∷ [], to_node f n, (tt, tt), (e, tt))
          | inr n ↦
              let (names, leads, distinct, new) =
                follow-Leads fuel (next_label g.next) (insert current tt seen)
                  (rw (follow, e, f, d, n) at h) in
              (
                current ∷ names,
                onwards f d n leads,
                (All-map (λ j z. (get-insert-none current j seen z).0) names new, distinct),
                (e, All-map (λ j z. (get-insert-none current j seen z).1) names new),
              )
        ]
      ]
    ]
  ]

  follow-Ends :
      (fuel : ℕ) (current : Text)
      → follow fuel nodes groups current [] ≡ some (ok tt)
      → Ends current
  follow-Ends fuel current h =
      let (names, leads, distinct, new) = follow-Leads fuel current [] h in (names, leads, distinct)

  abbrev fresh : Names → ForwardGroup → Bool
  fresh seen g = elim (get g.id seen) [ none ↦ true | some _ ↦ false ]

  -- The groups that were not passed.
  unseen : Names → ℕ
  unseen seen = length (keep (fresh seen) groups)

  fresh_weaker :
      (id : Text) (seen : Names) (g : ForwardGroup)
      → fresh (insert id tt seen) g ≡ true
      → fresh seen g ≡ true
  fresh_weaker id seen g h = elim (Bool-cases (eqb g.id id)) [
    | inl e ↦ ground (arith, get-insert id g.id tt seen, e)
    | inr e ↦ ground (arith, get-insert id g.id tt seen, e)
  ]

  passed :
      (id : Text) (seen : Names) (g : ForwardGroup)
      → eqb g.id id ≡ true
      → get id seen ≡ none
      → (fresh seen g ≡ true) × (fresh (insert id tt seen) g ≡ false)
  passed id seen g e n =
      let same : g.id ≡ id = eqb-eq g.id id e in
      ground (arith, get-insert id g.id tt seen, e, n, same)

  find-passed :
      (id : Text) (seen : Names) (gs : List ForwardGroup) {g : ForwardGroup}
      → find (λ group. eqb group.id id) gs ≡ some g
      → get id seen ≡ none
      → Any (λ g. (fresh seen g ≡ true) × (fresh (insert id tt seen) g ≡ false)) gs
  find-passed id seen [] h n = cc
  find-passed id seen (x ∷ gs) h n = elim (Bool-cases (eqb x.id id)) [
    | inl e ↦ inl (passed id seen x e n)
    | inr e ↦ inr (find-passed id seen gs (rw e at h) n)
  ]

  unseen-insert :
      (id : Text) (seen : Names) {g : ForwardGroup}
      → find_group groups id ≡ some g
      → get id seen ≡ none
      → unseen (insert id tt seen) < unseen seen
  unfolding unseen
  unseen-insert id seen f n =
      length-keep-lt (fresh seen) (fresh (insert id tt seen)) (fresh_weaker id seen) groups
        (find-passed id seen groups f n)

  follow-some :
      (fuel : ℕ) (current : Text) (seen : Names)
      → unseen seen < fuel
      → (r : Checked (Unit {0})) × (follow fuel nodes groups current seen ≡ some r) × (r ≢ panic)
  unfolding follow
  follow-some zero current seen h = absurd (omega arith)
  follow-some (suc fuel) current seen h = elim (Option-cases (get current seen)) [
    | inr (u, e) ↦ (err (invalid_bootstrap (next_cycle current)), rw (follow, e) refl, λ p. cc)
    | inl e ↦ elim (Option-cases (find_group groups current)) [
      | inl f ↦ (ok tt, rw (follow, e, f) refl, λ p. cc)
      | inr (g, f) ↦ elim (Bool-cases (eqb (next_label g.next) (text "direct"))) [
        | inl d ↦ (ok tt, rw (follow, e, f, d) refl, λ p. cc)
        | inr d ↦ elim (Bool-cases (any (λ node. eqb node.id (next_label g.next)) nodes)) [
          | inl n ↦ (ok tt, rw (follow, e, f, d, n) refl, λ p. cc)
          | inr n ↦
              let (r, k, total) =
                follow-some fuel (next_label g.next) (insert current tt seen)
                  (omega (arith, unseen-insert current seen f e)) in
              (r, rw (follow, e, f, d, n) k, total)
        ]
      ]
    ]
  ]

  length-keep-le :
      (p : ForwardGroup → Bool) (gs : List ForwardGroup) → length (keep p gs) ≤ length gs
  length-keep-le p [] = omega arith
  length-keep-le p (g ∷ gs) = ground (arith, length-keep-le p gs)

  -- Whatever links the groups have, cycles and missing names included, the check for cycles ends: in
  -- two more rounds than there are groups. It succeeds only if the links from the name lead out and
  -- pass no name twice.
  pub validate_group_next_cycle-Ends :
      (start : Text)
      → (validate_group_next_cycle nodes groups start ≢ panic)
        × (validate_group_next_cycle nodes groups start ≡ ok tt → Ends start)
  unfolding validate_group_next_cycle unseen
  validate_group_next_cycle-Ends start =
      let (r, e, total) =
        follow-some (length groups + 2) start []
          (omega (arith, length-keep-le (fresh []) groups)) in
      (
        λ h. total (cc (h, ap ended e)),
        λ h. follow-Ends (length groups + 2) start (e ∙ ap (λ x. some x) (cc (h, ap ended e))),
      )
