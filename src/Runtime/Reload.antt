-- ===== src/Runtime/Reload.antt =====
-- `prepare_reconfigure` and `commit_reconfigure` of lib.rs, with selections, events and other
-- commits between the two.
use dynet.Base.{
  ℕ, ◌+◌, ◌%◌, ◌<◌, ◌≡◌, ◌≢◌, refl, ◌⊎◌, inl, inr, ◌==◌, Bool-cases, arith, sym, ap, ◌∙◌, subst,
}
use dynet.Base.Outcome.{ok, err}
use dynet.Base.OrdMap.{OrdMap}
use dynet.Base.Text.{Text}
use dynet.Base.Words.{add_u64, u64_mod}
use dynet.Routing.Types.{SelectionContext, SelectionDecision}
use dynet.Observe.Event.{IngressEventKind}
use dynet.Runtime.{
  RuntimeState, RuntimeSeed, RuntimeReconfigure, generation_changed, select, record_ingress_event,
  routing_from_seed, prepare_reconfigure, commit_reconfigure,
}
use dynet.Runtime.Choice.{select-IsDecision}

-- What the runtime may do between two states, and how many commits are among it.
pub data Run : ℕ → RuntimeState → RuntimeState → Type 0 where
  done : {s : RuntimeState} → Run 0 s s
  selected :
      {n : ℕ} {r s t : RuntimeState} {d : SelectionDecision} (now : ℕ) (context : SelectionContext)
      → Run n r s
      → select s now context ≡ ok (t, d)
      → Run n r t
  recorded :
      {n : ℕ} {r s : RuntimeState} (now : ℕ) (kind : IngressEventKind) (fields : OrdMap Text Text)
      → Run n r s
      → Run n r (record_ingress_event s now kind fields)
  committed :
      {n : ℕ} {r s t : RuntimeState} {generation : ℕ} (origin : RuntimeState) (seed : RuntimeSeed)
      → Run n r s
      → commit_reconfigure s (prepare_reconfigure origin seed) ≡ ok (t, generation)
      → Run (n + 1) r t

commit-cases :
    (s : RuntimeState) (p : RuntimeReconfigure)
    → ((s.routing.generation ≡ p.previous_generation)
        × (commit_reconfigure s p ≡ ok (record s { routing = p.routing }, p.routing.generation)))
      ⊎ ((s.routing.generation ≢ p.previous_generation)
          × (commit_reconfigure s p
              ≡ err (generation_changed p.previous_generation s.routing.generation)))
unfolding commit_reconfigure
commit-cases s p = elim (Bool-cases (s.routing.generation == p.previous_generation)) [
  | inl e ↦ inl (ground (arith, e), rw e refl)
  | inr e ↦ inr (ground (arith, e), rw e refl)
]

select-routing :
    (s : RuntimeState) (now : ℕ) (context : SelectionContext) {t : RuntimeState}
    {d : SelectionDecision}
    → select s now context ≡ ok (t, d)
    → t.routing ≡ s.routing
select-routing s now context {t} {d} h = elim (select-IsDecision s context now) [
  | inr (e, f) ↦ cc (h, f)
  | inl (after, d', f, is_decision) ↦
      let same : after ≡ t = cc (h, f) in
      subst (λ x. x.routing ≡ s.routing) same is_decision.same_routing
]

-- A decision is of the generation of the tables it was taken on.
pub select-generation :
    (s : RuntimeState) (now : ℕ) (context : SelectionContext) {t : RuntimeState}
    {d : SelectionDecision}
    → select s now context ≡ ok (t, d)
    → d.config_generation ≡ s.routing.generation
select-generation s now context {d} h = elim (select-IsDecision s context now) [
  | inr (e, f) ↦ cc (h, f)
  | inl (after, other, f, is_decision) ↦
      let same : other ≡ d = cc (h, f) in
      subst (λ x. x.config_generation ≡ s.routing.generation) same is_decision.generation
]

recorded-routing :
    (s : RuntimeState) (now : ℕ) (kind : IngressEventKind) (fields : OrdMap Text Text)
    → (record_ingress_event s now kind fields).routing ≡ s.routing
unfolding record_ingress_event
recorded-routing s now kind fields = refl

commit-generation :
    (s origin : RuntimeState) (seed : RuntimeSeed) {t : RuntimeState} {generation : ℕ}
    → commit_reconfigure s (prepare_reconfigure origin seed) ≡ ok (t, generation)
    → t.routing.generation ≡ add_u64 s.routing.generation 1
unfolding prepare_reconfigure routing_from_seed
commit-generation s origin seed {t} h = elim (commit-cases s (prepare_reconfigure origin seed)) [
  | inr (ne, f) ↦ cc (h, f)
  | inl (same, f) ↦
      let is_t : record s { routing = (prepare_reconfigure origin seed).routing } ≡ t = cc (h, f) in
      subst (λ x. x.routing.generation ≡ add_u64 s.routing.generation 1) is_t
        (ap (λ g. add_u64 g 1) (sym same))
]

-- A run moves the generation on by its commits.
Run-generation :
    {n : ℕ} {r s : RuntimeState}
    → r.routing.generation < u64_mod
    → Run n r s
    → s.routing.generation ≡ (r.routing.generation + n) % u64_mod
unfolding add_u64
Run-generation {r} h done = omega (arith, h)
Run-generation h (selected {n} {r} {s} now context run e) =
    ap (λ x. x.generation) (select-routing s now context e) ∙ Run-generation h run
Run-generation h (recorded {n} {r} {s} now kind fields run) =
    ap (λ x. x.generation) (recorded-routing s now kind fields) ∙ Run-generation h run
Run-generation h (committed {n} {r} {s} {t} origin seed run e) =
    omega (arith, commit-generation s origin seed {t = t} e, Run-generation h run)

-- A run without a commit keeps the tables.
pub Run-routing : {n : ℕ} {r s : RuntimeState} → n ≡ 0 → Run n r s → s.routing ≡ r.routing
Run-routing h done = refl
Run-routing h (selected {n} {r} {s} now context run e) =
    select-routing s now context e ∙ Run-routing h run
Run-routing h (recorded {n} {r} {s} now kind fields run) =
    recorded-routing s now kind fields ∙ Run-routing h run
Run-routing h (committed origin seed run e) = absurd (omega (arith, h))

-- Tables that were prepared are put in place exactly if nothing else was committed since, whatever
-- was selected and recorded meanwhile: then the state differs in nothing but them, and their
-- generation is the next one. After one commit or more, fewer than 2 ^ 64, the commit is refused.
pub prepared-commit :
    {n : ℕ} (r s : RuntimeState) (seed : RuntimeSeed)
    → r.routing.generation < u64_mod
    → n < u64_mod
    → Run n r s
    → ((n ≡ 0)
        × (commit_reconfigure s (prepare_reconfigure r seed)
            ≡ ok (
              record s { routing = routing_from_seed (add_u64 r.routing.generation 1) seed },
              add_u64 r.routing.generation 1,
            )))
      ⊎ ((0 < n)
          × (commit_reconfigure s (prepare_reconfigure r seed)
              ≡ err (generation_changed r.routing.generation s.routing.generation)))
unfolding prepare_reconfigure routing_from_seed
prepared-commit {n} r s seed h k run = elim (commit-cases s (prepare_reconfigure r seed)) [
  | inl (same, e) ↦ inl (omega (arith, h, k, same, Run-generation h run), e)
  | inr (other, e) ↦ inr (omega (arith, h, k, other, Run-generation h run), e)
]
