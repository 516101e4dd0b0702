-- ===== src/Egress/Newest.antt =====
-- egress/reloadable.rs: what an install and its reversal make of the newest generation.
use dynet.Base.{
  ℕ, ◌+◌, ◌-◌, ◌≤◌, ◌<◌, ◌≡◌, refl, [], ◌∷◌, ◌++◌, length, drop, All-map, length-append,
  length-drop, drop-append_left, arith, ap, ◌∙◌, sym, subst,
}
use dynet.Base.Order.{nat_ord}
use dynet.Base.OrdMap.{OrdMap}
use dynet.Base.Outcome.{Outcome, ok, err, panic}
use dynet.Base.Text.{Text}
use dynet.Routing.Types.{NodeId}
use dynet.Egress.{
  Protocols, GraphEgress, ReloadableEgress, EgressNodeConfig, graph_from, install, uninstall,
}
use dynet.Egress.Generations.{Below, last_eight, remove_newest, install-Below, drop-Below}

-- The newest of the retained graphs is the one of the given generation; there are eight at most.
pub record IsNewest (egress : ReloadableEgress) (generation : ℕ) (graph : GraphEgress)
    : Type 0 where
  pub older : ReloadableEgress
  pub split : egress ≡ older ++ (generation, graph) ∷ []
  pub below : Below generation older
  pub few : length egress ≤ 8

append-Below : (g : ℕ) (m n : ReloadableEgress) → Below g m → Below g n → Below g (m ++ n)
append-Below g [] n b c = c
append-Below g (e ∷ m) n b c = (b.0, append-Below g m n b.1 c)

module _ (p : Protocols) (egress : ReloadableEgress) (generation g : ℕ) (graph : GraphEgress)
    (above : generation < g) (newest : IsNewest egress generation graph) where
  all-Below : Below g egress
  all-Below = subst (Below g) (sym newest.split) (
      append-Below g newest.older _
        (All-map (λ e h. omega (arith, h, above)) newest.older newest.below) (above, tt))

  -- How many an install drops.
  abbrev dropped : ℕ
  dropped = length egress + 1 - 8

  few : (dropped ≤ length egress) × (dropped ≤ length newest.older)
  few = (
    omega (arith, newest.few),
    omega (
      arith,
      newest.few,
      length-append newest.older ((generation, graph) ∷ []),
      ap length newest.split,
    ),
  )

  last_eight-split :
      (e : ℕ × GraphEgress) → last_eight (egress ++ e ∷ []) ≡ drop dropped egress ++ e ∷ []
  last_eight-split e =
      ap (λ n. drop (n - 8) (egress ++ e ∷ [])) (length-append egress (e ∷ []))
      ∙ drop-append_left dropped egress (e ∷ []) few.0

  module _ (configs : OrdMap NodeId EgressNodeConfig) {after : ReloadableEgress}
      (done : install p egress g configs ≡ ok after) where
    install-split :
        (made : GraphEgress) × (graph_from p configs ≡ ok made)
        × (after ≡ drop dropped egress ++ (g, made) ∷ [])
    unfolding install
    install-split = go (graph_from p configs) refl
      where
        go :
            (o : Outcome Text GraphEgress)
            → graph_from p configs ≡ o
            → (made : GraphEgress) × (graph_from p configs ≡ ok made)
              × (after ≡ drop dropped egress ++ (g, made) ∷ [])
        go (ok made) e = (
          made,
          e,
          cc (done, install-Below p egress g configs made all-Below e) ∙ last_eight-split (g, made),
        )
        go (err x) e = ground (arith, e, done)
        go panic e = ground (arith, e, done)

    -- An install puts its graph in front.
    pub install-IsNewest :
        (made : GraphEgress) × (graph_from p configs ≡ ok made) × IsNewest after g made
    install-IsNewest =
        let (made, e, s) = install-split in
        (
          made,
          e,
          record {
            older = drop dropped egress;
            split = s;
            below = drop-Below g dropped egress all-Below;
            few = omega (
              arith,
              ap length s,
              length-append (drop dropped egress) ((g, made) ∷ []),
              length-drop dropped egress,
              newest.few,
            );
          },
        )

    -- Without it the graph that was in front is so again.
    pub uninstall-IsNewest : IsNewest (uninstall after g) generation graph
    unfolding uninstall
    uninstall-IsNewest =
        let (made, e, s) = install-split in
        let removed : uninstall after g ≡ drop dropped egress =
          ap (λ m. uninstall m g) s
          ∙ remove_newest g made (drop dropped egress) (drop-Below g dropped egress all-Below) in
        record {
          older = drop dropped newest.older;
          split =
              removed
              ∙ ap (drop dropped) newest.split
              ∙ drop-append_left dropped newest.older ((generation, graph) ∷ []) few.1;
          below = drop-Below generation dropped newest.older newest.below;
          few = omega (arith, ap length removed, length-drop dropped egress, newest.few);
        }
