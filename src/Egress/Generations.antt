-- ===== src/Egress/Generations.antt =====
-- egress/reloadable.rs: what is retained of the generations that were installed, eight at most.
use dynet.Base.{
  ℕ, zero, suc, ◌+◌, ◌-◌, ◌≤◌, ◌<◌, max, ◌≡◌, refl, inl, inr, List, [], ◌∷◌, ◌++◌, some, length,
  drop, All, length-append, length-drop, drop-append_left, Any, ltb, ltb→lt, ltb→ge, Bool-cases,
  arith, ap, ◌∙◌, sym, subst,
}
use dynet.Base.Order.{nat_ord, eqb_refl}
use dynet.Base.OrdMap.{OrdMap, get, insert, remove}
use dynet.Base.OrdMap.Ordered.{Above, IsOrdered, get-Any}
use dynet.Base.Outcome.{ok}
use dynet.Routing.Types.{NodeId}
use dynet.Egress.{
  Protocols, GraphEgress, ReloadableEgress, retained_generations, retain, install, uninstall,
  graph_for, graph_from, EgressNodeConfig,
}
use native.Mathlib.Nat.{zero-add, suc-add}

-- Every generation of the map is below the given one.
abbrev pub Below : ℕ → ReloadableEgress → Type 0
Below g m = All (λ e. e.0 < g) m

insert-Below :
    (g : ℕ) (graph : GraphEgress) (m : ReloadableEgress)
    → Below g m
    → insert g graph m ≡ m ++ (g, graph) ∷ []
unfolding insert
insert-Below g graph [] b = refl
insert-Below g graph ((k, w) ∷ m) b = ground (arith, insert-Below g graph m b.1, b.0)

pub remove_newest :
    (g : ℕ) (graph : GraphEgress) (m : ReloadableEgress)
    → Below g m
    → remove g (m ++ (g, graph) ∷ []) ≡ m
unfolding remove
remove_newest g graph [] b = ground arith
remove_newest g graph ((k, w) ∷ m) b = ground (arith, remove_newest g graph m b.1, b.0)

pub get_newest :
    (g : ℕ) (graph : GraphEgress) (m : ReloadableEgress)
    → Below g m
    → get g (m ++ (g, graph) ∷ []) ≡ some graph
unfolding get
get_newest g graph [] b = ground arith
get_newest g graph ((k, w) ∷ m) b = ground (arith, get_newest g graph m b.1, b.0)

-- The last eight.
abbrev pub last_eight : ReloadableEgress → ReloadableEgress
last_eight m = drop (length m - retained_generations) m

retain-last_eight :
    (fuel : ℕ) (m : ReloadableEgress) → length m ≤ fuel → retain fuel m ≡ last_eight m
unfolding retain remove
retain-last_eight zero [] h = refl
retain-last_eight zero (e ∷ m) h = absurd (omega arith)
retain-last_eight (suc fuel) [] h = refl
retain-last_eight (suc fuel) ((k, w) ∷ m) h =
    elim (Bool-cases (ltb retained_generations (length m + 1))) [
      | inl t ↦
          let above : 8 < length m + 1 = ltb→lt 8 (length m + 1) t in
          let front : length ((k, w) ∷ m) - 8 ≡ suc (length m - 8) = omega arith in
          rw (retain, t, remove, eqb_refl k, front) (retain-last_eight fuel m (omega arith))
      | inr f ↦
          let few : length m + 1 ≤ 8 = ltb→ge 8 (length m + 1) f in
          let none_less : length ((k, w) ∷ m) - 8 ≡ 0 = omega arith in
          rw (retain, f, none_less) refl
    ]

-- Installed above all: the last eight of the map with the new generation behind it.
pub install-Below :
    (p : Protocols) (m : ReloadableEgress) (g : ℕ) (configs : OrdMap NodeId EgressNodeConfig)
    (graph : GraphEgress)
    → Below g m
    → graph_from p configs ≡ ok graph
    → install p m g configs ≡ ok (last_eight (m ++ (g, graph) ∷ []))
unfolding install
install-Below p m g configs graph b made =
    let size = length-append m ((g, graph) ∷ []) in
    rw (made, insert-Below g graph m b)
      (ap ok (retain-last_eight (length m + 1) (m ++ (g, graph) ∷ []) (omega (arith, size))))

drop-drop : {A : Type 0} (a b : ℕ) (xs : List A) → drop a (drop b xs) ≡ drop (b + a) xs
drop-drop a zero xs = rw zero-add refl
drop-drop zero (suc b) [] = rw suc-add refl
drop-drop (suc a) (suc b) [] = rw suc-add refl
drop-drop a (suc b) (x ∷ xs) = rw suc-add (drop-drop a b xs)

append-Above :
    (k g : ℕ) (graph : GraphEgress) (m : ReloadableEgress)
    → k < g
    → Above k m
    → Above k (m ++ (g, graph) ∷ [])
append-Above k g graph [] h a = (ground arith, tt)
append-Above k g graph (e ∷ m) h a = (a.0, append-Above k g graph m h a.1)

append-IsOrdered :
    (g : ℕ) (graph : GraphEgress) (m : ReloadableEgress)
    → Below g m
    → IsOrdered m
    → IsOrdered (m ++ (g, graph) ∷ [])
append-IsOrdered g graph [] b s = (tt, tt)
append-IsOrdered g graph ((k, w) ∷ m) b s =
    (append-Above k g graph m b.0 s.0, append-IsOrdered g graph m b.1 s.1)

drop-IsOrdered : (n : ℕ) (m : ReloadableEgress) → IsOrdered m → IsOrdered (drop n m)
drop-IsOrdered zero m s = s
drop-IsOrdered (suc n) [] s = s
drop-IsOrdered (suc n) (e ∷ m) s = drop-IsOrdered n m s.1

pub drop-Below : (g n : ℕ) (m : ReloadableEgress) → Below g m → Below g (drop n m)
drop-Below g zero m b = b
drop-Below g (suc n) [] b = b
drop-Below g (suc n) (e ∷ m) b = drop-Below g n m b.1

Above-newest :
    (k g : ℕ) (graph : GraphEgress) (m : ReloadableEgress)
    → Above k (m ++ (g, graph) ∷ [])
    → (k < g) × Above k m
Above-newest k g graph [] a = (ground (arith, a), tt)
Above-newest k g graph (e ∷ m) a =
    let (less, rest) = Above-newest k g graph m a.1 in (less, (a.0, rest))

-- In an ordered map the last generation is above the others, which are in order.
IsOrdered-newest :
    (g : ℕ) (graph : GraphEgress) (m : ReloadableEgress)
    → IsOrdered (m ++ (g, graph) ∷ [])
    → Below g m × IsOrdered m
IsOrdered-newest g graph [] s = (tt, tt)
IsOrdered-newest g graph ((k, w) ∷ m) s =
    let (less, above) = Above-newest k g graph m s.0 in
    let (below, ordered) = IsOrdered-newest g graph m s.1 in ((less, below), (above, ordered))

-- The generations that were installed, each above all before it, and not withdrawn; how many of the
-- oldest of these have been dropped to keep eight; and the map that is left. What is withdrawn is the
-- newest, as the reload does after a failure.
pub data Installs (p : Protocols) : ReloadableEgress → ℕ → ReloadableEgress → Type 0 where
  created :
      (g : ℕ) (graph : GraphEgress) (configs : OrdMap NodeId EgressNodeConfig)
      → graph_from p configs ≡ ok graph
      → Installs p ((g, graph) ∷ []) 0 ((g, graph) ∷ [])
  installed :
      {all egress after : ReloadableEgress} {n : ℕ} (g : ℕ) (graph : GraphEgress)
      (configs : OrdMap NodeId EgressNodeConfig)
      → Installs p all n egress
      → Below g all
      → graph_from p configs ≡ ok graph
      → install p egress g configs ≡ ok after
      → Installs p (all ++ (g, graph) ∷ []) (max n (length all + 1 - 8)) after
  withdrawn :
      {all egress : ReloadableEgress} {n : ℕ} (g : ℕ) (graph : GraphEgress)
      → Installs p (all ++ (g, graph) ∷ []) n egress
      → n ≤ length all
      → Installs p all n (uninstall egress g)

-- What is left, and how many that is.
abbrev Left : ReloadableEgress → ℕ → ReloadableEgress → Type 0
Left all n egress = (egress ≡ drop n all) × (n ≤ length all) × (length egress ≤ 8)

last_eight-drop :
    (all : ReloadableEgress) (n : ℕ) (e : ℕ × GraphEgress)
    → n ≤ length all
    → last_eight (drop n all ++ e ∷ []) ≡ drop (max n (length all + 1 - 8)) (all ++ e ∷ [])
last_eight-drop all n e few =
    let k : ℕ = length (drop n all ++ e ∷ []) - 8 in
    let front : drop n (all ++ e ∷ []) ≡ drop n all ++ e ∷ [] =
      drop-append_left n all (e ∷ []) few in
    let total : n + k ≡ max n (length all + 1 - 8) =
      omega (arith, few, length-append (drop n all) (e ∷ []), length-drop n all) in
    subst (λ xs. drop k xs ≡ drop (max n (length all + 1 - 8)) (all ++ e ∷ [])) front
      (drop-drop k n (all ++ e ∷ []) ∙ ap (λ i. drop i (all ++ e ∷ [])) total)

module _ {p : Protocols} where
  Installs-IsOrdered :
      {all egress : ReloadableEgress} {n : ℕ} → Installs p all n egress → IsOrdered all
  Installs-IsOrdered (created g graph configs made) = (tt, tt)
  Installs-IsOrdered (installed {all} g graph configs run b made e) =
      append-IsOrdered g graph all b (Installs-IsOrdered run)
  Installs-IsOrdered (withdrawn {all} g graph run few) =
      (IsOrdered-newest g graph all (Installs-IsOrdered run)).1

  Installs-Left :
      {all egress : ReloadableEgress} {n : ℕ} → Installs p all n egress → Left all n egress
  unfolding uninstall
  Installs-Left (created g graph configs made) = (refl, omega arith, omega arith)
  Installs-Left (installed {all} {egress} {after} {n} g graph configs run b made e) =
      let (same, few, eight) = Installs-Left run in
      let below : Below g egress = subst (Below g) (sym same) (drop-Below g n all b) in
      let result : after ≡ last_eight (egress ++ (g, graph) ∷ []) =
        cc (e, install-Below p egress g configs graph below made) in
      let left : after ≡ drop (max n (length all + 1 - 8)) (all ++ (g, graph) ∷ []) =
        result
        ∙ ap (λ m. last_eight (m ++ (g, graph) ∷ [])) same
        ∙ last_eight-drop all n (g, graph) few in
      let size = length-append all ((g, graph) ∷ []) in
      (
        left,
        omega (arith, few, size),
        omega (
          arith,
          few,
          size,
          ap length left,
          length-drop (max n (length all + 1 - 8)) (all ++ (g, graph) ∷ []),
        ),
      )
  Installs-Left (withdrawn {all} {egress} {n} g graph run few) =
      let (same, bound, eight) = Installs-Left run in
      let below = (IsOrdered-newest g graph all (Installs-IsOrdered run)).0 in
      let left : remove g egress ≡ drop n all =
        ap (remove g) (same ∙ drop-append_left n all ((g, graph) ∷ []) few)
        ∙ remove_newest g graph (drop n all) (drop-Below g n all below) in
      (
        left,
        few,
        omega (
          arith,
          eight,
          ap length same,
          ap length left,
          length-drop n all,
          length-drop n (all ++ (g, graph) ∷ []),
          length-append all ((g, graph) ∷ []),
        ),
      )

  -- Through installs in rising order and withdrawals of the newest, the map holds what was installed
  -- and not withdrawn but for the oldest, of which only so many were dropped as an install had to
  -- drop to keep eight; and it finds the graph of each generation that it holds.
  pub Installs-graph_for :
      {all egress : ReloadableEgress} {n : ℕ}
      → Installs p all n egress
      → (egress ≡ drop n all)
        × (length egress ≤ 8)
        × ((g : ℕ) (graph : GraphEgress)
            → Any (λ e. e ≡ (g, graph)) (drop n all)
            → graph_for egress g ≡ ok graph)
  unfolding graph_for
  Installs-graph_for {all} {egress} {n} run =
      let (same, few, eight) = Installs-Left run in
      (
        same,
        eight,
        λ g graph found.
            let kept : get g (drop n all) ≡ some graph =
              get-Any g graph (drop n all) (drop-IsOrdered n all (Installs-IsOrdered run)) found in
            rw (same, kept) refl,
      )
