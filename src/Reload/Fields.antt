-- ===== src/Reload/Fields.antt =====
-- reload.rs: the lists of fields that its tests collect.
use dynet.Base.{◌≡◌, refl, Bool, true, false, List, [], ◌∷◌, ◌++◌, All, sym, ◌∙◌, if◌then◌else◌}
use mathlib.Core.List.{foldl, append_assoc, append-nil}
use dynet.Base.Text.{Text}
use dynet.Reload.{differs, hot_field, restart_field}

pub differs-false : {A : Type 0} (eq : Discrete A) (a b : A) → differs eq a b ≡ false → a ≡ b
unfolding differs
differs-false eq a b h = go (eq a b) h
  where
    go : (d : Dec (a ≡ b)) → elim d [ yes _ ↦ false | no _ ↦ true ] ≡ false → a ≡ b
    go (yes e) k = e
    go (no n) k = cc

pub differs-eq : {A : Type 0} (eq : Discrete A) (a b : A) → a ≡ b → differs eq a b ≡ false
unfolding differs
differs-eq eq a b e = go (eq a b)
  where
    go : (d : Dec (a ≡ b)) → elim d [ yes _ ↦ false | no _ ↦ true ] ≡ false
    go (yes p) = refl
    go (no n) = absurd (n e)

-- The names of the fields that differ.
pub named : List (Text × Bool) → List Text
named [] = []
named ((name, differs) ∷ fs) = let rest = named fs in if differs then name ∷ rest else rest

abbrev pub Quiet : List (Text × Bool) → Type 0
Quiet fs = All (λ f. f.1 ≡ false) fs

pub named-Quiet : (fs : List (Text × Bool)) → named fs ≡ [] → Quiet fs
unfolding named
named-Quiet [] h = tt
named-Quiet ((name, true) ∷ fs) h = cc
named-Quiet ((name, false) ∷ fs) h = (refl, named-Quiet fs h)

pub Quiet-named : (fs : List (Text × Bool)) → Quiet fs → named fs ≡ []
unfolding named
Quiet-named [] q = refl
Quiet-named ((name, d) ∷ fs) q = rw (q.0) (Quiet-named fs q.1)

pub foldl-hot_field :
    (fs : List (Text × Bool)) (c : List Text) → foldl hot_field c fs ≡ c ++ named fs
unfolding named hot_field
foldl-hot_field [] c = sym (append-nil c)
foldl-hot_field ((name, true) ∷ fs) c =
    foldl-hot_field fs (c ++ name ∷ []) ∙ append_assoc c (name ∷ []) (named fs)
foldl-hot_field ((name, false) ∷ fs) c = foldl-hot_field fs c

pub foldl-restart_field :
    (fs : List (Text × Bool)) (c r : List Text)
    → foldl restart_field (c, r) fs ≡ (c ++ named fs, r ++ named fs)
unfolding named restart_field
foldl-restart_field [] c r = rw (append-nil c, append-nil r) refl
foldl-restart_field ((name, true) ∷ fs) c r =
    foldl-restart_field fs (c ++ name ∷ []) (r ++ name ∷ [])
    ∙ rw (append_assoc c (name ∷ []) (named fs), append_assoc r (name ∷ []) (named fs)) refl
foldl-restart_field ((name, false) ∷ fs) c r = foldl-restart_field fs c r
