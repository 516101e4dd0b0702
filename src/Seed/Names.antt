-- ===== src/Seed/Names.antt =====
-- validation.rs: the loops that collect names find every duplicate.
use dynet.Base.{
  ◌≡◌, refl, ◌⊎◌, inl, inr, Bool, true, false, List, [], ◌∷◌, none, some, All, All-map, Distinct,
  Bool-cases, Option-cases, arith, sym, subst,
}
use dynet.Base.Order.{nat_ord, list_ord, eqb, eqb_refl}
use dynet.Base.OrdMap.{get, insert, get-insert}
use dynet.Base.OrdMap.Fresh.{Fresh, get-insert-none}
use dynet.Base.Outcome.{ok, err, panic, ◌>>=◌}
use dynet.Base.Text.{Text, text}
use dynet.Seed.{
  BootstrapMessage, duplicate_name, Checked, Names, each, require, add_name, add_forwarding_names,
  add_ids,
}

-- What the parts of a checked result gave.
pub bind-ok :
    {A B : Type 0} (m : Checked A) (f : A → Checked B) {b : B}
    → (m >>= f) ≡ ok b
    → (a : A) × (m ≡ ok a) × (f a ≡ ok b)
bind-ok (ok a) f h = (a, refl, h)
bind-ok (err e) f h = cc
bind-ok panic f h = cc

pub each-ok :
    {A : Type 0} (check : A → Checked (Unit {0})) (xs : List A)
    → each check xs ≡ ok tt
    → All (λ x. check x ≡ ok tt) xs
each-ok check [] h = tt
each-ok check (x ∷ xs) h =
    let (a, e, rest) = bind-ok (check x) (λ done. each check xs) h in (e, each-ok check xs rest)

pub require-ok : (b : Bool) (e : BootstrapMessage) → require b e ≡ ok tt → b ≡ true
require-ok true e h = refl
require-ok false e h = cc

add_name-ok :
    (duplicated : BootstrapMessage) (id : Text) (names more : Names)
    → add_name duplicated id names ≡ ok more
    → (get id names ≡ none) × (insert id tt names ≡ more)
unfolding add_name
add_name-ok duplicated id names more h = elim (Option-cases (get id names)) [
  | inl e ↦ (e, ground (arith, e, h))
  | inr (a, e) ↦ ground (arith, e, h)
]

get-insert-some :
    (id j : Text) (names : Names)
    → (get id names ≡ some tt) ⊎ (id ≡ j)
    → get id (insert j tt names) ≡ some tt
get-insert-some id j names (inl h) = ground (arith, get-insert j id tt names, h)
get-insert-some id j names (inr e) = rw e (rw (get-insert j j tt names, eqb_refl j) refl)

-- What a loop over names has found, and what its set holds then.
pub record IsAdded (ids : List Text) (names more : Names) : Type 0 where
  pub distinct : Distinct ids
  pub fresh : Fresh names ids
  pub kept : (id : Text) → get id names ≡ some tt → get id more ≡ some tt
  pub held : All (λ id. get id more ≡ some tt) ids

IsAdded-cons :
    (id : Text) (ids : List Text) (names more : Names)
    → get id names ≡ none
    → IsAdded ids (insert id tt names) more
    → IsAdded (id ∷ ids) names more
IsAdded-cons id ids names more h a = record {
  distinct = (All-map (λ j e. (get-insert-none id j names e).0) ids a.fresh, a.distinct);
  fresh = (h, All-map (λ j e. (get-insert-none id j names e).1) ids a.fresh);
  kept = λ k e. a.kept k (get-insert-some k id names (inl e));
  held = (a.kept id (get-insert-some id id names (inr refl)), a.held);
}

pub add_ids-ok :
    (duplicated : Text → BootstrapMessage) (ids : List Text) (names more : Names)
    → add_ids duplicated ids names ≡ ok more
    → IsAdded ids names more
unfolding add_ids
add_ids-ok duplicated [] names more h = record {
  distinct = tt;
  fresh = tt;
  kept =
      λ k e. let same : names ≡ more = ground (arith, h) in subst (λ n. get k n ≡ some tt) same e;
  held = tt;
}
add_ids-ok duplicated (id ∷ ids) names more h =
    let (next, added, rest) = bind-ok (add_name (duplicated id) id names) _ h in
    let (absent, same) = add_name-ok (duplicated id) id names next added in
    IsAdded-cons id ids names more absent
      (subst (λ n. IsAdded ids n more) (sym same) (add_ids-ok duplicated ids next more rest))

-- The same of the loops that know a reserved name.
pub add_forwarding_names-ok :
    (reserved : BootstrapMessage) (ids : List Text) (names more : Names)
    → add_forwarding_names reserved ids names ≡ ok more
    → IsAdded ids names more × All (λ id. eqb id (text "direct") ≡ false) ids
unfolding add_forwarding_names
add_forwarding_names-ok reserved [] names more h = (
  record {
    distinct = tt;
    fresh = tt;
    kept =
        λ k e. let same : names ≡ more = ground (arith, h) in subst (λ n. get k n ≡ some tt) same e;
    held = tt;
  },
  tt,
)
add_forwarding_names-ok reserved (id ∷ ids) names more h =
    elim (Bool-cases (eqb id (text "direct"))) [
      | inl t ↦ ground (arith, t, h)
      | inr f ↦
          let (next, added, rest) =
            bind-ok (add_name (duplicate_name id) id names) _ (rw (add_forwarding_names, f) at h) in
          let (absent, same) = add_name-ok (duplicate_name id) id names next added in
          let (tail, free) = add_forwarding_names-ok reserved ids next more rest in
          (
            IsAdded-cons id ids names more absent (subst (λ n. IsAdded ids n more) (sym same) tail),
            (f, free),
          )
    ]
