-- ===== src/Observe/Store/History.antt =====
-- The store of traffic_session.rs along a history: sessions taken back from a list, then events.
use mathlib.Core.List.{foldl}
use dynet.Base.{
  ◌-◌, ◌<◌, ◌≡◌, ◌≢◌, refl, inl, inr, true, false, List, [], ◌∷◌, length, drop, none, some, ◌==◌,
  Bool-cases, Option-cases, arith, subst, sym,
}
use dynet.Base.Order.{nat_ord, list_ord}
use dynet.Base.OrdMap.{get, insert, remove}
use dynet.Base.OrdMap.Ordered.{
  insert-IsOrdered, remove-IsOrdered, length-insert-le, length-remove, get-remove,
}
use dynet.Base.Text.{Text}
use dynet.Observe.Event.{IngressEvent}
use dynet.Observe.Session.{TrafficSession, TrafficSessionUpdate, session_update_from_event}
use dynet.Observe.Store.{
  Sessions, traffic_session_limit, apply_update, observe, restore, from_sessions,
}
use dynet.Observe.Store.Bounded.{
  IsStore, IsOldest, IsOldest-cases, apply_update-IsStore, insert-keyed,
}

pub observe-none :
    (sessions : Sessions) (event : IngressEvent)
    → session_update_from_event event ≡ none
    → observe sessions event ≡ sessions
unfolding observe
observe-none sessions event e = ground (arith, e)

pub observe-some :
    (sessions : Sessions) (event : IngressEvent) (update : TrafficSessionUpdate)
    → session_update_from_event event ≡ some update
    → observe sessions event ≡ apply_update sessions update
unfolding observe
observe-some sessions event update e = ground (arith, e)

pub observe-IsStore :
    (sessions : Sessions) (event : IngressEvent)
    → IsStore sessions
    → IsStore (observe sessions event)
observe-IsStore sessions event s = elim (Option-cases (session_update_from_event event)) [
  | inl e ↦ subst IsStore (sym (observe-none sessions event e)) s
  | inr (update, e) ↦
      subst IsStore (sym (observe-some sessions event update e))
        (apply_update-IsStore sessions update s)
]

-- A map with space for one more entry takes a session under its own key.
insert-IsStore :
    (sessions : Sessions) (session : TrafficSession)
    → IsStore sessions
    → length sessions < traffic_session_limit
    → IsStore (insert session.session_key session sessions)
insert-IsStore sessions session s h = record {
  ordered = insert-IsOrdered session.session_key session sessions s.ordered;
  bounded = omega (arith, length-insert-le session.session_key session sessions);
  keyed = insert-keyed sessions session.session_key session refl s.keyed;
}

remove-IsStore :
    (sessions : Sessions) (old : Text)
    → IsStore sessions
    → IsOldest sessions old
    → IsStore (remove old sessions) × (length (remove old sessions) < traffic_session_limit)
remove-IsStore sessions old s o =
    let len = length-remove old sessions o.there in
    (
      record {
        ordered = remove-IsOrdered old sessions s.ordered;
        bounded = omega (arith, s.bounded);
        keyed =
            λ j other h. s.keyed j other (ground (arith, get-remove old j sessions s.ordered, h));
      },
      omega (arith, s.bounded),
    )

restore-IsStore :
    (sessions : Sessions) (session : TrafficSession)
    → IsStore sessions
    → IsStore (restore sessions session)
unfolding restore
restore-IsStore sessions session s = elim (Bool-cases (length sessions == traffic_session_limit)) [
  | inr e ↦ rw e (insert-IsStore sessions session s (omega (arith, s.bounded, below e)))
  | inl e ↦
      let (old, oldest, eq) = IsOldest-cases sessions s.ordered (full e) in
      let (kept, less) = remove-IsStore sessions old s oldest in
      rw e (
        subst (λ room. IsStore (insert session.session_key session room)) (sym eq)
          (insert-IsStore (remove old sessions) session kept less))
]
  where
    below :
        (length sessions == traffic_session_limit) ≡ false → length sessions ≢ traffic_session_limit
    below e = ground (arith, e)

    full : (length sessions == traffic_session_limit) ≡ true → 0 < length sessions
    full e = ground (arith, e)

pub empty-IsStore : IsStore []
unfolding get
empty-IsStore = record { ordered = tt; bounded = omega arith; keyed = λ j other h. absurd (cc h) }

foldl-keeps {ℓ} :
    {A B : Type ℓ} (P : A → Type 0) (f : A → B → A)
    → ((a : A) (b : B) → P a → P (f a b))
    → (a : A) (bs : List B) → P a
    → P (foldl f a bs)
foldl-keeps P f step a [] p = p
foldl-keeps P f step a (b ∷ bs) p = foldl-keeps P f step (f a b) bs (step a b p)

-- Whatever sessions a store starts from, and whatever events it sees then, it stays a map ordered
-- by its keys, of at most 1024 sessions, each under its own key.
pub history-IsStore :
    (old : List TrafficSession) (history : List IngressEvent)
    → IsStore (foldl observe (from_sessions old) history)
unfolding from_sessions
history-IsStore old history =
    foldl-keeps IsStore observe observe-IsStore (from_sessions old) history (
      foldl-keeps IsStore restore restore-IsStore [] (drop (length old - traffic_session_limit) old)
        empty-IsStore)
