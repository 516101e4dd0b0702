-- ===== src/Observe/Store/Bounded.antt =====
-- The store of traffic_session.rs stays a map of at most 1024 sessions, each under its own key, and
-- makes room by dropping the one that was heard of least recently.
use dynet.Base.{
  ℕ, ◌≤◌, ◌<◌, ◌≡◌, ◌≢◌, ◌⊎◌, refl, inl, inr, true, false, length, none, some, ◌==◌, All, All-map,
  Bool-cases, Option-cases, arith, subst, sym, ◌∙◌,
}
use dynet.Base.Order.{nat_ord, list_ord, pair_ord, cmp, is_eq, is_le, eqb-eq}
use dynet.Base.OrdMap.{get, insert, remove, get-insert}
use dynet.Base.OrdMap.Ordered.{
  IsOrdered, get-Any, insert-IsOrdered, remove-IsOrdered, length-insert-le, length-insert-some,
  length-remove, get-remove,
}
use dynet.Base.Extremes.{min_by, min_by-Any, min_by_least, min_by-none}
use dynet.Base.Ranks.{AtMost, then_with-le, compare-lt, cmp-AtMost}
use dynet.Base.Text.{Text}
use dynet.Observe.Session.{TrafficSession, TrafficSessionUpdate, new_session, update_session}
use dynet.Observe.Store.{
  Sessions, traffic_session_limit, age_order, oldest_session_key, drop_oldest, entry_or_new,
  make_room, apply_update,
}

pub record IsStore (sessions : Sessions) : Type 0 where
  pub ordered : IsOrdered sessions
  pub bounded : length sessions ≤ traffic_session_limit
  pub keyed :
      (key : Text) (session : TrafficSession)
      → get key sessions ≡ some session
      → session.session_key ≡ key

-- An entry was heard of earlier than another, or at the same time and its key is no later.
abbrev pub HeardBefore : Text × TrafficSession → Text × TrafficSession → Type 0
HeardBefore a b =
    (a.1.last_observed_at_unix_ms < b.1.last_observed_at_unix_ms)
    ⊎ ((a.1.last_observed_at_unix_ms ≡ b.1.last_observed_at_unix_ms) × AtMost a.0 b.0)

age_order-HeardBefore :
    (a b : Text × TrafficSession) → is_le (age_order a b) ≡ true → HeardBefore a b
age_order-HeardBefore a b h =
    elim (then_with-le a.1.last_observed_at_unix_ms b.1.last_observed_at_unix_ms (cmp a.0 b.0) h) [
      | inl l ↦ inl (compare-lt _ _ l)
      | inr (e, r) ↦ inr (e, cmp-AtMost a.0 b.0 r)
    ]

pub record IsOldest (sessions : Sessions) (key : Text) : Type 0 where
  pub session : TrafficSession
  pub there : get key sessions ≡ some session
  pub oldest : All (HeardBefore (key, session)) sessions

pub IsOldest-cases :
    (sessions : Sessions)
    → IsOrdered sessions
    → 0 < length sessions
    → (key : Text) × IsOldest sessions key × (drop_oldest sessions ≡ remove key sessions)
unfolding drop_oldest oldest_session_key
IsOldest-cases sessions s h = elim (Option-cases (min_by age_order sessions)) [
  | inl e ↦
      absurd
        (subst (λ l. ¬ (0 < length l)) (sym (min_by-none age_order sessions e)) (omega arith) h)
  | inr ((key, session), e) ↦ (
    key,
    record {
      session = session;
      there = get-Any key session sessions s (min_by-Any age_order sessions e);
      oldest =
          All-map (λ b le. age_order-HeardBefore (key, session) b le) sessions
            (min_by_least age sessions e);
    },
    ground (arith, e),
  )
]
  where
    age : Text × TrafficSession → ℕ × Text
    age e = (e.1.last_observed_at_unix_ms, e.0)

-- What making room leaves: a map as before, with space for one more if the key is not there.
pub record IsRoom (sessions room : Sessions) (key : Text) : Type 0 where
  pub ordered : IsOrdered room
  pub shorter : length room ≤ length sessions
  pub same : get key room ≡ get key sessions
  pub sub :
      (j : Text) (session : TrafficSession)
      → get j room ≡ some session
      → get j sessions ≡ some session
  pub space : get key room ≡ none → length room < traffic_session_limit

dropped :
    (sessions : Sessions) (key old : Text)
    → IsStore sessions
    → get key sessions ≡ none
    → IsOldest sessions old
    → IsRoom sessions (remove old sessions) key
dropped sessions key old s new o =
    let len = length-remove old sessions o.there in
    record {
      ordered = remove-IsOrdered old sessions s.ordered;
      shorter = omega arith;
      same = ground (arith, get-remove old key sessions s.ordered, new);
      sub = λ j session h. ground (arith, get-remove old j sessions s.ordered, h);
      space = λ _. omega (arith, s.bounded);
    }

pub make_room-IsRoom :
    (sessions : Sessions) (key : Text)
    → IsStore sessions
    → IsRoom sessions (make_room sessions key) key
unfolding make_room
make_room-IsRoom sessions key s = elim (Option-cases (get key sessions)) [
  | inr (session, e) ↦ rw e (unchanged (λ n. cc (e, n)))
  | inl new ↦ elim (Bool-cases (length sessions == traffic_session_limit)) [
    | inr e ↦ rw (new, e) (unchanged (λ _. omega (arith, s.bounded, below e)))
    | inl e ↦
        let (old, oldest, eq) = IsOldest-cases sessions s.ordered (full e) in
        rw (new, e)
          (subst (λ room. IsRoom sessions room key) (sym eq)
            (dropped sessions key old s new oldest))
  ]
]
  where
    unchanged :
        (get key sessions ≡ none → length sessions < traffic_session_limit)
        → IsRoom sessions sessions key
    unchanged space = record {
      ordered = s.ordered;
      shorter = omega arith;
      same = refl;
      sub = λ j session h. h;
      space = space;
    }

    below :
        (length sessions == traffic_session_limit) ≡ false → length sessions ≢ traffic_session_limit
    below e = ground (arith, e)

    full : (length sessions == traffic_session_limit) ≡ true → 0 < length sessions
    full e = ground (arith, e)

entry_or_new-key :
    (room : Sessions) (update : TrafficSessionUpdate)
    → ((session : TrafficSession)
        → get update.session_key room ≡ some session
        → session.session_key ≡ update.session_key)
    → (entry_or_new room update).session_key ≡ update.session_key
unfolding new_session
entry_or_new-key room update keyed = elim (Option-cases (get update.session_key room)) [
  | inl e ↦ ground (arith, e)
  | inr (session, e) ↦ ground (arith, e, keyed session e)
]

update_session-key :
    (s : TrafficSession) (u : TrafficSessionUpdate)
    → (update_session s u).session_key ≡ s.session_key
unfolding update_session
update_session-key s u = refl

-- A write under a key keeps what holds of every entry.
pub insert-keyed :
    (room : Sessions) (key : Text) (session : TrafficSession)
    → session.session_key ≡ key
    → ((j : Text) (other : TrafficSession) → get j room ≡ some other → other.session_key ≡ j)
    → (j : Text) (other : TrafficSession) → get j (insert key session room) ≡ some other
    → other.session_key ≡ j
insert-keyed room key session k keyed j other h = elim (Bool-cases (is_eq (cmp j key))) [
  | inl e ↦
      let at : get j (insert key session room) ≡ some session =
        get-insert key j session room ∙ rw e refl in
      let same : session ≡ other = cc (h, at) in
      subst (λ t. t.session_key ≡ j) same (k ∙ sym (eqb-eq j key e))
  | inr e ↦
      let at : get j (insert key session room) ≡ get j room =
        get-insert key j session room ∙ rw e refl in
      keyed j other (sym at ∙ h)
]

insert-bounded :
    (sessions room : Sessions) (key : Text) (session : TrafficSession)
    → IsRoom sessions room key
    → length sessions ≤ traffic_session_limit
    → length (insert key session room) ≤ traffic_session_limit
insert-bounded sessions room key session r h = elim (Option-cases (get key room)) [
  | inl e ↦ omega (arith, r.space e, length-insert-le key session room)
  | inr (old, e) ↦ omega (arith, r.shorter, length-insert-some key session room r.ordered e)
]

pub apply_update-IsStore :
    (sessions : Sessions) (update : TrafficSessionUpdate)
    → IsStore sessions
    → IsStore (apply_update sessions update)
unfolding apply_update
apply_update-IsStore sessions update s =
    let room = make_room sessions update.session_key in
    let r = make_room-IsRoom sessions update.session_key s in
    let new = update_session (entry_or_new room update) update in
    let keyed : (j : Text) (other : TrafficSession)
        → get j room ≡ some other
        → other.session_key ≡ j =
      λ j other h. s.keyed j other (r.sub j other h) in
    record {
      ordered = insert-IsOrdered update.session_key new room r.ordered;
      bounded = insert-bounded sessions room update.session_key new r s.bounded;
      keyed =
          insert-keyed room update.session_key new
            (update_session-key _ update ∙ entry_or_new-key room update (keyed update.session_key))
            keyed;
    }
