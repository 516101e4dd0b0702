-- ===== src/Observe/Store/Eviction.antt =====
-- What an update of the store of traffic_session.rs does to each session.
use dynet.Base.{
  ◌<◌, ◌≡◌, ◌≢◌, refl, ◌⊎◌, inl, inr, true, length, none, some, ◌==◌, Bool-cases, Option-cases,
  arith, subst, sym, ap, ◌∙◌,
}
use dynet.Base.Order.{nat_ord, list_ord, cmp, is_eq, eqb-eq, eqb_refl}
use dynet.Base.OrdMap.{get, insert, remove, get-insert}
use dynet.Base.OrdMap.Ordered.{get-remove}
use dynet.Base.Text.{Text}
use dynet.Observe.Session.{TrafficSession, TrafficSessionUpdate, update_session}
use dynet.Observe.Store.{Sessions, traffic_session_limit, entry_or_new, make_room, apply_update}
use dynet.Observe.Store.Bounded.{IsStore, IsOldest, make_room-IsRoom, IsOldest-cases}

-- A session left the full store because a new one came and no other was heard of before it.
pub record IsEvicted (sessions : Sessions) (key old : Text) : Type 0 where
  pub oldest : IsOldest sessions old
  pub newcomer : get key sessions ≡ none
  pub full : length sessions ≡ traffic_session_limit

module _ (sessions : Sessions) (key : Text) (s : IsStore sessions) where
  abbrev Room : Text → Type 0
  Room j =
      (get j (make_room sessions key) ≡ get j sessions)
      ⊎ (IsEvicted sessions key j × (get j (make_room sessions key) ≡ none))

  Room-get : (j : Text) → Room j
  unfolding make_room
  Room-get j = elim (Option-cases (get key sessions)) [
    | inr (session, e) ↦ inl (ground (arith, e))
    | inl new ↦ elim (Bool-cases (length sessions == traffic_session_limit)) [
      | inr e ↦ inl (ground (arith, new, e))
      | inl e ↦
          let (old, oldest, eq) = IsOldest-cases sessions s.ordered (nonempty e) in
          removed new e old oldest (ground (arith, new, e, eq))
    ]
  ]
    where
      nonempty : (length sessions == traffic_session_limit) ≡ true → 0 < length sessions
      nonempty e = ground (arith, e)

      removed :
          get key sessions ≡ none
          → (length sessions == traffic_session_limit) ≡ true
          → (old : Text) → IsOldest sessions old
          → make_room sessions key ≡ remove old sessions
          → Room j
      removed new e old oldest eq = elim (Bool-cases (is_eq (cmp j old))) [
        | inl same ↦ inr (
          record {
            oldest = subst (IsOldest sessions) (sym (eqb-eq j old same)) oldest;
            newcomer = new;
            full = ground (arith, e);
          },
          ap (get j) eq ∙ get-remove old j sessions s.ordered ∙ rw same refl,
        )
        | inr other ↦ inl (ap (get j) eq ∙ get-remove old j sessions s.ordered ∙ rw other refl)
      ]

-- `entry(key)` depends on what is under the key only.
entry-same :
    (a b : Sessions) (update : TrafficSessionUpdate)
    → get update.session_key a ≡ get update.session_key b
    → update_session (entry_or_new a update) update ≡ update_session (entry_or_new b update) update
entry-same a b update h = elim (Option-cases (get update.session_key b)) [
  | inl e ↦ ground (arith, h, e)
  | inr (session, e) ↦ ground (arith, h, e)
]

insert-same :
    (key : Text) (new : TrafficSession) (room : Sessions) → get key (insert key new room) ≡ some new
insert-same key new room = get-insert key key new room ∙ rw (eqb_refl key) refl

insert-other :
    (key j : Text) (new : TrafficSession) (room : Sessions)
    → j ≢ key
    → get j (insert key new room) ≡ get j room
insert-other key j new room ne = elim (Bool-cases (is_eq (cmp j key))) [
  | inl e ↦ absurd (ne (eqb-eq j key e))
  | inr e ↦ get-insert key j new room ∙ rw e refl
]

-- Of a well-formed store: an update puts what it makes of the session that was there, or of a new one, under its key, and
-- leaves each other key's session as it was, but for one: when the store is full and the key is
-- new, the session with the earliest time of last observation (no later key, byte by byte, among
-- equals) is gone.
pub apply_update-get :
    (sessions : Sessions) (update : TrafficSessionUpdate)
    → IsStore sessions
    → (get update.session_key (apply_update sessions update)
        ≡ some (update_session (entry_or_new sessions update) update))
      × ((j : Text)
          → j ≢ update.session_key
          → (get j (apply_update sessions update) ≡ get j sessions)
            ⊎ (IsEvicted sessions update.session_key j
                × (get j (apply_update sessions update) ≡ none)))
unfolding apply_update
apply_update-get sessions update s = (
  insert-same update.session_key _ _
      ∙ ap some (
          entry-same (make_room sessions update.session_key) sessions update
            (make_room-IsRoom sessions update.session_key s).same),
  λ j ne. elim (Room-get sessions update.session_key s j) [
    | inl e ↦ inl (insert-other update.session_key j _ _ ne ∙ e)
    | inr (evicted, e) ↦ inr (evicted, insert-other update.session_key j _ _ ne ∙ e)
  ],
)
