-- ===== src/Observe/Store.antt =====
-- `TrafficSessionStore` of crates/dynet-runtime/src/traffic_session.rs: the sessions by their keys,
-- at most 1024 of them.
pub mod Bounded
pub mod History
pub mod Eviction
use Prim.Native.Nat.{Ordering}
use mathlib.Core.List.{foldl}
use dynet.Base.{
  ℕ, ◌-◌, ◌≡◌, refl, Bool, true, false, ◌&&◌, List, [], ◌∷◌, length, drop, Option, none, some, ◌==◌,
  if◌then◌else◌,
}
use dynet.Base.Opt.{is_none, map_option}
use dynet.Base.Order.{nat_ord, list_ord, cmp, then_with}
use dynet.Base.OrdMap.{OrdMap, get, insert, remove, values}
use dynet.Base.Extremes.{min_by}
use dynet.Base.Text.{Text}
use dynet.Observe.Event.{IngressEvent}
use dynet.Observe.Session.{
  TrafficSession, TrafficSessionUpdate, new_session, update_session, session_update_from_event,
}

abbrev pub traffic_session_limit : ℕ
traffic_session_limit = 1024

abbrev pub Sessions : Type 0
Sessions = OrdMap Text TrafficSession

abbrev pub age_order : Text × TrafficSession → Text × TrafficSession → Ordering
age_order left right =
    then_with (cmp left.1.last_observed_at_unix_ms right.1.last_observed_at_unix_ms)
      (cmp left.0 right.0)

unfoldable pub oldest_session_key : Sessions → Option Text
oldest_session_key sessions = map_option (λ e. e.0) (min_by age_order sessions)

unfoldable pub drop_oldest : Sessions → Sessions
drop_oldest sessions = elim (oldest_session_key sessions) [
  | none ↦ sessions
  | some key ↦ remove key sessions
]

-- `entry(key).or_insert_with(new)`
abbrev pub entry_or_new : Sessions → TrafficSessionUpdate → TrafficSession
entry_or_new sessions update = elim (get update.session_key sessions) [
  | some session ↦ session
  | none ↦ new_session update
]

unfoldable pub make_room : Sessions → Text → Sessions
make_room sessions key =
    if is_none (get key sessions) && length sessions == traffic_session_limit
    then drop_oldest sessions
    else sessions

unfoldable pub apply_update : Sessions → TrafficSessionUpdate → Sessions
apply_update sessions update =
    let room = make_room sessions update.session_key in
    insert update.session_key (update_session (entry_or_new room update) update) room

unfoldable pub observe : Sessions → IngressEvent → Sessions
observe sessions event = elim (session_update_from_event event) [
  | none ↦ sessions
  | some update ↦ apply_update sessions update
]

-- One session of `from_sessions`.
unfoldable pub restore : Sessions → TrafficSession → Sessions
restore sessions session =
    insert session.session_key session
      (if length sessions == traffic_session_limit then drop_oldest sessions else sessions)

-- `from_sessions`: the last 1024 sessions of a list.
unfoldable pub from_sessions : List TrafficSession → Sessions
from_sessions sessions = foldl restore [] (drop (length sessions - traffic_session_limit) sessions)

pub session_snapshot : Sessions → List TrafficSession
session_snapshot sessions = values sessions
