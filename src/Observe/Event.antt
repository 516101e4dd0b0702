-- ===== src/Observe/Event.antt =====
-- crates/dynet-runtime/src/event.rs: the ids of events and sessions, and the last events.
use dynet.Base.{ℕ, List, [], ◌∷◌, ◌++◌, length, drop, ◌==◌, if◌then◌else◌}
use dynet.Base.OrdMap.{OrdMap}
use dynet.Base.Text.{Text}
use dynet.Base.Words.{add_u64}

abbrev pub event_limit : ℕ
event_limit = 1024

pub data IngressEventKind : Type 0 where
  dns_query dns_response dns_error tcp_accept tcp_close tcp_error : IngressEventKind
  udp_session_start udp_datagram udp_session_close udp_error : IngressEventKind

pub record IngressEvent : Type 0 where
  pub id : ℕ
  pub observed_at_unix_ms : ℕ
  pub kind : IngressEventKind
  pub fields : OrdMap Text Text

pub record EventStore : Type 0 where
  pub next_event_id : ℕ
  pub next_session_id : ℕ
  pub events : List IngressEvent

-- `VecDeque`: a full queue loses its oldest entry before it takes one more.
unfoldable pub push_bounded {ℓ} : {A : Type ℓ} → ℕ → List A → A → List A
push_bounded limit queue x = (if length queue == limit then drop 1 queue else queue) ++ (x ∷ [])

unfoldable pub with_watermarks : ℕ → ℕ → EventStore
with_watermarks event_id session_id = record {
  next_event_id = event_id;
  next_session_id = session_id;
  events = [];
}

-- The new store and the id: `fetch_add(1) + 1`.
unfoldable pub take_session_id : EventStore → EventStore × ℕ
unfolding add_u64
take_session_id store =
    let id = add_u64 store.next_session_id 1 in (record store { next_session_id = id }, id)

-- `EventStore::record`, up to the hand-over of the event to the matrix service.
unfoldable pub record_event :
    EventStore → ℕ → IngressEventKind → OrdMap Text Text → EventStore × IngressEvent
unfolding add_u64 push_bounded
record_event store now kind fields =
    let id = add_u64 store.next_event_id 1 in
    let event : IngressEvent = record {
      id = id;
      observed_at_unix_ms = now;
      kind = kind;
      fields = fields;
    } in
    (
      record store { next_event_id = id; events = push_bounded event_limit store.events event },
      event,
    )
