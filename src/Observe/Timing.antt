-- ===== src/Observe/Timing.antt =====
-- The times of a session of traffic_session.rs: what is set once, and what is derived from what.
use mathlib.Core.List.{foldl}
use dynet.Base.{
  ℕ, Bool, ◌-◌, ◌≡◌, refl, List, [], ◌∷◌, Option, none, some, if◌then◌else◌, true, false, arith,
  ◌∙◌,
}
use dynet.Base.Opt.{map_option, or_else}
use dynet.Observe.Session.{
  TrafficSession, TrafficSessionUpdate, new_session, update_session, counted, first_at, latency,
}

-- The duration and the latency are the differences they are named for, and a direction without a
-- first datagram has counted none.
pub record IsTimed (s : TrafficSession) : Type 0 where
  pub took : s.duration_ms ≡ map_option (λ at. at - s.started_at_unix_ms) s.closed_at_unix_ms
  pub answered :
      s.first_response_latency_ms
      ≡ map_option (λ at. at - s.started_at_unix_ms) s.first_downstream_at_unix_ms
  pub up : s.first_upstream_at_unix_ms ≡ none → s.client_to_upstream_datagrams ≡ 0
  pub down : s.first_downstream_at_unix_ms ≡ none → s.upstream_to_client_datagrams ≡ 0

new_session-IsTimed : (update : TrafficSessionUpdate) → IsTimed (new_session update)
unfolding new_session
new_session-IsTimed update = record {
  took = refl;
  answered = refl;
  up = λ _. refl;
  down = λ _. refl;
}

latency-first :
    (old : Option ℕ) (ms : Option ℕ) (bytes : Option ℕ) (now started : ℕ)
    → ms ≡ map_option (λ at. at - started) old
    → latency ms (first_at old bytes now) started
      ≡ map_option (λ at. at - started) (first_at old bytes now)
unfolding latency first_at
latency-first none ms none now started h = ground (arith, h)
latency-first none ms (some b) now started h = ground (arith, h)
latency-first (some at) ms none now started h = ground (arith, h)
latency-first (some at) ms (some b) now started h = ground (arith, h)

first-counted :
    (old : Option ℕ) (count : ℕ) (bytes : Option ℕ) (now : ℕ)
    → (old ≡ none → count ≡ 0)
    → first_at old bytes now ≡ none
    → counted count bytes ≡ 0
unfolding first_at counted
first-counted old count none now h e = h e
first-counted none count (some b) now h e = absurd (ground (arith, e))
first-counted (some at) count (some b) now h e = absurd (ground (arith, e))

update_session-IsTimed :
    (s : TrafficSession) (u : TrafficSessionUpdate) → IsTimed s → IsTimed (update_session s u)
unfolding update_session
update_session-IsTimed s u t = record {
  took = closing u.closes_session;
  answered =
      latency-first s.first_downstream_at_unix_ms s.first_response_latency_ms
        u.upstream_to_client_datagram u.observed_at_unix_ms s.started_at_unix_ms t.answered;
  up =
      first-counted s.first_upstream_at_unix_ms s.client_to_upstream_datagrams
        u.client_to_upstream_datagram u.observed_at_unix_ms t.up;
  down =
      first-counted s.first_downstream_at_unix_ms s.upstream_to_client_datagrams
        u.upstream_to_client_datagram u.observed_at_unix_ms t.down;
}
  where
    closing :
        (c : Bool)
        → (if c then some (u.observed_at_unix_ms - s.started_at_unix_ms) else s.duration_ms)
          ≡ map_option
              (λ at. at - s.started_at_unix_ms)
              (if c then some u.observed_at_unix_ms else s.closed_at_unix_ms)
    closing true = refl
    closing false = t.took

foldl-IsTimed :
    (updates : List TrafficSessionUpdate) (s : TrafficSession)
    → IsTimed s
    → IsTimed (foldl update_session s updates)
foldl-IsTimed [] s t = t
foldl-IsTimed (u ∷ updates) s t =
    foldl-IsTimed updates (update_session s u) (update_session-IsTimed s u t)

-- What later updates leave alone: the identity, and every first time.
pub record IsKept (s later : TrafficSession) : Type 0 where
  pub key : later.session_key ≡ s.session_key
  pub id : later.session_id ≡ s.session_id
  pub inbound : later.inbound ≡ s.inbound
  pub started : later.started_at_unix_ms ≡ s.started_at_unix_ms
  pub upstream :
      (at : ℕ) → s.first_upstream_at_unix_ms ≡ some at → later.first_upstream_at_unix_ms ≡ some at
  pub downstream :
      (at : ℕ)
      → s.first_downstream_at_unix_ms ≡ some at
      → later.first_downstream_at_unix_ms ≡ some at
  pub latency :
      (ms : ℕ) → s.first_response_latency_ms ≡ some ms → later.first_response_latency_ms ≡ some ms
  pub decision : (id : ℕ) → s.decision_id ≡ some id → later.decision_id ≡ some id

first_at-some :
    (old : Option ℕ) (bytes : Option ℕ) (now at : ℕ)
    → old ≡ some at
    → first_at old bytes now ≡ some at
unfolding first_at
first_at-some old none now at h = h
first_at-some old (some b) now at h = ground (arith, h)

latency-some :
    (old : Option ℕ) (first : Option ℕ) (started ms : ℕ)
    → old ≡ some ms
    → latency old first started ≡ some ms
unfolding latency
latency-some old first started ms h = rw h refl

or_else-some : (old new : Option ℕ) (a : ℕ) → old ≡ some a → or_else old new ≡ some a
or_else-some old new a h = rw h refl

IsKept-trans : {a b c : TrafficSession} → IsKept a b → IsKept b c → IsKept a c
IsKept-trans k l = record {
  key = l.key ∙ k.key;
  id = l.id ∙ k.id;
  inbound = l.inbound ∙ k.inbound;
  started = l.started ∙ k.started;
  upstream = λ at h. l.upstream at (k.upstream at h);
  downstream = λ at h. l.downstream at (k.downstream at h);
  latency = λ ms h. l.latency ms (k.latency ms h);
  decision = λ d h. l.decision d (k.decision d h);
}

IsKept-refl : (s : TrafficSession) → IsKept s s
IsKept-refl s = record {
  key = refl;
  id = refl;
  inbound = refl;
  started = refl;
  upstream = λ at h. h;
  downstream = λ at h. h;
  latency = λ ms h. h;
  decision = λ d h. h;
}

update_session-IsKept :
    (s : TrafficSession) (u : TrafficSessionUpdate) → IsKept s (update_session s u)
unfolding update_session
update_session-IsKept s u = record {
  key = refl;
  id = refl;
  inbound = refl;
  started = refl;
  upstream =
      first_at-some s.first_upstream_at_unix_ms u.client_to_upstream_datagram u.observed_at_unix_ms;
  downstream =
      first_at-some s.first_downstream_at_unix_ms u.upstream_to_client_datagram
        u.observed_at_unix_ms;
  latency = λ ms h. latency-some s.first_response_latency_ms _ s.started_at_unix_ms ms h;
  decision = or_else-some s.decision_id u.decision_id;
}

foldl-IsKept :
    (updates : List TrafficSessionUpdate) (s : TrafficSession)
    → IsKept s (foldl update_session s updates)
foldl-IsKept [] s = IsKept-refl s
foldl-IsKept (u ∷ updates) s =
    IsKept-trans (update_session-IsKept s u) (foldl-IsKept updates (update_session s u))

pub updates-IsTimed :
    (first : TrafficSessionUpdate) (before after : List TrafficSessionUpdate)
    → IsTimed (foldl update_session (foldl update_session (new_session first) before) after)
      × IsKept
          (new_session first)
          (foldl update_session (foldl update_session (new_session first) before) after)
      × IsKept
          (foldl update_session (new_session first) before)
          (foldl update_session (foldl update_session (new_session first) before) after)
updates-IsTimed first before after =
    let mid = foldl update_session (new_session first) before in
    (
      foldl-IsTimed after mid
          (foldl-IsTimed before (new_session first) (new_session-IsTimed first)),
      IsKept-trans (foldl-IsKept before (new_session first)) (foldl-IsKept after mid),
      foldl-IsKept after mid,
    )
