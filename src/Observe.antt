-- ===== src/Observe.antt =====
-- crates/dynet-runtime/src: what the runtime observes of its sessions, and the scores that it draws
-- from it. `Event` is event.rs; `Records`, `Session` and `Store` are traffic_session.rs, with
-- `Timing` on the times of a session; `Rows` and `Stats` are matrix_stats.rs, `Active` is
-- matrix_active.rs, and `Shadow` is matrix_shadow.rs.
pub mod Event
pub mod Records
pub mod Session
pub mod Store
pub mod Timing
pub mod Rows
pub mod Stats
pub mod Active
pub mod Shadow
pub mod Tests
