-- ===== src/Store.antt =====
-- The event store (swarm/storage/event_store.py).
mod Tests
pub mod Tables
pub mod Traces
pub mod Policies
