-- ===== src/Bus.antt =====
-- core/ports/event_bus.py and adapters/events: the buses that announce events to streams.
pub mod Memory
pub mod Postgres
