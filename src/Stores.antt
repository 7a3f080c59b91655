-- ===== src/Stores.antt =====
-- Idempotency of webhooks and single use of tickets: core/ports/webhook_store.py,
-- core/ports/ticket_store.py and the classes of adapters/events/memory.py that implement them.
pub mod Webhooks
pub mod Tickets
pub mod Postgres
