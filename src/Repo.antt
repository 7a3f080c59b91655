-- ===== src/Repo.antt =====
-- core/ports/item_repository.py and adapters/persistence.
pub mod Port
pub mod Names
pub mod Memory
pub mod Postgres
