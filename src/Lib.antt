-- ===== src/Lib.antt =====
-- A FastAPI service template: items behind a repository, an event bus with streams, inbound webhooks,
-- JWT authentication, rate limits, schema migrations. The models are translations of the Python code;
-- paths are from the repository's root.
--
-- - Common: helpers. Tests on numbers, lists, `dict` as an association list in insertion order, `str`
--   methods by code points (the tables of Unicode are a parameter, `Unicode`), `sorted` and `join`.
-- - Domain: src/core/domain. `Domain.Exec` is a method that changes a state and may raise: what was
--   written before a raise stays written.
-- - Repo: src/core/ports/item_repository.py (`Port`: the operations as a record, the contract as laws
--   on what `get` shows; the writes on Postgres meet `Created` and `Updated` with names compared by
--   the database), src/adapters/persistence/memory.py (`Memory`) and
--   src/adapters/persistence/postgres.py (`Postgres`). `Names` is what both say of taken names.
-- - Service: src/core/services/item_service.py, over any repository and any bus, and its metered
--   wrapper of src/adapters/telemetry/metered.py (`Metered`, beside the service itself in
--   `Metered.Runs`).
-- - Bus, Stores: src/adapters/events/memory.py (`Bus.Memory`, `Stores.Webhooks`, `Stores.Tickets`) and
--   src/adapters/events/postgres.py (`Bus.Postgres`, `Stores.Postgres`). A subscription is a state
--   machine: the generator's steps, interleaved with publications in any order
--   (`Bus.Memory.Delivery.Action`, `Bus.Postgres.Steps.Action`). On Postgres each step runs from one
--   `await` to the next: the two queries of `subscribe`, a read of the pump, one chunk of its rows.
-- - Limits: src/api/ratelimit.py (`Bucket`) and the slots of src/api/streaming.py (`Slots`). Floats are
--   scaled to whole numbers, so sums and comparisons are exact. How long a bucket or a delivery stays
--   before newer ones evict it is `Limits.Bucket.Kept` and `Stores.Webhooks.Kept`.
-- - Api: `Errors` (src/api/errors.py), `Auth` (src/api/auth.py, src/api/event_access.py), `Webhooks`
--   (src/api/webhooks.py), `Routes` (src/api/routes.py, src/api/models.py), `Socket` and `Stream` (the
--   WebSocket and what is sent, src/api/events.py; `can_view`, the hook of src/api/event_access.py that always
--   lets an event pass, is an argument of `Stream`, so its theorem holds for any hook).
-- - Migrations: src/adapters/persistence/migrations.py. The database is its table schema_migrations and
--   the rest, which the SQL of the files may change in any way but for that table.
-- - Deploy: modal_common.py and the numbers of src/utils/config.py (`Settings`), and
--   src/utils/envfile.py (`Envfile`).
-- - Wiring: src/deps.py, and the lifespan of src/main.py up to its `yield`.
-- - Telemetry: src/adapters/http/middleware.py and src/adapters/telemetry/stream_metrics.py, as the list
--   of the metrics that a connection records.
-- - Witnesses: the theorems at concrete inputs.
--
-- Third-party code is a parameter: PyJWT, HMAC-SHA256, the JSON parser, UTF-8, urlsplit, the SQL of a
-- migration, and the tables of Unicode. A table of Postgres is a list of rows, and a statement takes
-- effect at once or not at all. Readings of clocks and fresh ids are arguments. Loops run along a
-- list; only `drain` takes fuel, and as much as its rounds need is proved to be enough. Calls of the
-- service interleave whole, as the asyncio code of the in-memory adapters does not wait inside an
-- operation.
--
-- Not modelled: spans, log lines and the telemetry exporters, src/utils/dburl.py, the timing of
-- heartbeats, the race of the two tasks of `stream_ws`, and the scripts.
pub mod Common
pub mod Domain
pub mod Repo
pub mod Service
pub mod Bus
pub mod Stores
pub mod Limits
pub mod Api
pub mod Migrations
pub mod Deploy
pub mod Wiring
pub mod Telemetry
pub mod Witnesses
