-- ===== src/Wiring/Start.antt =====
-- The lifespan of main.py: `init_resources`, `init_dependencies` and `close_resources` of deps.py.
use modal_template_fastapi.Common.{
  ℕ, ◌+◌, String, Bool, true, false, not, ◌&&◌, Option, none, some, List, [], ◌∷◌, ◌++◌, keep,
  nat_keys, string_keys, ◌==◌, if◌then◌else◌,
}
use modal_template_fastapi.Common.Dict
use modal_template_fastapi.Common.Text.{Unicode, strip, map_text}
use modal_template_fastapi.Domain.Exec.{Outcome, ok, raise, Exec, resume}
use modal_template_fastapi.Api.Auth.{Environment}
use modal_template_fastapi.Repo.Postgres.Pool.{text_or_empty}
use modal_template_fastapi.Wiring.{
  WiringError, memory_in_prod, raised, Wiring, Outside, persistence_backend, event_bus_backend,
  needs_pool, validate_backend, validate_event_bus_backend, get_repository, get_event_bus,
  get_webhook_store, get_ticket_store,
}

-- `cache_clear` of the four factories
abbrev pub clear_caches : Wiring → Wiring
clear_caches s = record s {
  repository = none;
  event_bus = none;
  webhook_store = none;
  ticket_store = none;
  pumping = false;
}

abbrev pub closed : Option String → ℕ → Exec Wiring WiringError (Unit {0})
closed none p s = (ok tt, record s { open_pools = keep (λ q. not (q == p)) s.open_pools })
closed (some e) p s = (raise (raised e), s)

-- `close_resources`; what the bus raises as it closes is only logged, and its pump stops
unfoldable pub close_resources : Outside → Exec Wiring WiringError (Unit {0})
close_resources o s = elim s.pool [
  | none ↦ (ok tt, clear_caches s)
  | some p ↦ closed o.close_pool p (record (clear_caches s) { pool = none })
]

-- `migrate_on_startup` with its `except`
abbrev pub migrated : Outside → Option String → Exec Wiring WiringError (Unit {0})
migrated o none s = (ok tt, clear_caches s)
migrated o (some e) s = resume (close_resources o s) (λ _ s'. (raise (raised e), s'))

abbrev pub opened : Outside → Option String → Exec Wiring WiringError (Unit {0})
opened o (some e) s = (raise (raised e), s)
opened o none s = migrated o o.migrate (record s {
  pool = some s.next_pool;
  open_pools = s.next_pool ∷ s.open_pools;
  next_pool = s.next_pool + 1;
})

abbrev pub no_pool : Option ℕ → Bool
no_pool none = true
no_pool (some p) = false

-- The pool, where one is needed and none is open.
abbrev pub open_pool : Outside → Exec Wiring WiringError (Unit {0})
open_pool o s =
    if needs_pool (persistence_backend s.environ) (event_bus_backend s.environ) && no_pool s.pool
    then opened o o.create_pool s
    else (ok tt, s)

abbrev pub started : Option String → Exec Wiring WiringError (Unit {0})
started none s = (ok tt, record s { pumping = true })
started (some e) s = (raise (raised e), s)

abbrev pub start_bus : Outside → Exec Wiring WiringError (Unit {0})
start_bus o s =
    if event_bus_backend s.environ == "postgres"
    then resume (get_event_bus s) (λ _. started o.start_bus)
    else (ok tt, s)

-- `init_resources`
unfoldable pub init_resources : Outside → Exec Wiring WiringError (Unit {0})
unfolding close_resources validate_backend validate_event_bus_backend get_event_bus
init_resources o s =
    resume (validate_backend s.environ (persistence_backend s.environ), s)
      (λ _ s1.
        resume (validate_event_bus_backend s1.environ (event_bus_backend s1.environ), s1)
          (λ _ s2. resume (open_pool o s2) (λ _. start_bus o)))

abbrev pub named_memory : String → String → List String
named_memory name value = if value == "memory" then name ∷ [] else []

abbrev pub refused : List String → Outcome WiringError (Unit {0})
refused [] = ok tt
refused (name ∷ names) = raise (memory_in_prod (name ∷ names))

-- `_refuse_memory_in_prod`
unfoldable pub refuse_memory_in_prod :
    Unicode → Environment → String → String → Outcome WiringError (Unit {0})
refuse_memory_in_prod u environ persistence event_bus =
    if not (text_or_empty (Dict.get "MODAL_ENV" environ) == "prod")
    then ok tt
    else if map_text u.to_lower (strip (text_or_empty (Dict.get "ALLOW_MEMORY_IN_PROD" environ)))
        == "true"
    then ok tt
    else refused (
        named_memory "PERSISTENCE_BACKEND=memory" persistence
        ++ named_memory "EVENT_BUS_BACKEND=memory" event_bus)

-- `init_dependencies`; its warnings are not modelled
unfoldable pub init_dependencies : Unicode → Exec Wiring WiringError (Unit {0})
unfolding refuse_memory_in_prod get_repository get_event_bus get_webhook_store get_ticket_store
init_dependencies u s =
    resume
      (
        refuse_memory_in_prod u s.environ (persistence_backend s.environ)
            (event_bus_backend s.environ),
        s,
      )
      (λ _ s1. resume (get_repository s1) (λ _ s2. resume (get_event_bus s2) (λ _ s3.
        resume (get_webhook_store s3)
          (λ _ s4. resume (get_ticket_store s4) (λ _ s5. (ok tt, s5))))))

-- A failure of `init_dependencies` closes what was opened.
abbrev pub guarded :
    Outside → Outcome WiringError (Unit {0}) × Wiring → Outcome WiringError (Unit {0}) × Wiring
guarded o (ok _, s) = (ok tt, s)
guarded o (raise e, s) = resume (close_resources o s) (λ _ s'. (raise e, s'))

-- `lifespan` up to its `yield`, once the authentication settings are checked
unfoldable pub startup : Unicode → Outside → Exec Wiring WiringError (Unit {0})
unfolding init_resources init_dependencies
startup u o s = resume (init_resources o s) (λ _ s'. guarded o (init_dependencies u s'))
