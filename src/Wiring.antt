-- ===== src/Wiring.antt =====
-- deps.py: the adapters that the environment selects, built once per process, and the lifespan of
-- main.py that opens and closes what they need. An adapter is known by its kind and its pool; how the
-- calls that reach the database end is a parameter.
pub mod Start
pub mod Opening
mod Building
pub mod Safe
pub mod Pools
use modal_template_fastapi.Common.{
  ℕ, ◌+◌, String, Bool, true, false, not, ◌&&◌, ◌||◌, Option, none, some, List, [], ◌∷◌, ◌++◌, keep,
  is_some, nat_keys, string_keys, ◌==◌, if◌then◌else◌,
}
use modal_template_fastapi.Common.Dict
use modal_template_fastapi.Common.Dict.{Dict}
use modal_template_fastapi.Common.Text.{Unicode, strip, map_text, is_empty}
use modal_template_fastapi.Domain.Exec.{Outcome, ok, raise, Exec, resume}
use modal_template_fastapi.Api.Auth.{Environment}

pub data Adapter : Type 0 where
  in_memory : Adapter
  on_postgres : ℕ → Adapter

-- The exceptions, with what their texts name; `raised` is one of a called library.
pub data WiringError : Type 0 where
  unknown_backend : String → String → WiringError
  missing_variables : String → List String → WiringError
  no_factory : String → WiringError
  pool_not_open : String → WiringError
  memory_in_prod : List String → WiringError
  raised : String → WiringError

-- The module's globals and caches; `open_pools` are the pools that are not closed, and `pumping`
-- tells that the cached bus was started.
pub record Wiring : Type 0 where
  pub environ : Environment
  pub pool : Option ℕ
  pub open_pools : List ℕ
  pub next_pool : ℕ
  pub repository : Option Adapter
  pub event_bus : Option Adapter
  pub webhook_store : Option Adapter
  pub ticket_store : Option Adapter
  pub pumping : Bool

-- A process that was just started.
abbrev pub fresh : Environment → Wiring
fresh environ = record {
  environ = environ;
  pool = none;
  open_pools = [];
  next_pool = 0;
  repository = none;
  event_bus = none;
  webhook_store = none;
  ticket_store = none;
  pumping = false;
}

-- How the calls end that reach outside: the text of the exception, if one is raised.
pub record Outside : Type 0 where
  pub create_pool : Option String
  pub migrate : Option String
  pub start_bus : Option String
  pub close_pool : Option String

abbrev pub required_env : Dict String (List String)
required_env = ("memory", []) ∷ ("postgres", "DATABASE_URL" ∷ []) ∷ []

abbrev pub required_event_bus_env : Dict String (List String)
required_event_bus_env = ("memory", []) ∷ ("postgres", "DATABASE_URL" ∷ []) ∷ []

abbrev pub or_memory : Option String → String
or_memory none = "memory"
or_memory (some backend) = backend

abbrev pub persistence_backend : Environment → String
persistence_backend environ = or_memory (Dict.get "PERSISTENCE_BACKEND" environ)

-- `_event_bus_backend`
abbrev pub event_bus_backend : Environment → String
event_bus_backend environ = or_memory (Dict.get "EVENT_BUS_BACKEND" environ)

-- `_needs_pool`
abbrev pub needs_pool : String → String → Bool
needs_pool persistence event_bus = (persistence == "postgres") || (event_bus == "postgres")

-- `not os.environ.get(v)`
abbrev pub unset : Environment → String → Bool
unset environ v = elim (Dict.get v environ) [ none ↦ true | some s ↦ is_empty s ]

abbrev pub checked_missing : String → List String → Outcome WiringError (Unit {0})
checked_missing backend [] = ok tt
checked_missing backend (v ∷ vs) = raise (missing_variables backend (v ∷ vs))

abbrev pub checked_required :
    String → Environment → String → Option (List String) → Outcome WiringError (Unit {0})
checked_required variable environ backend none = raise (unknown_backend variable backend)
checked_required variable environ backend (some required) =
    checked_missing backend (keep (unset environ) required)

-- `_validate_backend`
unfoldable pub validate_backend : Environment → String → Outcome WiringError (Unit {0})
validate_backend environ backend =
    checked_required "PERSISTENCE_BACKEND" environ backend (Dict.get backend required_env)

-- `_validate_event_bus_backend`
unfoldable pub validate_event_bus_backend : Environment → String → Outcome WiringError (Unit {0})
validate_event_bus_backend environ backend =
    checked_required "EVENT_BUS_BACKEND" environ backend (Dict.get backend required_event_bus_env)

-- `_require_pool`, and the same check in `_get_repository`
abbrev pub require_pool : String → Option ℕ → Outcome WiringError Adapter
require_pool what none = raise (pool_not_open what)
require_pool what (some p) = ok (on_postgres p)

-- What the factories build.
abbrev pub by_backend : String → Option ℕ → Outcome WiringError Adapter
by_backend backend pool =
    if backend == "memory"
    then ok in_memory
    else if backend == "postgres"
    then require_pool backend pool
    else raise (no_factory backend)

abbrev pub after_check :
    Outcome WiringError (Unit {0}) → Outcome WiringError Adapter → Outcome WiringError Adapter
after_check (ok _) a = a
after_check (raise e) a = raise e

-- `_get_repository` without its cache
unfoldable pub build_repository : Wiring → Outcome WiringError Adapter
unfolding validate_backend
build_repository s =
    let backend = persistence_backend s.environ in
    after_check (validate_backend s.environ backend) (by_backend backend s.pool)

-- `_get_event_bus` without its cache
unfoldable pub build_event_bus : Wiring → Outcome WiringError Adapter
unfolding validate_event_bus_backend
build_event_bus s =
    let backend = event_bus_backend s.environ in
    after_check (validate_event_bus_backend s.environ backend) (by_backend backend s.pool)

-- `_get_webhook_store` and `_get_ticket_store` without their caches
unfoldable pub build_store : String → Wiring → Outcome WiringError Adapter
build_store what s =
    if event_bus_backend s.environ == "postgres" then require_pool what s.pool else ok in_memory

-- `lru_cache`: an exception is not kept
abbrev pub cached :
    Option Adapter
    → Outcome WiringError Adapter
    → (Adapter → Wiring)
    → Wiring
    → Outcome WiringError Adapter × Wiring
cached (some a) built keep_it s = (ok a, s)
cached none (raise e) keep_it s = (raise e, s)
cached none (ok a) keep_it s = (ok a, keep_it a)

unfoldable pub get_repository : Exec Wiring WiringError Adapter
unfolding build_repository
get_repository s =
    cached s.repository (build_repository s) (λ a. record s { repository = some a }) s

unfoldable pub get_event_bus : Exec Wiring WiringError Adapter
unfolding build_event_bus
get_event_bus s = cached s.event_bus (build_event_bus s) (λ a. record s { event_bus = some a }) s

unfoldable pub get_webhook_store : Exec Wiring WiringError Adapter
unfolding build_store
get_webhook_store s =
    cached s.webhook_store (build_store "The webhook store" s)
      (λ a. record s { webhook_store = some a }) s

unfoldable pub get_ticket_store : Exec Wiring WiringError Adapter
unfolding build_store
get_ticket_store s =
    cached s.ticket_store (build_store "The ticket store" s)
      (λ a. record s { ticket_store = some a }) s
