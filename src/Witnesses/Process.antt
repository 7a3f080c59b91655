-- ===== src/Witnesses/Process.antt =====
-- Starting a process, and its limits, in concrete environments.
use modal_template_fastapi.Common.{
  ℕ, ◌≡◌, refl, String, true, none, some, [], ◌∷◌, if◌then◌else◌, nat_eq,
}
use modal_template_fastapi.Common.Dict
use modal_template_fastapi.Common.Dict.{Dict}
use modal_template_fastapi.Common.Text.{int_of, strip, map_text}
use modal_template_fastapi.Domain.Exec.{ok, raise}
use modal_template_fastapi.Api.Auth.{Environment}
use modal_template_fastapi.Deploy.{default_config, post_init, set_limits, positive_int}
use modal_template_fastapi.Deploy.Limits.{limits_round_trip}
use modal_template_fastapi.Wiring.{
  Wiring, on_postgres, Outside, persistence_backend, event_bus_backend,
}
use modal_template_fastapi.Wiring.Start.{startup, init_resources, init_dependencies}
use modal_template_fastapi.Wiring.Safe.{start_is_safe, Serving, in_prod}
use modal_template_fastapi.Wiring.Opening.{Known}
use modal_template_fastapi.Witnesses.{ascii}
use modal_template_fastapi.Common.{List, ◌≤◌, arith}
use modal_template_fastapi.Telemetry.Http.{
  Wire, response_start, response_body, disconnect, cancelled, Handled, http,
}
use modal_template_fastapi.Telemetry.Tally.{
  tally, is_request_entered, is_request_left, is_request_count, is_stream_entered, is_stream_left,
  is_stream_ended,
}
use modal_template_fastapi.Telemetry.Balance.{http_balances}
use modal_template_fastapi.Wiring.{WiringError, fresh}
use modal_template_fastapi.Wiring.Pools.{IsTidy, start-IsTidy}
use modal_template_fastapi.Common.{◌⊎◌, false}

abbrev written : ℕ → String
written n = if nat_eq n 3 then "3" else "120"

abbrev small : Environment
small = []

limits_round_trip_example :
    (positive_int ascii (set_limits written (default_config "dev") []) "STREAM_MAX_CONNECTIONS" 50
      ≡ ok 3)
    × (positive_int ascii
          (set_limits written (default_config "dev") [])
          "STREAM_MAX_DURATION_SECONDS"
          50
        ≡ ok 120)
unfolding int_of strip post_init Dict.get
limits_round_trip_example =
    limits_round_trip ascii written (default_config "dev") [] 50 (refl, refl) (refl, refl) refl refl
      refl

abbrev prod : Environment
prod =
    ("MODAL_ENV", "prod")
    ∷ ("PERSISTENCE_BACKEND", "postgres")
    ∷ ("EVENT_BUS_BACKEND", "postgres")
    ∷ ("DATABASE_URL", "db")
    ∷ []

abbrev calm : Outside
calm = record { create_pool = none; migrate = none; start_bus = none; close_pool = none }

abbrev serving : Wiring
serving = record {
  environ = prod;
  pool = some 0;
  open_pools = 0 ∷ [];
  next_pool = 1;
  repository = some (on_postgres 0);
  event_bus = some (on_postgres 0);
  webhook_store = some (on_postgres 0);
  ticket_store = some (on_postgres 0);
  pumping = true;
}

start_is_safe_example :
    Known (persistence_backend prod)
    × Known (event_bus_backend prod)
    × Serving prod serving
    × ((in_prod ascii prod ≡ false)
        ⊎ ((persistence_backend prod ≡ "postgres") × (event_bus_backend prod ≡ "postgres")))
unfolding startup init_resources init_dependencies Dict.get map_text strip
start_is_safe_example = start_is_safe ascii calm prod serving refl

abbrev listing : Handled
listing = record { route = "/events"; provider = none; error_code = none }

abbrev streamed : List Wire
streamed =
    response_start 200 "text/event-stream"
    ∷ response_body 12 true
    ∷ disconnect
    ∷ response_body 3 true
    ∷ []

http_balances_example :
    (let ms = http "GET" listing streamed cancelled in
      (tally is_request_entered ms ≡ 1)
      × (tally is_request_left ms ≡ 1)
      × (tally is_request_count ms ≡ 0)
      × (tally is_stream_entered ms ≡ tally is_stream_left ms)
      × (tally is_stream_ended ms ≡ tally is_stream_left ms)
      × (tally is_stream_left ms ≤ 1))
http_balances_example = http_balances "GET" listing streamed cancelled (omega arith)

-- In prod with its items in memory: the pool of the bus is opened, and closed again.
abbrev forgetful : Environment
forgetful = ("MODAL_ENV", "prod") ∷ ("EVENT_BUS_BACKEND", "postgres") ∷ ("DATABASE_URL", "db") ∷ []

start-IsTidy_example :
    IsTidy (startup ascii calm (fresh forgetful)).1
    × (((startup ascii calm (fresh forgetful)).0 ≡ ok tt)
        ⊎ (((e : WiringError) × ((init_resources calm (fresh forgetful)).0 ≡ raise e))
            ⊎ ((startup ascii calm (fresh forgetful)).1.open_pools ≡ [])))
start-IsTidy_example = start-IsTidy ascii calm forgetful refl
