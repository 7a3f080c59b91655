-- ===== src/Telemetry/Sockets.antt =====
-- `_websocket` of `TelemetryMiddleware` in adapters/http/middleware.py.
use modal_template_fastapi.Common.{
  ℕ, Bool, true, false, Option, none, some, List, [], ◌∷◌, ◌++◌, if◌then◌else◌,
}
use modal_template_fastapi.Telemetry.{
  Metric, stream_entered, message_sent, stream_closed, websocket_close_reason,
}
use modal_template_fastapi.Telemetry.Http.{End, raises}

-- A message of the connection: the client's disconnect with its code, the server's acceptance,
-- message and close with its code (1000 where none is given); others leave the state as it is.
pub data Frame : Type 0 where
  gone : Option ℕ → Frame
  accepts sends : Frame
  closes : ℕ → Frame
  other_frame : Frame

-- the dict `state`
pub record Connection : Type 0 where
  pub close_code : Option ℕ
  pub opened : Bool
  pub server_close_code : Option ℕ

abbrev pub new_connection : Connection
new_connection = record { close_code = none; opened = false; server_close_code = none }

unfoldable pub observe : Frame → Connection → List Metric × Connection
observe (gone code) c = ([], record c { close_code = code })
observe accepts c = (stream_entered "websocket" ∷ [], record c { opened = true })
observe sends c = (message_sent "websocket" ∷ [], c)
observe (closes code) c = ([], record c { close_code = some code; server_close_code = some code })
observe other_frame c = ([], c)

unfoldable pub observe_all : List Frame → Connection → List Metric × Connection
observe_all [] c = ([], c)
observe_all (f ∷ fs) c =
    let (ms, c') = observe f c in let (ms', c'') = observe_all fs c' in (ms ++ ms', c'')

abbrev pub is_error : End → Bool
is_error raises = true
is_error _ = false

-- `_websocket`
unfoldable pub websocket : List Frame → End → List Metric
unfolding observe_all
websocket fs end =
    let (ms, c) = observe_all fs new_connection in
    ms
    ++ (if c.opened
        then stream_closed "websocket" (websocket_close_reason c.server_close_code (is_error end))
        else [])
