-- ===== src/Telemetry/Http.antt =====
-- `_http` of `TelemetryMiddleware` in adapters/http/middleware.py: what it records of one request.
use modal_template_fastapi.Common.{
  ℕ, ◌+◌, String, Bool, true, false, ◌&&◌, Option, List, [], ◌∷◌, ◌++◌, nat_eq, ltb, if◌then◌else◌,
}
use modal_template_fastapi.Common.Text.{starts_with, ends_with}
use modal_template_fastapi.Telemetry.{
  Metric, request_entered, request_left, stream_entered, message_sent, recorded, stream_closed,
  observe_webhook,
}

-- A message that passes through `receive_wrapper` or `send_wrapper`: the disconnect of the client, the
-- start of the response with its status and content type, a part of its body with its size and
-- whether more follows; others leave the state as it is.
pub data Wire : Type 0 where
  disconnect : Wire
  response_start : ℕ → String → Wire
  response_body : ℕ → Bool → Wire
  other_message : Wire

-- the dict `state`
pub record Exchange : Type 0 where
  pub status : ℕ
  pub bytes : ℕ
  pub sse : Bool
  pub done : Bool
  pub client_gone : Bool
  pub errored : Bool

abbrev pub new_exchange : Exchange
new_exchange = record {
  status = 500;
  bytes = 0;
  sse = false;
  done = false;
  client_gone = false;
  errored = false;
}

abbrev pub is_event_stream : ℕ → String → Bool
is_event_stream status content_type =
    nat_eq status 200 && starts_with "text/event-stream" content_type

-- `receive_wrapper` and `send_wrapper`
unfoldable pub observe : Wire → Exchange → List Metric × Exchange
observe disconnect x = ([], if x.done then x else record x { client_gone = true })
observe (response_start status content_type) x =
    if is_event_stream status content_type
    then (stream_entered "sse" ∷ [], record x { status = status; sse = true })
    else ([], record x { status = status })
observe (response_body size more) x = (
  (if x.sse && ltb 0 size then message_sent "sse" ∷ [] else []),
  record x { bytes = x.bytes + size; done = if more then x.done else true },
)
observe other_message x = ([], x)

unfoldable pub observe_all : List Wire → Exchange → List Metric × Exchange
observe_all [] x = ([], x)
observe_all (w ∷ ws) x =
    let (ms, x') = observe w x in let (ms', x'') = observe_all ws x' in (ms ++ ms', x'')

-- How the application's call ends.
pub data End : Type 0 where
  returns raises cancelled : End

-- What is known of the request once it is handled.
pub record Handled : Type 0 where
  pub route : String
  pub provider : Option String
  pub error_code : Option String

-- `_observe_webhook`
unfoldable pub observe_handled : Handled → ℕ → List Metric
observe_handled h status =
    if ends_with "/webhooks/{provider}" h.route
    then observe_webhook h.provider status h.error_code
    else []

-- What is recorded between the call and the `finally`; a cancellation passes by `except Exception`.
abbrev pub at_end : String → Handled → End → Exchange → List Metric × Exchange
at_end method h returns x =
    (recorded method h.route x.status x.bytes ++ observe_handled h x.status, x)
at_end method h raises x = (
  recorded method h.route x.status x.bytes ++ observe_handled h x.status,
  record x { errored = true },
)
at_end method h cancelled x = ([], x)

abbrev pub sse_reason : Exchange → String
sse_reason x =
    if x.client_gone then "client_disconnect" else if x.errored then "error" else "server_closed"

-- the `finally`
abbrev pub finally_block : String → Exchange → List Metric
finally_block method x =
    request_left method ∷ (if x.sse then stream_closed "sse" (sse_reason x) else [])

-- `_http`
unfoldable pub http : String → Handled → List Wire → End → List Metric
unfolding observe_all observe_handled
http method h ws end =
    let (ms, x) = observe_all ws new_exchange in
    let (last, x') = at_end method h end x in
    request_entered method ∷ (ms ++ (last ++ finally_block method x'))
