-- ===== src/Telemetry.antt =====
-- adapters/telemetry/stream_metrics.py, and what adapters/http/middleware.py shares between its two
-- kinds of connections. A call that records a metric is kept as an entry of a list; what
-- OpenTelemetry does with it, a failure included, is of no consequence to the request.
pub mod Http
pub mod Sockets
pub mod Tally
pub mod Balance
use modal_template_fastapi.Common.{
  ℕ, ◌/◌, String, Bool, true, false, not, ◌&&◌, ◌||◌, Option, none, some, List, [], ◌∷◌, ◌++◌, leb,
  ltb, nat_eq, nat_keys, string_keys, ◌==◌, if◌then◌else◌,
}
use modal_template_fastapi.Common.Dict
use modal_template_fastapi.Common.Dict.{Dict}
use modal_template_fastapi.Common.Text.{is_empty, starts_with, ends_with, ◌⧺◌}

pub record Labels : Type 0 where
  pub method : String
  pub route : String
  -- the digit of `2xx`
  pub status_class : ℕ

pub data Metric : Type 0 where
  request_entered request_left : String → Metric
  request_count request_duration error_count : Labels → Metric
  response_size : ℕ → Labels → Metric
  stream_entered stream_left message_sent : String → Metric
  stream_ended : String → String → Metric
  webhook_received : String → String → Metric

-- `_labels`
abbrev pub labels : String → String → ℕ → Labels
labels method route status = record { method = method; route = route; status_class = status / 100 }

-- `_record`
unfoldable pub recorded : String → String → ℕ → ℕ → List Metric
recorded method route status response_bytes =
    let lb = labels method route status in
    request_count lb ∷ request_duration lb ∷ (if leb 400 status then error_count lb ∷ [] else [])
    ++ (if ltb 0 response_bytes then response_size response_bytes lb ∷ [] else [])

-- `stream_closed`
abbrev pub stream_closed : String → String → List Metric
stream_closed transport reason = stream_left transport ∷ stream_ended transport reason ∷ []

abbrev pub ws_close_reasons : Dict ℕ String
ws_close_reasons =
    (1001, "max_duration")
    ∷ (1008, "rate_limited")
    ∷ (1009, "message_too_large")
    ∷ (1013, "server_busy")
    ∷ (4400, "rejected")
    ∷ (4401, "rejected")
    ∷ (4403, "rejected")
    ∷ []

abbrev pub reason_or_other : Option String → String
reason_or_other none = "other"
reason_or_other (some reason) = reason

-- `websocket_close_reason`
unfoldable pub websocket_close_reason : Option ℕ → Bool → String
websocket_close_reason server_close_code true = "error"
websocket_close_reason none false = "client_disconnect"
websocket_close_reason (some code) false = reason_or_other (Dict.get code ws_close_reasons)

abbrev pub webhook_error_outcomes : Dict String String
webhook_error_outcomes =
    ("MISSING_SIGNATURE", "bad_signature")
    ∷ ("INVALID_SIGNATURE", "bad_signature")
    ∷ ("STALE_TIMESTAMP", "stale")
    ∷ ("MISSING_TIMESTAMP", "bad_timestamp")
    ∷ ("INVALID_TIMESTAMP", "bad_timestamp")
    ∷ ("MISSING_WEBHOOK_ID", "bad_request")
    ∷ ("INVALID_PAYLOAD", "bad_request")
    ∷ ("PAYLOAD_TOO_LARGE", "too_large")
    ∷ ("RATE_LIMITED", "rate_limited")
    ∷ []

abbrev pub text_of : Option String → String
text_of none = ""
text_of (some s) = s

abbrev pub outcome_of : ℕ → Option String → Option String
outcome_of status error_code =
    if nat_eq status 202
    then some "accepted"
    else if nat_eq status 200
    then some "duplicate"
    else if leb 500 status
    then some "error"
    else Dict.get (text_of error_code) webhook_error_outcomes

abbrev pub with_outcome : String → Option String → List Metric
with_outcome provider none = []
with_outcome provider (some outcome) = webhook_received provider outcome ∷ []

-- `observe_webhook`
unfoldable pub observe_webhook : Option String → ℕ → Option String → List Metric
observe_webhook provider status error_code =
    if is_empty (text_of provider) || (nat_eq status 404 || nat_eq status 405)
    then []
    else with_outcome (text_of provider) (outcome_of status error_code)

abbrev pub unmatched_route : String
unmatched_route = "unmatched"

abbrev pub first_match : Option String → String
first_match none = unmatched_route
first_match (some path) = path

-- `_route_template`: the path of the route that FastAPI recorded, if any, and the path of the first
-- route of the application that matches in full
unfoldable pub route_template : String → String → Option String → Option String → String
route_template server_prefix request_path matched full_match =
    if is_empty (text_of matched)
    then first_match full_match
    else if not (is_empty server_prefix)
        && (starts_with server_prefix request_path
            && not (starts_with server_prefix (text_of matched)))
    then server_prefix ⧺ text_of matched
    else text_of matched

-- `_safe_route`; `none` is a raise within `_route_template`
abbrev pub safe_route : Option String → String
safe_route none = unmatched_route
safe_route (some route) = route
