-- ===== src/Api/Stream.antt =====
-- What api/events.py sends: the body of the SSE response, the messages of `_pump`, and the routes that
-- open an SSE stream and issue a ticket. What `with_heartbeat` yields is a list: an event, or `none`
-- for a heartbeat. `dumps` and `decimal` are `json.dumps` and `str` of a number.
use modal_template_fastapi.Common.{
  ℕ, ◌+◌, ◌*◌, ◌≡◌, refl, String, Bool, true, not, Option, none, some, List, [], ◌∷◌, map, keep,
  leb, nat_eq, if◌then◌else◌, Bool-cases, inl, inr,
}
use modal_template_fastapi.Common.Text.{◌⧺◌}
use modal_template_fastapi.Domain.{Json, obj, str, field, end, Event}
use modal_template_fastapi.Domain.Exec.{Outcome, ok, raise}
use modal_template_fastapi.Limits.Bucket
use modal_template_fastapi.Limits.Bucket.{Limiter, retry_after}
use modal_template_fastapi.Limits.Slots.{StreamLimiter, try_acquire}
use modal_template_fastapi.Api.Auth.{Environment, Jwt, TokenPayload, AuthError, refused}
use modal_template_fastapi.Api.Auth.Scopes.{Topic, ensure_topic_access, require_scope}
use modal_template_fastapi.Api.Auth.Tickets.{create_ws_ticket}

-- `json.dumps` takes these messages of `_pump`; an id is the text of its number.
abbrev heartbeat_message : Json
heartbeat_message = obj (field "type" (str "heartbeat") end)

abbrev event_message : (ℕ → String) → Event → Json
event_message decimal e = obj (
    field "type" (str "event") (
      field "id" (str (decimal e.id))
        (field "event" (str e.type) (field "data" (obj e.payload) end))))

-- `can_view` is the hook of api/event_access.py, which the template's own `Scopes.can_view` fills.
module _ (decimal : ℕ → String) (dumps : Json → String)
    (can_view : Event → TokenPayload → Bool) where
  -- `_sse_frame`
  unfoldable pub sse_frame : Event → String
  sse_frame e =
      "id: "
      ⧺ (decimal e.id ⧺ ("\nevent: " ⧺ (e.type ⧺ ("\ndata: " ⧺ (dumps (obj e.payload) ⧺ "\n\n")))))

  -- the loop of `_sse_body`
  unfoldable pub frames : List (Option Event) → TokenPayload → List String
  unfolding sse_frame
  frames [] user = []
  frames (none ∷ rest) user = ": heartbeat\n\n" ∷ frames rest user
  frames (some e ∷ rest) user =
      let later = frames rest user in if can_view e user then sse_frame e ∷ later else later

  -- `_sse_body`
  unfoldable pub sse_body : List (Option Event) → TokenPayload → List String
  unfolding frames
  sse_body yielded user = "retry: 3000\n\n" ∷ frames yielded user

  -- the loop of `_pump`: the texts that it sends
  unfoldable pub pushed : List (Option Event) → TokenPayload → List String
  pushed [] user = []
  pushed (none ∷ rest) user = dumps heartbeat_message ∷ pushed rest user
  pushed (some e ∷ rest) user =
      let later = pushed rest user in
      if not (can_view e user) then later else dumps (event_message decimal e) ∷ later

  -- `_pump`: what it sends, and the close code; the clock counts half seconds
  unfoldable pub pump : ℕ → ℕ → ℕ → List (Option Event) → TokenPayload → List String × (ℕ × String)
  unfolding pushed
  pump max_duration_seconds started ended yielded user = (
    pushed yielded user,
    if leb (started + max_duration_seconds * 2) (ended + 1)
        then (1001, "max duration reached; reconnect")
        else (1013, "slow consumer"),
  )

-- The scope checks of `stream_events`, then a slot.
unfoldable pub open_stream :
    Topic → TokenPayload → StreamLimiter → Outcome AuthError (Unit {0}) × StreamLimiter
open_stream topic user l = elim (require_scope ("events:read" ∷ []) user) [
  | raise e ↦ (raise e, l)
  | ok _ ↦ elim (ensure_topic_access topic user) [
    | raise e ↦ (raise e, l)
    | ok _ ↦
        let (got, l') = try_acquire l in
        (
          if got
              then ok tt
              else raise (
                  refused (record {
                    status_code = 503;
                    error_code = "STREAM_LIMIT_REACHED";
                    message = "Too many open streams on this instance; retry shortly";
                    headers = ("Retry-After", "5") ∷ [];
                  })),
          l',
        )
  ]
]

-- `issue_ws_ticket`, behind its scope check; `monotonic` is the limiter's clock
unfoldable pub issue_ws_ticket :
    Jwt
    → Environment
    → (ℕ → String)
    → ℕ
    → ℕ
    → ℕ
    → ℕ
    → String
    → TokenPayload
    → Limiter
    → Outcome AuthError (String × ℕ) × Limiter
issue_ws_ticket jwt env decimal ticks_per_second monotonic now ttl jti user l =
    let (wait, l') = Bucket.check user.sub monotonic l in
    (
      if nat_eq wait 0
          then create_ws_ticket jwt env user now ttl jti
          else raise (
              refused (record {
                status_code = 429;
                error_code = "RATE_LIMITED";
                message = "Too many ticket requests; slow down";
                headers =
                    ("Retry-After", decimal (retry_after wait (l.rate * ticks_per_second))) ∷ [];
              })),
      l',
    )

-- What a client may see of what the bus yields: each heartbeat, and the events that `can_view` lets
-- it see.
abbrev pub is_visible : (Event → TokenPayload → Bool) → TokenPayload → Option Event → Bool
is_visible can_view user none = true
is_visible can_view user (some e) = can_view e user

-- The text of a frame: a comment, or the lines `id`, `event` and `data`, and an empty line.
abbrev pub frame_text : (ℕ → String) → (Json → String) → Option Event → String
frame_text decimal dumps none = ": heartbeat\n\n"
frame_text decimal dumps (some e) =
    "id: "
    ⧺ (decimal e.id ⧺ ("\nevent: " ⧺ (e.type ⧺ ("\ndata: " ⧺ (dumps (obj e.payload) ⧺ "\n\n")))))

-- The message that carries the same.
abbrev pub message_of : (ℕ → String) → Option Event → Json
message_of decimal none = obj (field "type" (str "heartbeat") end)
message_of decimal (some e) = obj (
    field "type" (str "event") (
      field "id" (str (decimal e.id))
        (field "event" (str e.type) (field "data" (obj e.payload) end))))

module _ (decimal : ℕ → String) (dumps : Json → String) (can_view : Event → TokenPayload → Bool)
    (user : TokenPayload) where
  frames_lem :
      (yielded : List (Option Event))
      → frames decimal dumps can_view yielded user
        ≡ map (λ o. frame_text decimal dumps o) (keep (is_visible can_view user) yielded)
  unfolding frames sse_frame
  frames_lem [] = refl
  frames_lem (none ∷ rest) = rw (frames_lem rest) refl
  frames_lem (some e ∷ rest) = elim (Bool-cases (can_view e user)) [
    | inl h ↦ rw (h, frames_lem rest) refl
    | inr h ↦ rw (h, frames_lem rest) refl
  ]

  pushed_lem :
      (yielded : List (Option Event))
      → pushed decimal dumps can_view yielded user
        ≡ map (λ o. dumps (message_of decimal o)) (keep (is_visible can_view user) yielded)
  unfolding pushed
  pushed_lem [] = refl
  pushed_lem (none ∷ rest) = rw (pushed_lem rest) refl
  pushed_lem (some e ∷ rest) = elim (Bool-cases (can_view e user)) [
    | inl h ↦ rw (h, pushed_lem rest) refl
    | inr h ↦ rw (h, pushed_lem rest) refl
  ]

-- For any hook `can_view`, both transports send one text for each heartbeat and each event that the
-- user can view, in the order of the bus, and nothing else: the SSE body, behind its retry line, a
-- frame with the lines `id`, `event` and `data`, the WebSocket a message with those three fields.
pub transports_agree :
    (decimal : ℕ → String) (dumps : Json → String) (can_view : Event → TokenPayload → Bool)
    (max_duration_seconds started ended : ℕ) (yielded : List (Option Event)) (user : TokenPayload)
    → let seen = keep (is_visible can_view user) yielded in
      (sse_body decimal dumps can_view yielded user
        ≡ "retry: 3000\n\n" ∷ map (λ o. frame_text decimal dumps o) seen)
      × ((pump decimal dumps can_view max_duration_seconds started ended yielded user).0
          ≡ map (λ o. dumps (message_of decimal o)) seen)
unfolding sse_body pump
transports_agree decimal dumps can_view max_duration_seconds started ended yielded user = (
  rw (frames_lem decimal dumps can_view user yielded) refl,
  pushed_lem decimal dumps can_view user yielded,
)
