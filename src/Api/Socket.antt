-- ===== src/Api/Socket.antt =====
-- The WebSocket endpoint of api/events.py: the checks that `stream_ws` makes before it streams, and
-- the loop `_listen` that reads what the client sends. PyJWT and the JSON parser are parameters.
pub mod Admission
use Prim.Native.String
use modal_template_fastapi.Common.{
  ℕ, ◌+◌, String, Bool, true, false, not, ◌&&◌, Option, none, some, List, [], ◌∷◌, length, ltb,
  nat_eq, string_keys, ◌==◌, if◌then◌else◌,
}
use modal_template_fastapi.Domain.{Json, obj, str, Fields, end, field}
use modal_template_fastapi.Domain.Exec.{Outcome, ok, raise}
use modal_template_fastapi.Stores.Tickets.{Used, consume}
use modal_template_fastapi.Limits.Slots.{StreamLimiter, try_acquire, release}
use modal_template_fastapi.Limits.Bucket
use modal_template_fastapi.Limits.Bucket.{Limiter}
use modal_template_fastapi.Api.Auth.{
  Environment, Jwt, TokenPayload, AuthError, refused, misconfigured, missing_claim, member,
}
use modal_template_fastapi.Api.Auth.Scopes.{Topic, items, webhooks, required_topic_scope}
use modal_template_fastapi.Api.Auth.Tickets.{verify_ws_ticket}
use modal_template_fastapi.Api.Webhooks.Body.{Bytes}

-- What the endpoint shares with the other connections of the container.
pub record Gate : Type 0 where
  pub used : Used
  pub limiter : StreamLimiter

-- The connection is closed with a code and a reason, or it streams for a user.
pub data Verdict : Type 0 where
  closed : ℕ → String → Verdict
  admitted : Topic → TokenPayload → Verdict

-- `topic in TOPICS`
unfoldable pub topic_of : String → Option Topic
topic_of topic =
    if topic == "items" then some items else if topic == "webhooks" then some webhooks else none

abbrev pub may_stream : Topic → TokenPayload → Bool
may_stream topic user =
    member "events:read" user.scopes && member (required_topic_scope topic) user.scopes

-- the last check
abbrev take_slot : Topic → TokenPayload → Gate → Verdict × Gate
take_slot topic user g =
    let (got, limiter) = try_acquire g.limiter in
    (
      if got then admitted topic user else closed 1013 "too many open streams",
      record g { limiter = limiter },
    )

-- the last two checks: the ticket is used up, then a slot is taken
unfoldable pub enter : ℕ → Topic → TokenPayload → String → Gate → Verdict × Gate
enter clock topic user jti g =
    let (first_use, used) = consume jti user.exp clock g.used in
    if first_use
    then take_slot topic user (record g { used = used })
    else (closed 4401 "ticket already used", record g { used = used })

abbrev nonempty : Option String → Option String
nonempty none = none
nonempty (some String.[]) = none
nonempty (some (String.◌∷◌ c s)) = some (String.◌∷◌ c s)

module _ (jwt : Jwt) (env : Environment) where
  -- the checks of `stream_ws`, at `now` of the token and `clock` of the ticket store
  unfoldable pub admit : ℕ → ℕ → Option String → String → Gate → Outcome AuthError Verdict × Gate
  unfolding topic_of enter
  admit now clock ticket topic g = elim (topic_of topic) [
    | none ↦ (ok (closed 4400 "unknown topic"), g)
    | some t ↦ elim (nonempty ticket) [
      | none ↦ (ok (closed 4401 "ticket required"), g)
      | some text ↦ elim (verify_ws_ticket jwt env now text) [
        | raise (refused e) ↦ (ok (closed 4401 "invalid ticket"), g)
        | raise misconfigured ↦ (raise misconfigured, g)
        | raise missing_claim ↦ (raise missing_claim, g)
        | ok (user, jti) ↦
            let entered = enter clock t user jti g in
            if may_stream t user
            then (ok entered.0, entered.1)
            else (ok (closed 4403 "missing required scope"), g)
      ]
    ]
  ]

-- the `finally` block
unfoldable pub leave : Gate → Gate
leave g = record g { limiter = release g.limiter }

-- What the client sends, with the reading of the limiter's clock when it arrives.
pub data Incoming : Type 0 where
  disconnect : Incoming
  message : ℕ → Bytes → Incoming

pub data Sent : Type 0 where
  pong unsupported_message invalid_json : Sent

abbrev type_of : Fields → Option Json
type_of end = none
type_of (field name value rest) =
    let later = type_of rest in if name == "type" then some value else later

abbrev is_ping : Json → Bool
is_ping (Json.obj fields) = elim (type_of fields) [ some (Json.str t) ↦ t == "ping" | _ ↦ false ]
is_ping _ = false

abbrev pub reply : Option Json → Sent
reply none = invalid_json
reply (some value) = if is_ping value then pong else unsupported_message

module _ (loads : Bytes → Option Json) (max_message_bytes : ℕ) where
  -- `_listen`: what it sends, and the close code if the server should close; the loop ends in
  -- waiting when there is no more to receive
  unfoldable pub listen : List Incoming → Limiter → List Sent × Option (ℕ × String)
  listen [] l = ([], none)
  listen (disconnect ∷ rest) l = ([], none)
  listen (message now raw ∷ rest) l =
      let (wait, l') = Bucket.check "connection" now l in
      let (sent, close) = listen rest l' in
      if ltb max_message_bytes (length raw)
      then ([], some (1009, "message too large"))
      else if not (nat_eq wait 0)
      then ([], some (1008, "rate limit exceeded"))
      else (reply (loads raw) ∷ sent, close)
