-- ===== src/Witnesses/Web.antt =====
-- The API at concrete requests. The digest is a fixed text, and every body parses as an empty object.
use Prim.Native.Char.{code}
use modal_template_fastapi.Common.{
  ℕ, ◌+◌, ◌*◌, ◌≤◌, ◌<◌, ◌≡◌, ◌≢◌, ◌⊎◌, ◌↔◌, refl, String, true, none, some, List, [], ◌∷◌, length,
  leb, arith, if◌then◌else◌,
}
use modal_template_fastapi.Common.Dict
use modal_template_fastapi.Common.Text.{strip, is_digit, int_of}
use modal_template_fastapi.Domain.{obj, end}
use modal_template_fastapi.Domain.Exec.{ok, raise}
use modal_template_fastapi.Repo.Memory.Refines.{memory}
use modal_template_fastapi.Stores.Webhooks.{record_if_new}
use modal_template_fastapi.Limits.Bucket.{check}
use modal_template_fastapi.Api.Errors.{
  RequestState, http, app_error, handle, IsOwnId, handle_agrees, FieldError,
}
use modal_template_fastapi.Api.Auth.{
  get_secret_key, Environment, TokenPayload, Jwt, invalid, refused,
}
use modal_template_fastapi.Api.Auth.Scopes.{require_scope, require_scope_exact, Covers, can_view}
use modal_template_fastapi.Api.Auth.Tickets.{create_ws_ticket}
use modal_template_fastapi.Api.Auth.Tickets.Least.{IsLeast, ticket-IsLeast}
use modal_template_fastapi.Api.Webhooks.{
  Library, Settings, Request, Clock, World, accepted, receive, deliver, overflows, float_end, stale,
}
use modal_template_fastapi.Api.Webhooks.Body.{
  Bytes, read_limited, taken_from, whole, longest, read_limited-exact, read_limited_bounded,
}
use modal_template_fastapi.Api.Webhooks.Provider.{secret_for, webhook_id_ok}
use modal_template_fastapi.Api.Webhooks.Trust.{IsRefused, IsSigned, only-IsSigned}
use modal_template_fastapi.Api.Webhooks.Once.{serve, accepted_once, failed_retry}
use modal_template_fastapi.Api.Routes.{
  ItemRequest, PaginatedItemsResponse, item_request, list_items,
}
use modal_template_fastapi.Api.Routes.Items.{IsGood, item_request_exact, has_more_exact}
use modal_template_fastapi.Api.Socket.{Gate, admit}
use modal_template_fastapi.Api.Socket.Admission.{HoldsSlot, HoldsNone, admit_balanced}
use modal_template_fastapi.Common.{map, keep, Option}
use modal_template_fastapi.Domain.{Event}
use modal_template_fastapi.Api.Stream.{sse_body, pump, is_visible, frame_text, transports_agree}
use modal_template_fastapi.Witnesses.{ascii, counting, failing}

abbrev codes : String → Bytes
codes String.[] = []
codes (String.◌∷◌ c s) = code c ∷ codes s

abbrev lib : Library
lib = record {
  hexdigest = λ key text. "d";
  encode = codes;
  loads = λ body. some (obj end);
  decimal = λ n. "1";
}

abbrev settings : Settings
settings = record {
  environ = ("WEBHOOK_SECRET_acme", "secret") ∷ [];
  max_body_bytes = 4;
  tolerance_seconds = 300;
  ticks_per_second = 1;
}

abbrev request : Request
request = record {
  provider = "acme";
  content_length = some "3";
  chunks = (1 ∷ 2 ∷ []) ∷ (3 ∷ []) ∷ [];
  timestamp = some "100";
  signature = some "sha256=d";
  webhook_id = some "w1";
}

abbrev clock : ℕ → Clock
clock now = record { monotonic = now; wall = now * 1000000; purged = now; recorded = now }

abbrev world : World ℕ
world = record {
  limiter = record { unit = 1; rate = 1; burst = 5; max_keys = 4; buckets = [] };
  store = record { ttl = 60; max_entries = 8; seen = [] };
  bus = 0;
}

only-IsSigned_example :
    IsRefused ascii lib settings counting world
      (receive ascii lib settings counting (clock 100) request world)
    ⊎ ((secret : String) × (secret_for ascii settings.environ request.provider ≡ some secret)
        × IsSigned ascii lib settings counting secret request)
only-IsSigned_example = only-IsSigned ascii lib settings counting (clock 100) request world

-- The world after the request, and after another delivery behind it.
abbrev first_world : World ℕ
first_world = (receive ascii lib settings counting (clock 100) request world).1

abbrev between : List (Clock × Request)
between = (clock 110, record request { webhook_id = some "w2" }) ∷ []

abbrev second_world : World ℕ
second_world = serve ascii lib settings counting between first_world

accepted_once_example :
    ((receive ascii lib settings counting (clock 120) request second_world).1.bus
      ≡ second_world.bus)
    × ((receive ascii lib settings counting (clock 120) request second_world).0 ≢ ok accepted)
unfolding receive secret_for Dict.get check is_digit int_of read_limited overflows float_end stale
    webhook_id_ok record_if_new
accepted_once_example =
    accepted_once ascii lib settings counting (clock 100) (clock 120) request request between world
      refl refl (omega arith, tt) (omega arith) (omega arith) refl

failed_retry_example :
    (record_if_new "acme" "w1" 130 130
      (deliver ascii lib settings failing (clock 100) "acme" "w1" end world).1.store).0
    ≡ true
unfolding deliver record_if_new Dict.get
failed_retry_example =
    failed_retry ascii lib settings failing (clock 100) "acme" "w1" end world _ 130 130 refl

read_limited-exact_example : read_limited 4 ((1 ∷ 2 ∷ []) ∷ (3 ∷ []) ∷ []) ≡ (
    if leb (length (whole ((1 ∷ 2 ∷ []) ∷ (3 ∷ []) ∷ []))) 4
    then some (whole ((1 ∷ 2 ∷ []) ∷ (3 ∷ []) ∷ []))
    else none)
read_limited-exact_example = read_limited-exact 4 ((1 ∷ 2 ∷ []) ∷ (3 ∷ []) ∷ [])

read_limited_bounded_example :
    taken_from 2 [] ((1 ∷ 2 ∷ []) ∷ (3 ∷ []) ∷ []) ≤ 2 + longest ((1 ∷ 2 ∷ []) ∷ (3 ∷ []) ∷ [])
read_limited_bounded_example = read_limited_bounded 2 ((1 ∷ 2 ∷ []) ∷ (3 ∷ []) ∷ [])

abbrev reader : TokenPayload
reader = record { sub = "ann"; exp = 9; iat = none; scopes = "items:read" ∷ [] }

require_scope_exact_example :
    ((require_scope ("items:write" ∷ []) reader ≡ ok reader) × Covers reader ("items:write" ∷ []))
    ⊎ ((m : String) × (require_scope ("items:write" ∷ []) reader
          ≡ raise (refused (app_error 403 "INSUFFICIENT_SCOPE" m)))
        × ¬ Covers reader ("items:write" ∷ []))
require_scope_exact_example = require_scope_exact ("items:write" ∷ []) reader

abbrev signing : Environment
signing = ("JWT_SECRET", "k") ∷ []

abbrev writer : TokenPayload
writer = record reader { scopes = "items:write" ∷ "items:read" ∷ [] }

abbrev jwt : Jwt
jwt = record { decode = λ now checks token. raise invalid; encode = λ c key algorithm. key }

ticket-IsLeast_example : IsLeast jwt signing writer "k"
unfolding create_ws_ticket get_secret_key Dict.get
ticket-IsLeast_example = ticket-IsLeast jwt signing writer 5 60 "t" "k" refl

abbrev state : RequestState
state = record { session_id = some "s0"; error_code = none }

handle_agrees_example :
    IsOwnId "s1" (some "s0") (handle "s1" state (http 404 "gone" [])).0.session_id
    × ((handle "s1" state (http 404 "gone" [])).1.session_id
        ≡ some (handle "s1" state (http 404 "gone" [])).0.session_id)
    × ((handle "s1" state (http 404 "gone" [])).1.error_code
        ≡ some (handle "s1" state (http 404 "gone" [])).0.error_code)
handle_agrees_example = handle_agrees "s1" state (http 404 "gone" [])

abbrev body : ItemRequest
body = record { name = " Lamp "; description = none; project_id = some "p" }

item_request_exact_example :
    ((item_request body ≡ ok (record body { name = strip body.name })) × IsGood body)
    ⊎ (((e : List FieldError) × (item_request body ≡ raise e)) × ¬ IsGood body)
item_request_exact_example = item_request_exact body

has_more_exact_example :
    (page : PaginatedItemsResponse) × ((list_items (memory ascii) (some counting) 2 0 ([], 0)).0
      ≡ ok page)
    × (length page.items ≤ 2)
    × (page.total ≡ 0)
    × ((page.has_more ≡ true) ↔ (0 + length page.items < page.total))
has_more_exact_example = has_more_exact ascii (some counting) 2 0 [] 0 (omega arith) (omega arith)

abbrev gate : Gate
gate = record { used = []; limiter = record { max_connections = 1; active = 0 } }

admit_balanced_example :
    HoldsSlot gate (admit jwt [] 1 1 (some "t") "items" gate)
    ⊎ HoldsNone gate (admit jwt [] 1 1 (some "t") "items" gate)
admit_balanced_example = admit_balanced jwt [] 1 1 (some "t") "items" gate

abbrev created : Event
created = record { id = 1; type = "item.created"; payload = end; ts = 0 }

abbrev yielded : List (Option Event)
yielded = none ∷ some created ∷ []

transports_agree_example :
    (sse_body (λ n. "1") (λ j. "{}") can_view yielded reader
      ≡ "retry: 3000\n\n"
        ∷ map (frame_text (λ n. "1") (λ j. "{}")) (keep (is_visible can_view reader) yielded))
    × ((pump (λ n. "1") (λ j. "{}") can_view 5 0 10 yielded reader).0
        ≡ map (λ o. "{}") (keep (is_visible can_view reader) yielded))
transports_agree_example = transports_agree (λ n. "1") (λ j. "{}") can_view 5 0 10 yielded reader
