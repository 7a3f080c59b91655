-- ===== src/Api/Webhooks.antt =====
-- api/webhooks.py. HMAC-SHA256, UTF-8 and the JSON parser are parameters; a byte is a number. The
-- readings of the clocks are arguments: `monotonic` of the limiter, `wall` in microseconds of
-- `time.time()`, and the two of the delivery store.
pub mod Body
pub mod Provider
pub mod Trust
pub mod Receiving
pub mod Once
use Prim.Native.String
use modal_template_fastapi.Common.{
  ℕ, zero, suc, ◌+◌, ◌-◌, ◌*◌, ◌^◌, String, Bool, true, false, not, ◌&&◌, ◌||◌, Option, none, some,
  List, [], ◌∷◌, ◌++◌, leb, ltb, nat_eq, if◌then◌else◌,
}
use modal_template_fastapi.Common.Text.{Unicode, ℤ, pos, negsuc, int_of, is_digit, is_empty, ◌⧺◌}
use modal_template_fastapi.Domain.{Json, str, obj, Fields, end, field, Event, Failure, other}
use modal_template_fastapi.Domain.Exec.{Outcome, ok, raise, Exec, resume, ◌>>=◌}
use modal_template_fastapi.Limits.Bucket.{Limiter, check, retry_after}
use modal_template_fastapi.Stores.Webhooks
use modal_template_fastapi.Stores.Webhooks.{record_if_new, forget}
use modal_template_fastapi.Service.{Publish}
use modal_template_fastapi.Api.Auth.{Environment}
use modal_template_fastapi.Api.Errors.{AppError, Exception, app, failure, app_error}
use modal_template_fastapi.Api.Webhooks.Body.{Bytes, read_limited}
use modal_template_fastapi.Api.Webhooks.Provider.{secret_for, webhook_id_ok}

-- What the standard library computes: `hmac.new(key, message, sha256).hexdigest()`, `str.encode`,
-- `json.loads`, where `none` is its ValueError, and the decimal text of a number.
pub record Library : Type 0 where
  pub hexdigest : Bytes → Bytes → String
  pub encode : String → Bytes
  pub loads : Bytes → Option Json
  pub decimal : ℕ → String

-- What is fixed at start: the environment, utils/config.py, and the pace of the limiter's clock.
pub record Settings : Type 0 where
  pub environ : Environment
  pub max_body_bytes : ℕ
  pub tolerance_seconds : ℕ
  pub ticks_per_second : ℕ

pub record Request : Type 0 where
  pub provider : String
  pub content_length : Option String
  pub chunks : List Bytes
  pub timestamp : Option String
  pub signature : Option String
  pub webhook_id : Option String

pub record Clock : Type 0 where
  pub monotonic : ℕ
  pub wall : ℕ
  pub purged : ℕ
  pub recorded : ℕ

-- What the handler may change.
pub record World (B : Type 0) : Type 0 where
  pub limiter : Limiter
  pub store : Webhooks.Store
  pub bus : B

-- The answers, each with its status code.
pub data Reply : Type 0 where
  accepted duplicate : Reply

abbrev pub refuse {ℓ} : {A : Type ℓ} → ℕ → String → String → Outcome Exception A
refuse code name message = raise (app (app_error code name message))

-- A check that changes nothing, as a step.
abbrev pub checking {ℓ κ} : {S : Type κ} {A : Type ℓ} → Outcome Exception A → Exec S Exception A
checking r s = (r, s)

-- `not value` for a header
abbrev pub missing : Option String → Bool
missing none = true
missing (some s) = is_empty s

abbrev pub text_of : Option String → String
text_of none = ""
text_of (some s) = s

abbrev pub bytes_eq : Bytes → Bytes → Bool
bytes_eq [] [] = true
bytes_eq [] (b ∷ bs) = false
bytes_eq (a ∷ xs) [] = false
bytes_eq (a ∷ xs) (b ∷ bs) = nat_eq a b && bytes_eq xs bs

-- `isinstance(payload, dict)`
abbrev pub object_of : Option Json → Option Fields
object_of none = none
object_of (some (Json.obj fields)) = some fields
object_of (some _) = none

-- From this number on, an `int` has no `float`, and subtracting it from one raises OverflowError.
unfoldable pub float_end : ℕ
float_end = 2 ^ 1024 - 2 ^ 970

-- `abs(time.time() - sent_at) > tolerance`, in microseconds
unfoldable pub stale : ℕ → ℕ → ℤ → Bool
stale wall tolerance (pos n) =
    ltb (tolerance * 1000000) ((wall - n * 1000000) + (n * 1000000 - wall))
stale wall tolerance (negsuc n) = ltb (tolerance * 1000000) (wall + (n + 1) * 1000000)

unfoldable pub overflows : ℤ → Bool
overflows (pos n) = leb float_end n
overflows (negsuc n) = leb float_end (n + 1)

module _ (u : Unicode) (lib : Library) where
  unfoldable pub sign : Bytes → String → Bytes → String
  sign secret timestamp body =
      "sha256=" ⧺ lib.hexdigest secret (lib.encode timestamp ++ (lib.encode "." ++ body))

  module _ (cfg : Settings) where
    -- `declared and declared.isdigit() and int(declared) > WEBHOOK_MAX_BODY_BYTES`
    unfoldable pub check_declared : Option String → Outcome Exception (Unit {0})
    check_declared none = ok tt
    check_declared (some declared) =
        if not (is_empty declared) && is_digit u declared
        then elim (int_of u declared) [
          | none ↦ raise (failure (other "ValueError"))
          | some (ℤ.pos n) ↦
              if ltb cfg.max_body_bytes n
              then refuse 413 "PAYLOAD_TOO_LARGE" "Webhook body too large"
              else ok tt
          | some (ℤ.negsuc n) ↦ ok tt
        ]
        else ok tt

    unfoldable pub read_body : List Bytes → Outcome Exception Bytes
    read_body chunks = elim (read_limited cfg.max_body_bytes chunks) [
      | none ↦ refuse 413 "PAYLOAD_TOO_LARGE" "Webhook body too large"
      | some body ↦ ok body
    ]

    unfoldable pub check_timestamp : ℕ → Option String → Outcome Exception String
    check_timestamp wall header =
        if missing header
        then refuse 400 "MISSING_TIMESTAMP" "X-Webhook-Timestamp header required"
        else elim (int_of u (text_of header)) [
          | none ↦ refuse 400 "INVALID_TIMESTAMP" "X-Webhook-Timestamp must be unix seconds"
          | some sent_at ↦
              if overflows sent_at
              then raise (failure (other "OverflowError"))
              else if stale wall cfg.tolerance_seconds sent_at
              then refuse 400 "STALE_TIMESTAMP" "Webhook timestamp outside the allowed window"
              else ok (text_of header)
        ]

    unfoldable pub check_signature :
        Bytes → String → Bytes → Option String → Outcome Exception (Unit {0})
    unfolding sign
    check_signature secret timestamp body provided =
        if missing provided
        then refuse 401 "MISSING_SIGNATURE" "X-Webhook-Signature header required"
        else if bytes_eq (lib.encode (text_of provided)) (lib.encode (sign secret timestamp body))
        then ok tt
        else refuse 401 "INVALID_SIGNATURE" "Invalid webhook signature"

    unfoldable pub check_content : Option String → Bytes → Outcome Exception Fields
    check_content webhook_id body =
        if webhook_id_ok (text_of webhook_id)
        then elim (object_of (lib.loads body)) [
          | none ↦ refuse 400 "INVALID_PAYLOAD" "Body must be a JSON object"
          | some payload ↦ ok payload
        ]
        else refuse 400 "MISSING_WEBHOOK_ID" "X-Webhook-Id header required (1-128 printable chars)"

    -- The part of the handler that lets nobody through who does not know the secret.
    unfoldable pub authenticate {κ} : {S : Type κ} → Bytes → ℕ → Request → Exec S Exception Bytes
    unfolding check_declared read_body check_timestamp check_signature
    authenticate secret wall r = do
      _ ← checking (check_declared r.content_length)
      body ← checking (read_body r.chunks)
      timestamp ← checking (check_timestamp wall r.timestamp)
      _ ← checking (check_signature secret timestamp body r.signature)
      checking (ok body)

    module _ {B : Type 0} (publish : Publish B) where
      -- `webhook_limiter.check(provider)`, and the refusal if there is a wait
      unfoldable pub take_turn : ℕ → String → Exec (World B) Exception (Unit {0})
      take_turn now provider w =
          let (wait, limiter) = check provider now w.limiter in
          (
            if nat_eq wait 0
                then ok tt
                else raise (
                    app (record {
                      status_code = 429;
                      error_code = "RATE_LIMITED";
                      message = "Too many webhook deliveries; retry shortly";
                      headers =
                          (
                            "Retry-After",
                            lib.decimal (retry_after wait (w.limiter.rate * cfg.ticks_per_second)),
                          )
                          ∷ [];
                    })),
            record w { limiter = limiter },
          )

      pub message : String → String → Fields → Fields
      message provider webhook_id payload =
          field "webhook_id" (str webhook_id)
            (field "provider" (str provider) (field "payload" (obj payload) end))

      -- The outcome of `bus.publish`; if it raised, the delivery is forgotten and the error goes on.
      unfoldable pub published :
          String → String → Outcome Failure Event × World B → Outcome Exception Reply × World B
      published provider webhook_id (ok e, w) = (ok accepted, w)
      published provider webhook_id (raise e, w) =
          (raise (failure e), record w { store = forget provider webhook_id w.store })

      pub on_bus : Exec B Failure Event → World B → Outcome Failure Event × World B
      on_bus m w = let (r, bus) = m w.bus in (r, record w { bus = bus })

      -- `record_if_new`, then `publish`
      unfoldable pub deliver : Clock → String → String → Fields → Exec (World B) Exception Reply
      unfolding message published on_bus
      deliver clock provider webhook_id payload w =
          let (new, store) =
            record_if_new provider webhook_id clock.purged clock.recorded w.store in
          if new
          then published provider webhook_id (
              on_bus
                (publish "webhooks" ("webhook." ⧺ provider) (message provider webhook_id payload))
                (record w { store = store }))
          else (ok duplicate, record w { store = store })

      -- `receive_webhook`, once the provider is known
      unfoldable pub receive_known : Clock → Request → String → Exec (World B) Exception Reply
      unfolding take_turn authenticate check_content deliver
      receive_known clock r secret = do
        _ ← take_turn clock.monotonic r.provider
        body ← authenticate (lib.encode secret) clock.wall r
        payload ← checking (check_content r.webhook_id body)
        deliver clock r.provider (text_of r.webhook_id) payload

      -- `receive_webhook`
      unfoldable pub receive : Clock → Request → Exec (World B) Exception Reply
      unfolding receive_known
      receive clock r w = elim (secret_for u cfg.environ r.provider) [
        | none ↦ (refuse 404 "UNKNOWN_WEBHOOK_PROVIDER" "Unknown webhook provider", w)
        | some secret ↦ receive_known clock r secret w
      ]
