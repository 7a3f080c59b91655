-- ===== src/Api/Errors.antt =====
-- api/errors.py: one error shape for the whole API.
use modal_template_fastapi.Common.{
  ℕ, ◌≡◌, refl, String, Option, none, some, List, [], ◌∷◌, nat_eq, if◌then◌else◌, arith, Bool-cases,
  Option-cases, inl, inr, subst,
}
use modal_template_fastapi.Common.Text.{◌⧺◌, is_empty}
use modal_template_fastapi.Domain.{Failure, duplicate_item_name, storage_unavailable, other}

abbrev pub Headers : Type 0
Headers = List (String × String)

pub record AppError : Type 0 where
  pub status_code : ℕ
  pub error_code : String
  pub message : String
  pub headers : Headers

abbrev pub app_error : ℕ → String → String → AppError
app_error status_code error_code message = record {
  status_code = status_code;
  error_code = error_code;
  message = message;
  headers = [];
}

-- One offending field of a request: models.py's `FieldError`.
pub record FieldError : Type 0 where
  pub field : String
  pub message : String
  pub type : String

-- The part of `request.state` that the handlers use.
pub record RequestState : Type 0 where
  pub session_id : Option String
  pub error_code : Option String

-- A response of one of the handlers, with models.py's `ErrorDetail` as its body.
pub record Response : Type 0 where
  pub status_code : ℕ
  pub detail : String
  pub session_id : String
  pub error_code : String
  pub errors : List FieldError
  pub headers : Headers

-- `get_session_id`; `fresh` is `str(uuid.uuid4())`
unfoldable pub get_session_id : String → RequestState → String × RequestState
get_session_id fresh s = elim s.session_id [
  | none ↦ (fresh, record s { session_id = some fresh })
  | some id ↦ if is_empty id then (fresh, record s { session_id = some fresh }) else (id, s)
]

-- `_response`
unfoldable pub response :
    String
    → RequestState
    → ℕ
    → String
    → String
    → List FieldError
    → Headers
    → Response × RequestState
unfolding get_session_id
response fresh s status_code error_code message errors headers =
    let (id, s') = get_session_id fresh (record s { error_code = some error_code }) in
    (
      record {
        status_code = status_code;
        detail = message;
        session_id = id;
        error_code = error_code;
        errors = errors;
        headers = headers;
      },
      s',
    )

-- `_STATUS_CODES.get(status_code, "HTTP_ERROR")`
unfoldable pub status_name : ℕ → String
status_name status =
    if nat_eq status 400
    then "BAD_REQUEST"
    else if nat_eq status 401
    then "UNAUTHORIZED"
    else if nat_eq status 403
    then "FORBIDDEN"
    else if nat_eq status 404
    then "NOT_FOUND"
    else if nat_eq status 405
    then "METHOD_NOT_ALLOWED"
    else if nat_eq status 409
    then "CONFLICT"
    else if nat_eq status 503
    then "SERVICE_UNAVAILABLE"
    else if nat_eq status 422
    then "VALIDATION_ERROR"
    else if nat_eq status 429
    then "TOO_MANY_REQUESTS"
    else "HTTP_ERROR"

-- What may reach the handlers: an `AppError`, Starlette's `HTTPException`, a validation error with
-- its fields, or an exception of the domain or of anything else.
pub data Exception : Type 0 where
  app : AppError → Exception
  http : ℕ → String → Headers → Exception
  validation : List FieldError → Exception
  failure : Failure → Exception

-- `_duplicate_item_name_handler`, `_storage_unavailable_handler`, `_unhandled_exception_handler`
unfoldable pub handle_failure : String → RequestState → Failure → Response × RequestState
unfolding response
handle_failure fresh s (duplicate_item_name name) =
    response fresh s 409 "ITEM_NAME_EXISTS" ("An item named '" ⧺ (name ⧺ "' already exists")) [] []
handle_failure fresh s (storage_unavailable what) =
    response fresh s 503 "STORAGE_UNAVAILABLE" "Storage is temporarily unavailable; retry shortly"
      [] (("Retry-After", "5") ∷ [])
handle_failure fresh s (other what) =
    let (id, s') = get_session_id fresh s in
    response fresh s' 500 "INTERNAL_ERROR" "Internal server error" [] (("x-session-id", id) ∷ [])

-- The handlers, as `register_exception_handlers` installs them.
unfoldable pub handle : String → RequestState → Exception → Response × RequestState
unfolding handle_failure status_name
handle fresh s (app e) = response fresh s e.status_code e.error_code e.message [] e.headers
handle fresh s (http status detail headers) =
    response fresh s status (status_name status) detail [] headers
handle fresh s (validation errors) =
    response fresh s 422 "VALIDATION_ERROR" "Request validation failed" errors []
handle fresh s (failure e) = handle_failure fresh s e

-- Nothing of a failure of the storage, or of an unexpected one, reaches the client: the response is
-- the same whatever the failure says.
pub handle_conceals :
    (fresh : String) (s : RequestState) (what what' : String)
    → (handle fresh s (failure (storage_unavailable what))
        ≡ handle fresh s (failure (storage_unavailable what')))
      × (handle fresh s (failure (other what)) ≡ handle fresh s (failure (other what')))
unfolding handle
handle_conceals fresh s what what' = (refl, refl)

-- The id that an answer carries: that of the request, or a fresh one where it has none.
abbrev pub IsOwnId : String → Option String → String → Type 0
IsOwnId fresh none id = id ≡ fresh
IsOwnId fresh (some own) id = id ≡ (if is_empty own then fresh else own)

IsOwnId-get_session_id :
    (fresh : String) (s : RequestState)
    → IsOwnId fresh s.session_id (get_session_id fresh s).0
      × ((get_session_id fresh s).1.session_id ≡ some (get_session_id fresh s).0)
      × ((get_session_id fresh s).1.error_code ≡ s.error_code)
unfolding get_session_id
IsOwnId-get_session_id fresh s = elim (Option-cases s.session_id) [
  | inl h ↦ rw h (refl, refl, refl)
  | inr (own, h) ↦ elim (Bool-cases (is_empty own)) [
    | inl e ↦ rw (h, e) (refl, refl, refl)
    | inr e ↦ rw (h, e) (refl, refl, refl)
  ]
]

IsOwnId-again :
    (fresh : String) (o : Option String) (id id' : String)
    → IsOwnId fresh o id
    → IsOwnId fresh (some id) id'
    → IsOwnId fresh o id'
IsOwnId-again fresh none id id' h k = ground arith
IsOwnId-again fresh (some own) id id' h k = ground arith

-- Any exception is answered under the id that the request already has, or under the fresh one if
-- it has none or an empty one; afterwards the state holds the id and the error code of the answer.
pub handle_agrees :
    (fresh : String) (s : RequestState) (e : Exception)
    → IsOwnId fresh s.session_id (handle fresh s e).0.session_id
      × ((handle fresh s e).1.session_id ≡ some (handle fresh s e).0.session_id)
      × ((handle fresh s e).1.error_code ≡ some (handle fresh s e).0.error_code)
unfolding handle
handle_agrees fresh s (app e) =
    IsOwnId-get_session_id fresh (record s { error_code = some e.error_code })
handle_agrees fresh s (http status detail headers) =
    IsOwnId-get_session_id fresh (record s { error_code = some (status_name status) })
handle_agrees fresh s (validation errors) =
    IsOwnId-get_session_id fresh (record s { error_code = some "VALIDATION_ERROR" })
handle_agrees fresh s (failure (duplicate_item_name name)) =
    IsOwnId-get_session_id fresh (record s { error_code = some "ITEM_NAME_EXISTS" })
handle_agrees fresh s (failure (storage_unavailable what)) =
    IsOwnId-get_session_id fresh (record s { error_code = some "STORAGE_UNAVAILABLE" })
handle_agrees fresh s (failure (other what)) =
    let (own, kept, _) = IsOwnId-get_session_id fresh s in
    let s' = (get_session_id fresh s).1 in
    let (again, kept', code) =
      IsOwnId-get_session_id fresh (record s' { error_code = some "INTERNAL_ERROR" }) in
    (
      IsOwnId-again fresh s.session_id _ _ own (
          subst
            (λ o.
              IsOwnId fresh o
                (get_session_id fresh (record s' { error_code = some "INTERNAL_ERROR" })).0)
            kept again),
      kept',
      code,
    )
