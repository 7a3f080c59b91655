-- ===== src/Api/Routes.antt =====
-- The item routes of api/routes.py, and `ItemRequest` of api/models.py. The service is the one of
-- core/services/item_service.py. The texts of FastAPI's own validation errors are written out.
-- A dependency that refuses the token has refused it before.
pub mod Items
use Prim.Native.String
use modal_template_fastapi.Common.{
  ℕ, ◌+◌, ◌-◌, ◌<◌, ◌≡◌, ◌↔◌, ◌⊎◌, inl, inr, refl, String, Bool, true, false, not, ◌&&◌, Option,
  none, some, List, [], ◌∷◌, map, leb, ltb, arith, if◌then◌else◌,
}
use modal_template_fastapi.Common.Text.{strip, is_empty, ◌⧺◌}
use modal_template_fastapi.Domain.{Item, to_dict, Fields, Failure}
use modal_template_fastapi.Domain.Exec.{Outcome, ok, raise, Exec, ◌>>=◌}
use modal_template_fastapi.Repo.Port.{ItemRepository}
use modal_template_fastapi.Service
use modal_template_fastapi.Service.{Publish}
use modal_template_fastapi.Api.Errors.{
  AppError, FieldError, Exception, app, validation, failure, app_error,
}

pub record ItemRequest : Type 0 where
  pub name : String
  pub description : Option String
  pub project_id : Option String

pub record ItemResponse : Type 0 where
  pub session_id : String
  pub status : String
  pub message : String
  pub content : Fields

pub record PaginatedItemsResponse : Type 0 where
  pub items : List Fields
  pub total : ℕ
  pub limit : ℕ
  pub offset : ℕ
  pub has_more : Bool

pub record HealthCheckResponse : Type 0 where
  pub status_code : ℕ
  pub session_id : String
  pub is_healthy : Bool
  pub service_name : String
  pub version : String
  pub total : ℕ
  pub healthy : ℕ
  pub unhealthy : ℕ

abbrev offending : String → String → String → List FieldError
offending field message type = record { field = field; message = message; type = type } ∷ []

abbrev pub too_short : String → List FieldError
too_short field = offending field "String should have at least 1 character" "string_too_short"

abbrev pub blank_name : List FieldError
blank_name = offending "body.name" "Value error, name must not be blank" "value_error"

-- `_strip_name`, behind the field's own `min_length`
abbrev checked_name : String → List FieldError × String
checked_name name =
    if is_empty name
    then (too_short "body.name", name)
    else if is_empty (strip name)
    then (blank_name, strip name)
    else ([], strip name)

abbrev checked_project : Option String → List FieldError
checked_project none = []
checked_project (some project_id) = if is_empty project_id then too_short "body.project_id" else []

abbrev accepted_or :
    List FieldError → List FieldError → ItemRequest → Outcome (List FieldError) ItemRequest
accepted_or [] [] request = ok request
accepted_or [] (e ∷ es) request = raise (e ∷ es)
accepted_or (e ∷ _) es request = raise (e ∷ es)

-- `ItemRequest`, of a body whose fields have the right types
unfoldable pub item_request : ItemRequest → Outcome (List FieldError) ItemRequest
item_request r =
    let (bad, name) = checked_name r.name in
    accepted_or bad (checked_project r.project_id) (record r { name = name })

unfoldable pub max_page_size : ℕ
max_page_size = 500

-- `Query(100, ge=1, le=MAX_PAGE_SIZE)`
unfoldable pub limit_errors : ℕ → List FieldError
unfolding max_page_size
limit_errors limit =
    if leb 1 limit
    then if leb limit max_page_size
      then []
      else offending "query.limit" "Input should be less than or equal to 500" "less_than_equal"
    else offending "query.limit" "Input should be greater than or equal to 1" "greater_than_equal"

abbrev pub item_not_found : String → AppError
item_not_found item_id = app_error 404 "ITEM_NOT_FOUND" ("Item '" ⧺ (item_id ⧺ "' not found"))

-- A failure of the service passes through the route.
abbrev pub served {ℓ κ} : {S : Type κ} {A : Type ℓ} → Exec S Failure A → Exec S Exception A
served m s = elim (m s).0 [ ok a ↦ (ok a, (m s).1) | raise e ↦ (raise (failure e), (m s).1) ]

abbrev pub answer {κ} :
    {S : Type κ} → String → String → String → Item → Exec S Exception ItemResponse
answer session_id status message item s = (
  ok (record {
    session_id = session_id;
    status = status;
    message = message;
    content = to_dict item;
  }),
  s,
)

abbrev pub found_or {ℓ κ} :
    {S : Type κ} {A : Type ℓ}
    → String
    → (Item → Exec S Exception A)
    → Option Item
    → Exec S Exception A
found_or item_id k none s = (raise (app (item_not_found item_id)), s)
found_or item_id k (some item) s = k item s

module _ {S B : Type 0} (repo : ItemRepository S) (events : Option (Publish B)) where
  abbrev health_response : String → String → String → Bool → HealthCheckResponse
  health_response session_id service_name version repo_ok = record {
    status_code = if repo_ok then 200 else 503;
    session_id = session_id;
    is_healthy = repo_ok;
    service_name = service_name;
    version = version;
    total = 1;
    healthy = if repo_ok then 1 else 0;
    unhealthy = if repo_ok then 0 else 1;
  }

  -- `service_name` is `{APP_NAME}-{APP_ENV}`
  unfoldable pub health_check : String → String → String → S × B → HealthCheckResponse × (S × B)
  health_check session_id service_name version s =
      let (result, s') = Service.list repo events 1 0 s in
      elim result [
        | ok _ ↦ (health_response session_id service_name version true, s')
        | raise _ ↦ (health_response session_id service_name version false, s')
      ]

  abbrev paginated : ℕ → ℕ → List Item × ℕ → Exec (S × B) Exception PaginatedItemsResponse
  paginated limit offset (items, total) s = (
    ok (record {
      items = map to_dict items;
      total = total;
      limit = limit;
      offset = offset;
      has_more = ltb (offset + limit) total;
    }),
    s,
  )

  unfoldable pub list_items : ℕ → ℕ → Exec (S × B) Exception PaginatedItemsResponse
  unfolding limit_errors
  list_items limit offset = elim (limit_errors limit) [
    | [] ↦ served (Service.list repo events limit offset) >>= paginated limit offset
    | e ∷ es ↦ λ s. (raise (validation (e ∷ es)), s)
  ]

  unfoldable pub get_item : String → String → Exec (S × B) Exception ItemResponse
  get_item session_id item_id = do
    item ← served (Service.get repo events item_id)
    found_or item_id (answer session_id "success" "Item retrieved successfully") item

  unfoldable pub create_item : String → String → ItemRequest → Exec (S × B) Exception ItemResponse
  create_item session_id new_id r = do
    item ← served (Service.create repo events new_id r.name r.description r.project_id)
    answer session_id "created" "Item created successfully" item

  unfoldable pub update_item : String → String → ItemRequest → Exec (S × B) Exception ItemResponse
  update_item session_id item_id r = do
    item ← served (Service.update repo events item_id r.name r.description r.project_id)
    found_or item_id (answer session_id "updated" "Item updated successfully") item

  unfoldable pub delete_item : String → Exec (S × B) Exception (Unit {0})
  delete_item item_id = do
    deleted ← served (Service.delete repo events item_id)
    if deleted then (λ s. (ok tt, s)) else λ s. (raise (app (item_not_found item_id)), s)
