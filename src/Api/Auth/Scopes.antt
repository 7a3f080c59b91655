-- ===== src/Api/Auth/Scopes.antt =====
-- `require_scope` of api/auth.py, and api/event_access.py.
use modal_template_fastapi.Common.{
  ◌≡◌, refl, String, Bool, true, List, [], ◌∷◌, All, string_keys, arith, ◌⊎◌, inl, inr,
  if◌then◌else◌, before, join, sort_by,
}
use modal_template_fastapi.Common.Text.{◌⧺◌}
use modal_template_fastapi.Domain.{Event}
use modal_template_fastapi.Domain.Exec.{Outcome, ok, raise}
use modal_template_fastapi.Api.Errors.{app_error}
use modal_template_fastapi.Api.Auth.{TokenPayload, AuthError, refused, member}

-- `sorted(xs)`
unfoldable pub sorted : List String → List String
sorted xs = sort_by before xs

-- `set(xs) - set(ys)`, each element once
unfoldable pub difference : List String → List String → List String
difference [] ys = []
difference (x ∷ xs) ys =
    let rest = difference xs ys in
    if member x ys then rest else if member x rest then rest else x ∷ rest

-- What `require_scope(*scopes)` does with the current user.
abbrev checked : TokenPayload → List String → Outcome AuthError TokenPayload
checked user [] = ok user
checked user (x ∷ xs) = raise (
    refused
      (app_error 403 "INSUFFICIENT_SCOPE" ("Missing required scopes: " ⧺ join (sorted (x ∷ xs)))))

unfoldable pub require_scope : List String → TokenPayload → Outcome AuthError TokenPayload
unfolding difference
require_scope scopes user = checked user (difference scopes user.scopes)

pub data Topic : Type 0 where
  items webhooks : Topic

-- `TOPIC_SCOPES[topic]`
unfoldable pub required_topic_scope : Topic → String
required_topic_scope items = "items:read"
required_topic_scope webhooks = "webhooks:read"

-- `TICKET_SCOPES`
abbrev pub ticket_scopes : List String
ticket_scopes = "events:read" ∷ "items:read" ∷ "webhooks:read" ∷ []

unfoldable pub ensure_topic_access : Topic → TokenPayload → Outcome AuthError (Unit {0})
unfolding required_topic_scope
ensure_topic_access topic user =
    if member (required_topic_scope topic) user.scopes
    then ok tt
    else raise (
        refused (
          app_error 403 "INSUFFICIENT_SCOPE"
            ("Missing required scopes: " ⧺ required_topic_scope topic)))

unfoldable pub can_view : Event → TokenPayload → Bool
can_view event user = true

-- The user has every scope of the list.
abbrev pub Covers : TokenPayload → List String → Type 0
Covers user = All (λ s. member s user.scopes ≡ true)

covered_of_difference :
    (user : TokenPayload) (xs : List String) → difference xs user.scopes ≡ [] → Covers user xs
unfolding difference
covered_of_difference user [] h = tt
covered_of_difference user (x ∷ xs) h = ground (arith, covered_of_difference user xs)

difference_of_covered :
    (user : TokenPayload) (xs : List String) → Covers user xs → difference xs user.scopes ≡ []
unfolding difference
difference_of_covered user [] h = refl
difference_of_covered user (x ∷ xs) h = ground (arith, difference_of_covered user xs h.1)

-- A request passes the scope check, unchanged, exactly when the token has every required scope;
-- otherwise it is refused with status 403.
pub require_scope_exact :
    (scopes : List String) (user : TokenPayload)
    → ((require_scope scopes user ≡ ok user) × Covers user scopes)
      ⊎ ((m : String) × (require_scope scopes user
            ≡ raise (refused (app_error 403 "INSUFFICIENT_SCOPE" m)))
          × ¬ Covers user scopes)
unfolding require_scope
require_scope_exact scopes user = split (difference scopes user.scopes) refl
  where
    split :
        (d : List String)
        → difference scopes user.scopes ≡ d
        → ((checked user d ≡ ok user) × Covers user scopes)
          ⊎ ((m : String) × (checked user d
                ≡ raise (refused (app_error 403 "INSUFFICIENT_SCOPE" m)))
              × ¬ Covers user scopes)
    split [] e = inl (refl, covered_of_difference user scopes e)
    split (x ∷ xs) e = inr (_, refl, λ c. cc (difference_of_covered user scopes c))
