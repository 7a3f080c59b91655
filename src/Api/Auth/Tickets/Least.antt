-- ===== src/Api/Auth/Tickets/Least.antt =====
-- What a ticket of `create_ws_ticket` of api/auth.py lets its bearer do.
use modal_template_fastapi.Common.{
  ℕ, ◌≡◌, refl, String, Bool, false, ◌||◌, some, List, [], ◌∷◌, any, keep, string_keys, ◌==◌,
  eq_iff, arith, ◌∙◌, sort_by, insert_by, if◌then◌else◌,
}
use modal_template_fastapi.Domain.Exec.{ok}
use modal_template_fastapi.Api.Auth.{
  Environment, given, Claims, TokenPayload, Jwt, member, get_algorithm, get_secret_key,
}
use modal_template_fastapi.Api.Auth.Scopes.{sorted, ticket_scopes}
use modal_template_fastapi.Api.Auth.Tickets.{
  narrowed, ticket_claims, create_ws_ticket, key_of_issued,
}

module _ (p : String → Bool) where
  any-insert_by :
      (before : String → String → Bool) (x : String) (ys : List String)
      → any p (insert_by before x ys) ≡ (p x || any p ys)
  any-insert_by before x [] = refl
  any-insert_by before x (y ∷ ys) = ground (arith, any-insert_by before x ys)

  any-sort_by :
      (before : String → String → Bool) (xs : List String) → any p (sort_by before xs) ≡ any p xs
  any-sort_by before [] = refl
  any-sort_by before (x ∷ xs) =
      ground (arith, any-insert_by before x (sort_by before xs), any-sort_by before xs)

member-keep :
    (q : String → Bool) (s : String) (xs : List String)
    → member s (keep q xs) ≡ (if q s then member s xs else false)
member-keep q s [] = ground arith
member-keep q s (x ∷ xs) = ground (arith, member-keep q s xs, eq_iff x s)

member-narrowed :
    (s : String) (scopes : List String)
    → member s (narrowed scopes) ≡ (if member s ticket_scopes then member s scopes else false)
unfolding narrowed sorted
member-narrowed s scopes =
    any-sort_by (λ y. y == s) _ (keep (λ s. member s ticket_scopes) scopes)
    ∙ member-keep (λ s. member s ticket_scopes) s scopes

-- The three scopes that a stream can need.
abbrev pub is_stream_scope : String → Bool
is_stream_scope s = "events:read" == s || ("items:read" == s || "webhooks:read" == s)

-- The ticket is the encoding, under the secret key and for the audience "ws-ticket", of claims whose
-- scopes are exactly those of the user that a stream can need.
abbrev pub IsLeast : Jwt → Environment → TokenPayload → String → Type 0
IsLeast jwt env user ticket =
    (key : String) × (c : Claims) × (scopes : List String) × (get_secret_key env ≡ some key)
    × (jwt.encode c key (get_algorithm env) ≡ ticket)
    × (c.aud ≡ given "ws-ticket")
    × (c.scopes ≡ given scopes)
    × ((s : String) → member s scopes ≡ (if is_stream_scope s then member s user.scopes else false))
    × (member "items:write" scopes ≡ false)

-- A ticket that is issued encodes, under the secret key and for the audience "ws-ticket", claims whose
-- scopes are exactly those of the user among "events:read", "items:read" and "webhooks:read"; so
-- "items:write" is none of them.
pub ticket-IsLeast :
    (jwt : Jwt) (env : Environment) (user : TokenPayload) (now ttl : ℕ) (jti ticket : String)
    → create_ws_ticket jwt env user now ttl jti ≡ ok (ticket, ttl)
    → IsLeast jwt env user ticket
ticket-IsLeast jwt env user now ttl jti ticket issued =
    let (key, k, e) = key_of_issued jwt env user now ttl jti ticket issued in
    (
      key,
      ticket_claims env user now ttl jti,
      narrowed user.scopes,
      k,
      e,
      refl,
      refl,
      (λ s. ground (arith, member-narrowed s user.scopes)),
      member-narrowed "items:write" user.scopes,
    )
