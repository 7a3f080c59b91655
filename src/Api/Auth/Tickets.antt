-- ===== src/Api/Auth/Tickets.antt =====
-- The WebSocket tickets of api/auth.py, and what PyJWT is relied on for.
pub mod Least
use modal_template_fastapi.Common.{
  ℕ, ◌+◌, ◌≤◌, ◌<◌, ◌≡◌, ◌≢◌, refl, String, Bool, true, Option, none, some, List, [], ◌∷◌, keep,
  All, string_keys, eq_iff, arith, ◌⊎◌, inl, inr, Option-cases, sym, ◌∙◌,
}
use modal_template_fastapi.Common.Dict
use modal_template_fastapi.Domain.Exec.{Outcome, ok, raise}
use modal_template_fastapi.Api.Errors.{AppError}
use modal_template_fastapi.Api.Auth.{
  Environment, Claim, absent, malformed, given, Claims, TokenPayload, model_validate, JwtError,
  expired, invalid, Checks, Jwt, member, get_algorithm, truthy, get_secret_key, unauthorized,
  AuthError, refused, misconfigured, missing_claim, token_checks, verify_token,
}
use modal_template_fastapi.Api.Auth.Scopes.{sorted, ticket_scopes}

abbrev pub ws_ticket_audience : String
ws_ticket_audience = "ws-ticket"

-- `sorted(s for s in user.scopes if s in TICKET_SCOPES)`
unfoldable pub narrowed : List String → List String
unfolding sorted
narrowed scopes = sorted (keep (λ s. member s ticket_scopes) scopes)

abbrev pub claim_of : Option String → Claim String
claim_of none = absent
claim_of (some s) = given s

-- The claims of a ticket.
abbrev pub ticket_claims : Environment → TokenPayload → ℕ → ℕ → String → Claims
ticket_claims env user now ttl jti = record {
  sub = given user.sub;
  exp = given (now + ttl);
  iat = given now;
  jti = given jti;
  aud = given ws_ticket_audience;
  iss = claim_of (truthy (Dict.get "JWT_ISSUER" env));
  scopes = given (narrowed user.scopes);
}

abbrev pub ticket_checks : Environment → String → Checks
ticket_checks env key = record {
  key = key;
  algorithm = get_algorithm env;
  required = "exp" ∷ "sub" ∷ "jti" ∷ [];
  audience = some ws_ticket_audience;
  issuer = truthy (Dict.get "JWT_ISSUER" env);
}

-- `str(claims["jti"])`
abbrev pub with_jti : Claim String → TokenPayload → Outcome AuthError (TokenPayload × String)
with_jti absent p = raise missing_claim
with_jti (malformed s) p = ok (p, s)
with_jti (given s) p = ok (p, s)

abbrev pub payload_and_jti :
    Claim String → Option TokenPayload → Outcome AuthError (TokenPayload × String)
payload_and_jti jti none = raise (refused (unauthorized "INVALID_TICKET" "Invalid ticket"))
payload_and_jti jti (some p) = with_jti jti p

abbrev pub ticket_of : Outcome JwtError Claims → Outcome AuthError (TokenPayload × String)
ticket_of (ok claims) = payload_and_jti claims.jti (model_validate claims)
ticket_of (raise expired) = raise (refused (unauthorized "TICKET_EXPIRED" "Ticket has expired"))
ticket_of (raise invalid) = raise (refused (unauthorized "INVALID_TICKET" "Invalid ticket"))

module _ (jwt : Jwt) (env : Environment) where
  -- create_ws_ticket; `now` is `int(time.time())`, `jti` is `uuid.uuid4().hex`
  unfoldable pub create_ws_ticket : TokenPayload → ℕ → ℕ → String → Outcome AuthError (String × ℕ)
  create_ws_ticket user now ttl jti = elim (get_secret_key env) [
    | none ↦ raise misconfigured
    | some key ↦ ok (jwt.encode (ticket_claims env user now ttl jti) key (get_algorithm env), ttl)
  ]

  -- verify_ws_ticket
  unfoldable pub verify_ws_ticket : ℕ → String → Outcome AuthError (TokenPayload × String)
  verify_ws_ticket now ticket = elim (get_secret_key env) [
    | none ↦ raise misconfigured
    | some key ↦ ticket_of (jwt.decode now (ticket_checks env key) ticket)
  ]

abbrev pub value_of : Claim String → Option String
value_of absent = none
value_of (malformed s) = some s
value_of (given s) = some s

-- Each required claim that the program names is there.
abbrev pub IsPresent : Claims → String → Type 0
IsPresent c name =
    ((name ≡ "exp") × (c.exp ≢ absent))
    ⊎ ((name ≡ "sub") × (c.sub ≢ absent))
    ⊎ ((name ≡ "jti") × (c.jti ≢ absent))

-- What PyJWT documents of `decode` and `encode`: a token that was made with the same key and
-- algorithm gives its claims back while its time has come and has not passed, where its audience is
-- the expected one (none if none is expected), its issuer too if one is expected, and the required
-- claims are there. A token with another audience is refused.
pub record IsJwt (jwt : Jwt) : Type 0 where
  pub accepts :
      (c : Claims) (checks : Checks) (now exp iat : ℕ)
      → c.exp ≡ given exp
      → now < exp
      → c.iat ≡ given iat
      → iat ≤ now
      → value_of c.aud ≡ checks.audience
      → (checks.issuer ≡ none) ⊎ (value_of c.iss ≡ checks.issuer)
      → All (IsPresent c) checks.required
      → jwt.decode now checks (jwt.encode c checks.key checks.algorithm) ≡ ok c
  pub refuses :
      (c : Claims) (checks : Checks) (now : ℕ)
      → value_of c.aud ≢ checks.audience
      → (e : JwtError) × (jwt.decode now checks (jwt.encode c checks.key checks.algorithm)
          ≡ raise e)

-- What a refused token or ticket leads to.
refused_token :
    (jwt : Jwt) (env : Environment) (now : ℕ) (token key : String)
    → get_secret_key env ≡ some key
    → (e : JwtError) × (jwt.decode now (token_checks env key) token ≡ raise e)
    → (e : AppError) × (verify_token jwt env now token ≡ raise (refused e)) × (e.status_code ≡ 401)
unfolding verify_token
refused_token jwt env now token key k (expired, d) =
    (unauthorized "TOKEN_EXPIRED" "Token has expired", rw (k, verify_token) (rw d refl), refl)
refused_token jwt env now token key k (invalid, d) =
    (unauthorized "INVALID_TOKEN" "Invalid token", rw (k, verify_token) (rw d refl), refl)

refused_ticket :
    (jwt : Jwt) (env : Environment) (now : ℕ) (token key : String)
    → get_secret_key env ≡ some key
    → (e : JwtError) × (jwt.decode now (ticket_checks env key) token ≡ raise e)
    → (e : AppError) × (verify_ws_ticket jwt env now token ≡ raise (refused e))
      × (e.status_code ≡ 401)
unfolding verify_ws_ticket
refused_ticket jwt env now token key k (expired, d) =
    (unauthorized "TICKET_EXPIRED" "Ticket has expired", rw (k, verify_ws_ticket) (rw d refl), refl)
refused_ticket jwt env now token key k (invalid, d) =
    (unauthorized "INVALID_TICKET" "Invalid ticket", rw (k, verify_ws_ticket) (rw d refl), refl)

accepted_ticket :
    (jwt : Jwt) (env : Environment) (now : ℕ) (token key : String) (c : Claims)
    → get_secret_key env ≡ some key
    → jwt.decode now (ticket_checks env key) token ≡ ok c
    → verify_ws_ticket jwt env now token ≡ payload_and_jti c.jti (model_validate c)
unfolding verify_ws_ticket
accepted_ticket jwt env now token key c k d = rw (k, verify_ws_ticket) (rw d refl)

ticket_claims_ok :
    (env : Environment) (user : TokenPayload) (now ttl : ℕ) (jti : String)
    → (let c = ticket_claims env user now ttl jti in payload_and_jti c.jti (model_validate c))
      ≡ ok (
        record { sub = user.sub; exp = now + ttl; iat = some now; scopes = narrowed user.scopes },
        jti,
      )
unfolding model_validate
ticket_claims_ok env user now ttl jti = refl

issuer_ok : (o : Option String) → (o ≡ none) ⊎ (value_of (claim_of o) ≡ o)
issuer_ok none = inl refl
issuer_ok (some s) = inr refl

module _ (jwt : Jwt) (env : Environment) (user : TokenPayload) (now ttl : ℕ) (jti ticket : String)
    (issued : create_ws_ticket jwt env user now ttl jti ≡ ok (ticket, ttl)) where
  pub key_of_issued :
      (key : String) × (get_secret_key env ≡ some key)
      × (jwt.encode (ticket_claims env user now ttl jti) key (get_algorithm env) ≡ ticket)
  unfolding create_ws_ticket
  key_of_issued = elim (Option-cases (get_secret_key env)) [
    | inl e ↦ cc (rw (e, create_ws_ticket) at issued)
    | inr (key, e) ↦ (key, e, cc (rw (e, create_ws_ticket) at issued))
  ]

module _ (jwt : Jwt) (law : IsJwt jwt) (env : Environment) (user : TokenPayload) (now ttl : ℕ)
    (jti ticket : String)
    (issued : create_ws_ticket jwt env user now ttl jti ≡ ok (ticket, ttl)) where
  -- A ticket that was issued is accepted until it expires, with the user's name, the narrowed
  -- scopes and the id under which it is consumed.
  pub ticket_round_trip :
      (later : ℕ)
      → now ≤ later
      → later < now + ttl
      → verify_ws_ticket jwt env later ticket
        ≡ ok (
          record { sub = user.sub; exp = now + ttl; iat = some now; scopes = narrowed user.scopes },
          jti,
        )
  ticket_round_trip later p q =
      let (key, k, e) = key_of_issued jwt env user now ttl jti ticket issued in
      let c = ticket_claims env user now ttl jti in
      rw (← e) (
        accepted_ticket jwt env later _ key c k (
          law.accepts c (ticket_checks env key) later (now + ttl) now refl q refl p refl
            (issuer_ok (truthy (Dict.get "JWT_ISSUER" env)))
            (inl (refl, λ h. cc), (inr (inl (refl, λ h. cc)), (inr (inr (refl, λ h. cc)), tt))))
        ∙ ticket_claims_ok env user now ttl jti)

  -- A ticket is no API token, unless the API itself expects the audience of tickets.
  pub ticket_not_token :
      (later : ℕ)
      → truthy (Dict.get "JWT_AUDIENCE" env) ≢ some ws_ticket_audience
      → (e : AppError) × (verify_token jwt env later ticket ≡ raise (refused e))
        × (e.status_code ≡ 401)
  ticket_not_token later p =
      let (key, k, e) = key_of_issued jwt env user now ttl jti ticket issued in
      rw (← e) (
        refused_token jwt env later _ key k (
          law.refuses (ticket_claims env user now ttl jti) (token_checks env key) later
            (λ h. p (sym h))))

-- An API token, whose audience is not that of tickets, is no ticket.
pub token_not_ticket :
    (jwt : Jwt) (law : IsJwt jwt) (env : Environment) (c : Claims) (key : String) (now : ℕ)
    → get_secret_key env ≡ some key
    → value_of c.aud ≢ some ws_ticket_audience
    → (e : AppError) × (verify_ws_ticket jwt env now (jwt.encode c key (get_algorithm env))
        ≡ raise (refused e))
      × (e.status_code ≡ 401)
token_not_ticket jwt law env c key now k p =
    refused_ticket jwt env now _ key k (law.refuses c (ticket_checks env key) now p)
