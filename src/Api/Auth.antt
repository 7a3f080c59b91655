-- ===== src/Api/Auth.antt =====
-- api/auth.py and api/event_access.py. PyJWT is a parameter, `Jwt`; the environment is a dict.
pub mod Scopes
pub mod Tickets
use mathlib.Core.Bool.{◌||◌}
use Prim.Native.String
use modal_template_fastapi.Common.{
  ℕ, zero, suc, ◌+◌, ◌≡◌, String, Bool, true, false, not, ◌&&◌, Option, none, some, List, [], ◌∷◌,
  any, all, keep, ltb, string_keys, ◌==◌, if◌then◌else◌,
}
use modal_template_fastapi.Common.Dict
use modal_template_fastapi.Common.Dict.{Dict}
use modal_template_fastapi.Common.Text.{◌⧺◌, is_empty}
use modal_template_fastapi.Domain.Exec.{Outcome, ok, raise}
use modal_template_fastapi.Api.Errors.{AppError, Headers, app_error}

abbrev pub Environment : Type 0
Environment = Dict String String

-- A claim of a token: absent, of a type that `TokenPayload` refuses (with its `str`), or given.
-- A fractional time is given by its whole part, as the validator of `exp` and `iat` truncates it.
pub data Claim (A : Type 0) : Type 0 where
  absent : Claim A
  malformed : String → Claim A
  given : A → Claim A

pub record Claims : Type 0 where
  pub sub : Claim String
  pub exp : Claim ℕ
  pub iat : Claim ℕ
  pub jti : Claim String
  pub aud : Claim String
  pub iss : Claim String
  pub scopes : Claim (List String)

pub record TokenPayload : Type 0 where
  pub sub : String
  pub exp : ℕ
  pub iat : Option ℕ
  pub scopes : List String

abbrev or_else : {A : Type 0} → A → Claim A → Option A
or_else d absent = some d
or_else d (malformed s) = none
or_else d (given a) = some a

abbrev to_option : {A : Type 0} → Claim A → Claim (Option A)
to_option absent = given none
to_option (malformed s) = malformed s
to_option (given a) = given (some a)

validated : Claim String → Claim ℕ → Claim (Option ℕ) → Option (List String) → Option TokenPayload
validated (given sub) (given exp) (given iat) (some scopes) =
    some (record { sub = sub; exp = exp; iat = iat; scopes = scopes })
validated _ _ _ _ = none

-- `TokenPayload.model_validate`; `none` is its ValidationError
unfoldable pub model_validate : Claims → Option TokenPayload
unfolding validated
model_validate c = validated c.sub c.exp (to_option c.iat) (or_else [] c.scopes)

pub data JwtError : Type 0 where
  expired invalid : JwtError

-- What `jwt.decode` is asked to check.
pub record Checks : Type 0 where
  pub key : String
  pub algorithm : String
  pub required : List String
  pub audience : Option String
  pub issuer : Option String

-- PyJWT: `decode` at a time, and `encode` with a key and an algorithm.
pub record Jwt : Type 0 where
  pub decode : ℕ → Checks → String → Outcome JwtError Claims
  pub encode : Claims → String → String → String

abbrev pub min_secret_length : ℕ
min_secret_length = 32

-- `ALLOWED_ALGORITHMS`
abbrev pub allowed_algorithms : List String
allowed_algorithms = "HS256" ∷ "HS384" ∷ "HS512" ∷ []

abbrev pub member : String → List String → Bool
member x = any (λ y. y == x)

abbrev or_default : String → Option String → String
or_default d none = d
or_default d (some s) = s

-- `_get_algorithm`
unfoldable pub get_algorithm : Environment → String
get_algorithm env = or_default "HS256" (Dict.get "JWT_ALGORITHM" env)

-- a variable that is unset or empty counts as missing
abbrev pub truthy : Option String → Option String
truthy none = none
truthy (some s) = if is_empty s then none else some s

-- `_get_secret_key`; `none` is its RuntimeError
unfoldable pub get_secret_key : Environment → Option String
get_secret_key env = truthy (Dict.get "JWT_SECRET" env)

pub data ConfigError : Type 0 where
  secret_missing algorithm_unsupported secret_short : ConfigError

-- `validate_auth_config`; `none` means that it returns
unfoldable pub validate_auth_config : Environment → Option ConfigError
unfolding get_secret_key get_algorithm
validate_auth_config env = elim (get_secret_key env) [
  | none ↦ some secret_missing
  | some key ↦
      if not (member (get_algorithm env) allowed_algorithms)
      then some algorithm_unsupported
      else if ltb (String.count key) min_secret_length
      then some secret_short
      else none
]

-- `_unauthorized`
abbrev pub unauthorized : String → String → AppError
unauthorized error_code message = record {
  status_code = 401;
  error_code = error_code;
  message = message;
  headers = ("WWW-Authenticate", "Bearer") ∷ [];
}

-- What the requests of the two token kinds may end in: an AppError, or the RuntimeError of a missing
-- secret or the KeyError of a missing claim, which no handler expects.
pub data AuthError : Type 0 where
  refused : AppError → AuthError
  misconfigured missing_claim : AuthError

abbrev pub validated_or : AppError → Option TokenPayload → Outcome AuthError TokenPayload
validated_or e none = raise (refused e)
validated_or e (some p) = ok p

-- The two `except` clauses, and the validation of the claims.
abbrev pub token_of : AppError → AppError → Outcome JwtError Claims → Outcome AuthError TokenPayload
token_of late bad (ok claims) = validated_or bad (model_validate claims)
token_of late bad (raise expired) = raise (refused late)
token_of late bad (raise invalid) = raise (refused bad)

-- `_decode_options`, and the other arguments of `verify_token`'s call of `jwt.decode`
abbrev pub token_checks : Environment → String → Checks
token_checks env key = record {
  key = key;
  algorithm = get_algorithm env;
  required = "exp" ∷ "sub" ∷ [];
  audience = truthy (Dict.get "JWT_AUDIENCE" env);
  issuer = truthy (Dict.get "JWT_ISSUER" env);
}

module _ (jwt : Jwt) (env : Environment) (now : ℕ) where
  -- verify_token
  unfoldable pub verify_token : String → Outcome AuthError TokenPayload
  verify_token token = elim (get_secret_key env) [
    | none ↦ raise misconfigured
    | some key ↦
        token_of (unauthorized "TOKEN_EXPIRED" "Token has expired")
          (unauthorized "INVALID_TOKEN" "Invalid token")
          (jwt.decode now (token_checks env key) token)
  ]

  -- get_current_user; the argument is the Bearer token, if the header holds one
  unfoldable pub get_current_user : Option String → Outcome AuthError TokenPayload
  unfolding verify_token
  get_current_user none =
      raise (refused (unauthorized "MISSING_TOKEN" "Authorization header missing or malformed"))
  get_current_user (some credentials) = verify_token credentials
