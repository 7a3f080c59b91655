-- ===== src/Repo/Postgres/Pool.antt =====
-- `_int_env`, `_ssl_setting` and `create_pool` of adapters/persistence/postgres.py: what asyncpg is
-- asked for. `urlsplit` is a parameter.
use modal_template_fastapi.Common.{
  ℕ, ◌≤◌, ◌≡◌, String, not, Option, none, some, List, [], ◌∷◌, any, min, ltb, string_keys, ◌==◌,
  arith, inl, inr, if◌then◌else◌,
}
use modal_template_fastapi.Common.Dict
use modal_template_fastapi.Common.Text.{
  Unicode, ℤ, pos, negsuc, int_of, strip, is_empty, map_text, contains,
}
use modal_template_fastapi.Domain.Exec.{Outcome, ok, raise, Outcome-cases}
use modal_template_fastapi.Api.Auth.{Environment}

-- The RuntimeError, with what its text names.
pub data PoolError : Type 0 where
  not_an_integer : String → String → PoolError
  below_one : String → ℤ → PoolError

abbrev pub at_least_one : String → ℤ → Outcome PoolError ℕ
at_least_one name (negsuc n) = raise (below_one name (negsuc n))
at_least_one name (pos n) = if ltb n 1 then raise (below_one name (pos n)) else ok n

abbrev pub parsed : String → String → Option ℤ → Outcome PoolError ℕ
parsed name raw none = raise (not_an_integer name raw)
parsed name raw (some value) = at_least_one name value

abbrev pub given : Unicode → String → ℕ → Option String → Outcome PoolError ℕ
given u name default none = ok default
given u name default (some raw) =
    if is_empty (strip raw) then ok default else parsed name raw (int_of u raw)

-- `_int_env`
unfoldable pub int_env : Unicode → Environment → String → ℕ → Outcome PoolError ℕ
int_env u environ name default = given u name default (Dict.get name environ)

-- What `urlsplit` tells of a DSN; an absent part is empty.
pub record Split : Type 0 where
  pub query : String
  pub hostname : String

abbrev pub local_hosts : List String
local_hosts = "localhost" ∷ "127.0.0.1" ∷ "::1" ∷ "host.docker.internal" ∷ []

abbrev pub turned_off : List String
turned_off = "disable" ∷ "false" ∷ "0" ∷ []

abbrev pub text_or_empty : Option String → String
text_or_empty none = ""
text_or_empty (some s) = s

-- `_ssl_setting`
unfoldable pub ssl_setting : Unicode → (String → Split) → Environment → String → Option String
ssl_setting u urlsplit environ dsn =
    let override = map_text u.to_lower (strip (text_or_empty (Dict.get "DATABASE_SSL" environ))) in
    let parts = urlsplit dsn in
    if not (is_empty override)
    then if any (λ o. o == override) turned_off then none else some override
    else if contains "sslmode=" parts.query
    then none
    else if any (λ h. h == parts.hostname) local_hosts
    then none
    else some "require"

-- The arguments of `asyncpg.create_pool`; `statement_cache_size` is always 0.
pub record PoolArguments : Type 0 where
  pub dsn : String
  pub min_size : ℕ
  pub max_size : ℕ
  pub command_timeout : ℕ
  pub statement_cache_size : ℕ
  pub ssl : Option String

-- `create_pool`, up to the call of asyncpg
unfoldable pub create_pool :
    Unicode → (String → Split) → Environment → String → Outcome PoolError PoolArguments
unfolding int_env ssl_setting
create_pool u urlsplit environ dsn = elim (int_env u environ "DB_POOL_MAX_SIZE" 5) [
  | raise e ↦ raise e
  | ok max_size ↦ elim (int_env u environ "DB_POOL_MIN_SIZE" 1) [
    | raise e ↦ raise e
    | ok min_size ↦ elim (int_env u environ "DB_COMMAND_TIMEOUT_SECONDS" 10) [
      | raise e ↦ raise e
      | ok command_timeout ↦ ok (record {
        dsn = dsn;
        min_size = min min_size max_size;
        max_size = max_size;
        command_timeout = command_timeout;
        statement_cache_size = 0;
        ssl = ssl_setting u urlsplit environ dsn;
      })
    ]
  ]
]

int_env-positive :
    (u : Unicode) (environ : Environment) (name : String) (default n : ℕ)
    → 1 ≤ default
    → int_env u environ name default ≡ ok n
    → 1 ≤ n
unfolding int_env
int_env-positive u environ name default n l h = ground (arith, l, h)

-- Whatever the environment holds, a pool that is asked for has at least one connection, no fewer at
-- most than at least, at least a second for a command, and no statement cache.
pub create_pool_bounds :
    (u : Unicode) (urlsplit : String → Split) (environ : Environment) (dsn : String)
    (a : PoolArguments)
    → create_pool u urlsplit environ dsn ≡ ok a
    → (1 ≤ a.min_size)
      × (a.min_size ≤ a.max_size)
      × (1 ≤ a.command_timeout)
      × (a.statement_cache_size ≡ 0)
unfolding create_pool
create_pool_bounds u urlsplit environ dsn a h =
    elim (Outcome-cases (int_env u environ "DB_POOL_MAX_SIZE" 5)) [
      | inl (e, p) ↦ ground arith
      | inr (most, p) ↦ elim (Outcome-cases (int_env u environ "DB_POOL_MIN_SIZE" 1)) [
        | inl (e, q) ↦ ground arith
        | inr (least, q) ↦
            elim (Outcome-cases (int_env u environ "DB_COMMAND_TIMEOUT_SECONDS" 10)) [
              | inl (e, r) ↦ ground arith
              | inr (seconds, r) ↦ ground (
                arith,
                int_env-positive u environ "DB_POOL_MAX_SIZE" 5 most (omega arith) p,
                int_env-positive u environ "DB_POOL_MIN_SIZE" 1 least (omega arith) q,
                int_env-positive u environ "DB_COMMAND_TIMEOUT_SECONDS" 10 seconds (omega arith) r,
              )
            ]
      ]
    ]
