-- ===== src/Deploy/Limits.antt =====
-- The limits that a checked `EnvConfig` of modal_common.py gives to the application.
use modal_template_fastapi.Common.{
  ℕ, ◌+◌, ◌-◌, ◌≤◌, ◌<◌, ◌≡◌, refl, ◌∙◌, String, false, none, some, ltb, arith, string_keys, ◌==◌,
  ==_refl,
}
use modal_template_fastapi.Common.Dict
use modal_template_fastapi.Common.Dict.{Dict, get-put}
use modal_template_fastapi.Common.Text.{Unicode, pos, int_of, strip, is_empty}
use modal_template_fastapi.Domain.Exec.{ok}
use modal_template_fastapi.Api.Auth.{Environment}
use modal_template_fastapi.Deploy.{EnvConfig, post_init, set_limits, setdefault, positive_int}

-- The numbers of a configuration that `__post_init__` lets pass.
post_init_bounds :
    (c : EnvConfig)
    → post_init c ≡ ok tt
    → (1 ≤ c.max_streams)
      × (c.max_streams < c.max_concurrent_requests)
      × (c.stream_timeout_margin_seconds + 10 ≤ c.server_hard_timeout_seconds)
      × (1 ≤ c.stream_heartbeat_seconds)
      × (c.stream_heartbeat_seconds ≤ 30)
unfolding post_init
post_init_bounds c h = ground arith

-- What `_positive_int` reads back is a positive number.
pub positive_int_positive :
    (u : Unicode) (environ : Environment) (name : String) (default n : ℕ)
    → 1 ≤ default
    → positive_int u environ name default ≡ ok n
    → 1 ≤ n
unfolding positive_int
positive_int_positive u environ name default n p h = ground arith

get_other :
    (key j value : String) (environ : Environment)
    → (key == j) ≡ false
    → Dict.get j (setdefault key value environ) ≡ Dict.get j environ
get_other key j value environ h = ground (arith, get-put key j value environ)

get_own :
    (key value : String) (environ : Environment)
    → Dict.get key environ ≡ none
    → Dict.get key (setdefault key value environ) ≡ some value
get_own key value environ h = rw h (simp (get-put, ==_refl))

-- `int` reads back what `str` writes for this number, and the text is not blank.
abbrev pub Readable : Unicode → (ℕ → String) → ℕ → Type 0
Readable u decimal n =
    (int_of u (decimal n) ≡ some (pos n)) × (is_empty (strip (decimal n)) ≡ false)

read_back :
    (u : Unicode) (decimal : ℕ → String) (environ : Environment) (name : String) (default n : ℕ)
    → Readable u decimal n
    → 1 ≤ n
    → Dict.get name environ ≡ some (decimal n)
    → positive_int u environ name default ≡ ok n
unfolding positive_int
read_back u decimal environ name default n d p h =
    let q : ltb n 1 ≡ false = ground arith in
    rw (h, positive_int)
      (rw (d.1, positive_int) (rw (d.0, positive_int) (rw (q, positive_int) refl)))

-- The application reads back the stream limits of a configuration that passed its checks, from an
-- environment that did not set them, provided that `int` reads what `str` writes for these two.
pub limits_round_trip :
    (u : Unicode) (decimal : ℕ → String) (c : EnvConfig) (environ : Environment) (default : ℕ)
    → Readable u decimal c.max_streams
    → Readable u decimal (c.server_hard_timeout_seconds - c.stream_timeout_margin_seconds)
    → post_init c ≡ ok tt
    → Dict.get "STREAM_MAX_CONNECTIONS" environ ≡ none
    → Dict.get "STREAM_MAX_DURATION_SECONDS" environ ≡ none
    → (positive_int u (set_limits decimal c environ) "STREAM_MAX_CONNECTIONS" default
        ≡ ok c.max_streams)
      × (positive_int u (set_limits decimal c environ) "STREAM_MAX_DURATION_SECONDS" default
          ≡ ok (c.server_hard_timeout_seconds - c.stream_timeout_margin_seconds))
unfolding set_limits
limits_round_trip u decimal c environ default d d' h k l =
    let (some_streams, _, room, _, _) = post_init_bounds c h in
    (
      read_back u decimal _ "STREAM_MAX_CONNECTIONS" default c.max_streams d some_streams (
          get_other "STREAM_MAX_DURATION_SECONDS" "STREAM_MAX_CONNECTIONS" _ _ refl
          ∙ (get_other "OTEL_METRIC_EXPORT_INTERVAL_MS" "STREAM_MAX_CONNECTIONS" _ _ refl
              ∙ (get_other "STREAM_HEARTBEAT_SECONDS" "STREAM_MAX_CONNECTIONS" _ _ refl
                  ∙ get_own "STREAM_MAX_CONNECTIONS" _ environ k))),
      read_back u decimal _ "STREAM_MAX_DURATION_SECONDS" default _ d' (omega (arith, room)) (
          get_own "STREAM_MAX_DURATION_SECONDS" _ _ (
            get_other "OTEL_METRIC_EXPORT_INTERVAL_MS" "STREAM_MAX_DURATION_SECONDS" _ _ refl
            ∙ (get_other "STREAM_HEARTBEAT_SECONDS" "STREAM_MAX_DURATION_SECONDS" _ _ refl
                ∙ (get_other "STREAM_MAX_CONNECTIONS" "STREAM_MAX_DURATION_SECONDS" _ _ refl
                    ∙ l)))),
    )
