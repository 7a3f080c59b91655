-- ===== src/Deploy/Settings.antt =====
-- The numbers that utils/config.py reads from the environment when it is imported, in its order. The
-- first one that is wrong ends the import.
use modal_template_fastapi.Common.{ℕ, ◌≤◌, ◌≡◌, String, [], ◌∷◌, All, arith, inl, inr}
use modal_template_fastapi.Common.Dict.{Dict}
use modal_template_fastapi.Common.Text.{Unicode}
use modal_template_fastapi.Domain.Exec.{Outcome, ok, raise, Outcome-cases}
use modal_template_fastapi.Api.Auth.{Environment}
use modal_template_fastapi.Deploy.{SettingError, positive_int}
use modal_template_fastapi.Deploy.Limits.{positive_int_positive}

-- each name with its default
abbrev pub defaults : Dict String ℕ
defaults =
    ("STREAM_MAX_CONNECTIONS", 50)
    ∷ ("STREAM_HEARTBEAT_SECONDS", 15)
    ∷ ("STREAM_MAX_DURATION_SECONDS", 120)
    ∷ ("WS_MAX_MESSAGE_BYTES", 4096)
    ∷ ("WS_TICKET_TTL_SECONDS", 30)
    ∷ ("WEBHOOK_TOLERANCE_SECONDS", 300)
    ∷ ("WEBHOOK_MAX_BODY_BYTES", 1048576)
    ∷ ("EVENT_BUS_POLL_MS", 1000)
    ∷ ("EVENT_RETENTION_SECONDS", 3600)
    ∷ ("EVENT_REPLAY_SIZE", 100)
    ∷ ("WEBHOOK_IDEMPOTENCY_TTL_SECONDS", 86400)
    ∷ ("RATE_TICKET_PER_MINUTE", 30)
    ∷ ("RATE_WEBHOOK_PER_MINUTE", 1200)
    ∷ ("RATE_WS_MESSAGES_PER_SECOND", 10)
    ∷ ("MIGRATION_LOCK_TIMEOUT_SECONDS", 120)
    ∷ ("MIGRATION_STATEMENT_TIMEOUT_SECONDS", 300)
    ∷ []

unfoldable pub read_all :
    Unicode → Environment → Dict String ℕ → Outcome SettingError (Dict String ℕ)
read_all u environ [] = ok []
read_all u environ ((name, default) ∷ rest) = elim (positive_int u environ name default) [
  | raise e ↦ raise e
  | ok n ↦ elim (read_all u environ rest) [
    | raise e ↦ raise e
    | ok settings ↦ ok ((name, n) ∷ settings)
  ]
]

-- the module, as it is imported
unfoldable pub read_settings : Unicode → Environment → Outcome SettingError (Dict String ℕ)
unfolding read_all
read_settings u environ = read_all u environ defaults

read_all-positive :
    (u : Unicode) (environ : Environment) (ds settings : Dict String ℕ)
    → All (λ d. 1 ≤ d.1) ds
    → read_all u environ ds ≡ ok settings
    → All (λ s. 1 ≤ s.1) settings
unfolding read_all
read_all-positive u environ [] settings p h = ground arith
read_all-positive u environ ((name, default) ∷ rest) settings p h =
    elim (Outcome-cases (positive_int u environ name default)) [
      | inl (e, k) ↦ ground arith
      | inr (n, k) ↦ elim (Outcome-cases (read_all u environ rest)) [
        | inl (e, l) ↦ ground arith
        | inr (later, l) ↦
            let q = positive_int_positive u environ name default n p.0 k in
            let r = read_all-positive u environ rest later p.1 l in ground (arith, q, r)
      ]
    ]

-- Whatever the environment holds, if the configuration can be read then every number in it is
-- positive.
pub read_settings_positive :
    (u : Unicode) (environ : Environment) (settings : Dict String ℕ)
    → read_settings u environ ≡ ok settings
    → All (λ s. 1 ≤ s.1) settings
unfolding read_settings
read_settings_positive u environ settings h =
    read_all-positive u environ defaults settings (ground arith) h
