-- ===== src/Wiring/Building.antt =====
-- What the cached factories build, and what they leave in their caches.
use modal_template_fastapi.Common.{
  ℕ, ◌≡◌, sym, String, Option, none, some, nat_keys, string_keys, ◌==◌, eq_iff, arith, Bool-cases,
  inl, inr, subst, if◌then◌else◌,
}
use mathlib.Core.Option
use modal_template_fastapi.Domain.Exec.{Outcome, ok, raise}
use modal_template_fastapi.Wiring.{
  Adapter, in_memory, on_postgres, WiringError, Wiring, persistence_backend, event_bus_backend,
  get_repository, get_event_bus, get_webhook_store, get_ticket_store, build_repository,
  build_event_bus, build_store, by_backend, after_check, cached, require_pool,
}

-- The adapter that a backend stands for.
abbrev pub chosen : String → Option ℕ → Option Adapter
chosen backend pool = if backend == "postgres" then Option.map on_postgres pool else some in_memory

of_pool :
    (what : String) (pool : Option ℕ) (a : Adapter)
    → require_pool what pool ≡ ok a
    → some a ≡ Option.map on_postgres pool
of_pool what none a h = cc
of_pool what (some p) a h = ground (arith, h)

by_backend-chosen :
    (backend : String) (pool : Option ℕ) (a : Adapter)
    → by_backend backend pool ≡ ok a
    → some a ≡ chosen backend pool
by_backend-chosen backend pool a h = elim (Bool-cases (backend == "memory")) [
  | inl m ↦
      subst (λ b. by_backend b pool ≡ ok a → some a ≡ chosen b pool)
        (sym ((eq_iff backend "memory").0 m)) (λ g. ground (arith, g)) h
  | inr m ↦ elim (Bool-cases (backend == "postgres")) [
    | inl p ↦ rw p (of_pool backend pool a (rw (m, p) at h))
    | inr p ↦ cc (rw (m, p) at h)
  ]
]

after_check-ok :
    (c : Outcome WiringError (Unit {0})) (b : Outcome WiringError Adapter) (a : Adapter)
    → after_check c b ≡ ok a
    → b ≡ ok a
after_check-ok (ok _) b a h = h
after_check-ok (raise e) b a h = cc

module _ (b : Outcome WiringError Adapter) (hold : Adapter → Wiring) (s : Wiring) where
  cached_ok :
      (c : Option Adapter) (a : Adapter)
      → c ≡ none
      → (cached c b hold s).0 ≡ ok a
      → (b ≡ ok a) × ((cached c b hold s).1 ≡ hold a)
  cached_ok none a n h = of_built b a h
    where
      of_built :
          (x : Outcome WiringError Adapter) (y : Adapter)
          → (cached none x hold s).0 ≡ ok y
          → (x ≡ ok y) × ((cached none x hold s).1 ≡ hold y)
      of_built (ok x) y h = (h, ground (arith, h))
      of_built (raise e) y h = cc
  cached_ok (some x) a n h = cc

  cached_hit : (c : Option Adapter) (x : Adapter) → c ≡ some x → cached c b hold s ≡ (ok x, s)
  cached_hit none x e = cc
  cached_hit (some y) x e = ground (arith, e)

module _ (s : Wiring) (a : Adapter) where
  pub repository_ok :
      s.repository ≡ none
      → (get_repository s).0 ≡ ok a
      → (some a ≡ chosen (persistence_backend s.environ) s.pool)
        × ((get_repository s).1 ≡ record s { repository = some a })
  unfolding get_repository build_repository
  repository_ok n h =
      let (b, e) =
        cached_ok (build_repository s) (λ x. record s { repository = some x }) s s.repository a n
          h in
      (by_backend-chosen _ s.pool a (after_check-ok _ _ a b), e)

  pub event_bus_ok :
      s.event_bus ≡ none
      → (get_event_bus s).0 ≡ ok a
      → (some a ≡ chosen (event_bus_backend s.environ) s.pool)
        × ((get_event_bus s).1 ≡ record s { event_bus = some a })
  unfolding get_event_bus build_event_bus
  event_bus_ok n h =
      let (b, e) =
        cached_ok (build_event_bus s) (λ x. record s { event_bus = some x }) s s.event_bus a n h in
      (by_backend-chosen _ s.pool a (after_check-ok _ _ a b), e)

  pub event_bus_hit : s.event_bus ≡ some a → get_event_bus s ≡ (ok a, s)
  unfolding get_event_bus
  event_bus_hit e =
      cached_hit (build_event_bus s) (λ x. record s { event_bus = some x }) s s.event_bus a e

  built_store :
      (what : String)
      → build_store what s ≡ ok a
      → some a ≡ chosen (event_bus_backend s.environ) s.pool
  unfolding build_store
  built_store what h = elim (Bool-cases (event_bus_backend s.environ == "postgres")) [
    | inl p ↦ rw p (of_pool what s.pool a (rw p at h))
    | inr p ↦ rw p (ground (arith, rw p at h))
  ]

  pub webhook_store_ok :
      s.webhook_store ≡ none
      → (get_webhook_store s).0 ≡ ok a
      → (some a ≡ chosen (event_bus_backend s.environ) s.pool)
        × ((get_webhook_store s).1 ≡ record s { webhook_store = some a })
  unfolding get_webhook_store
  webhook_store_ok n h =
      let (b, e) =
        cached_ok (build_store "The webhook store" s) (λ x. record s { webhook_store = some x }) s
          s.webhook_store a n h in
      (built_store "The webhook store" b, e)

  pub ticket_store_ok :
      s.ticket_store ≡ none
      → (get_ticket_store s).0 ≡ ok a
      → (some a ≡ chosen (event_bus_backend s.environ) s.pool)
        × ((get_ticket_store s).1 ≡ record s { ticket_store = some a })
  unfolding get_ticket_store
  ticket_store_ok n h =
      let (b, e) =
        cached_ok (build_store "The ticket store" s) (λ x. record s { ticket_store = some x }) s
          s.ticket_store a n h in
      (built_store "The ticket store" b, e)
