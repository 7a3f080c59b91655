-- ===== src/Wiring/Opening.antt =====
-- What `init_resources` leaves when it returns.
use modal_template_fastapi.Common.{
  ◌+◌, ◌≡◌, refl, sym, ap, ◌∙◌, String, Bool, true, false, Option, none, some, [], ◌∷◌, nat_keys,
  string_keys, ◌==◌, eq_iff, arith, Bool-cases, ◌⊎◌, inl, inr, subst,
}
use modal_template_fastapi.Common.Dict
use modal_template_fastapi.Domain.Exec.{Outcome, ok, Outcome-cases, resume_ok}
use modal_template_fastapi.Api.Auth.{Environment}
use modal_template_fastapi.Wiring.{
  Adapter, on_postgres, WiringError, Wiring, fresh, Outside, persistence_backend, event_bus_backend,
  needs_pool, validate_backend, validate_event_bus_backend, get_event_bus, build_event_bus,
  checked_required, required_env,
}
use modal_template_fastapi.Wiring.Start.{
  init_resources, close_resources, open_pool, start_bus, opened, migrated, started, clear_caches,
}

abbrev pub Known : String → Type 0
Known backend = (backend ≡ "memory") ⊎ (backend ≡ "postgres")

checked-Known :
    (variable : String) (environ : Environment) (backend : String)
    → checked_required variable environ backend (Dict.get backend required_env) ≡ ok tt
    → Known backend
unfolding Dict.get
checked-Known variable environ backend h = elim (Bool-cases ("memory" == backend)) [
  | inl m ↦ inl (sym ((eq_iff "memory" backend).0 m))
  | inr m ↦ elim (Bool-cases ("postgres" == backend)) [
    | inl p ↦ inr (sym ((eq_iff "postgres" backend).0 p))
    | inr p ↦ cc (rw (m, p) at h)
  ]
]

module _ (o : Outside) where
  migrated_ok :
      (m : Option String) (s s' : Wiring) → migrated o m s ≡ (ok tt, s') → s' ≡ clear_caches s
  migrated_ok none s s' h = ground (arith, h)
  migrated_ok (some e) s s' h = let (a, _, g) = resume_ok (close_resources o s) _ tt s' h in cc

  opened_ok :
      (c : Option String) (s s' : Wiring)
      → opened o c s ≡ (ok tt, s')
      → s'
        ≡ clear_caches (record s {
          pool = some s.next_pool;
          open_pools = s.next_pool ∷ s.open_pools;
          next_pool = s.next_pool + 1;
        })
  opened_ok none s s' h = migrated_ok o.migrate _ s' h
  opened_ok (some e) s s' h = cc

  started_ok :
      (c : Option String) (s s' : Wiring)
      → started c s ≡ (ok tt, s')
      → s' ≡ record s { pumping = true }
  started_ok none s s' h = ground (arith, h)
  started_ok (some e) s s' h = cc

-- What the process holds once the pool is open, where one is needed, and once the bus has started.
module _ (environ : Environment) where
  abbrev pub pooled : Bool → Wiring
  pooled true = record (fresh environ) { pool = some 0; open_pools = 0 ∷ []; next_pool = 1 }
  pooled false = fresh environ

  abbrev pub needed : Bool
  needed = needs_pool (persistence_backend environ) (event_bus_backend environ)

  abbrev pub resources : Bool → Bool → Wiring
  resources n true = record (pooled n) { event_bus = some (on_postgres 0); pumping = true }
  resources n false = pooled n

module _ (environ : Environment) where
  pub needs_of_bus : event_bus_backend environ ≡ "postgres" → needed environ ≡ true
  needs_of_bus h = ground (arith, eq_iff (event_bus_backend environ) "postgres", h)

module _ (o : Outside) (environ : Environment) where
  open_pool_ok :
      (s : Wiring) → open_pool o (fresh environ) ≡ (ok tt, s) → s ≡ pooled environ (needed environ)
  open_pool_ok s h = elim (Bool-cases (needed environ)) [
    | inl n ↦ rw n (opened_ok o o.create_pool (fresh environ) s (rw n at h))
    | inr n ↦ rw n (ground (arith, rw n at h))
  ]

  bus_is :
      event_bus_backend environ ≡ "postgres"
      → (a : Adapter) → (get_event_bus (pooled environ true)).0 ≡ ok a
      → (get_event_bus (pooled environ true)).1
        ≡ record (pooled environ true) { event_bus = some (on_postgres 0) }
  unfolding get_event_bus build_event_bus
  bus_is e a h = elim (Outcome-cases (validate_event_bus_backend environ "postgres")) [
    | inl (x, r) ↦ cc (rw (e, r) at h)
    | inr (x, r) ↦ rw (e, r) refl
  ]

  start_bus_ok :
      (n : Bool) (s : Wiring)
      → (event_bus_backend environ ≡ "postgres" → n ≡ true)
      → start_bus o (pooled environ n) ≡ (ok tt, s)
      → s ≡ resources environ n (event_bus_backend environ == "postgres")
  start_bus_ok true s k h = elim (Bool-cases (event_bus_backend environ == "postgres")) [
    | inr x ↦ rw x (ground (arith, rw x at h))
    | inl x ↦
        let (a, e, g) = resume_ok (get_event_bus (pooled environ true)) _ tt s (rw x at h) in
        rw x (
          started_ok o o.start_bus _ s g
          ∙ ap {A = Wiring} (λ w. record w { pumping = true })
              (bus_is ((eq_iff _ "postgres").0 x) a e))
  ]
  start_bus_ok false s k h = elim (Bool-cases (event_bus_backend environ == "postgres")) [
    | inr x ↦ rw x (ground (arith, rw x at h))
    | inl x ↦ cc (k ((eq_iff _ "postgres").0 x))
  ]

  pub init_resources_ok :
      (s : Wiring)
      → init_resources o (fresh environ) ≡ (ok tt, s)
      → Known (persistence_backend environ)
        × Known (event_bus_backend environ)
        × (s ≡ resources environ (needed environ) (event_bus_backend environ == "postgres"))
  unfolding init_resources validate_backend validate_event_bus_backend
  init_resources_ok s h =
      let (_, vp, h1) =
        resume_ok (validate_backend environ (persistence_backend environ), fresh environ) _ tt s
          h in
      let (_, vb, h2) =
        resume_ok (validate_event_bus_backend environ (event_bus_backend environ), fresh environ) _
          tt s h1 in
      let (_, eo, h3) = resume_ok (open_pool o (fresh environ)) _ tt s h2 in
      let opened_state = (open_pool o (fresh environ)).1 in
      let state_is : opened_state ≡ pooled environ (needed environ) =
        open_pool_ok opened_state
          (ap {A = Outcome WiringError (Unit {0})} (λ x. (x, opened_state)) eo) in
      (
        checked-Known "PERSISTENCE_BACKEND" environ (persistence_backend environ) vp,
        checked-Known "EVENT_BUS_BACKEND" environ (event_bus_backend environ) vb,
        start_bus_ok (needed environ) s (needs_of_bus environ)
            (subst (λ t. start_bus o t ≡ (ok tt, s)) state_is h3),
      )
