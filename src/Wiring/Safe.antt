-- ===== src/Wiring/Safe.antt =====
-- What a process that has started, or failed to, looks like.
use modal_template_fastapi.Common.{
  ℕ, ◌≡◌, refl, sym, ap, ◌∙◌, String, Bool, true, false, not, ◌&&◌, Option, none, some, List, [],
  ◌∷◌, ◌++◌, nat_keys, string_keys, ◌==◌, eq_iff, arith, Bool-cases, ◌⊎◌, inl, inr, subst,
  if◌then◌else◌,
}
use modal_template_fastapi.Common.Dict
use modal_template_fastapi.Common.Text.{Unicode, strip, map_text}
use modal_template_fastapi.Domain.Exec.{Outcome, ok, raise, Exec, resume, ok_unique, resume_ok}
use modal_template_fastapi.Api.Auth.{Environment}
use modal_template_fastapi.Repo.Postgres.Pool.{text_or_empty}
use modal_template_fastapi.Wiring.{
  Adapter, on_postgres, WiringError, Wiring, fresh, Outside, persistence_backend, event_bus_backend,
  get_repository, get_event_bus, get_webhook_store, get_ticket_store,
}
use modal_template_fastapi.Wiring.Start.{
  init_resources, init_dependencies, close_resources, startup, refuse_memory_in_prod, guarded,
  refused, named_memory,
}
use modal_template_fastapi.Wiring.Opening.{
  Known, needed, resources, needs_of_bus, init_resources_ok,
}
use modal_template_fastapi.Wiring.Building.{
  chosen, repository_ok, event_bus_ok, event_bus_hit, webhook_store_ok, ticket_store_ok,
}

-- The four factories, from caches that hold at most the bus.
module _ (t : Wiring) where
  abbrev pub pers : Option Adapter
  pers = chosen (persistence_backend t.environ) t.pool

  abbrev pub shared : Option Adapter
  shared = chosen (event_bus_backend t.environ) t.pool

  abbrev wired : Option Adapter → Option Adapter → Option Adapter → Option Adapter → Wiring
  wired r b w k = record t { repository = r; event_bus = b; webhook_store = w; ticket_store = k }

  wired-same :
      (r b w k r' b' w' k' : Option Adapter)
      → r ≡ r'
      → b ≡ b'
      → w ≡ w'
      → k ≡ k'
      → wired r b w k ≡ wired r' b' w' k'
  wired-same r b w k r' b' w' k' p q x y = cc

  abbrev pub built : Wiring
  built = wired pers shared shared shared

module _ (t : Wiring) where
  bus_known :
      (a : Adapter)
      → (t.event_bus ≡ none) ⊎ ((x : Adapter) × (t.event_bus ≡ some x) × (some x ≡ shared t))
      → (get_event_bus t).0 ≡ ok a
      → (some a ≡ shared t) × ((get_event_bus t).1 ≡ record t { event_bus = some a })
  bus_known a (inl n) h = event_bus_ok t a n h
  bus_known a (inr (x, e, c)) h =
      let hit : get_event_bus t ≡ (ok x, t) = event_bus_hit t x e in
      let same : x ≡ a =
        ok_unique (ap {A = Outcome WiringError Adapter × Wiring} (λ r. r.0) hit) h in
      (
        ap some (sym same) ∙ c,
        ap {A = Outcome WiringError Adapter × Wiring} (λ r. r.1) hit
            ∙ ap {A = Option Adapter} (λ o. record t { event_bus = o }) (e ∙ ap some same),
      )

module _ (t : Wiring) where
  init_dependencies_ok :
      (u : Unicode) (s : Wiring)
      → t.repository ≡ none
      → (t.event_bus ≡ none) ⊎ ((x : Adapter) × (t.event_bus ≡ some x) × (some x ≡ shared t))
      → t.webhook_store ≡ none
      → t.ticket_store ≡ none
      → init_dependencies u t ≡ (ok tt, s)
      → (refuse_memory_in_prod u t.environ
            (persistence_backend t.environ)
            (event_bus_backend t.environ)
          ≡ ok tt)
        × (s ≡ built t)
  unfolding init_dependencies
  init_dependencies_ok u s rn bn wn tn h =
      let (_, refusal, h1) = resume_ok (_, t) _ tt s h in
      let (a1, r1, h2) = resume_ok (get_repository t) _ tt s h1 in
      let (c1, e1) = repository_ok t a1 rn r1 in
      let t1 : Wiring = record t { repository = some a1 } in
      let (a2, r2, h3) =
        resume_ok (get_event_bus t1) after_bus tt s
          (subst (λ x. resume (get_event_bus x) after_bus ≡ (ok tt, s)) e1 h2) in
      let (c2, e2) = bus_known t1 a2 bn r2 in
      let t2 : Wiring = record t1 { event_bus = some a2 } in
      let (a3, r3, h4) =
        resume_ok (get_webhook_store t2) after_webhooks tt s
          (subst (λ x. resume (get_webhook_store x) after_webhooks ≡ (ok tt, s)) e2 h3) in
      let (c3, e3) = webhook_store_ok t2 a3 wn r3 in
      let t3 : Wiring = record t2 { webhook_store = some a3 } in
      let (a4, r4, h5) =
        resume_ok (get_ticket_store t3) after_tickets tt s
          (subst (λ x. resume (get_ticket_store x) after_tickets ≡ (ok tt, s)) e3 h4) in
      let (c4, e4) = ticket_store_ok t3 a4 tn r4 in
      (
        refusal,
        sym (ap {A = Outcome WiringError (Unit {0}) × Wiring} (λ r. r.1) h5)
            ∙ (e4 ∙ wired-same t _ _ _ _ _ _ _ _ c1 c2 c3 c4),
      )
    where
      after_tickets : Adapter → Exec Wiring WiringError (Unit {0})
      after_tickets _ x = (ok tt, x)

      after_webhooks : Adapter → Exec Wiring WiringError (Unit {0})
      after_webhooks _ x = resume (get_ticket_store x) after_tickets

      after_bus : Adapter → Exec Wiring WiringError (Unit {0})
      after_bus _ x = resume (get_webhook_store x) after_webhooks

abbrev pub list_of : Option ℕ → List ℕ
list_of none = []
list_of (some p) = p ∷ []

abbrev pub in_prod : Unicode → Environment → Bool
in_prod u environ =
    (text_or_empty (Dict.get "MODAL_ENV" environ) == "prod")
    && not (
        map_text u.to_lower (strip (text_or_empty (Dict.get "ALLOW_MEMORY_IN_PROD" environ)))
        == "true")

refused_memory :
    (u : Unicode) (environ : Environment) (p b : String)
    → in_prod u environ ≡ true
    → refuse_memory_in_prod u environ p b ≡ ok tt
    → ((p == "memory") ≡ false) × ((b == "memory") ≡ false)
unfolding refuse_memory_in_prod
refused_memory u environ p b i h = elim (Bool-cases (p == "memory")) [
  | inl m ↦ cc (rw m at refuses)
  | inr m ↦ elim (Bool-cases (b == "memory")) [ inl n ↦ cc (rw (m, n) at refuses) | inr n ↦ (m, n) ]
]
  where
    refuses :
        refused
          (named_memory "PERSISTENCE_BACKEND=memory" p ++ named_memory "EVENT_BUS_BACKEND=memory" b)
        ≡ ok tt
    refuses = ground (arith, i, h)

guarded_ok :
    (o : Outside) (r : Outcome WiringError (Unit {0}) × Wiring) (s : Wiring)
    → guarded o r ≡ (ok tt, s)
    → r ≡ (ok tt, s)
guarded_ok o (ok _, t) s h = h
guarded_ok o (raise e, t) s h = let (_, _, g) = resume_ok (close_resources o t) _ tt s h in cc

-- The process serves with these adapters.
pub record Serving (environ : Environment) (s : Wiring) : Type 0 where
  pub pool_is : s.pool ≡ (if needed environ then some 0 else none)
  pub pools_are : s.open_pools ≡ list_of s.pool
  pub repository_is : s.repository ≡ chosen (persistence_backend environ) s.pool
  pub event_bus_is : s.event_bus ≡ chosen (event_bus_backend environ) s.pool
  pub webhook_store_is : s.webhook_store ≡ chosen (event_bus_backend environ) s.pool
  pub ticket_store_is : s.ticket_store ≡ chosen (event_bus_backend environ) s.pool
  pub pumps : s.pumping ≡ (event_bus_backend environ == "postgres")

abbrev Refused : Unicode → Environment → Type 0
Refused u environ =
    refuse_memory_in_prod u environ (persistence_backend environ) (event_bus_backend environ)
    ≡ ok tt

serves :
    (u : Unicode) (environ : Environment) (s : Wiring) (n b : Bool)
    → needed environ ≡ n
    → (event_bus_backend environ == "postgres") ≡ b
    → init_dependencies u (resources environ n b) ≡ (ok tt, s)
    → Refused u environ × Serving environ s
serves u environ s true true nh bh h =
    let (r, e) =
      init_dependencies_ok (resources environ true true) u s refl
        (inr (on_postgres 0, refl, rw bh refl)) refl refl h in
    (
      r,
      subst (Serving environ) (sym e) (record {
        pool_is = rw nh refl;
        pools_are = refl;
        repository_is = refl;
        event_bus_is = refl;
        webhook_store_is = refl;
        ticket_store_is = refl;
        pumps = sym bh;
      }),
    )
serves u environ s true false nh bh h =
    let (r, e) =
      init_dependencies_ok (resources environ true false) u s refl (inl refl) refl refl h in
    (
      r,
      subst (Serving environ) (sym e) (record {
        pool_is = rw nh refl;
        pools_are = refl;
        repository_is = refl;
        event_bus_is = refl;
        webhook_store_is = refl;
        ticket_store_is = refl;
        pumps = sym bh;
      }),
    )
serves u environ s false false nh bh h =
    let (r, e) =
      init_dependencies_ok (resources environ false false) u s refl (inl refl) refl refl h in
    (
      r,
      subst (Serving environ) (sym e) (record {
        pool_is = rw nh refl;
        pools_are = refl;
        repository_is = refl;
        event_bus_is = refl;
        webhook_store_is = refl;
        ticket_store_is = refl;
        pumps = sym bh;
      }),
    )
serves u environ s false true nh bh h =
    let n = needs_of_bus environ ((eq_iff _ "postgres").0 bh) in cc

Known-postgres :
    {backend : String} → Known backend → (backend == "memory") ≡ false → backend ≡ "postgres"
Known-postgres (inl m) n = cc (rw m at n)
Known-postgres (inr p) n = p

-- A process that starts has known backends and one pool exactly where a backend needs one; the
-- repository follows PERSISTENCE_BACKEND, and the event bus and both stores follow
-- EVENT_BUS_BACKEND as one, all on that pool; the pump runs exactly where the bus is on Postgres. In
-- prod, where ALLOW_MEMORY_IN_PROD does not accept it, nothing at all is kept in memory.
pub start_is_safe :
    (u : Unicode) (o : Outside) (environ : Environment) (s : Wiring)
    → startup u o (fresh environ) ≡ (ok tt, s)
    → Known (persistence_backend environ)
      × Known (event_bus_backend environ)
      × Serving environ s
      × ((in_prod u environ ≡ false)
          ⊎ ((persistence_backend environ ≡ "postgres") × (event_bus_backend environ ≡ "postgres")))
unfolding startup
start_is_safe u o environ s h =
    let s1 = (init_resources o (fresh environ)).1 in
    let (_, e, g) =
      resume_ok (init_resources o (fresh environ)) (λ _ x. guarded o (init_dependencies u x)) tt s
        h in
    let (kp, kb, state) =
      init_resources_ok o environ s1 (ap {A = Outcome WiringError (Unit {0})} (λ x. (x, s1)) e) in
    let (r, v) =
      serves u environ s _ _ refl refl
        (subst (λ x. init_dependencies u x ≡ (ok tt, s)) state (guarded_ok o _ s g)) in
    (
      kp,
      kb,
      v,
      elim (Bool-cases (in_prod u environ)) [
        | inl i ↦
            let (p, b) = refused_memory u environ _ _ i r in
            inr (Known-postgres kp p, Known-postgres kb b)
        | inr i ↦ inl i
      ],
    )
