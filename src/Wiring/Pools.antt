-- ===== src/Wiring/Pools.antt =====
-- Which pools are open, on every way through a start: the ones that fail too.
use modal_template_fastapi.Common.{
  ◌⊎◌, ℕ, ◌≡◌, refl, ap, sym, ◌∙◌, String, Option, none, some, [], nat_keys, string_keys, ◌==◌,
  ==_refl, Bool-cases, inl, inr, subst,
}
use modal_template_fastapi.Common.Text.{Unicode}
use modal_template_fastapi.Domain.Exec.{
  Outcome, ok, raise, Exec, resume, resume-keeps, resume_of_ok, Outcome-cases,
}
use modal_template_fastapi.Api.Auth.{Environment}
use modal_template_fastapi.Wiring.{
  Adapter, WiringError, raised, Wiring, fresh, Outside, persistence_backend, event_bus_backend,
  needs_pool, validate_backend, validate_event_bus_backend, get_repository, get_event_bus,
  get_webhook_store, get_ticket_store, cached,
}
use modal_template_fastapi.Wiring.Start.{
  init_resources, init_dependencies, close_resources, startup, refuse_memory_in_prod, guarded,
  open_pool, start_bus, opened, migrated, started,
}
use modal_template_fastapi.Wiring.Safe.{list_of}

-- The pools that are open are the one that the module holds, if it holds one.
abbrev pub IsTidy : Wiring → Type 0
IsTidy s = s.open_pools ≡ list_of s.pool

cached-IsTidy :
    (c : Option Adapter) (b : Outcome WiringError Adapter) (hold : Adapter → Wiring) (s : Wiring)
    → IsTidy s
    → ((a : Adapter) → IsTidy (hold a))
    → IsTidy (cached c b hold s).1
cached-IsTidy (some a) b hold s h k = h
cached-IsTidy none (ok a) hold s h k = k a
cached-IsTidy none (raise e) hold s h k = h

module _ (s : Wiring) (h : IsTidy s) where
  repository-IsTidy : IsTidy (get_repository s).1
  unfolding get_repository
  repository-IsTidy = cached-IsTidy s.repository _ _ s h (λ a. h)

  event_bus-IsTidy : IsTidy (get_event_bus s).1
  unfolding get_event_bus
  event_bus-IsTidy = cached-IsTidy s.event_bus _ _ s h (λ a. h)

  webhook_store-IsTidy : IsTidy (get_webhook_store s).1
  unfolding get_webhook_store
  webhook_store-IsTidy = cached-IsTidy s.webhook_store _ _ s h (λ a. h)

  ticket_store-IsTidy : IsTidy (get_ticket_store s).1
  unfolding get_ticket_store
  ticket_store-IsTidy = cached-IsTidy s.ticket_store _ _ s h (λ a. h)

abbrev Step : Type 0
Step = Adapter → Exec Wiring WiringError (Unit {0})

-- A call and what follows it.
followed-IsTidy :
    (r : Outcome WiringError Adapter × Wiring) (f : Step)
    → IsTidy r.1
    → ((a : Adapter) (s : Wiring) → IsTidy s → IsTidy (f a s).1)
    → IsTidy (resume r f).1
followed-IsTidy r f h k = resume-keeps IsTidy r f h k

module _ (u : Unicode) where
  abbrev last_step : Step
  last_step _ s = (ok tt, s)

  abbrev ticket_step : Step
  ticket_step _ s = resume (get_ticket_store s) last_step

  abbrev webhook_step : Step
  webhook_step _ s = resume (get_webhook_store s) ticket_step

  abbrev bus_step : Step
  bus_step _ s = resume (get_event_bus s) webhook_step

  bus_step-IsTidy : (a : Adapter) (s : Wiring) → IsTidy s → IsTidy (bus_step a s).1
  bus_step-IsTidy a s h =
      followed-IsTidy (get_event_bus s) webhook_step (event_bus-IsTidy s h) (λ _ s3 h3.
        followed-IsTidy (get_webhook_store s3) ticket_step (webhook_store-IsTidy s3 h3) (λ _ s4 h4.
          followed-IsTidy (get_ticket_store s4) last_step (ticket_store-IsTidy s4 h4)
            (λ _ s5 h5. h5)))

  init_dependencies-IsTidy : (s : Wiring) → IsTidy s → IsTidy (init_dependencies u s).1
  unfolding init_dependencies
  init_dependencies-IsTidy s h =
      resume-keeps {A = Unit {0}} {B = Unit {0}} IsTidy
        (
          refuse_memory_in_prod u s.environ (persistence_backend s.environ)
              (event_bus_backend s.environ),
          s,
        )
        (λ _ s1. resume (get_repository s1) bus_step) h
        (λ _ s1 h1.
          followed-IsTidy (get_repository s1) bus_step (repository-IsTidy s1 h1) bus_step-IsTidy)

module _ (o : Outside) (calm : o.close_pool ≡ none) where
  close_known :
      (s : Wiring) (p : Option ℕ) → s.pool ≡ p → IsTidy s → (close_resources o s).1.open_pools ≡ []
  unfolding close_resources
  close_known s none e h = rw e (rw e at h)
  close_known s (some p) e h = rw (e, calm) (rw (rw e at h) (simp ==_refl))

  close_forgets : (s : Wiring) (p : Option ℕ) → s.pool ≡ p → (close_resources o s).1.pool ≡ none
  unfolding close_resources
  close_forgets s none e = rw e refl
  close_forgets s (some p) e = rw (e, calm) refl

  close-IsTidy : (s : Wiring) → IsTidy s → IsTidy (close_resources o s).1
  close-IsTidy s h = close_known s s.pool refl h ∙ ap list_of (sym (close_forgets s s.pool refl))

  migrated-IsTidy : (m : Option String) (s : Wiring) → IsTidy s → IsTidy (migrated o m s).1
  migrated-IsTidy none s h = h
  migrated-IsTidy (some e) s h =
      resume-keeps {A = Unit {0}} {B = Unit {0}} IsTidy (close_resources o s)
        (λ _ s'. (raise (raised e), s')) (close-IsTidy s h) (λ _ s' h'. h')

  started-IsTidy : (c : Option String) (s : Wiring) → IsTidy s → IsTidy (started c s).1
  started-IsTidy none s h = h
  started-IsTidy (some e) s h = h

  opened-IsTidy :
      (c : Option String) (environ : Environment) → IsTidy (opened o c (fresh environ)).1
  opened-IsTidy none environ = migrated-IsTidy o.migrate _ refl
  opened-IsTidy (some e) environ = refl

  open_pool-IsTidy : (environ : Environment) → IsTidy (open_pool o (fresh environ)).1
  open_pool-IsTidy environ =
      elim (Bool-cases (needs_pool (persistence_backend environ) (event_bus_backend environ))) [
        | inl n ↦ rw n (opened-IsTidy o.create_pool environ)
        | inr n ↦ rw n refl
      ]

  start_bus-IsTidy : (s : Wiring) → IsTidy s → IsTidy (start_bus o s).1
  start_bus-IsTidy s h = elim (Bool-cases (event_bus_backend s.environ == "postgres")) [
    | inl x ↦ rw x (
        followed-IsTidy (get_event_bus s) (λ _. started o.start_bus) (event_bus-IsTidy s h)
          (λ _ s' h'. started-IsTidy o.start_bus s' h'))
    | inr x ↦ rw x h
  ]

  init_resources-IsTidy : (environ : Environment) → IsTidy (init_resources o (fresh environ)).1
  unfolding init_resources
  init_resources-IsTidy environ =
      elim (Outcome-cases (validate_backend environ (persistence_backend environ))) [
        | inl (e, p) ↦ rw p refl
        | inr (a, p) ↦
            rw p
              (elim (Outcome-cases
                (validate_event_bus_backend environ (event_bus_backend environ))) [
                  | inl (e, q) ↦ rw q refl
                  | inr (b, q) ↦ rw q (
                      resume-keeps {A = Unit {0}} {B = Unit {0}} IsTidy
                        (open_pool o (fresh environ)) (λ _. start_bus o) (open_pool-IsTidy environ)
                        (λ _ s h. start_bus-IsTidy s h))
                ])
      ]

  guarded-IsTidy :
      (r : Outcome WiringError (Unit {0}) × Wiring) → IsTidy r.1 → IsTidy (guarded o r).1
  guarded-IsTidy (ok _, s) h = h
  guarded-IsTidy (raise e, s) h =
      resume-keeps {A = Unit {0}} {B = Unit {0}} IsTidy (close_resources o s)
        (λ _ s'. (raise e, s')) (close-IsTidy s h) (λ _ s' h'. h')

  guarded_closes :
      (r : Outcome WiringError (Unit {0}) × Wiring) (e : WiringError)
      → IsTidy r.1
      → (guarded o r).0 ≡ raise e
      → (guarded o r).1.open_pools ≡ []
  guarded_closes (ok _, s) e h f = cc
  guarded_closes (raise x, s) e h f =
      resume-keeps {A = Unit {0}} {B = Unit {0}} (λ t. t.open_pools ≡ []) (close_resources o s)
        (λ _ s'. (raise x, s')) (close_known s s.pool refl h) (λ _ s' h'. h')

-- A start that went wrong after `init_resources` returned.
late_failure :
    (u : Unicode) (o : Outside) (environ : Environment) (e : WiringError)
    → o.close_pool ≡ none
    → (init_resources o (fresh environ)).0 ≡ ok tt
    → (startup u o (fresh environ)).0 ≡ raise e
    → (startup u o (fresh environ)).1.open_pools ≡ []
unfolding startup
late_failure u o environ e calm i f =
    let r = init_resources o (fresh environ) in
    let rest : Unit {0} → Exec Wiring WiringError (Unit {0}) =
      λ _ s. guarded o (init_dependencies u s) in
    let whole : resume r rest ≡ guarded o (init_dependencies u r.1) = resume_of_ok r rest tt i in
    subst (λ x. x.1.open_pools ≡ []) (sym whole)
      (guarded_closes o calm (init_dependencies u r.1) e
        (init_dependencies-IsTidy u r.1 (init_resources-IsTidy o calm environ))
        (subst (λ x. x.0 ≡ raise e) whole f))

-- Where closing a pool does not fail, a start never loses a pool: afterwards, whether it returned or
-- raised, the open pools are exactly the one that the module holds, if any. It returned, or
-- `init_resources` raised, or no pool is open.
pub start-IsTidy :
    (u : Unicode) (o : Outside) (environ : Environment)
    → o.close_pool ≡ none
    → IsTidy (startup u o (fresh environ)).1
      × (((startup u o (fresh environ)).0 ≡ ok tt)
          ⊎ (((e : WiringError) × ((init_resources o (fresh environ)).0 ≡ raise e))
              ⊎ ((startup u o (fresh environ)).1.open_pools ≡ [])))
unfolding startup
start-IsTidy u o environ calm = (
  resume-keeps {A = Unit {0}} {B = Unit {0}} IsTidy (init_resources o (fresh environ))
      (λ _ s. guarded o (init_dependencies u s)) (init_resources-IsTidy o calm environ)
      (λ _ s h. guarded-IsTidy o calm (init_dependencies u s) (init_dependencies-IsTidy u s h)),
  elim (Outcome-cases (startup u o (fresh environ)).0) [
    | inr (a, r) ↦ inl r
    | inl (e, f) ↦ elim (Outcome-cases (init_resources o (fresh environ)).0) [
      | inl failed ↦ inr (inl failed)
      | inr (a, i) ↦ inr (inr (late_failure u o environ e calm i f))
    ]
  ],
)
