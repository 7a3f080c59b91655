-- ===== src/Api/Webhooks/Receiving.antt =====
-- What one request does to the delivery store and the bus, by the cases of `receive_webhook` of
-- api/webhooks.py.
use modal_template_fastapi.Common.{
  ◌≡◌, ◌⊎◌, inl, inr, refl, sym, ap, ◌∙◌, ◌≢◌, String, Bool, true, false, arith, Bool-cases,
  string_keys,
}
use modal_template_fastapi.Domain.{Fields, Event, Failure}
use modal_template_fastapi.Domain.Exec.{Outcome, ok, raise, Outcome-cases}
use modal_template_fastapi.Common.Text.{Unicode, ◌⧺◌}
use modal_template_fastapi.Service.{Publish}
use modal_template_fastapi.Stores.Webhooks
use modal_template_fastapi.Stores.Webhooks.{Key, record_if_new, forget, forgotten_accepted}
use modal_template_fastapi.Api.Errors.{Exception, failure}
use modal_template_fastapi.Api.Webhooks.{
  Library, Settings, Request, Clock, World, Reply, accepted, duplicate, receive, deliver, message,
  text_of,
}
use modal_template_fastapi.Api.Webhooks.Trust.{receive-cases, IsDelivered, IsRefused}

module _ (u : Unicode) (lib : Library) (cfg : Settings) {B : Type 0} (publish : Publish B) where
  module _ (clock : Clock) (provider webhook_id : String) (payload : Fields) (w : World B) where
    pub recorded : Bool × Webhooks.Store
    recorded = record_if_new provider webhook_id clock.purged clock.recorded w.store

    pub outcome : Outcome Failure Event × B
    outcome =
        publish "webhooks" ("webhook." ⧺ provider)
          (message u lib cfg publish provider webhook_id payload) w.bus

    unfoldable pub delivered : Outcome Exception Reply × World B
    delivered = deliver u lib cfg publish clock provider webhook_id payload w

    -- the world after the delivery was looked up, and perhaps published
    abbrev after : Webhooks.Store → B → World B
    after store bus = record { limiter = w.limiter; store = store; bus = bus }

    pub deliver-cases :
        ((recorded.0 ≡ false) × (delivered ≡ (ok duplicate, after recorded.1 w.bus)))
        ⊎ (((recorded.0 ≡ true) × (delivered ≡ (ok accepted, after recorded.1 outcome.1)))
            ⊎ ((recorded.0 ≡ true)
                × ((e : Failure) × (delivered ≡ (
                  raise (failure e),
                  after (forget provider webhook_id recorded.1) outcome.1,
                )))))
    unfolding delivered deliver recorded outcome
    deliver-cases =
        elim (Bool-cases
          (record_if_new provider webhook_id clock.purged clock.recorded w.store).0) [
            | inr h ↦ inl (h, rw h refl)
            | inl h ↦
                elim (Outcome-cases
                  (publish "webhooks" ("webhook." ⧺ provider)
                    (message u lib cfg publish provider webhook_id payload) w.bus).0) [
                      | inr (e, k) ↦ inr (inl (h, rw h (rw k refl)))
                      | inl (e, k) ↦ inr (inr (h, (e, rw h (rw k refl))))
                    ]
          ]

  accepted_of :
      (clock : Clock) (provider webhook_id : String) (payload : Fields) (w : World B)
      → (deliver u lib cfg publish clock provider webhook_id payload w).0 ≡ ok accepted
      → ((record_if_new provider webhook_id clock.purged clock.recorded w.store).0 ≡ true)
        × ((deliver u lib cfg publish clock provider webhook_id payload w).1.store
            ≡ (record_if_new provider webhook_id clock.purged clock.recorded w.store).1)
  unfolding delivered recorded
  accepted_of clock provider webhook_id payload w h =
      elim (deliver-cases clock provider webhook_id payload w) [
        | inl (_, d) ↦ ground arith
        | inr (inl (new, d)) ↦ (new, ap (λ x. x.1.store) d)
        | inr (inr (_, (_, d))) ↦ ground arith
      ]

  duplicate_of :
      (clock : Clock) (provider webhook_id : String) (payload : Fields) (w : World B)
      → (record_if_new provider webhook_id clock.purged clock.recorded w.store).0 ≡ false
      → ((deliver u lib cfg publish clock provider webhook_id payload w).0 ≡ ok duplicate)
        × ((deliver u lib cfg publish clock provider webhook_id payload w).1.bus ≡ w.bus)
  unfolding deliver
  duplicate_of clock provider webhook_id payload w h = (rw h refl, rw h refl)

  absurd_answer : {o : Outcome Exception Reply} → o ≡ ok duplicate → o ≢ ok accepted
  absurd_answer h k = ground arith

  pub first_of :
      (clock : Clock) (r : Request) (w : World B)
      → (receive u lib cfg publish clock r w).0 ≡ ok accepted
      → ((record_if_new r.provider (text_of r.webhook_id) clock.purged clock.recorded w.store).0
          ≡ true)
        × ((receive u lib cfg publish clock r w).1.store
            ≡ (record_if_new r.provider
                (text_of r.webhook_id)
                clock.purged
                clock.recorded
                w.store).1)
  unfolding IsRefused IsDelivered
  first_of clock r w h = elim (receive-cases u lib cfg publish clock r w) [
    | inl ((e, k), _, _) ↦ ground arith
    | inr (_, _, _, payload, l, d) ↦
        let (new, kept) =
          accepted_of clock r.provider (text_of r.webhook_id) payload (record w { limiter = l })
            (sym (ap (λ x. x.0) d) ∙ h) in
        (new, ap (λ x. x.1.store) d ∙ kept)
  ]

  pub second_of :
      (clock : Clock) (r : Request) (w : World B)
      → (record_if_new r.provider (text_of r.webhook_id) clock.purged clock.recorded w.store).0
        ≡ false
      → ((receive u lib cfg publish clock r w).1.bus ≡ w.bus)
        × ((receive u lib cfg publish clock r w).0 ≢ ok accepted)
  unfolding IsRefused IsDelivered
  second_of clock r w h = elim (receive-cases u lib cfg publish clock r w) [
    | inl ((e, k), _, same) ↦ (same, λ x. ground arith)
    | inr (_, _, _, payload, l, d) ↦
        let (answer, same) =
          duplicate_of clock r.provider (text_of r.webhook_id) payload (record w { limiter = l })
            h in
        (ap (λ x. x.1.bus) d ∙ same, λ x. absurd_answer answer (sym (ap (λ x. x.0) d) ∙ x))
  ]

  -- What a request does to the store: nothing, a lookup of its key, or, where the lookup accepted
  -- it, a lookup and a removal of it.
  pub store_cases :
      (clock : Clock) (r : Request) (w : World B)
      → let looked_up =
          record_if_new r.provider (text_of r.webhook_id) clock.purged clock.recorded w.store in
        let store' = (receive u lib cfg publish clock r w).1.store in
        (store' ≡ w.store)
        ⊎ ((store' ≡ looked_up.1)
            ⊎ ((looked_up.0 ≡ true)
                × (store' ≡ forget r.provider (text_of r.webhook_id) looked_up.1)))
  unfolding IsRefused IsDelivered delivered recorded
  store_cases clock r w = elim (receive-cases u lib cfg publish clock r w) [
    | inl (_, same, _) ↦ inl same
    | inr (_, _, _, payload, l, d) ↦
        elim (deliver-cases clock r.provider (text_of r.webhook_id) payload
          (record w { limiter = l })) [
            | inl (_, e) ↦ inr (inl (ap (λ x. x.1.store) (d ∙ e)))
            | inr (inl (_, e)) ↦ inr (inl (ap (λ x. x.1.store) (d ∙ e)))
            | inr (inr (new, (_, e))) ↦ inr (inr (new, ap (λ x. x.1.store) (d ∙ e)))
          ]
  ]
