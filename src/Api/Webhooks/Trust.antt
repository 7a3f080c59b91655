-- ===== src/Api/Webhooks/Trust.antt =====
-- What `receive_webhook` guarantees about the delivery store and the bus.
use modal_template_fastapi.Common.{
  ℕ, List, ◌≡◌, ◌⊎◌, inl, inr, refl, String, true, Option, some, nat_eq, arith, Bool-cases,
  Option-cases, string_keys,
}
use modal_template_fastapi.Domain.{Fields}
use modal_template_fastapi.Domain.Exec.{Outcome, ok, raise, Outcome-cases}
use modal_template_fastapi.Common.Text.{Unicode}
use modal_template_fastapi.Limits.Bucket.{Limiter, check}
use modal_template_fastapi.Service.{Publish}
use modal_template_fastapi.Api.Errors.{Exception}
use modal_template_fastapi.Api.Webhooks.{
  Library, Settings, Request, Clock, World, Reply, sign, receive, receive_known, authenticate,
  take_turn, deliver, check_content, check_declared, check_timestamp, check_signature, read_body,
  bytes_eq, text_of,
}
use modal_template_fastapi.Api.Webhooks.Body.{Bytes, read_limited}
use modal_template_fastapi.Api.Webhooks.Provider.{secret_for}

module _ (u : Unicode) (lib : Library) (cfg : Settings) {B : Type 0} (publish : Publish B) where
  -- The request carries the signature of its body and its timestamp under the secret.
  unfoldable pub IsSigned : String → Request → Type 0
  IsSigned secret r =
      (body : Bytes) × (read_limited cfg.max_body_bytes r.chunks ≡ some body)
      × (bytes_eq (lib.encode (text_of r.signature))
            (lib.encode (sign u lib (lib.encode secret) (text_of r.timestamp) body))
          ≡ true)

  timestamp_ok :
      (wall : ℕ) (header : Option String) {t : String}
      → check_timestamp u lib cfg wall header ≡ ok t
      → t ≡ text_of header
  unfolding check_timestamp
  timestamp_ok wall header h = ground arith

  signature_ok :
      (secret : Bytes) (t : String) (body : Bytes) (provided : Option String) {x : Unit {0}}
      → check_signature u lib cfg secret t body provided ≡ ok x
      → bytes_eq (lib.encode (text_of provided)) (lib.encode (sign u lib secret t body)) ≡ true
  unfolding check_signature
  signature_ok secret t body provided h = ground arith

  body_ok :
      (chunks : List Bytes) {body : Bytes}
      → read_body u lib cfg chunks ≡ ok body
      → read_limited cfg.max_body_bytes chunks ≡ some body
  unfolding read_body
  body_ok chunks h = ground arith

  authenticate-cases :
      (secret : String) (wall : ℕ) (r : Request)
      → IsSigned secret r
        ⊎ ((e : Exception) × ((s : World B)
              → authenticate u lib cfg (lib.encode secret) wall r s ≡ (raise e, s)))
  unfolding authenticate IsSigned
  authenticate-cases secret wall r =
      elim (Outcome-cases (check_declared u lib cfg r.content_length)) [
        | inl (e, h) ↦ inr (e, λ s. rw h refl)
        | inr (_, h) ↦ elim (Outcome-cases (read_body u lib cfg r.chunks)) [
          | inl (e, k) ↦ inr (e, λ s. rw h (rw k refl))
          | inr (body, k) ↦ elim (Outcome-cases (check_timestamp u lib cfg wall r.timestamp)) [
            | inl (e, l) ↦ inr (e, λ s. rw h (rw k (rw l refl)))
            | inr (t, l) ↦
                elim (Outcome-cases
                  (check_signature u lib cfg (lib.encode secret) t body r.signature)) [
                    | inl (e, m) ↦ inr (e, λ s. rw h (rw k (rw l (rw m refl))))
                    | inr (_, m) ↦ inl (
                      body,
                      body_ok r.chunks k,
                      rw (← timestamp_ok wall r.timestamp l)
                          (signature_ok (lib.encode secret) t body r.signature m),
                    )
                  ]
          ]
        ]
      ]

  authenticate-ok :
      (secret : Bytes) (wall : ℕ) (r : Request) (s : World B)
      → ((e : Exception) × (authenticate u lib cfg secret wall r s ≡ (raise e, s)))
        ⊎ ((body : Bytes) × (authenticate u lib cfg secret wall r s ≡ (ok body, s)))
  unfolding authenticate
  authenticate-ok secret wall r s =
      elim (Outcome-cases (check_declared u lib cfg r.content_length)) [
        | inl (e, h) ↦ inl (e, rw h refl)
        | inr (_, h) ↦ elim (Outcome-cases (read_body u lib cfg r.chunks)) [
          | inl (e, k) ↦ inl (e, rw h (rw k refl))
          | inr (body, k) ↦ elim (Outcome-cases (check_timestamp u lib cfg wall r.timestamp)) [
            | inl (e, l) ↦ inl (e, rw h (rw k (rw l refl)))
            | inr (t, l) ↦
                elim (Outcome-cases (check_signature u lib cfg secret t body r.signature)) [
                  | inl (e, m) ↦ inl (e, rw h (rw k (rw l (rw m refl))))
                  | inr (_, m) ↦ inr (body, rw h (rw k (rw l (rw m refl))))
                ]
          ]
        ]
      ]

  -- The request was refused, and neither the delivery store nor the bus has changed.
  unfoldable pub IsRefused : World B → Outcome Exception Reply × World B → Type 0
  IsRefused w (r, w') = ((e : Exception) × (r ≡ raise e)) × (w'.store ≡ w.store) × (w'.bus ≡ w.bus)

  unfoldable pub IsDelivered :
      Clock → Request → World B → Outcome Exception Reply × World B → Type 0
  unfolding IsSigned
  IsDelivered clock r w result =
      (secret : String) × (secret_for u cfg.environ r.provider ≡ some secret)
      × IsSigned secret r
      × (payload : Fields) × (l : Limiter) × (result
          ≡ deliver u lib cfg publish clock r.provider (text_of r.webhook_id) payload
              (record w { limiter = l }))

  -- the world after the limiter has let the request pass
  abbrev turned : Clock → Request → World B → World B
  turned clock r w = record w { limiter = (check r.provider clock.monotonic w.limiter).1 }

  known-cases :
      (clock : Clock) (r : Request) (secret : String) (w : World B)
      → secret_for u cfg.environ r.provider ≡ some secret
      → IsRefused w (receive_known u lib cfg publish clock r secret w)
        ⊎ IsDelivered clock r w (receive_known u lib cfg publish clock r secret w)
  unfolding receive_known IsRefused IsDelivered take_turn
  known-cases clock r secret w known =
      elim (Bool-cases (nat_eq (check r.provider clock.monotonic w.limiter).0 0)) [
        | inr h ↦ rw h (inl ((_, refl), refl, refl))
        | inl h ↦ elim (authenticate-cases secret clock.wall r) [
          | inr (e, k) ↦ rw h (rw k (inl ((e, refl), refl, refl)))
          | inl signed ↦
              elim (authenticate-ok (lib.encode secret) clock.wall r (turned clock r w)) [
                | inl (e, k) ↦ rw h (rw k (inl ((e, refl), refl, refl)))
                | inr (body, k) ↦ elim (Outcome-cases (check_content u lib cfg r.webhook_id body)) [
                  | inl (e, m) ↦ rw h (rw k (rw m (inl ((e, refl), refl, refl))))
                  | inr (payload, m) ↦
                      rw h (rw k (rw m (inr (secret, known, signed, payload, _, refl))))
                ]
              ]
        ]
      ]

  -- A request is refused with the delivery store and the bus as they were, or it is signed under
  -- the secret of its provider and becomes a delivery.
  pub receive-cases :
      (clock : Clock) (r : Request) (w : World B)
      → IsRefused w (receive u lib cfg publish clock r w)
        ⊎ IsDelivered clock r w (receive u lib cfg publish clock r w)
  unfolding receive IsRefused
  receive-cases clock r w = elim (Option-cases (secret_for u cfg.environ r.provider)) [
    | inl h ↦ rw (h, receive) (inl ((_, refl), refl, refl))
    | inr (secret, h) ↦ rw (h, receive) (known-cases clock r secret w h)
  ]

  -- A request that the code does not refuse, with the delivery store and the bus as they were, is
  -- for a provider that has a secret, and carries the signature of its body and timestamp under it.
  pub only-IsSigned :
      (clock : Clock) (r : Request) (w : World B)
      → IsRefused w (receive u lib cfg publish clock r w)
        ⊎ ((secret : String) × (secret_for u cfg.environ r.provider ≡ some secret)
            × IsSigned secret r)
  unfolding IsDelivered
  only-IsSigned clock r w = elim (receive-cases clock r w) [
    | inl h ↦ inl h
    | inr (secret, known, signed, _, _, _) ↦ inr (secret, known, signed)
  ]
