-- ===== src/Api/Socket/Admission.antt =====
-- Slots and tickets of the WebSocket endpoint of api/events.py.
use modal_template_fastapi.Common.{
  ℕ, ◌+◌, ◌<◌, ◌≡◌, ◌≢◌, refl, String, Option, leb, arith, leb→lt, Bool-cases, Option-cases, ◌⊎◌,
  inl, inr, string_keys,
}
use modal_template_fastapi.Domain.Exec.{Outcome, ok, Outcome-cases}
use modal_template_fastapi.Stores.Tickets.{consume}
use modal_template_fastapi.Limits.Slots.{try_acquire, release}
use modal_template_fastapi.Api.Auth.{
  Environment, Jwt, TokenPayload, AuthError, refused, misconfigured, missing_claim,
}
use modal_template_fastapi.Api.Auth.Scopes.{Topic}
use modal_template_fastapi.Api.Auth.Tickets.{verify_ws_ticket}
use modal_template_fastapi.Api.Socket.{
  Gate, Verdict, admitted, topic_of, may_stream, enter, admit, leave, nonempty,
}

-- The connection streams, in a slot of its own that was free, and leaving gives the slot back.
abbrev pub HoldsSlot : Gate → Outcome AuthError Verdict × Gate → Type 0
HoldsSlot g (verdict, g') =
    ((t : Topic) × (user : TokenPayload) × (verdict ≡ ok (admitted t user)))
    × (g.limiter.active < g.limiter.max_connections)
    × (g'.limiter.active ≡ g.limiter.active + 1)
    × ((leave g').limiter ≡ g.limiter)

-- The connection does not stream, and every slot is as it was.
abbrev pub HoldsNone : Gate → Outcome AuthError Verdict × Gate → Type 0
HoldsNone g (verdict, g') =
    ((t : Topic) (user : TokenPayload) → verdict ≢ ok (admitted t user)) × (g'.limiter ≡ g.limiter)

returned : (g : Gate) → release (record g.limiter { active = g.limiter.active + 1 }) ≡ g.limiter
unfolding release
returned g = ground arith

enter-slot :
    (clock : ℕ) (t : Topic) (user : TokenPayload) (jti : String) (g : Gate)
    → HoldsSlot g (ok (enter clock t user jti g).0, (enter clock t user jti g).1)
      ⊎ HoldsNone g (ok (enter clock t user jti g).0, (enter clock t user jti g).1)
unfolding enter try_acquire leave release
enter-slot clock t user jti g = elim (Bool-cases (consume jti user.exp clock g.used).0) [
  | inr h ↦ inr (rw h (λ t' user'. λ e. ground arith), rw h refl)
  | inl h ↦ elim (Bool-cases (leb g.limiter.max_connections g.limiter.active)) [
    | inl k ↦ inr (rw h (rw k ((λ t' user'. λ e. ground arith), refl)))
    | inr k ↦
        let free = leb→lt g.limiter.max_connections g.limiter.active k in
        inl (rw h (rw k ((t, user, refl), free, refl, returned g)))
  ]
]

module _ (jwt : Jwt) (env : Environment) where
  -- An attempt to connect either streams, in one slot that was free and that leaving gives back, or
  -- it does not stream and holds no slot, whichever check ended it.
  pub admit_balanced :
      (now clock : ℕ) (ticket : Option String) (topic : String) (g : Gate)
      → HoldsSlot g (admit jwt env now clock ticket topic g)
        ⊎ HoldsNone g (admit jwt env now clock ticket topic g)
  unfolding admit
  admit_balanced now clock ticket topic g = elim (Option-cases (topic_of topic)) [
    | inl h ↦ inr (rw (h, admit) ((λ t user e. ground arith), refl))
    | inr (t, h) ↦ elim (Option-cases (nonempty ticket)) [
      | inl k ↦ inr (rw (h, admit) (rw (k, admit) ((λ t' user e. ground arith), refl)))
      | inr (text, k) ↦ elim (Outcome-cases (verify_ws_ticket jwt env now text)) [
        | inl (refused e, l) ↦
            inr (rw (h, admit) (rw (k, admit) (rw (l, admit) ((λ t' user q. ground arith), refl))))
        | inl (misconfigured, l) ↦
            inr (rw (h, admit) (rw (k, admit) (rw (l, admit) ((λ t' user q. ground arith), refl))))
        | inl (missing_claim, l) ↦
            inr (rw (h, admit) (rw (k, admit) (rw (l, admit) ((λ t' user q. ground arith), refl))))
        | inr ((user, jti), l) ↦ elim (Bool-cases (may_stream t user)) [
          | inl m ↦
              rw (h, admit)
                (rw (k, admit) (rw (l, admit) (rw (m, admit) (enter-slot clock t user jti g))))
          | inr m ↦ inr (
              rw (h, admit)
                (rw (k, admit) (rw (l, admit) (rw (m, admit) ((λ t' user q. ground arith), refl)))))
        ]
      ]
    ]
  ]
