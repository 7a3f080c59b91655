-- ===== src/Limits/Bucket/Waiting.antt =====
-- When the token bucket of api/ratelimit.py lets a refused caller through.
use modal_template_fastapi.Common.{
  ℕ, ◌+◌, ◌-◌, ◌*◌, ◌≤◌, ◌<◌, ◌≡◌, ◌≢◌, refl, min, max, String, false, some, [], ◌∷◌, All, length,
  leb, le→leb, ◌==◌, ◌∙◌, string_keys, arith, Bool-cases, inl, inr,
}
use native.Mathlib.Nat.{div-add-mod, mod-lt, mul-le-mul_right}
use modal_template_fastapi.Common.Dict
use modal_template_fastapi.Limits.Bucket.{Limiter, capacity, check, retry_after, ceil_div}
use modal_template_fastapi.Limits.Bucket.Kept.{
  IsKept, tokens, check-same, allowed_of, refused_of, check-IsKept,
}
use modal_template_fastapi.Limits.Bucket.Fairness.{Calls}

ceil_div-covers : (a b : ℕ) → 0 < b → a ≤ ceil_div a b * b
ceil_div-covers a b p = omega (arith, div-add-mod (a + (b - 1)) b, mod-lt (a + (b - 1)) p)

-- Where `T` of `U` parts are there, the wait brings back what is missing.
enough :
    (T U B rate ticks now later : ℕ)
    → 0 < B
    → 0 < rate * ticks
    → now + retry_after (U - T) (rate * ticks) * ticks ≤ later
    → U ≤ min (B * U) (T + (later - now) * rate)
unfolding retry_after
enough T U B rate ticks now later b r h =
    let wait = max 1 (ceil_div (U - T) (rate * ticks)) in
    let span : wait * ticks ≤ later - now = omega arith in
    let back = mul-le-mul_right rate span in
    let cover = ceil_div-covers (U - T) (rate * ticks) r in
    let longer : ceil_div (U - T) (rate * ticks) ≤ wait = omega arith in
    let cover' = mul-le-mul_right (rate * ticks) longer in
    let full = mul-le-mul_right U b in omega (arith, back, cover, cover', full)

tokens_of_found :
    (key : String) (now : ℕ) (l : Limiter) (tok t : ℕ)
    → Dict.get key l.buckets ≡ some (tok, t)
    → tokens key now l ≡ min (capacity l) (tok + (now - t) * l.rate)
unfolding tokens
tokens_of_found key now l tok t e = rw e

-- The limiter after calls.
pub after_calls : Calls → Limiter → Limiter
after_calls [] l = l
after_calls ((k, t) ∷ cs) l = after_calls cs (check k t l).1

after_calls-IsKept :
    (key : String) (b : ℕ × ℕ) (n : ℕ) (cs : Calls) (l : Limiter)
    → All (λ (k, t). (k == key) ≡ false) cs
    → n + length cs < l.max_keys
    → IsKept key b n l
    → IsKept key b (n + length cs) (after_calls cs l)
      × ((after_calls cs l).unit ≡ l.unit)
      × ((after_calls cs l).rate ≡ l.rate)
      × ((after_calls cs l).max_keys ≡ l.max_keys)
      × ((after_calls cs l).burst ≡ l.burst)
unfolding after_calls
after_calls-IsKept key b n [] l apart room kept =
    (record { found = kept.found; recent = omega (arith, kept.recent) }, refl, refl, refl, refl)
after_calls-IsKept key b n ((k, t) ∷ cs) l apart room kept =
    let (u, r, m, c) = check-same k t l in
    let (kept', u', r', m', c') =
      after_calls-IsKept key b (n + 1) cs (check k t l).1 apart.1 (omega (arith, room, m))
        (check-IsKept k t l key b n apart.0 (omega (arith, room)) kept) in
    (
      record { found = kept'.found; recent = omega (arith, kept'.recent) },
      u' ∙ u,
      r' ∙ r,
      m' ∙ m,
      c' ∙ c,
    )

-- A refused caller that waits the seconds of the `Retry-After` header is let through, whatever other
-- keys ask in between, provided that these are fewer than `max_keys` calls, as more could evict the
-- bucket: at `rate * ticks` parts a second, `ticks` ticks make a second.
pub waiting_helps :
    (key : String) (now later ticks : ℕ) (others : Calls) (l : Limiter)
    → All (λ (k, t). (k == key) ≡ false) others
    → length others < l.max_keys
    → 0 < l.burst
    → 0 < l.rate * ticks
    → (check key now l).0 ≢ 0
    → now + retry_after (check key now l).0 (l.rate * ticks) * ticks ≤ later
    → (check key later (after_calls others (check key now l).1)).0 ≡ 0
waiting_helps key now later ticks others l apart few q r refused waited =
    let T = tokens key now l in
    let keys : 0 < l.max_keys = omega (arith, few) in
    elim (Bool-cases (leb l.unit T)) [
      | inl yes_token ↦ absurd (refused (allowed_of key now l keys yes_token).0)
      | inr no_token ↦
          let (w, kept) = refused_of key now l keys no_token in
          let (u, c, m, b) = check-same key now l in
          let (kept', u', c', m', b') =
            after_calls-IsKept key (T, now) 0 others (check key now l).1 apart
              (omega (arith, few, m)) kept in
          let l' = after_calls others (check key now l).1 in
          let room : l.unit ≤ min (l.burst * l.unit) (T + (later - now) * l.rate) =
            enough T l.unit l.burst l.rate ticks now later q r (rw w at waited) in
          let room' : l'.unit ≤ tokens key later l' =
            rw (tokens_of_found key later l' T now kept'.found)
              (rw (u' ∙ u, b' ∙ b, c' ∙ c) room) in
          (allowed_of key later l' (omega (arith, keys, m, m')) (le→leb _ _ room')).0
    ]
