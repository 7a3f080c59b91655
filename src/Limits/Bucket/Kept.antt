-- ===== src/Limits/Bucket/Kept.antt =====
-- Which calls of the token bucket leave the bucket of a key as it is.
use modal_template_fastapi.Common.{
  ℕ, ◌+◌, ◌-◌, ◌≤◌, ◌<◌, ◌≡◌, refl, String, true, false, none, some, length, length-drop, leb, ◌∙◌,
  string_keys, ◌==◌, ==_refl, arith, Bool-cases, inl, inr,
}
use modal_template_fastapi.Common.Dict
use modal_template_fastapi.Common.Dict.{Dict, get-put, get-remove}
use modal_template_fastapi.Common.Age.{
  behind, behind-put, behind-remove, behind_new, behind-lt, get-drop, behind-drop,
}
use modal_template_fastapi.Limits.Bucket.{Limiter, bucket_or, refill, evict, check}

-- The limiter holds this bucket of the key, and at most `n` that were used since.
pub record IsKept (key : String) (bucket : ℕ × ℕ) (n : ℕ) (l : Limiter) : Type 0 where
  pub found : Dict.get key l.buckets ≡ some bucket
  pub recent : behind key l.buckets ≤ n

evict-kept :
    (limit : ℕ) (key : String) (b : ℕ × ℕ) (m : Dict String (ℕ × ℕ))
    → Dict.get key m ≡ some b
    → behind key m < limit
    → (Dict.get key (evict limit m) ≡ some b) × (behind key (evict limit m) ≡ behind key m)
evict-kept limit key b m h recent =
    let inside = behind-lt key b m h in
    (
      get-drop (length m - limit) key m (omega (arith, inside, recent)) ∙ h,
      behind-drop (length m - limit) key m (omega (arith, inside, recent)),
    )

-- The bucket that was stored last survives the eviction, as the newest.
own-kept :
    (limit : ℕ) (key : String) (b : ℕ × ℕ) (m : Dict String (ℕ × ℕ))
    → 0 < limit
    → let m' = evict limit (Dict.put key b (Dict.remove key m)) in
      (Dict.get key m' ≡ some b) × (behind key m' ≡ 0)
own-kept limit key b m p =
    let gone : Dict.get key (Dict.remove key m) ≡ none = simp (get-remove, ==_refl) in
    let newest = behind_new key b (Dict.remove key m) gone in
    let (found, same) =
      evict-kept limit key b (Dict.put key b (Dict.remove key m)) (simp (get-put, ==_refl))
        (omega (arith, newest, p)) in
    (found, same ∙ newest)

other-kept :
    (limit : ℕ) (key other : String) (b c : ℕ × ℕ) (n : ℕ) (m : Dict String (ℕ × ℕ))
    → (other == key) ≡ false
    → n + 1 < limit
    → Dict.get key m ≡ some b
    → behind key m ≤ n
    → let m' = evict limit (Dict.put other c (Dict.remove other m)) in
      (Dict.get key m' ≡ some b) × (behind key m' ≤ n + 1)
other-kept limit key other b c n m apart room h recent =
    let newer = behind-put key other c (Dict.remove other m) in
    let older = behind-remove key other m apart in
    let there : Dict.get key (Dict.put other c (Dict.remove other m)) ≡ some b =
      get-put other key c (Dict.remove other m) ∙ rw apart (get-remove other key m ∙ rw apart h) in
    let (found, same) =
      evict-kept limit key b (Dict.put other c (Dict.remove other m)) there
        (omega (arith, newer, older, recent, room)) in
    (found, omega (arith, same, newer, older, recent))

length-evict : (limit : ℕ) (m : Dict String (ℕ × ℕ)) → length (evict limit m) ≤ limit
length-evict limit m = omega (arith, length-drop {0} (length m - limit) m)

-- The limiter always holds at most `max_keys` buckets.
pub check-bounded :
    (key : String) (now : ℕ) (l : Limiter) → length (check key now l).1.buckets ≤ l.max_keys
unfolding check
check-bounded key now l =
    elim (Bool-cases (leb l.unit (refill l now (bucket_or l now (Dict.get key l.buckets))))) [
      | inl h ↦ rw h (length-evict l.max_keys _)
      | inr h ↦ rw h (length-evict l.max_keys _)
    ]

module _ (key : String) (now : ℕ) (l : Limiter) where
  unfoldable pub tokens : ℕ
  tokens = refill l now (bucket_or l now (Dict.get key l.buckets))

  -- A call keeps the parameters of the limiter.
  pub check-same :
      ((check key now l).1.unit ≡ l.unit)
      × ((check key now l).1.rate ≡ l.rate)
      × ((check key now l).1.max_keys ≡ l.max_keys)
      × ((check key now l).1.burst ≡ l.burst)
  unfolding check tokens
  check-same = elim (Bool-cases (leb l.unit tokens)) [
    | inl h ↦ rw h (refl, refl, refl, refl)
    | inr h ↦ rw h (refl, refl, refl, refl)
  ]

  module _ (some_keys : 0 < l.max_keys) where
    pub allowed_of :
        leb l.unit tokens ≡ true
        → ((check key now l).0 ≡ 0) × IsKept key (tokens - l.unit, now) 0 (check key now l).1
    unfolding check tokens
    allowed_of h =
        let (found, newest) = own-kept l.max_keys key (tokens - l.unit, now) l.buckets some_keys in
        (rw h refl, rw h (record { found = found; recent = omega (arith, newest) }))

    pub refused_of :
        leb l.unit tokens ≡ false
        → ((check key now l).0 ≡ l.unit - tokens) × IsKept key (tokens, now) 0 (check key now l).1
    unfolding check tokens
    refused_of h =
        let (found, newest) = own-kept l.max_keys key (tokens, now) l.buckets some_keys in
        (rw h refl, rw h (record { found = found; recent = omega (arith, newest) }))

  -- A call of another key leaves the bucket, as long as the limiter has room for one more.
  pub check-IsKept :
      (own : String) (b : ℕ × ℕ) (n : ℕ)
      → (key == own) ≡ false
      → n + 1 < l.max_keys
      → IsKept own b n l
      → IsKept own b (n + 1) (check key now l).1
  unfolding check tokens
  check-IsKept own b n apart room kept = elim (Bool-cases (leb l.unit tokens)) [
    | inl h ↦
        let (found, recent) =
          other-kept l.max_keys own key b (tokens - l.unit, now) n l.buckets apart room kept.found
            kept.recent in
        rw h (record { found = found; recent = recent })
    | inr h ↦
        let (found, recent) =
          other-kept l.max_keys own key b (tokens, now) n l.buckets apart room kept.found
            kept.recent in
        rw h (record { found = found; recent = recent })
  ]
