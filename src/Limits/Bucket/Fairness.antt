-- ===== src/Limits/Bucket/Fairness.antt =====
-- How much the token bucket of api/ratelimit.py lets through.
use modal_template_fastapi.Common.{
  ℕ, suc, ◌+◌, ◌-◌, ◌*◌, ◌≤◌, ◌<◌, ◌≡◌, refl, sym, max, String, ◌&&◌, some, List, [], ◌∷◌, leb,
  leb→le, leb→lt, subst, ◌==◌, ==_refl, eq_iff, ◌∙◌, nat_eq, ap, string_keys, arith, Bool-cases,
  inl, inr, if◌then◌else◌,
}
use native.Mathlib.Nat.{mul-le-mul_right}
use modal_template_fastapi.Common.Dict
use modal_template_fastapi.Limits.Bucket.{Limiter, capacity, check}
use modal_template_fastapi.Limits.Bucket.Kept.{
  IsKept, tokens, check-same, allowed_of, refused_of, check-IsKept,
}

-- Calls of the limiter: the key and the time of each.
abbrev pub Calls : Type 0
Calls = List (String × ℕ)

tokens-le_capacity : (key : String) (now : ℕ) (l : Limiter) → tokens key now l ≤ capacity l
unfolding tokens
tokens-le_capacity key now l = omega arith

-- How many of the calls took a token of the key.
pub allowed : String → Calls → Limiter → ℕ
allowed key [] l = 0
allowed key ((k, t) ∷ cs) l =
    let rest = allowed key cs (check k t l).1 in
    if (k == key) && nat_eq (check k t l).0 0 then suc rest else rest

-- Times that never go back, from `t` on.
abbrev pub Rising : ℕ → Calls → Type 0
Rising t [] = Unit
Rising t ((k, t') ∷ cs) = (t ≤ t') × Rising t' cs

abbrev pub last_time : ℕ → Calls → ℕ
last_time t [] = t
last_time t ((k, t') ∷ cs) = last_time t' cs

-- The most calls of other keys between two of the key, where `n` have just been made.
abbrev pub longest_gap : String → ℕ → Calls → ℕ
longest_gap key n [] = n
longest_gap key n ((k, t) ∷ cs) = max n (longest_gap key (if k == key then 0 else n + 1) cs)

last_time-le : (t : ℕ) (cs : Calls) → Rising t cs → t ≤ last_time t cs
last_time-le t [] h = omega arith
last_time-le t ((k, t') ∷ cs) h = omega (arith, h.0, last_time-le t' cs h.1)

longest_gap-le : (key : String) (n : ℕ) (cs : Calls) → n ≤ longest_gap key n cs
longest_gap-le key n [] = omega arith
longest_gap-le key n ((k, t) ∷ cs) = omega arith

earlier-Rising : (t t' : ℕ) (cs : Calls) → t ≤ t' → Rising t' cs → Rising t cs
earlier-Rising t t' [] h r = tt
earlier-Rising t t' ((k, t'') ∷ cs) h r = (omega (arith, h, r.0), r.1)

last_time_mono : (t t' : ℕ) (cs : Calls) → t ≤ t' → last_time t cs ≤ last_time t' cs
last_time_mono t t' [] h = h
last_time_mono t t' ((k, t'') ∷ cs) h = omega arith

split_span : (t m e r : ℕ) → t ≤ m → m ≤ e → (m - t) * r + (e - m) * r ≡ (e - t) * r
split_span t m e r p q =
    let h : (m - t) + (e - m) ≡ e - t = omega arith in omega (arith, ap (λ (x : ℕ). x * r) h)

tokens-le :
    (key : String) (now : ℕ) (l : Limiter) (tok t : ℕ)
    → Dict.get key l.buckets ≡ some (tok, t)
    → tokens key now l ≤ tok + (now - t) * l.rate
unfolding tokens
tokens-le key now l tok t e = rw e (omega arith)

-- What the calls `cs` are given, where the bucket has `tok` parts since `t`.
abbrev Bounded : ℕ → ℕ → String → Calls → Limiter → ℕ → ℕ → Type 0
Bounded unit rate key cs l tok t = allowed key cs l * unit ≤ tok + (last_time t cs - t) * rate

-- The bound of a call of the key from that of the calls behind it; `T` parts are there.
own_bound :
    (key : String) (t : ℕ) (cs : Calls) (l : Limiter) (T : ℕ)
    → T ≡ tokens key t l
    → 0 < l.max_keys
    → 0 < l.unit
    → ((b : ℕ)
        → IsKept key (b, t) 0 (check key t l).1
        → Bounded l.unit l.rate key cs (check key t l).1 b t)
    → allowed key ((key, t) ∷ cs) l * l.unit ≤ T + (last_time t cs - t) * l.rate
unfolding allowed
own_bound key t cs l T e keys u behind_it = elim (Bool-cases (leb l.unit (tokens key t l))) [
  | inl yes_token ↦
      let (w, kept) = allowed_of key t l keys yes_token in
      let ih = behind_it (tokens key t l - l.unit) kept in
      rw (w, ==_refl) (omega (arith, e, ih, leb→le l.unit (tokens key t l) yes_token))
  | inr no_token ↦
      let (w, kept) = refused_of key t l keys no_token in
      let ih = behind_it (tokens key t l) kept in
      ground (arith, w, e, ih, leb→lt l.unit (tokens key t l) no_token)
]

-- The bound from `t'` on gives that from `t` on.
carried :
    (unit rate : ℕ) (key : String) (cs : Calls) (l : Limiter) (tok t t' : ℕ)
    → l.unit ≡ unit
    → l.rate ≡ rate
    → t ≤ t'
    → t' ≤ last_time t' cs
    → tokens key t' l ≤ tok + (t' - t) * l.rate
    → allowed key ((key, t') ∷ cs) l * l.unit ≤ tokens key t' l + (last_time t' cs - t') * l.rate
    → Bounded unit rate key ((key, t') ∷ cs) l tok t
carried unit rate key cs l tok t t' a b p q r bound =
    let span = split_span t t' (last_time t' cs) l.rate p q in
    subst (λ x. allowed key ((key, t') ∷ cs) l * x ≤ tok + (last_time t' cs - t) * rate) a
      (subst (λ x. allowed key ((key, t') ∷ cs) l * l.unit ≤ tok + (last_time t' cs - t) * x) b
        (omega (arith, span, r, bound)))

allowed_from :
    (unit rate : ℕ) (key : String) (cs : Calls) (l : Limiter) (tok t n : ℕ)
    → l.unit ≡ unit
    → l.rate ≡ rate
    → 0 < unit
    → longest_gap key n cs < l.max_keys
    → IsKept key (tok, t) n l
    → Rising t cs
    → Bounded unit rate key cs l tok t
unfolding allowed
allowed_from unit rate key [] l tok t n a b u room kept h = omega arith
allowed_from unit rate key ((k, t') ∷ cs) l tok t n a b u room kept h =
    let (same_unit, same_rate, same_keys, _) = check-same k t' l in
    elim (Bool-cases (k == key)) [
      | inl own ↦
          let (unit', rate', keys', _) = check-same key t' l in
          let clear : longest_gap key (if k == key then 0 else n + 1) cs < l.max_keys =
            omega (arith, room) in
          let some_room : longest_gap key 0 cs < l.max_keys = rw own at clear in
          let bound =
            own_bound key t' cs l (tokens key t' l) refl (omega (arith, room)) (rw a u) (λ c kept'.
              allowed_from l.unit l.rate key cs (check key t' l).1 c t' 0 unit' rate' (rw a u)
                (omega (arith, some_room, keys')) kept' h.1) in
          subst (λ j. Bounded unit rate key ((j, t') ∷ cs) l tok t) (sym ((eq_iff k key).0 own))
            (carried unit rate key cs l tok t t' a b h.0 (last_time-le t' cs h.1)
              (tokens-le key t' l tok t kept.found) bound)
      | inr apart ↦
          let clear : longest_gap key (if k == key then 0 else n + 1) cs < l.max_keys =
            omega (arith, room) in
          let more : longest_gap key (n + 1) cs < l.max_keys = rw apart at clear in
          let step = longest_gap-le key (n + 1) cs in
          let ih =
            allowed_from unit rate key cs (check k t' l).1 tok t (n + 1) (same_unit ∙ a)
              (same_rate ∙ b) u (omega (arith, more, same_keys))
              (check-IsKept k t' l key (tok, t) n apart (omega (arith, more, step)) kept)
              (earlier-Rising t t' cs h.0 h.1) in
          let later : last_time t cs - t ≤ last_time t' cs - t =
            omega (arith, last_time_mono t t' cs h.0) in
          rw apart (omega (arith, ih, mul-le-mul_right rate later))
    ]

-- Whatever calls are made, of this key and of others: from a call of the key on, the tokens that it
-- is given are at most its burst plus what comes back until the last of the calls. It holds from any
-- state of the limiter, provided that time does not go back and that fewer than `max_keys` calls of
-- other keys come between two of this key: more could evict its bucket, and a new one is full.
pub allowed_bounded :
    (key : String) (t : ℕ) (calls : Calls) (l : Limiter)
    → longest_gap key 0 calls < l.max_keys
    → 0 < l.unit
    → Rising t calls
    → allowed key ((key, t) ∷ calls) l * l.unit ≤ capacity l + (last_time t calls - t) * l.rate
allowed_bounded key t calls l room u h =
    let (same_unit, same_rate, same_keys, _) = check-same key t l in
    let bound = own_bound key t calls l (tokens key t l) refl (omega (arith, room)) u (λ b kept.
      allowed_from l.unit l.rate key calls (check key t l).1 b t 0 same_unit same_rate u
        (omega (arith, room, same_keys)) kept h) in
    omega (arith, bound, tokens-le_capacity key t l)
