-- ===== src/Limits/Bucket.antt =====
-- `TokenBucketLimiter` of api/ratelimit.py. Python's floats are scaled to whole numbers: a token is
-- `unit` parts, the clock counts ticks, and `rate` parts come back per tick, so each sum, minimum and
-- test is the source's over exact numbers. A wait is its numerator, the parts that are missing.
pub mod Kept
pub mod Fairness
pub mod Waiting
use modal_template_fastapi.Common.{
  ℕ, zero, suc, ◌+◌, ◌-◌, ◌*◌, ◌/◌, ◌≤◌, ◌<◌, min, max, String, Option, none, some, List, [], ◌∷◌,
  ◌++◌, drop, length, leb, string_keys, if◌then◌else◌,
}
use modal_template_fastapi.Common.Dict
use modal_template_fastapi.Common.Dict.{Dict}

pub record Limiter : Type 0 where
  pub unit : ℕ
  pub rate : ℕ
  pub burst : ℕ
  pub max_keys : ℕ
  pub buckets : Dict String (ℕ × ℕ)

-- `float(self.burst)`
abbrev pub capacity : Limiter → ℕ
capacity l = l.burst * l.unit

-- `pop(key, (float(burst), now))`, its value
abbrev pub bucket_or : Limiter → ℕ → Option (ℕ × ℕ) → ℕ × ℕ
bucket_or l now none = (capacity l, now)
bucket_or l now (some b) = b

-- `min(float(burst), tokens + (now - last) * rate)`; the clock never goes back
abbrev pub refill : Limiter → ℕ → ℕ × ℕ → ℕ
refill l now (tokens, last) = min (capacity l) (tokens + (now - last) * l.rate)

-- `popitem(last=False)` while there are more than `max_keys` buckets
abbrev pub evict : ℕ → Dict String (ℕ × ℕ) → Dict String (ℕ × ℕ)
evict limit m = drop (length m - limit) m

abbrev store : Limiter → String → ℕ × ℕ → Limiter
store l key bucket = record l {
  buckets = evict l.max_keys (Dict.put key bucket (Dict.remove key l.buckets));
}

abbrev pub take_token : Limiter → String → ℕ → ℕ → ℕ × Limiter
take_token l key now tokens =
    if leb l.unit tokens
    then (0, store l key (tokens - l.unit, now))
    else (l.unit - tokens, store l key (tokens, now))

-- `check`: 0 if a token was taken, else the parts that are missing
unfoldable pub check : String → ℕ → Limiter → ℕ × Limiter
check key now l = take_token l key now (refill l now (bucket_or l now (Dict.get key l.buckets)))

-- `math.ceil(wait_seconds)`: `wait` parts come back at `per_second` parts a second
abbrev pub ceil_div : ℕ → ℕ → ℕ
ceil_div a b = (a + (b - 1)) / b

-- the number in `retry_after_header`
unfoldable pub retry_after : ℕ → ℕ → ℕ
retry_after wait per_second = max 1 (ceil_div wait per_second)
