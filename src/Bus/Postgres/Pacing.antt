-- ===== src/Bus/Postgres/Pacing.antt =====
-- `_pump` and `_listen` of adapters/events/postgres.py: how long the two loops sleep. Times are in
-- milliseconds; what the database answers is an argument.
use modal_template_fastapi.Common.{
  ℕ, ◌+◌, ◌*◌, ◌-◌, ◌≤◌, ◌≡◌, Bool, true, false, ◌&&◌, List, [], ◌∷◌, min, max, leb, arith, All,
  if◌then◌else◌,
}

pub record Pump : Type 0 where
  pub backoff : ℕ
  pub last_prune : ℕ

abbrev pub prune_every : ℕ
prune_every = 60000

-- One round of `_pump`: whether `_drain` failed, the clock, whether `_prune`, if it is due, failed.
pub record Round : Type 0 where
  pub drain_failed : Bool
  pub now : ℕ
  pub prune_failed : Bool

-- What the loop does before its next round.
pub data Pause : Type 0 where
  sleeps : ℕ → Pause
  awaits_wake : ℕ → Pause

abbrev pub wake_timeout : ℕ → Bool → ℕ
wake_timeout poll_interval listening = if listening then max poll_interval 5000 else poll_interval

abbrev pub doubled : Pump → Pump
doubled p = record p { backoff = min (p.backoff * 2) 10000 }

abbrev pub succeeded : Bool → ℕ → Pump → Pump
succeeded due now p = record { backoff = 500; last_prune = if due then now else p.last_prune }

-- Whether `_prune` was called, the pause, and the pump after it.
unfoldable pub pump_round : ℕ → Bool → Round → Pump → Bool × Pause × Pump
pump_round poll_interval listening r p =
    let due = leb prune_every (r.now - p.last_prune) in
    let p' = succeeded due r.now p in
    if r.drain_failed
    then (false, sleeps p.backoff, doubled p)
    else if due && r.prune_failed
    then (true, sleeps 500, doubled p')
    else (due, awaits_wake (wake_timeout poll_interval listening), p')

-- How an attempt of `_listen` ends: the connection or the probe raises, no test notification is
-- heard in time, or the connection is heard and then lost.
pub data Attempt : Type 0 where
  fails silent heard : Attempt

abbrev pub probe_retry : ℕ
probe_retry = 30000

-- The sleeps of `_listen` over its attempts, while the bus is not closing. Where the probe is silent
-- the loop goes on at once after its own sleep.
unfoldable pub listen : ℕ → List Attempt → List ℕ
listen backoff [] = []
listen backoff (silent ∷ rest) = probe_retry ∷ listen backoff rest
listen backoff (fails ∷ rest) = backoff ∷ listen (min (backoff * 2) 15000) rest
listen backoff (heard ∷ rest) = 1000 ∷ listen (min (1000 * 2) 15000) rest

-- Between two attempts of `_listen` there is at least a second and at most half a minute.
pub listen-paced :
    (backoff : ℕ) (attempts : List Attempt)
    → 1000 ≤ backoff
    → backoff ≤ 15000
    → All (λ d. (1000 ≤ d) × (d ≤ probe_retry)) (listen backoff attempts)
unfolding listen
listen-paced backoff [] l h = tt
listen-paced backoff (silent ∷ rest) l h =
    ((omega arith, omega arith), listen-paced backoff rest l h)
listen-paced backoff (fails ∷ rest) l h = (
  (l, omega (arith, h)),
  listen-paced (min (backoff * 2) 15000) rest (omega (arith, l)) (omega arith),
)
listen-paced backoff (heard ∷ rest) l h =
    ((omega arith, omega arith), listen-paced 2000 rest (omega arith) (omega arith))

-- A pump that starts with a backoff between half a second and ten seconds keeps it there, prunes at
-- most once in `prune_every`, and sleeps no longer than its backoff or its poll interval asks.
pub pump_round-paced :
    (poll_interval : ℕ) (listening : Bool) (r : Round) (p : Pump)
    → 500 ≤ p.backoff
    → p.backoff ≤ 10000
    → (let (due, pause, p') = pump_round poll_interval listening r p in
        (500 ≤ p'.backoff)
        × (p'.backoff ≤ 10000)
        × (due ≡ true → p.last_prune + prune_every ≤ r.now)
        × (due ≡ true → p'.last_prune ≡ r.now)
        × (due ≡ false → p'.last_prune ≡ p.last_prune))
unfolding pump_round
pump_round-paced poll_interval listening r p l h = ground (arith, l, h)
