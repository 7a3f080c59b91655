-- ===== src/Limits/Slots.antt =====
-- `StreamLimiter` of api/streaming.py and the connections that hold its slots: a stream of
-- `stream_events` frees its slot through a closure that works once, however often it is called; a
-- WebSocket of `stream_ws` frees its slot in its `finally`.
use modal_template_fastapi.Common.{
  ℕ, suc, ◌+◌, ◌-◌, ◌≤◌, ◌≡◌, refl, Bool, true, false, Option, some, [], ◌∷◌, leb, ltb, nat_keys,
  arith, if◌then◌else◌,
}
use modal_template_fastapi.Common.Dict
use modal_template_fastapi.Common.Dict.{Dict}

pub record StreamLimiter : Type 0 where
  pub max_connections : ℕ
  pub active : ℕ

unfoldable pub try_acquire : StreamLimiter → Bool × StreamLimiter
try_acquire l =
    if leb l.max_connections l.active
    then (false, l)
    else (true, record l { active = l.active + 1 })

unfoldable pub release : StreamLimiter → StreamLimiter
release l = if ltb 0 l.active then record l { active = l.active - 1 } else l

-- A container: its limiter, and for each connection that got a slot whether it was released.
pub record Container : Type 0 where
  pub limiter : StreamLimiter
  pub released : Dict ℕ Bool
  pub next : ℕ

-- A new connection asks for a slot; without one it is turned away.
unfoldable pub connect : Container → Container
unfolding try_acquire
connect c =
    let (got, l) = try_acquire c.limiter in
    if got
    then record { limiter = l; released = (c.next, false) ∷ c.released; next = c.next + 1 }
    else record c { limiter = l }

-- the closure `release` of `stream_events`: its flag, and the limiter
abbrev pub release_once : Option Bool → ℕ → Container → Container
release_once (some false) k c = record c {
  limiter = release c.limiter;
  released = Dict.put k true c.released;
}
release_once _ k c = c

unfoldable pub disconnect : ℕ → Container → Container
unfolding release
disconnect k c = release_once (Dict.get k c.released) k c

pub data Step : Container → Container → Type 0 where
  connects : (c : Container) → Step c (connect c)
  disconnects : (c : Container) (k : ℕ) → Step c (disconnect k c)

pub data Reach (c : Container) : Container → Type 0 where
  here : Reach c c
  then_step : {d e : Container} → Reach c d → Step d e → Reach c e

abbrev pub start : ℕ → Container
start n = record { limiter = record { max_connections = n; active = 0 }; released = []; next = 0 }

-- The connections that still hold a slot.
unfoldable pub holding : Dict ℕ Bool → ℕ
holding [] = 0
holding ((k, b) ∷ m) = if b then holding m else suc (holding m)

holding-put :
    (k : ℕ) (m : Dict ℕ Bool)
    → Dict.get k m ≡ some false
    → holding m ≡ suc (holding (Dict.put k true m))
unfolding holding Dict.get Dict.put
holding-put k [] h = cc
holding-put k ((j, b) ∷ m) h = ground (arith, holding-put k m)

pub record IsFair (n : ℕ) (c : Container) : Type 0 where
  pub cap : c.limiter.max_connections ≡ n
  pub counted : c.limiter.active ≡ holding c.released
  pub bounded : c.limiter.active ≤ n

connect-IsFair : (n : ℕ) (c : Container) → IsFair n c → IsFair n (connect c)
unfolding connect holding
connect-IsFair n c h = ground arith

disconnect-IsFair : (n k : ℕ) (c : Container) → IsFair n c → IsFair n (disconnect k c)
unfolding disconnect
disconnect-IsFair n k c h = ground (arith, holding-put k c.released)

-- However connections come, go, and release their slots again: the limiter counts exactly the
-- connections that hold a slot, and they are never more than its bound.
pub Reach-IsFair : (n : ℕ) {c : Container} → Reach (start n) c → IsFair n c
unfolding holding
Reach-IsFair n here = record { cap = refl; counted = refl; bounded = omega arith }
Reach-IsFair n (then_step r (connects d)) = connect-IsFair n d (Reach-IsFair n r)
Reach-IsFair n (then_step r (disconnects d k)) = disconnect-IsFair n k d (Reach-IsFair n r)

-- A connection that leaves frees its slot: the next one that asks is let in.
pub slot_freed :
    (n k : ℕ) (c : Container)
    → Reach (start n) c
    → Dict.get k c.released ≡ some false
    → (try_acquire (disconnect k c).limiter).0 ≡ true
unfolding try_acquire disconnect
slot_freed n k c r h = ground (arith, Reach-IsFair n r, holding-put k c.released)
