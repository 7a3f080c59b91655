-- ===== src/Witnesses/Streams.antt =====
-- The bus, the stores and the limiters at concrete runs.
use modal_template_fastapi.Common.{
  ◌+◌, ◌-◌, ◌*◌, ◌≤◌, ◌≡◌, ◌⊎◌, refl, false, none, some, List, [], ◌∷◌, ◌++◌, arith, nat_keys,
}
use modal_template_fastapi.Common.Dict
use modal_template_fastapi.Domain.{Event, end}
use modal_template_fastapi.Bus.Memory.{new_bus, Subscriber, start, replay_after}
use modal_template_fastapi.Bus.Memory.Delivery.{
  Action, publishes, starts, asks, quits, run, stream_delivers,
}
use modal_template_fastapi.Bus.Memory.Owed.{pending}
use modal_template_fastapi.Bus.Memory.Replay.{IsBounded, run-IsBounded}
use modal_template_fastapi.Stores.Tickets.{consume, consume_all, consume_once}
use modal_template_fastapi.Stores.Webhooks
use modal_template_fastapi.Stores.Webhooks.{record_if_new}
use modal_template_fastapi.Stores.Webhooks.Between.{records, run as run_calls, repeated_refused}
use modal_template_fastapi.Limits.Bucket.{Limiter, check, capacity, retry_after}
use modal_template_fastapi.Limits.Bucket.Fairness.{Calls, allowed, last_time, allowed_bounded}
use modal_template_fastapi.Limits.Bucket.Waiting.{after_calls, waiting_helps}
use modal_template_fastapi.Limits.Slots.{
  here, then_step, connects, disconnects, start as idle, connect, disconnect, IsFair, Reach-IsFair,
}
use modal_template_fastapi.Witnesses.{ascii}

abbrev actions : List Action
actions =
    publishes "items" "item.created" end 5
    ∷ publishes "other" "x" end 6
    ∷ asks 0
    ∷ publishes "items" "item.deleted" end 7
    ∷ quits 0
    ∷ []

stream_delivers_example :
    let k = (start ascii "items" none (new_bus 2 3)).0 in
    let r = run ascii k "items" actions (start ascii "items" none (new_bus 2 3)).1 in
    (s : Subscriber) × (lost : List Event) × (Dict.get k r.0.subscribers ≡ some s)
    × (replay_after ascii "items" none (new_bus 2 3) ++ r.2 ≡ r.1 ++ (pending s ++ lost))
    × ((s.registered ≡ false) ⊎ (lost ≡ []))
stream_delivers_example = stream_delivers ascii "items" none (new_bus 2 3) actions

new-IsBounded : IsBounded (new_bus 2 3)
unfolding Dict.get
new-IsBounded = record {
  capacity = omega arith;
  retained = λ t es h. ground arith;
  short = λ k s h. ground arith;
}

run-IsBounded_example :
    IsBounded (run ascii 0 "items" (starts "items" none ∷ actions) (new_bus 2 3)).0
run-IsBounded_example =
    run-IsBounded ascii 0 "items" (starts "items" none ∷ actions) (new_bus 2 3) new-IsBounded

consume_once_example :
    (consume "t" 9 4
      (consume_all (record { jti = "u"; expires_at = 8; now = 2 } ∷ []) (consume "t" 9 1 []).1)).0
    ≡ false
unfolding consume Dict.get
consume_once_example =
    consume_once "t" 9 1 [] (record { jti = "u"; expires_at = 8; now = 2 } ∷ []) 9 4 refl
      (omega arith, tt) (omega arith)

abbrev deliveries : Webhooks.Store
deliveries = record { ttl = 10; max_entries = 2; seen = [] }

repeated_refused_example :
    (record_if_new "acme" "1" 8 8
      (run_calls (records "acme" "2" 5 5 ∷ []) (record_if_new "acme" "1" 3 3 deliveries).1)).0
    ≡ false
unfolding record_if_new Dict.get
repeated_refused_example =
    repeated_refused "acme" "1" 3 3 8 8 (records "acme" "2" 5 5 ∷ []) deliveries (omega arith, tt)
      (omega arith) (omega arith) refl

abbrev bucket : Limiter
bucket = record { unit = 6; rate = 2; burst = 1; max_keys = 3; buckets = [] }

abbrev asked : Calls
asked = ("k", 1) ∷ ("other", 2) ∷ ("k", 4) ∷ []

allowed_bounded_example :
    allowed "k" (("k", 0) ∷ asked) bucket * 6 ≤ capacity bucket + (last_time 0 asked - 0) * 2
allowed_bounded_example =
    allowed_bounded "k" 0 asked bucket (omega arith) (omega arith)
      (omega arith, (omega arith, (omega arith, tt)))

abbrev emptied : Limiter
emptied = record bucket { buckets = ("k", (0, 0)) ∷ [] }

waiting_helps_example :
    (check "k" 8 (after_calls (("other", 5) ∷ []) (check "k" 1 emptied).1)).0 ≡ 0
unfolding check retry_after Dict.get Dict.remove Dict.put
waiting_helps_example =
    waiting_helps "k" 1 8 1 (("other", 5) ∷ []) emptied (refl, tt) (omega arith) (omega arith)
      (omega arith) (λ h. ground arith) (omega arith)

Reach-IsFair_example : IsFair 1 (disconnect 0 (connect (connect (idle 1))))
Reach-IsFair_example = Reach-IsFair 1 (
    then_step (then_step (then_step here (connects (idle 1))) (connects (connect (idle 1))))
      (disconnects (connect (connect (idle 1))) 0))
