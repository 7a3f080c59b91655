-- ===== src/Bus/Memory.antt =====
-- adapters/events/memory.py: `InMemoryEventBus`. A subscriber object and the local variables of its
-- generator are one record; the set `_subscribers[topic]` holds those that are `registered`.
pub mod Owed
pub mod Delivery
pub mod Replay
use modal_template_fastapi.Common.{
  ℕ, zero, ◌+◌, ◌-◌, String, Bool, true, false, not, ◌&&◌, Option, none, some, List, [], ◌∷◌, ◌++◌,
  map, length, drop, keep, ltb, leb, nat_keys, string_keys, ◌==◌, if◌then◌else◌,
}
use modal_template_fastapi.Common.Dict
use modal_template_fastapi.Common.Dict.{Dict}
use modal_template_fastapi.Common.Text.{Unicode, ℤ, above, int_of}
use modal_template_fastapi.Domain.{Fields, Event}

pub data Message : Type 0 where
  event : Event → Message
  close : Message

pub record Subscriber : Type 0 where
  pub topic : String
  pub registered : Bool
  pub finished : Bool
  pub replay : List Event
  pub queue : List Message

pub record Bus : Type 0 where
  pub replay_size : ℕ
  pub queue_size : ℕ
  pub seq : ℕ
  pub history : Dict String (List Event)
  pub subscribers : Dict ℕ Subscriber
  pub next_handle : ℕ

-- `InMemoryEventBus(replay_size, subscriber_queue_size)`
abbrev pub new_bus : ℕ → ℕ → Bus
new_bus replay_size queue_size = record {
  replay_size = replay_size;
  queue_size = queue_size;
  seq = 0;
  history = [];
  subscribers = [];
  next_handle = 0;
}

-- `deque(maxlen=n).append(x)`
pub append_bounded {ℓ} : {A : Type ℓ} → ℕ → A → List A → List A
append_bounded n x xs = let longer = xs ++ x ∷ [] in drop (length longer - n) longer

abbrev pub or_empty {ℓ} : {A : Type ℓ} → Option (List A) → List A
or_empty none = []
or_empty (some xs) = xs

-- `Queue.full()`: a size of 0 is no bound
abbrev pub full : ℕ → List Message → Bool
full size queue = ltb 0 size && leb size (length queue)

-- One round of the loop of `publish`.
pub offer : ℕ → String → Event → Subscriber → Subscriber
offer size topic e s =
    if s.registered && (s.topic == topic)
    then if full size s.queue
      then record s { queue = close ∷ []; registered = false }
      else record s { queue = s.queue ++ event e ∷ [] }
    else s

unfoldable pub map_values {ℓ κ} : {K : Type ℓ} {V : Type κ} → (V → V) → Dict K V → Dict K V
map_values f [] = []
map_values f ((k, v) ∷ m) = (k, f v) ∷ map_values f m

-- `publish`; the argument `now` is `time.time()`
pub publish : String → String → Fields → ℕ → Bus → Event × Bus
unfolding offer map_values append_bounded
publish topic event_type payload now b =
    let e : Event = record { id = b.seq + 1; type = event_type; payload = payload; ts = now } in
    (
      e,
      record b {
        seq = b.seq + 1;
        history =
            Dict.put topic (append_bounded b.replay_size e (or_empty (Dict.get topic b.history)))
              b.history;
        subscribers = map_values (offer b.queue_size topic e) b.subscribers;
      },
    )

newer_than : Option ℤ → List Event → List Event
newer_than none es = []
newer_than (some last) es = keep (λ e. above e.id last) es

-- `_replay_after`; a text that is no integer asks for no replay
pub replay_after : Unicode → String → Option String → Bus → List Event
unfolding newer_than
replay_after u topic none b = []
replay_after u topic (some last_event_id) b =
    newer_than (int_of u last_event_id) (or_empty (Dict.get topic b.history))

-- The generator of `subscribe` up to its first `yield`: it runs when the first item is asked for.
pub start : Unicode → String → Option String → Bus → ℕ × Bus
unfolding replay_after
start u topic last_event_id b = (
  b.next_handle,
  record b {
    subscribers =
        Dict.put b.next_handle
          (record {
            topic = topic;
            registered = true;
            finished = false;
            replay = replay_after u topic last_event_id b;
            queue = [];
          })
          b.subscribers;
    next_handle = b.next_handle + 1;
  },
)

pub data Answer : Type 0 where
  yields : Event → Answer
  waits stops : Answer

-- `finally`: the subscriber leaves the set
abbrev leave : Subscriber → Subscriber
leave s = record s { registered = false; finished = true }

pull : Subscriber → List Message → Answer × Subscriber
pull s [] = (waits, s)
pull s (event e ∷ rest) = (yields e, record s { queue = rest })
pull s (close ∷ rest) = (stops, leave (record s { queue = rest }))

resume_replay : Subscriber → List Event → Answer × Subscriber
unfolding pull
resume_replay s (e ∷ rest) = (yields e, record s { replay = rest })
resume_replay s [] = pull s s.queue

-- `__anext__` of a started generator; `waits` is the suspended `queue.get()`
pub resume : Subscriber → Answer × Subscriber
unfolding resume_replay
resume s = if s.finished then (stops, s) else resume_replay s s.replay

abbrev resumed : ℕ → Bus → Option Subscriber → Answer × Bus
resumed k b none = (stops, b)
resumed k b (some s) =
    let (a, s') = resume s in (a, record b { subscribers = Dict.put k s' b.subscribers })

pub next : ℕ → Bus → Answer × Bus
unfolding resume
next k b = resumed k b (Dict.get k b.subscribers)

abbrev left : ℕ → Bus → Option Subscriber → Bus
left k b none = b
left k b (some s) = record b { subscribers = Dict.put k (leave s) b.subscribers }

-- `aclose`
pub stop : ℕ → Bus → Bus
stop k b = left k b (Dict.get k b.subscribers)

-- `subscriber_count`
pub subscriber_count : String → Bus → ℕ
subscriber_count topic b =
    length (keep (λ s. s.registered && (s.topic == topic)) (Dict.values b.subscribers))
