-- ===== src/Bus/Postgres.antt =====
-- adapters/events/postgres.py: `PostgresEventBus`, with the table `events` that all containers share
-- and the pump of one container. `publish_event` of persistence/sql/003_publish_event.sql appends a
-- row under a lock, so the rows stand in the order of `seq`.
pub mod Log
pub mod Owed
pub mod Received
pub mod Tracks
mod Follows
pub mod Advance
mod Bounds
pub mod Delivery
pub mod Drain
pub mod Pacing
pub mod Steps
use modal_template_fastapi.Common.{
  ℕ, zero, ◌+◌, ◌-◌, ◌/◌, max, String, Bool, true, false, not, ◌&&◌, Option, none, some, List, [],
  ◌∷◌, ◌++◌, map, length, take, drop, keep, ltb, leb, nat_keys, string_keys, ◌==◌, if◌then◌else◌,
}
use modal_template_fastapi.Common.Dict
use modal_template_fastapi.Common.Dict.{Dict}
use modal_template_fastapi.Common.Text.{Unicode, ℤ, above, int_of}
use modal_template_fastapi.Domain.{Fields, Event}
use modal_template_fastapi.Bus.Memory.{
  Message, event, close, full, map_values, Answer, yields, waits, stops,
}

-- A row of `events`.
pub record Row : Type 0 where
  pub seq : ℕ
  pub topic : String
  pub type : String
  pub payload : Fields
  pub ts : ℕ

abbrev pub to_event : Row → Event
to_event r = record { id = r.seq; type = r.type; payload = r.payload; ts = r.ts }

-- The place at which the generator of `subscribe` is suspended: at the query for the head of the
-- log, at the query of `_replay`, at a `yield` or `queue.get()`, or it has returned.
pub data Stage : Type 0 where
  connecting replaying live finished : Stage

pub record Subscriber : Type 0 where
  pub topic : String
  pub last_event_id : Option String
  pub registered : Bool
  pub ready : Bool
  pub stage : Stage
  pub reg_seq : ℕ
  pub replay : List Event
  pub queue : List Message

-- `rows` and `next_seq` are the database's; `batch` holds the rows that `_drain` has read and not
-- yet dispatched; `running` tells that `_tasks` is not empty.
pub record Bus : Type 0 where
  pub replay_size : ℕ
  pub queue_size : ℕ
  pub retention : ℕ
  pub max_rows : ℕ
  pub rows : List Row
  pub next_seq : ℕ
  pub cursor : ℕ
  pub running : Bool
  pub batch : List Row
  pub subscribers : Dict ℕ Subscriber
  pub next_handle : ℕ

abbrev pub batch_size : ℕ
batch_size = 500

-- `SELECT coalesce(max(seq), 0) FROM events`
abbrev pub max_seq : List Row → ℕ
max_seq [] = 0
max_seq (r ∷ rs) = max r.seq (max_seq rs)

-- `seq > c`
abbrev pub after : ℕ → List Row → List Row
after c = keep (λ r. ltb c r.seq)

-- `start`; it does nothing where the tasks run already
unfoldable pub start : Bus → Bus
start b = if b.running then b else record b { cursor = max_seq b.rows; running = true }

abbrev pub shut : Subscriber → Subscriber
shut s = record s { queue = close ∷ [] }

-- One subscriber in the loop of `close`, which visits the registered ones.
unfoldable pub shut_registered : Subscriber → Subscriber
shut_registered s = if s.registered then shut s else s

-- `close`: the cancelled pump forgets the rows that it has read
unfoldable pub close_bus : Bus → Bus
close_bus b = record b {
  running = false;
  batch = [];
  subscribers = map_values shut_registered b.subscribers;
}

-- `publish`; the argument `now` is the database's clock
unfoldable pub publish : String → String → Fields → ℕ → Bus → Event × Bus
publish topic event_type payload now b =
    let r : Row = record {
      seq = b.next_seq;
      topic = topic;
      type = event_type;
      payload = payload;
      ts = now;
    } in
    (to_event r, record b { rows = b.rows ++ r ∷ []; next_seq = b.next_seq + 1 })

-- An insertion that the database rolls back leaves a gap in the numbers.
unfoldable pub publish_fails : Bus → Bus
publish_fails b = record b { next_seq = b.next_seq + 1 }

-- `subscribe` up to its first query
unfoldable pub register : String → Option String → Bus → ℕ × Bus
register topic last_event_id b = (
  b.next_handle,
  record b {
    subscribers =
        Dict.put b.next_handle
          (record {
            topic = topic;
            last_event_id = last_event_id;
            registered = true;
            ready = false;
            stage = connecting;
            reg_seq = 0;
            replay = [];
            queue = [];
          })
          b.subscribers;
    next_handle = b.next_handle + 1;
  },
)

-- The answer to the query for the head; where the query fails the pump's cursor serves.
unfoldable pub fix : Bool → Bus → Subscriber → Subscriber
fix failed b s = elim s.stage [
  | connecting ↦ record s {
    reg_seq = if failed then b.cursor else max_seq b.rows;
    ready = true;
    stage = replaying;
  }
  | _ ↦ s
]

abbrev pub last : ℕ → List Row → List Row
last n rs = drop (length rs - n) rs

-- The rows of the query in `_replay`: the newest `limit` of those in the range, oldest first.
unfoldable pub range : String → ℤ → ℕ → ℕ → List Row → List Row
range topic from up_to limit rows =
    last limit (keep (λ r. (r.topic == topic) && (above r.seq from && leb r.seq up_to)) rows)

abbrev pub replayed_from : Bool → String → ℕ → Bus → Option ℤ → List Event
replayed_from failed topic up_to b none = []
replayed_from failed topic up_to b (some from) =
    if failed then [] else map to_event (range topic from up_to b.replay_size b.rows)

-- `_replay`; a text that is no integer asks for no replay, and neither does a query that fails
unfoldable pub replay_of : Unicode → Bool → String → Option String → ℕ → Bus → List Event
unfolding range
replay_of u failed topic none up_to b = []
replay_of u failed topic (some last_event_id) up_to b =
    replayed_from failed topic up_to b (int_of u last_event_id)

-- The answer to the query of `_replay`.
unfoldable pub load : Unicode → Bool → Bus → Subscriber → Subscriber
unfolding replay_of
load u failed b s = elim s.stage [
  | replaying ↦ record s {
    replay = replay_of u failed s.topic s.last_event_id s.reg_seq b;
    stage = live;
  }
  | _ ↦ s
]

-- `finally`: the subscriber leaves the set
abbrev pub leave : Subscriber → Subscriber
leave s = record s { registered = false; stage = finished }

-- The loop of `subscribe`: an item that is not newer than `reg_seq` is passed over.
unfoldable pub pull : Subscriber → List Message → Answer × Subscriber
pull s [] = (waits, record s { queue = [] })
pull s (event e ∷ rest) =
    let again = pull s rest in
    if leb e.id s.reg_seq then again else (yields e, record s { queue = rest })
pull s (close ∷ rest) = (stops, leave (record s { queue = rest }))

unfoldable pub resume_live : Subscriber → List Event → Answer × Subscriber
unfolding pull
resume_live s (e ∷ rest) = (yields e, record s { replay = rest })
resume_live s [] = pull s s.queue

-- `__anext__`; one that is suspended at a query still waits
unfoldable pub resume : Subscriber → Answer × Subscriber
unfolding resume_live
resume s = elim s.stage [
  | connecting ↦ (waits, s)
  | replaying ↦ (waits, s)
  | live ↦ resume_live s s.replay
  | finished ↦ (stops, s)
]

abbrev pub asked : ℕ → Bus → Option Subscriber → Answer × Bus
asked k b none = (stops, b)
asked k b (some s) =
    let (a, s') = resume s in (a, record b { subscribers = Dict.put k s' b.subscribers })

unfoldable pub next : ℕ → Bus → Answer × Bus
next k b = asked k b (Dict.get k b.subscribers)

abbrev pub changed : ℕ → (Subscriber → Subscriber) → Bus → Option Subscriber → Bus
changed k f b none = b
changed k f b (some s) = record b { subscribers = Dict.put k (f s) b.subscribers }

-- What is done to one generator alone.
unfoldable pub change : ℕ → (Subscriber → Subscriber) → Bus → Bus
change k f b = changed k f b (Dict.get k b.subscribers)

-- One round of the loop of `_dispatch`.
unfoldable pub offer : ℕ → Row → Subscriber → Subscriber
offer size r s =
    if s.registered && (s.topic == r.topic)
    then if full size s.queue
      then record s { queue = close ∷ []; registered = false }
      else record s { queue = s.queue ++ event (to_event r) ∷ [] }
    else s

-- One round of the loop of `_drain` over the rows that it has read.
unfoldable pub dispatch : Row → Bus → Bus
unfolding offer
dispatch r b = record b {
  subscribers = map_values (offer b.queue_size r) b.subscribers;
  cursor = r.seq;
}

unfoldable pub dispatch_all : List Row → Bus → Bus
unfolding dispatch
dispatch_all [] b = b
dispatch_all (r ∷ rs) b = dispatch_all rs (dispatch r b)

abbrev pub fetched : Bus → List Row → Bus
fetched b [] = if b.running then record b { batch = take batch_size (after b.cursor b.rows) } else b
fetched b (_ ∷ _) = b

-- The query of `_drain`, which is asked when the rows of the one before are dispatched.
unfoldable pub fetch : Bus → Bus
fetch b = fetched b b.batch

abbrev pub chunk : Bus → ℕ
chunk b = max 1 (b.queue_size / 2)

-- `_drain` from one `sleep(0)` to the next: one chunk of the rows that it has read.
unfoldable pub dispatch_chunk : Bus → Bus
unfolding dispatch_all
dispatch_chunk b =
    let b' = dispatch_all (take (chunk b) b.batch) b in record b' { batch = drop (chunk b) b.batch }

-- `_prune`: by age, then by number
unfoldable pub prune : ℕ → Bus → Bus
prune now b =
    let young = keep (λ r. leb now (r.ts + b.retention)) b.rows in
    record b { rows = keep (λ r. not (leb (r.seq + b.max_rows) (max_seq young))) young }

-- `subscriber_count`
unfoldable pub subscriber_count : String → Bus → ℕ
subscriber_count topic b =
    length (keep (λ s. s.registered && (s.topic == topic) && s.ready) (Dict.values b.subscribers))
