-- ===== src/Witnesses/Postgres.antt =====
-- The adapters on Postgres over small tables.
use modal_template_fastapi.Common.{
  ◌≤◌, ◌<◌, All, ◌≡◌, refl, String, true, false, none, some, List, [], ◌∷◌, ◌++◌, length, take,
  drop, arith, ◌⊎◌, is_some, string_keys, nat_keys, ◌==◌, if◌then◌else◌,
}
use modal_template_fastapi.Common.Dict
use modal_template_fastapi.Domain.{Event, Item, end}
use modal_template_fastapi.Domain.Exec.{ok}
use modal_template_fastapi.Repo.Names.{Store, view, IsValid}
use modal_template_fastapi.Repo.Port.{Updated}
use modal_template_fastapi.Repo.Postgres.{answers, create, update, delete, list}
use modal_template_fastapi.Repo.Postgres.Refines.{CreateEnds, pages_counted, postgres_keeps}
use modal_template_fastapi.Stores.Postgres.{record_if_new, calls, records, forgets, claimed_once}
use modal_template_fastapi.Bus.Postgres.{Row, Bus, Subscriber, connecting, after, dispatch_all}
use modal_template_fastapi.Bus.Postgres.Log.{Ascending}
use modal_template_fastapi.Bus.Postgres.Owed.{pending, is_open, wanted}
use modal_template_fastapi.Bus.Postgres.Steps.{
  Action, publishes, fetches, dispatches, asks, run, concerns, Timely,
}
use modal_template_fastapi.Bus.Postgres.Delivery.{
  promised, between, loaded_bus, replayed, stream_follows_log,
}
use modal_template_fastapi.Bus.Postgres.Drain.{drain, drain_returns}
use modal_template_fastapi.Witnesses.{ascii}

abbrev same : String → String
same s = s

abbrev lamp : Item
lamp = record { id = "a"; name = "lamp"; description = none; project_id = none }

abbrev empty : Store
empty = []

empty-IsValid : IsValid same empty
unfolding Dict.get
empty-IsValid = record { distinct = tt; keyed = λ k i h. cc; unique = λ k l i j h. cc }

abbrev shelf : Store
shelf = ("a", lamp) ∷ []

list_pages_example :
    list same true answers answers shelf 5 1 shelf
    ≡ (ok (take 5 (drop 1 (Dict.values shelf)), length (Dict.values shelf)), shelf)
list_pages_example = pages_counted same true shelf 5 1 (omega arith)

postgres_keeps_example :
    (let created = create same true answers lamp empty in
      let updated = update same true answers lamp empty in
      let deleted = delete same true answers "a" empty in
      CreateEnds same true empty lamp created
      × IsValid same created.1
      × Updated same (view empty) (view updated.1) lamp updated.0
      × IsValid same updated.1
      × (deleted.0 ≡ ok (is_some (view empty "a")))
      × ((j : String) → view deleted.1 j ≡ (if "a" == j then none else view empty j))
      × IsValid same deleted.1)
postgres_keeps_example = postgres_keeps same true lamp "a" empty empty-IsValid

claimed_once_example :
    (record_if_new 100 "p" "w" 50 true 51 (
      calls 100
        (records "p" "x" 12 true 13 ∷ forgets "q" "w" ∷ [])
        (record_if_new 100 "p" "w" 10 false 11 []).1)).0
    ≡ false
unfolding record_if_new Dict.get
claimed_once_example =
    claimed_once 100 "p" "w" 10 11 50 51 false true []
      (records "p" "x" 12 true 13 ∷ forgets "q" "w" ∷ []) refl (omega arith)
      ((omega arith, omega arith), (refl, tt)) (omega arith)

abbrev first_row : Row
first_row = record { seq = 1; topic = "t"; type = "made"; payload = end; ts = 0 }

abbrev late_row : Row
late_row = record { seq = 3; topic = "t"; type = "made"; payload = end; ts = 0 }

abbrev reader : Subscriber
reader = record {
  topic = "t";
  last_event_id = some "0";
  registered = true;
  ready = false;
  stage = connecting;
  reg_seq = 0;
  replay = [];
  queue = [];
}

abbrev container : Bus
container = record {
  replay_size = 10;
  queue_size = 4;
  retention = 3600;
  max_rows = 100;
  rows = first_row ∷ late_row ∷ [];
  next_seq = 5;
  cursor = 1;
  running = true;
  batch = [];
  subscribers = (0, reader) ∷ [];
  next_handle = 1;
}

container_ordered : Ascending 0 container.rows container.next_seq
container_ordered = (omega arith, omega arith, (omega arith, omega arith, tt))

drain_returns_example :
    (drain 1 container ≡ some (dispatch_all (after 1 container.rows) container))
    × (after
          (dispatch_all (after 1 container.rows) container).cursor
          (dispatch_all (after 1 container.rows) container).rows
        ≡ [])
drain_returns_example = drain_returns 1 container container_ordered (omega arith)

abbrev one_published : List Action
one_published = publishes "t" "made" end 1 ∷ fetches ∷ []

abbrev read_out : List Action
read_out = dispatches ∷ asks 0 ∷ asks 0 ∷ []

stream_follows_log_example :
    (let later =
        run ascii 0 "t" read_out (loaded_bus ascii 0 reader container false false one_published) in
      (s' : Subscriber) × (rest : List Event) × (Dict.get 0 later.0.subscribers ≡ some s')
      × (replayed ascii 0 reader container false false one_published
            ++ (promised 3 reader container
                ++ (between ascii 0 reader container false false one_published).2)
            ++ later.2
          ≡ later.1 ++ (pending s' ++ rest))
      × All (λ e. e.id ≤ 3) (replayed ascii 0 reader container false false one_published)
      × All (λ e. 3 < e.id) (promised 3 reader container)
      × ((is_open s' ≡ false) ⊎ (rest ≡ wanted "t" 3 (after later.0.cursor later.0.rows))))
unfolding Dict.get concerns Timely
stream_follows_log_example =
    stream_follows_log ascii 0 reader container false false one_published read_out
      (record {
        ordered = container_ordered;
        behind = omega arith;
        unread = late_row ∷ [];
        split = refl;
      })
      (record { found = refl; old = omega arith; stage_is = refl; no_replay = refl })
      (refl, (refl, tt)) (tt, (tt, tt)) (tt, (tt, (tt, tt)))
