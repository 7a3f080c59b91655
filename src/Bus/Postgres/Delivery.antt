-- ===== src/Bus/Postgres/Delivery.antt =====
-- What one stream of the bus on Postgres receives, whatever else happens.
use modal_template_fastapi.Common.{
  All-append, ℕ, ◌≤◌, ◌<◌, ◌≡◌, refl, ap, sym, ◌∙◌, String, Bool, true, false, Option, some, List,
  [], ◌∷◌, ◌++◌, append_assoc, nat_keys, string_keys, ==_refl, subst, arith, Bool-cases, All,
  All_map, All_any, ◌⊎◌, inl, inr, if◌then◌else◌,
}
use modal_template_fastapi.Common.Dict
use modal_template_fastapi.Common.Dict.{Dict, get-put}
use modal_template_fastapi.Common.Text.{Unicode}
use modal_template_fastapi.Domain.{Event}
use modal_template_fastapi.Bus.Postgres.{
  Row, Subscriber, Bus, Stage, connecting, replaying, live, finished, after, max_seq, fix, load,
  change, replay_of,
}
use modal_template_fastapi.Bus.Postgres.Log.{WellFormed, max_seq-below}
use modal_template_fastapi.Bus.Postgres.Owed.{before_close, newer, pending, is_open, wanted}
use modal_template_fastapi.Bus.Postgres.Bounds.{replay_below, newer_above, wanted_above}
use modal_template_fastapi.Bus.Postgres.Received.{is_loaded}
use modal_template_fastapi.Bus.Postgres.Steps.{Action, concerns, run, Timely}
use modal_template_fastapi.Bus.Postgres.Tracks.{is_fixed, Tracks, Follows}
use modal_template_fastapi.Bus.Postgres.Advance.{run-Advances, nothing_received}

-- The number after which the stream starts.
abbrev pub point_of : Bool → Bus → ℕ
point_of failed b = if failed then b.cursor else max_seq b.rows

-- What is promised when the starting point is fixed: the newer ones of the events that the pump has
-- handed over since the registration, and of those that it has yet to dispatch.
abbrev pub promised : ℕ → Subscriber → Bus → List Event
promised n s b = newer n (before_close s.queue) ++ wanted s.topic n (after b.cursor b.rows)

-- A stream of `subscribe` whose first query is out.
pub record Connecting (k : ℕ) (s : Subscriber) (b : Bus) : Type 0 where
  pub found : Dict.get k b.subscribers ≡ some s
  pub old : k < b.next_handle
  pub stage_is : s.stage ≡ connecting
  pub no_replay : s.replay ≡ []

-- Nothing in the log is newer than its head.
pub wanted_head :
    (t : String) (c n : ℕ) (rs : List Row) → max_seq rs ≤ n → wanted t n (after c rs) ≡ []
wanted_head t c n [] l = refl
wanted_head t c n (r ∷ rs) l = ground (arith, wanted_head t c n rs (omega arith))

-- Where the first query is answered before the pump hands anything over, it promises nothing older.
pub promised_none : (s : Subscriber) (b : Bus) → s.queue ≡ [] → promised (point_of false b) s b ≡ []
promised_none s b e = rw e (wanted_head s.topic b.cursor (max_seq b.rows) b.rows (omega arith))

promised_above : (n : ℕ) (s : Subscriber) (b : Bus) → All (λ e. n < e.id) (promised n s b)
promised_above n s b =
    All-append (λ e. n < e.id) _ _ (newer_above n (before_close s.queue))
      (wanted_above s.topic n (after b.cursor b.rows))

point-below : (failed : Bool) (b : Bus) → WellFormed b → point_of failed b < b.next_seq
point-below true b h = h.behind
point-below false b h = max_seq-below 0 b.next_seq b.rows (omega (arith, h.behind)) h.ordered

module _ (u : Unicode) (k : ℕ) (s : Subscriber) (b : Bus) (failed : Bool) where
  fixed_is :
      Connecting k s b
      → change k (fix failed b) b ≡ record b {
        subscribers =
            Dict.put k
              (record s { reg_seq = point_of failed b; ready = true; stage = replaying })
              b.subscribers;
      }
  unfolding change fix
  fixed_is h = rw (h.found, h.stage_is)

  fix-Follows :
      WellFormed b
      → Connecting k s b
      → Follows u k s.topic s.last_event_id
          (point_of failed b)
          false
          (change k (fix failed b) b)
          (promised (point_of failed b) s b)
  fix-Follows w h =
      subst
        (λ x.
          Follows u k s.topic s.last_event_id (point_of failed b) false x
            (promised (point_of failed b) s b))
        (sym (fixed_is h))
        (record {
          later = w.unread;
          tracks = record {
            stream = record s { reg_seq = point_of failed b; ready = true; stage = replaying };
            found = simp (get-put, ==_refl);
            old = h.old;
            point = refl;
            fixed = refl;
            loaded = refl;
            waiting = λ e. (h.no_replay, refl);
            older = point-below failed b w;
            ordered = w.ordered;
            behind = w.behind;
            unread_is = sym w.split;
            owes = record {
              topic_is = refl;
              rest = wanted s.topic (point_of failed b) (b.batch ++ w.unread);
              begins = rw (h.no_replay, w.split) refl;
              complete = λ o. (refl, refl);
            };
          };
        })

module _ (u : Unicode) (k : ℕ) (t : String) (w : Option String) (n : ℕ) (failed : Bool) where
  waiting_stage :
      (stage : Stage) → is_fixed stage ≡ true → is_loaded stage ≡ false → stage ≡ replaying
  waiting_stage connecting f l = cc
  waiting_stage replaying f l = refl
  waiting_stage live f l = cc
  waiting_stage finished f l = cc

  load_is :
      (b : Bus) (s : Subscriber)
      → s.stage ≡ replaying
      → s.topic ≡ t
      → s.last_event_id ≡ w
      → s.reg_seq ≡ n
      → load u failed b s ≡ record s { replay = replay_of u failed t w n b; stage = live }
  unfolding load
  load_is b s e p q r = ground (arith, e)

  load-Follows :
      (b : Bus) (owed : List Event)
      → Follows u k t w n false b owed
      → Follows u k t w n true (change k (load u failed b) b) (replay_of u failed t w n b ++ owed)
  unfolding change
  load-Follows b owed h = rw g.found (
      subst (λ x. Follows u k t w n true (with_stream x) (replay ++ owed))
        (sym (load_is b g.stream is_waiting g.owes.topic_is (g.waiting refl).1 g.point))
        (record {
          later = h.later;
          tracks = record {
            stream = loaded_stream;
            found = simp (get-put, ==_refl);
            old = g.old;
            point = g.point;
            fixed = refl;
            loaded = refl;
            waiting = λ e. cc;
            older = g.older;
            ordered = g.ordered;
            behind = g.behind;
            unread_is = g.unread_is;
            owes = record {
              topic_is = g.owes.topic_is;
              rest = g.owes.rest;
              begins = simp append_assoc (ap (λ l. replay ++ l) waited);
              complete = λ o. (refl, (g.owes.complete o).1);
            };
          };
        }))
    where
      g : Tracks u k t w n false b (b.batch ++ h.later) owed
      g = h.tracks

      replay : List Event
      replay = replay_of u failed t w n b

      with_stream : Subscriber → Bus
      with_stream x = record b { subscribers = Dict.put k x b.subscribers }

      loaded_stream : Subscriber
      loaded_stream = record g.stream { replay = replay; stage = live }

      is_waiting : g.stream.stage ≡ replaying
      is_waiting = waiting_stage g.stream.stage g.fixed g.loaded

      waited : newer g.stream.reg_seq (before_close g.stream.queue) ++ g.owes.rest ≡ owed
      waited = rw (is_waiting, (g.waiting refl).0) at g.owes.begins

-- The bus once the first query is answered; the run up to the second answer; the bus after that.
module _ (u : Unicode) (k : ℕ) (s : Subscriber) (b : Bus) (failed failed' : Bool)
    (xs : List Action) where
  abbrev pub fixed_bus : Bus
  fixed_bus = change k (fix failed b) b

  abbrev pub between : Bus × List Event × List Event
  between = run u k s.topic xs fixed_bus

  abbrev pub loaded_bus : Bus
  loaded_bus = change k (load u failed' between.0) between.0

  abbrev pub replayed : List Event
  replayed = replay_of u failed' s.topic s.last_event_id (point_of failed b) between.0

-- A stream of the bus on Postgres loses nothing, repeats nothing and keeps the order, whatever happens
-- between its queries and after them: publications anywhere, gaps in the numbers, the pump's reading
-- and dispatching, other streams, overflowing queues and the end of the bus, provided no row is
-- pruned before the pump has dispatched it. What the stream received, what it has pending and the
-- rest make up, in this order, the replay that its second query chose, what its first query
-- promised, and all that was published on its topic since. The replay stays at or below the number
-- at which the first query cut the log, and what was promised is above it. While the stream is
-- neither dropped nor closed nor left, the rest is exactly the events of its topic above that number
-- that the pump has yet to dispatch.
pub stream_follows_log :
    (u : Unicode) (k : ℕ) (s : Subscriber) (b : Bus) (failed failed' : Bool) (xs ys : List Action)
    → WellFormed b
    → Connecting k s b
    → All (λ x. concerns k x ≡ false) xs
    → Timely u k s.topic xs (fixed_bus u k s b failed failed' xs)
    → Timely u k s.topic ys (loaded_bus u k s b failed failed' xs)
    → (let n = point_of failed b in
        let later = run u k s.topic ys (loaded_bus u k s b failed failed' xs) in
        (s' : Subscriber) × (rest : List Event) × (Dict.get k later.0.subscribers ≡ some s')
        × (replayed u k s b failed failed' xs
              ++ (promised n s b ++ (between u k s b failed failed' xs).2)
              ++ later.2
            ≡ later.1 ++ (pending s' ++ rest))
        × All (λ e. e.id ≤ n) (replayed u k s b failed failed' xs)
        × All (λ e. n < e.id) (promised n s b)
        × ((is_open s' ≡ false) ⊎ (rest ≡ wanted s.topic n (after later.0.cursor later.0.rows))))
stream_follows_log u k s b failed failed' xs ys w h alone kept kept' =
    let t = s.topic in
    let i = s.last_event_id in
    let n = point_of failed b in
    let owed = promised n s b in
    let silent = nothing_received u k t i n false xs (fixed_bus u k s b failed failed' xs) alone in
    let (owed', e, f) =
      run-Advances u k t i n false xs (fixed_bus u k s b failed failed' xs) owed
        (All_map (λ x a. rw a) xs alone) kept (fix-Follows u k s b failed w h) in
    let (owed'', e', f') =
      run-Advances u k t i n true ys (loaded_bus u k s b failed failed' xs)
        (replayed u k s b failed failed' xs ++ owed') (All_any (λ x. ground arith) ys) kept'
        (load-Follows u k t i n failed' (between u k s b failed failed' xs).0 owed' f) in
    let g = f'.tracks in
    (
      g.stream,
      g.owes.rest,
      g.found,
      rw (e, silent, g.owes.begins) e',
      replay_below u failed' t i n (between u k s b failed failed' xs).0,
      promised_above n s b,
      elim (Bool-cases (is_open g.stream)) [
        | inl o ↦ inr ((g.owes.complete o).1 ∙ ap (wanted t n) (sym g.unread_is))
        | inr o ↦ inl o
      ],
    )
