-- ===== src/Bus/Postgres/Tracks.antt =====
-- One stream of the bus on Postgres, through the steps of its generator, the pump and the publishers.
use modal_template_fastapi.Common.{
  ℕ, ◌<◌, ◌≤◌, ◌≡◌, refl, sym, ◌∙◌, String, Bool, true, false, Option, some, List, [], ◌∷◌, ◌++◌,
  nat_keys, string_keys, nat_eq, ==_refl, keep, keep-append, subst, arith,
}
use modal_template_fastapi.Common.Dict
use modal_template_fastapi.Common.Dict.{Dict, get-put}
use modal_template_fastapi.Common.Text.{Unicode}
use modal_template_fastapi.Domain.{Fields, Event}
use modal_template_fastapi.Bus.Memory.Owed.{if_topic}
use modal_template_fastapi.Bus.Memory.Delivery.{get-map_values}
use modal_template_fastapi.Bus.Postgres.{
  Row, Stage, connecting, Subscriber, Bus, after, publish, offer, dispatch, dispatch_all, close_bus,
  shut_registered,
}
use modal_template_fastapi.Bus.Postgres.Log.{
  Ascending, Ascending-raise, Ascending-append, Ascending-keep, after-tail,
}
use modal_template_fastapi.Bus.Postgres.Owed.{
  wanted, wanted-append, Owes, Owes-more, Owes-shut, Owes-offer, offer-same,
}
use modal_template_fastapi.Bus.Postgres.Received.{is_loaded}

abbrev pub is_fixed : Stage → Bool
is_fixed connecting = false
is_fixed _ = true

module _ (u : Unicode) (k : ℕ) (t : String) (w : Option String) (n : ℕ) (m : Bool) where
  -- `k` is a stream of topic `t` that starts after the number `n`; it has its replay if `m`. The rows
  -- `unread` are those after the cursor.
  pub record Tracks (b : Bus) (unread : List Row) (owed : List Event) : Type 0 where
    pub stream : Subscriber
    pub found : Dict.get k b.subscribers ≡ some stream
    pub old : k < b.next_handle
    pub point : stream.reg_seq ≡ n
    pub fixed : is_fixed stream.stage ≡ true
    pub loaded : is_loaded stream.stage ≡ m
    pub waiting : m ≡ false → (stream.replay ≡ []) × (stream.last_event_id ≡ w)
    pub older : n < b.next_seq
    pub ordered : Ascending 0 b.rows b.next_seq
    pub behind : b.cursor < b.next_seq
    pub unread_is : after b.cursor b.rows ≡ unread
    pub owes : Owes t stream (wanted t n unread) owed

  -- The pump has read the first of the unread rows.
  pub record Follows (b : Bus) (owed : List Event) : Type 0 where
    pub later : List Row
    pub tracks : Tracks b (b.batch ++ later) owed

  abbrev pub Advances : List Event → Bus × List Event × List Event → Type 0
  Advances owed (b, received, published) =
      (owed' : List Event) × (owed ++ published ≡ received ++ owed') × Follows b owed'

  -- The stream of another handle may change as it likes.
  pub put_other :
      (j : ℕ) (s : Subscriber) (h' : ℕ) (b : Bus) (unread : List Row) (owed : List Event)
      → Tracks b unread owed
      → nat_eq j k ≡ false
      → k < h'
      → Tracks (record b { subscribers = Dict.put j s b.subscribers; next_handle = h' }) unread owed
  put_other j s h' b unread owed h ne lt = record {
    stream = h.stream;
    found = simp (get-put, ne) h.found;
    old = lt;
    point = h.point;
    fixed = h.fixed;
    loaded = h.loaded;
    waiting = h.waiting;
    older = h.older;
    ordered = h.ordered;
    behind = h.behind;
    unread_is = h.unread_is;
    owes = h.owes;
  }

  pub put_self :
      (s : Subscriber) (b : Bus) (unread : List Row) (owed owed' : List Event)
      → Tracks b unread owed
      → s.reg_seq ≡ n
      → is_fixed s.stage ≡ true
      → is_loaded s.stage ≡ m
      → (m ≡ false → (s.replay ≡ []) × (s.last_event_id ≡ w))
      → Owes t s (wanted t n unread) owed'
      → Tracks (record b { subscribers = Dict.put k s b.subscribers }) unread owed'
  put_self s b unread owed owed' h p f l g o = record {
    stream = s;
    found = simp (get-put, ==_refl);
    old = h.old;
    point = p;
    fixed = f;
    loaded = l;
    waiting = g;
    older = h.older;
    ordered = h.ordered;
    behind = h.behind;
    unread_is = h.unread_is;
    owes = o;
  }

  dispatch-Tracks :
      (r : Row) (b : Bus) (unread : List Row) (owed : List Event)
      → Tracks b (r ∷ unread) owed
      → Tracks (dispatch r b) unread owed
  unfolding dispatch
  dispatch-Tracks r b unread owed h =
      let (same_stage, same_point, same_replay, same_asked) =
        offer-same t h.stream owed b.queue_size r unread in
      let (next_unread, below) =
        after-tail 0 b.next_seq b.cursor b.rows unread r h.ordered h.unread_is in
      record {
        stream = offer b.queue_size r h.stream;
        found = rw (get-map_values, h.found) refl;
        old = h.old;
        point = same_point ∙ h.point;
        fixed = rw same_stage h.fixed;
        loaded = rw same_stage h.loaded;
        waiting = λ e. rw (same_replay, same_asked) (h.waiting e);
        older = h.older;
        ordered = h.ordered;
        behind = below;
        unread_is = next_unread;
        owes =
            subst (λ x. Owes t (offer b.queue_size r h.stream) (wanted t x unread) owed) h.point
              (Owes-offer t h.stream owed b.queue_size r unread
                (subst (λ x. Owes t h.stream (wanted t x (r ∷ unread)) owed) (sym h.point) h.owes));
      }

  pub dispatch_all-Tracks :
      (rs : List Row) (b : Bus) (unread : List Row) (owed : List Event)
      → Tracks b (rs ++ unread) owed
      → Tracks (dispatch_all rs b) unread owed
  unfolding dispatch_all
  dispatch_all-Tracks [] b unread owed h = h
  dispatch_all-Tracks (r ∷ rs) b unread owed h =
      dispatch_all-Tracks rs (dispatch r b) unread owed (dispatch-Tracks r b (rs ++ unread) owed h)

  pub publish-Tracks :
      (topic event_type : String) (payload : Fields) (now : ℕ) (b : Bus) (unread : List Row)
      (owed : List Event)
      → Tracks b unread owed
      → Tracks
          (publish topic event_type payload now b).1
          (unread
            ++ record {
              seq = b.next_seq;
              topic = topic;
              type = event_type;
              payload = payload;
              ts = now;
            }
              ∷ [])
          (owed ++ if_topic t topic (publish topic event_type payload now b).0)
  unfolding publish
  publish-Tracks topic event_type payload now b unread owed h =
      let r : Row = record {
        seq = b.next_seq;
        topic = topic;
        type = event_type;
        payload = payload;
        ts = now;
      } in
      record {
        stream = h.stream;
        found = h.found;
        old = h.old;
        point = h.point;
        fixed = h.fixed;
        loaded = h.loaded;
        waiting = h.waiting;
        older = omega (arith, h.older);
        ordered = Ascending-append 0 b.next_seq b.rows r (omega (arith, h.older)) refl h.ordered;
        behind = omega (arith, h.behind);
        unread_is = rw (keep-append, h.unread_is) (ground (arith, h.behind));
        owes = rw (wanted-append) (
            subst (λ l. Owes t h.stream (wanted t n unread ++ wanted t n (r ∷ [])) (owed ++ l))
              (ground (arith, h.older))
              (Owes-more t h.stream (wanted t n unread) owed h.owes (wanted t n (r ∷ []))));
      }

  pub rows-Tracks :
      (b : Bus) (unread : List Row) (owed : List Event) (p q : Row → Bool)
      → after b.cursor (keep q (keep p b.rows)) ≡ after b.cursor b.rows
      → Tracks b unread owed
      → Tracks (record b { rows = keep q (keep p b.rows) }) unread owed
  rows-Tracks b unread owed p q e h = record {
    stream = h.stream;
    found = h.found;
    old = h.old;
    point = h.point;
    fixed = h.fixed;
    loaded = h.loaded;
    waiting = h.waiting;
    older = h.older;
    ordered =
        Ascending-keep 0 b.next_seq q (keep p b.rows)
          (Ascending-keep 0 b.next_seq p b.rows h.ordered);
    behind = h.behind;
    unread_is = e ∙ h.unread_is;
    owes = h.owes;
  }

  -- The batch and the run of the pump are not the stream's concern, nor is a gap in the numbers.
  pub pump-Tracks :
      (b : Bus) (unread : List Row) (owed : List Event) (r : Bool) (rs : List Row) (top : ℕ)
      → b.next_seq ≤ top
      → Tracks b unread owed
      → Tracks (record b { running = r; batch = rs; next_seq = top }) unread owed
  pump-Tracks b unread owed r rs top l h = record {
    stream = h.stream;
    found = h.found;
    old = h.old;
    point = h.point;
    fixed = h.fixed;
    loaded = h.loaded;
    waiting = h.waiting;
    older = omega (arith, h.older, l);
    ordered = Ascending-raise 0 b.next_seq top b.rows l h.ordered;
    behind = omega (arith, h.behind, l);
    unread_is = h.unread_is;
    owes = h.owes;
  }

  pub close-Tracks :
      (b : Bus) (unread : List Row) (owed : List Event)
      → Tracks b unread owed
      → Tracks (close_bus b) unread owed
  unfolding close_bus shut_registered
  close-Tracks b unread owed h = record {
    stream = shut_registered h.stream;
    found = rw (get-map_values, h.found) refl;
    old = h.old;
    point = ground (arith, h.point);
    fixed = ground (arith, h.fixed);
    loaded = ground (arith, h.loaded);
    waiting = λ e. ground (arith, h.waiting e);
    older = h.older;
    ordered = h.ordered;
    behind = h.behind;
    unread_is = h.unread_is;
    owes = Owes-shut t h.stream (wanted t n unread) owed h.owes (wanted t n unread);
  }
