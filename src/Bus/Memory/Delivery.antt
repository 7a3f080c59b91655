-- ===== src/Bus/Memory/Delivery.antt =====
-- What one subscriber of the in-memory bus receives, whatever else happens on the bus.
use modal_template_fastapi.Common.{
  ℕ, ◌+◌, ◌<◌, ◌≡◌, refl, ap, sym, ◌∙◌, String, true, false, Option, none, some, List, [], ◌∷◌,
  ◌++◌, append_assoc, append-nil, nat_keys, string_keys, ◌==◌, nat_eq, nat_eq_iff, ==_refl, subst,
  arith, Bool-cases, ◌⊎◌, inl, inr, if◌then◌else◌,
}
use mathlib.Core.Option
use modal_template_fastapi.Common.Dict
use modal_template_fastapi.Common.Dict.{Dict, get-put}
use modal_template_fastapi.Common.Text.{Unicode}
use modal_template_fastapi.Domain.{Fields, Event}
use modal_template_fastapi.Bus.Memory.Owed.{
  answered, if_topic, pending, Owes, Owes-offer, Owes-resume, Owes-leave,
}
use modal_template_fastapi.Bus.Memory.{
  Subscriber, Bus, offer, map_values, publish, replay_after, start, resume, next, stop, resumed,
  left,
}

-- What may happen on a bus.
pub data Action : Type 0 where
  publishes : String → String → Fields → ℕ → Action
  starts : String → Option String → Action
  asks : ℕ → Action
  quits : ℕ → Action

pub get-map_values :
    {V : Type 0} (f : V → V) (k : ℕ) (m : Dict ℕ V)
    → Dict.get k (map_values f m) ≡ Option.map f (Dict.get k m)
unfolding Dict.get map_values
get-map_values f k [] = refl
get-map_values f k ((j, w) ∷ m) = ground (arith, get-map_values f k m)

-- What is new in an action: what `k` received, and what was published on the topic of `k`.
module _ (u : Unicode) (k : ℕ) (t : String) where
  -- One action: the bus after it, what the subscriber `k` received, and what was published on `t`.
  unfoldable pub act : Action → Bus → Bus × List Event × List Event
  act (publishes topic event_type payload now) b =
      let (e, b') = publish topic event_type payload now b in (b', [], if_topic t topic e)
  act (starts topic last_event_id) b = let (_, b') = start u topic last_event_id b in (b', [], [])
  act (asks j) b = let (a, b') = next j b in (b', (if j == k then answered a else []), [])
  act (quits j) b = (stop j b, [], [])

  unfoldable pub run : List Action → Bus → Bus × List Event × List Event
  run [] b = (b, [], [])
  run (x ∷ xs) b =
      let (b', received, published) = act x b in
      let (b'', received', published') = run xs b' in
      (b'', received ++ received', published ++ published')

  -- `k` is a started stream of topic `t`, and is owed these events.
  pub record Tracks (b : Bus) (owed : List Event) : Type 0 where
    pub stream : Subscriber
    pub found : Dict.get k b.subscribers ≡ some stream
    pub old : k < b.next_handle
    pub owes : Owes t stream owed

  abbrev Advances : List Event → Bus × List Event × List Event → Type 0
  Advances owed (b, received, published) =
      (owed' : List Event) × (owed ++ published ≡ received ++ owed') × Tracks b owed'

  -- The stream of another handle may change as it likes.
  Tracks-put_other :
      (j : ℕ) (s : Subscriber) (n : ℕ) (b : Bus) (owed : List Event)
      → Tracks b owed
      → nat_eq j k ≡ false
      → k < n
      → Tracks (record b { subscribers = Dict.put j s b.subscribers; next_handle = n }) owed
  Tracks-put_other j s n b owed h ne lt = record {
    stream = h.stream;
    found = simp (get-put, ne) h.found;
    old = lt;
    owes = h.owes;
  }

  Tracks-put_self :
      (s : Subscriber) (b : Bus) (owed : List Event)
      → k < b.next_handle
      → Owes t s owed
      → Tracks (record b { subscribers = Dict.put k s b.subscribers }) owed
  Tracks-put_self s b owed lt o = record {
    stream = s;
    found = simp (get-put, ==_refl);
    old = lt;
    owes = o;
  }

  ask_self : (b : Bus) (owed : List Event) → Tracks b owed → Advances owed (act (asks k) b)
  unfolding act next
  ask_self b owed h =
      let (owed', taken, o) = Owes-resume t h.stream owed h.owes in
      rw (h.found, ==_refl k)
        (owed', append-nil owed ∙ taken, Tracks-put_self (resume h.stream).1 b owed' h.old o)

  ask_other :
      (j : ℕ) (b : Bus) (owed : List Event)
      → Tracks b owed
      → nat_eq j k ≡ false
      → (o : Option Subscriber) → Tracks (resumed j b o).1 owed
  ask_other j b owed h ne none = h
  ask_other j b owed h ne (some s) = Tracks-put_other j (resume s).1 b.next_handle b owed h ne h.old

  quit_other :
      (j : ℕ) (b : Bus) (owed : List Event)
      → Tracks b owed
      → nat_eq j k ≡ false
      → (o : Option Subscriber) → Tracks (left j b o) owed
  quit_other j b owed h ne none = h
  quit_other j b owed h ne (some s) = Tracks-put_other j _ b.next_handle b owed h ne h.old

  quit_self : (b : Bus) (owed : List Event) → Tracks b owed → Advances owed (act (quits k) b)
  unfolding act stop
  quit_self b owed h =
      rw h.found
        (owed, append-nil owed, Tracks-put_self _ b owed h.old (Owes-leave t h.stream owed h.owes))

  act-Advances :
      (x : Action) (b : Bus) (owed : List Event) → Tracks b owed → Advances owed (act x b)
  unfolding act publish start stop next
  act-Advances (publishes topic event_type payload now) b owed h = (
    owed ++ if_topic t topic (publish topic event_type payload now b).0,
    refl,
    record {
      stream = offer b.queue_size topic (publish topic event_type payload now b).0 h.stream;
      found = rw (get-map_values, h.found) refl;
      old = h.old;
      owes = Owes-offer t h.stream owed h.owes b.queue_size topic _;
    },
  )
  act-Advances (starts topic last_event_id) b owed h = (
    owed,
    append-nil owed,
    Tracks-put_other b.next_handle _ (b.next_handle + 1) b owed h (ground (arith, h.old))
        (omega (arith, h.old)),
  )
  act-Advances (asks j) b owed h = elim (Bool-cases (nat_eq j k)) [
    | inl same ↦
        subst (λ x. Advances owed (act (asks x) b)) (sym ((nat_eq_iff j k).0 same))
          (ask_self b owed h)
    | inr ne ↦ (owed, simp (ne, append-nil), ask_other j b owed h ne (Dict.get j b.subscribers))
  ]
  act-Advances (quits j) b owed h = elim (Bool-cases (nat_eq j k)) [
    | inl same ↦
        subst (λ x. Advances owed (act (quits x) b)) (sym ((nat_eq_iff j k).0 same))
          (quit_self b owed h)
    | inr ne ↦ (owed, append-nil owed, quit_other j b owed h ne (Dict.get j b.subscribers))
  ]

  run-Advances :
      (xs : List Action) (b : Bus) (owed : List Event) → Tracks b owed → Advances owed (run xs b)
  unfolding run
  run-Advances [] b owed h = (owed, append-nil owed, h)
  run-Advances (x ∷ xs) b owed h =
      let (owed', e, h') = act-Advances x b owed h in
      let (owed'', e', h'') = run-Advances xs (act x b).0 owed' h' in
      (
        owed'',
        simp (← append_assoc) (rw e (simp append_assoc (ap (λ l. (act x b).1 ++ l) e'))),
        h'',
      )

-- A stream receives in order, without loss and without repetition, the replay that its start chose
-- and then every event published on its topic: at any later moment what it received, what it has
-- pending and what it lost make up that sequence, and while it is registered it has lost nothing.
-- Other streams may start, read and leave meanwhile, and events of other topics may be published.
pub stream_delivers :
    (u : Unicode) (t : String) (last_event_id : Option String) (b : Bus) (xs : List Action)
    → (let k = (start u t last_event_id b).0 in
        let r = run u k t xs (start u t last_event_id b).1 in
        (s : Subscriber) × (lost : List Event) × (Dict.get k r.0.subscribers ≡ some s)
        × (replay_after u t last_event_id b ++ r.2 ≡ r.1 ++ (pending s ++ lost))
        × ((s.registered ≡ false) ⊎ (lost ≡ [])))
unfolding start
stream_delivers u t last_event_id b xs =
    let k = b.next_handle in
    let (owed', e, h) =
      run-Advances u k t xs (start u t last_event_id b).1 (replay_after u t last_event_id b)
        (record {
          stream = record {
            topic = t;
            registered = true;
            finished = false;
            replay = replay_after u t last_event_id b;
            queue = [];
          };
          found = simp (get-put, ==_refl);
          old = omega arith;
          owes = record {
            topic_is = refl;
            rest = [];
            begins = simp append-nil;
            complete = λ r. (refl, refl);
          };
        }) in
    (h.stream, h.owes.rest, h.found, rw h.owes.begins e, ground (arith, h.owes.complete))
