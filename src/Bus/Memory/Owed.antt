-- ===== src/Bus/Memory/Owed.antt =====
-- What the in-memory bus still owes one of its subscribers.
use modal_template_fastapi.Common.{
  ℕ, ◌≡◌, refl, ap, sym, String, true, false, List, [], ◌∷◌, ◌++◌, ◌&&◌, subst, append_assoc,
  append-nil, nat_keys, string_keys, ◌==◌, eq_iff, arith, Bool-cases, inl, inr, if◌then◌else◌,
}
use modal_template_fastapi.Domain.{Event}
use modal_template_fastapi.Bus.Memory.{
  Message, event, close, Subscriber, offer, full, Answer, yields, waits, stops, resume,
  resume_replay, pull,
}

-- The events among the messages.
abbrev pub events : List Message → List Event
events [] = []
events (event e ∷ q) = e ∷ events q
events (close ∷ q) = events q

abbrev pub answered : Answer → List Event
answered (yields e) = e ∷ []
answered waits = []
answered stops = []

abbrev pub if_topic : String → String → Event → List Event
if_topic t topic e = if t == topic then e ∷ [] else []

-- What the subscriber would still receive if nothing more were published.
abbrev pub pending : Subscriber → List Event
pending s = if s.finished then [] else s.replay ++ events s.queue

-- The subscriber of topic `t` is owed the events `owed`, in this order. It has them all pending while
-- it is registered, and a prefix of them once it was dropped or has left.
pub record Owes (t : String) (s : Subscriber) (owed : List Event) : Type 0 where
  pub topic_is : s.topic ≡ t
  pub rest : List Event
  pub begins : pending s ++ rest ≡ owed
  pub complete : s.registered ≡ true → (s.finished ≡ false) × (rest ≡ [])

events-append : (q : List Message) (e : Event) → events (q ++ event e ∷ []) ≡ events q ++ e ∷ []
events-append [] e = refl
events-append (event d ∷ q) e = ap (◌∷◌ d) (events-append q e)
events-append (close ∷ q) e = events-append q e

-- The three ways in which one round of `publish` ends for a subscriber.
module _ (size : ℕ) (topic : String) (e : Event) (s : Subscriber) where
  offer_idle : (s.registered && (s.topic == topic)) ≡ false → offer size topic e s ≡ s
  unfolding offer
  offer_idle h = ground arith

  offer-full :
      (s.registered && (s.topic == topic)) ≡ true
      → full size s.queue ≡ true
      → offer size topic e s ≡ record s { queue = close ∷ []; registered = false }
  unfolding offer
  offer-full h f = rw (h, f)

  offer_room :
      (s.registered && (s.topic == topic)) ≡ true
      → full size s.queue ≡ false
      → offer size topic e s ≡ record s { queue = s.queue ++ event e ∷ [] }
  unfolding offer
  offer_room h f = rw (h, f)

module _ (t : String) (s : Subscriber) (owed : List Event) (h : Owes t s owed) where
  -- One that is not registered is owed nothing more, and may have lost what is added.
  Owes-more : (more : List Event) → s.registered ≡ false → Owes t s (owed ++ more)
  Owes-more more gone = record {
    topic_is = h.topic_is;
    rest = h.rest ++ more;
    begins = rw (← append_assoc) (ap (λ l. l ++ more) h.begins);
    complete = λ r. cc;
  }

  -- Registered, on the topic, nothing lost so far.
  all_pending : s.registered ≡ true → s.replay ++ events s.queue ≡ owed
  all_pending r = ground (arith, h.complete r, h.begins, append-nil (s.replay ++ events s.queue))

  Owes-offer_here :
      (size : ℕ) (topic : String) (e : Event)
      → s.registered ≡ true
      → t ≡ topic
      → Owes t (offer size topic e s) (owed ++ e ∷ [])
  Owes-offer_here size topic e here same = elim (Bool-cases (full size s.queue)) [
    | inl f ↦ rw (offer-full size topic e s on_topic f) (record {
      topic_is = h.topic_is;
      rest = events s.queue ++ e ∷ [];
      begins =
          simp ((h.complete here).0, events-append, append-nil, append_assoc, ← all_pending here);
      complete = λ r. cc;
    })
    | inr f ↦ rw (offer_room size topic e s on_topic f) (record {
      topic_is = h.topic_is;
      rest = [];
      begins =
          simp ((h.complete here).0, events-append, append-nil, append_assoc, ← all_pending here);
      complete = λ r. ((h.complete here).0, refl);
    })
  ]
    where
      on_topic : (s.registered && (s.topic == topic)) ≡ true
      on_topic = ground (arith, eq_iff s.topic topic, h.topic_is)

  pub Owes-offer :
      (size : ℕ) (topic : String) (e : Event)
      → Owes t (offer size topic e s) (owed ++ if_topic t topic e)
  Owes-offer size topic e = elim (Bool-cases (t == topic)) [
    | inl same ↦ elim (Bool-cases s.registered) [
      | inl here ↦ rw same (Owes-offer_here size topic e here ((eq_iff t topic).0 same))
      | inr gone ↦
          rw (offer_idle size topic e s (ground arith)) (Owes-more (if_topic t topic e) gone)
    ]
    | inr other ↦
        rw
          (
            offer_idle size topic e s
                (ground (arith, eq_iff s.topic topic, eq_iff t topic, h.topic_is)),
            other,
            append-nil,
          )
          h
  ]

-- Receiving takes the front of what is owed.
abbrev pub Received : String → List Event → Answer × Subscriber → Type 0
Received t owed (a, s) = (owed' : List Event) × (owed ≡ answered a ++ owed') × Owes t s owed'

module _ (t : String) (s : Subscriber) (owed : List Event) (h : Owes t s owed) where
  pull-Received :
      (q : List Message)
      → s.finished ≡ false
      → s.replay ≡ []
      → s.queue ≡ q
      → Received t owed (pull s q)
  unfolding pull
  pull-Received [] f r e = (owed, refl, h)
  pull-Received (event d ∷ q) f r e = (
    events q ++ h.rest,
    ground (arith, h.begins),
    record { topic_is = h.topic_is; rest = h.rest; begins = simp (f, r); complete = h.complete },
  )
  pull-Received (close ∷ q) f r e =
      (owed, refl, record { topic_is = h.topic_is; rest = owed; begins = refl; complete = λ x. cc })

  resume_replay-Received :
      (r : List Event) → s.finished ≡ false → s.replay ≡ r → Received t owed (resume_replay s r)
  unfolding resume_replay
  resume_replay-Received [] f e = pull-Received s.queue f e refl
  resume_replay-Received (d ∷ r) f e = (
    (r ++ events s.queue) ++ h.rest,
    ground (arith, h.begins),
    record { topic_is = h.topic_is; rest = h.rest; begins = simp f; complete = h.complete },
  )

  resume_finished : s.finished ≡ true → resume s ≡ (stops, s)
  unfolding resume
  resume_finished f = ground arith

  resume_open : s.finished ≡ false → resume s ≡ resume_replay s s.replay
  unfolding resume
  resume_open f = ground arith

  pub Owes-resume : Received t owed (resume s)
  Owes-resume = elim (Bool-cases s.finished) [
    | inl done ↦ subst (Received t owed) (sym (resume_finished done)) (owed, refl, h)
    | inr f ↦ subst (Received t owed) (sym (resume_open f)) (resume_replay-Received s.replay f refl)
  ]

  pub Owes-leave : Owes t (record s { registered = false; finished = true }) owed
  Owes-leave = record { topic_is = h.topic_is; rest = owed; begins = refl; complete = λ x. cc }
