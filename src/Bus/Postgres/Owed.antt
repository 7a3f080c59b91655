-- ===== src/Bus/Postgres/Owed.antt =====
-- What the bus on Postgres still owes one of its subscribers.
use modal_template_fastapi.Common.{
  ℕ, ◌≡◌, refl, ap, String, Bool, true, false, List, [], ◌∷◌, ◌++◌, ◌&&◌, keep, keep-append,
  append_assoc, append-nil, nat_keys, string_keys, ◌==◌, eq_iff, ltb, arith, Bool-cases, inl, inr,
  if◌then◌else◌,
}
use modal_template_fastapi.Domain.{Event}
use modal_template_fastapi.Bus.Memory.{Message, event, close, full}
use modal_template_fastapi.Bus.Postgres.{
  Row, to_event, Stage, finished, Subscriber, shut_registered, leave, offer,
}

-- The events in a queue up to the mark that ends the stream, and whether there is none.
abbrev pub before_close : List Message → List Event
before_close [] = []
before_close (event e ∷ q) = e ∷ before_close q
before_close (close ∷ q) = []

abbrev pub unmarked : List Message → Bool
unmarked [] = true
unmarked (event e ∷ q) = unmarked q
unmarked (close ∷ q) = false

abbrev pub newer : ℕ → List Event → List Event
newer n = keep (λ e. ltb n e.id)

abbrev pub is_finished : Stage → Bool
is_finished finished = true
is_finished _ = false

-- What the subscriber would still receive if the pump dispatched nothing more.
abbrev pub pending : Subscriber → List Event
pending s = if is_finished s.stage then [] else s.replay ++ newer s.reg_seq (before_close s.queue)

-- Neither dropped, nor closed, nor left.
abbrev pub is_open : Subscriber → Bool
is_open s = s.registered && unmarked s.queue

-- The events of the rows of topic `t` above `n`.
abbrev pub wanted : String → ℕ → List Row → List Event
wanted t n [] = []
wanted t n (r ∷ rs) =
    let rest = wanted t n rs in if (t == r.topic) && ltb n r.seq then to_event r ∷ rest else rest

-- The subscriber of topic `t` is owed the events `owed`, in this order: first those pending, then,
-- while it is open, exactly those that are still to be dispatched.
pub record Owes (t : String) (s : Subscriber) (coming owed : List Event) : Type 0 where
  pub topic_is : s.topic ≡ t
  pub rest : List Event
  pub begins : pending s ++ rest ≡ owed
  pub complete : is_open s ≡ true → (is_finished s.stage ≡ false) × (rest ≡ coming)

pub wanted-append :
    (t : String) (n : ℕ) (rs qs : List Row) → wanted t n (rs ++ qs) ≡ wanted t n rs ++ wanted t n qs
wanted-append t n [] qs = refl
wanted-append t n (r ∷ rs) qs = ground (arith, wanted-append t n rs qs)

before_close-append :
    (q : List Message) (e : Event)
    → before_close (q ++ event e ∷ [])
      ≡ (if unmarked q then before_close q ++ e ∷ [] else before_close q)
before_close-append [] e = refl
before_close-append (event d ∷ q) e = ground (arith, before_close-append q e)
before_close-append (close ∷ q) e = refl

unmarked-append : (q : List Message) (e : Event) → unmarked (q ++ event e ∷ []) ≡ unmarked q
unmarked-append [] e = refl
unmarked-append (event d ∷ q) e = unmarked-append q e
unmarked-append (close ∷ q) e = refl

module _ (t : String) (s : Subscriber) (coming owed : List Event) (h : Owes t s coming owed) where
  -- What is published on the topic joins what is coming and what is owed.
  pub Owes-more : (more : List Event) → Owes t s (coming ++ more) (owed ++ more)
  Owes-more more = record {
    topic_is = h.topic_is;
    rest = h.rest ++ more;
    begins = rw (← append_assoc) (ap (λ l. l ++ more) h.begins);
    complete = λ o. ((h.complete o).0, ap (λ l. l ++ more) (h.complete o).1);
  }

  -- One that is not open is promised nothing.
  pub Owes-any : (coming' : List Event) → is_open s ≡ false → Owes t s coming' owed
  Owes-any coming' c = record {
    topic_is = h.topic_is;
    rest = h.rest;
    begins = h.begins;
    complete = λ o. cc;
  }

  -- A mark at once: what was in the queue is lost.
  Owes-emptied :
      (r : Bool) (coming' : List Event)
      → Owes t (record s { queue = close ∷ []; registered = r }) coming' owed
  Owes-emptied r coming' = elim (Bool-cases (is_finished s.stage)) [
    | inl f ↦ record {
      topic_is = h.topic_is;
      rest = owed;
      begins = rw f;
      complete = λ o. ground arith;
    }
    | inr f ↦ record {
      topic_is = h.topic_is;
      rest = newer s.reg_seq (before_close s.queue) ++ h.rest;
      begins = rw f (simp (append-nil, ← append_assoc) (ground (arith, h.begins)));
      complete = λ o. ground arith;
    }
  ]

  shut_there : s.registered ≡ true → shut_registered s ≡ record s { queue = close ∷ [] }
  unfolding shut_registered
  shut_there r = ground arith

  shut_gone : s.registered ≡ false → shut_registered s ≡ s
  unfolding shut_registered
  shut_gone r = ground arith

  pub Owes-shut : (coming' : List Event) → Owes t (shut_registered s) coming' owed
  Owes-shut coming' = elim (Bool-cases s.registered) [
    | inl r ↦ rw (shut_there r) (Owes-emptied s.registered coming')
    | inr r ↦ rw (shut_gone r) (Owes-any coming' (ground arith))
  ]

  pub Owes-leave : (coming' : List Event) → Owes t (leave s) coming' owed
  Owes-leave coming' = record {
    topic_is = h.topic_is;
    rest = owed;
    begins = refl;
    complete = λ o. cc;
  }

-- The rounds of `_dispatch`.
module _ (t : String) (s : Subscriber) (owed : List Event) (size : ℕ) (r : Row)
    (rs : List Row) where
  offer_idle : (s.registered && (s.topic == r.topic)) ≡ false → offer size r s ≡ s
  unfolding offer
  offer_idle h = ground arith

  offer-full :
      (s.registered && (s.topic == r.topic)) ≡ true
      → full size s.queue ≡ true
      → offer size r s ≡ record s { queue = close ∷ []; registered = false }
  unfolding offer
  offer-full h f = rw (h, f)

  offer_room :
      (s.registered && (s.topic == r.topic)) ≡ true
      → full size s.queue ≡ false
      → offer size r s ≡ record s { queue = s.queue ++ event (to_event r) ∷ [] }
  unfolding offer
  offer_room h f = rw (h, f)

  pub offer-same :
      ((offer size r s).stage ≡ s.stage)
      × ((offer size r s).reg_seq ≡ s.reg_seq)
      × ((offer size r s).replay ≡ s.replay)
      × ((offer size r s).last_event_id ≡ s.last_event_id)
  unfolding offer
  offer-same = ground arith

  -- A row of another topic was not wanted.
  other_topic :
      Owes t s (wanted t s.reg_seq (r ∷ rs)) owed
      → (s.registered && (s.topic == r.topic)) ≡ false
      → Owes t s (wanted t s.reg_seq rs) owed
  other_topic h n = record {
    topic_is = h.topic_is;
    rest = h.rest;
    begins = h.begins;
    complete = λ o. ((h.complete o).0, ground (arith, (h.complete o).1, h.topic_is));
  }

  room-open :
      Owes t s (wanted t s.reg_seq (r ∷ rs)) owed
      → (s.registered && (s.topic == r.topic)) ≡ true
      → unmarked s.queue ≡ true
      → Owes t
          (record s { queue = s.queue ++ event (to_event r) ∷ [] })
          (wanted t s.reg_seq rs)
          owed
  room-open h y m = record {
    topic_is = h.topic_is;
    rest = wanted t s.reg_seq rs;
    begins = rw (before_close-append, m, not_finished, keep-append) assembled;
    complete = λ o. (not_finished, refl);
  }
    where
      is_opened : is_open s ≡ true
      is_opened = ground arith

      not_finished : is_finished s.stage ≡ false
      not_finished = (h.complete is_opened).0

      here :
          wanted t s.reg_seq (r ∷ rs) ≡ newer s.reg_seq (to_event r ∷ []) ++ wanted t s.reg_seq rs
      here = ground (arith, h.topic_is, eq_iff s.topic r.topic, eq_iff t r.topic)

      begun : s.replay ++ newer s.reg_seq (before_close s.queue) ++ h.rest ≡ owed
      begun = ground (arith, h.begins)

      assembled :
          s.replay
            ++ (newer s.reg_seq (before_close s.queue) ++ newer s.reg_seq (to_event r ∷ []))
            ++ wanted t s.reg_seq rs
          ≡ owed
      assembled = simp append_assoc (rw (append_assoc, (h.complete is_opened).1, here) at begun)

  room_closed :
      Owes t s (wanted t s.reg_seq (r ∷ rs)) owed
      → unmarked s.queue ≡ false
      → Owes t
          (record s { queue = s.queue ++ event (to_event r) ∷ [] })
          (wanted t s.reg_seq rs)
          owed
  room_closed h m = record {
    topic_is = h.topic_is;
    rest = h.rest;
    begins = rw (before_close-append, m) h.begins;
    complete = λ o. ground (arith, unmarked-append s.queue (to_event r));
  }

  -- A row that the pump dispatches moves from what is coming to what is pending.
  pub Owes-offer :
      Owes t s (wanted t s.reg_seq (r ∷ rs)) owed
      → Owes t (offer size r s) (wanted t s.reg_seq rs) owed
  Owes-offer h = elim (Bool-cases (s.registered && (s.topic == r.topic))) [
    | inr n ↦ rw (offer_idle n) (other_topic h n)
    | inl y ↦ elim (Bool-cases (full size s.queue)) [
      | inl f ↦
          rw (offer-full y f)
            (Owes-emptied t s (wanted t s.reg_seq (r ∷ rs)) owed h false (wanted t s.reg_seq rs))
      | inr f ↦ rw (offer_room y f) (elim (Bool-cases (unmarked s.queue)) [
        | inl m ↦ room-open h y m
        | inr m ↦ room_closed h m
      ])
    ]
  ]
