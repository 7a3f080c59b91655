-- ===== src/Bus/Postgres/Received.antt =====
-- What a subscriber of the bus on Postgres receives when it asks: the front of what it is owed.
use modal_template_fastapi.Common.{
  ℕ, ◌≡◌, refl, sym, subst, String, Bool, true, false, List, [], ◌∷◌, ◌++◌, leb, arith, Bool-cases,
  inl, inr,
}
use modal_template_fastapi.Domain.{Event}
use modal_template_fastapi.Bus.Memory.{Message, event, close, Answer, yields, stops}
use modal_template_fastapi.Bus.Memory.Owed.{answered}
use modal_template_fastapi.Bus.Postgres.{
  Stage, connecting, replaying, live, finished, Subscriber, leave, pull, resume_live, resume,
}
use modal_template_fastapi.Bus.Postgres.Owed.{before_close, newer, Owes}

-- The starting point of the stream is fixed, and its replay is chosen.
abbrev pub is_loaded : Stage → Bool
is_loaded live = true
is_loaded finished = true
is_loaded _ = false

abbrev pub Received : String → List Event → List Event → ℕ → Answer × Subscriber → Type 0
Received t coming owed n (a, s) =
    (owed' : List Event) × (owed ≡ answered a ++ owed')
    × Owes t s coming owed'
    × (s.reg_seq ≡ n)
    × (is_loaded s.stage ≡ true)

module _ (t : String) (s : Subscriber) (coming : List Event) where
  abbrev with_queue : List Message → Subscriber
  with_queue q = record s { queue = q }

  passed_over :
      (e : Event) (q : List Message) (owed : List Event)
      → leb e.id s.reg_seq ≡ true
      → Owes t (with_queue (event e ∷ q)) coming owed
      → Owes t (with_queue q) coming owed
  passed_over e q owed l h = record {
    topic_is = h.topic_is;
    rest = h.rest;
    begins = ground (arith, h.begins);
    complete = h.complete;
  }

  yielded :
      (e : Event) (q : List Message) (owed : List Event)
      → s.stage ≡ live
      → s.replay ≡ []
      → leb e.id s.reg_seq ≡ false
      → Owes t (with_queue (event e ∷ q)) coming owed
      → Received t coming owed s.reg_seq (yields e, with_queue q)
  yielded e q owed f r l h = (
    newer s.reg_seq (before_close q) ++ h.rest,
    ground (arith, h.begins),
    record { topic_is = h.topic_is; rest = h.rest; begins = ground arith; complete = h.complete },
    refl,
    rw f,
  )

  pull-Received :
      (q : List Message) (owed : List Event)
      → s.stage ≡ live
      → s.replay ≡ []
      → Owes t (with_queue q) coming owed
      → Received t coming owed s.reg_seq (pull s q)
  unfolding pull
  pull-Received [] owed f r h = (owed, refl, h, refl, rw f)
  pull-Received (close ∷ q) owed f r h = (owed, refl, ended, refl, refl)
    where
      ended : Owes t (leave (with_queue q)) coming owed
      ended = record { topic_is = h.topic_is; rest = owed; begins = refl; complete = λ o. cc }
  pull-Received (event e ∷ q) owed f r h = elim (Bool-cases (leb e.id s.reg_seq)) [
    | inl l ↦ rw l (pull-Received q owed f r (passed_over e q owed l h))
    | inr l ↦ rw l (yielded e q owed f r l h)
  ]

  resume_live-Received :
      (r : List Event) (owed : List Event)
      → s.stage ≡ live
      → s.replay ≡ r
      → Owes t s coming owed
      → Received t coming owed s.reg_seq (resume_live s r)
  unfolding resume_live
  resume_live-Received [] owed f e h = pull-Received s.queue owed f e h
  resume_live-Received (d ∷ r) owed f e h = (
    r ++ newer s.reg_seq (before_close s.queue) ++ h.rest,
    ground (arith, h.begins),
    record { topic_is = h.topic_is; rest = h.rest; begins = rw f; complete = h.complete },
    refl,
    rw f,
  )

  resume_of_live : s.stage ≡ live → resume s ≡ resume_live s s.replay
  unfolding resume
  resume_of_live e = ground arith

  resume_of_finished : s.stage ≡ finished → resume s ≡ (stops, s)
  unfolding resume
  resume_of_finished e = ground arith

  resume_stage :
      (stage : Stage) (owed : List Event)
      → s.stage ≡ stage
      → is_loaded stage ≡ true
      → Owes t s coming owed
      → Received t coming owed s.reg_seq (resume s)
  resume_stage connecting owed e l h = cc
  resume_stage replaying owed e l h = cc
  resume_stage live owed e l h =
      subst (Received t coming owed s.reg_seq) (sym (resume_of_live e))
        (resume_live-Received s.replay owed e refl h)
  resume_stage finished owed e l h =
      subst (Received t coming owed s.reg_seq) (sym (resume_of_finished e))
        (owed, refl, h, refl, rw e)

  pub resume-Received :
      (owed : List Event)
      → is_loaded s.stage ≡ true
      → Owes t s coming owed
      → Received t coming owed s.reg_seq (resume s)
  resume-Received owed l h = resume_stage s.stage owed refl l h
