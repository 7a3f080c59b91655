-- ===== src/Bus/Memory/Replay.antt =====
-- The bounds of the in-memory bus: what it retains for replay, and what it queues.
use modal_template_fastapi.Common.{
  ℕ, zero, suc, ◌+◌, ◌-◌, ◌≤◌, ◌<◌, ◌≡◌, refl, String, Option, none, some, List, [], ◌∷◌, ◌++◌,
  length, length-append, length-drop, drop, All, All-append, max, nat_keys, string_keys,
  Option-cases, Bool-cases, subst, ap, inl, inr, arith, ◌==◌,
}
use modal_template_fastapi.Common.Dict
use modal_template_fastapi.Common.Dict.{Dict, get-put}
use modal_template_fastapi.Common.Text.{Unicode}
use modal_template_fastapi.Domain.{Event}
use modal_template_fastapi.Bus.Memory.{
  Message, event, close, Subscriber, Bus, append_bounded, or_empty, offer, map_values, publish,
  start, resume, resume_replay, pull, next, resumed, left, stop,
}
use modal_template_fastapi.Bus.Memory.Delivery.{
  Action, publishes, starts, asks, quits, act, run, get-map_values,
}

-- The ids increase, and none is above `top`.
abbrev pub Increasing : List Event → Type 0
Increasing [] = Unit
Increasing (e ∷ es) = All (λ d. e.id < d.id) es × Increasing es

abbrev pub Below : ℕ → List Event → Type 0
Below top es = All (λ d. d.id ≤ top) es

Below-mono : (m n : ℕ) (es : List Event) → m ≤ n → Below m es → Below n es
Below-mono m n [] h b = tt
Below-mono m n (e ∷ es) h b = (omega arith, Below-mono m n es h b.1)

Increasing-append :
    (e : Event) (n : ℕ) (es : List Event)
    → n < e.id
    → Below n es
    → Increasing es
    → Increasing (es ++ e ∷ [])
Increasing-append e n [] h b i = (tt, tt)
Increasing-append e n (d ∷ es) h b i = (above es b.1 i.0, Increasing-append e n es h b.1 i.1)
  where
    above :
        (xs : List Event)
        → Below n xs
        → All (λ x. d.id < x.id) xs
        → All (λ x. d.id < x.id) (xs ++ e ∷ [])
    above xs _ a = All-append (λ x. d.id < x.id) xs (e ∷ []) a (omega (arith, b.0), tt)

Increasing-drop : (n : ℕ) (es : List Event) → Increasing es → Increasing (drop n es)
Increasing-drop zero es i = i
Increasing-drop (suc n) [] i = tt
Increasing-drop (suc n) (e ∷ es) i = Increasing-drop n es i.1

Below-drop : (top n : ℕ) (es : List Event) → Below top es → Below top (drop n es)
Below-drop top zero es b = b
Below-drop top (suc n) [] b = tt
Below-drop top (suc n) (e ∷ es) b = Below-drop top n es b.1

-- What is retained for one topic.
pub record IsRetained (size seq : ℕ) (es : List Event) : Type 0 where
  pub short : length es ≤ size
  pub increasing : Increasing es
  pub below : Below seq es

append_bounded-IsRetained :
    (size seq : ℕ) (e : Event) (es : List Event)
    → e.id ≡ seq + 1
    → IsRetained size seq es
    → IsRetained size (seq + 1) (append_bounded size e es)
unfolding append_bounded
append_bounded-IsRetained size seq e es p h = record {
  short = omega (arith, length-drop (length (es ++ e ∷ []) - size) (es ++ e ∷ []));
  increasing =
      Increasing-drop _ (es ++ e ∷ [])
        (Increasing-append e seq es (omega arith) h.below h.increasing);
  below = Below-drop (seq + 1) _ (es ++ e ∷ []) (
      All-append _ es (e ∷ []) (Below-mono seq (seq + 1) es (omega arith) h.below)
        (omega arith, tt));
}

-- A stream's queue holds at most `size` messages, and one when it was dropped.
abbrev pub IsShort : ℕ → Subscriber → Type 0
IsShort size s = length s.queue ≤ max 1 size

offer-IsShort :
    (size : ℕ) (topic : String) (e : Event) (s : Subscriber)
    → 0 < size
    → IsShort size s
    → IsShort size (offer size topic e s)
unfolding offer
offer-IsShort size topic e s p h = ground (arith, length-append s.queue (event e ∷ []))

pull-IsShort :
    (size : ℕ) (s : Subscriber) (q : List Message)
    → s.queue ≡ q
    → IsShort size s
    → IsShort size (pull s q).1
unfolding pull
pull-IsShort size s [] e h = h
pull-IsShort size s (event d ∷ q) e h = omega (arith, ap length e)
pull-IsShort size s (close ∷ q) e h = omega (arith, ap length e)

resume_replay-IsShort :
    (size : ℕ) (s : Subscriber) (r : List Event)
    → IsShort size s
    → IsShort size (resume_replay s r).1
unfolding resume_replay
resume_replay-IsShort size s [] h = pull-IsShort size s s.queue refl h
resume_replay-IsShort size s (e ∷ r) h = h

resume-IsShort : (size : ℕ) (s : Subscriber) → IsShort size s → IsShort size (resume s).1
unfolding resume
resume-IsShort size s h = ground (arith, resume_replay-IsShort size s s.replay)

IsRetained-later :
    (size seq : ℕ) (es : List Event) → IsRetained size seq es → IsRetained size (seq + 1) es
IsRetained-later size seq es h = record {
  short = h.short;
  increasing = h.increasing;
  below = Below-mono seq (seq + 1) es (omega arith) h.below;
}

-- What is retained for each topic, and what is queued for each stream.
pub record IsBounded (b : Bus) : Type 0 where
  pub capacity : 0 < b.queue_size
  pub retained :
      (t : String) (es : List Event)
      → Dict.get t b.history ≡ some es
      → IsRetained b.replay_size b.seq es
  pub short : (k : ℕ) (s : Subscriber) → Dict.get k b.subscribers ≡ some s → IsShort b.queue_size s

put-IsBounded :
    (j n : ℕ) (s : Subscriber) (b : Bus)
    → IsBounded b
    → IsShort b.queue_size s
    → IsBounded (record b { subscribers = Dict.put j s b.subscribers; next_handle = n })
put-IsBounded j n s b h q = record {
  capacity = h.capacity;
  retained = h.retained;
  short = λ k s' e. ground (arith, get-put j k s b.subscribers, h.short k s');
}

old-IsRetained :
    (topic : String) (b : Bus)
    → IsBounded b
    → IsRetained b.replay_size b.seq (or_empty (Dict.get topic b.history))
old-IsRetained topic b h = elim (Option-cases (Dict.get topic b.history)) [
  | inl e ↦ rw e (record { short = omega arith; increasing = tt; below = tt })
  | inr (es, e) ↦ rw e (h.retained topic es e)
]

IsRetained-after :
    (topic : String) (e : Event) (b : Bus)
    → IsBounded b
    → e.id ≡ b.seq + 1
    → (t : String) (es : List Event)
    → Dict.get t (
        Dict.put topic
          (append_bounded b.replay_size e (or_empty (Dict.get topic b.history)))
          b.history)
      ≡ some es
    → IsRetained b.replay_size (b.seq + 1) es
IsRetained-after topic e b h p t es found =
    let new = append_bounded b.replay_size e (or_empty (Dict.get topic b.history)) in
    elim (Bool-cases (topic == t)) [
      | inl same ↦
          let q : new ≡ es = ground (arith, get-put topic t new b.history) in
          subst (IsRetained b.replay_size (b.seq + 1)) q
            (append_bounded-IsRetained b.replay_size b.seq e _ p (old-IsRetained topic b h))
      | inr other ↦
          IsRetained-later b.replay_size b.seq es
            (h.retained t es (ground (arith, get-put topic t new b.history)))
    ]

IsShort-after :
    (size : ℕ) (topic : String) (e : Event) (k : ℕ) (m : Dict ℕ Subscriber) (s : Subscriber)
    → 0 < size
    → ((s : Subscriber) → Dict.get k m ≡ some s → IsShort size s)
    → Dict.get k (map_values (offer size topic e) m) ≡ some s
    → IsShort size s
IsShort-after size topic e k m s p h found = elim (Option-cases (Dict.get k m)) [
  | inl gone ↦ ground (arith, get-map_values (offer size topic e) k m)
  | inr (old, was) ↦
      let q : offer size topic e old ≡ s =
        ground (arith, get-map_values (offer size topic e) k m) in
      subst (IsShort size) q (offer-IsShort size topic e old p (h old was))
]

module _ (u : Unicode) (k : ℕ) (t : String) where
  resumed-IsBounded :
      (j : ℕ) (b : Bus) (o : Option Subscriber)
      → Dict.get j b.subscribers ≡ o
      → IsBounded b
      → IsBounded (resumed j b o).1
  resumed-IsBounded j b none e h = h
  resumed-IsBounded j b (some s) e h =
      put-IsBounded j b.next_handle (resume s).1 b h (resume-IsShort b.queue_size s (h.short j s e))

  left-IsBounded :
      (j : ℕ) (b : Bus) (o : Option Subscriber)
      → Dict.get j b.subscribers ≡ o
      → IsBounded b
      → IsBounded (left j b o)
  left-IsBounded j b none e h = h
  left-IsBounded j b (some s) e h = put-IsBounded j b.next_handle _ b h (h.short j s e)

  act-IsBounded : (x : Action) (b : Bus) → IsBounded b → IsBounded (act u k t x b).0
  unfolding act publish start next stop
  act-IsBounded (publishes topic type payload now) b h = record {
    capacity = h.capacity;
    retained = IsRetained-after topic _ b h refl;
    short = λ j s found.
        IsShort-after b.queue_size topic _ j b.subscribers s h.capacity (h.short j) found;
  }
  act-IsBounded (starts topic last_event_id) b h =
      put-IsBounded b.next_handle (b.next_handle + 1) _ b h (omega arith)
  act-IsBounded (asks j) b h = resumed-IsBounded j b (Dict.get j b.subscribers) refl h
  act-IsBounded (quits j) b h = left-IsBounded j b (Dict.get j b.subscribers) refl h

  -- From a bus where it holds, whatever is published, started, read and left: the ids that a topic
  -- retains are increasing and at most `replay_size`, and no stream has more than `queue_size`
  -- messages queued.
  pub run-IsBounded : (xs : List Action) (b : Bus) → IsBounded b → IsBounded (run u k t xs b).0
  unfolding run
  run-IsBounded [] b h = h
  run-IsBounded (x ∷ xs) b h = run-IsBounded xs (act u k t x b).0 (act-IsBounded x b h)
