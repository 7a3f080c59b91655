-- ===== src/Bus/Postgres/Follows.antt =====
-- The stream of the bus on Postgres through the steps of the pump and of other streams.
use modal_template_fastapi.Common.{
  ℕ, ◌≡◌, refl, sym, ◌∙◌, String, Bool, true, false, Option, none, some, List, [], ◌∷◌, ◌++◌,
  append_assoc, nat_keys, string_keys, nat_eq, take, drop, take-append-drop, subst, arith,
  Bool-cases, inl, inr,
}
use modal_template_fastapi.Common.Dict
use modal_template_fastapi.Common.Dict.{Dict, get-put}
use modal_template_fastapi.Common.Text.{Unicode}
use modal_template_fastapi.Domain.{Event}
use modal_template_fastapi.Bus.Postgres.{
  Row, Subscriber, Bus, after, batch_size, fix, load, resume, next, change, fetch, dispatch_chunk,
  dispatch_all, chunk, close_bus, asked, changed, fetched,
}
use modal_template_fastapi.Bus.Postgres.Received.{is_loaded}
use modal_template_fastapi.Bus.Postgres.Tracks.{
  is_fixed, Tracks, Follows, put_other, dispatch_all-Tracks, pump-Tracks, close-Tracks,
}

module _ (u : Unicode) (k : ℕ) (t : String) (w : Option String) (n : ℕ) (m : Bool) where
  pub other_change :
      (j : ℕ) (f : Subscriber → Subscriber) (b : Bus) (owed : List Event)
      → nat_eq j k ≡ false
      → Follows u k t w n m b owed
      → Follows u k t w n m (change j f b) owed
  unfolding change
  other_change j f b owed ne h = other_changed (Dict.get j b.subscribers)
    where
      other_changed : (o : Option Subscriber) → Follows u k t w n m (changed j f b o) owed
      other_changed none = h
      other_changed (some s) = record {
        later = h.later;
        tracks = put_other u k t w n m j (f s) b.next_handle b _ owed h.tracks ne h.tracks.old;
      }

  pub other_ask :
      (j : ℕ) (b : Bus) (owed : List Event)
      → nat_eq j k ≡ false
      → Follows u k t w n m b owed
      → Follows u k t w n m (next j b).1 owed
  unfolding next
  other_ask j b owed ne h = other_asked (Dict.get j b.subscribers)
    where
      other_asked : (o : Option Subscriber) → Follows u k t w n m (asked j b o).1 owed
      other_asked none = h
      other_asked (some s) = record {
        later = h.later;
        tracks =
            put_other u k t w n m j (resume s).1 b.next_handle b _ owed h.tracks ne h.tracks.old;
      }

  -- What a generator does once it has its replay.
  pub fix_loaded :
      (failed : Bool) (b : Bus) (s : Subscriber) → is_fixed s.stage ≡ true → fix failed b s ≡ s
  unfolding fix
  fix_loaded failed b s h = ground (arith, h)

  pub load_loaded :
      (failed : Bool) (b : Bus) (s : Subscriber) → is_loaded s.stage ≡ true → load u failed b s ≡ s
  unfolding load
  load_loaded failed b s h = ground (arith, h)

  pub fetch-Follows :
      (b : Bus) (owed : List Event)
      → Follows u k t w n m b owed
      → Follows u k t w n m (fetch b) owed
  unfolding fetch
  fetch-Follows b owed h = fetched-Follows b.batch refl
    where
      read : List Row
      read = after b.cursor b.rows

      fetched_off : b.running ≡ false → fetched b [] ≡ b
      fetched_off e = ground arith

      fetched_on : b.running ≡ true → fetched b [] ≡ record b { batch = take batch_size read }
      fetched_on e = ground arith

      fetched-Follows : (rs : List Row) → b.batch ≡ rs → Follows u k t w n m (fetched b rs) owed
      fetched-Follows (_ ∷ _) e = h
      fetched-Follows [] e = elim (Bool-cases b.running) [
        | inr off ↦ subst (λ x. Follows u k t w n m x owed) (sym (fetched_off off)) h
        | inl on ↦
            subst (λ x. Follows u k t w n m x owed) (sym (fetched_on on))
              (record {
                later = drop batch_size read;
                tracks =
                    pump-Tracks u k t w n m b (take batch_size read ++ drop batch_size read) owed
                      b.running (take batch_size read) b.next_seq (omega arith)
                      (subst (λ l. Tracks u k t w n m b l owed)
                        (sym h.tracks.unread_is ∙ sym (take-append-drop batch_size read)) h.tracks);
              })
      ]

  pub chunk-Follows :
      (b : Bus) (owed : List Event)
      → Follows u k t w n m b owed
      → Follows u k t w n m (dispatch_chunk b) owed
  unfolding dispatch_chunk
  chunk-Follows b owed h = record {
    later = h.later;
    tracks =
        pump-Tracks u k t w n m b' (drop (chunk b) b.batch ++ h.later) owed b'.running
          (drop (chunk b) b.batch) b'.next_seq (omega arith)
          (dispatch_all-Tracks u k t w n m (take (chunk b) b.batch) b _ owed
            (rw (← append_assoc, take-append-drop) h.tracks));
  }
    where
      b' : Bus
      b' = dispatch_all (take (chunk b) b.batch) b

  pub shut-Follows :
      (b : Bus) (owed : List Event)
      → Follows u k t w n m b owed
      → Follows u k t w n m (close_bus b) owed
  unfolding close_bus
  shut-Follows b owed h = record {
    later = b.batch ++ h.later;
    tracks =
        pump-Tracks u k t w n m (close_bus b) (b.batch ++ h.later) owed false [] b.next_seq
          (omega arith) (close-Tracks u k t w n m b _ owed h.tracks);
  }
