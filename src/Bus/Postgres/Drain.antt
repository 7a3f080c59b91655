-- ===== src/Bus/Postgres/Drain.antt =====
-- `_drain` of adapters/events/postgres.py as one loop, for a log to which nothing is added meanwhile.
use modal_template_fastapi.Common.{
  ℕ, zero, suc, ◌*◌, ◌<◌, ◌≤◌, ◌≡◌, refl, ap, sym, ◌∙◌, true, false, Option, none, some, List, [],
  ◌∷◌, ◌++◌, length, take, drop, length-take, length-drop, take-append-drop, take_short, ltb, arith,
  Bool-cases, inl, inr, append-nil, if◌then◌else◌,
}
use modal_template_fastapi.Bus.Postgres.{Row, Bus, after, batch_size, dispatch, dispatch_all}
use modal_template_fastapi.Bus.Postgres.Log.{Ascending, after-tail}

-- One round reads a batch and dispatches it; the loop returns once a batch is short. `none` is the
-- end of the fuel.
unfoldable pub drain : ℕ → Bus → Option Bus
unfolding dispatch_all
drain zero b = none
drain (suc fuel) b =
    let rows = take batch_size (after b.cursor b.rows) in
    let b' = dispatch_all rows b in
    let again = drain fuel b' in if ltb (length rows) batch_size then some b' else again

dispatch_all-append :
    (rs qs : List Row) (b : Bus) → dispatch_all (rs ++ qs) b ≡ dispatch_all qs (dispatch_all rs b)
unfolding dispatch_all
dispatch_all-append [] qs b = refl
dispatch_all-append (r ∷ rs) qs b = dispatch_all-append rs qs (dispatch r b)

-- The log stays as it is, and the cursor moves over the rows.
dispatch_all-after :
    (rs qs : List Row) (b : Bus)
    → Ascending 0 b.rows b.next_seq
    → after b.cursor b.rows ≡ rs ++ qs
    → (after (dispatch_all rs b).cursor (dispatch_all rs b).rows ≡ qs)
      × Ascending 0 (dispatch_all rs b).rows (dispatch_all rs b).next_seq
unfolding dispatch_all dispatch
dispatch_all-after [] qs b h e = (e, h)
dispatch_all-after (r ∷ rs) qs b h e =
    dispatch_all-after rs qs (dispatch r b) h
      (after-tail 0 b.next_seq b.cursor b.rows (rs ++ qs) r h e).0

not_below : (m n : ℕ) → ltb m n ≡ false → n ≤ m
not_below m n e = ground (arith, e)

fewer :
    (fuel : ℕ) (rs : List Row)
    → ltb (length (take batch_size rs)) batch_size ≡ false
    → length rs < suc fuel * batch_size
    → length (drop batch_size rs) < fuel * batch_size
fewer fuel rs long l = omega (
  arith,
  l,
  length-take batch_size rs,
  length-drop batch_size rs,
  not_below (length (take batch_size rs)) batch_size long,
)

module _ (fuel : ℕ) (b : Bus) (h : Ascending 0 b.rows b.next_seq) where
  abbrev unread : List Row
  unread = after b.cursor b.rows

  abbrev rows : List Row
  rows = take batch_size unread

  abbrev round : Bus
  round = dispatch_all rows b

  moved :
      (after round.cursor round.rows ≡ drop batch_size unread)
      × Ascending 0 round.rows round.next_seq
  moved =
      dispatch_all-after rows (drop batch_size unread) b h
        (sym (take-append-drop batch_size unread))

  whole : dispatch_all (after round.cursor round.rows) round ≡ dispatch_all unread b
  whole = rw moved.0 (
      sym (dispatch_all-append rows (drop batch_size unread) b)
      ∙ ap (λ x. dispatch_all x b) (take-append-drop batch_size unread))

  last_round :
      ltb (length rows) batch_size ≡ true → drain (suc fuel) b ≡ some (dispatch_all unread b)
  unfolding drain
  last_round short = rw short (
      ap (λ x. some (dispatch_all x b))
        (take_short batch_size unread (ground (arith, short, length-take batch_size unread))))

  further_round :
      ltb (length rows) batch_size ≡ false
      → drain fuel round ≡ some (dispatch_all (after round.cursor round.rows) round)
      → drain (suc fuel) b ≡ some (dispatch_all unread b)
  unfolding drain
  further_round long rest = rw long (rest ∙ ap some whole)

-- Where nothing is added to the log, `_drain` returns: one round for each batch of unread rows, and
-- one more, are enough. It has then dispatched every unread row once, in the order of the log, as a
-- loop without batches would, and no row is left unread.
pub drain_returns :
    (fuel : ℕ) (b : Bus)
    → Ascending 0 b.rows b.next_seq
    → length (after b.cursor b.rows) < fuel * batch_size
    → (drain fuel b ≡ some (dispatch_all (after b.cursor b.rows) b))
      × (after
            (dispatch_all (after b.cursor b.rows) b).cursor
            (dispatch_all (after b.cursor b.rows) b).rows
          ≡ [])
drain_returns zero b h l = ground (arith, l)
drain_returns (suc fuel) b h l = (
  elim (Bool-cases (ltb (length (rows fuel b h)) batch_size)) [
    | inl short ↦ last_round fuel b h short
    | inr long ↦
        further_round fuel b h long
          (drain_returns fuel (round fuel b h) (moved fuel b h).1
            (rw (moved fuel b h).0 (fewer fuel (unread fuel b h) long l))).0
  ],
  (dispatch_all-after (unread fuel b h) [] b h (sym (append-nil (unread fuel b h)))).0,
)
