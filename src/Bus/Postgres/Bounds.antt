-- ===== src/Bus/Postgres/Bounds.antt =====
-- Which numbers the events of a replay, and those that follow it, may have.
use modal_template_fastapi.Common.{
  ℕ, ◌≤◌, ◌<◌, String, Bool, true, false, Option, none, some, List, [], ◌∷◌, map, keep, leb, ltb,
  ◌&&◌, ◌==◌, string_keys, All, All-drop, arith, Bool-cases, inl, inr,
}
use modal_template_fastapi.Common.Text.{Unicode, ℤ, above, int_of}
use modal_template_fastapi.Domain.{Event}
use modal_template_fastapi.Bus.Postgres.{Row, Bus, to_event, range, replay_of, replayed_from}
use modal_template_fastapi.Bus.Postgres.Owed.{newer, wanted}

below_of_range :
    (t : String) (from : ℤ) (n : ℕ) (rs : List Row)
    → All (λ r. r.seq ≤ n) (keep (λ r. (r.topic == t) && (above r.seq from && leb r.seq n)) rs)
below_of_range t from n [] = tt
below_of_range t from n (r ∷ rs) =
    elim (Bool-cases ((r.topic == t) && (above r.seq from && leb r.seq n))) [
      | inl y ↦ rw y (ground (arith, y), below_of_range t from n rs)
      | inr z ↦ rw z (below_of_range t from n rs)
    ]

below_of_map :
    (n : ℕ) (rs : List Row) → All (λ r. r.seq ≤ n) rs → All (λ e. e.id ≤ n) (map to_event rs)
below_of_map n [] h = tt
below_of_map n (r ∷ rs) h = (h.0, below_of_map n rs h.1)

replayed_below :
    (failed : Bool) (t : String) (n : ℕ) (b : Bus) (i : Option ℤ)
    → All (λ e. e.id ≤ n) (replayed_from failed t n b i)
unfolding range
replayed_below failed t n b none = tt
replayed_below true t n b (some from) = tt
replayed_below false t n b (some from) =
    below_of_map n (range t from n b.replay_size b.rows)
      (All-drop (λ r. r.seq ≤ n) _ _ (below_of_range t from n b.rows))

-- A replay holds no event above the number after which the stream starts.
pub replay_below :
    (u : Unicode) (failed : Bool) (t : String) (w : Option String) (n : ℕ) (b : Bus)
    → All (λ e. e.id ≤ n) (replay_of u failed t w n b)
unfolding replay_of
replay_below u failed t none n b = tt
replay_below u failed t (some i) n b = replayed_below failed t n b (int_of u i)

pub newer_above : (n : ℕ) (es : List Event) → All (λ e. n < e.id) (newer n es)
newer_above n [] = tt
newer_above n (e ∷ es) = elim (Bool-cases (ltb n e.id)) [
  | inl y ↦ rw y (ground (arith, y), newer_above n es)
  | inr z ↦ rw z (newer_above n es)
]

pub wanted_above : (t : String) (n : ℕ) (rs : List Row) → All (λ e. n < e.id) (wanted t n rs)
wanted_above t n [] = tt
wanted_above t n (r ∷ rs) = elim (Bool-cases ((t == r.topic) && ltb n r.seq)) [
  | inl y ↦ rw y (ground (arith, y), wanted_above t n rs)
  | inr z ↦ rw z (wanted_above t n rs)
]
