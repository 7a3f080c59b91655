-- ===== src/Bus/Postgres/Log.antt =====
-- The table `events` as the pump reads it: rows in the order of `seq`, a cursor, and the rows after it.
use modal_template_fastapi.Common.{
  ℕ, ◌+◌, ◌≤◌, ◌<◌, ◌≡◌, refl, Bool, List, [], ◌∷◌, ◌++◌, keep, arith, Bool-cases, inl, inr,
}
use modal_template_fastapi.Bus.Postgres.{Row, Bus, after, max_seq}

-- The numbers of the rows rise from above `low` and stay below `high`.
abbrev pub Ascending : ℕ → List Row → ℕ → Type 0
Ascending low [] high = Unit
Ascending low (r ∷ rs) high = (low < r.seq) × (r.seq < high) × Ascending r.seq rs high

pub Ascending-lower :
    (low low' high : ℕ) (rs : List Row)
    → low' ≤ low
    → Ascending low rs high
    → Ascending low' rs high
Ascending-lower low low' high [] l h = tt
Ascending-lower low low' high (r ∷ rs) l h = (omega (arith, h.0), h.1, h.2)

pub Ascending-raise :
    (low high high' : ℕ) (rs : List Row)
    → high ≤ high'
    → Ascending low rs high
    → Ascending low rs high'
Ascending-raise low high high' [] l h = tt
Ascending-raise low high high' (r ∷ rs) l h =
    (h.0, omega (arith, h.1), Ascending-raise r.seq high high' rs l h.2)

pub Ascending-append :
    (low high : ℕ) (rs : List Row) (r : Row)
    → low < high
    → r.seq ≡ high
    → Ascending low rs high
    → Ascending low (rs ++ r ∷ []) (high + 1)
Ascending-append low high [] r l e h = (omega arith, omega arith, tt)
Ascending-append low high (x ∷ rs) r l e h =
    (h.0, omega (arith, h.1), Ascending-append x.seq high rs r h.1 e h.2)

pub Ascending-keep :
    (low high : ℕ) (p : Row → Bool) (rs : List Row)
    → Ascending low rs high
    → Ascending low (keep p rs) high
Ascending-keep low high p [] h = tt
Ascending-keep low high p (r ∷ rs) h = elim (Bool-cases (p r)) [
  | inl e ↦ rw e (h.0, h.1, Ascending-keep r.seq high p rs h.2)
  | inr e ↦
      rw e
        (Ascending-lower r.seq low high _ (omega (arith, h.0)) (Ascending-keep r.seq high p rs h.2))
]

pub max_seq-below :
    (low high : ℕ) (rs : List Row) → low < high → Ascending low rs high → max_seq rs < high
max_seq-below low high [] l h = omega arith
max_seq-below low high (r ∷ rs) l h = omega (arith, h.1, max_seq-below r.seq high rs h.1 h.2)

-- Nothing is newer than the newest.
pub after_top : (c : ℕ) (rs : List Row) → max_seq rs ≤ c → after c rs ≡ []
after_top c [] l = refl
after_top c (r ∷ rs) l = ground (arith, after_top c rs (omega arith))

pub after_all : (low high c : ℕ) (rs : List Row) → c ≤ low → Ascending low rs high → after c rs ≡ rs
after_all low high c [] l h = refl
after_all low high c (r ∷ rs) l h =
    ground (arith, h.0, after_all r.seq high c rs (omega (arith, h.0)) h.2)

after-newer : (c : ℕ) (rs rest : List Row) (r : Row) → after c rs ≡ r ∷ rest → c < r.seq
after-newer c [] rest r e = cc
after-newer c (x ∷ rs) rest r e = ground (arith, after-newer c rs rest r)

-- Past the first row after the cursor come the others after the cursor.
pub after-tail :
    (low high c : ℕ) (rs rest : List Row) (r : Row)
    → Ascending low rs high
    → after c rs ≡ r ∷ rest
    → (after r.seq rs ≡ rest) × (r.seq < high)
after-tail low high c [] rest r h e = cc
after-tail low high c (x ∷ rs) rest r h e = ground (
  arith,
  h.0,
  h.1,
  after_all x.seq high c rs,
  after_all x.seq high x.seq rs,
  after-newer c rs rest r,
  after-tail x.seq high c rs rest r h.2,
)

-- The rows stand in order, the cursor is behind the next number, and the rows that the pump has read
-- are the first of those after the cursor.
pub record WellFormed (b : Bus) : Type 0 where
  pub ordered : Ascending 0 b.rows b.next_seq
  pub behind : b.cursor < b.next_seq
  pub unread : List Row
  pub split : b.batch ++ unread ≡ after b.cursor b.rows
