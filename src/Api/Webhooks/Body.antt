-- ===== src/Api/Webhooks/Body.antt =====
-- `_read_limited` of api/webhooks.py: a request body that is read chunk by chunk.
use modal_template_fastapi.Common.{
  ℕ, ◌+◌, ◌≤◌, ◌≡◌, Option, none, some, List, [], ◌∷◌, ◌++◌, append_assoc, append-nil, length,
  length-append, leb, ltb, if◌then◌else◌, arith, Bool-cases, inl, inr,
}

abbrev pub Bytes : Type 0
Bytes = List ℕ

-- the loop, with the bytes that it has kept
unfoldable pub read_from : ℕ → Bytes → List Bytes → Option Bytes
read_from limit kept [] = some kept
read_from limit kept (chunk ∷ chunks) =
    let rest = read_from limit (kept ++ chunk) chunks in
    if ltb limit (length kept + length chunk) then none else rest

unfoldable pub read_limited : ℕ → List Bytes → Option Bytes
unfolding read_from
read_limited limit chunks = read_from limit [] chunks

-- How many bytes the loop has taken in when it returns.
unfoldable pub taken_from : ℕ → Bytes → List Bytes → ℕ
taken_from limit kept [] = length kept
taken_from limit kept (chunk ∷ chunks) =
    let rest = taken_from limit (kept ++ chunk) chunks in
    if ltb limit (length kept + length chunk) then length kept + length chunk else rest

abbrev pub whole : List Bytes → Bytes
whole [] = []
whole (c ∷ cs) = c ++ whole cs

abbrev pub longest : List Bytes → ℕ
longest [] = 0
longest (c ∷ cs) = if ltb (longest cs) (length c) then length c else longest cs

read_from-exact :
    (limit : ℕ) (kept : Bytes) (chunks : List Bytes)
    → length kept ≤ limit
    → read_from limit kept chunks
      ≡ (if leb (length (kept ++ whole chunks)) limit then some (kept ++ whole chunks) else none)
unfolding read_from
read_from-exact limit kept [] h = rw append-nil (ground arith)
read_from-exact limit kept (c ∷ cs) h = elim (Bool-cases (ltb limit (length kept + length c))) [
  | inl big ↦ ground (arith, length-append kept (c ++ whole cs), length-append c (whole cs))
  | inr small ↦ rw small (
      rw append_assoc at
        (read_from-exact limit (kept ++ c) cs (ground (arith, length-append kept c))))
]

-- The body is returned whole exactly when it fits the limit; else there is none.
pub read_limited-exact :
    (limit : ℕ) (chunks : List Bytes)
    → read_limited limit chunks
      ≡ (if leb (length (whole chunks)) limit then some (whole chunks) else none)
unfolding read_limited
read_limited-exact limit chunks = read_from-exact limit [] chunks (omega arith)

taken_from-le :
    (limit : ℕ) (kept : Bytes) (chunks : List Bytes)
    → length kept ≤ limit
    → taken_from limit kept chunks ≤ limit + longest chunks
unfolding taken_from
taken_from-le limit kept [] h = omega arith
taken_from-le limit kept (c ∷ cs) h =
    ground (arith, taken_from-le limit (kept ++ c) cs, length-append kept c)

-- Whatever is sent, no more than the limit and one chunk is taken in before the loop returns.
pub read_limited_bounded :
    (limit : ℕ) (chunks : List Bytes) → taken_from limit [] chunks ≤ limit + longest chunks
read_limited_bounded limit chunks = taken_from-le limit [] chunks (omega arith)
