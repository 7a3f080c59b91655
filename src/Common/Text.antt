-- ===== src/Common/Text.antt =====
-- The methods of Python's `str` that the program uses, over the code points of a text.
-- What a method looks up in the tables of the Unicode standard is a parameter, `Unicode`.
use Prim.Native.Char.{Char, code}
use Prim.Native.String
use Prim.Native.String.{String, [], ◌∷◌}
use mathlib.Core.Bool.{Bool, true, false, ◌||◌, ◌&&◌}
use Prim.Native.Nat.{ℕ, zero, suc, ◌+◌, ◌*◌}
use mathlib.Core.Option
use mathlib.Core.Option.{Option, none, some}
use modal_template_fastapi.Common.Tests.{leb, ltb, nat_eq, if◌then◌else◌}

infixl 60 ◌⧺◌
abbrev pub ◌⧺◌ : String → String → String
◌⧺◌ = String.◌++◌

-- `c.isspace()`
unfoldable pub is_space : Char → Bool
is_space c =
    let n = code c in
    leb 9 n && leb n 13
    || leb 28 n && leb n 32
    || nat_eq n 0x85
    || nat_eq n 0xa0
    || nat_eq n 0x1680
    || leb 0x2000 n && leb n 0x200a
    || nat_eq n 0x2028
    || nat_eq n 0x2029
    || nat_eq n 0x202f
    || nat_eq n 0x205f
    || nat_eq n 0x3000

-- `s.lstrip()`
unfoldable pub lstrip : String → String
unfolding is_space
lstrip [] = []
lstrip (c ∷ s) = let rest = lstrip s in if is_space c then rest else c ∷ s

-- One character in front of a text that has no space at its end.
rstrip_cons : Char → String → String
rstrip_cons c [] = if is_space c then [] else c ∷ []
rstrip_cons c (d ∷ t) = c ∷ d ∷ t

-- `s.rstrip()`: a space is dropped when nothing but spaces follows it
unfoldable pub rstrip : String → String
unfolding is_space rstrip_cons
rstrip [] = []
rstrip (c ∷ s) = rstrip_cons c (rstrip s)

-- `s.strip()`
unfoldable pub strip : String → String
unfolding lstrip rstrip
strip s = lstrip (rstrip s)

-- `not s`, as Python reads a text as a truth value
abbrev pub is_empty : String → Bool
is_empty [] = true
is_empty (c ∷ s) = false

-- The tables of the Unicode standard behind `casefold`, `lower`, `upper`, `int` and `isdigit`.
pub record Unicode : Type 0 where
  pub fold : Char → String
  pub to_lower : Char → String
  pub to_upper : Char → String
  pub digit : Char → Option ℕ
  pub has_digit : Char → Bool

-- `s.casefold()`, `s.lower()` and `s.upper()`, one code point at a time
unfoldable pub map_text : (Char → String) → String → String
map_text f [] = []
map_text f (c ∷ s) = f c ⧺ map_text f s

-- A signed number; `negsuc n` is -(n + 1).
pub data ℤ : Type 0 where
  pos negsuc : ℕ → ℤ

-- `n > z`, for a number that is not negative
abbrev pub above : ℕ → ℤ → Bool
above n (pos m) = ltb m n
above n (negsuc m) = true

abbrev pub max_digits : ℕ
max_digits = 4300

-- The digits of `int(s)`: an underscore may stand between two of them, and Python refuses more
-- than `max_digits`. `ended` tells whether the text before ends in a digit.
int_digits : Unicode → ℕ → ℕ → Bool → String → Option ℕ
int_digits u acc seen ended [] = if ended && leb seen max_digits then some acc else none
int_digits u acc seen ended (c ∷ s) = elim (u.digit c) [
  | some d ↦ int_digits u (acc * 10 + d) (seen + 1) true s
  | none ↦ elim (nat_eq (code c) b'_' && ended) [
    | true ↦ int_digits u acc seen false s
    | false ↦ none
  ]
]

negate : ℕ → ℤ
negate zero = pos zero
negate (suc n) = negsuc n

signed : Unicode → String → Option ℤ
signed u [] = none
signed u (c ∷ s) =
    if nat_eq (code c) b'-'
    then Option.map negate (int_digits u 0 0 false s)
    else if nat_eq (code c) b'+'
    then Option.map pos (int_digits u 0 0 false s)
    else Option.map pos (int_digits u 0 0 false (c ∷ s))

-- `int(s)`; `none` is its ValueError
unfoldable pub int_of : Unicode → String → Option ℤ
unfolding int_digits negate signed strip
int_of u s = signed u (strip s)

all_digits : Unicode → String → Bool
all_digits u [] = true
all_digits u (c ∷ s) = u.has_digit c && all_digits u s

-- `s.isdigit()`
unfoldable pub is_digit : Unicode → String → Bool
unfolding all_digits
is_digit u [] = false
is_digit u (c ∷ s) = all_digits u (c ∷ s)

-- `s.startswith(p)`
unfoldable pub starts_with : String → String → Bool
starts_with [] s = true
starts_with (c ∷ p) [] = false
starts_with (c ∷ p) (d ∷ s) = nat_eq (code c) (code d) && starts_with p s

-- `p in s`
unfoldable pub contains : String → String → Bool
unfolding starts_with
contains p [] = is_empty p
contains p (c ∷ s) = starts_with p (c ∷ s) || contains p s

same_text : String → String → Bool
same_text [] [] = true
same_text [] (d ∷ s) = false
same_text (c ∷ p) [] = false
same_text (c ∷ p) (d ∷ s) = nat_eq (code c) (code d) && same_text p s

-- `s.endswith(p)`
unfoldable pub ends_with : String → String → Bool
unfolding same_text
ends_with p [] = is_empty p
ends_with p (c ∷ s) = same_text p (c ∷ s) || ends_with p s
